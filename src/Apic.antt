-- ===== src/Apic.antt =====
-- src/os/src/cpu/apic.c: from the old interrupt controller to the local APIC.
pub mod Base
pub mod Kept
mod Tests
use flosp_os.Common.{
  ℕ, zero, suc, ◌+◌, ◌-◌, ◌*◌, ◌^◌, Bool, true, ltb, ◌==◌, if◌then◌else◌, bit_and, bit_or, u16, u32,
  u64, ◌<<◌, ◌>>>◌, codes,
}
use flosp_os.Mem.{Memory}
use flosp_os.Text
use flosp_os.Machine.{
  M, Machine, pure, ◌>>=◌, ◌>>◌, skip, get, modify, outb, read_reg, write_reg, kprint, kprint_run,
  kern_log, cpu_freeze, filter_debug, filter_critical,
}
use flosp_os.Interrupts.{pic_command_master, pic_command_slave, pic_data_master, pic_data_slave}
use flosp_os.Acpi.{get_lapic_address_acpi}

-- The initialization command words of apic.h.
abbrev pub icw_1 : ℕ
icw_1 = 0x11

abbrev pub icw_2_master : ℕ
icw_2_master = 0x20

abbrev pub icw_2_slave : ℕ
icw_2_slave = 0x28

abbrev pub icw_3_master : ℕ
icw_3_master = 0x02

abbrev pub icw_3_slave : ℕ
icw_3_slave = 0x04

abbrev pub icw_4 : ℕ
icw_4 = 0x01

-- IA32_APIC_BASE_MSR_ENABLE
abbrev pub apic_base_enable : ℕ
apic_base_enable = 0x800

abbrev pub spurious_vector : ℕ
spurious_vector = 0xf0

-- CPUID_FEAT_EDX_APIC
abbrev pub feature_apic : ℕ
feature_apic = 0x200

-- A `char` read as a number that is added to a `ui32_t`: it is signed.
abbrev pub signed_char : ℕ → ℕ
signed_char b = if ltb b 128 then b else b + (2 ^ 32 - 256)

-- The loop of `validate_rsdp`, with `n` bytes left.
unfoldable pub sum_chars : Memory → ℕ → ℕ → ℕ → ℕ
sum_chars m zero addr sum = sum
sum_chars m (suc n) addr sum = sum_chars m n (addr + 1) (u32 (sum + signed_char (m addr)))

-- `size` is of the type size_t of datatypes.h, a `ui16_t`.
unfoldable pub validate_rsdp : Memory → ℕ → ℕ → Bool
validate_rsdp m rsdp size = bit_and (sum_chars m (u16 size) rsdp 0) 0xff == 0

unfoldable pub disable_pic8259 : M (Unit {0})
disable_pic8259 = do
  outb pic_command_master icw_1
  outb pic_command_slave icw_1
  outb pic_data_master icw_2_master
  outb pic_data_slave icw_2_slave
  outb pic_data_master icw_3_master
  outb pic_data_slave icw_3_slave
  outb pic_data_master icw_4
  outb pic_data_slave icw_4

-- `wrmsr` writes the two halves of the register.
unfoldable pub lapic_set_base : ℕ → M (Unit {0})
lapic_set_base base =
    let low = u32 (bit_or (bit_and base 0xfffff0000) apic_base_enable) in
    let high = u32 (bit_and (base >>> 32) 0x0f) in
    modify (λ s. record s { apic_base = high * 2 ^ 32 + low })

unfoldable pub lapic_get_base : M ℕ
lapic_get_base s =
    let low = u32 s.apic_base in
    let high = s.apic_base >>> 32 in
    pure (bit_or (bit_and low 0xfffff000) (u64 (bit_and high 0x0f << 32))) s

unfoldable pub check_apic : M (Unit {0})
check_apic = do
  s ← get
  let refuse = (do kern_log filter_critical (codes "APIC Not Supported"); cpu_freeze)
  if bit_and s.env.features feature_apic == 0 then refuse else skip

unfoldable pub enable_lapic : M (Unit {0})
enable_lapic = do
  kern_log filter_debug (codes "Debug: Checking for APIC support")
  check_apic
  kern_log filter_debug (codes "Debug: Disabling PIC8259 and masking its interrupts")
  disable_pic8259
  address ← get_lapic_address_acpi
  modify (λ s. record s { lapic_addr = address })
  kprint (codes "Debug: Found LAPIC address at: ")
  s ← get
  kprint_run (Text.kprint_hex s.env.garbage s.lapic_addr true)
  kprint (codes "\n")
  kern_log filter_debug (codes "Debug: Enabling the LAPIC if it was not already done")
  base ← lapic_get_base
  lapic_set_base base
  kern_log filter_debug (codes "Debug: Setting the Spurious bit to start recieving interrupts")
  vector ← read_reg (u64 (s.lapic_addr + spurious_vector))
  write_reg (u64 (s.lapic_addr + spurious_vector)) (u32 (bit_or vector 0x100))
