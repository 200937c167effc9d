-- ===== src/Acpi.antt =====
-- src/os/src/cpu/acpi.c: the tables that the firmware leaves in memory.
pub mod Tables
pub mod Madt
mod Tests
use flosp_os.Common.{
  ℕ, zero, suc, ◌+◌, ◌-◌, ◌*◌, ◌/◌, ◌^◌, List, [], ◌∷◌, Bool, true, false, not, ◌&&◌, ◌||◌, ltb,
  leb, ◌==◌, if◌then◌else◌, bit_and, u16, u32, u64, codes, get_or,
}
use flosp_os.Common.Run.{Run, done, stuck}
use flosp_os.Mem.{Memory, load_le}
use flosp_os.Text
use flosp_os.Text.{Text}
use flosp_os.Machine.{
  M, Machine, Acpi, pure, lift, ◌>>=◌, ◌>>◌, skip, get, modify, kprint, kprint_run, kern_log,
  cpu_freeze, filter_debug, filter_info, filter_critical,
}

-- Sizes and offsets of the packed structures of acpi.h.
abbrev pub sdt_header_size : ℕ
sdt_header_size = 36

abbrev pub xsdp_size : ℕ
xsdp_size = 36

abbrev pub madt_size : ℕ
madt_size = 44

-- `((acpi_sdt_header_t*)table)->length` and `->revision`
abbrev pub table_length : Memory → ℕ → ℕ
table_length m table = load_le 4 m (table + 4)

abbrev pub table_revision : Memory → ℕ → ℕ
table_revision m table = m (table + 8)

abbrev pub xsdp_revision : Memory → ℕ → ℕ
xsdp_revision m xsdp = m (xsdp + 15)

abbrev pub xsdt_ptr : Memory → ℕ → ℕ
xsdt_ptr m xsdp = load_le 8 m (xsdp + 24)

-- `XSDT->sdt_ptrs[i]`
abbrev pub sdt_ptr : Memory → ℕ → ℕ → ℕ
sdt_ptr m xsdt i = load_le 8 m (xsdt + sdt_header_size + 8 * i)

abbrev pub iapc_boot_arch : Memory → ℕ → ℕ
iapc_boot_arch m fadt = load_le 2 m (fadt + 109)

-- MADT_ENTRY_TYPE_LAPIC_ADDRESS_OVERRIDE
abbrev pub lapic_address_override : ℕ
lapic_address_override = 0x05

-- The comparison of the four characters of a table with those of a signature; a null byte ends that.
unfoldable pub signature_is : Memory → ℕ → Text → Bool
signature_is m header signature =
    get_or signature 0 0 == m header
    && (get_or signature 1 0 == m (header + 1)
        && (get_or signature 2 0 == m (header + 2) && get_or signature 3 0 == m (header + 3)))

-- The loop of `get_acpi_table` at `i`, with `n` entries left.
unfoldable pub find_table : Memory → ℕ → Text → ℕ → ℕ → ℕ
find_table m xsdt signature zero i = 0
find_table m xsdt signature (suc n) i =
    if signature_is m (sdt_ptr m xsdt i) signature
    then sdt_ptr m xsdt i
    else find_table m xsdt signature n (i + 1)

unfoldable pub get_acpi_table : Text → Machine → ℕ
get_acpi_table signature s = find_table s.env.mem s.acpi.xsdt signature s.acpi.num_xsdt_entries 0

-- The loop of `get_madt_entry_addr`, with `limit` for the address that it compares to.
unfoldable pub walk_entries : Memory → ℕ → ℕ → ℕ → ℕ → Run ℕ
walk_entries m entry_type limit zero current_addr = stuck
walk_entries m entry_type limit (suc fuel) current_addr =
    let next = walk_entries m entry_type limit fuel (u64 (current_addr + m (current_addr + 1))) in
    if leb current_addr limit
    then (if m current_addr == entry_type
        then done current_addr
        else if m (current_addr + 1) == 0
        then done 0
        else next)
    else done 0

-- The limit of the walk: `MADT + length` counts in structures of 44 bytes.
abbrev pub madt_limit : Memory → ℕ → ℕ
madt_limit m madt = u64 (madt + madt_size * table_length m madt)

-- A round moves on by at least one byte, so the fuel is enough (Acpi/Madt).
unfoldable pub get_madt_entry_addr : ℕ → Machine → Run ℕ
get_madt_entry_addr entry_type s =
    let m = s.env.mem in
    let madt = s.acpi.madt in
    walk_entries m entry_type (madt_limit m madt) (suc (madt_limit m madt)) (u64 (madt + 0x2c))

abbrev pub set_acpi : (Acpi → Acpi) → M (Unit {0})
set_acpi f = modify (λ s. record s { acpi = f s.acpi })

-- The part of `acpi_init` that reads the address of the local APIC.
unfoldable pub save_lapic_address : M (Unit {0})
save_lapic_address = do
  s ← get
  entry ← lift (get_madt_entry_addr lapic_address_override s)
  if entry == 0
      then (do
        set_acpi (λ a. record a { lapic_x86_64_addr = 0 })
        set_acpi (λ a. record a { lapic_x86_addr = load_le 4 s.env.mem (a.madt + 36) }))
      else set_acpi (λ a. record a { lapic_x86_64_addr = u64 (entry + 4) })

-- The parts of `acpi_init` before that, in their order: the tables that the XSDP names, then those that
-- are found by their signatures.
unfoldable pub save_xsdt : ℕ → M (Unit {0})
save_xsdt xsdp = do
  s ← get
  let m = s.env.mem
  let xsdt = xsdt_ptr m xsdp
  set_acpi (λ a. record a {
    xsdp = xsdp;
    xsdt = xsdt;
    fadt = 0;
    hpet = 0;
    madt = 0;
    num_xsdt_entries = u16 (u64 (table_length m xsdt + 2 ^ 64 - sdt_header_size) / 8);
  })

unfoldable pub save_fadt : M (Unit {0})
save_fadt = do
  s ← get
  let fadt = get_acpi_table (codes "FACP") s
  set_acpi (λ a. record a { fadt = fadt })
  let no_fadt = (do kern_log filter_critical (codes "Fatal: ACPI table FADT not found"); cpu_freeze)
  if fadt == 0 then no_fadt else skip
  kern_log filter_debug (codes "Debug: ACPI table FADT (sign: \"FACP\") successfully located")

unfoldable pub save_hpet : M (Unit {0})
save_hpet = do
  s ← get
  let hpet = get_acpi_table (codes "HPET") s
  set_acpi (λ a. record a { hpet = hpet })
  if hpet == 0
      then kern_log filter_critical (codes "Warning: ACPI table HPET not found")
      else kern_log filter_debug
          (codes "Debug: ACPI table HPET (sign: \"HPET\") successfully located")

unfoldable pub save_madt : M (Unit {0})
save_madt = do
  s ← get
  let madt = get_acpi_table (codes "APIC") s
  set_acpi (λ a. record a { madt = madt })
  let no_madt = (do
    kern_log filter_critical (codes "Warning: ACPI table MADT not found")
    cpu_freeze)
  if madt == 0
      then no_madt
      else kern_log filter_debug
          (codes "Debug: ACPI table MADT (sign: \"ACPI\") successfully located")

unfoldable pub acpi_init : ℕ → M (Unit {0})
acpi_init xsdp = do save_xsdt xsdp; save_fadt; save_hpet; save_madt; save_lapic_address

unfoldable pub acpi_vcheck : ℕ → M (Unit {0})
acpi_vcheck xsdp = do
  s ← get
  let refuse = (do
    kern_log filter_critical (codes "Fatal: ACPI version 1.0 is not supported")
    cpu_freeze)
  if xsdp_revision s.env.mem xsdp == 0 then refuse else skip
  kern_log filter_debug (codes "Debug: ACPI version supported")

-- The sum of `n` bytes from `addr` on.
unfoldable pub sum_bytes : Memory → ℕ → ℕ → ℕ → ℕ
sum_bytes m zero addr sum = sum
sum_bytes m (suc n) addr sum = sum_bytes m n (addr + 1) (u64 (sum + m addr))

unfoldable pub acpi_ccheck : ℕ → M (Unit {0})
acpi_ccheck xsdp = do
  s ← get
  let refuse = (do kern_log filter_critical (codes "Fatal: ACPI checksum failed"); cpu_freeze)
  if bit_and (sum_bytes s.env.mem xsdp_size xsdp 0) 0xff == 0 then skip else refuse
  kern_log filter_debug (codes "Debug: ACPI passed checksum")

unfoldable pub check_ps2 : M Bool
check_ps2 = do
  s ← get
  let revision = table_revision s.env.mem s.acpi.fadt
  let boot_arch = iapc_boot_arch s.env.mem s.acpi.fadt
  let show = (do
    kprint (codes "Debug: FADT IAPC_BOOT_ARCH: ")
    kprint_run (Text.kprint_bin s.env.garbage boot_arch 2)
    kprint (codes "\n"))
  if leb 2 revision then show else skip
  let found = (do kern_log filter_info (codes "PS/2 controller detected"); pure true)
  let missing = (do kern_log filter_info (codes "No PS/2 controller detected"); pure false)
  if ltb revision 2 || not (bit_and boot_arch 2 == 0) then found else missing

unfoldable pub get_lapic_address_acpi : M ℕ
get_lapic_address_acpi s =
    if s.acpi.lapic_x86_64_addr == 0
    then pure s.acpi.lapic_x86_addr s
    else pure s.acpi.lapic_x86_64_addr s
