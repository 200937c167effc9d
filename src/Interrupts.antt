-- ===== src/Interrupts.antt =====
-- src/os/src/cpu/idt.c: the interrupt descriptor table and the handler behind it, with
-- `timer_handler` of src/os/src/kernel/timers.c.
pub mod Gates
pub mod Dispatch
pub mod Service
mod Tests
use flosp_os.Common.{
  ℕ, zero, suc, ◌+◌, ◌-◌, ◌*◌, Bool, true, false, ◌||◌, ltb, leb, ◌==◌, if◌then◌else◌, bit_and, not,
  u16, u64, ◌>>>◌, codes,
}
use flosp_os.Text
use flosp_os.Text.{Text}
use flosp_os.Machine.{
  M, Machine, pure, ◌>>=◌, ◌>>◌, skip, get, modify, outb, write_reg, kprint, kprint_run, kern_log,
  cpu_freeze, filter_debug, filter_critical,
}
use flosp_os.Ps2.{flush_ps2_output_buffer}
use flosp_os.Keyboard.{keyboard_handler}

abbrev pub pic_command_master : ℕ
pic_command_master = 0x20

abbrev pub pic_data_master : ℕ
pic_data_master = 0x21

abbrev pub pic_command_slave : ℕ
pic_command_slave = 0xa0

abbrev pub pic_data_slave : ℕ
pic_data_slave = 0xa1

abbrev pub pic_eoi : ℕ
pic_eoi = 0x20

-- APIC_EOI
abbrev pub apic_eoi : ℕ
apic_eoi = 0xb0

-- idt_entry_t
pub record IdtEntry : Type 0 where
  pub isr_low : ℕ
  pub kernel_cs : ℕ
  pub ist : ℕ
  pub attributes : ℕ
  pub isr_mid : ℕ
  pub isr_high : ℕ
  pub reserved : ℕ

-- The array `idt`.
abbrev pub Idt : Type 0
Idt = ℕ → IdtEntry

abbrev pub max_idt_entries : ℕ
max_idt_entries = 256

-- sizeof(idt_entry_t)
abbrev pub idt_entry_size : ℕ
idt_entry_size = 16

unfoldable pub descriptor : ℕ → ℕ → IdtEntry
descriptor isr_addr flags = record {
  isr_low = bit_and isr_addr 0xffff;
  kernel_cs = 0x08;
  ist = 0;
  attributes = flags;
  isr_mid = bit_and (isr_addr >>> 16) 0xffff;
  isr_high = bit_and (isr_addr >>> 32) 0xffffffff;
  reserved = 0;
}

unfoldable pub idt_set_descriptor : ℕ → ℕ → ℕ → Idt → Idt
idt_set_descriptor vect isr flags idt = λ v. if v == vect then descriptor isr flags else idt v

-- The table of isr.s: 32 stubs of exceptions and 15 of interrupt lines, whose addresses the linker sets,
-- and what the memory holds behind it, which a read out of bounds finds.
pub record StubTable : Type 0 where
  pub stub : ℕ → ℕ
  pub behind : ℕ → ℕ

abbrev pub isr_stub_entries : ℕ
isr_stub_entries = 47

-- `isr_stub_table[vect]`
unfoldable pub isr_stub : StubTable → ℕ → ℕ
isr_stub table vect =
    if ltb vect isr_stub_entries then table.stub vect else table.behind (vect - isr_stub_entries)

-- A loop of `idt_init` over `n` vectors from `vect` on.
unfoldable pub set_gates : StubTable → ℕ → ℕ → Idt → Idt
set_gates isr_stub_table zero vect idt = idt
set_gates isr_stub_table (suc n) vect idt =
    set_gates isr_stub_table n (vect + 1)
      (idt_set_descriptor vect (isr_stub isr_stub_table vect) 0x8e idt)

unfoldable pub mask_pic_interrupts : M (Unit {0})
mask_pic_interrupts = outb pic_data_master 0xff >> outb pic_data_slave 0xff

-- The table, and the limit that is loaded with it. The last vector, 47, is past `isr_stub_table`.
unfoldable pub idt_init : StubTable → Idt → M (Idt × ℕ)
idt_init isr_stub_table idt = do
  kern_log filter_debug (codes "Debug: Defining and setting IDT entries")
  kern_log filter_debug (codes "Debug: Masking PIC interrupts")
  mask_pic_interrupts
  kern_log filter_debug (codes "Debug: Loading IDT")
  kern_log filter_debug (codes "Debug: Setting interrupt flag")
  pure (
    set_gates isr_stub_table 16 32 (set_gates isr_stub_table 32 0 idt),
    u16 (idt_entry_size * max_idt_entries - 1),
  )

-- What the handler reads of cpu_status_t.
pub record CpuStatus : Type 0 where
  pub int_vector : ℕ
  pub error : ℕ
  pub error_code : ℕ

abbrev pub print_hex : ℕ → M (Unit {0})
print_hex h = do s ← get; kprint_run (Text.kprint_hex s.env.garbage h true)

-- `kprint(name); kprint_hex(value, 1); kprint("\n");`
abbrev pub print_value : Text → ℕ → M (Unit {0})
print_value name value = do kprint name; print_hex value; kprint (codes "\n")

unfoldable pub page_fault_handler : CpuStatus → M (Unit {0})
page_fault_handler c =
    if not (bit_and c.error_code 0x01 == 0) || true
    then (do
      kern_log filter_critical (codes "\nFlosp OS has encountered an exception and cannot continue")
      kern_log filter_critical (codes "Page Fault")
      print_value (codes "Error Code: ") c.error_code
      cpu_freeze)
    else skip

unfoldable pub timer_handler : M (Unit {0})
timer_handler s =
    if s.timers.lapic_timer_enabled
    then (do
      modify (λ s. record s { timers = record s.timers { ticks = u64 (s.timers.ticks + 1) } })
      write_reg (u64 (s.lapic_addr + apic_eoi)) 0)
        s
    else skip s

-- An exception other than a page fault.
unfoldable pub exception : CpuStatus → M (Unit {0})
exception c = do
  kern_log filter_critical (codes "\nFlosp OS has encountered an exception and cannot continue")
  if c.int_vector == 0x0d
      then kern_log filter_critical (codes "General Protection Fault")
      else print_value (codes "Interrupt vector: ") c.int_vector
  print_value (codes "Error Code: ") c.error_code
  cpu_freeze

-- End of interrupt, to the slave first if it is its interrupt.
unfoldable pub end_of_interrupt : ℕ → M (Unit {0})
end_of_interrupt vector = do
  if leb (8 + 32) vector then outb pic_command_slave pic_eoi else skip
  outb pic_command_master pic_eoi

module _ (fuel : ℕ) where
  -- The switch over the interrupts that are no exceptions.
  unfoldable pub dispatch : ℕ → M (Unit {0})
  dispatch vector s =
      if vector == 0x20
      then timer_handler s
      else if vector == 0x21
      then (if s.keyboard_enabled then keyboard_handler s else skip s)
      else if vector == 0x2c
      then flush_ps2_output_buffer fuel s
      else print_value (codes "Unexpected Interrupt: ") vector s

  unfoldable pub interrupt_handler : CpuStatus → M (Unit {0})
  interrupt_handler c =
      let regular = (do dispatch c.int_vector; end_of_interrupt c.int_vector) in
      if c.error == 0
      then regular
      else if c.int_vector == 0x0e
      then page_fault_handler c
      else (exception c >> regular)
