-- ===== src/Drivers/InterruptsKept.antt =====
-- The interrupt handler of idt.c, `timer_handler` of timers.c, and the global variables of the drivers.
use flosp_os.Common.{ℕ, ◌+◌, ◌==◌, codes, arith, u64}
use flosp_os.Text.{Text}
use flosp_os.Machine.{Machine, modify, write_reg, skip, ◌>>◌}
use flosp_os.Machine.Keeps.{
  Keeps, Stable, keeps_rules, Keeps-bind, Keeps-pure, Keeps-modify, Keeps-branch, Keeps-state,
  Keeps-write_reg,
}
use flosp_os.Ps2.Kept.{Keeps-flush_ps2_output_buffer}
use flosp_os.Interrupts.{
  StubTable, CpuStatus, apic_eoi, print_value, page_fault_handler, timer_handler, exception,
  end_of_interrupt, dispatch, interrupt_handler, idt_init, mask_pic_interrupts, Idt,
}
use flosp_os.Drivers.{Consistent, Consistent-Stable}
use flosp_os.Drivers.KeyboardKept.{Keeps-keyboard_handler}

abbrev q : Stable Consistent
q = Consistent-Stable

Keeps-tick :
    Keeps Consistent
      (modify (λ s. record s { timers = record s.timers { ticks = u64 (s.timers.ticks + 1) } }))
Keeps-tick =
    Keeps-modify _
      (λ s (ports, (ticks, period, entries, base)). (ports, (omega arith, period, entries, base)))

Keeps-timer_handler : Keeps Consistent timer_handler
unfolding timer_handler
Keeps-timer_handler =
    Keeps-branch (λ s. s.timers.lapic_timer_enabled)
      (λ s.
        (do
          modify (λ s. record s { timers = record s.timers { ticks = u64 (s.timers.ticks + 1) } })
          write_reg (u64 (s.lapic_addr + apic_eoi)) 0)
          s)
      skip
      (Keeps-state _
        (λ s. Keeps-bind _ _ Keeps-tick (λ _. Keeps-write_reg q (u64 (s.lapic_addr + apic_eoi)) 0)))
      (Keeps-pure tt)

Keeps-print_value : (name : Text) (value : ℕ) → Keeps Consistent (print_value name value)
Keeps-print_value name value = search (keeps_rules, q) depth 30

Keeps-page_fault_handler : (c : CpuStatus) → Keeps Consistent (page_fault_handler c)
unfolding page_fault_handler
Keeps-page_fault_handler c = search (keeps_rules, q, Keeps-print_value) depth 30

Keeps-exception : (c : CpuStatus) → Keeps Consistent (exception c)
unfolding exception
Keeps-exception c = search (keeps_rules, q, Keeps-print_value) depth 30

Keeps-end_of_interrupt : (vector : ℕ) → Keeps Consistent (end_of_interrupt vector)
unfolding end_of_interrupt
Keeps-end_of_interrupt vector = search (keeps_rules, q) depth 20

module _ (fuel : ℕ) where
  Keeps-dispatch : (vector : ℕ) → Keeps Consistent (dispatch fuel vector)
  unfolding dispatch
  Keeps-dispatch vector =
      Keeps-branch (λ s. vector == 0x20) _ _ Keeps-timer_handler
        (Keeps-branch (λ s. vector == 0x21) _ _
          (Keeps-branch (λ s. s.keyboard_enabled) _ _ Keeps-keyboard_handler (Keeps-pure tt))
          (Keeps-branch (λ s. vector == 0x2c) _ _ (Keeps-flush_ps2_output_buffer q fuel)
            (Keeps-print_value (codes "Unexpected Interrupt: ") vector)))

  pub Keeps-interrupt_handler : (c : CpuStatus) → Keeps Consistent (interrupt_handler fuel c)
  unfolding interrupt_handler
  Keeps-interrupt_handler c =
      search
        (
          keeps_rules, Keeps-dispatch, Keeps-end_of_interrupt, Keeps-page_fault_handler,
          Keeps-exception,
        )
        depth 30

pub Keeps-idt_init :
    {Q : Machine → Type 0} (q : Stable Q) (stubs : StubTable) (idt : Idt)
    → Keeps Q (idt_init stubs idt)
unfolding idt_init mask_pic_interrupts
Keeps-idt_init q stubs idt = search (keeps_rules, q) depth 40
