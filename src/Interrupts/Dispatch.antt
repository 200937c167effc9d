-- ===== src/Interrupts/Dispatch.antt =====
-- What `interrupt_handler` does with an interrupt: a tick, a key, or the end of the run.
use flosp_os.Common.{
  ℕ, ◌+◌, ◌^◌, ◌<◌, ◌≡◌, refl, Bool, true, not, ◌||◌, ◌∷◌, ◌++◌, arith, ltb, leb, ◌∙◌, false, ◌==◌,
  if◌then◌else◌, bit_and, inl, inr, Bool-cases, codes, u64,
}
use flosp_os.Common.Run.{done, frozen}
use flosp_os.Text.{Text}
use flosp_os.Text.Numeral.{IsNumeral}
use flosp_os.Text.Numbers.{kprint_hex-IsNumeral}
use flosp_os.Machine.{Machine, out, set_reg, print, ◌>>◌, kern_log, cpu_freeze, filter_critical}
use flosp_os.Ps2.{data_port}
use flosp_os.Keyboard.Typing.{Known, shift_after, shown, keyboard_handler-shown}
use flosp_os.Interrupts.{
  CpuStatus, interrupt_handler, dispatch, end_of_interrupt, timer_handler, page_fault_handler,
  exception, print_value,
}

-- A tick: the counter moves on, then the local controller and the PIC are told, in this order.
pub interrupt_handler-tick :
    (fuel : ℕ) (c : CpuStatus) (s : Machine)
    → c.error ≡ 0
    → c.int_vector ≡ 0x20
    → s.timers.lapic_timer_enabled ≡ true
    → interrupt_handler fuel c s
      ≡ done (
        tt,
        record s {
          timers = record s.timers { ticks = u64 (s.timers.ticks + 1) };
          trace = out 0x20 0x20 ∷ set_reg (u64 (s.lapic_addr + 0xb0)) 0 ∷ s.trace;
        },
      )
unfolding interrupt_handler dispatch end_of_interrupt timer_handler
interrupt_handler-tick fuel c s regular timer enabled = rw (regular, timer, enabled)

-- A key that the driver handles: the shift state and the console as the key says, then the PIC is told.
-- With the keyboard off, the code is left where it is.
pub interrupt_handler-key :
    (fuel : ℕ) (c : CpuStatus) (s : Machine)
    → c.error ≡ 0
    → c.int_vector ≡ 0x21
    → Known (s.env.port_in s.now data_port)
    → interrupt_handler fuel c s ≡ (
        let code = s.env.port_in s.now data_port in
        done (
          tt,
          if s.keyboard_enabled
              then record s {
                now = s.now + 1;
                shift_down = shift_after s.shift_down code;
                trace = out 0x20 0x20 ∷ shown s.shift_down code s.trace;
              }
              else record s { trace = out 0x20 0x20 ∷ s.trace },
        ))
unfolding interrupt_handler dispatch end_of_interrupt
interrupt_handler-key fuel c s regular key known = elim (Bool-cases s.keyboard_enabled) [
  | inl on ↦ rw (regular, key, keyboard_handler-shown s known, on) refl
  | inr off ↦ rw (regular, key, off) refl
]

kern_log-returns :
    (filter : ℕ) (msg : Text) (s : Machine) → (t : Machine) × (kern_log filter msg s ≡ done (tt, t))
kern_log-returns filter msg s = elim (Bool-cases (ltb s.env.message_filter filter)) [
  | inl shows ↦ (record s { trace = print (codes "\n") ∷ print msg ∷ s.trace }, rw shows refl)
  | inr hides ↦ (s, rw hides refl)
]

pub print_value-printed :
    (name : Text) (n : ℕ) (s : Machine)
    → n < 16 ^ 15
    → (text : Text) × (print_value name n s
        ≡ done (tt, record s { trace = print (codes "\n") ∷ print text ∷ print name ∷ s.trace }))
print_value-printed name n s lt =
    let (text, run, numeral) = kprint_hex-IsNumeral s.env.garbage n true lt in
    (codes "0x" ++ text, rw run refl)

print_value-returns :
    (name : Text) (n : ℕ) (s : Machine)
    → n < 16 ^ 15
    → (t : Machine) × (print_value name n s ≡ done (tt, t))
print_value-returns name n s lt = let (text, run) = print_value-printed name n s lt in (_, run)

-- The end of both kinds of exception.
freezes :
    (name : Text) (n : ℕ) (s : Machine)
    → n < 16 ^ 15
    → (print_value name n >> cpu_freeze) s ≡ frozen
freezes name n s lt =
    let (t, run) = print_value-returns name n s lt in
    let (u, logged) = kern_log-returns filter_critical (codes "CPU Frozen") t in
    rw (run, logged) refl

page_fault_handler-frozen :
    (c : CpuStatus) (s : Machine) → c.error_code < 16 ^ 15 → page_fault_handler c s ≡ frozen
unfolding page_fault_handler
page_fault_handler-frozen c s code =
    let (t, run) =
      kern_log-returns filter_critical
        (codes "\nFlosp OS has encountered an exception and cannot continue") s in
    let (u, logged) = kern_log-returns filter_critical (codes "Page Fault") t in
    rw (or-true (not (bit_and c.error_code 1 == 0)), run, logged)
      (freezes (codes "Error Code: ") c.error_code u code)
  where
    or-true : (b : Bool) → (b || true) ≡ true
    or-true b = ground arith

exception-frozen :
    (c : CpuStatus) (s : Machine)
    → c.int_vector < 16 ^ 15
    → c.error_code < 16 ^ 15
    → exception c s ≡ frozen
unfolding exception
exception-frozen c s vector code =
    let (t, run) =
      kern_log-returns filter_critical
        (codes "\nFlosp OS has encountered an exception and cannot continue") s in
    elim (Bool-cases (c.int_vector == 0x0d)) [
      | inl protection ↦
          let (u, logged) = kern_log-returns filter_critical (codes "General Protection Fault") t in
          rw (run, protection, logged) (freezes (codes "Error Code: ") c.error_code u code)
      | inr other ↦
          let (u, shows) = print_value-returns (codes "Interrupt vector: ") c.int_vector t vector in
          rw (run, other, shows) (freezes (codes "Error Code: ") c.error_code u code)
    ]

-- An exception with an error code, whose numbers fit the buffer of `kprint_hex`, ends the run.
stops :
    (fuel : ℕ) (c : CpuStatus) (s : Machine)
    → (c.error == 0) ≡ false
    → c.int_vector < 16 ^ 15
    → c.error_code < 16 ^ 15
    → interrupt_handler fuel c s ≡ frozen
unfolding interrupt_handler
stops fuel c s error vector code = elim (Bool-cases (c.int_vector == 0x0e)) [
  | inl page ↦ ground (arith, page, error, page_fault_handler-frozen c s code)
  | inr other ↦ ground (arith, other, error, exception-frozen c s vector code)
]

-- An exception without one is taken for an interrupt that nobody expects.
goes_on :
    (fuel : ℕ) (c : CpuStatus) (s : Machine)
    → (c.error == 0) ≡ true
    → c.int_vector < 32
    → (text : Text) × IsNumeral 16 c.int_vector text
      × (interrupt_handler fuel c s
          ≡ done (
            tt,
            record s {
              trace =
                  out 0x20 0x20
                  ∷ print (codes "\n")
                  ∷ print (codes "0x" ++ text)
                  ∷ print (codes "Unexpected Interrupt: ")
                  ∷ s.trace;
            },
          ))
unfolding interrupt_handler dispatch end_of_interrupt
goes_on fuel c s regular lt =
    let (text, run, numeral) =
      kprint_hex-IsNumeral s.env.garbage c.int_vector true (omega (arith, lt)) in
    let timer : (c.int_vector == 0x20) ≡ false = ground (arith, lt) in
    let key : (c.int_vector == 0x21) ≡ false = ground (arith, lt) in
    let mouse : (c.int_vector == 0x2c) ≡ false = ground (arith, lt) in
    let master : leb 40 c.int_vector ≡ false = ground (arith, lt) in
    (text, numeral, rw (regular, timer, key, mouse, run, master) refl)

-- An exception, with a vector below 32 and an error code that fits the buffer of `kprint_hex`: if its stub
-- marks it as one with an error code, the handler ends in a freeze. If not, the handler prints its vector
-- as an unexpected interrupt, in hexadecimal, tells the master PIC, and returns to where it happened.
pub interrupt_handler-exception :
    (fuel : ℕ) (c : CpuStatus) (s : Machine)
    → c.int_vector < 32
    → c.error_code < 16 ^ 15
    → (text : Text) × IsNumeral 16 c.int_vector text
      × (interrupt_handler fuel c s ≡ (
          if c.error == 0
          then done (
            tt,
            record s {
              trace =
                  out 0x20 0x20
                  ∷ print (codes "\n")
                  ∷ print (codes "0x" ++ text)
                  ∷ print (codes "Unexpected Interrupt: ")
                  ∷ s.trace;
            },
          )
          else frozen))
interrupt_handler-exception fuel c s vector code = elim (Bool-cases (c.error == 0)) [
  | inl regular ↦
      let (text, numeral, run) = goes_on fuel c s regular vector in
      (text, numeral, run ∙ rw regular refl)
  | inr error ↦
      let (text, run, numeral) =
        kprint_hex-IsNumeral s.env.garbage c.int_vector true (omega (arith, vector)) in
      (text, numeral, stops fuel c s error (omega (arith, vector)) code ∙ rw error refl)
]
