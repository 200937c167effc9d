-- ===== src/Interrupts/Service/Served.antt =====
-- What each branch of `interrupt_handler` of idt.c does to the summary.
use flosp_os.Common.{
  ℕ, ◌+◌, ◌^◌, ◌<◌, ◌≡◌, ◌∙◌, ap, refl, Bool, true, false, List, ◌∷◌, arith, leb, ltb, ◌==◌,
  if◌then◌else◌, inl, inr, Bool-cases, codes,
}
use flosp_os.Common.Run.{Run, done}
use flosp_os.Machine.{Machine, M, Event, out, set_reg, print, skip, ◌>>◌, filter_debug}
use flosp_os.Ps2.{data_port, flush_ps2_output_buffer}
use flosp_os.Keyboard.{keyboard_handler}
use flosp_os.Keyboard.Typing.{Known, shift_after, shown, keyboard_handler-shown}
use flosp_os.Interrupts.{
  CpuStatus, interrupt_handler, dispatch, end_of_interrupt, timer_handler, print_value,
}
use flosp_os.Interrupts.Dispatch.{print_value-printed}
use flosp_os.Interrupts.Service.{
  eois, local_eois, eoi_register, service, serviced, after, Answers, Regular,
}
use flosp_os.Interrupts.Service.Drain.{drain-returns}

-- A run that returns, with `m` and `n` more ends of interrupts told to the master and the slave.
pub record Served (s : Machine) (c : CpuStatus) (m n : ℕ) (r : Run (Unit {0} × Machine))
    : Type 0 where
  now : ℕ
  shift : Bool
  trace : List Event
  returns :
      r
      ≡ done
          (tt, after s now (serviced s.timers.lapic_timer_enabled (service s) c).ticks shift trace)
  local :
      local_eois (eoi_register s) trace
      ≡ (serviced s.timers.lapic_timer_enabled (service s) c).local
  master : eois 0x20 trace ≡ m + eois 0x20 s.trace
  slave : eois 0xa0 trace ≡ n + eois 0xa0 s.trace

shown-eois :
    (port : ℕ) (b : Bool) (k : ℕ) (trace : List Event)
    → eois port (shown b k trace) ≡ eois port trace
shown-eois port b k trace = ground arith

shown-local_eois :
    (reg : ℕ) (b : Bool) (k : ℕ) (trace : List Event)
    → local_eois reg (shown b k trace) ≡ local_eois reg trace
shown-local_eois reg b k trace = ground arith

timer-Served :
    (s : Machine) (c : CpuStatus) → (c.int_vector == 0x20) ≡ true → Served s c 0 0 (timer_handler s)
unfolding timer_handler
timer-Served s c timer = elim (Bool-cases s.timers.lapic_timer_enabled) [
  | inl on ↦ record {
    now = s.now;
    shift = s.shift_down;
    trace = set_reg (eoi_register s) 0 ∷ s.trace;
    returns = rw (on, timer) refl;
    local = rw (on, timer) (ground arith);
    master = omega arith;
    slave = omega arith;
  }
  | inr off ↦ record {
    now = s.now;
    shift = s.shift_down;
    trace = s.trace;
    returns = rw off refl;
    local = rw off refl;
    master = omega arith;
    slave = omega arith;
  }
]

quiet-Served :
    (s : Machine) (c : CpuStatus) → (c.int_vector == 0x20) ≡ false → Served s c 0 0 (skip s)
quiet-Served s c other = record {
  now = s.now;
  shift = s.shift_down;
  trace = s.trace;
  returns = rw other (ground arith);
  local = ground arith;
  master = omega arith;
  slave = omega arith;
}

key-Served :
    (s : Machine) (c : CpuStatus)
    → Known (s.env.port_in s.now data_port)
    → (c.int_vector == 0x20) ≡ false
    → Served s c 0 0 (keyboard_handler s)
key-Served s c known other =
    let code = s.env.port_in s.now data_port in
    record {
      now = s.now + 1;
      shift = shift_after s.shift_down code;
      trace = shown s.shift_down code s.trace;
      returns = keyboard_handler-shown s known ∙ rw other (ground arith);
      local = shown-local_eois (eoi_register s) s.shift_down code s.trace ∙ rw other (ground arith);
      master = omega (arith, shown-eois 0x20 s.shift_down code s.trace);
      slave = omega (arith, shown-eois 0xa0 s.shift_down code s.trace);
    }

drain-Served :
    (fuel : ℕ) (s : Machine) (c : CpuStatus)
    → Answers fuel s
    → (c.int_vector == 0x20) ≡ false
    → Served s c 0 0 (flush_ps2_output_buffer fuel s)
unfolding flush_ps2_output_buffer
drain-Served fuel s c answers other = elim (Bool-cases (ltb s.env.message_filter filter_debug)) [
  | inl more ↦
      let shows =
        print (codes "\n") ∷ print (codes "Debug: Flushing PS/2 output buffer") ∷ s.trace in
      let (k, lt, clear) = answers.drains s.now in
      let (t, run) = drain-returns fuel k (record s { trace = shows }) lt clear in
      record {
        now = t;
        shift = s.shift_down;
        trace = shows;
        returns = rw (more, run, other) (ground arith);
        local = rw other (ground arith);
        master = omega arith;
        slave = omega arith;
      }
  | inr less ↦
      let (k, lt, clear) = answers.drains s.now in
      let (t, run) = drain-returns fuel k s lt clear in
      record {
        now = t;
        shift = s.shift_down;
        trace = s.trace;
        returns = rw (less, run, other) (ground arith);
        local = rw other (ground arith);
        master = omega arith;
        slave = omega arith;
      }
]

unexpected-Served :
    (s : Machine) (c : CpuStatus)
    → c.int_vector < 16 ^ 15
    → (c.int_vector == 0x20) ≡ false
    → Served s c 0 0 (print_value (codes "Unexpected Interrupt: ") c.int_vector s)
unexpected-Served s c lt other =
    let (text, run) = print_value-printed (codes "Unexpected Interrupt: ") c.int_vector s lt in
    record {
      now = s.now;
      shift = s.shift_down;
      trace = print (codes "\n") ∷ print text ∷ print (codes "Unexpected Interrupt: ") ∷ s.trace;
      returns = run ∙ rw other (ground arith);
      local = rw other (ground arith);
      master = omega arith;
      slave = omega arith;
    }

by_test :
    (s : Machine) (c : CpuStatus) (m n : ℕ) (r r' : Run (Unit {0} × Machine)) (b : Bool)
    → (b ≡ true → Served s c m n r)
    → (b ≡ false → Served s c m n r')
    → Served s c m n (if b then r else r')
by_test s c m n r r' true holds fails = holds refl
by_test s c m n r r' false holds fails = fails refl

dispatch-Served :
    (fuel : ℕ) (s : Machine) (c : CpuStatus)
    → Answers fuel s
    → c.int_vector < 16 ^ 15
    → Served s c 0 0 (dispatch fuel c.int_vector s)
unfolding dispatch
dispatch-Served fuel s c answers lt =
    by_test s c 0 0 _ _ (c.int_vector == 0x20) (λ timer. timer-Served s c timer)
      (λ other.
        by_test s c 0 0 _ _ (c.int_vector == 0x21)
          (λ key.
            by_test s c 0 0 _ _ s.keyboard_enabled
              (λ on. key-Served s c (answers.known on s.now) other) (λ off. quiet-Served s c other))
          (λ no_key.
            by_test s c 0 0 _ _ (c.int_vector == 0x2c)
              (λ mouse. drain-Served fuel s c answers other)
              (λ unexpected. unexpected-Served s c lt other)))

abbrev pub slave_eois : CpuStatus → ℕ
slave_eois c = if leb 40 c.int_vector then 1 else 0

-- The handler where there is no exception.
without_error :
    (fuel : ℕ) (s : Machine) (c : CpuStatus)
    → c.error ≡ 0
    → interrupt_handler fuel c s ≡ (dispatch fuel c.int_vector >> end_of_interrupt c.int_vector) s
unfolding interrupt_handler
without_error fuel s c regular = ap (λ (m : M (Unit {0})). m s) (first c.error _ _ regular)
  where
    first : {A : Type 0} (e : ℕ) (x y : A) → e ≡ 0 → (if e == 0 then x else y) ≡ x
    first e x y zero_error = rw zero_error refl

pub interrupt_handler-Served :
    (fuel : ℕ) (s : Machine) (c : CpuStatus)
    → Answers fuel s
    → Regular c
    → Served s c 1 (slave_eois c) (interrupt_handler fuel c s)
unfolding end_of_interrupt
interrupt_handler-Served fuel s c answers (regular, lt) =
    let d = dispatch-Served fuel s c answers lt in
    elim (Bool-cases (leb 40 c.int_vector)) [
      | inl slave ↦ record {
        now = d.now;
        shift = d.shift;
        trace = out 0x20 0x20 ∷ out 0xa0 0x20 ∷ d.trace;
        returns = without_error fuel s c regular ∙ rw (d.returns, slave) refl;
        local = d.local;
        master = omega (arith, d.master);
        slave = ground (arith, d.slave);
      }
      | inr master ↦ record {
        now = d.now;
        shift = d.shift;
        trace = out 0x20 0x20 ∷ d.trace;
        returns = without_error fuel s c regular ∙ rw (d.returns, master) refl;
        local = d.local;
        master = omega (arith, d.master);
        slave = ground (arith, d.slave);
      }
    ]

pub Served-service :
    (s : Machine) (c : CpuStatus) (r : Run (Unit {0} × Machine))
    → Served s c 1 (slave_eois c) r
    → (t : Machine) × (r ≡ done (tt, t))
      × (t ≡ after s t.now t.timers.ticks t.shift_down t.trace)
      × (service t ≡ serviced s.timers.lapic_timer_enabled (service s) c)
Served-service s c r d = (_, d.returns, refl, fields d.local d.master (d.slave ∙ ground arith))
  where
    on : Bool
    on = s.timers.lapic_timer_enabled

    fields :
        {l m n : ℕ}
        → l ≡ (serviced on (service s) c).local
        → m ≡ (serviced on (service s) c).master
        → n ≡ (serviced on (service s) c).slave
        → record { ticks = (serviced on (service s) c).ticks; local = l; master = m; slave = n }
          ≡ serviced on (service s) c
    fields a b c = rw (a, b, c) refl
