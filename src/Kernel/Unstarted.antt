-- ===== src/Kernel/Unstarted.antt =====
-- kernel.c on a machine without an HPET, while no interrupt moves the counter of ticks on: the PIT is to
-- calibrate the timer of the local APIC.
use mathlib.Core.Path.{subst}
use flosp_os.Common.{
  ℕ, ◌+◌, ◌^◌, ◌<◌, ◌==◌, ◌≡◌, refl, sym, ◌∙◌, arith, codes, true, false, u64, Bool, [],
}
use flosp_os.Common.Run
use flosp_os.Common.Run.{Run, done, stuck, frozen, fault}
use flosp_os.Text.{Text}
use flosp_os.Machine.{Machine, M, Env, Timers, ◌>>◌, skip, kern_log, filter_debug}
use flosp_os.Machine.Keeps.{
  Keeps, keeps_rules, Keeps-if, Keeps-pure, Keeps-get, Keeps-kern_log, Keeps-write_reg,
}
use flosp_os.Machine.Leads.{
  Never, Never-Leads, Never-rest, Never-first, Never-then, Never-stop, Never-true, Keeps-true,
}
use flosp_os.Interrupts.{StubTable, Idt}
use flosp_os.Timers.{
  timers_init, find_hpet, choose_timer, pit_init, pit_disable, lapic_timer_init, calibrate,
  sleep_timer, hpet_init, hpet_sleep, hpet_milliseconds, apic_timer_initial_count,
}
use flosp_os.Timers.Sleep.{sleep_timer-stuck}
use flosp_os.Drivers.AcpiKept.{Keeps-acpi_vcheck, Keeps-acpi_ccheck}
use flosp_os.Drivers.InterruptsKept.{Keeps-idt_init}
use flosp_os.Vga.{VideoModeInfo, Terminal}
use flosp_os.Kernel.Entry.{start_drivers, main}
use flosp_os.Kernel.NoHpet.{
  Same, Same-Stable, Absent, Absent-Stable, hpet_table, acpi_init-Absent, Absent-enable_lapic,
}

-- The counter stands still, ten ticks below its bound, and no HPET has been set up.
pub record Still (e : Env) (x : Timers) : Type 0 where
  pub clock : (n : ℕ) → e.clock n ≡ e.clock 0
  pub below : u64 (x.ticks + e.clock 0) + 10 < 2 ^ 64
  pub unset : x.hpet_base_addr ≡ 0

module _ (e : Env) (x : Timers) (still : Still e x) (fuel : ℕ) where
  clock_at : (s : Machine) → Absent e x s → Still s.env s.timers
  clock_at s ((devices, timers), none) =
      subst (λ (v : Env). Still v s.timers) (sym devices)
        (subst (λ (y : Timers). Still e y) (sym timers) still)

  Never-sleep_timer : Never (Absent e x) (sleep_timer fuel 10)
  Never-sleep_timer = record {
    at = λ s t a h run.
        let here = clock_at s h in
        let waits : sleep_timer fuel 10 s ≡ stuck =
          sleep_timer-stuck fuel 10 s (omega arith) (omega (arith, here.clock s.now, here.below))
            (λ n. here.clock n ∙ sym (here.clock s.now)) in
        stuck_done (sym waits ∙ run);
  }
    where
      stuck_done : {t : Unit {0} × Machine} → ¬ (◌≡◌ {A = Run (Unit {0} × Machine)} stuck (done t))
      stuck_done e = cc

  by_pit : Never (Absent e x) (do
    kern_log filter_debug (codes "Debug: PIT sleeping for 10 ms for lapic calibration")
    sleep_timer fuel 10)
  by_pit =
      Never-rest _ _ (Keeps-kern_log (Absent-Stable e x) filter_debug _) (λ _. Never-sleep_timer)

  no_hpet : (s : Machine) → Absent e x s → (s.timers.hpet_base_addr == 0) ≡ true
  no_hpet s h = rw ((clock_at s h).unset) refl

  Never-calibrate : (lapic : ℕ) → Never (Absent e x) (calibrate fuel lapic)
  unfolding calibrate
  Never-calibrate lapic = record {
    at = λ s t a h run.
        (Never-rest _ _
            (Keeps-write_reg (Absent-Stable e x) (u64 (lapic + apic_timer_initial_count))
              0xffffffff)
            (λ _. Never-true (s.timers.hpet_base_addr == 0) _ hpet (no_hpet s h) by_pit)).at
          s t a h run;
  }
    where
      hpet : M (Unit {0})
      hpet = (do
        kern_log filter_debug (codes "Debug: HPET sleeping 10 ms for lapic calibration")
        hpet_sleep fuel 10 hpet_milliseconds)

  Never-lapic_timer_init : Never (Absent e x) (lapic_timer_init fuel)
  unfolding lapic_timer_init
  Never-lapic_timer_init = Never-rest _ _ Keeps-get (λ s.
      Never-then _ _ (Keeps-write_reg (Absent-Stable e x) _ _)
        (Never-stop _ _ (Never-calibrate s.lapic_addr)))

  Absent-find_hpet : Keeps (Absent e x) find_hpet
  unfolding find_hpet
  Absent-find_hpet = record {
    at = λ s t a h run.
        (Keeps-true {Q = Absent e x} (s.acpi.hpet == 0) skip
            (do kern_log filter_debug (codes "Debug: Initializing the HPET"); hpet_init s.acpi.hpet)
            (rw h.1 refl) (Keeps-pure tt)).at
          s t a h run;
  }

  Absent-choose_timer : Keeps (Absent e x) choose_timer
  unfolding choose_timer pit_init pit_disable
  Absent-choose_timer = search (keeps_rules, Absent-Stable) depth 40

  Never-timers_init : Never (Absent e x) (timers_init fuel)
  unfolding timers_init
  Never-timers_init = Never-rest _ _ (Keeps-kern_log (Absent-Stable e x) _ _) (λ _.
      Never-rest _ _ Absent-find_hpet (λ _. Never-rest _ _ Absent-choose_timer (λ _.
        Never-rest _ _ (Keeps-kern_log (Absent-Stable e x) _ _) (λ _. Never-lapic_timer_init))))

  Never-start_drivers :
      (kver : Text) (stubs : StubTable) (xsdp : ℕ) (idt : Idt)
      → hpet_table e.mem xsdp ≡ 0
      → Never (Same e x) (start_drivers kver stubs fuel xsdp idt)
  unfolding start_drivers
  Never-start_drivers kver stubs xsdp idt none =
      let log = Keeps-kern_log (Same-Stable e x) in
      let log_on = Keeps-kern_log (Absent-Stable e x) in
      Never-rest _ _ (log _ _) (λ _. Never-rest _ _ (log _ _) (λ _. Never-rest _ _ (log _ _) (λ _.
        Never-rest _ _ (Keeps-idt_init (Same-Stable e x) stubs idt) (λ table.
          Never-rest _ _ (log _ _) (λ _.
            Never-rest _ _
              (Keeps-if (xsdp == 0) _ _ (search (keeps_rules, Same-Stable) depth 10)
                (Keeps-pure tt))
              (λ _. Never-rest _ _ (Keeps-acpi_vcheck (Same-Stable e x) xsdp) (λ _.
                Never-rest _ _ (Keeps-acpi_ccheck (Same-Stable e x) xsdp) (λ _.
                  Never-Leads _ _ (acpi_init-Absent e x xsdp none) (λ _.
                    Never-rest _ _ (log_on _ _) (λ _. Never-rest _ _ (Absent-enable_lapic e x) (λ _.
                      Never-rest _ _ (log_on _ _) (λ _.
                        Never-rest _ _ (log_on _ _)
                          (λ _. Never-first _ _ Never-timers_init)))))))))))))

abbrev pub returns : {A : Type 0} → Run A → Bool
returns (done a) = true
returns fault = false
returns stuck = false
returns frozen = false

no_return : {A : Type 0} (r : Run A) → ((a : A) → ¬ (r ≡ done a)) → returns r ≡ false
no_return (done a) never = absurd (never a refl)
no_return fault never = refl
no_return stuck never = refl
no_return frozen never = refl

module _ {A B : Type 0} where
  returns-first : (r : Run A) (k : A → Run B) → returns r ≡ false → returns (Run.◌>>=◌ r k) ≡ false
  returns-first (done a) k e = cc
  returns-first fault k e = refl
  returns-first stuck k e = refl
  returns-first frozen k e = refl

  returns-rest :
      (r : Run A) (k : A → Run B)
      → ((a : A) → returns (k a) ≡ false)
      → returns (Run.◌>>=◌ r k) ≡ false
  returns-rest (done a) k e = e a
  returns-rest fault k e = refl
  returns-rest stuck k e = refl
  returns-rest frozen k e = refl

-- Without a table of an HPET, and while the counter of ticks stands still more than ten ticks below 2 ^ 64,
-- the kernel's `main` does not come to its halt, for however many rounds of its loops, if no HPET was set
-- up before.
pub main-unstarted :
    (fonts : ℕ → ℕ → ℕ) (garbage : ℕ → ℕ) (cr3 : ℕ) (kver : Text) (stubs : StubTable) (fuel : ℕ)
    (v : VideoModeInfo) (xsdp : ℕ) (idt : Idt) (t0 : Terminal) (s0 : Machine)
    → hpet_table s0.env.mem xsdp ≡ 0
    → Still s0.env s0.timers
    → returns (main fonts garbage cr3 kver stubs fuel v xsdp idt t0 s0) ≡ false
unfolding main
main-unstarted fonts garbage cr3 kver stubs fuel v xsdp idt t0 s0 none still =
    returns-rest _ _ (λ t1. returns-first _ _ (
      no_return (start_drivers kver stubs fuel xsdp idt from) (λ (table, s) run.
        (Never-start_drivers s0.env s0.timers still fuel kver stubs xsdp idt none).at from s table
          (refl, refl) run)))
  where
    from : Machine
    from = record s0 { trace = [] }
