-- ===== src/Drivers/TimersKept.antt =====
-- apic.c, timers.c and the global variables of the drivers.
use flosp_os.Common.{
  ℕ, zero, suc, ◌+◌, ◌*◌, ◌^◌, ◌<◌, ◌≡◌, refl, ◌==◌, true, codes, arith, u32, u64, ltb,
}
use flosp_os.Machine.{M, Timers, modify, filter_debug}
use flosp_os.Machine.Keeps.{
  Keeps, Stable, keeps_rules, Keeps-bind, Keeps-if, Keeps-pure, Keeps-modify, Keeps-state,
  Keeps-kern_log, Keeps-read_reg, Keeps-write_reg,
}
use flosp_os.Apic.{enable_lapic, lapic_set_base}
use flosp_os.Apic.Kept
use flosp_os.Timers.{
  set_timers, apic_timer_initial_count, hpet_milliseconds, hpet_offset_general_configuration,
  hpet_offset_main_counter_value, pit_init, pit_disable, start_hpet, hpet_init, poll_hpet,
  wait_until, sleep_timer, hpet_sleep, calibrate, lapic_timer_init, timers_init, find_hpet,
  choose_timer,
}
use flosp_os.Drivers.{Consistent, Consistent-Stable}

abbrev q : Stable Consistent
q = Consistent-Stable

-- The variables of timers.c other than the counter and the period, and the state of the timer.
Keeps-timers :
    (f : Timers → Timers)
    → ((t : Timers) → (f t).ticks ≡ t.ticks)
    → ((t : Timers) → t.hpet_period < 2 ^ 32 → (f t).hpet_period < 2 ^ 32)
    → Keeps Consistent (modify (λ s. record s { timers = f s.timers }))
Keeps-timers f same fits = Keeps-modify _ (λ s (ports, (ticks, period, entries, base)).
    (ports, (rw (same s.timers) ticks, fits s.timers period, entries, base)))

Keeps-wait_until :
    (read : M ℕ) (end_time rounds : ℕ)
    → Keeps Consistent read
    → Keeps Consistent (wait_until read end_time rounds)
unfolding wait_until
Keeps-wait_until read end_time zero keeps = record { at = λ s t b h e. cc }
Keeps-wait_until read end_time (suc rounds) keeps = Keeps-bind _ _ keeps (λ time.
    Keeps-if (ltb time end_time) _ _ (Keeps-wait_until read end_time rounds keeps) (Keeps-pure tt))

Keeps-poll_hpet : Keeps Consistent poll_hpet
unfolding poll_hpet
Keeps-poll_hpet = Keeps-state _ (λ s.
    Keeps-bind _ _ (Keeps-read_reg q s.timers.hpet_main_cntr_addr)
      (λ count. Keeps-pure (u64 (count * s.timers.hpet_period))))

Keeps-addresses : Keeps Consistent (
    set_timers (λ t. record t {
      hpet_cfg_addr = u64 (t.hpet_base_addr + hpet_offset_general_configuration);
      hpet_main_cntr_addr = u64 (t.hpet_base_addr + hpet_offset_main_counter_value);
    }))
Keeps-addresses = Keeps-timers _ (λ t. refl) (λ t h. h)

Keeps-period : (n : ℕ) → Keeps Consistent (set_timers (λ t. record t { hpet_period = u32 n }))
Keeps-period n = Keeps-timers _ (λ t. refl) (λ t h. omega arith)

Keeps-hpet_base : (a : ℕ) → Keeps Consistent (set_timers (λ t. record t { hpet_base_addr = a }))
Keeps-hpet_base a = Keeps-timers _ (λ t. refl) (λ t h. h)

Keeps-enabled : Keeps Consistent (set_timers (λ t. record t { lapic_timer_enabled = true }))
Keeps-enabled = Keeps-timers _ (λ t. refl) (λ t h. h)

Keeps-start_hpet : Keeps Consistent start_hpet
unfolding start_hpet
Keeps-start_hpet = search (keeps_rules, q, Keeps-addresses, Keeps-period) depth 30

Keeps-hpet_init : (table : ℕ) → Keeps Consistent (hpet_init table)
unfolding hpet_init
Keeps-hpet_init table = search (keeps_rules, q, Keeps-hpet_base, Keeps-start_hpet) depth 30

Keeps-find_hpet : Keeps Consistent find_hpet
unfolding find_hpet
Keeps-find_hpet = search (keeps_rules, q, Keeps-hpet_init) depth 20

module _ (fuel : ℕ) where
  Keeps-sleep_timer : (time_ms : ℕ) → Keeps Consistent (sleep_timer fuel time_ms)
  unfolding sleep_timer
  Keeps-sleep_timer time_ms = search (keeps_rules, q, Keeps-wait_until) depth 20

  Keeps-hpet_sleep : (time units : ℕ) → Keeps Consistent (hpet_sleep fuel time units)
  unfolding hpet_sleep
  Keeps-hpet_sleep time units = search (keeps_rules, Keeps-wait_until, Keeps-poll_hpet) depth 20

  Keeps-calibrate : (lapic : ℕ) → Keeps Consistent (calibrate fuel lapic)
  unfolding calibrate
  Keeps-calibrate lapic = Keeps-state _ (λ s.
      Keeps-bind _ _ (Keeps-write_reg q (u64 (lapic + apic_timer_initial_count)) 0xffffffff) (λ _.
        Keeps-if (s.timers.hpet_base_addr == 0) _ _
          (Keeps-bind _ _
            (Keeps-kern_log q filter_debug
              (codes "Debug: PIT sleeping for 10 ms for lapic calibration"))
            (λ _. Keeps-sleep_timer 10))
          (Keeps-bind _ _
            (Keeps-kern_log q filter_debug
              (codes "Debug: HPET sleeping 10 ms for lapic calibration"))
            (λ _. Keeps-hpet_sleep 10 hpet_milliseconds))))

  Keeps-lapic_timer_init : Keeps Consistent (lapic_timer_init fuel)
  unfolding lapic_timer_init
  Keeps-lapic_timer_init = search (keeps_rules, q, Keeps-calibrate, Keeps-enabled) depth 40

  pub Keeps-timers_init : Keeps Consistent (timers_init fuel)
  unfolding timers_init choose_timer pit_init pit_disable
  Keeps-timers_init = search (keeps_rules, q, Keeps-find_hpet, Keeps-lapic_timer_init) depth 40

Keeps-lapic_addr : (a : ℕ) → Keeps Consistent (modify (λ s. record s { lapic_addr = a }))
Keeps-lapic_addr a = Keeps-modify _ (λ s h. h)

Keeps-lapic_set_base : (base : ℕ) → Keeps Consistent (lapic_set_base base)
unfolding lapic_set_base
Keeps-lapic_set_base base =
    Keeps-modify _
      (λ s (ports, (ticks, period, entries, _)). (ports, (ticks, period, entries, omega arith)))

pub Keeps-enable_lapic : Keeps Consistent enable_lapic
Keeps-enable_lapic = Kept.Keeps-enable_lapic q Keeps-lapic_addr Keeps-lapic_set_base
