-- ===== src/Timers/Sleep.antt =====
-- When the waiting loops of timers.c return: at the first reading that reaches the end time.
use mathlib.Core.Path.{subst}
use native.Mathlib.Nat.{mod-eq_of_lt}
use flosp_os.Common.{
  ℕ, zero, suc, ◌+◌, ◌*◌, ◌^◌, ◌≤◌, ◌<◌, ◌≡◌, ap, refl, sym, inl, inr, true, arith, ltb, Bool-cases,
  u64, ltb→lt, lt→ltb, ==_iff, ◌==◌,
}
use flosp_os.Common.Run.{done, stuck}
use flosp_os.Machine.{M, Machine, ticks_at, get_uptime_ticks}
use flosp_os.Ps2.Wait.{later}
use flosp_os.Timers.{wait_until, sleep_timer, hpet_sleep, poll_hpet}

-- The readings `at` reach `end_time` at the `n`-th, which is one of the readings from `i` to `i + k`, and
-- not before.
pub record Awaited (at : ℕ → ℕ) (end_time i k n : ℕ) : Type 0 where
  pub begun : i ≤ n
  pub in_time : n ≤ i + k
  pub reached : end_time ≤ at n
  pub first : (j : ℕ) → i ≤ j → j < n → at j < end_time

module _ (read : M ℕ) (s : Machine) (at : ℕ → ℕ)
    (reads : (n : ℕ) → read (later s n) ≡ done (at n, later s (suc n))) (end_time : ℕ) where
  wait_until-Awaited :
      (rounds k i : ℕ)
      → k < rounds
      → end_time ≤ at (i + k)
      → (n : ℕ) × (wait_until read end_time rounds (later s i) ≡ done (tt, later s (suc n)))
        × Awaited at end_time i k n
  unfolding wait_until
  wait_until-Awaited zero k i lt late = absurd (omega arith)
  wait_until-Awaited (suc rounds) k i lt late = elim (Bool-cases (ltb (at i) end_time)) [
    | inr over ↦ (
      i,
      rw (reads i, over),
      record {
        begun = omega arith;
        in_time = omega arith;
        reached = ground arith;
        first = λ j p q. absurd (omega arith);
      },
    )
    | inl early ↦
        let (j, e) = positive k late early in
        let (n, run, r) =
          wait_until-Awaited rounds j (suc i) (omega arith)
            (subst (λ (t : ℕ). end_time ≤ at t) (omega arith) late) in
        (
          n,
          rw (reads i, early) run,
          record {
            begun = omega (arith, r.begun);
            in_time = omega (arith, r.in_time, e);
            reached = r.reached;
            first = λ l p q. from i n l early p (λ gt. r.first l gt q);
          },
        )
  ]
    where
      positive :
          (k : ℕ) → end_time ≤ at (i + k) → ltb (at i) end_time ≡ true → (j : ℕ) × (k ≡ suc j)
      positive zero p q = absurd (
          omega (
            arith,
            ltb→lt (at i) end_time q,
            subst (λ (t : ℕ). end_time ≤ at t) {y = i} (omega arith) p,
          ))
      positive (suc j) p q = (j, refl)

      from :
          (i n l : ℕ)
          → ltb (at i) end_time ≡ true
          → i ≤ l
          → (suc i ≤ l → at l < end_time)
          → at l < end_time
      from i n l early le later_ones = elim (Bool-cases (l == i)) [
        | inl e ↦
            subst (λ (t : ℕ). at t < end_time) (sym ((==_iff l i).0 e))
              (ltb→lt (at i) end_time early)
        | inr ne ↦ later_ones (ground arith)
      ]

-- `sleep_timer` returns at the first tick that is `time_ms` ticks on, if that comes within the rounds.
pub sleep_timer-Awaited :
    (fuel k time_ms : ℕ) (s : Machine)
    → k < fuel
    → u64 (ticks_at s s.now + time_ms) ≤ ticks_at s (s.now + (1 + k))
    → (n : ℕ) × (sleep_timer fuel time_ms s ≡ done (tt, later s (suc n)))
      × Awaited (λ n. ticks_at s (s.now + n)) (u64 (ticks_at s s.now + time_ms)) 1 k n
unfolding sleep_timer
sleep_timer-Awaited fuel k time_ms s lt late =
    wait_until-Awaited get_uptime_ticks s (λ n. ticks_at s (s.now + n)) reads
      (u64 (ticks_at s s.now + time_ms)) fuel k 1 lt late
  where
    reads : (n : ℕ) → get_uptime_ticks (later s n) ≡ done (ticks_at s (s.now + n), later s (suc n))
    reads n = ap (λ (t : ℕ). done (ticks_at s (s.now + n), record s { now = t })) (omega arith)

-- The time that the HPET shows at the `n`-th reading.
abbrev pub hpet_at : Machine → ℕ → ℕ
hpet_at s n = u64 (s.env.reg_in (s.now + n) s.timers.hpet_main_cntr_addr * s.timers.hpet_period)

-- `hpet_sleep` returns at the first reading of the counter that is `time` units on, if that comes within
-- the rounds.
pub hpet_sleep-Awaited :
    (fuel k time units : ℕ) (s : Machine)
    → k < fuel
    → u64 (hpet_at s 0 + u64 (time * units)) ≤ hpet_at s (1 + k)
    → (n : ℕ) × (hpet_sleep fuel time units s ≡ done (tt, later s (suc n)))
      × Awaited (hpet_at s) (u64 (hpet_at s 0 + u64 (time * units))) 1 k n
unfolding hpet_sleep poll_hpet
hpet_sleep-Awaited fuel k time units s lt late =
    let (n, run, r) =
      wait_until-Awaited poll_hpet s (hpet_at s) reads (u64 (hpet_at s 0 + u64 (time * units))) fuel
        k 1 lt late in
    (
      n,
      subst
          (λ (t : ℕ).
            wait_until poll_hpet (u64 (t + u64 (time * units))) fuel (later s 1)
            ≡ done (tt, later s (suc n)))
          (ap (λ (t : ℕ). u64 (s.env.reg_in t s.timers.hpet_main_cntr_addr * s.timers.hpet_period))
            (omega arith))
          run,
      r,
    )
  where
    reads : (n : ℕ) → poll_hpet (later s n) ≡ done (hpet_at s n, later s (suc n))
    reads n = ap (λ (t : ℕ). done (hpet_at s n, record s { now = t })) (omega arith)

never_reached :
    (end_time rounds : ℕ) (s : Machine)
    → ((n : ℕ) → ticks_at s n < end_time)
    → wait_until get_uptime_ticks end_time rounds s ≡ stuck
unfolding wait_until
never_reached end_time zero s before = refl
never_reached end_time (suc rounds) s before =
    rw (lt→ltb (ticks_at s s.now) end_time (before s.now))
      (never_reached end_time rounds (record s { now = s.now + 1 }) before)

-- While no interrupt moves the counter on, `sleep_timer` does not return, for however many rounds.
pub sleep_timer-stuck :
    (fuel time_ms : ℕ) (s : Machine)
    → 0 < time_ms
    → ticks_at s s.now + time_ms < 2 ^ 64
    → ((n : ℕ) → s.env.clock n ≡ s.env.clock s.now)
    → sleep_timer fuel time_ms s ≡ stuck
unfolding sleep_timer
sleep_timer-stuck fuel time_ms s some_time fits still =
    never_reached (u64 (ticks_at s s.now + time_ms)) fuel (record s { now = s.now + 1 }) before
  where
    before : (n : ℕ) → ticks_at s n < u64 (ticks_at s s.now + time_ms)
    before n = omega (arith, still n, mod-eq_of_lt fits)
