-- ===== src/Ps2/Port/Timeout.antt =====
-- The timeouts of ps2.c: which loops they end, and the one that can never fire.
use mathlib.Core.Path.{subst}
use flosp_os.Common.{
  u64, ℕ, zero, suc, ◌+◌, ◌≤◌, ◌<◌, ◌≡◌, ◌∙◌, ap, refl, inl, inr, Bool, true, false, arith, leb,
  ◌==◌, bit_and, Bool-cases, leb→le,
}
use flosp_os.Common.Bits.{bit_and_high}
use flosp_os.Common.Run.{done}
use flosp_os.Machine.{ticks_at, Machine, ◌>>◌, pure}
use flosp_os.Ps2.{status_port, ps2_write_data}
use flosp_os.Ps2.Wait.{status_at, later, status_now}
use flosp_os.Ps2.Port.{timeout_duration, poll_until, send_byte}

-- How a timed poll ended: by the clock, or by the status.
abbrev pub Ended : (ℕ → Bool) → ℕ → Machine → Bool → ℕ → Type 0
Ended waiting start s true n = u64 (start + timeout_duration) ≤ ticks_at s (s.now + n)
Ended waiting start s false n = waiting (status_at s n) ≡ false

abbrev two_on : Machine → Machine
two_on s = record s { now = s.now + 1 + 1 }

two_on-now : (s : Machine) (n : ℕ) → (two_on s).now + n ≡ s.now + suc (suc n)
two_on-now s n = omega arith

Ended-two_on :
    (waiting : ℕ → Bool) (start : ℕ) (s : Machine) (b : Bool) (n : ℕ)
    → Ended waiting start (two_on s) b n
    → Ended waiting start s b (suc (suc n))
Ended-two_on waiting start s true n h =
    subst (λ (t : ℕ). u64 (start + timeout_duration) ≤ ticks_at s t) (two_on-now s n) h
Ended-two_on waiting start s false n h =
    subst (λ (t : ℕ). waiting (s.env.port_in t status_port) ≡ false) (two_on-now s n) h

-- A timed poll returns once the clock has moved on by the timeout, if it does so within the rounds:
-- with a timeout only if the clock says so, else with a status that ends the wait.
pub poll_until-Ended :
    (waiting : ℕ → Bool) (start rounds k : ℕ) (s : Machine)
    → k < rounds
    → u64 (start + timeout_duration) ≤ ticks_at s (s.now + suc (k + k))
    → (b : Bool) × (n : ℕ) × (poll_until waiting start rounds s ≡ done (b, later s (suc n)))
      × Ended waiting start s b n
unfolding poll_until
poll_until-Ended waiting start zero k s lt late = absurd (omega arith)
poll_until-Ended waiting start (suc rounds) k s lt late =
    elim (Bool-cases (waiting (s.env.port_in s.now status_port))) [
      | inr over ↦ (false, 0, rw over, ap waiting (status_now s) ∙ over)
      | inl wait ↦
          elim (Bool-cases (leb (u64 (start + timeout_duration)) (ticks_at s (s.now + 1)))) [
            | inl timeout ↦ (
              true,
              1,
              rw (wait, timeout) (ap (λ (t : ℕ). done (true, record s { now = t })) (omega arith)),
              leb→le (u64 (start + timeout_duration)) (ticks_at s (s.now + 1)) timeout,
            )
            | inr early ↦
                let (j, e) = positive k late early in
                let (b, n, run, ended) =
                  poll_until-Ended waiting start rounds j (two_on s) (omega arith)
                    (later_late j k e late) in
                (
                  b,
                  suc (suc n),
                  rw (wait, early, run)
                      (ap (λ (t : ℕ). done (b, record s { now = t })) (two_on-now s (suc n))),
                  Ended-two_on waiting start s b n ended,
                )
          ]
    ]
  where
    positive :
        (k : ℕ)
        → u64 (start + timeout_duration) ≤ ticks_at s (s.now + suc (k + k))
        → leb (u64 (start + timeout_duration)) (ticks_at s (s.now + 1)) ≡ false
        → (j : ℕ) × (k ≡ suc j)
    positive zero p q = absurd (ground arith)
    positive (suc j) p q = (j, refl)

    later_late :
        (j k : ℕ)
        → k ≡ suc j
        → u64 (start + timeout_duration) ≤ ticks_at s (s.now + suc (k + k))
        → u64 (start + timeout_duration) ≤ ticks_at s ((two_on s).now + suc (j + j))
    later_late j k e p =
        subst (λ (t : ℕ). u64 (start + timeout_duration) ≤ ticks_at s t) (omega arith) p

even-ne-one : (x : ℕ) → (bit_and x 2 == 1) ≡ false
even-ne-one x = ground (arith, bit_and_high 1 x 1)

-- The wait of `ps2_port_write_data` for room in the input buffer tests a bit for the value 1 that can
-- only be 0 or 2: whatever the status says, it passes at once, and its timeout never fires.
pub send_byte-no_timeout :
    (rounds b : ℕ) (s : Machine)
    → send_byte (suc rounds) b s
      ≡ (ps2_write_data (suc rounds) b >> pure 0) (record s { now = s.now + 1 + 1 })
unfolding send_byte poll_until
send_byte-no_timeout rounds b s = rw (even-ne-one (s.env.port_in (s.now + 1) status_port))
