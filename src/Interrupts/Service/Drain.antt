-- ===== src/Interrupts/Service/Drain.antt =====
-- The loop of ps2.c that drains the output buffer, when the buffer empties in time.
use mathlib.Core.Path.{subst}
use flosp_os.Common.{
  ℕ, zero, suc, ◌+◌, ◌*◌, ◌<◌, ◌≡◌, refl, true, arith, ◌==◌, bit_and, inl, inr, Bool-cases,
}
use flosp_os.Common.Run.{done}
use flosp_os.Machine.{Machine}
use flosp_os.Ps2.{status_port, drain}

pub drain-returns :
    (fuel k : ℕ) (s : Machine)
    → k < fuel
    → bit_and (s.env.port_in (s.now + 2 * k) status_port) 0b1 ≡ 0
    → (t : ℕ) × (drain fuel s ≡ done (tt, record s { now = t }))
unfolding drain
drain-returns zero k s lt clear = absurd (omega arith)
drain-returns (suc fuel) k s lt clear =
    elim (Bool-cases (bit_and (s.env.port_in s.now status_port) 0b1 == 1)) [
      | inl full ↦
          let (j, e) = positive k clear full in
          let (t, run) =
            drain-returns fuel j (record s { now = s.now + 1 + 1 }) (omega arith) (next j e) in
          (t, rw full run)
      | inr empty ↦ (s.now + 1, rw empty)
    ]
  where
    status_at : ℕ → ℕ
    status_at t = bit_and (s.env.port_in t status_port) 0b1

    positive :
        (k : ℕ)
        → status_at (s.now + 2 * k) ≡ 0
        → (status_at s.now == 1) ≡ true
        → (j : ℕ) × (k ≡ suc j)
    positive zero e full =
        let same : status_at s.now ≡ 0 = subst (λ t. status_at t ≡ 0) (omega arith) e in
        absurd (ground arith)
    positive (suc j) e full = (j, refl)

    next : (j : ℕ) → k ≡ suc j → status_at (s.now + 1 + 1 + 2 * j) ≡ 0
    next j e = subst (λ t. status_at t ≡ 0) (omega arith) clear
