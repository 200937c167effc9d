-- ===== src/Ps2/Wait.antt =====
-- The polling loops of ps2.c return once the device answers, and not before.
use flosp_os.Common.{
  ℕ, zero, suc, ◌+◌, ◌≤◌, ◌<◌, ◌≡◌, ◌≢◌, ◌∙◌, ap, refl, sym, inl, inr, Bool, true, false, ◌∷◌,
  arith, bit_and, Bool-cases,
}
use flosp_os.Common.Run.{done}
use flosp_os.Machine.{Machine, out}
use flosp_os.Ps2.{
  data_port, command_port, status_port, spin, can_write, can_read, ps2_send_cmd, ps2_write_data,
  ps2_read_data,
}

-- What the status port reads after `n` more inputs.
abbrev pub status_at : Machine → ℕ → ℕ
status_at s n = s.env.port_in (s.now + n) status_port

abbrev pub later : Machine → ℕ → Machine
later s n = record s { now = s.now + n }

pub status_next : (s : Machine) (n : ℕ) → status_at (later s 1) n ≡ status_at s (suc n)
status_next s n = ap (λ (t : ℕ). s.env.port_in t status_port) (omega arith)

pub status_now : (s : Machine) → status_at s 0 ≡ s.env.port_in s.now status_port
status_now s = ap (λ (t : ℕ). s.env.port_in t status_port) (omega arith)

pub later_next : (s : Machine) (n : ℕ) → later (later s 1) n ≡ later s (suc n)
later_next s n = ap (λ (t : ℕ). record s { now = t }) (omega arith)

-- The outcome of a polling loop that found its device ready after `n` vain reads.
pub record Ready (ready : ℕ → Bool) (s : Machine) (k n : ℕ) : Type 0 where
  pub soon : n ≤ k
  pub answer : ready (status_at s n) ≡ true

-- A device that will be ready within the rounds is found ready.
pub spin-Ready :
    (ready : ℕ → Bool) (rounds k : ℕ) (s : Machine)
    → k < rounds
    → ready (status_at s k) ≡ true
    → (n : ℕ) × (spin ready rounds s ≡ done (tt, later s (suc n))) × Ready ready s k n
unfolding spin
spin-Ready ready zero k s lt clear = absurd (omega arith)
spin-Ready ready (suc rounds) k s lt clear =
    elim (Bool-cases (ready (s.env.port_in s.now status_port))) [
      | inl now ↦ (0, rw now, record { soon = omega arith; answer = ap ready (status_now s) ∙ now })
      | inr wait ↦
          let (j, e) = positive k clear wait in
          let (n, run, r) =
            spin-Ready ready rounds j (later s 1) (omega arith) (later_ready j k clear e) in
          (
            suc n,
            rw (wait, run) (ap (λ (t : Machine). done (tt, t)) (later_next s (suc n))),
            record {
              soon = omega (arith, r.soon);
              answer = sym (ap ready (status_next s n)) ∙ r.answer;
            },
          )
    ]
  where
    positive :
        (k : ℕ)
        → ready (status_at s k) ≡ true
        → ready (s.env.port_in s.now status_port) ≡ false
        → (j : ℕ) × (k ≡ suc j)
    positive zero p q = cc (p, q, status_now s)
    positive (suc j) p q = (j, refl)

    later_ready :
        (j k : ℕ)
        → ready (status_at s k) ≡ true
        → k ≡ suc j
        → ready (status_at (later s 1) j) ≡ true
    later_ready j k p e =
        ap ready (status_next s j) ∙ ap (λ (t : ℕ). ready (status_at s t)) (sym e) ∙ p

-- Handshake: a command is written once, right after the status read that found room for it, if the
-- controller makes room within the loop's rounds.
pub ps2_send_cmd-Ready :
    (fuel k cmd : ℕ) (s : Machine)
    → k < fuel
    → bit_and (status_at s k) 2 ≡ 0
    → (n : ℕ) × (ps2_send_cmd fuel cmd s
        ≡ done (tt, record (later s (suc n)) { trace = out command_port cmd ∷ s.trace }))
      × Ready can_write s k n
unfolding ps2_send_cmd
ps2_send_cmd-Ready fuel k cmd s lt clear =
    let (n, run, r) = spin-Ready can_write fuel k s lt (ground arith) in (n, rw run, r)

pub ps2_write_data-Ready :
    (fuel k byte : ℕ) (s : Machine)
    → k < fuel
    → bit_and (status_at s k) 2 ≡ 0
    → (n : ℕ) × (ps2_write_data fuel byte s
        ≡ done (tt, record (later s (suc n)) { trace = out data_port byte ∷ s.trace }))
      × Ready can_write s k n
unfolding ps2_write_data
ps2_write_data-Ready fuel k byte s lt clear =
    let (n, run, r) = spin-Ready can_write fuel k s lt (ground arith) in (n, rw run, r)

-- A byte is read from the data port right after the status read that found it there.
pub ps2_read_data-Ready :
    (fuel k : ℕ) (s : Machine)
    → k < fuel
    → bit_and (status_at s k) 1 ≢ 0
    → (n : ℕ) × (ps2_read_data fuel s
        ≡ done (s.env.port_in (s.now + suc n) data_port, later s (suc (suc n))))
      × Ready can_read s k n
unfolding ps2_read_data
ps2_read_data-Ready fuel k s lt full =
    let (n, run, r) = spin-Ready can_read fuel k s lt (ground arith) in
    (
      n,
      rw run (
          ap (λ (t : ℕ). done (s.env.port_in (s.now + suc n) data_port, record s { now = t }))
            (omega arith)),
      r,
    )
