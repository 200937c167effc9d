-- ===== src/Text/Loops.antt =====
-- What the three loops of the number printers do to the buffer.
use native.Mathlib.Nat.{
  pow-suc, div-div-eq-div-mul, div-lt_iff_lt-mul, mul_comm, add-zero, div-one, mul-div-le, le_trans,
  mul-le-mul_left,
}
use Prim.Native.Nat.pow
use flosp_os.Common.{
  ℕ, zero, suc, ◌+◌, ◌*◌, ◌/◌, ◌%◌, ◌^◌, ◌≤◌, ◌<◌, ◌≡◌, ◌⊎◌, inl, inr, refl, ◌∙◌, false, arith,
  ◌==◌, u8,
}
use flosp_os.Common.Run.{done, fault}
use flosp_os.Text.{Buffer, update, write, push, digit_loop}

-- A buffer with `c` characters.
pub record Holds (c : ℕ) (b : Buffer) : Type 0 where
  pub small : b.top < 256
  pub count : u8 (b.top + 1) ≡ c

pub write-done :
    (size : ℕ) (cells : ℕ → ℕ) (i c : ℕ) → i < size → write size cells i c ≡ done (update cells i c)
unfolding write
write-done size cells i c h = ground arith

pub write-fault : (size : ℕ) (cells : ℕ → ℕ) (i c : ℕ) → size ≤ i → write size cells i c ≡ fault
unfolding write
write-fault size cells i c h = ground arith

abbrev pub pushed : Buffer → ℕ → Buffer
pushed b c = record { cells = update b.cells (u8 (b.top + 1)) c; top = u8 (b.top + 1) }

pub push-done :
    (size c v : ℕ) (b : Buffer) → Holds c b → c < size → push size b v ≡ done (pushed b v)
unfolding push
push-done size c v b h lt = rw (write-done size b.cells (u8 (b.top + 1)) v (omega arith))

pub pushed-Holds : (c v : ℕ) (b : Buffer) → Holds c b → c < 255 → Holds (suc c) (pushed b v)
pushed-Holds c v b h lt = omega arith

pub suc-ne-zero : (n : ℕ) → (suc n == 0) ≡ false
suc-ne-zero n = ground arith

-- What the digit loop leaves, started at `c` characters with the number `n`: `k` digits more.
pub record Pushed (size : ℕ) (digit : ℕ → ℕ) (base n c : ℕ) (b : Buffer) (k : ℕ) (b' : Buffer)
    : Type 0 where
  pub holds : Holds (c + k) b'
  pub fits : c + k ≤ size
  pub enough : n < base ^ k
  pub needed : (k ≡ 0) ⊎ (base ^ k ≤ base * n)
  pub old : (j : ℕ) → j < c → b'.cells j ≡ b.cells j
  pub digits : (j : ℕ) → j < k → b'.cells (c + j) ≡ digit (n / base ^ j % base)

module _ (size : ℕ) (small : size < 256) (digit : ℕ → ℕ) (base : ℕ) (two : 2 ≤ base) where
  lt-pow-suc : (n r : ℕ) → n < base ^ suc r → n / base < base ^ r
  lt-pow-suc n r h =
      (div-lt_iff_lt-mul {k = base} {x = n} {y = base ^ r} (omega arith)).1
        (omega (arith, pow-suc base r))

  module _ (n c : ℕ) (b : Buffer) (h : Holds c b) where
    needed-step :
        (k : ℕ) → (k ≡ 0) ⊎ (base ^ k ≤ base * (suc n / base)) → base ^ suc k ≤ base * suc n
    needed-step k (inl e) = rw (e, pow-suc base 0, pow.zero base) (grind arith)
    needed-step k (inr p) =
        rw (pow-suc base k, mul_comm (base ^ k) base)
          (mul-le-mul_left base (le_trans p (mul-div-le (suc n) base)))

    digits-step :
        (k : ℕ) (b' : Buffer)
        → Pushed size digit base (suc n / base) (suc c) (pushed b (digit (suc n % base))) k b'
        → (j : ℕ) → j < suc k
        → b'.cells (c + j) ≡ digit (suc n / base ^ j % base)
    digits-step k b' p zero lt =
        cc (add-zero c, p.old c (omega arith), the_pushed, pow.zero base, div-one (suc n))
      where
        the_pushed : update b.cells (u8 (b.top + 1)) (digit (suc n % base)) c ≡ digit (suc n % base)
        the_pushed = ground arith
    digits-step k b' p (suc j) lt = cc (
      p.digits j (omega arith),
      div-div-eq-div-mul (suc n) base (base ^ j),
      mul_comm base (base ^ j),
      pow-suc base j,
      shifted,
    )
      where
        shifted : c + suc j ≡ suc c + j
        shifted = omega arith

    Pushed-step :
        (k : ℕ) (b' : Buffer)
        → Pushed size digit base (suc n / base) (suc c) (pushed b (digit (suc n % base))) k b'
        → Pushed size digit base (suc n) c b (suc k) b'
    Pushed-step k b' p = record {
      holds = omega (arith, p.holds);
      fits = omega (arith, p.fits);
      enough = omega (
        arith,
        pow-suc base k,
        (div-lt_iff_lt-mul {k = base} {x = suc n} {y = base ^ k} (omega arith)).0 p.enough,
      );
      needed = inr (needed-step k p.needed);
      old = λ j lt. p.old j (omega arith) ∙ untouched j lt;
      digits = digits-step k b' p;
    }
      where
        untouched :
            (j : ℕ) → j < c → update b.cells (u8 (b.top + 1)) (digit (suc n % base)) j ≡ b.cells j
        untouched j lt = ground arith

  pub digit_loop-Pushed :
      (fuel n c r : ℕ) (b : Buffer)
      → Holds c b
      → c + r ≡ size
      → r < fuel
      → n < base ^ r
      → (k : ℕ) × (b' : Buffer) × (digit_loop size digit base fuel n b ≡ done b')
        × Pushed size digit base n c b k b'
  unfolding digit_loop
  digit_loop-Pushed zero n c r b h e f lt = absurd (omega arith)
  digit_loop-Pushed (suc fuel) zero c r b h e f lt = (
    0,
    b,
    refl,
    record {
      holds = omega arith;
      fits = omega arith;
      enough = omega (arith, pow.zero base);
      needed = inl refl;
      old = λ j lt. refl;
      digits = λ j lt. absurd (omega arith);
    },
  )
  digit_loop-Pushed (suc fuel) (suc n) c zero b h e f lt = absurd (omega (arith, pow.zero base))
  digit_loop-Pushed (suc fuel) (suc n) c (suc r) b h e f lt =
      let v = digit (suc n % base) in
      let (k, b', run, p) =
        digit_loop-Pushed fuel (suc n / base) (suc c) r (pushed b v)
          (pushed-Holds c v b h (omega arith)) (omega arith) (omega arith)
          (lt-pow-suc (suc n) r lt) in
      (
        suc k,
        b',
        rw (suc-ne-zero n, push-done size c v b h (omega arith)) run,
        Pushed-step n c b h k b' p,
      )
