-- ===== src/Text/Numeral.antt =====
-- What a numeral is, and that the digits of a number make one.
use native.Mathlib.Nat.{
  pow-suc, one-le-pow, div-div-eq-div-mul, mul_comm, div-one, div-add-mod, div-eq_of_lt, mod-lt,
  mod-eq_of_lt, div-lt_iff_lt-mul, le-div_iff_mul-le,
}
use mathlib.Core.Path.{subst}
use Prim.Native.Nat.pow
use flosp_os.Common.{
  ℕ, zero, suc, ◌+◌, ◌-◌, ◌*◌, ◌/◌, ◌%◌, ◌^◌, ◌≤◌, ◌<◌, ◌≡◌, ◌≢◌, ◌⊎◌, ap, sym, ◌∙◌, [], ◌∷◌, arith,
  ltb, if◌then◌else◌,
}
use flosp_os.Text.{Text}
use flosp_os.Text.Reverse.{tabulate}

-- The digit that a character stands for: 0 to 9, then A to F.
abbrev pub digit_value : ℕ → ℕ
digit_value c = if ltb c 58 then c - 48 else c - 55

-- The number that digits spell behind `acc`.
abbrev pub value : ℕ → ℕ → Text → ℕ
value base acc [] = acc
value base acc (c ∷ s) = value base (acc * base + digit_value c) s

-- '0' to '9', or 'A' to 'F': no other character is a digit.
abbrev pub IsDigitChar : ℕ → Type 0
IsDigitChar c = ((48 ≤ c) × (c ≤ 57)) ⊎ ((65 ≤ c) × (c ≤ 70))

abbrev pub AllDigits : ℕ → Text → Type 0
AllDigits base [] = Unit {0}
AllDigits base (c ∷ s) = (digit_value c < base) × (48 ≤ c) × IsDigitChar c × AllDigits base s

-- Not empty, and no leading zero but in "0".
abbrev pub IsShort : Text → Type 0
IsShort [] = ⊥
IsShort (c ∷ []) = Unit {0}
IsShort (c ∷ d ∷ s) = c ≢ b'0'

-- `s` is the numeral of `n`.
pub record IsNumeral (base n : ℕ) (s : Text) : Type 0 where
  pub spells : value base 0 s ≡ n
  pub digits : AllDigits base s
  pub short : IsShort s

-- The digits of `n`, the highest first, for an array index from 0 to `t`.
abbrev pub digit_at : (ℕ → ℕ) → ℕ → ℕ → ℕ → ℕ → ℕ
digit_at digit base n t j = digit (n / base ^ (t - j) % base)

-- The characters for the digits of a base.
pub record IsDigits (digit : ℕ → ℕ) (base : ℕ) : Type 0 where
  pub two : 2 ≤ base
  pub read : (d : ℕ) → d < base → digit_value (digit d) ≡ d
  pub ascii : (d : ℕ) → d < base → 48 ≤ digit d
  pub shape : (d : ℕ) → d < base → IsDigitChar (digit d)

module _ (digit : ℕ → ℕ) (base n t : ℕ) (is : IsDigits digit base) where
  pub low-lt : (m : ℕ) → m % base < base
  low-lt m = mod-lt m {m = base} (omega (arith, is.two))

  pub value_step :
      (k i : ℕ)
      → suc k + i ≡ suc t
      → n / base ^ suc k * base + digit_value (digit_at digit base n t i) ≡ n / base ^ k
  value_step k i e =
      let back : t - i ≡ k = omega arith in
      rw (back, is.read (n / base ^ k % base) (low-lt (n / base ^ k)))
        (omega (
          arith,
          div-add-mod (n / base ^ k) base,
          ap (λ (q : ℕ). base * q) (div-div-eq-div-mul n (base ^ k) base),
          ap (λ (q : ℕ). base * (n / q)) (pow-suc base k),
        ))

  pub value-tabulate :
      (k i : ℕ)
      → k + i ≡ suc t
      → value base (n / base ^ k) (tabulate k i (digit_at digit base n t)) ≡ n
  value-tabulate zero i e = rw (pow.zero base) (div-one n)
  value-tabulate (suc k) i e =
      ap (λ a. value base a (tabulate k (i + 1) (digit_at digit base n t))) (value_step k i e)
      ∙ value-tabulate k (i + 1) (omega arith)

  pub AllDigits-tabulate : (k i : ℕ) → AllDigits base (tabulate k i (digit_at digit base n t))
  AllDigits-tabulate zero i = tt
  AllDigits-tabulate (suc k) i =
      let d = n / base ^ (t - i) in
      (
        rw (is.read (d % base) (low-lt d)) (low-lt d),
        is.ascii (d % base) (low-lt d),
        is.shape (d % base) (low-lt d),
        AllDigits-tabulate k (i + 1),
      )

  -- The first digit is not 0, if the digits before the last do not spell the number.
  pub high_digit : base ^ t ≤ n → n < base ^ suc t → digit_at digit base n t 0 ≢ b'0'
  high_digit lo hi e =
      let top = n / base ^ t in
      let positive : 0 < base ^ t = one-le-pow t base (omega (arith, is.two)) in
      let below : top < base =
        (div-lt_iff_lt-mul {k = base ^ t} {x = n} {y = base} positive).1
          (omega (arith, pow-suc base t, mul_comm base (base ^ t))) in
      let above : 1 ≤ top =
        (le-div_iff_mul-le {k = base ^ t} {x = 1} {y = n} positive).1 (omega (arith, lo)) in
      let same : digit (top % base) ≡ b'0' =
        ap (λ (u : ℕ). digit (n / base ^ u % base)) t_minus_zero ∙ e in
      let zero_digit : top % base ≡ 0 =
        sym (is.read (top % base) (low-lt top)) ∙ ap digit_value same in
      absurd (omega (arith, mod-eq_of_lt below))
    where
      t_minus_zero : t ≡ t - 0
      t_minus_zero = omega arith

  pub IsShort-tabulate :
      base ^ t ≤ n → n < base ^ suc t → IsShort (tabulate (suc t) 0 (digit_at digit base n t))
  IsShort-tabulate lo hi = go t (λ p. high_digit lo hi p)
    where
      go :
          (u : ℕ)
          → digit_at digit base n t 0 ≢ b'0'
          → IsShort (tabulate (suc u) 0 (digit_at digit base n t))
      go zero h = tt
      go (suc u) h = h

  pub IsNumeral-tabulate :
      base ^ t ≤ n
      → n < base ^ suc t
      → IsNumeral base n (tabulate (suc t) 0 (digit_at digit base n t))
  IsNumeral-tabulate lo hi = record {
    spells =
        subst (λ a. value base a (tabulate (suc t) 0 (digit_at digit base n t)) ≡ n)
          (div-eq_of_lt hi) (value-tabulate (suc t) 0 (omega arith));
    digits = AllDigits-tabulate (suc t) 0;
    short = IsShort-tabulate lo hi;
  }
