-- ===== src/Common/Bits.antt =====
-- `&` and `|` with shifted masks, as arithmetic, at every width.
use Prim.Native.Nat.{
  ℕ, zero, suc, ◌+◌, ◌-◌, ◌*◌, ◌/◌, ◌%◌, ◌^◌, ◌≤◌, ◌<◌, min, max, bit_and, bit_or, digits, bitwise,
  bit_and-bitwise, bit_or-bitwise,
}
use mathlib.Core.Path.{◌≡◌, refl, ap, ◌∙◌}
use native.Mathlib.Nat.{
  mul-one, div-one, div-div-eq-div-mul, div-add-mod, add-zero, pow-suc, one-le-pow,
}
use native.Mathlib.Omega.{arith}

-- The bitwise operations recur on binary digits, bitwise, with a count of digits to go that is at least the
-- first number. A digit to spare changes nothing, and so do `k` of them.
module _ (rest : ℕ → ℕ) (combine : ℕ → ℕ → ℕ) where
  one_spare : (n x y : ℕ) → x ≤ n → digits rest combine (suc n) x y ≡ digits rest combine n x y
  one_spare zero zero y le = refl
  one_spare (suc n) zero y le = refl
  one_spare zero (suc x) y le = absurd (omega arith)
  one_spare (suc n) (suc x) y le =
      ap (λ (t : ℕ). t * 2 + combine (suc x % 2) (y % 2))
        (one_spare n (suc x / 2) (y / 2) (omega arith))

  spare : (k x y : ℕ) → digits rest combine (k + x) x y ≡ bitwise rest combine x y
  spare zero x y = ap (λ (t : ℕ). digits rest combine t x y) (omega arith)
  spare (suc k) x y =
      ap (λ (t : ℕ). digits rest combine t x y) {x = suc k + x} {y = suc (k + x)} (omega arith)
      ∙ one_spare (k + x) x y (omega arith)
      ∙ spare k x y

  enough : (x y : ℕ) → digits rest combine x (suc x / 2) y ≡ bitwise rest combine (suc x / 2) y
  enough x y =
      ap (λ (t : ℕ). digits rest combine t (suc x / 2) y) (omega arith)
      ∙ spare (x - suc x / 2) (suc x / 2) y

  first_digit :
      (x y : ℕ)
      → bitwise rest combine (suc x) y
        ≡ combine (suc x % 2) (y % 2) + 2 * bitwise rest combine (suc x / 2) (y / 2)
  first_digit x y = omega (arith, enough x (y / 2))

  nothing_below :
      rest 0 ≡ 0 → ((d : ℕ) → combine d 0 ≡ 0) → (n x : ℕ) → digits rest combine n x 0 ≡ 0
  nothing_below r c zero x = r
  nothing_below r c (suc n) zero = r
  nothing_below r c (suc n) (suc x) = omega (arith, nothing_below r c n (suc x / 2), c (suc x % 2))

-- The lowest binary digit of `a & b`, and the rest.
pub bit_and_halves : (a b : ℕ) → bit_and a b ≡ min (a % 2) (b % 2) + 2 * bit_and (a / 2) (b / 2)
bit_and_halves (suc x) y =
    let meaning = bit_and-bitwise (suc x / 2) (y / 2) in
    omega (first_digit (λ k. 0) min x y, meaning, bit_and-bitwise (suc x) y, arith)
bit_and_halves zero y =
    let none = λ (k : ℕ). bit_and-bitwise 0 k in omega (none y, none (y / 2), arith)

pub bit_or_halves : (a b : ℕ) → bit_or a b ≡ max (a % 2) (b % 2) + 2 * bit_or (a / 2) (b / 2)
bit_or_halves (suc x) y =
    let meaning = bit_or-bitwise (suc x / 2) (y / 2) in
    omega (first_digit (λ k. k) max x y, meaning, bit_or-bitwise (suc x) y, arith)
bit_or_halves zero y =
    let none = λ (k : ℕ). bit_or-bitwise 0 k in omega (none y, none (y / 2), arith)

pub bit_and-zero : (a : ℕ) → bit_and a 0 ≡ 0
bit_and-zero a = bit_and-bitwise a 0 ∙ nothing_below (λ y. 0) min refl (λ d. omega arith) a a

-- By descent on a bound of the number.
or_nothing : (bound a : ℕ) → a ≤ bound → bit_or a 0 ≡ a
or_nothing bound zero le = refl
or_nothing zero (suc a) le = absurd (omega arith)
or_nothing (suc bound) (suc a) le =
    let half = or_nothing bound (suc a / 2) (omega arith) in
    omega (arith, half, bit_or_halves (suc a) 0)

pub bit_or-zero : (a : ℕ) → bit_or a 0 ≡ a
bit_or-zero a = or_nothing a a (omega arith)

-- A product with a power of two, one factor moved out.
two_out : (q k : ℕ) → q * 2 ^ suc k ≡ 2 * (q * 2 ^ k)
two_out q k = omega (arith, ap (λ (t : ℕ). q * t) (pow-suc 2 k))

half_of_double : (m k : ℕ) → m * 2 ^ suc k / 2 ≡ m * 2 ^ k
half_of_double m k = omega (arith, two_out m k)

half_ones : (k : ℕ) → (2 ^ suc k - 1) / 2 ≡ 2 ^ k - 1
half_ones k = omega (arith, pow-suc 2 k, one-le-pow k 2)

half_first : (a k : ℕ) → a / 2 / 2 ^ k ≡ a / 2 ^ suc k
half_first a k = div-div-eq-div-mul a 2 (2 ^ k) ∙ ap (λ (t : ℕ). a / t) (omega (arith, pow-suc 2 k))

mod_halves : (a k : ℕ) → a % 2 ^ suc k ≡ a / 2 % 2 ^ k * 2 + a % 2
mod_halves a k = omega (
  arith,
  div-add-mod a (2 ^ suc k),
  div-add-mod (a / 2) (2 ^ k),
  ap (λ (t : ℕ). t * (a / 2 ^ suc k)) (pow-suc 2 k),
  ap (λ (t : ℕ). 2 ^ k * t) (half_first a k),
)

-- `a & (m << k)` keeps the bits of `a` from `k` on that `m` has.
pub bit_and_high : (k a m : ℕ) → bit_and a (m * 2 ^ k) ≡ bit_and (a / 2 ^ k) m * 2 ^ k
bit_and_high zero a m = rw (mul-one, div-one, mul-one)
bit_and_high (suc k) a m = rw (two_out (bit_and (a / 2 ^ suc k) m) k) (
    omega (
      arith,
      bit_and_halves a (m * 2 ^ suc k),
      two_out m k,
      bit_and_high k (a / 2) m,
      ap (λ (t : ℕ). bit_and t m * 2 ^ k) (half_first a k),
      ap (λ (t : ℕ). bit_and (a / 2) t) (half_of_double m k),
    ))

-- A mask of `k` low ones is the remainder by `2 ^ k`.
pub bit_and_low : (k a : ℕ) → bit_and a (2 ^ k - 1) ≡ a % 2 ^ k
bit_and_low zero a = omega (arith, bit_and-zero a)
bit_and_low (suc k) a = omega (
  arith,
  bit_and_halves a (2 ^ suc k - 1),
  pow-suc 2 k,
  one-le-pow k 2,
  bit_and_low k (a / 2),
  mod_halves a k,
  ap (λ (t : ℕ). bit_and (a / 2) t) (half_ones k),
)

-- `(q << k) | r` is a sum when `r` fits `k` bits.
pub bit_or_fields : (k q r : ℕ) → r < 2 ^ k → bit_or (q * 2 ^ k) r ≡ q * 2 ^ k + r
bit_or_fields zero q zero h = rw (bit_or-zero, add-zero)
bit_or_fields zero q (suc r) h = absurd (omega arith)
bit_or_fields (suc k) q r h = omega (
  arith,
  bit_or_halves (q * 2 ^ suc k) r,
  two_out q k,
  bit_or_fields k q (r / 2) (omega (arith, pow-suc 2 k)),
  ap (λ (t : ℕ). bit_or t (r / 2)) (half_of_double q k),
)

bit_or_comm_fuel : (n a b : ℕ) → a ≤ n → b ≤ n → bit_or a b ≡ bit_or b a
bit_or_comm_fuel zero zero zero p q = refl
bit_or_comm_fuel zero zero (suc b) p q = absurd (omega arith)
bit_or_comm_fuel zero (suc a) b p q = absurd (omega arith)
bit_or_comm_fuel (suc n) a b p q = omega (
  arith,
  bit_or_halves a b,
  bit_or_halves b a,
  bit_or_comm_fuel n (a / 2) (b / 2) (omega arith) (omega arith),
)

pub bit_or_comm : (a b : ℕ) → bit_or a b ≡ bit_or b a
bit_or_comm a b = bit_or_comm_fuel (a + b) a b (omega arith) (omega arith)
