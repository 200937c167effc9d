-- ===== src/Text/Numbers.antt =====
-- `kprint_num` and `kprint_hex`: what they print, and when they overrun their buffer.
use native.Mathlib.Nat.{
  pow-suc, one-le-pow, mul_comm, mod-lt, pow-le-pow_right, le_trans, le_of_mul-le-mul_left,
}
use native.Mathlib.Numerals.{add-one}
use native.Mathlib.Decide.{dec_lt}
use mathlib.Core.Path.{subst}
use Prim.Native.Nat.pow
use flosp_os.Common.{
  ℕ, zero, suc, ◌+◌, ◌-◌, ◌*◌, ◌/◌, ◌%◌, ◌^◌, ◌≤◌, ◌<◌, ◌≡◌, ◌≢◌, ◌⊎◌, inl, inr, ap, refl, sym, ◌∙◌,
  [], ◌∷◌, Bool, arith, if◌then◌else◌, codes, ◌++◌,
}
use flosp_os.Common.Run.{done, fault}
use flosp_os.Text.{
  Text, Buffer, fresh, finish, number_text, kprint_num, kprint_hex, dec_digit, hex_digit,
}
use flosp_os.Text.Loops.{Holds, Pushed, pushed, push-done, digit_loop-Pushed, suc-ne-zero}
use flosp_os.Text.Reverse.{tabulate, tabulate_cong, finish-reverse, finish-fault}
use flosp_os.Text.Numeral.{IsNumeral, IsDigits, digit_at, IsNumeral-tabulate}

fresh-Holds : (garbage : ℕ → ℕ) → Holds 0 (fresh garbage)
fresh-Holds garbage = record { small = omega arith; count = refl }

-- Facts about a filled buffer of `k` digits, `k` at least one.
module _ (size : ℕ) (small : size < 256) (digit : ℕ → ℕ) (base : ℕ) (is : IsDigits digit base) where
  module _ (n : ℕ) (g : ℕ → ℕ) (k : ℕ) (b : Buffer)
      (p : Pushed size digit base (suc n) 0 (fresh g) (suc k) b) where
    top-eq : b.top ≡ k
    top-eq = omega (arith, p.holds, p.fits)

    base_pow-le : base ^ k ≤ suc n
    base_pow-le =
        le_of_mul-le-mul_left {m = base ^ k} {n = suc n} {k = base} (needed_times p.needed)
          (omega (arith, is.two))
      where
        needed_times : (suc k ≡ 0) ⊎ (base ^ suc k ≤ base * suc n) → base * base ^ k ≤ base * suc n
        needed_times (inl e) = absurd (omega arith)
        needed_times (inr h) = omega (arith, pow-suc base k, mul_comm base (base ^ k))

    cell_digit : (j : ℕ) → j ≤ k → b.cells j ≡ digit (suc n / base ^ j % base)
    cell_digit j h = ap b.cells (omega arith) ∙ p.digits j (omega arith)

    cell-ne-zero : (j : ℕ) → j ≤ k → b.cells j ≢ 0
    cell-ne-zero j h e =
        let d = suc n / base ^ j % base in
        absurd (
          omega (
            arith,
            sym (cell_digit j h) ∙ e,
            is.ascii d (mod-lt (suc n / base ^ j) {m = base} (omega (arith, is.two))),
          ))

    finish-IsNumeral :
        suc k < size → (s : Text) × (finish size b ≡ done s) × IsNumeral base (suc n) s
    finish-IsNumeral room = (
      tabulate (suc k) 0 (digit_at digit base (suc n) k),
      finish-reverse size k b top-eq (omega arith) cell-ne-zero
          ∙ ap done (tabulate_cong (suc k) 0 _ _ (λ j lo hi. cell_digit (k - j) (omega arith))),
      IsNumeral-tabulate digit base (suc n) k is base_pow-le p.enough,
    )

  number_text-zero : (g : ℕ → ℕ) → 1 < size → number_text size digit base g 0 ≡ done (b'0' ∷ [])
  unfolding number_text
  number_text-zero g room =
      rw (add-one size, push-done size 0 b'0' (fresh g) (fresh-Holds g) (omega arith))
        (finish-reverse size 0 (pushed (fresh g) b'0') refl (omega arith) (λ j h. ground arith))

  at_least_one :
      (n : ℕ) (g : ℕ → ℕ) (k : ℕ) (b : Buffer)
      → Pushed size digit base (suc n) 0 (fresh g) k b
      → (l : ℕ) × (k ≡ suc l)
  at_least_one n g zero b p = absurd (omega (arith, p.enough, pow.zero base))
  at_least_one n g (suc k) b p = (k, refl)

  -- A positive number of at most `size` digits fills the buffer with its digits.
  filled :
      (g : ℕ → ℕ) (n : ℕ)
      → suc n < base ^ size
      → (k : ℕ) × (b : Buffer) × (number_text size digit base g (suc n) ≡ finish size b)
        × Pushed size digit base (suc n) 0 (fresh g) (suc k) b
  unfolding number_text
  filled g n lt =
      let (k, b, run, p) =
        digit_loop-Pushed size small digit base is.two (suc size) (suc n) 0 size (fresh g)
          (fresh-Holds g) (omega arith) (omega arith) lt in
      let (l, e) = at_least_one n g k b p in
      (
        l,
        b,
        rw (suc-ne-zero n, add-one size, run),
        subst (λ j. Pushed size digit base (suc n) 0 (fresh g) j b) e p,
      )

  -- Below `base ^ (size - 1)` the text is the numeral of the number.
  pub number_text-IsNumeral :
      (g : ℕ → ℕ) (n : ℕ)
      → 1 < size
      → n < base ^ (size - 1)
      → (s : Text) × (number_text size digit base g n ≡ done s) × IsNumeral base n s
  number_text-IsNumeral g zero room lt = (
    b'0' ∷ [],
    number_text-zero g room,
    record {
      spells = omega arith;
      digits = (omega (arith, is.two), omega arith, inl (omega arith, omega arith), tt);
      short = tt;
    },
  )
  number_text-IsNumeral g (suc n) room lt =
      let (k, b, run, p) =
        filled g n (le_trans lt (pow-le-pow_right (omega (arith, is.two)) (omega arith))) in
      let (s, end, numeral) = finish-IsNumeral n g k b p (fewer k (base_pow-le n g k b p)) in
      (s, run ∙ end, numeral)
    where
      fewer : (k : ℕ) → base ^ k ≤ suc n → suc k < size
      fewer k le = elim (dec_lt (suc k) size) [
        | yes h ↦ h
        | no h ↦ absurd (
            omega (
              arith,
              lt,
              pow-le-pow_right {n = base} (omega (arith, is.two)) {i = size - 1} {j = k}
                  (omega arith),
            ))
      ]

  -- A number of exactly `size` digits leaves no room for the null byte.
  pub number_text-fault :
      (g : ℕ → ℕ) (n : ℕ)
      → 1 < size
      → base ^ (size - 1) ≤ n
      → n < base ^ size
      → number_text size digit base g n ≡ fault
  number_text-fault g zero room le lt =
      absurd (omega (arith, one-le-pow (size - 1) base (omega (arith, is.two))))
  number_text-fault g (suc n) room le lt =
      let (k, b, run, p) = filled g n lt in
      run ∙ finish-fault size k b (top-eq n g k b p) (omega (arith, p.fits)) (full k p.enough)
    where
      full : (k : ℕ) → suc n < base ^ suc k → size ≤ k + 1
      full k hi = elim (dec_lt (suc k) size) [
        | yes h ↦ absurd (
            omega (
              arith,
              pow-le-pow_right {n = base} (omega (arith, is.two)) {i = suc k} {j = size - 1}
                  (omega arith),
            ))
        | no h ↦ omega arith
      ]

dec_digit-IsDigits : IsDigits dec_digit 10
dec_digit-IsDigits = record {
  two = omega arith;
  read = λ d h. ground arith;
  ascii = λ d h. omega arith;
  shape = λ d h. inl (omega arith, omega arith);
}

hex_digit-IsDigits : IsDigits hex_digit 16
hex_digit-IsDigits = record {
  two = omega arith;
  read = λ d h. ground arith;
  ascii = λ d h. ground arith;
  shape = λ d h. ground arith;
}

-- Below 10 ^ 19, `kprint_num` prints the decimal numeral of its argument, whatever the stack held.
pub kprint_num-IsNumeral :
    (g : ℕ → ℕ) (n : ℕ) → n < 10 ^ 19 → (s : Text) × (kprint_num g n ≡ done s) × IsNumeral 10 n s
unfolding kprint_num
kprint_num-IsNumeral g n lt =
    number_text-IsNumeral 20 (omega arith) dec_digit 10 dec_digit-IsDigits g n (omega arith) lt

-- From 10 ^ 19 on, every 64-bit argument makes `kprint_num` write its null byte past the buffer.
pub kprint_num-fault : (g : ℕ → ℕ) (n : ℕ) → 10 ^ 19 ≤ n → n < 2 ^ 64 → kprint_num g n ≡ fault
unfolding kprint_num
kprint_num-fault g n le lt =
    number_text-fault 20 (omega arith) dec_digit 10 dec_digit-IsDigits g n (omega arith) le
      (omega arith)

-- Below 16 ^ 15, `kprint_hex` prints the hexadecimal numeral of its argument, behind "0x" on demand.
pub kprint_hex-IsNumeral :
    (g : ℕ → ℕ) (h : ℕ) (zero_x : Bool)
    → h < 16 ^ 15
    → (s : Text) × (kprint_hex g h zero_x ≡ done (if zero_x then codes "0x" ++ s else s))
      × IsNumeral 16 h s
unfolding kprint_hex
kprint_hex-IsNumeral g h zero_x lt =
    let (s, run, numeral) =
      number_text-IsNumeral 16 (omega arith) hex_digit 16 hex_digit-IsDigits g h (omega arith) lt in
    (s, rw run, numeral)

-- An argument of sixteen hexadecimal digits makes `kprint_hex` write past its buffer.
pub kprint_hex-fault :
    (g : ℕ → ℕ) (h : ℕ) (zero_x : Bool) → 16 ^ 15 ≤ h → h < 2 ^ 64 → kprint_hex g h zero_x ≡ fault
unfolding kprint_hex
kprint_hex-fault g h zero_x le lt =
    rw (number_text-fault 16 (omega arith) hex_digit 16 hex_digit-IsDigits g h (omega arith) le lt)
