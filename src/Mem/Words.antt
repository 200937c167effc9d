-- ===== src/Mem/Words.antt =====
-- Multi-byte loads and stores against the bytes that they touch.
use flosp_os.Common.{
  ℕ, zero, suc, ◌+◌, ◌-◌, ◌*◌, ◌/◌, ◌%◌, ◌^◌, ◌≤◌, ◌<◌, ◌≡◌, refl, ◌∙◌, Bool, false, ◌&&◌, arith,
  ltb, leb, if◌then◌else◌, u8,
}
use mathlib.Core.Path.{ap}
use native.Mathlib.Nat.{pow-suc, div-add-mod, div-div-eq-div-mul, mul_comm}
use flosp_os.Mem.{Memory, store8, load_le, store_le}

abbrev pub IsBytes : Memory → Type 0
IsBytes m = (a : ℕ) → m a < 256

-- `a` is one of the `n` addresses from `d` on.
abbrev pub inside : ℕ → ℕ → ℕ → Bool
inside d n a = leb d a && ltb a (d + n)

pub load_le_cong :
    (n : ℕ) (m m' : Memory) (s : ℕ)
    → ((a : ℕ) → s ≤ a → a < s + n → m a ≡ m' a)
    → load_le n m s ≡ load_le n m' s
unfolding load_le
load_le_cong zero m m' s h = refl
load_le_cong (suc n) m m' s h = omega (
  arith,
  h s (omega arith) (omega arith),
  load_le_cong n m m' (s + 1) (λ a p q. h a (omega arith) (omega arith)),
)

pub load_le_shift :
    (n : ℕ) (m m' : Memory) (s t : ℕ)
    → ((i : ℕ) → i < n → m (s + i) ≡ m' (t + i))
    → load_le n m s ≡ load_le n m' t
unfolding load_le
load_le_shift zero m m' s t h = refl
load_le_shift (suc n) m m' s t h = omega (
  arith,
  ap m {x = s} {y = s + 0} (omega arith)
      ∙ h 0 (omega arith)
      ∙ ap m' {x = t + 0} {y = t} (omega arith),
  load_le_shift n m m' (s + 1) (t + 1) (λ i lt.
      ap m {x = s + 1 + i} {y = s + (i + 1)} (omega arith)
      ∙ h (i + 1) (omega arith)
      ∙ ap m' {x = t + (i + 1)} {y = t + 1 + i} (omega arith)),
)

pub store_le_outside :
    (n : ℕ) (m : Memory) (d v a : ℕ) → inside d n a ≡ false → store_le n m d v a ≡ m a
unfolding store_le store8
store_le_outside zero m d v a h = refl
store_le_outside (suc n) m d v a h =
    ground (arith, store_le_outside n (store8 m d (u8 v)) (d + 1) (v / 256) a)

load_le_split :
    (n : ℕ) (m : Memory) (s : ℕ)
    → IsBytes m
    → (load_le (suc n) m s / 256 ≡ load_le n m (s + 1)) × (u8 (load_le (suc n) m s) ≡ m s)
unfolding load_le
load_le_split n m s h = omega (arith, h s)

-- Writing back a loaded word moves its bytes.
pub store_le-load_le :
    (n : ℕ) (m m' : Memory) (s d a : ℕ)
    → IsBytes m'
    → store_le n m d (load_le n m' s) a ≡ (if inside d n a then m' (s + (a - d)) else m a)
unfolding store_le
store_le-load_le zero m m' s d a h = ground arith
store_le-load_le (suc n) m m' s d a h =
    let (rest, low) = load_le_split n m' s h in
    rw (rest, low, store_le-load_le n (store8 m d (m' s)) m' (s + 1) (d + 1) a h)
      (moved (m' s) refl)
  where
    moved :
        (v : ℕ)
        → v ≡ m' s
        → (if inside (d + 1) n a then m' (s + 1 + (a - (d + 1))) else store8 m d v a)
          ≡ (if inside d (suc n) a then m' (s + (a - d)) else m a)
    moved v e = unfold store8 in ground arith

mod-pow-suc : (n v : ℕ) → v % 256 ^ suc n ≡ v % 256 + 256 * (v / 256 % 256 ^ n)
mod-pow-suc n v = omega (
  arith,
  div-add-mod v (256 ^ suc n),
  div-add-mod (v / 256) (256 ^ n),
  ap (λ (t : ℕ). t * (v / 256 ^ suc n)) (pow-suc 256 n),
  ap (λ (t : ℕ). 256 ^ n * t) (div-div-eq-div-mul v 256 (256 ^ n)),
  ap (λ (t : ℕ). 256 ^ n * (v / t)) (pow-suc 256 n),
  ap (λ (t : ℕ). 256 ^ n * (v / t)) (mul_comm 256 (256 ^ n)),
)

-- A stored number is read back, cut to its width.
pub load_le-store_le : (n : ℕ) (m : Memory) (a v : ℕ) → load_le n (store_le n m a v) a ≡ v % 256 ^ n
unfolding load_le store_le
load_le-store_le zero m a v = omega arith
load_le-store_le (suc n) m a v = omega (
  arith,
  load_le-store_le n (store8 m a (u8 v)) (a + 1) (v / 256),
  store_le_outside n (store8 m a (u8 v)) (a + 1) (v / 256) a (ground arith),
  stored,
  mod-pow-suc n v,
)
  where
    stored : store8 m a (u8 v) a ≡ u8 v
    stored = unfold store8 in ground arith

pub store_le-IsBytes : (n : ℕ) (m : Memory) (d v : ℕ) → IsBytes m → IsBytes (store_le n m d v)
unfolding store_le
store_le-IsBytes zero m d v h = h
store_le-IsBytes (suc n) m d v h =
    store_le-IsBytes n (store8 m d (u8 v)) (d + 1) (v / 256) (store8-IsBytes (u8 v) (omega arith))
  where
    store8-IsBytes : (w : ℕ) → w < 256 → IsBytes (store8 m d w)
    store8-IsBytes w lt a = unfold store8 in ground (arith, h a)
