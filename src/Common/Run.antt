-- ===== src/Common/Run.antt =====
-- The outcome of code that can go wrong or fail to end.
use mathlib.Core.Path.{◌≡◌, refl}

-- `fault`: an access out of bounds. `stuck`: the fuel of a loop ran out. `frozen`: `cpu_freeze`.
pub data Run {ℓ} (A : Type ℓ) : Type ℓ where
  done : A → Run A
  fault : Run A
  stuck : Run A
  frozen : Run A

infixl 5 ◌>>=◌
abbrev pub ◌>>=◌ {ℓ κ} : {A : Type ℓ} {B : Type κ} → Run A → (A → Run B) → Run B
fault >>= next = fault
stuck >>= next = stuck
frozen >>= next = frozen
done value >>= next = next value

-- A bind that succeeds went through a value.
pub >>=-eq-done {ℓ κ} :
    {A : Type ℓ} {B : Type κ} (m : Run A) (k : A → Run B) {b : B}
    → (m >>= k) ≡ done b
    → (a : A) × (m ≡ done a) × (k a ≡ done b)
>>=-eq-done (done a) k h = (a, refl, h)
>>=-eq-done fault k h = cc
>>=-eq-done stuck k h = cc
>>=-eq-done frozen k h = cc

pub >>=-assoc {ℓ κ ι} :
    {A : Type ℓ} {B : Type κ} {C : Type ι} (m : Run A) (k : A → Run B) (l : B → Run C)
    → (m >>= k >>= l) ≡ (m >>= λ a. k a >>= l)
>>=-assoc (done a) k l = refl
>>=-assoc fault k l = refl
>>=-assoc stuck k l = refl
>>=-assoc frozen k l = refl
