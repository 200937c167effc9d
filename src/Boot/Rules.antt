-- ===== src/Boot/Rules.antt =====
-- The rules for runs of the loader, in the form that a proof applies: each goes past the first call of a
-- body.
use flosp_os.Common.{ℕ, List, [], ◌∷◌, Bool, true, false, ◌≡◌, refl, if◌then◌else◌}
use flosp_os.Mem.{Memory}
use flosp_os.Text.{Text}
use flosp_os.Boot.Efi.{
  Service, World, L, ◌>>=◌, ◌>>◌, pure, return, call, get, modify_mem, print_all, skip, function,
  check, check_quiet, efi_print, print_if,
}
use flosp_os.Boot.Triple.{
  world, Ends, pure-Ends, call-Ends, function-Ends, modify_mem-Ends, get-Ends, efi_print-Ends,
  print_if-Ends, check-Ends, check_quiet-Ends, bind-Ends, body_bind-Ends, body_return-Ends,
}

-- A rule, and the proof of what it leaves.
infixr 1 ◌$◌
abbrev pub ◌$◌ {ℓ ℓ'} : {A : Type ℓ} {B : Type ℓ'} → (A → B) → A → B
f $ a = f a

-- The rules in the form that a proof applies.
module _ {P R A : Type 0} {Q : A → Memory → P → Type 0} {m : Memory} {p : P} where
  pub then_pure : (a : A) → Q a m p → Ends {R = R} (pure a) Q m p
  then_pure a = pure-Ends Q m p a

  pub then_if :
      (b : Bool) {x y : L P R A}
      → (b ≡ true → Ends x Q m p)
      → (b ≡ false → Ends y Q m p)
      → Ends (if b then x else y) Q m p
  then_if true h _ = h refl
  then_if false _ h = h refl

  pub then_function : {body : L P A A} → Ends body Q m p → Ends {R = R} (function body) Q m p
  then_function {body} = function-Ends Q m p body

module _ {P R A B : Type 0} {Q : B → Memory → P → Type 0} {m : Memory} {p : P} where
  pub then_do :
      {body : L P R A} {k : A → L P R B}
      → Ends body (λ a. Ends (k a) Q) m p
      → Ends (body >>= k) Q m p
  then_do {body} {k} = bind-Ends body k Q m p

  pub then_call :
      (f : Service P A) (k : A → L P R B)
      → (let (a, m', p') = f m p in Ends (k a) Q m' p')
      → Ends (call f >>= k) Q m p
  then_call f k h = then_do (call-Ends (λ a. Ends (k a) Q) m p f h)

module _ {P R B : Type 0} {Q : B → Memory → P → Type 0} {m : Memory} {p : P} where
  pub then_get :
      (k : World P → L P R B)
      → ((printed : List Text) → Ends (k (world m p printed)) Q m p)
      → Ends (get >>= k) Q m p
  then_get k h = then_do (get-Ends (λ w. Ends (k w) Q) m p h)

module _ {P R B : Type 0} {Q : B → Memory → P → Type 0} {m : Memory} {p : P} {k : L P R B} where
  pub then_print : (text : Text) → Ends k Q m p → Ends (efi_print text >> k) Q m p
  then_print text h = then_do (efi_print-Ends (λ _. Ends k Q) m p h text)

  pub then_print_if :
      (set : Bool) (text : Text) → Ends k Q m p → Ends (print_if set text >> k) Q m p
  then_print_if set text h = then_do (print_if-Ends (λ _. Ends k Q) m p h set text)

  pub then_check :
      (status : ℕ) (message : Text) (r : R)
      → Ends k Q m p
      → Ends (check status message r >> k) Q m p
  then_check status message r h = then_do (check-Ends (λ _. Ends k Q) m p h status message r)

  pub then_check_quiet :
      (status : ℕ) (r : R) → Ends k Q m p → Ends (check_quiet status r >> k) Q m p
  then_check_quiet status r h = then_do (check_quiet-Ends (λ _. Ends k Q) m p h status r)

module _ {P R B : Type 0} {Q : B → Memory → P → Type 0} {m : Memory} {p : P} where
  pub then_modify_mem :
      (f : Memory → Memory) (k : Unit {0} → L P R B)
      → Ends (k tt) Q (f m) p
      → Ends (modify_mem f >>= k) Q m p
  then_modify_mem f k h = then_do (modify_mem-Ends (λ a. Ends (k a) Q) m p f h)

print_all-Ends :
    {P R : Type 0} (Q : Unit {0} → Memory → P → Type 0) (m : Memory) (p : P) (texts : List Text)
    → Q tt m p
    → Ends {R = R} (print_all texts) Q m p
print_all-Ends Q m p [] h = then_pure tt h
print_all-Ends Q m p (text ∷ texts) h = then_print text (print_all-Ends Q m p texts h)

module _ {P R B : Type 0} {Q : B → Memory → P → Type 0} {m : Memory} {p : P} where
  pub then_print_all :
      (texts : List Text) (k : L P R B) → Ends k Q m p → Ends (print_all texts >> k) Q m p
  then_print_all texts k h = then_do (print_all-Ends (λ _. Ends k Q) m p texts h)

-- The rules for a function that returns early where a test holds.
module _ {P R S A : Type 0} {Q : R → Memory → P → Type 0} {m : Memory} {p : P} where
  pub body_do :
      {body : L P R A} (k : A → L P R R)
      → Ends body (λ a. Ends {R = S} (function (k a)) Q) m p
      → Ends {R = S} (function (body >>= k)) Q m p
  body_do {body} k = body_bind-Ends body k Q m p

module _ {P R S : Type 0} {Q : R → Memory → P → Type 0} {m : Memory} {p : P} where
  pub body_guard :
      (b : Bool) (text : Text) (r : R) (k : L P R R)
      → (b ≡ true → Q r m p)
      → (b ≡ false → Ends {R = S} (function k) Q m p)
      → Ends {R = S} (function ((if b then (efi_print text >> return r) else skip) >> k)) Q m p
  body_guard true text r k early rest = body_return-Ends text r k Q m p (early refl)
  body_guard false text r k early rest =
      body_do _ (pure-Ends (λ _. Ends (function k) Q) m p tt (rest refl))

  pub body_get :
      (k : World P → L P R R)
      → ((printed : List Text) → Ends {R = S} (function (k (world m p printed))) Q m p)
      → Ends {R = S} (function (get >>= k)) Q m p
  body_get k h = body_do k (get-Ends (λ w. Ends (function (k w)) Q) m p h)

  pub body_print_if :
      (set : Bool) (text : Text) (k : L P R R)
      → Ends {R = S} (function k) Q m p
      → Ends {R = S} (function (print_if set text >> k)) Q m p
  body_print_if set text k h = body_do _ (print_if-Ends (λ _. Ends (function k) Q) m p h set text)
