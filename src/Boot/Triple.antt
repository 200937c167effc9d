-- ===== src/Boot/Triple.antt =====
-- Runs of the loader that go on to their end: a body that neither returns early nor stops.
use mathlib.Core.Path.{subst}
use flosp_os.Common.{sym, ℕ, List, ◌∷◌, Bool, true, false, ◌≡◌, refl, ◌∙◌, arith, ltb, ap}
use flosp_os.Common.Run
use flosp_os.Common.Run.{Run, done}
use flosp_os.Mem.{Memory}
use flosp_os.Text.{Text}
use flosp_os.Boot.Codes.{efi_error}
use flosp_os.Boot.Efi.{
  Service, World, Outcome, value, L, ◌>>=◌, ◌>>◌, pure, return, call, lift, get, modify_mem,
  function, check, check_quiet, efi_print, print_if, and_then, ended,
}

abbrev pub world : {P : Type 0} → Memory → P → List Text → World P
world m p printed = record { mem = m; private = p; printed = printed }

-- Whatever was printed, the body ends with a value and a state that have the property.
pub record Ends {P R A : Type 0} (body : L P R A) (Q : A → Memory → P → Type 0) (m : Memory) (p : P)
    : Type 0 where
  pub end :
      (printed : List Text)
      → (a : A) × (w : World P) × (body (world m p printed) ≡ done (value a, w))
        × Q a w.mem w.private

module _ {P R A : Type 0} where
  -- The world that a run ends in, or `start` if it does not end.
  abbrev pub final : World P → Run (Outcome R A × World P) → World P
  final start (done (outcome, w)) = w
  final start _ = start

  pub Ends-final :
      {body : L P R A} {Q : A → Memory → P → Type 0} {m : Memory} {p : P}
      → Ends body Q m p
      → (printed : List Text)
      → (let w = world m p printed in
          let run = body w in
          (a : A) × (run ≡ done (value a, final w run))
          × Q a (final w run).mem (final w run).private)
  Ends-final {body} {Q} {m} {p} h printed =
      let (a, w', e, q) = h.end printed in
      subst (λ x. (b : A) × (body (world m p printed) ≡ done (value b, x)) × Q b x.mem x.private)
        (sym (ap (final (world m p printed)) e)) (a, e, q)

-- No status is an error.
pub efi_error-never : (status : ℕ) → efi_error status ≡ false
unfolding efi_error
efi_error-never status = below_none status
  where
    below_none : (n : ℕ) → ltb n 0 ≡ false
    below_none n = ground arith

module _ {P R A : Type 0} where
  pub then_weaken :
      {body : L P R A} {Q Q' : A → Memory → P → Type 0} {m : Memory} {p : P}
      → Ends body Q m p
      → ((a : A) (m' : Memory) (p' : P) → Q a m' p' → Q' a m' p')
      → Ends body Q' m p
  then_weaken h f = record {
    end = λ printed. let (a, w, e, q) = h.end printed in (a, w, e, f a w.mem w.private q);
  }

  -- Two properties of the same run.
  pub both-Ends :
      {body : L P R A} {Q Q' : A → Memory → P → Type 0} {m : Memory} {p : P}
      → Ends body Q m p
      → Ends body Q' m p
      → Ends body (λ a m' p'. Q a m' p' × Q' a m' p') m p
  both-Ends {body} {Q} {Q'} {m} {p} h h' = record {
    end = λ printed.
        let (a, w, e, q) = h.end printed in
        let (a', w', e', q') = h'.end printed in
        let same : (a, w) ≡ (a', w') = ap (ending (a, w)) (sym e ∙ e') in
        (a', w', e', (subst (λ x. Q x.0 x.1.mem x.1.private) same q, q'));
  }
    where
      ending : A × World P → Run (Outcome R A × World P) → A × World P
      ending x (done (value a, w)) = (a, w)
      ending x _ = x

module _ {P R A : Type 0} (Q : A → Memory → P → Type 0) (m : Memory) (p : P) where
  pub pure-Ends : (a : A) → Q a m p → Ends {R = R} (pure a) Q m p
  unfolding pure
  pure-Ends a h = record { end = λ printed. (a, world m p printed, refl, h) }

  pub call-Ends :
      (f : Service P A) → (let (a, m', p') = f m p in Q a m' p') → Ends {R = R} (call f) Q m p
  unfolding call
  call-Ends f h = record {
    end = λ printed. let (a, m', p') = f m p in (a, world m' p' printed, refl, h);
  }

  pub lift-Ends : (r : Run A) (a : A) → r ≡ done a → Q a m p → Ends {R = R} (lift r) Q m p
  unfolding lift
  lift-Ends r a e h = record {
    end = λ printed.
        (a, world m p printed, ap (λ t. Run.◌>>=◌ t (λ b. done (value b, world m p printed))) e, h);
  }

  pub function-Ends : (body : L P A A) → Ends body Q m p → Ends {R = R} (function body) Q m p
  unfolding function
  function-Ends body h = record {
    end = λ printed. let (a, w, e, q) = h.end printed in (a, w, ap (λ r. Run.◌>>=◌ r ended) e, q);
  }

module _ {P R : Type 0} (Q : Unit {0} → Memory → P → Type 0) (m : Memory) (p : P) where
  pub modify_mem-Ends : (f : Memory → Memory) → Q tt (f m) p → Ends {R = R} (modify_mem f) Q m p
  unfolding modify_mem
  modify_mem-Ends f h = record { end = λ printed. (tt, world (f m) p printed, refl, h) }

module _ {P R : Type 0} (Q : World P → Memory → P → Type 0) (m : Memory) (p : P) where
  pub get-Ends : ((printed : List Text) → Q (world m p printed) m p) → Ends {R = R} get Q m p
  unfolding get
  get-Ends h = record { end = λ printed. (world m p printed, world m p printed, refl, h printed) }

module _ {P R : Type 0} (Q : Unit {0} → Memory → P → Type 0) (m : Memory) (p : P)
    (h : Q tt m p) where
  pub efi_print-Ends : (text : Text) → Ends {R = R} (efi_print text) Q m p
  unfolding efi_print
  efi_print-Ends text = record { end = λ printed. (tt, world m p (text ∷ printed), refl, h) }

  pub print_if-Ends : (set : Bool) (text : Text) → Ends {R = R} (print_if set text) Q m p
  unfolding print_if
  print_if-Ends true text = efi_print-Ends text
  print_if-Ends false text = pure-Ends Q m p tt h

  pub check-Ends : (status : ℕ) (message : Text) (r : R) → Ends (check status message r) Q m p
  unfolding check
  check-Ends status message r = rw (efi_error-never status) (pure-Ends Q m p tt h)

  pub check_quiet-Ends : (status : ℕ) (r : R) → Ends (check_quiet status r) Q m p
  unfolding check_quiet
  check_quiet-Ends status r = rw (efi_error-never status) (pure-Ends Q m p tt h)

module _ {P R A B : Type 0} where
  pub bind-Ends :
      (body : L P R A) (k : A → L P R B) (Q : B → Memory → P → Type 0) (m : Memory) (p : P)
      → Ends body (λ a. Ends (k a) Q) m p
      → Ends (body >>= k) Q m p
  unfolding ◌>>=◌
  bind-Ends body k Q m p h = record {
    end = λ printed.
        let (a, w, e, rest) = h.end printed in
        let (b, w', e', q) = rest.end w.printed in
        (b, w', ap (λ r. Run.◌>>=◌ r (λ o. and_then o k)) e ∙ e', q);
  }

module _ {P R S A : Type 0} where
  pub body_bind-Ends :
      (body : L P R A) (k : A → L P R R) (Q : R → Memory → P → Type 0) (m : Memory) (p : P)
      → Ends body (λ a. Ends {R = S} (function (k a)) Q) m p
      → Ends {R = S} (function (body >>= k)) Q m p
  unfolding ◌>>=◌ function
  body_bind-Ends body k Q m p h = record {
    end = λ printed.
        let (a, w, e, rest) = h.end printed in
        let (r, w', e', q) = rest.end w.printed in
        (r, w', ap (λ x. Run.◌>>=◌ (Run.◌>>=◌ x (λ o. and_then o k)) ended) e ∙ e', q);
  }

module _ {P R S : Type 0} where
  pub body_return-Ends :
      (text : Text) (r : R) (k : L P R R) (Q : R → Memory → P → Type 0) (m : Memory) (p : P)
      → Q r m p
      → Ends {R = S} (function (◌>>◌ {A = Unit {0}} (efi_print text >> return r) k)) Q m p
  unfolding ◌>>=◌ function efi_print return
  body_return-Ends text r k Q m p q = record {
    end = λ printed. (r, world m p (text ∷ printed), refl, q);
  }
