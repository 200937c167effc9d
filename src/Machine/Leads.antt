-- ===== src/Machine/Leads.antt =====
-- Runs of a driver from one property of the machine to another, and runs that do not return.
use flosp_os.Common.{◌≡◌, Bool, true, false, if◌then◌else◌}
use flosp_os.Common.Run.{done, >>=-eq-done}
use flosp_os.Machine.{Machine, M, ◌>>=◌, ◌>>◌, modify}
use flosp_os.Machine.Keeps.{Keeps, ends_at}

-- If the run returns, it has led from `Q` to `R`.
pub record Leads (Q R : Machine → Type 0) {A : Type 0} (m : M A) : Type 0 where
  pub at : (s t : Machine) (a : A) → Q s → m s ≡ done (a, t) → R t

-- From a machine with the property the run does not return.
pub record Never (Q : Machine → Type 0) {A : Type 0} (m : M A) : Type 0 where
  pub at : (s t : Machine) (a : A) → Q s → ¬ (m s ≡ done (a, t))

module _ {Q R : Machine → Type 0} where
  pub Leads-modify :
      (f : Machine → Machine) → ((s : Machine) → Q s → R (f s)) → Leads Q R (modify f)
  Leads-modify f leads = record { at = λ s t b h e. ends_at R s t (f s) b tt e (leads s h) }

  module _ {A B : Type 0} (m : M A) (k : A → M B) where
    pub Leads-rest : Keeps Q m → ((a : A) → Leads Q R (k a)) → Leads Q R (m >>= k)
    Leads-rest first rest = record {
      at = λ s t b h e.
          let ((a, u), run, run') = >>=-eq-done (m s) (λ (a, s). k a s) e in
          (rest a).at u t b (first.at s u a h run) run';
    }

    pub Leads-first : Leads Q R m → ((a : A) → Keeps R (k a)) → Leads Q R (m >>= k)
    Leads-first first rest = record {
      at = λ s t b h e.
          let ((a, u), run, run') = >>=-eq-done (m s) (λ (a, s). k a s) e in
          (rest a).at u t b (first.at s u a h run) run';
    }

    pub Leads-bind :
        {P : Machine → Type 0} → Leads Q P m → ((a : A) → Leads P R (k a)) → Leads Q R (m >>= k)
    Leads-bind first rest = record {
      at = λ s t b h e.
          let ((a, u), run, run') = >>=-eq-done (m s) (λ (a, s). k a s) e in
          (rest a).at u t b (first.at s u a h run) run';
    }

    pub Never-Leads : Leads Q R m → ((a : A) → Never R (k a)) → Never Q (m >>= k)
    Never-Leads first rest = record {
      at = λ s t b h e.
          let ((a, u), run, run') = >>=-eq-done (m s) (λ (a, s). k a s) e in
          (rest a).at u t b (first.at s u a h run) run';
    }

module _ {Q : Machine → Type 0} {A B : Type 0} where
  pub Never-rest :
      (m : M A) (k : A → M B) → Keeps Q m → ((a : A) → Never Q (k a)) → Never Q (m >>= k)
  Never-rest m k first rest = record {
    at = λ s t b h e.
        let ((a, u), run, run') = >>=-eq-done (m s) (λ (a, s). k a s) e in
        (rest a).at u t b (first.at s u a h run) run';
  }

  pub Never-first : (m : M A) (k : A → M B) → Never Q m → Never Q (m >>= k)
  Never-first m k first = record {
    at = λ s t b h e.
        let ((a, u), run, run') = >>=-eq-done (m s) (λ (a, s). k a s) e in first.at s u a h run;
  }

module _ {Q : Machine → Type 0} {A B : Type 0} (m : M A) (n : M B) where
  pub Never-then : Keeps Q m → Never Q n → Never Q (m >> n)
  Never-then first rest = Never-rest m (λ _. n) first (λ _. rest)

  pub Never-stop : Never Q m → Never Q (m >> n)
  Never-stop first = Never-first m (λ _. n) first

-- A test that is known.
module _ {Q : Machine → Type 0} {A : Type 0} where
  pub Never-true : (b : Bool) (m n : M A) → b ≡ true → Never Q m → Never Q (if b then m else n)
  Never-true true m n e never = never
  Never-true false m n e never = record { at = λ s t a h run. cc }

  pub Keeps-true : (b : Bool) (m n : M A) → b ≡ true → Keeps Q m → Keeps Q (if b then m else n)
  Keeps-true true m n e keeps = keeps
  Keeps-true false m n e keeps = record { at = λ s t a h run. cc }
