-- ===== src/Machine/Keeps.antt =====
-- What a run of a driver keeps of the machine, if it returns: one rule for each way to build a run.
use mathlib.Core.Path.{subst}
use flosp_os.Common.{
  ℕ, List, [], ◌∷◌, ◌==◌, ◌≡◌, ◌+◌, ap, codes, Bool, true, false, if◌then◌else◌, ltb,
}
use flosp_os.Common.Run.{Run, done, stuck, frozen, fault, >>=-eq-done}
use flosp_os.Text.{Text}
use flosp_os.Machine.{
  Machine, Event, out, set_reg, print, erase, M, pure, lift, ◌>>=◌, ◌>>◌, skip, get, modify, inb,
  outb, get_uptime_ticks, read_reg, write_reg, kprint, kputchar, backspace, kprint_run, kern_log,
  cpu_freeze,
}

pub record Keeps (Q : Machine → Type 0) {A : Type 0} (m : M A) : Type 0 where
  pub at : (s t : Machine) (a : A) → Q s → m s ≡ done (a, t) → Q t

module _ {A : Type 0} where
  abbrev end_of : Machine → Run (A × Machine) → Machine
  end_of s (done (a, t)) = t
  end_of s _ = s

  -- A run whose end is known.
  pub ends_at :
      (Q : Machine → Type 0) (s t t' : Machine) (a a' : A)
      → ◌≡◌ {A = Run (A × Machine)} (done (a', t')) (done (a, t))
      → Q t'
      → Q t
  ends_at Q s t t' a a' e h = subst Q (ap (end_of s) e) h

module _ {Q : Machine → Type 0} {A B : Type 0} where
  pub Keeps-bind :
      (m : M A) (k : A → M B) → Keeps Q m → ((a : A) → Keeps Q (k a)) → Keeps Q (m >>= k)
  Keeps-bind m k first rest = record {
    at = λ s t b h e.
        let ((a, u), run, run') = >>=-eq-done (m s) (λ (a, s). k a s) e in
        (rest a).at u t b (first.at s u a h run) run';
  }

module _ {Q : Machine → Type 0} {A : Type 0} where
  pub Keeps-pure : (a : A) → Keeps Q (pure a)
  Keeps-pure a = record { at = λ s t b h e. ends_at Q s t s b a e h }

  pub Keeps-lift : (r : Run A) → Keeps Q (lift r)
  Keeps-lift (done a) = record { at = (Keeps-pure a).at }
  Keeps-lift fault = record { at = λ s t b h e. cc }
  Keeps-lift stuck = record { at = λ s t b h e. cc }
  Keeps-lift frozen = record { at = λ s t b h e. cc }

  pub Keeps-if : (b : Bool) (m n : M A) → Keeps Q m → Keeps Q n → Keeps Q (if b then m else n)
  Keeps-if true m n km kn = km
  Keeps-if false m n km kn = kn

  -- The same with a test of the machine, which the branch may use.
  pub Keeps-branch :
      (b : Machine → Bool) (m n : M A)
      → Keeps Q m
      → Keeps Q n
      → Keeps Q (λ s. if b s then m s else n s)
  Keeps-branch b m n km kn = record { at = λ s t a h e. taken s t a h (b s) e }
    where
      taken :
          (s t : Machine) (a : A)
          → Q s
          → (x : Bool) → ◌≡◌ {A = Run (A × Machine)} (if x then m s else n s) (done (a, t))
          → Q t
      taken s t a h true e = km.at s t a h e
      taken s t a h false e = kn.at s t a h e

  -- A run that reads the machine that it starts from.
  pub Keeps-state : (f : Machine → M A) → ((s : Machine) → Keeps Q (f s)) → Keeps Q (λ s. f s s)
  Keeps-state f keeps = record { at = λ s t a h e. (keeps s).at s t a h e }

  pub Keeps-get_bind :
      (k : Machine → M A)
      → ((s t : Machine) (a : A) → Q s → k s s ≡ done (a, t) → Q t)
      → Keeps Q (get >>= k)
  Keeps-get_bind k rest = record { at = λ s t a h e. rest s t a h e }

-- The same, with a property of what the run returns.
pub record Gives (Q : Machine → Type 0) {A : Type 0} (R : A → Type 0) (m : M A) : Type 0 where
  pub at : (s t : Machine) (a : A) → Q s → m s ≡ done (a, t) → Q t × R a

module _ {Q : Machine → Type 0} {A : Type 0} {R : A → Type 0} where
  pub Gives-pure : (a : A) → R a → Gives Q R (pure a)
  Gives-pure a r = record {
    at = λ s t b h e. (ends_at Q s t s b a e h, subst R (ap (result_of a) e) r);
  }
    where
      result_of : A → Run (A × Machine) → A
      result_of x (done (a, t)) = a
      result_of x _ = x

  pub Gives-if : (b : Bool) (m n : M A) → Gives Q R m → Gives Q R n → Gives Q R (if b then m else n)
  Gives-if true m n gm gn = gm
  Gives-if false m n gm gn = gn

  pub Gives-bind :
      {B : Type 0} (m : M B) (k : B → M A)
      → Keeps Q m
      → ((b : B) → Gives Q R (k b))
      → Gives Q R (m >>= k)
  Gives-bind m k first rest = record {
    at = λ s t b h e.
        let ((a, u), run, run') = >>=-eq-done (m s) (λ (a, s). k a s) e in
        (rest a).at u t b (first.at s u a h run) run';
  }

  -- The rest of a run may use what the first part gives.
  pub Keeps-given :
      {B : Type 0} (m : M A) (k : A → M B)
      → Gives Q R m
      → ((a : A) → R a → Keeps Q (k a))
      → Keeps Q (m >>= k)
  Keeps-given m k first rest = record {
    at = λ s t b h e.
        let ((a, u), run, run') = >>=-eq-done (m s) (λ (a, s). k a s) e in
        let (h', r) = first.at s u a h run in (rest a r).at u t b h' run';
  }

-- A property that does not read the inputs, the trace and the error flag of the PS/2 driver.
pub record Stable (Q : Machine → Type 0) : Type 0 where
  pub stays :
      (s : Machine) (now : ℕ) (trace : List Event) (error : Bool)
      → Q s
      → Q (record s { now = now; trace = trace; ps2_error = error })

module _ {Q : Machine → Type 0} where
  pub Keeps-get : Keeps Q get
  Keeps-get = record { at = λ s t b h e. ends_at Q s t s b s e h }

  pub Keeps-modify : (f : Machine → Machine) → ((s : Machine) → Q s → Q (f s)) → Keeps Q (modify f)
  Keeps-modify f keeps = record { at = λ s t b h e. ends_at Q s t (f s) b tt e (keeps s h) }

module _ {Q : Machine → Type 0} (q : Stable Q) where
  pub Keeps-inb : (port : ℕ) → Keeps Q (inb port)
  Keeps-inb port = record {
    at = λ s t b h e. ends_at Q s t _ b _ e (q.stays s (s.now + 1) s.trace s.ps2_error h);
  }

  pub Keeps-read_reg : (reg : ℕ) → Keeps Q (read_reg reg)
  Keeps-read_reg reg = record {
    at = λ s t b h e. ends_at Q s t _ b _ e (q.stays s (s.now + 1) s.trace s.ps2_error h);
  }

  pub Keeps-get_uptime_ticks : Keeps Q get_uptime_ticks
  Keeps-get_uptime_ticks = record {
    at = λ s t b h e. ends_at Q s t _ b _ e (q.stays s (s.now + 1) s.trace s.ps2_error h);
  }

  pub Keeps-outb : (port value : ℕ) → Keeps Q (outb port value)
  Keeps-outb port value = record {
    at = λ s t b h e.
        ends_at Q s t _ b _ e (q.stays s s.now (out port value ∷ s.trace) s.ps2_error h);
  }

  pub Keeps-write_reg : (reg value : ℕ) → Keeps Q (write_reg reg value)
  Keeps-write_reg reg value = record {
    at = λ s t b h e.
        ends_at Q s t _ b _ e (q.stays s s.now (set_reg reg value ∷ s.trace) s.ps2_error h);
  }

  pub Keeps-kprint : (text : Text) → Keeps Q (kprint text)
  Keeps-kprint text = record {
    at = λ s t b h e. ends_at Q s t _ b _ e (q.stays s s.now (print text ∷ s.trace) s.ps2_error h);
  }

  pub Keeps-backspace : Keeps Q backspace
  Keeps-backspace = record {
    at = λ s t b h e. ends_at Q s t _ b _ e (q.stays s s.now (erase ∷ s.trace) s.ps2_error h);
  }

  pub Keeps-kprint_run : (r : Run Text) → Keeps Q (kprint_run r)
  Keeps-kprint_run (done text) = record { at = (Keeps-kprint text).at }
  Keeps-kprint_run fault = record { at = λ s t b h e. cc }
  Keeps-kprint_run stuck = record { at = λ s t b h e. cc }
  Keeps-kprint_run frozen = record { at = λ s t b h e. cc }

  pub Keeps-kern_log : (filter : ℕ) (text : Text) → Keeps Q (kern_log filter text)
  Keeps-kern_log filter text =
      Keeps-branch (λ s. ltb s.env.message_filter filter) (kprint text >> kprint (codes "\n")) skip
        (Keeps-bind _ _ (Keeps-kprint text) (λ _. Keeps-kprint (codes "\n"))) (Keeps-pure tt)

  pub Keeps-kputchar : (c : ℕ) → Keeps Q (kputchar c)
  Keeps-kputchar c = Keeps-if (c == 0) _ _ (Keeps-pure tt) (Keeps-kprint (c ∷ []))

  pub Keeps-cpu_freeze : Keeps Q cpu_freeze
  Keeps-cpu_freeze = Keeps-bind _ _ (Keeps-kern_log _ _) (λ _. record { at = λ s t b h e. cc })

  pub Keeps-set_error : (b : Bool) → Keeps Q (modify (λ s. record s { ps2_error = b }))
  Keeps-set_error b = Keeps-modify _ (λ s h. q.stays s s.now s.trace b h)

pub ruleset keeps_rules = (
  Keeps-pure, Keeps-if, Keeps-get, Keeps-inb, Keeps-read_reg, Keeps-get_uptime_ticks, Keeps-outb,
  Keeps-write_reg, Keeps-kprint, Keeps-backspace, Keeps-kprint_run, Keeps-kern_log, Keeps-kputchar,
  Keeps-cpu_freeze, Keeps-set_error, Keeps-bind,
)
