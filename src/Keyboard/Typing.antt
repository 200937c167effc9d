-- ===== src/Keyboard/Typing.antt =====
-- What a stream of key codes types, and which codes read outside the character tables.
use mathlib.Core.Path.{subst}
use flosp_os.Common.{
  ◌↔◌, not, ℕ, zero, suc, ◌+◌, ◌≤◌, ◌<◌, ◌≡◌, ◌≢◌, ◌∙◌, ap, refl, ◌⊎◌, inl, inr, Bool, true, false,
  ◌||◌, List, [], ◌∷◌, arith, ◌==◌, leb, if◌then◌else◌, none, some, get_elem?, get_or, length, ◌&&◌,
}
use flosp_os.Common.Run.{done, fault}
use flosp_os.Text.{Text}
use flosp_os.Machine.{Machine, Event, print, erase, ◌>>=◌, ◌>>◌, skip, kputchar, M}
use flosp_os.Ps2.{data_port}
use flosp_os.Keyboard.{chars, chars_cap, char_at, keycode_char, keyboard_handler}

-- A code that the driver handles: a press of a key of the tables, or the release of a shift key.
abbrev pub Known : ℕ → Type 0
Known k = (k < 59) ⊎ (k ≡ 0xaa) ⊎ (k ≡ 0xb6)

abbrev pub shift_press : ℕ → Bool
shift_press k = (k == 0x2a) || (k == 0x36)

abbrev pub shift_release : ℕ → Bool
shift_release k = (k == 0xaa) || (k == 0xb6)

-- The shift state after a code.
abbrev pub shift_after : Bool → ℕ → Bool
shift_after b k = if shift_press k then true else if shift_release k then false else b

-- What a code shows on the console.
abbrev pub shown : Bool → ℕ → List Event → List Event
shown b k trace =
    if shift_press k || shift_release k
    then trace
    else if k == 0x0e
    then erase ∷ trace
    else if get_or (if b then chars_cap else chars) k 0 == 0
    then trace
    else print (get_or (if b then chars_cap else chars) k 0 ∷ []) ∷ trace

get_elem?-get_or : (xs : Text) (k : ℕ) → k < length xs → get_elem? xs k ≡ some (get_or xs k 0)
get_elem?-get_or [] k lt = absurd (omega arith)
get_elem?-get_or (x ∷ xs) zero lt = refl
get_elem?-get_or (x ∷ xs) (suc k) lt = get_elem?-get_or xs k (omega arith)

get_elem?-none : (xs : Text) (k : ℕ) → length xs ≤ k → get_elem? xs k ≡ none
get_elem?-none [] k le = refl
get_elem?-none (x ∷ xs) zero le = absurd (omega arith)
get_elem?-none (x ∷ xs) (suc k) le = get_elem?-none xs k (omega arith)

char_at-table :
    (b : Bool) (k : ℕ)
    → k < 59
    → char_at (if b then chars_cap else chars) k
      ≡ done (get_or (if b then chars_cap else chars) k 0)
unfolding char_at
char_at-table true k lt = rw (get_elem?-get_or chars_cap k lt)
char_at-table false k lt = rw (get_elem?-get_or chars k lt)

char_at-fault : (b : Bool) (k : ℕ) → 59 ≤ k → char_at (if b then chars_cap else chars) k ≡ fault
unfolding char_at
char_at-fault true k le = rw (get_elem?-none chars_cap k le)
char_at-fault false k le = rw (get_elem?-none chars k le)

-- Every code but those that the driver handles, such as the release of a letter, makes it read past
-- the end of its table.
pub keycode_char-fault :
    (k : ℕ) (s : Machine) → 59 ≤ k → k ≢ 0xaa → k ≢ 0xb6 → keycode_char k s ≡ fault
unfolding keycode_char
keycode_char-fault k s le a b = ground (arith, char_at-fault s.shift_down k le)

-- One code: the shift state, and what is shown.
pub press-shown :
    (k : ℕ) (s : Machine)
    → Known k
    → (keycode_char k >>= kputchar) s
      ≡ done (
        tt,
        record s { shift_down = shift_after s.shift_down k; trace = shown s.shift_down k s.trace },
      )
unfolding keycode_char
press-shown k s (inl lt) = ground (arith, char_at-table s.shift_down k lt)
press-shown k s (inr (inl e)) = rw e refl
press-shown k s (inr (inr e)) = rw e refl

-- `n` keyboard interrupts.
unfoldable pub handled : ℕ → M (Unit {0})
handled zero = skip
handled (suc n) = keyboard_handler >> handled n

-- The shift state and the console after `n` codes, the first of which is read at the moment `t`.
unfoldable pub typed : (ℕ → ℕ) → ℕ → ℕ → Bool → List Event → Bool × List Event
typed code zero t b trace = (b, trace)
typed code (suc n) t b trace =
    typed code n (t + 1) (shift_after b (code t)) (shown b (code t) trace)

pub keyboard_handler-shown :
    (s : Machine)
    → Known (s.env.port_in s.now data_port)
    → keyboard_handler s
      ≡ done (
        tt,
        record s {
          now = s.now + 1;
          shift_down = shift_after s.shift_down (s.env.port_in s.now data_port);
          trace = shown s.shift_down (s.env.port_in s.now data_port) s.trace;
        },
      )
unfolding keyboard_handler
keyboard_handler-shown s known =
    press-shown (s.env.port_in s.now data_port) (record s { now = s.now + 1 }) known

-- A stream of codes that the driver handles leaves the shift state and the console as its keys say, in
-- their order, and nothing else changes.
pub handled-typed :
    (n : ℕ) (s : Machine)
    → ((i : ℕ) → i < n → Known (s.env.port_in (s.now + i) data_port))
    → handled n s ≡ (
        let result = typed (λ t. s.env.port_in t data_port) n s.now s.shift_down s.trace in
        done (tt, record s { now = s.now + n; shift_down = result.0; trace = result.1 }))
unfolding handled typed
handled-typed zero s known = ap (λ (t : ℕ). done (tt, record s { now = t })) (omega arith)
handled-typed (suc n) s known =
    rw (keyboard_handler-shown s (subst (at_time s) (omega arith) (known 0 (omega arith)))) (
      handled-typed n (after s)
        (λ i lt. subst (at_time s) (omega arith) (known (suc i) (omega arith)))
      ∙ ap (λ (t : ℕ). done (tt, record (last n s) { now = t })) (omega arith))
  where
    at_time : Machine → ℕ → Type 0
    at_time s t = Known (s.env.port_in t data_port)

    after : Machine → Machine
    after s = record s {
      now = s.now + 1;
      shift_down = shift_after s.shift_down (s.env.port_in s.now data_port);
      trace = shown s.shift_down (s.env.port_in s.now data_port) s.trace;
    }

    last : ℕ → Machine → Machine
    last n s =
        let result = typed (λ t. s.env.port_in t data_port) (suc n) s.now s.shift_down s.trace in
        record s { shift_down = result.0; trace = result.1 }

-- A test of the two tables against each other.
abbrev tables_agree : Text → Text → Bool
tables_agree [] [] = true
tables_agree [] (d ∷ ds) = false
tables_agree (c ∷ cs) [] = false
tables_agree (c ∷ cs) (d ∷ ds) =
    (if c == 0 then d == 0 else not (d == 0))
    && ((if leb b'a' c && leb c b'z' then c == d + 32 else true) && tables_agree cs ds)

-- The two tables print for the same keys, and for a letter the table of the shifted keys has its
-- capital.
pub chars_cap-capital :
    (k : ℕ)
    → ((get_or chars k 0 ≡ 0) ↔ (get_or chars_cap k 0 ≡ 0))
      × (b'a' ≤ get_or chars k 0
          → get_or chars k 0 ≤ b'z'
          → get_or chars k 0 ≡ get_or chars_cap k 0 + 32)
chars_cap-capital k = read chars chars_cap k refl
  where
    read :
        (cs ds : Text) (k : ℕ)
        → tables_agree cs ds ≡ true
        → ((get_or cs k 0 ≡ 0) ↔ (get_or ds k 0 ≡ 0))
          × (b'a' ≤ get_or cs k 0 → get_or cs k 0 ≤ b'z' → get_or cs k 0 ≡ get_or ds k 0 + 32)
    read [] [] k e = ((λ p. refl, λ p. refl), λ p q. absurd (omega arith))
    read [] (d ∷ ds) k e = cc
    read (c ∷ cs) [] k e = cc
    read (c ∷ cs) (d ∷ ds) zero e = ((λ p. ground arith, λ p. ground arith), λ p q. ground arith)
    read (c ∷ cs) (d ∷ ds) (suc k) e = read cs ds k (ground arith)
