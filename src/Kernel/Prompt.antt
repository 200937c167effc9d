-- ===== src/Kernel/Prompt.antt =====
-- The system prompt prints its numbers one to a line, and returns.
use mathlib.Core.List.{foldl}
use flosp_os.Common.{
  ℕ, zero, suc, ◌+◌, ◌^◌, ◌≤◌, ◌<◌, ◌≡◌, ◌∙◌, ap, refl, false, ◌++◌, [], ◌∷◌, arith, leb, ◌==◌,
  if◌then◌else◌, codes,
}
use flosp_os.Common.Run.{Run, done, ◌>>=◌, >>=-assoc}
use flosp_os.Mem.{Memory}
use flosp_os.Text
use flosp_os.Text.{Text}
use flosp_os.Text.Numeral.{AllDigits, IsNumeral}
use flosp_os.Text.Numbers.{kprint_num-IsNumeral}
use flosp_os.Vga.{Terminal, kprint, kputchar}
use flosp_os.Vga.Cursor.{
  Cursor, cursor, moved, advance, before_null, Fits, kprint-advance, kputchar-advance, Fits-moved,
}
use flosp_os.Kernel.{count_up, enter_sysprompt}

-- Digits leave the cursor on its line.
digits-line :
    (last : ℕ) (s : Text) (c : Cursor)
    → AllDigits 10 s
    → (foldl (advance last) c (before_null s)).line ≡ c.line
digits-line last [] c h = refl
digits-line last (d ∷ s) c h = rw char (digits-line last s (advance last c d) h.3 ∙ stays)
  where
    char : (d == 0) ≡ false
    char = ground (arith, h.1)

    stays : (advance last c d).line ≡ c.line
    stays = ground (arith, h.1)

-- The numerals of `n` numbers from `i` on, each with a newline behind it.
abbrev pub Counted : ℕ → ℕ → Text → Type 0
Counted i zero text = text ≡ []
Counted i (suc n) text =
    (s : Text) × (rest : Text) × (text ≡ s ++ b'\n' ∷ rest)
    × IsNumeral 10 i s
    × Counted (i + 1) n rest

-- A text without a null byte.
abbrev NoNull : Text → Type 0
NoNull [] = Unit {0}
NoNull (c ∷ s) = ((c == 0) ≡ false) × NoNull s

AllDigits-NoNull : (s : Text) → AllDigits 10 s → NoNull s
AllDigits-NoNull [] h = tt
AllDigits-NoNull (d ∷ s) h = (ground (arith, h.1), AllDigits-NoNull s h.3)

-- `n` lines below `line`, or the last line.
abbrev pub lines_down : ℕ → ℕ → ℕ → ℕ
lines_down last n line = if leb (line + n) last then line + n else last

module _ (fonts : ℕ → ℕ → ℕ) (garbage : ℕ → ℕ) where
  -- Texts printed one after the other are printed as one.
  kprint-append :
      (s rest : Text) (t : Terminal)
      → NoNull s
      → (kprint fonts s t >>= kprint fonts rest) ≡ kprint fonts (s ++ rest) t
  unfolding kprint
  kprint-append [] rest t h = refl
  kprint-append (d ∷ s) rest t h = rw h.0 (
      >>=-assoc (kputchar fonts d t) (kprint fonts s) (kprint fonts rest)
      ∙ ap (λ (k : Terminal → Run Terminal). kputchar fonts d t >>= k)
          (λ i u. kprint-append s rest u h.1 i))

  -- The loop prints the lines of its numbers.
  count_up-Counted :
      (n i : ℕ)
      → i + n ≤ 10 ^ 19
      → (lines : Text) × Counted i n lines
        × ((t : Terminal) → count_up fonts garbage n i t ≡ kprint fonts lines t)
  unfolding count_up kprint
  count_up-Counted zero i le = ([], refl, λ t. refl)
  count_up-Counted (suc n) i le =
      let (s, text, numeral) = kprint_num-IsNumeral garbage i (omega arith) in
      let (rest, counted, prints) = count_up-Counted n (i + 1) (omega arith) in
      (
        s ++ b'\n' ∷ rest,
        (s, rest, refl, numeral, counted),
        λ t. rw text (
            ap (λ (k : Terminal → Run Terminal). kprint fonts s t >>= k)
              (λ j u. kputchar fonts b'\n' u >>= (λ v. prints v j))
            ∙ kprint-append s (b'\n' ∷ rest) t (AllDigits-NoNull s numeral.digits)),
      )

  one_line :
      (last : ℕ) (s : Text) (c : Cursor)
      → AllDigits 10 s
      → c.line ≤ last
      → advance last (foldl (advance last) c (before_null s)) b'\n'
        ≡ record { line = lines_down last 1 c.line; col = 0 }
  one_line last s c h le = ground (arith, digits-line last s c h)

  one_round :
      (i : ℕ) (t : Terminal)
      → Fits t
      → i < 10 ^ 19
      → (m : Memory) × ((k : Terminal → Run Terminal)
          → (do
            text ← Text.kprint_num garbage i
            t1 ← kprint fonts text t
            t2 ← kputchar fonts b'\n' t1
            k t2)
            ≡ k (moved t m (record { line = lines_down t.max_text_line 1 t.text_line; col = 0 })))
  one_round i t f lt =
      let last = t.max_text_line in
      let (s, text, numeral) = kprint_num-IsNumeral garbage i lt in
      let (m1, e1) = kprint-advance fonts s t f in
      let c1 = foldl (advance last) (cursor t) (before_null s) in
      let (m2, e2) = kputchar-advance fonts b'\n' (moved t m1 c1) (
        Fits-moved t m1 c1 f
          (omega (arith, digits-line last s (cursor t) numeral.digits, f.on_screen))) in
      (
        m2,
        λ k.
            rw (text, e1, e2)
              (ap (λ c. k (moved t m2 c)) (one_line last s (cursor t) numeral.digits f.on_screen)),
      )

  count_up-lines :
      (n i : ℕ) (t : Terminal)
      → Fits t
      → i + n ≤ 10 ^ 19
      → (m : Memory) × (count_up fonts garbage n i t
          ≡ done (
              moved t m (record {
                line = lines_down t.max_text_line n t.text_line;
                col = if n == 0 then t.text_col_px else 0;
              })))
  unfolding count_up
  count_up-lines zero i t f lt = (t.mem, ground (arith, f.on_screen))
  count_up-lines (suc n) i t f lt =
      let (m, round) = one_round i t f (omega arith) in
      let c : Cursor = record { line = lines_down t.max_text_line 1 t.text_line; col = 0 } in
      let (m', rest) =
        count_up-lines n (i + 1) (moved t m c) (Fits-moved t m c f (ground (arith, f.on_screen)))
          (omega arith) in
      (m', round (count_up fonts garbage n (i + 1)) ∙ rest ∙ settle m')
    where
      settle :
          (m : Memory)
          → let down = lines_down t.max_text_line 1 t.text_line in
            done (
              moved t m (record {
                line = lines_down t.max_text_line n down;
                col = if n == 0 then 0 else 0;
              }))
            ≡ done (
                moved t m (record {
                  line = lines_down t.max_text_line (suc n) t.text_line;
                  col = if suc n == 0 then t.text_col_px else 0;
                }))
      settle m = ground (arith, f.on_screen)

-- The whole text that the prompt prints, wherever the cursor is: "C:\> ", then the numbers from 0 to 999.
enter_sysprompt-Counted :
    (fonts : ℕ → ℕ → ℕ) (garbage : ℕ → ℕ) (t : Terminal)
    → (lines : Text) × Counted 0 1000 lines
      × (enter_sysprompt fonts garbage t ≡ kprint fonts (codes "C:\\> " ++ lines) t)
unfolding enter_sysprompt
enter_sysprompt-Counted fonts garbage t =
    let (lines, counted, prints) = count_up-Counted fonts garbage 1000 0 (omega arith) in
    (
      lines,
      counted,
      ap (λ (k : Terminal → Run Terminal). kprint fonts (codes "C:\\> ") t >>= k)
            (λ j u. prints u j)
          ∙ kprint-append fonts garbage (codes "C:\\> ") lines t
              (refl, (refl, (refl, (refl, (refl, tt))))),
    )

-- From any screen that fits, the prompt prints "C:\> " and the numerals of the numbers from 0 to 999, each
-- with a newline behind it, and returns with the cursor in the first column, a thousand lines down or in
-- the last line.
pub enter_sysprompt_lem :
    (fonts : ℕ → ℕ → ℕ) (garbage : ℕ → ℕ) (t : Terminal)
    → Fits t
    → (lines : Text) × (m : Memory) × Counted 0 1000 lines
      × (enter_sysprompt fonts garbage t ≡ kprint fonts (codes "C:\\> " ++ lines) t)
      × (enter_sysprompt fonts garbage t
          ≡ done
              (moved t m (record { line = lines_down t.max_text_line 1000 t.text_line; col = 0 })))
unfolding enter_sysprompt
enter_sysprompt_lem fonts garbage t f =
    let (lines, counted, prints) = enter_sysprompt-Counted fonts garbage t in
    let (m, e) = kprint-advance fonts (codes "C:\\> ") t f in
    let c = foldl (advance t.max_text_line) (cursor t) (codes "C:\\> ") in
    let (m', e') =
      count_up-lines fonts garbage 1000 0 (moved t m c) (Fits-moved t m c f f.on_screen)
        (omega arith) in
    (lines, m', counted, prints, rw e e')
