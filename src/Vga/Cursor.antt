-- ===== src/Vga/Cursor.antt =====
-- Where the text cursor goes: `kputchar`, `kprint` and `backspace` against a cursor without pixels.
use mathlib.Core.List.{foldl}
use native.Mathlib.Nat.{mod-eq_of_lt}
use flosp_os.Common.{
  ℕ, ◌+◌, ◌-◌, ◌^◌, ◌≤◌, ◌<◌, ◌≡◌, ◌⊎◌, ap, inl, inr, refl, true, false, [], ◌∷◌, ◌∙◌, ◌||◌, arith,
  leb, ◌==◌, if◌then◌else◌, u16, Bool-cases, le→ltb, leb→le,
}
use flosp_os.Common.Run.{Run, done, fault, stuck, frozen, ◌>>=◌}
use flosp_os.Mem.{Memory}
use flosp_os.Text.{Text}
use flosp_os.Vga.{Terminal, kscroll_down, new_line, draw_char, kputchar, kprint, backspace}
use flosp_os.Vga.Blocks.{kept_lines}

pub record Cursor : Type 0 where
  pub line : ℕ
  pub col : ℕ

abbrev pub cursor : Terminal → Cursor
cursor t = record { line = t.text_line; col = t.text_col_px }

-- The terminal with the cursor elsewhere and other memory.
abbrev pub moved : Terminal → Memory → Cursor → Terminal
moved t m c = record t { mem = m; text_line = c.line; text_col_px = c.col }

-- One character, on a screen whose last line is `last`.
abbrev pub advance : ℕ → Cursor → ℕ → Cursor
advance last c ch =
    if ch == 0
    then c
    else if ch == b'\n'
    then record { line = if c.line == last then c.line else c.line + 1; col = 0 }
    else record c { col = u16 (c.col + 9) }

-- A screen that the loop counters of the driver can span, with the cursor on one of its lines.
pub record Fits (t : Terminal) : Type 0 where
  pub width : t.framebuffer_info.width ≤ 65535
  pub lines : kept_lines t ≤ 65535
  pub font : (t.font_size ≡ 8) ⊎ (t.font_size ≡ 14) ⊎ (t.font_size ≡ 16)
  pub last : t.max_text_line ≤ 65535
  pub on_screen : t.text_line ≤ t.max_text_line

pub Fits-moved :
    (t : Terminal) (m : Memory) (c : Cursor)
    → Fits t
    → c.line ≤ t.max_text_line
    → Fits (moved t m c)
Fits-moved t m c f le = record {
  width = f.width;
  lines = f.lines;
  font = f.font;
  last = f.last;
  on_screen = le;
}

abbrev result_mem : Run Terminal → Memory → Memory
result_mem (done t) m = t.mem
result_mem fault m = m
result_mem stuck m = m
result_mem frozen m = m

pub kscroll_down-moved :
    (t : Terminal) → Fits t → (m : Memory) × (kscroll_down t ≡ done (record t { mem = m }))
unfolding kscroll_down
kscroll_down-moved t f = (
  result_mem (kscroll_down t) t.mem,
  rw (le→ltb 65535 (kept_lines t) f.lines, le→ltb 65535 t.framebuffer_info.width f.width),
)

-- What a text has before its first null byte.
abbrev pub before_null : Text → Text
before_null [] = []
before_null (c ∷ s) = let rest = before_null s in if c == 0 then [] else c ∷ rest

module _ (fonts : ℕ → ℕ → ℕ) where
  draw_char-moved :
      (c : ℕ) (t : Terminal)
      → Fits t
      → (m : Memory) × (draw_char fonts c t
          ≡ record t { mem = m; text_col_px = u16 (t.text_col_px + 9) })
  unfolding draw_char
  draw_char-moved c t f = ((draw_char fonts c t).mem, rw has_font)
    where
      has_font : ((t.font_size == 8) || ((t.font_size == 14) || (t.font_size == 16))) ≡ true
      has_font = ground (arith, f.font)

  new_line-advance :
      (t : Terminal)
      → Fits t
      → (m : Memory) × (new_line fonts t
          ≡ done (moved t m (advance t.max_text_line (cursor t) b'\n')))
  unfolding new_line
  new_line-advance t f = elim (Bool-cases (t.text_line == t.max_text_line)) [
    | inl at_end ↦
        let (m, e) = kscroll_down-moved (record t { text_col_px = 0 }) (same_fit f) in
        (m, rw at_end e)
    | inr before ↦ (t.mem, rw (before, mod-eq_of_lt (below before)))
  ]
    where
      same_fit : Fits t → Fits (record t { text_col_px = 0 })
      same_fit f = record {
        width = f.width;
        lines = f.lines;
        font = f.font;
        last = f.last;
        on_screen = f.on_screen;
      }

      below : (t.text_line == t.max_text_line) ≡ false → t.text_line + 1 < 2 ^ 16
      below e = ground (arith, f.on_screen, f.last)

  -- `kputchar` returns, and moves the cursor as `advance` does.
  pub kputchar-advance :
      (c : ℕ) (t : Terminal)
      → Fits t
      → (m : Memory) × (kputchar fonts c t
          ≡ done (moved t m (advance t.max_text_line (cursor t) c)))
  unfolding kputchar
  kputchar-advance c t f = elim (Bool-cases (c == 0)) [
    | inl null ↦ (t.mem, rw null)
    | inr char ↦ elim (Bool-cases (c == b'\n')) [
      | inl newline ↦ let (m, e) = new_line-advance t f in (m, rw (char, newline) e)
      | inr other ↦ let (m, e) = draw_char-moved c t f in (m, rw (char, other, e))
    ]
  ]

  -- `kprint` returns for every text, changes nothing but memory and the cursor, and moves the cursor
  -- character by character, up to the first null byte.
  pub kprint-advance :
      (s : Text) (t : Terminal)
      → Fits t
      → (m : Memory) × (kprint fonts s t
          ≡ done (moved t m (foldl (advance t.max_text_line) (cursor t) (before_null s))))
  unfolding kprint
  kprint-advance [] t f = (t.mem, refl)
  kprint-advance (c ∷ s) t f = elim (Bool-cases (c == 0)) [
    | inl null ↦ (t.mem, rw null)
    | inr char ↦
        let (m, e) = kputchar-advance c t f in
        let (m', e') =
          kprint-advance s (moved t m (advance t.max_text_line (cursor t) c)) (
            Fits-moved t m (advance t.max_text_line (cursor t) c) f
              (ground (arith, f.on_screen))) in
        (m', rw char (ap (λ r. r >>= kprint fonts s) e ∙ e'))
  ]

  -- `backspace` steps back over one character, and does nothing in the first column.
  pub backspace-cursor :
      (t : Terminal)
      → Fits t
      → t.text_col_px < 2 ^ 16
      → (m : Memory) × (backspace fonts t
          ≡ done (
              moved t m (record {
                line = t.text_line;
                col = if leb 9 t.text_col_px then t.text_col_px - 9 else t.text_col_px;
              })))
  unfolding backspace
  backspace-cursor t f lt = elim (Bool-cases (leb 9 t.text_col_px)) [
    | inl room ↦
        let (m, e) = kputchar-advance b' ' (record t { text_col_px = t.text_col_px - 9 }) stays in
        (
          m,
          rw (room, e)
              (ap (λ (n : ℕ). done (moved t m (record { line = t.text_line; col = n })))
                (back room)),
        )
    | inr first ↦ (t.mem, rw first)
  ]
    where
      stays : Fits (record t { text_col_px = t.text_col_px - 9 })
      stays = record {
        width = f.width;
        lines = f.lines;
        font = f.font;
        last = f.last;
        on_screen = f.on_screen;
      }

      back :
          leb 9 t.text_col_px ≡ true
          → u16 (u16 (t.text_col_px - 9 + 9) + 2 ^ 16 - 9) ≡ t.text_col_px - 9
      back room = omega (arith, leb→le 9 t.text_col_px room)
