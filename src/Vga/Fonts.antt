-- ===== src/Vga/Fonts.antt =====
-- src/os/src/inc/boot_font.h: the font tables by their size, and that the driver reads within them.
pub mod Small
pub mod Medium
pub mod Large
use native.Mathlib.Nat.{mul-le-mul_right}
use flosp_os.Common.{
  ℕ, zero, suc, ◌+◌, ◌*◌, ◌≤◌, ◌<◌, ◌≡◌, ◌⊎◌, inl, inr, true, u16, ap, ◌∙◌, refl, List, [], ◌∷◌,
  arith, length, get_or, ◌==◌, ◌||◌, if◌then◌else◌, Bool-cases,
}
use flosp_os.Common.Run.{Run, done, ◌>>=◌}
use flosp_os.Mem.{Memory}
use flosp_os.Text.{Text}
use flosp_os.Vga.{Terminal, draw_line, draw_lines, draw_char, new_line, kputchar, kprint}
use flosp_os.Vga.Fonts.Small.{vgafont8}
use flosp_os.Vga.Fonts.Medium.{vgafont14}
use flosp_os.Vga.Fonts.Large.{vgafont16}

-- The table that `kputchar` takes for a size.
unfoldable pub font_table : ℕ → List ℕ
font_table size =
    if size == 8
    then vgafont8
    else if size == 14
    then vgafont14
    else if size == 16
    then vgafont16
    else []

-- The tables, with zeros behind them.
unfoldable pub boot_fonts : ℕ → ℕ → ℕ
boot_fonts size i = get_or (font_table size) i 0

abbrev pub HasFont : ℕ → Type 0
HasFont size = (size ≡ 8) ⊎ (size ≡ 14) ⊎ (size ≡ 16)

pub length-font_table : (size : ℕ) → HasFont size → length (font_table size) ≡ 256 * size
unfolding font_table
length-font_table size (inl e) = rw e refl
length-font_table size (inr (inl e)) = rw e refl
length-font_table size (inr (inr e)) = rw e refl

draw_lines-same :
    (f g : ℕ → ℕ) (bound lines at pos width on off : ℕ) (m : Memory)
    → ((i : ℕ) → i < bound → f i ≡ g i)
    → at + lines ≤ bound
    → draw_lines lines f at pos width on off m ≡ draw_lines lines g at pos width on off m
unfolding draw_lines
draw_lines-same f g bound zero at pos width on off m same fits = refl
draw_lines-same f g bound (suc lines) at pos width on off m same fits =
    rw (same at (omega arith))
      (draw_lines-same f g bound lines (at + 1) (pos + 4 * width) width on off _ same (omega arith))

-- Memory in which the font tables lie, whatever lies behind them.
pub record HoldsFonts (fonts : ℕ → ℕ → ℕ) : Type 0 where
  pub same :
      (size i : ℕ) → HasFont size → i < length (font_table size) → fonts size i ≡ boot_fonts size i

tested-HasFont : (size : ℕ) → ((size == 8) || ((size == 14) || (size == 16))) ≡ true → HasFont size
tested-HasFont size e = elim (Bool-cases (size == 8)) [
  | inl small ↦ inl (ground arith)
  | inr large ↦ elim (Bool-cases (size == 14)) [
    | inl medium ↦ inr (inl (ground arith))
    | inr larger ↦ inr (inr (ground arith))
  ]
]

module _ (fonts : ℕ → ℕ → ℕ) (holds : HoldsFonts fonts) where
  draw_char-same : (c : ℕ) (t : Terminal) → c < 256 → draw_char fonts c t ≡ draw_char boot_fonts c t
  unfolding draw_char
  draw_char-same c t lt =
      elim (Bool-cases ((t.font_size == 8) || ((t.font_size == 14) || (t.font_size == 16)))) [
        | inl has ↦ rw has (
            ap (λ m. record t { mem = m; text_col_px = u16 (t.text_col_px + 9) })
              (lines has _ _ _ _))
        | inr none_of_them ↦ rw none_of_them refl
      ]
    where
      size : ℕ
      size = t.font_size

      lines :
          ((size == 8) || ((size == 14) || (size == 16))) ≡ true
          → (pos width on off : ℕ)
          → draw_lines size (fonts size) (c * size) pos width on off t.mem
            ≡ draw_lines size (boot_fonts size) (c * size) pos width on off t.mem
      lines has pos width on off =
          let font = tested-HasFont size has in
          draw_lines-same (fonts size) (boot_fonts size) (256 * size) size (c * size) pos width on
            off t.mem (λ i below. holds.same size i font (rw (length-font_table size font) below))
            (omega (arith, mul-le-mul_right size lt))

  kputchar-same : (c : ℕ) (t : Terminal) → c < 256 → kputchar fonts c t ≡ kputchar boot_fonts c t
  unfolding kputchar new_line
  kputchar-same c t lt =
      ap (λ d. if c == 0 then done t else if c == b'\n' then new_line boot_fonts t else done d)
        (draw_char-same c t lt)

  -- A text of bytes is printed alike whatever lies behind the font tables: no cell outside of them is read.
  pub kprint-same :
      (s : Text) (t : Terminal)
      → ((i : ℕ) → get_or s i 0 < 256)
      → kprint fonts s t ≡ kprint boot_fonts s t
  unfolding kprint
  kprint-same [] t bytes = refl
  kprint-same (c ∷ s) t bytes = elim (Bool-cases (c == 0)) [
    | inl null ↦ rw null refl
    | inr char ↦ rw char (
        ap (λ r. r >>= kprint fonts s) (kputchar-same c t (bytes 0))
        ∙ ap (λ (k : Terminal → Run Terminal). kputchar boot_fonts c t >>= k)
            (λ i u. kprint-same s u (λ j. bytes (suc j)) i))
  ]
