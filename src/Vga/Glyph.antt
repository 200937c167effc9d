-- ===== src/Vga/Glyph.antt =====
-- What `kputchar` draws, pixel by pixel.
use native.Mathlib.Nat.{mod-eq_of_lt, mul-le-mul, mul-le-mul_right}
use native.Mathlib.Decide.{dec_lt}
use flosp_os.Common.{
  ℕ, zero, suc, ◌+◌, ◌-◌, ◌*◌, ◌^◌, ◌≤◌, ◌<◌, ◌≡◌, ◌⊎◌, inl, inr, true, false, ◌&&◌, ◌||◌, arith,
  ltb, leb, ◌==◌, if◌then◌else◌, u32, Bool-cases,
}
use flosp_os.Mem.{Memory}
use flosp_os.Vga.{Terminal, draw_line, draw_lines, draw_char}
use flosp_os.Vga.Line.{pixel, colour, in_cell, hit, draw_line-pixel}

module _ (back on off : ℕ) (on_fits : on < 2 ^ 32) (off_fits : off < 2 ^ 32) where
  row_hit :
      (width col top r x : ℕ)
      → col + 8 ≤ width
      → x < width
      → hit 8 (top * width + (col + 7)) (r * width + x)
        ≡ ((r == top) && (leb col x && ltb x (col + 8)))
  row_hit width col top r x fits lt = elim (dec_lt r top) [
    | yes above ↦
        let gap : suc r * width ≤ top * width = mul-le-mul_right width above in ground (arith, gap)
    | no h ↦ elim (dec_lt top r) [
      | yes below ↦
          let gap : suc top * width ≤ r * width = mul-le-mul_right width below in
          ground (arith, gap)
      | no k ↦ let e : r ≡ top = omega arith in rw e (ground arith)
    ]
  ]

  lines_step :
      (lines : ℕ) (font : ℕ → ℕ) (at width col top r x old : ℕ)
      → col + 8 ≤ width
      → x < width
      → (if in_cell lines (top + 1) col r x
          then colour (font (at + 1 + (r - (top + 1)))) (col + 7 - x) on off
          else if (r == top) && (leb col x && ltb x (col + 8))
          then colour (font at) (top * width + (col + 7) - (r * width + x)) on off
          else old)
        ≡ (if in_cell (suc lines) top col r x
            then colour (font (at + (r - top))) (col + 7 - x) on off
            else old)
  lines_step lines font at width col top r x old fits lt = elim (dec_lt top r) [
    | yes below ↦
        let other : (r == top) ≡ false = ground arith in
        let row : at + 1 + (r - (top + 1)) ≡ at + (r - top) = omega arith in
        let same : in_cell lines (top + 1) col r x ≡ in_cell (suc lines) top col r x =
          ground arith in
        rw (other, row, same)
    | no h ↦
        let past : in_cell lines (top + 1) col r x ≡ false = ground arith in
        elim (Bool-cases (r == top)) [
          | inl here ↦
              let e : r ≡ top = ground arith in
              let row : at + (r - top) ≡ at = omega arith in
              let bit : top * width + (col + 7) - (r * width + x) ≡ col + 7 - x =
                rw e (omega arith) in
              let same : in_cell (suc lines) top col r x ≡ (leb col x && ltb x (col + 8)) =
                ground arith in
              rw (past, here, row, bit, same)
          | inr other ↦
              let out : in_cell (suc lines) top col r x ≡ false = ground arith in
              rw (past, other, out)
        ]
  ]

  -- The lines of a glyph, in a frame that is `width` pixels wide.
  draw_lines-pixel :
      (lines : ℕ) (font : ℕ → ℕ) (at width col top r x : ℕ) (m : Memory)
      → col + 8 ≤ width
      → x < width
      → pixel
          (draw_lines lines font at (back + 4 * (top * width + (col + 7))) width on off m)
          back
          (r * width + x)
        ≡ (if in_cell lines top col r x
            then colour (font (at + (r - top))) (col + 7 - x) on off
            else pixel m back (r * width + x))
  unfolding draw_lines
  draw_lines-pixel zero font at width col top r x m fits lt = ground arith
  draw_lines-pixel (suc lines) font at width col top r x m fits lt =
      let p = top * width + (col + 7) in
      let next : back + 4 * p + 4 * width ≡ back + 4 * ((top + 1) * width + (col + 7)) =
        omega arith in
      rw
        (
          next,
          draw_lines-pixel lines font (at + 1) width col (top + 1) r x
              (draw_line 8 (back + 4 * p) (font at) on off m) fits lt,
          draw_line-pixel back on off on_fits off_fits 8 p (font at) m (r * width + x)
              (omega arith),
          row_hit width col top r x fits lt,
        )
        (lines_step lines font at width col top r x (pixel m back (r * width + x)) fits lt)

-- A visible character cell, in a frame that the driver's counters can span.
pub record Visible (t : Terminal) : Type 0 where
  pub font : (t.font_size ≡ 8) ⊎ (t.font_size ≡ 14) ⊎ (t.font_size ≡ 16)
  pub col : t.text_col_px + 8 ≤ t.framebuffer_info.width
  pub width : t.framebuffer_info.width ≤ 65535
  pub line : t.text_line * t.font_size ≤ 65535
  pub text_color : t.text_color < 2 ^ 32
  pub background_color : t.background_color < 2 ^ 32

-- A character in a visible cell: each pixel of the cell shows its bit of the font table in the text
-- or background colour, and every other pixel of the frame stays as it was.
pub draw_char-pixel :
    (fonts : ℕ → ℕ → ℕ) (c : ℕ) (t : Terminal) (r x : ℕ)
    → Visible t
    → x < t.framebuffer_info.width
    → let back = t.video_mode_info.backbuffer_pointer in
      let q = r * t.framebuffer_info.width + x in
      let top = t.text_line * t.font_size in
      pixel (draw_char fonts c t).mem back q ≡ (
        if in_cell t.font_size top t.text_col_px r x
        then colour
            (fonts t.font_size (c * t.font_size + (r - top)))
            (t.text_col_px + 7 - x)
            t.text_color
            t.background_color
        else pixel t.mem back q)
unfolding draw_char
draw_char-pixel fonts c t r x v lt =
    let back = t.video_mode_info.backbuffer_pointer in
    let width = t.framebuffer_info.width in
    let top = t.text_line * t.font_size in
    let cut : u32 (top * width) ≡ top * width =
      mod-eq_of_lt (omega (arith, mul-le-mul v.line v.width)) in
    let start : back + 4 * (top * width) + 4 * (t.text_col_px + 8 - 1)
        ≡ back + 4 * (top * width + (t.text_col_px + 7)) =
      omega arith in
    rw (has_font, cut, start)
      (draw_lines-pixel back t.text_color t.background_color v.text_color v.background_color
        t.font_size (fonts t.font_size) (c * t.font_size) width t.text_col_px top r x t.mem v.col
        lt)
  where
    has_font : ((t.font_size == 8) || ((t.font_size == 14) || (t.font_size == 16))) ≡ true
    has_font = ground (arith, v.font)
