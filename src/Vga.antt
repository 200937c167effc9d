-- ===== src/Vga.antt =====
-- src/os/src/drivers/vga.c: the text terminal that draws into a back buffer in memory.
pub mod Blocks
pub mod Line
pub mod Glyph
pub mod Cursor
pub mod Init
pub mod Fonts
mod Tests
use flosp_os.Common.{
  ℕ, zero, suc, ◌+◌, ◌-◌, ◌*◌, ◌/◌, ◌%◌, ◌^◌, List, [], ◌∷◌, ltb, leb, ◌==◌, if◌then◌else◌, ◌||◌,
  u16, u32,
}
use flosp_os.Common.Run.{Run, done, stuck, ◌>>=◌}
use flosp_os.Mem.{Memory, store_le, memcpy}
use flosp_os.Text
use flosp_os.Text.{Text}

-- BOOT_VIDEO_MODE_INFO
pub record VideoModeInfo : Type 0 where
  pub framebuffer_pointer : ℕ
  pub backbuffer_pointer : ℕ
  pub horizontal_resolution : ℕ
  pub vertical_resolution : ℕ
  pub pixels_per_scanline : ℕ

-- FRAMEBUFFER_INFO_T
pub record FramebufferInfo : Type 0 where
  pub width : ℕ
  pub height : ℕ
  pub pitch : ℕ
  pub depth : ℕ

-- The global variables of the file, and the memory that the pointers point into.
pub record Terminal : Type 0 where
  pub mem : Memory
  pub framebuffer_info : FramebufferInfo
  pub video_mode_info : VideoModeInfo
  pub text_col_px : ℕ
  pub text_line : ℕ
  pub max_text_line : ℕ
  pub text_color : ℕ
  pub background_color : ℕ
  pub font_size : ℕ

-- `rgb(0,0,0)`
abbrev pub black : ℕ
black = 0

-- A loop over a `ui16_t` that counts up to `n` ends only if the counter can reach `n`.
unfoldable pub u16_rounds : ℕ → Run ℕ
u16_rounds n = if ltb 65535 n then stuck else done n

-- `pos[i] = v`, for a `ui32_t* pos`.
unfoldable pub store_pixel : ℕ → ℕ → ℕ → Memory → Memory
store_pixel pos i v m = store_le 4 m (pos + 4 * i) v

-- `n` pixels from `pos[i]` on become black.
unfoldable pub blank_pixels : ℕ → ℕ → ℕ → Memory → Memory
blank_pixels zero pos i m = m
blank_pixels (suc n) pos i m = blank_pixels n pos (i + 1) (store_pixel pos i black m)

-- `rows` rows of `width` pixels, from row `row` on.
unfoldable pub blank_rows : ℕ → ℕ → ℕ → ℕ → Memory → Memory
blank_rows zero row width pos m = m
blank_rows (suc rows) row width pos m =
    blank_rows rows (row + 1) width pos (blank_pixels width pos (row * width) m)

unfoldable pub blank_output : Terminal → Terminal
unfolding blank_rows blank_pixels store_pixel
blank_output t = record t {
  mem =
      blank_rows t.framebuffer_info.height 0 t.framebuffer_info.width
        t.video_mode_info.backbuffer_pointer t.mem;
  text_line = 0;
  text_col_px = 0;
}

-- The count of bytes that `flush_framebuffer` copies.
abbrev pub flush_size : VideoModeInfo → ℕ
flush_size v = u32 (u32 (v.pixels_per_scanline * v.horizontal_resolution) * 4)

unfoldable pub flush_framebuffer : Terminal → Terminal
flush_framebuffer t =
    let v = t.video_mode_info in
    record t { mem = (memcpy v.backbuffer_pointer v.framebuffer_pointer (flush_size v) t.mem).0 }

-- The rows of `kscroll_down`: each is copied from `pos` to `shift` pixels before it.
unfoldable pub scroll_rows : ℕ → ℕ → ℕ → ℕ → Memory → Memory
scroll_rows zero pos shift width m = m
scroll_rows (suc rows) pos shift width m =
    scroll_rows rows (pos + 4 * width) shift width
      (memcpy pos (pos - 4 * shift) (u32 (width * 4)) m).0

unfoldable pub kscroll_down : Terminal → Run Terminal
unfolding u16_rounds scroll_rows flush_framebuffer blank_rows blank_pixels store_pixel
kscroll_down t = do
  let back = t.video_mode_info.backbuffer_pointer
  let width = t.framebuffer_info.width
  let shift = u32 (t.font_size * width)
  rows ← u16_rounds (t.font_size * t.max_text_line)
  cols ← u16_rounds width
  let scrolled = scroll_rows rows (back + 4 * shift) shift width t.mem
  let last = back + 4 * u32 (t.max_text_line * t.font_size * width)
  done (flush_framebuffer (record t { mem = blank_rows t.font_size 0 cols last scrolled }))

-- One line of a glyph, from its last pixel `pos` down; bit 0 of `ch` is the last pixel.
unfoldable pub draw_line : ℕ → ℕ → ℕ → ℕ → ℕ → Memory → Memory
draw_line zero pos ch on off m = m
draw_line (suc j) pos ch on off m =
    draw_line j (pos - 4) (ch / 2) on off (store_le 4 m pos (if ch % 2 == 1 then on else off))

-- `lines` lines of a glyph; `at` indexes the font table, `last_pos` is the last pixel of the line.
unfoldable pub draw_lines : ℕ → (ℕ → ℕ) → ℕ → ℕ → ℕ → ℕ → ℕ → Memory → Memory
draw_lines zero font at last_pos width on off m = m
draw_lines (suc lines) font at last_pos width on off m =
    draw_lines lines font (at + 1) (last_pos + 4 * width) width on off
      (draw_line 8 last_pos (font at) on off m)

-- The font tables of boot_font.h by their size; only the sizes 8, 14 and 16 have one.
module _ (fonts : ℕ → ℕ → ℕ) where
  unfoldable pub new_line : Terminal → Run Terminal
  new_line t =
      let t' = record t { text_col_px = 0 } in
      if t.text_line == t.max_text_line
      then kscroll_down t'
      else done (record t' { text_line = u16 (t.text_line + 1) })

  unfoldable pub draw_char : ℕ → Terminal → Terminal
  draw_char c t =
      let pos =
        t.video_mode_info.backbuffer_pointer
        + 4 * u32 (t.text_line * t.font_size * t.framebuffer_info.width)
        + 4 * (t.text_col_px + 8 - 1) in
      if (t.font_size == 8) || ((t.font_size == 14) || (t.font_size == 16))
      then record t {
        mem =
            draw_lines t.font_size (fonts t.font_size) (c * t.font_size) pos
              t.framebuffer_info.width t.text_color t.background_color t.mem;
        text_col_px = u16 (t.text_col_px + 9);
      }
      else t

  unfoldable pub kputchar : ℕ → Terminal → Run Terminal
  unfolding new_line draw_char
  kputchar c t = if c == 0 then done t else if c == b'\n' then new_line t else done (draw_char c t)

  unfoldable pub kprint : Text → Terminal → Run Terminal
  kprint [] t = done t
  kprint (c ∷ s) t =
      let printed = (do t' ← kputchar c t; kprint s t') in if c == 0 then done t else printed

  unfoldable pub backspace : Terminal → Run Terminal
  backspace t =
      if leb 9 t.text_col_px
      then (do
        t' ← kputchar b' ' (record t { text_col_px = t.text_col_px - 9 })
        done (record t' { text_col_px = u16 (t'.text_col_px + 2 ^ 16 - 9) }))
      else done t
