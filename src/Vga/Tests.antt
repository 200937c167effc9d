-- ===== src/Vga/Tests.antt =====
-- Runs of vga.c, and its theorems on a small screen.
use mathlib.Core.List.{foldl}
use flosp_os.Common.{
  zero, suc, ◌<◌, true, ltb, length, get_or, ℕ, ◌+◌, ◌-◌, ◌*◌, ◌%◌, ◌≡◌, refl, inr, arith, leb,
  if◌then◌else◌, codes,
}
use flosp_os.Common.Run.{done}
use flosp_os.Mem.{Memory}
use flosp_os.Mem.Words.{IsBytes}
use flosp_os.Vga.{
  VideoModeInfo, Terminal, flush_framebuffer, kscroll_down, draw_char, kputchar, kprint, backspace,
}
use flosp_os.Vga.Blocks.{scrolled, kscroll_down-scrolled}
use flosp_os.Vga.Cursor.{
  cursor, moved, advance, Fits, kputchar-advance, kprint-advance, backspace-cursor,
}
use flosp_os.Vga.Line.{pixel, colour, in_cell}
use flosp_os.Vga.Glyph.{Visible, draw_char-pixel}
use flosp_os.Vga.Fonts.{font_table, boot_fonts, HoldsFonts, kprint-same}
use flosp_os.Vga.Init.{set_video_mode, set_video_mode-Fits}

abbrev fonts : ℕ → ℕ → ℕ
fonts size i = i % 256

abbrev mode : VideoModeInfo
mode = record {
  framebuffer_pointer = 0x100000;
  backbuffer_pointer = 0x200000;
  horizontal_resolution = 64;
  vertical_resolution = 48;
  pixels_per_scanline = 64;
}

-- Three lines of text, with the cursor in the second one.
abbrev screen : Terminal
screen = record {
  mem = λ a. a % 256;
  framebuffer_info = record { width = 64; height = 48; pitch = 256; depth = 32 };
  video_mode_info = mode;
  text_col_px = 18;
  text_line = 1;
  max_text_line = 2;
  text_color = 0xffffff;
  background_color = 0;
  font_size = 16;
}

screen-IsBytes : IsBytes screen.mem
screen-IsBytes a = omega arith

screen-Fits : Fits screen
screen-Fits = record {
  width = omega arith;
  lines = omega arith;
  font = inr (inr refl);
  last = omega arith;
  on_screen = omega arith;
}

screen-Visible : Visible screen
screen-Visible = record {
  font = inr (inr refl);
  col = omega arith;
  width = omega arith;
  line = omega arith;
  text_color = omega arith;
  background_color = omega arith;
}

kscroll_down-scrolled_example :
    kscroll_down screen ≡ done (flush_framebuffer (record screen { mem = scrolled screen }))
kscroll_down-scrolled_example =
    kscroll_down-scrolled screen screen-IsBytes (omega arith) (omega arith) (omega arith)

kputchar-advance_example :
    (m : Memory) × (kputchar fonts b'A' screen
      ≡ done (moved screen m (advance 2 (cursor screen) b'A')))
kputchar-advance_example = kputchar-advance fonts b'A' screen screen-Fits

kprint-advance_example :
    (m : Memory) × (kprint fonts (codes "a\nb") screen
      ≡ done (moved screen m (foldl (advance 2) (cursor screen) (codes "a\nb"))))
kprint-advance_example = kprint-advance fonts (codes "a\nb") screen screen-Fits

backspace-cursor_example :
    (m : Memory) × (backspace fonts screen
      ≡ done (moved screen m (record { line = 1; col = if leb 9 18 then 18 - 9 else 18 })))
backspace-cursor_example = backspace-cursor fonts screen screen-Fits (omega arith)

draw_char-pixel_example : pixel (draw_char fonts b'A' screen).mem 0x200000 (20 * 64 + 20) ≡ (
    if in_cell 16 (1 * 16) 18 20 20
    then colour (fonts 16 (b'A' * 16 + (20 - 1 * 16))) (18 + 7 - 20) 0xffffff 0
    else pixel screen.mem 0x200000 (20 * 64 + 20))
draw_char-pixel_example = draw_char-pixel fonts b'A' screen 20 20 screen-Visible (omega arith)

set_video_mode-Fits_example : Fits (set_video_mode mode (record screen { text_line = 0 }))
set_video_mode-Fits_example =
    set_video_mode-Fits mode (record screen { text_line = 0 }) (omega arith) (omega arith)
      (inr (inr refl)) (omega arith) refl

-- The glyph of a capital A, of 8 lines, in its table.
glyph_of_a :
    (boot_fonts 8 (65 * 8) ≡ 0x30)
    × (boot_fonts 8 (65 * 8 + 4) ≡ 0xfc)
    × (boot_fonts 8 (65 * 8 + 7) ≡ 0)
unfolding boot_fonts font_table
glyph_of_a = (refl, refl, refl)

-- The tables, with other bytes behind them.
abbrev linked_fonts : ℕ → ℕ → ℕ
linked_fonts size i = if ltb i (length (font_table size)) then boot_fonts size i else 7

linked_fonts-HoldsFonts : HoldsFonts linked_fonts
linked_fonts-HoldsFonts = record {
  same = λ size i font lt.
      (let within : ltb i (length (font_table size)) ≡ true = ground arith in rw within refl);
}

kprint-same_example :
    kprint linked_fonts (codes "Hi") screen ≡ kprint boot_fonts (codes "Hi") screen
kprint-same_example = kprint-same linked_fonts linked_fonts-HoldsFonts (codes "Hi") screen bytes
  where
    bytes : (i : ℕ) → get_or (codes "Hi") i 0 < 256
    bytes zero = omega arith
    bytes (suc zero) = omega arith
    bytes (suc (suc i)) = omega arith
