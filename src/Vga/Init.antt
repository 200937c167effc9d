-- ===== src/Vga/Init.antt =====
-- `initialize_video` of vga.c, and `set_mem_page_flags` of mem.c, which prints what it does.
use flosp_os.Common.{
  ℕ, zero, suc, ◌+◌, ◌-◌, ◌*◌, ◌/◌, ◌^◌, ◌≤◌, ◌≡◌, ◌⊎◌, inl, inr, true, arith, codes, u16, u32,
  bit_or,
}
use flosp_os.Common.Run.{Run, done, ◌>>=◌}
use flosp_os.Mem.{store_le}
use flosp_os.Mem.Page.{load64, get_mem_page}
use flosp_os.Text
use flosp_os.Text.{Text}
use flosp_os.Vga.{VideoModeInfo, Terminal, blank_output, flush_framebuffer, kprint}
use flosp_os.Vga.Cursor.{Fits}

-- PFlag_PAT
abbrev pub pflag_pat : ℕ
pflag_pat = 2 ^ 12

-- The assignments of `initialize_video`.
unfoldable pub set_video_mode : VideoModeInfo → Terminal → Terminal
set_video_mode v t = record t {
  video_mode_info = v;
  framebuffer_info = record {
    width = v.pixels_per_scanline;
    height = v.vertical_resolution;
    pitch = u32 (v.pixels_per_scanline * 4);
    depth = 32;
  };
  max_text_line = u16 (v.vertical_resolution / t.font_size + 2 ^ 32 - 1);
}

-- `cr3` is the register's value, `garbage` what the stack holds before a call.
module _ (fonts : ℕ → ℕ → ℕ) (garbage : ℕ → ℕ) (cr3 : ℕ) where
  unfoldable pub print_hex : ℕ → Terminal → Run Terminal
  print_hex h t = do text ← Text.kprint_hex garbage h true; kprint fonts text t

  unfoldable pub set_mem_page_flags : ℕ → ℕ → Terminal → Run Terminal
  set_mem_page_flags addr flags t0 = do
    let page = get_mem_page t0.mem cr3 addr
    t ← kprint fonts (codes "\nAddress:    ") (blank_output t0)
    t ← print_hex addr t
    t ← kprint fonts (codes "\nPage_Addr:  ") t
    t ← print_hex page t
    t ← kprint fonts (codes "\nPage:       ") t
    t ← print_hex (load64 t.mem page) t
    t ← kprint fonts (codes "\nFlags:      ") t
    t ← print_hex flags t
    let shown = flush_framebuffer t
    let marked = record shown {
      mem = store_le 8 shown.mem page (bit_or (load64 shown.mem page) flags);
    }
    t ← kprint fonts (codes "\nPage(Post): ") marked
    t ← print_hex (load64 t.mem page) t
    done (flush_framebuffer (blank_output (flush_framebuffer t)))

  -- The loop over the bytes of the frame.
  unfoldable pub flag_bytes : ℕ → ℕ → Terminal → Run Terminal
  flag_bytes zero addr t = done t
  flag_bytes (suc n) addr t = do
    t' ← set_mem_page_flags addr pflag_pat t
    flag_bytes n (addr + 1) t'

  unfoldable pub initialize_video : VideoModeInfo → Terminal → Run Terminal
  unfolding set_video_mode
  initialize_video v t0 = do
    let t = set_video_mode v t0
    let bytes = u32 (u32 (t.framebuffer_info.width * t.framebuffer_info.height) * 4)
    t' ← flag_bytes bytes v.framebuffer_pointer t
    done (blank_output t')

-- A mode of at least one line of text and at most 65535 pixels either way gives a screen that the
-- driver's loops can span, with the cursor at the top left.
pub set_video_mode-Fits :
    (v : VideoModeInfo) (t : Terminal)
    → v.pixels_per_scanline ≤ 65535
    → v.vertical_resolution ≤ 65535
    → (t.font_size ≡ 8) ⊎ (t.font_size ≡ 14) ⊎ (t.font_size ≡ 16)
    → t.font_size ≤ v.vertical_resolution
    → t.text_line ≡ 0
    → Fits (set_video_mode v t)
unfolding set_video_mode
set_video_mode-Fits v t w h font room home = record {
  width = w;
  lines = kept t.font_size font room;
  font = font;
  last = omega arith;
  on_screen = omega arith;
}
  where
    kept :
        (s : ℕ)
        → (s ≡ 8) ⊎ (s ≡ 14) ⊎ (s ≡ 16)
        → s ≤ v.vertical_resolution
        → s * u16 (v.vertical_resolution / s + 2 ^ 32 - 1) ≤ 65535
    kept s (inl e) le = rw e (omega arith)
    kept s (inr (inl e)) le = rw e (omega arith)
    kept s (inr (inr e)) le = rw e (omega arith)
