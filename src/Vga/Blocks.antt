-- ===== src/Vga/Blocks.antt =====
-- `blank_output` and `kscroll_down` as block operations on the frame.
use mathlib.Core.Path.{fun_ext}
use native.Mathlib.Nat.{mul_comm, mul-le-mul, mod-eq_of_lt, le_of_lt}
use flosp_os.Common.{
  ℕ, zero, suc, ◌+◌, ◌-◌, ◌*◌, ◌^◌, ◌≤◌, ◌<◌, ◌≡◌, ◌∙◌, ap, inl, arith, if◌then◌else◌, u32, le→ltb,
}
use flosp_os.Common.Run.{done}
use flosp_os.Mem.{Memory, store8, store_le}
use flosp_os.Mem.Words.{IsBytes, inside}
use flosp_os.Mem.Copy.{block_copy, block_fill, memcpy-block_copy, block_copy-IsBytes}
use flosp_os.Vga.{
  Terminal, store_pixel, blank_pixels, blank_rows, blank_output, flush_framebuffer, scroll_rows,
  kscroll_down,
}

store_le-zero :
    (n : ℕ) (m : Memory) (d a : ℕ) → store_le n m d 0 a ≡ (if inside d n a then 0 else m a)
unfolding store_le store8
store_le-zero zero m d a = ground arith
store_le-zero (suc n) m d a = ground (arith, store_le-zero n (store8 m d 0) (d + 1) a)

blank_pixels-block :
    (n pos i : ℕ) (m : Memory) (a : ℕ)
    → blank_pixels n pos i m a ≡ (if inside (pos + 4 * i) (4 * n) a then 0 else m a)
unfolding blank_pixels store_pixel
blank_pixels-block zero pos i m a = ground arith
blank_pixels-block (suc n) pos i m a = ground (
  arith,
  blank_pixels-block n pos (i + 1) (store_le 4 m (pos + 4 * i) 0) a,
  store_le-zero 4 m (pos + 4 * i) a,
)

-- With `w = row * width` named, the rows are consecutive.
blank_rows-block :
    (rows row width pos : ℕ) (m : Memory) (a : ℕ)
    → blank_rows rows row width pos m a
      ≡ (if inside (pos + 4 * (row * width)) (4 * (rows * width)) a then 0 else m a)
unfolding blank_rows
blank_rows-block zero row width pos m a = ground arith
blank_rows-block (suc rows) row width pos m a = ground (
  arith,
  blank_rows-block rows (row + 1) width pos (blank_pixels width pos (row * width) m) a,
  blank_pixels-block width pos (row * width) m a,
)

blank_rows-fill :
    (rows width pos : ℕ) (m : Memory)
    → blank_rows rows 0 width pos m ≡ block_fill pos 0 (4 * (rows * width)) m
blank_rows-fill rows width pos m = fun_ext (λ a. blanked a)
  where
    blanked : (a : ℕ) → blank_rows rows 0 width pos m a ≡ block_fill pos 0 (4 * (rows * width)) m a
    blanked a = unfold block_fill in ground (arith, blank_rows-block rows 0 width pos m a)

-- `blank_output` clears the whole frame and nothing else, and puts the cursor at the top left.
pub blank_output-block :
    (t : Terminal)
    → blank_output t ≡ record t {
      mem =
          block_fill t.video_mode_info.backbuffer_pointer 0
            (4 * (t.framebuffer_info.height * t.framebuffer_info.width))
            t.mem;
      text_line = 0;
      text_col_px = 0;
    }
unfolding blank_output
blank_output-block t = rw (
    blank_rows-fill t.framebuffer_info.height t.framebuffer_info.width
      t.video_mode_info.backbuffer_pointer t.mem)

-- Two neighbouring blocks, moved down by the same distance, the lower one first.
block_copy_next :
    (pos shift n k : ℕ) (m : Memory)
    → 4 * shift ≤ pos
    → block_copy (pos + n) (pos + n - 4 * shift) k (block_copy pos (pos - 4 * shift) n m)
      ≡ block_copy pos (pos - 4 * shift) (n + k) m
unfolding block_copy
block_copy_next pos shift n k m le = fun_ext (λ a. at a)
  where
    at :
        (a : ℕ)
        → block_copy (pos + n) (pos + n - 4 * shift) k (block_copy pos (pos - 4 * shift) n m) a
          ≡ block_copy pos (pos - 4 * shift) (n + k) m a
    at a = ground arith

scroll_rows-block :
    (rows pos shift width : ℕ) (m : Memory)
    → IsBytes m
    → 4 * width < 2 ^ 32
    → 4 * shift ≤ pos
    → scroll_rows rows pos shift width m ≡ block_copy pos (pos - 4 * shift) (4 * (rows * width)) m
unfolding scroll_rows
scroll_rows-block zero pos shift width m b fits le = fun_ext (λ a. unmoved a)
  where
    unmoved : (a : ℕ) → m a ≡ block_copy pos (pos - 4 * shift) (4 * (0 * width)) m a
    unmoved a = unfold block_copy in ground arith
scroll_rows-block (suc rows) pos shift width m b fits le =
    let row : u32 (width * 4) ≡ 4 * width = omega arith in
    let total : 4 * width + 4 * (rows * width) ≡ 4 * (suc rows * width) = omega arith in
    rw (
      row,
      memcpy-block_copy pos (pos - 4 * shift) (4 * width) m b (inl (omega arith)),
      scroll_rows-block rows (pos + 4 * width) shift width
          (block_copy pos (pos - 4 * shift) (4 * width) m)
          (block_copy-IsBytes pos (pos - 4 * shift) (4 * width) m b) fits (omega arith),
      block_copy_next pos shift (4 * width) (4 * (rows * width)) m le,
      total,
    )

-- The part of the frame that `kscroll_down` keeps, in lines of pixels.
abbrev pub kept_lines : Terminal → ℕ
kept_lines t = t.font_size * t.max_text_line

-- The memory with the text one line up and the last line black, before the frame is flushed.
pub scrolled : Terminal → Memory
scrolled t =
    let back = t.video_mode_info.backbuffer_pointer in
    let width = t.framebuffer_info.width in
    block_fill (back + 4 * (kept_lines t * width)) 0 (4 * (t.font_size * width))
      (block_copy (back + 4 * (t.font_size * width)) back (4 * (kept_lines t * width)) t.mem)

-- `kscroll_down` ends, moves the lines below the first up by one line of text, clears the last line,
-- and flushes the frame, if the counters of its loops can reach their ends.
pub kscroll_down-scrolled :
    (t : Terminal)
    → IsBytes t.mem
    → t.framebuffer_info.width ≤ 65535
    → kept_lines t ≤ 65535
    → t.font_size < 256
    → kscroll_down t ≡ done (flush_framebuffer (record t { mem = scrolled t }))
unfolding kscroll_down scrolled
kscroll_down-scrolled t b w k f =
    let back = t.video_mode_info.backbuffer_pointer in
    let width = t.framebuffer_info.width in
    let shift : u32 (t.font_size * width) ≡ t.font_size * width =
      mod-eq_of_lt (omega (arith, mul-le-mul (le_of_lt f) w)) in
    let last : u32 (t.max_text_line * t.font_size * width) ≡ kept_lines t * width =
      ap (λ (n : ℕ). u32 (n * width)) (mul_comm t.max_text_line t.font_size)
      ∙ mod-eq_of_lt (omega (arith, mul-le-mul k w)) in
    let down : back + 4 * (t.font_size * width) - 4 * (t.font_size * width) ≡ back = omega arith in
    rw (
      le→ltb 65535 (kept_lines t) k,
      le→ltb 65535 width w,
      shift,
      last,
      scroll_rows-block (kept_lines t) (back + 4 * (t.font_size * width)) (t.font_size * width)
          width t.mem b (omega arith) (omega arith),
      blank_rows-fill t.font_size width (back + 4 * (kept_lines t * width)),
      down,
    )
