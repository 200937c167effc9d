-- ===== src/Text.antt =====
-- src/os/src/drivers/vga.c, `kprint_num`, `kprint_hex` and `kprint_bin`: the text that each hands to
-- `kprint`, with its stack buffer. src/bootloader/src/video.c has the first two again.
pub mod Loops
pub mod Reverse
pub mod Numeral
pub mod Numbers
mod Tests
use flosp_os.Common.{
  ℕ, zero, suc, ◌+◌, ◌-◌, ◌*◌, ◌/◌, ◌%◌, List, [], ◌∷◌, ◌++◌, Bool, ltb, ◌==◌, if◌then◌else◌, u8,
  codes,
}
use flosp_os.Common.Run.{Run, done, fault, stuck, ◌>>=◌}

abbrev pub Text : Type 0
Text = List ℕ

-- The sizes of the buffers: UI64_T_MAX_BIN_DIGITS and its kin.
abbrev pub max_bin_digits : ℕ
max_bin_digits = 64

abbrev pub max_dec_digits : ℕ
max_dec_digits = 20

abbrev pub max_hex_digits : ℕ
max_hex_digits = 16

-- `string_buffer` and `stack_top`. What an uninitialised cell holds is a parameter of the callers.
pub record Buffer : Type 0 where
  pub cells : ℕ → ℕ
  pub top : ℕ

abbrev pub update : (ℕ → ℕ) → ℕ → ℕ → ℕ → ℕ
update f i v = λ j. if j == i then v else f j

-- `ui8_t stack_top = -1`
abbrev pub fresh : (ℕ → ℕ) → Buffer
fresh garbage = record { cells = garbage; top = 255 }

-- What `kprint` reads from `cells[i]` on, up to the null byte, with `left` cells left.
unfoldable pub c_string : ℕ → ℕ → (ℕ → ℕ) → Run Text
c_string zero i cells = fault
c_string (suc left) i cells =
    let next = (do rest ← c_string left (i + 1) cells; done (cells i ∷ rest)) in
    if cells i == 0 then done [] else next

module _ (size : ℕ) where
  -- `string_buffer[i] = c`
  unfoldable pub write : (ℕ → ℕ) → ℕ → ℕ → Run (ℕ → ℕ)
  write cells i c = if ltb i size then done (update cells i c) else fault

  -- `stack_top++; string_buffer[stack_top] = c`
  unfoldable pub push : Buffer → ℕ → Run Buffer
  unfolding write
  push b c = do
    cells ← write b.cells (u8 (b.top + 1)) c
    done (record { cells = cells; top = u8 (b.top + 1) })

  -- The digits of `n`, the last one first.
  unfoldable pub digit_loop : (ℕ → ℕ) → ℕ → ℕ → ℕ → Buffer → Run Buffer
  digit_loop digit base zero n b = stuck
  digit_loop digit base (suc fuel) n b =
      let next = (do b' ← push b (digit (n % base)); digit_loop digit base fuel (n / base) b') in
      if n == 0 then done b else next

  -- The loop that reverses: `index` counts down to the middle, and `top` is `stack_top`.
  unfoldable pub reverse_loop : ℕ → ℕ → (ℕ → ℕ) → Run (ℕ → ℕ)
  reverse_loop zero top cells = done cells
  reverse_loop (suc k) top cells =
      let next = (do
        first ← write cells (top - suc k) (cells (suc k))
        both ← write first (suc k) (cells (top - suc k))
        reverse_loop k top both) in
      if ltb (top / 2) (suc k) then next else done cells

  -- The end of each function: reverse, add the null byte, print.
  unfoldable pub finish : Buffer → Run Text
  unfolding reverse_loop write c_string
  finish b = do
    reversed ← reverse_loop b.top b.top b.cells
    closed ← write reversed (b.top + 1) 0
    c_string size 0 closed

abbrev pub dec_digit : ℕ → ℕ
dec_digit d = d + 48

abbrev pub hex_digit : ℕ → ℕ
hex_digit d = if ltb d 10 then d + 48 else d + 55

-- The loops run at most once for each cell: fuel `size + 1` is enough (Text/Loops).
unfoldable pub number_text : ℕ → (ℕ → ℕ) → ℕ → (ℕ → ℕ) → ℕ → Run Text
unfolding push digit_loop finish
number_text size digit base garbage n = do
  start ← (if n == 0 then push size (fresh garbage) b'0' else done (fresh garbage))
  b ← digit_loop size digit base (size + 1) n start
  finish size b

unfoldable pub kprint_num : (ℕ → ℕ) → ℕ → Run Text
unfolding number_text
kprint_num = number_text max_dec_digits dec_digit 10

unfoldable pub kprint_hex : (ℕ → ℕ) → ℕ → Bool → Run Text
unfolding number_text
kprint_hex garbage h zero_x = do
  text ← number_text max_hex_digits hex_digit 16 garbage h
  done (if zero_x then codes "0x" ++ text else text)

-- A for loop with a fixed count of rounds.
unfoldable pub bin_loop : ℕ → ℕ → Buffer → Run Buffer
bin_loop zero b s = done s
bin_loop (suc rounds) b s = do s' ← push max_bin_digits s (b % 2 + 48); bin_loop rounds (b / 2) s'

unfoldable pub kprint_bin : (ℕ → ℕ) → ℕ → ℕ → Run Text
unfolding push bin_loop finish
kprint_bin garbage b size_b = do
  start ← (if b == 0 then push max_bin_digits (fresh garbage) b'0' else done (fresh garbage))
  s ← bin_loop (size_b * 8) b start
  finish max_bin_digits s
