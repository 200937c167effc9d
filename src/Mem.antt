-- ===== src/Mem.antt =====
-- src/os/src/drivers/mem.c: `memcpy` and `memset` over a byte-addressed memory.
pub mod Words
pub mod Copy
pub mod Page
mod Tests
use flosp_os.Common.{ℕ, zero, suc, ◌+◌, ◌*◌, ◌/◌, ◌%◌, ◌&&◌, ◌==◌, if◌then◌else◌, u8}

-- An address to the byte that it holds.
abbrev pub Memory : Type 0
Memory = ℕ → ℕ

unfoldable pub store8 : Memory → ℕ → ℕ → Memory
store8 m a v = λ b. if b == a then v else m b

-- `n` bytes at `a`, the lowest first, as a number.
unfoldable pub load_le : ℕ → Memory → ℕ → ℕ
load_le zero m a = 0
load_le (suc n) m a = m a + 256 * load_le n m (a + 1)

unfoldable pub store_le : ℕ → Memory → ℕ → ℕ → Memory
store_le zero m a v = m
store_le (suc n) m a v = store_le n (store8 m a (u8 v)) (a + 1) (v / 256)

-- sizeof(word)
abbrev pub word_size : ℕ
word_size = 4

-- The loop of `memcpy` over words, at index `i` with `n` rounds left.
unfoldable pub copy_words : ℕ → ℕ → ℕ → ℕ → Memory → Memory
copy_words zero i source dest m = m
copy_words (suc n) i source dest m =
    copy_words n (i + 1) source dest
      (store_le word_size m (dest + word_size * i) (load_le word_size m (source + word_size * i)))

-- The loop of `memcpy` over bytes.
unfoldable pub copy_bytes : ℕ → ℕ → ℕ → ℕ → Memory → Memory
copy_bytes zero i source dest m = m
copy_bytes (suc n) i source dest m =
    copy_bytes n (i + 1) source dest (store8 m (dest + i) (m (source + i)))

-- The memory after the call, and the pointer that it returns.
unfoldable pub memcpy : ℕ → ℕ → ℕ → Memory → Memory × ℕ
memcpy source dest nbytes m = (
  if (dest % word_size == 0) && ((source % word_size == 0) && (nbytes % word_size == 0))
      then copy_words (nbytes / word_size) 0 source dest m
      else copy_bytes nbytes 0 source dest m,
  dest,
)

-- The loop of `memset`; `constant` is an int, and is stored as a byte.
unfoldable pub fill_bytes : ℕ → ℕ → ℕ → ℕ → Memory → Memory
fill_bytes zero i dest constant m = m
fill_bytes (suc n) i dest constant m =
    fill_bytes n (i + 1) dest constant (store8 m (dest + i) (u8 constant))

unfoldable pub memset : ℕ → ℕ → ℕ → Memory → Memory × ℕ
memset dest constant nbytes m = (fill_bytes nbytes 0 dest constant m, dest)
