-- ===== src/Mem/Copy.antt =====
-- `memcpy` and `memset` against block operations on the whole range.
use mathlib.Core.Path.{fun_ext}
use flosp_os.Common.{ℕ, zero, suc, ◌+◌, ◌-◌, ◌*◌, ◌/◌, ◌≤◌, ◌≡◌, ◌⊎◌, arith, if◌then◌else◌, u8}
use flosp_os.Mem.{
  Memory, store8, load_le, store_le, word_size, copy_words, copy_bytes, memcpy, fill_bytes, memset,
}
use flosp_os.Mem.Words.{IsBytes, inside, store_le-load_le, store_le-IsBytes}

-- The range at `d` holds what the range at `s` held, and nothing else has changed.
unfoldable pub block_copy : ℕ → ℕ → ℕ → Memory → Memory
block_copy s d n m a = if inside d n a then m (s + (a - d)) else m a

unfoldable pub block_fill : ℕ → ℕ → ℕ → Memory → Memory
block_fill d c n m a = if inside d n a then c else m a

-- No byte of the source is overwritten before it is read, when the bytes are copied upwards.
abbrev pub IsForwardSafe : ℕ → ℕ → ℕ → Type 0
IsForwardSafe s d n = (d ≤ s) ⊎ (s + n ≤ d)

copy_bytes-block :
    (n i s d : ℕ) (m : Memory) (a : ℕ)
    → IsForwardSafe s d (i + n)
    → copy_bytes n i s d m a ≡ (if inside (d + i) n a then m (s + (a - d)) else m a)
unfolding copy_bytes store8
copy_bytes-block zero i s d m a h = ground arith
copy_bytes-block (suc n) i s d m a h =
    ground (arith, copy_bytes-block n (i + 1) s d (store8 m (d + i) (m (s + i))) a)

copy_words-block :
    (n i s d : ℕ) (m : Memory) (a : ℕ)
    → IsBytes m
    → IsForwardSafe s d (4 * i + 4 * n)
    → copy_words n i s d m a ≡ (if inside (d + 4 * i) (4 * n) a then m (s + (a - d)) else m a)
unfolding copy_words
copy_words-block zero i s d m a b h = ground arith
copy_words-block (suc n) i s d m a b h =
    let moved =
      store_le word_size m (d + word_size * i) (load_le word_size m (s + word_size * i)) in
    ground (
      arith,
      copy_words-block n (i + 1) s d moved a (
          store_le-IsBytes word_size m (d + word_size * i) (load_le word_size m (s + word_size * i))
            b),
      store_le-load_le word_size m m (s + word_size * i) (d + word_size * i) a b,
      store_le-load_le word_size m m (s + word_size * i) (d + word_size * i) (s + (a - d)) b,
    )

-- On both paths, `memcpy` copies the whole range and nothing else, and returns the destination, if
-- the ranges are apart or the destination lies at or below the source.
pub memcpy-block_copy :
    (s d n : ℕ) (m : Memory)
    → IsBytes m
    → IsForwardSafe s d n
    → memcpy s d n m ≡ (block_copy s d n m, d)
unfolding memcpy block_copy
memcpy-block_copy s d n m b h =
    λ i. (fun_ext {f = (memcpy s d n m).0} {g = block_copy s d n m} (λ a. copied a) i, d)
  where
    copied : (a : ℕ) → (memcpy s d n m).0 a ≡ (if inside d n a then m (s + (a - d)) else m a)
    copied a = ground (arith, copy_words-block (n / 4) 0 s d m a b, copy_bytes-block n 0 s d m a)

fill_bytes-block :
    (n i d c : ℕ) (m : Memory) (a : ℕ)
    → fill_bytes n i d c m a ≡ (if inside (d + i) n a then u8 c else m a)
unfolding fill_bytes store8
fill_bytes-block zero i d c m a = ground arith
fill_bytes-block (suc n) i d c m a =
    ground (arith, fill_bytes-block n (i + 1) d c (store8 m (d + i) (u8 c)) a)

-- `memset` sets every byte of the range to the low byte of the constant, and nothing else.
pub memset-block_fill : (d c n : ℕ) (m : Memory) → memset d c n m ≡ (block_fill d (u8 c) n m, d)
unfolding memset block_fill
memset-block_fill d c n m =
    λ i. (fun_ext {f = (memset d c n m).0} {g = block_fill d (u8 c) n m} (λ a. filled a) i, d)
  where
    filled : (a : ℕ) → (memset d c n m).0 a ≡ (if inside d n a then u8 c else m a)
    filled a = ground (arith, fill_bytes-block n 0 d c m a)

pub block_copy-IsBytes : (s d n : ℕ) (m : Memory) → IsBytes m → IsBytes (block_copy s d n m)
unfolding block_copy
block_copy-IsBytes s d n m b a = ground (arith, b a, b (s + (a - d)))
