-- ===== src/Mem/Tests.antt =====
-- Runs of mem.c, and its theorems at concrete memory.
use flosp_os.Common.{◌*◌, ◌/◌, ◌%◌, ◌^◌, ◌≡◌, refl, inl, arith}
use flosp_os.Mem.{Memory, load_le, store_le, store8, copy_words, memcpy, memset}
use flosp_os.Mem.Words.{IsBytes}
use flosp_os.Mem.Copy.{block_copy, block_fill, memcpy-block_copy, memset-block_fill}
use flosp_os.Mem.Page.{get_mem_page}
use flosp_os.Mem.Page.Walk.{walk, get_mem_page-walk}

abbrev sample : Memory
sample a = a % 256

sample-IsBytes : IsBytes sample
sample-IsBytes a = omega arith

word_copy : (memcpy 100 96 8 sample).0 97 ≡ 101
unfolding memcpy load_le copy_words store_le store8
word_copy = refl

memcpy-block_copy_example : memcpy 100 96 8 sample ≡ (block_copy 100 96 8 sample, 96)
memcpy-block_copy_example = memcpy-block_copy 100 96 8 sample sample-IsBytes (inl (omega arith))

memset-block_fill_example : memset 40 0x1ff 3 sample ≡ (block_fill 40 (0x1ff % 2 ^ 8) 3 sample, 40)
memset-block_fill_example = memset-block_fill 40 0x1ff 3 sample

get_mem_page-walk_example :
    get_mem_page sample 0x1000 0x7fff_1234
    ≡ walk sample 3 (0x1000 / 2 ^ 12 % 2 ^ 52 * 2 ^ 12) 0x7fff_1234
get_mem_page-walk_example = get_mem_page-walk sample 0x1000 0x7fff_1234
