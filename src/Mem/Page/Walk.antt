-- ===== src/Mem/Page/Walk.antt =====
-- `get_mem_page` against a walk that treats the levels alike.
use flosp_os.Common.{
  ℕ, zero, suc, ◌+◌, ◌-◌, ◌*◌, ◌/◌, ◌%◌, ◌^◌, ◌≡◌, ◌∙◌, ap, Bool, ◌&&◌, ltb, ◌==◌, if◌then◌else◌,
  bit_and,
}
use flosp_os.Common.Bits.{bit_and_low, bit_and_high}
use flosp_os.Mem.{Memory}
use flosp_os.Mem.Page.{page_addr_mask, load64, get_mem_page}

-- A table frame: the bits 12 to 51 of an entry.
abbrev pub frame : ℕ → ℕ
frame e = e / 2 ^ 12 % 2 ^ 40 * 2 ^ 12

-- Level 0 is the page table, level 3 the PML4: nine bits of the address each.
abbrev pub slot : ℕ → ℕ → ℕ → ℕ
slot level table addr = table + 8 * (addr / 2 ^ (12 + 9 * level) % 512)

-- The page size bit, which the two middle levels have.
abbrev pub is_leaf : Memory → ℕ → ℕ → Bool
is_leaf m level e = ltb level 3 && (load64 m e / 2 ^ 7 % 2 == 1)

pub walk : Memory → ℕ → ℕ → ℕ → ℕ
walk m zero table addr = slot 0 table addr
walk m (suc level) table addr =
    let e = slot (suc level) table addr in
    let below = walk m level (frame (load64 m e)) addr in
    if is_leaf m (suc level) e then e else below

mask_frame : (e : ℕ) → bit_and e page_addr_mask ≡ frame e
mask_frame e =
    bit_and_high 12 e (2 ^ 40 - 1) ∙ ap (λ (t : ℕ). t * 2 ^ 12) (bit_and_low 40 (e / 2 ^ 12))

mask_cr3 : (e : ℕ) → bit_and e 0xfffffffffffff000 ≡ e / 2 ^ 12 % 2 ^ 52 * 2 ^ 12
mask_cr3 e =
    bit_and_high 12 e (2 ^ 52 - 1) ∙ ap (λ (t : ℕ). t * 2 ^ 12) (bit_and_low 52 (e / 2 ^ 12))

-- `get_mem_page` follows the tables as the walk does from the PML4 that `cr3` names.
pub get_mem_page-walk :
    (m : Memory) (cr3 addr : ℕ)
    → get_mem_page m cr3 addr ≡ walk m 3 (cr3 / 2 ^ 12 % 2 ^ 52 * 2 ^ 12) addr
unfolding get_mem_page walk
get_mem_page-walk m cr3 addr = simp (mask_frame, mask_cr3, bit_and_low 9, bit_and_low 1)
