-- ===== src/Mem/Page.antt =====
-- src/os/src/drivers/mem.c, `get_mem_page`: the entry that maps an address.
pub mod Walk
use flosp_os.Common.{ℕ, ◌+◌, ◌*◌, ◌==◌, if◌then◌else◌, bit_and, ◌>>>◌}
use flosp_os.Mem.{Memory, load_le}

-- PAGE_ADDR_MASK
abbrev pub page_addr_mask : ℕ
page_addr_mask = 0x000ffffffffff000

-- The address of `table->entries[index]`.
abbrev pub entry_addr : ℕ → ℕ → ℕ
entry_addr table index = table + 8 * index

abbrev pub load64 : Memory → ℕ → ℕ
load64 = load_le 8

-- The last two levels: a page directory, and a page table below it.
unfoldable pub page_of_directory : Memory → ℕ → ℕ → ℕ
page_of_directory m pd addr =
    let pd_entry = entry_addr pd (bit_and (addr >>> 21) 0b111111111) in
    if bit_and (load64 m pd_entry >>> 7) 0x1 == 1
    then pd_entry
    else (let pt = bit_and (load64 m pd_entry) page_addr_mask in
        entry_addr pt (bit_and (addr >>> 12) 0b111111111))

-- `cr3` is what `read_cr3` returns.
unfoldable pub get_mem_page : Memory → ℕ → ℕ → ℕ
unfolding page_of_directory
get_mem_page m cr3 addr =
    let pml4 = bit_and cr3 0xfffffffffffff000 in
    let pml4_entry = entry_addr pml4 (bit_and (addr >>> 39) 0b111111111) in
    let pdp = bit_and (load64 m pml4_entry) page_addr_mask in
    let pdp_entry = entry_addr pdp (bit_and (addr >>> 30) 0b111111111) in
    if bit_and (load64 m pdp_entry >>> 7) 0x1 == 1
    then pdp_entry
    else page_of_directory m (bit_and (load64 m pdp_entry) page_addr_mask) addr
