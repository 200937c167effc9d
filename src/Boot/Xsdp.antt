-- ===== src/Boot/Xsdp.antt =====
-- src/bootloader/src/main.c: the search for the XSDP in the configuration table of the firmware.
use flosp_os.Common.{
  ℕ, zero, suc, ◌+◌, ◌-◌, ◌*◌, ◌^◌, Bool, not, ◌&&◌, ltb, ◌==◌, bit_or, u16, u32, if◌then◌else◌,
}
use flosp_os.Common.Run.{Run, done, stuck}
use flosp_os.Mem.{Memory, load_le}

-- A difference of 32-bit numbers, which wraps around.
abbrev pub sub32 : ℕ → ℕ → ℕ
sub32 a b = u32 (a + 2 ^ 32 - b)

-- An INT32 as an INT64, both by their bits.
abbrev pub widen : ℕ → ℕ
widen r = if ltb r (2 ^ 31) then r else r + (2 ^ 64 - 2 ^ 32)

-- A GUID is read as four words of 32 bits.
abbrev pub Guid : Type 0
Guid = ℕ → ℕ

unfoldable pub compare_efi_guid : Guid → Guid → ℕ
compare_efi_guid g1 g2 =
    let r = bit_or (sub32 (g1 0) (g2 0)) (sub32 (g1 1) (g2 1)) in
    widen (bit_or (bit_or r (sub32 (g1 2) (g2 2))) (sub32 (g1 3) (g2 3)))

-- The words of EFI_ACPI_20_TABLE_GUID.
abbrev pub acpi2_guid : Guid
acpi2_guid i =
    if i == 0
    then 0x8868e871
    else if i == 1
    then 0x11d3e4f1
    else if i == 2
    then 0x800022bc
    else 0x81883cc7

-- EFI_CONFIGURATION_TABLE: the size of an entry, its GUID and its pointer.
abbrev pub entry_size : ℕ
entry_size = 24

abbrev pub vendor_guid : Memory → ℕ → Guid
vendor_guid m entry i = load_le 4 m (entry + 4 * i)

abbrev pub vendor_table : Memory → ℕ → ℕ
vendor_table m entry = load_le 8 m (entry + 16)

-- The signature that the bytes at an address are compared to.
unfoldable pub has_signature : Memory → ℕ → Bool
has_signature m p =
    m p == b'R'
    && (m (p + 1) == b'S'
        && (m (p + 2) == b'D'
            && (m (p + 3) == b' '
                && (m (p + 4) == b'P'
                    && (m (p + 5) == b'T' && (m (p + 6) == b'R' && m (p + 7) == b' '))))))

-- The two tests of a round: the first reads `tempTable[i]`, the second `*tempTable`.
unfoldable pub takes : Memory → ℕ → ℕ → Bool
takes m i temp =
    not (compare_efi_guid (vendor_guid m (temp + entry_size * i)) acpi2_guid == 0)
    && has_signature m (vendor_table m temp)

-- The loop: `i` is 16 bits wide, `temp` is `tempTable`, `xsdp` is `BootInfo.XSDPTable`.
unfoldable pub xsdp_loop : ℕ → Memory → ℕ → ℕ → ℕ → ℕ → Run ℕ
xsdp_loop zero m count i temp xsdp = stuck
xsdp_loop (suc fuel) m count i temp xsdp =
    let xsdp' = if takes m i temp then vendor_table m temp else xsdp in
    let next = xsdp_loop fuel m count (u16 (i + 1)) (temp + entry_size) xsdp' in
    if ltb i count then next else done xsdp

-- With more entries than a 16-bit `i` can count, `i` starts again from 0 and the loop has no end;
-- otherwise it ends within 2 ^ 16 tests.
unfoldable pub find_xsdp : Memory → ℕ → ℕ → Run ℕ
find_xsdp m table count = xsdp_loop (2 ^ 16) m count 0 table 0
