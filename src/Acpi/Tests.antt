-- ===== src/Acpi/Tests.antt =====
-- The theorems on acpi.c with tables of three entries.
use flosp_os.Common.{
  ℕ, ◌+◌, ◌*◌, ◌%◌, ◌-◌, ◌≤◌, ◌≡◌, refl, List, [], ◌∷◌, arith, leb, ltb, if◌then◌else◌, codes,
  get_or,
}
use flosp_os.Common.Run.{done}
use flosp_os.Mem.{Memory, load_le}
use flosp_os.Mem.Words.{IsBytes}
use flosp_os.Machine.{Machine}
use flosp_os.Machine.Sample.{machine}
use flosp_os.Acpi.{
  get_acpi_table, find_table, signature_is, get_madt_entry_addr, walk_entries, madt_limit,
}
use flosp_os.Acpi.Madt.{Walked, get_madt_entry_addr-Walked}

-- A byte of a list, at an offset.
abbrev bytes_at : ℕ → List ℕ → ℕ → ℕ
bytes_at start xs a = if leb start a then get_or xs (a - start) 0 else 0

-- The XSDT at 0x1000 points to tables at 0x2000 and 0x3000; the second is a MADT with an entry of
-- eight bytes and an address override behind it.
abbrev tables : Memory
tables a =
    (if ltb a 0x2000
      then bytes_at (0x1000 + 36) (0 ∷ 0x20 ∷ 0 ∷ 0 ∷ 0 ∷ 0 ∷ 0 ∷ 0 ∷ 0 ∷ 0x30 ∷ []) a
      else if ltb a 0x3000
      then bytes_at 0x2000 (codes "FACP") a
      else if ltb a 0x302c
      then bytes_at 0x3000 (0x41 ∷ 0x50 ∷ 0x49 ∷ 0x43 ∷ 60 ∷ []) a
      else bytes_at 0x302c (0 ∷ 8 ∷ 0 ∷ 0 ∷ 0 ∷ 0 ∷ 0 ∷ 0 ∷ 5 ∷ 12 ∷ []) a)
    % 256

tables-IsBytes : IsBytes tables
tables-IsBytes a = omega arith

abbrev booted : Machine
booted = record machine {
  env = record machine.env { mem = tables };
  acpi = record machine.acpi { xsdt = 0x1000; num_xsdt_entries = 2; madt = 0x3000 };
}

madt_found : get_acpi_table (codes "APIC") booted ≡ 0x3000
unfolding get_acpi_table find_table signature_is load_le
madt_found = refl

override_found : get_madt_entry_addr 5 booted ≡ done 0x3034
unfolding get_madt_entry_addr walk_entries load_le
override_found = refl

get_madt_entry_addr-Walked_example :
    (r : ℕ) × (get_madt_entry_addr 5 booted ≡ done r)
    × Walked tables 5 (madt_limit tables 0x3000) 0x302c r
unfolding load_le
get_madt_entry_addr-Walked_example =
    get_madt_entry_addr-Walked 5 booted tables-IsBytes (limit_room (madt_limit tables 0x3000) refl)
      (omega arith)
  where
    limit_room : (l : ℕ) → l ≡ 0x3000 + 44 * 60 → l + 256 ≤ 18446744073709551616
    limit_room l e = omega (arith, e)
