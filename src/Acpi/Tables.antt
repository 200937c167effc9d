-- ===== src/Acpi/Tables.antt =====
-- `get_acpi_table` finds the first table with a signature, or none.
use flosp_os.Common.{ℕ, ◌≤◌, ◌<◌, ◌≡◌, Bool, true, false}
use flosp_os.Mem.{Memory}
use flosp_os.Text.{Text}
use flosp_os.Machine.{Machine}
use flosp_os.Acpi.{sdt_ptr, signature_is}

module _ (m : Memory) (xsdt : ℕ) (signature : Text) where
  abbrev pub matches : ℕ → Bool
  matches i = signature_is m (sdt_ptr m xsdt i) signature

  -- What a search of the entries from `first` up to `last` comes to.
  pub data Search (first last : ℕ) : ℕ → Type 0 where
    at_entry :
        (i : ℕ)
        → first ≤ i
        → i < last
        → matches i ≡ true
        → ((j : ℕ) → first ≤ j → j < i → matches j ≡ false)
        → Search first last (sdt_ptr m xsdt i)
    nowhere : ((j : ℕ) → first ≤ j → j < last → matches j ≡ false) → Search first last 0
