-- ===== src/Boot/Status.antt =====
-- What the loader's checks of a status are worth, and the pages of a segment.
use flosp_os.Common.{ℕ, ◌*◌, ◌≤◌, ◌≡◌, Bool, false, arith, ltb}
use flosp_os.Common.Bits.{bit_and_low}
use flosp_os.Boot.Codes.{efi_error, efi_size_to_pages}
use flosp_os.Boot.Identity.{validate_elf_identity}

-- No status is an error to the loader: an unsigned number is compared to be below 0. So a kernel file
-- goes through the check of its identity whatever the identity is.
pub validate_elf_identity-efi_error :
    (debug : Bool) (id : ℕ → ℕ) → efi_error (validate_elf_identity debug id).1 ≡ false
unfolding efi_error
validate_elf_identity-efi_error debug id = below_none (validate_elf_identity debug id).1
  where
    below_none : (status : ℕ) → ltb status 0 ≡ false
    below_none status = ground arith

-- The pages of a segment hold it, and one page less does not.
pub efi_size_to_pages-least :
    (size : ℕ)
    → (size ≤ 4096 * efi_size_to_pages size)
      × ((pages : ℕ) → size ≤ 4096 * pages → efi_size_to_pages size ≤ pages)
unfolding efi_size_to_pages
efi_size_to_pages-least size =
    (ground (arith, bit_and_low 12 size), λ pages le. ground (arith, bit_and_low 12 size))
