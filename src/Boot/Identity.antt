-- ===== src/Boot/Identity.antt =====
-- src/bootloader/src/elf.c: the check of the kernel's identity.
use flosp_os.Common.{ℕ, List, [], ◌∷◌, ◌++◌, Bool, not, ◌||◌, ◌==◌, if◌then◌else◌, codes}
use flosp_os.Text.{Text}
use flosp_os.Boot.Codes.{efi_success, efi_unsupported, efi_incompatible_version}

-- Indices into the identity, and the values that the loader wants.
abbrev pub ei_class : ℕ
ei_class = 0x4

abbrev pub ei_data : ℕ
ei_data = 0x5

abbrev pub elf_file_class_64 : ℕ
elf_file_class_64 = 2

-- The first four bytes are 0x7f, E, L and F.
unfoldable pub bad_magic : (ℕ → ℕ) → Bool
bad_magic id =
    not (id 0x0 == 0x7f) || (not (id 0x1 == b'E') || (not (id 0x2 == b'L') || not (id 0x3 == b'F')))

-- The texts of a build with `debug`, in their order, and the status.
unfoldable pub validate_elf_identity : Bool → (ℕ → ℕ) → List Text × ℕ
validate_elf_identity debug id =
    let note = λ (text : Text). if debug then text ∷ [] else [] in
    let start = note (codes "Debug: Validating kernel ELF identity\r\n") in
    let wide = start ++ note (codes "Debug: Identified kernel as x86_64\r\n") in
    if bad_magic id
    then (start ++ (codes "Fatal: Invalid kernel ELF header\r\n" ∷ []), efi_success)
    else if not (id ei_class == elf_file_class_64)
    then (start ++ (codes "Fatal: Invalid kernel file\r\n" ∷ []), efi_unsupported)
    else if not (id ei_data == 1)
    then (
      wide ++ (codes "Fatal: Only an LSB ELF kernel is supported\r\n" ∷ []),
      efi_incompatible_version,
    )
    else (wide ++ note (codes "Debug: Kernel ELF identity validated\r\n"), efi_success)
