-- ===== src/Boot/Codes.antt =====
-- src/bootloader/src/inc/efi.h: status codes and page counts.
use flosp_os.Common.{ℕ, ◌+◌, Bool, ltb, ◌==◌, if◌then◌else◌, bit_and, bit_or, ◌>>>◌}

-- EFI_STATUS is unsigned, 64 bits wide.
unfoldable pub efi_error : ℕ → Bool
efi_error status = ltb status 0

unfoldable pub efierr : ℕ → ℕ
efierr a = bit_or 0x8000000000000000 a

abbrev pub efi_success : ℕ
efi_success = 0

abbrev pub efi_unsupported : ℕ
efi_unsupported = efierr 3

abbrev pub efi_incompatible_version : ℕ
efi_incompatible_version = efierr 25

abbrev pub efi_page_shift : ℕ
efi_page_shift = 12

abbrev pub efi_page_mask : ℕ
efi_page_mask = 0xfff

unfoldable pub efi_size_to_pages : ℕ → ℕ
efi_size_to_pages a = (a >>> efi_page_shift) + (if bit_and a efi_page_mask == 0 then 0 else 1)

abbrev pub efi_load_error : ℕ
efi_load_error = efierr 1

abbrev pub efi_invalid_parameter : ℕ
efi_invalid_parameter = efierr 2

abbrev pub efi_buffer_too_small : ℕ
efi_buffer_too_small = efierr 5

abbrev pub efi_not_found : ℕ
efi_not_found = efierr 14

abbrev pub efi_not_started : ℕ
efi_not_started = efierr 19

-- ERRCODE
abbrev pub errcode : ℕ → ℕ
errcode status = bit_and status 0x7fffffffffffffff
