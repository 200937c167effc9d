-- ===== src/Boot/Kernel.antt =====
-- src/bootloader/src/loader.c: `load_kernel`.
use flosp_os.Common.{ℕ, ◌+◌, ◌||◌, ◌==◌, if◌then◌else◌, codes}
use flosp_os.Mem.{store_le}
use flosp_os.Text.{Text}
use flosp_os.Boot.Codes.{efi_not_found, errcode}
use flosp_os.Boot.Identity.{validate_elf_identity}
use flosp_os.Boot.Efi.{
  Firmware, Build, L, ◌>>=◌, ◌>>◌, pure, call, hang, get, modify_mem, skip, function, check,
  check_quiet, efi_print, efi_printnum, print_if, print_all,
}
use flosp_os.Boot.Elf.{e_entry, read_elf_identity, read_elf_file, print_elf_info}
use flosp_os.Boot.Segments.{load_program_segments}

module _ {P : Type 0} (build : Build) (fw : Firmware P) where
  -- The kernel file is opened; a missing one stops the loader.
  unfoldable pub open_kernel : ℕ → Text → L P ℕ ℕ
  open_kernel root name = do
    print_if build.info (codes "Info: Loading kernel\r\n")
    print_if build.debug (codes "Debug: Opening kernel file\r\n")
    (status, image) ← call (fw.open_file root name 0)
    check status (codes "Fatal: Error opening kernel file\r\n") status
    let missing = (do
      efi_print (codes "Fatal: kernel file not found\r\n")
      efi_print (codes "Error status: ")
      efi_printnum build (errcode status)
      efi_print (codes "\r\n")
      hang)
    if status == efi_not_found || image == 0 then missing else skip
    pure image

  -- The identity is read and validated, and its buffer given back.
  unfoldable pub check_identity : ℕ → L P ℕ (Unit {0})
  check_identity image = do
    (status, buffer) ← read_elf_identity build fw image 0
    check_quiet status status
    w ← get
    let (texts, status) = validate_elf_identity build.debug (λ i. w.mem (buffer + i))
    print_all texts
    check_quiet status status
    status ← call (fw.free_pool buffer)
    check status (codes "Fatal: Unable to free kernel ELF identity buffer\r\n") status

  -- The cleanup at the end.
  unfoldable pub close_kernel : ℕ → ℕ → ℕ → L P ℕ ℕ
  close_kernel image header programs = do
    print_if build.debug (codes "Debug: Closing kernel file\r\n")
    status ← call (fw.close image)
    check status (codes "Fatal: Error closing kernel file\r\n") status
    print_if build.debug (codes "Debug: Freeing kernel ELF header buffer\r\n")
    status ← call (fw.free_pool header)
    check status (codes "Fatal: Error freeing kernel ELF header buffer\r\n") status
    print_if build.debug (codes "Debug: Freeing kernel ELF program headers buffer\r\n")
    status ← call (fw.free_pool programs)
    check status (codes "Fatal: Error freeing kernel ELF program headers buffer\r\n") status
    print_if build.debug (codes "Debug: Kernel loaded\r\n")
    pure status

  -- `entry_point` is the address that `KernelEntryPoint` points to.
  unfoldable pub load_kernel : {R : Type 0} → ℕ → Text → ℕ → L P R ℕ
  load_kernel root name entry_point = function (do
    image ← open_kernel root name
    check_identity image
    (status, header, programs) ← read_elf_file build fw image 0 0
    check_quiet status status
    modify_mem (λ m. store_le 8 m entry_point (e_entry m header))
    (if build.debug then print_elf_info build header else skip)
    status ← load_program_segments build fw image header programs
    check_quiet status status
    close_kernel image header programs)
