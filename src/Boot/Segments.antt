-- ===== src/Boot/Segments.antt =====
-- src/bootloader/src/loader.c: `load_segment` and `load_program_segments`.
use flosp_os.Common.{ℕ, zero, suc, ◌+◌, ◌-◌, ◌*◌, ◌^◌, ltb, ◌==◌, u16, u64, if◌then◌else◌, codes}
use flosp_os.Mem.{Memory, load_le}
use flosp_os.Boot.Codes.{efi_success, efi_invalid_parameter, efi_not_found, efi_size_to_pages}
use flosp_os.Boot.Efi.{
  Firmware, Build, L, ◌>>=◌, ◌>>◌, pure, return, call, get, skip, function, check, check_quiet,
  efi_print, print_if,
}
use flosp_os.Boot.Elf.{program_header_size, e_phnum}

-- PT_LOAD
abbrev pub pt_load : ℕ
pt_load = 1

-- The fields of the program header at an address.
abbrev pub p_type : Memory → ℕ → ℕ
p_type m program = load_le 4 m program

abbrev pub p_offset : Memory → ℕ → ℕ
p_offset m program = load_le 8 m (program + 8)

abbrev pub p_paddr : Memory → ℕ → ℕ
p_paddr m program = load_le 8 m (program + 24)

abbrev pub p_filesz : Memory → ℕ → ℕ
p_filesz m program = load_le 8 m (program + 32)

abbrev pub p_memsz : Memory → ℕ → ℕ
p_memsz m program = load_le 8 m (program + 40)

-- The address of `ProgramHeaders[i]`.
abbrev pub header_at : ℕ → ℕ → ℕ
header_at programs i = programs + program_header_size * i

-- A difference of unsigned numbers, 64 bits wide.
abbrev pub sub64 : ℕ → ℕ → ℕ
sub64 a b = u64 (a + 2 ^ 64 - b)

module _ {P : Type 0} (build : Build) (fw : Firmware P) where
  -- The branch of `load_segment` for a segment with bytes in the file: they are read into a buffer
  -- from the pool, and copied from there.
  unfoldable pub load_bytes : ℕ → ℕ → ℕ → L P ℕ ℕ
  load_bytes image file_size address = do
    print_if build.debug (codes "Debug: Allocating kernel program segment buffer\r\n")
    (status, data_buffer) ← call (fw.allocate_pool file_size 0)
    check status (codes "Fatal: Error allocating kernel program segment buffer\r\n") status
    print_if build.debug (codes "Debug: Reading segment data\r\n")
    (status, _) ← call (fw.read image data_buffer file_size)
    check status (codes "Fatal: Error reading segment data\r\n") status
    print_if build.debug (codes "Debug: Copying segment data to memory\r\n")
    status ← call (fw.copy_mem address data_buffer file_size)
    check status (codes "Fatal: Error copying segment data to memory\r\n") status
    print_if build.debug (codes "Debug: Freeing kernel program segment buffer\r\n")
    status ← call (fw.free_pool data_buffer)
    check status (codes "Fatal: Error freeing kernel program segment buffer\r\n") status
    pure status

  unfoldable pub zero_fill : ℕ → ℕ → L P ℕ ℕ
  zero_fill start count = do
    print_if build.debug (codes "Debug: Zero-filling extended data after program segment\r\n")
    status ← call (fw.set_mem start count 0)
    check status (codes "Fatal: Error zero-filling memory post data segment\r\n") status
    pure status

  unfoldable pub load_segment : {R : Type 0} → ℕ → ℕ → ℕ → ℕ → ℕ → L P R ℕ
  load_segment image offset file_size memory_size address = function (do
    print_if build.debug (codes "Debug: Setting kernel file pointer to segment offset\r\n")
    status ← call (fw.set_position image offset)
    check status (codes "Fatal: Error setting kernel file pointer position\r\n") status
    print_if build.debug (codes "Debug: Allocating pages for ELF segment\r\n")
    (status, address) ← call (fw.allocate_pages (efi_size_to_pages memory_size) address)
    check status (codes "Fatal: Error allocating pages for ELF segment\r\n") status
    status ← (if ltb 0 file_size then load_bytes image file_size address else pure status)
    let count = sub64 memory_size file_size
    if ltb 0 count then zero_fill (u64 (address + file_size)) count else pure status)

  -- The rounds from `i` on, `left` of them: the status, and how many segments have been loaded.
  unfoldable pub segments_loop : ℕ → ℕ → ℕ → ℕ → ℕ → ℕ → L P ℕ (ℕ × ℕ)
  segments_loop zero i image programs status loaded = pure (status, loaded)
  segments_loop (suc left) i image programs status loaded = do
    w ← get
    let header = header_at programs i
    let load = (do
      status' ←
          load_segment image (p_offset w.mem header) (p_filesz w.mem header) (p_memsz w.mem header)
            (p_paddr w.mem header)
      check_quiet status' status'
      segments_loop left (i + 1) image programs status' (u16 (loaded + 1)))
    let pass = segments_loop left (i + 1) image programs status loaded
    if p_type w.mem header == pt_load then load else pass

  unfoldable pub load_program_segments : {R : Type 0} → ℕ → ℕ → ℕ → L P R ℕ
  load_program_segments image header programs = function (do
    w ← get
    let count = e_phnum w.mem header
    let none_found = (do
      efi_print (codes "Fatal: No program segments found within kernel file\r\n")
      return efi_invalid_parameter)
    if count == 0 then none_found else skip
    print_if build.debug (codes "Debug: Loading kernel segments\r\n")
    (status, loaded) ← segments_loop count 0 image programs efi_success 0
    let none_loaded = (do
      efi_print (codes "Fatal: No loadable program segments found within kernel file\r\n")
      return efi_not_found)
    if loaded == 0 then none_loaded else skip
    pure status)
