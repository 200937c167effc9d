-- ===== src/Boot/Elf.antt =====
-- src/bootloader/src/elf.c: the kernel's header and program headers are read into pool buffers. A
-- function with out pointers gives what they point to after its status.
use flosp_os.Common.{ℕ, ◌+◌, ◌*◌, List, [], ◌∷◌, true, false, codes}
use flosp_os.Mem.{Memory, load_le}
use flosp_os.Text.{Text}
use flosp_os.Boot.Efi.{
  Firmware, Build, L, ◌>>=◌, ◌>>◌, pure, call, get, skip, function, check, efi_print, efi_printnum,
  efi_printhex, print_if,
}

-- elf.h: `sizeof(Elf64_Ehdr)`, `sizeof(Elf64_Phdr)`, EI_NIDENT.
abbrev pub header_size : ℕ
header_size = 64

abbrev pub program_header_size : ℕ
program_header_size = 56

abbrev pub ei_nident : ℕ
ei_nident = 16

-- The fields of the header at an address.
abbrev pub e_ident : Memory → ℕ → ℕ → ℕ
e_ident m header i = m (header + i)

abbrev pub e_type : Memory → ℕ → ℕ
e_type m header = load_le 2 m (header + 16)

abbrev pub e_machine : Memory → ℕ → ℕ
e_machine m header = load_le 2 m (header + 18)

abbrev pub e_version : Memory → ℕ → ℕ
e_version m header = load_le 4 m (header + 20)

abbrev pub e_entry : Memory → ℕ → ℕ
e_entry m header = load_le 8 m (header + 24)

abbrev pub e_phoff : Memory → ℕ → ℕ
e_phoff m header = load_le 8 m (header + 32)

abbrev pub e_shoff : Memory → ℕ → ℕ
e_shoff m header = load_le 8 m (header + 40)

abbrev pub e_flags : Memory → ℕ → ℕ
e_flags m header = load_le 4 m (header + 48)

abbrev pub e_ehsize : Memory → ℕ → ℕ
e_ehsize m header = load_le 2 m (header + 52)

abbrev pub e_phentsize : Memory → ℕ → ℕ
e_phentsize m header = load_le 2 m (header + 54)

abbrev pub e_phnum : Memory → ℕ → ℕ
e_phnum m header = load_le 2 m (header + 56)

abbrev pub e_shentsize : Memory → ℕ → ℕ
e_shentsize m header = load_le 2 m (header + 58)

abbrev pub e_shnum : Memory → ℕ → ℕ
e_shnum m header = load_le 2 m (header + 60)

abbrev pub e_shstrndx : Memory → ℕ → ℕ
e_shstrndx m header = load_le 2 m (header + 62)

module _ {P R : Type 0} (build : Build) (fw : Firmware P) where
  unfoldable pub read_elf_identity : ℕ → ℕ → L P R (ℕ × ℕ)
  read_elf_identity image buffer = function (do
    print_if build.debug (codes "Debug: Reading kernel ELF identity\r\n")
    print_if build.debug (codes "Debug: Resetting kernel file pointer to beginning of file\r\n")
    status ← call (fw.set_position image 0)
    efi_print (codes "Test print\r\n")
    check status (codes "Fatal: Error resetting file pointer position\r\n") (status, buffer)
    print_if build.debug (codes "Debug: Allocating buffer for ELF identity\r\n")
    (status, buffer) ← call (fw.allocate_pool ei_nident buffer)
    check status (codes "Fatal: Error allocating memory for ELF identity buffer\r\n")
        (status, buffer)
    print_if build.debug (codes "Debug: Reading kernel ELF identity\r\n")
    (status, _) ← call (fw.read image buffer ei_nident)
    check status (codes "Fatal: Error reading kernel ELF identity\r\n") (status, buffer)
    pure (status, buffer))

  unfoldable pub read_elf_file : ℕ → ℕ → ℕ → L P R (ℕ × ℕ × ℕ)
  read_elf_file image header programs = function (do
    print_if build.debug (codes "Debug: Reading kernel ELF file\r\n")
    print_if build.debug (codes "Debug: Resetting kernel file pointer to beginning of file\r\n")
    status ← call (fw.set_position image 0)
    check status (codes "Fatal: Error resetting file pointer position\r\n")
        (status, header, programs)
    print_if build.debug (codes "Debug: Allocating buffer for kernel ELF header\r\n")
    (status, header) ← call (fw.allocate_pool header_size header)
    check status (codes "Fatal: Error allocating memory for kernel ELF header\r\n")
        (status, header, programs)
    print_if build.debug (codes "Debug: Reading kernel ELF header\r\n")
    (status, _) ← call (fw.read image header header_size)
    check status (codes "Fatal: Error reading kernel ELF header\r\n") (status, header, programs)
    w ← get
    let offset = e_phoff w.mem header
    let size = program_header_size * e_phnum w.mem header
    print_if build.debug (codes "Debug: Setting kernel file pointer to program header offset\r\n")
    status ← call (fw.set_position image offset)
    check status (codes "Fatal: Error setting kernel file pointer position\r\n")
        (status, header, programs)
    print_if build.debug (codes "Debug: Allocating buffer for kernel ELF program headers\r\n")
    (status, programs) ← call (fw.allocate_pool size programs)
    check status (codes "Fatal: Error allocating memory for kernel ELF program headers\r\n")
        (status, header, programs)
    print_if build.debug (codes "Debug: Reading kernel ELF program headers\r\n")
    (status, _) ← call (fw.read image programs size)
    check status (codes "Fatal: Error reading kernel ELF program headers\r\n")
        (status, header, programs)
    pure (status, header, programs))

module _ {P R : Type 0} (build : Build) where
  -- A caption, a number in hexadecimal digits, and the end of the line.
  abbrev hex_line : Text → ℕ → L P R (Unit {0})
  hex_line caption h = do efi_print caption; efi_printhex build h true; efi_print (codes "\r\n")

  abbrev num_line : Text → ℕ → L P R (Unit {0})
  num_line caption n = do efi_print caption; efi_printnum build n; efi_print (codes "\r\n")

  -- The bytes at these places of the identity.
  abbrev print_magic : Memory → ℕ → List ℕ → L P R (Unit {0})
  print_magic m header [] = skip
  print_magic m header (i ∷ rest) = do
    efi_printhex build (e_ident m header i) false
    efi_print (codes " ")
    print_magic m header rest

  unfoldable pub print_elf_info : ℕ → L P R (Unit {0})
  print_elf_info header = do
    efi_print (codes "Debug: Kernel ELF header info:\r\n")
    efi_print (codes "  Magic: ")
    w ← get
    print_magic w.mem header (0 ∷ 1 ∷ 2 ∷ 3 ∷ [])
    efi_print (codes "\r\n")
    hex_line (codes "  Class: ") (e_ident w.mem header 4)
    hex_line (codes "  Data: ") (e_ident w.mem header 5)
    hex_line (codes "  Version: ") (e_ident w.mem header 6)
    hex_line (codes "  OS/ABI: ") (e_ident w.mem header 7)
    hex_line (codes "  ABI Version: ") (e_ident w.mem header 8)
    hex_line (codes "  Type: ") (e_type w.mem header)
    hex_line (codes "  Machine: ") (e_machine w.mem header)
    hex_line (codes "  Version: ") (e_version w.mem header)
    hex_line (codes "  Entry point address: ") (e_entry w.mem header)
    hex_line (codes "  Start of program headers: ") (e_phoff w.mem header)
    hex_line (codes "  Start of section headers: ") (e_shoff w.mem header)
    hex_line (codes "  Flags: ") (e_flags w.mem header)
    hex_line (codes "  Size of this header: ") (e_ehsize w.mem header)
    hex_line (codes "  Size of program headers: ") (e_phentsize w.mem header)
    num_line (codes "  Number of program headers: ") (e_phnum w.mem header)
    hex_line (codes "  Size of section headers: ") (e_shentsize w.mem header)
    num_line (codes "  Number of section headers: ") (e_shnum w.mem header)
    hex_line (codes "  Section header string table index: ") (e_shstrndx w.mem header)
