-- ===== src/Boot/Tests.antt =====
-- The theorems on the loader at a file that is no kernel.
use flosp_os.Common.{
  if◌then◌else◌, ◌==◌, inr, inl, ◌⊎◌, ◌↔◌, ◌+◌, ◌<◌, zero, suc, arith, [], refl, ℕ, ◌*◌, ◌≡◌, true,
  false,
}
use flosp_os.Boot.Codes.{efi_error, efi_success, efierr, efi_size_to_pages}
use flosp_os.Boot.Identity.{validate_elf_identity}
use flosp_os.Common.Run.{done}
use flosp_os.Mem.{Memory, store_le, load_le, store8}
use flosp_os.Boot.Efi.{
  Firmware, Build, World, value, call, ◌>>=◌, check, get, check_quiet, print_if, efi_print,
  modify_mem, pure, function,
}
use flosp_os.Boot.Codes.{efi_error, efi_success, efierr, efi_size_to_pages}
use flosp_os.Boot.Triple.{final}
use flosp_os.Boot.Sample.{Disk, one_mib, sample, sample_view, sample-Laws}
use flosp_os.Boot.Segments.{
  segments_loop, load_program_segments, load_segment, load_bytes, zero_fill,
}
use flosp_os.Boot.Xsdp.{
  compare_efi_guid, acpi2_guid, vendor_guid, vendor_table, has_signature, find_xsdp, entry_size,
}
use flosp_os.Boot.Search.{
  SameGuid, compare_efi_guid-zero, last_taken, find_xsdp-last_taken, find_xsdp-passed,
}
use flosp_os.Boot.Graphics.{horizontal_resolution, vertical_resolution, pixel_format}
use flosp_os.Boot.Modes.{first, Mode, Answers, set_run, set_graphics_mode-first}
use flosp_os.Boot.Identity.{bad_magic}
use flosp_os.Boot.Kernel.{load_kernel, open_kernel, check_identity, close_kernel}
use flosp_os.Boot.Elf.{read_elf_identity, read_elf_file}
use flosp_os.Boot.Headers.{file_count}
use flosp_os.Boot.FileTable.{file_segment}
use flosp_os.Boot.Kept.{KernelLoaded}
use flosp_os.Boot.LoadKernel.{kernel_run, load_kernel-loaded}
use flosp_os.Boot.Table.{Segment, AllFit, Intact}
use flosp_os.Boot.Program.{program_run, load_program_segments-loaded, AllLoaded}

abbrev debug_build : Build
debug_build = record { debug = true; info = true; garbage = λ i. 7 }

-- One program header at 0x800: 300 bytes of the file from 64 on, 5000 bytes in the memory.
abbrev table : Memory
table =
    store_le 8
      (store_le 8 (store_le 8 (store_le 8 (store_le 4 (λ a. 9) 0x800 1) 0x808 64) 0x818 0x200000)
        0x820 300)
      0x828 5000

abbrev start : World Disk
start = record {
  mem = store_le 2 table 0x738 1;
  private = record {
    ok = true;
    pool_next = 0x1000;
    page_next = one_mib;
    seek = 5;
    blocks = λ b. 0;
    left = false;
  };
  printed = [];
}

abbrev segments : ℕ → Segment
segments j = record {
  kind = 1;
  offset = 64;
  file_size = 300;
  memory_size = 5000;
  address = 0x200000;
}

fits : AllFit (sample_view.file_size 1) 1 segments
fits j lt kind = (omega arith, omega arith, omega arith, omega arith)

start-Intact : Intact sample_view 0x800 1 segments start.mem start.private
unfolding store_le load_le store8
start-Intact zero lt = (refl, λ a h. ground arith)
start-Intact (suc j) lt = absurd (omega arith)

abbrev program_end : World Disk
program_end =
    final start
      (program_run debug_build sample sample_view sample-Laws 1 0x800 1 segments fits 0x700 start)

load_program_segments-loaded_example :
    ((status : ℕ) × (program_run debug_build sample sample_view sample-Laws 1 0x800 1 segments fits
          0x700 start
        ≡ done (value status, program_end)))
    × AllLoaded debug_build sample sample_view sample-Laws 1 0x800 1 segments fits start.mem
        start.private program_end.mem program_end.private
unfolding load_program_segments segments_loop load_segment load_bytes zero_fill call ◌>>=◌ check get
    check_quiet print_if efi_print pure function efi_error store_le load_le store8
load_program_segments-loaded_example =
    load_program_segments-loaded debug_build sample sample_view sample-Laws 1 0x800 1 segments fits
      0x700 start 0 refl (omega arith) (omega arith) refl start-Intact refl

-- A table of two entries: the GUID of the first is that of the ACPI tables.
abbrev acpi_table : Memory
acpi_table =
    store_le 4
      (store_le 4 (store_le 4 (store_le 4 (λ a. 0) 0x500 0x8868e871) 0x504 0x11d3e4f1) 0x508
        0x800022bc)
      0x50c 0x81883cc7

acpi_words : SameGuid (vendor_guid acpi_table 0x500) acpi2_guid
unfolding store_le load_le store8
acpi_words = (refl, refl, refl, refl)

compare_efi_guid-zero_example :
    (compare_efi_guid acpi2_guid acpi2_guid ≡ 0) ↔ SameGuid acpi2_guid acpi2_guid
compare_efi_guid-zero_example =
    compare_efi_guid-zero acpi2_guid acpi2_guid (λ i. ground arith) (λ i. ground arith)

find_xsdp-last_taken_example : find_xsdp acpi_table 0x500 2 ≡ done (last_taken acpi_table 0x500 2)
find_xsdp-last_taken_example = find_xsdp-last_taken acpi_table 0x500 2 (omega arith)

one_entry :
    (i : ℕ)
    → i < 1
    → SameGuid (vendor_guid acpi_table (0x500 + entry_size * (2 * i))) acpi2_guid
      ⊎ (has_signature acpi_table (vendor_table acpi_table (0x500 + entry_size * i)) ≡ false)
one_entry zero lt = inl acpi_words
one_entry (suc i) lt = absurd (omega arith)

find_xsdp-passed_example : find_xsdp acpi_table 0x500 1 ≡ done 0
find_xsdp-passed_example = find_xsdp-passed acpi_table 0x500 1 (omega arith) one_entry

-- Two modes, the second of which fits.
abbrev modes : Memory
modes =
    store_le 4
      (store_le 4 (store_le 4 (store_le 4 (store_le 8 (λ a. 0) 0x918 0x950) 0x950 2) 0xa44 800)
        0xa48 600)
      0xa4c 1

abbrev quiet_build : Build
quiet_build = record { debug = false; info = false; garbage = λ i. 7 }

abbrev screen : World Disk
screen = record { mem = modes; private = start.private; printed = [] }

-- A query leaves a mark in the memory.
abbrev marked : Memory
marked a = if a == 0xb00 then 1 else modes a

abbrev telling : Firmware Disk
telling = record sample {
  query_mode = λ protocol mode old m p. ((0, 0xa00 + 0x40 * mode), marked, p);
}

abbrev known : ℕ → Mode
known i =
    if i == 1
    then record { width = 800; height = 600; format = 1 }
    else record { width = 0; height = 0; format = 0 }

abbrev Unmarked : Memory → Disk → Type 0
Unmarked m p = (m ≡ modes) ⊎ (m ≡ marked)

telling-Answers : Answers telling 0x900 (λ i. 0) known 2 Unmarked
unfolding store_le load_le store8
telling-Answers = record {
  counted = λ m p same. elim same [ inl e ↦ rw e refl | inr e ↦ rw e refl ];
  told = λ i old m p lt same. of_mode i lt;
}
  where
    of_mode :
        (i : ℕ)
        → i < 2
        → (◌≡◌ {A = ℕ} 0 0)
          × (horizontal_resolution marked (0xa00 + 0x40 * i) ≡ (known i).width)
          × (vertical_resolution marked (0xa00 + 0x40 * i) ≡ (known i).height)
          × (pixel_format marked (0xa00 + 0x40 * i) ≡ (known i).format)
          × Unmarked marked start.private
    of_mode zero lt = (refl, refl, refl, refl, inr refl)
    of_mode (suc zero) lt = (refl, refl, refl, refl, inr refl)
    of_mode (suc (suc i)) lt = absurd (omega arith)

set_graphics_mode-first_example :
    (m : Memory) × (p : Disk) × Unmarked m p
    × (set_run quiet_build telling 0x900 640 600 1 (λ i. 0) known 2 Unmarked screen ≡ (
        let (_, m1, p1) = telling.set_mode 0x900 0 m p in
        let (_, m2, p2) = telling.clear_screen m1 p1 in
        let (status, m3, p3) = telling.reset 0 m2 p2 in
        done (value status, record { mem = m3; private = p3; printed = [] })))
unfolding first
set_graphics_mode-first_example =
    set_graphics_mode-first quiet_build telling 0x900 640 600 1 (λ i. 0) known 2 Unmarked refl
      telling-Answers screen (inl refl) (omega arith)

-- The kernel file of the sample, loaded in a build without texts, with the entry point at address 0.
abbrev kernel_end : World Disk
kernel_end = final start (kernel_run quiet_build sample sample_view sample-Laws 1 [] 1 0 refl start)

kernel_fits :
    AllFit (sample_view.file_size 1) (file_count sample_view 1) (file_segment sample_view 1)
unfolding store_le load_le store8
kernel_fits zero lt load = (omega arith, omega arith, omega arith, omega arith)
kernel_fits (suc j) lt load = absurd (omega arith)

load_kernel-loaded_example :
    (kernel_run quiet_build sample sample_view sample-Laws 1 [] 1 0 refl start
      ≡ done (value efi_success, kernel_end))
    × KernelLoaded sample_view 1 0 kernel_end.mem kernel_end.private
unfolding load_kernel open_kernel check_identity close_kernel read_elf_identity read_elf_file
    load_program_segments segments_loop load_segment load_bytes zero_fill call ◌>>=◌ check get
    check_quiet modify_mem print_if efi_print pure function efi_error efierr store_le load_le store8
    efi_size_to_pages validate_elf_identity bad_magic
load_kernel-loaded_example =
    load_kernel-loaded quiet_build sample sample_view sample-Laws 1 [] 1 0 refl 0
      (omega arith, omega arith) kernel_fits (omega arith) (omega arith) refl start refl
      (λ e. absurd (omega (arith, e))) (λ a h. (ground arith, ground arith)) refl
