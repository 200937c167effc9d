-- ===== src/Boot/EnterTests.antt =====
-- The whole loader with the firmware of the sample, a screen of eight times sixteen pixels, and a kernel that
-- writes a byte and returns.
use flosp_os.Common.{ℕ, zero, suc, ◌≡◌, refl, true, false, [], arith, Bool-cases, inl, inr, ltb}
use flosp_os.Common.Run.{done}
use flosp_os.Mem.{Memory, store_le, load_le, store8}
use flosp_os.Boot.Codes.{efi_error, efierr, efi_load_error, efi_size_to_pages}
use flosp_os.Boot.Efi.{
  World, Build, MapInfo, Service, value, ◌>>=◌, call, check, check_quiet, print_if, efi_print, pure,
  function, get, modify_mem, lift,
}
use flosp_os.Boot.Triple.{final}
use flosp_os.Boot.Identity.{validate_elf_identity, bad_magic}
use flosp_os.Boot.Elf.{read_elf_identity, read_elf_file}
use flosp_os.Boot.Segments.{
  load_bytes, zero_fill, load_segment, segments_loop, load_program_segments,
}
use flosp_os.Boot.Kernel.{open_kernel, check_identity, close_kernel, load_kernel}
use flosp_os.Boot.Graphics.{graphics_init}
use flosp_os.Boot.Xsdp.{find_xsdp, xsdp_loop, takes, has_signature, compare_efi_guid}
use flosp_os.Boot.Search.{last_taken}
use flosp_os.Boot.Headers.{file_count}
use flosp_os.Boot.Table.{AllFit}
use flosp_os.Boot.FileTable.{file_segment}
use flosp_os.Boot.Main.{
  System, BootInfo, init_efi_fs, get_memory_map, open_graphics, save_video_mode, save_xsdp,
  open_volume, load, exit_efi, efi_main,
}
use flosp_os.Boot.Uefi.{Keeps}
use flosp_os.Boot.Promises.{Offer, Placed, Promises}
use flosp_os.Boot.Entering.{Entered, boot_run, efi_main-Entered}
use flosp_os.Boot.Sample.{
  Disk, one_mib, sample, sample_view, sample_map, map_length, sample-Laws, sample-MapLaws,
}

abbrev quiet : Build
quiet = record { debug = false; info = false; garbage = λ i. 7 }

abbrev system : System
system = record { image_handle = 3; number_of_table_entries = 1; configuration_table = 0x500 }

abbrev offer : Offer
offer = record {
  protocol = 0x900;
  screen = record {
    framebuffer_pointer = 0x80000000;
    backbuffer_pointer = 0;
    horizontal_resolution = 8;
    vertical_resolution = 16;
    pixels_per_scanline = 8;
  };
  xsdp = 0xb00;
  root = 1;
  image = 1;
  has_screen = λ e. absurd (omega (arith, e));
  has_xsdp = λ e. absurd (omega (arith, e));
  has_image = λ e. absurd (omega (arith, e));
}

-- The protocol with its mode, and one entry of the configuration table with the signature of an XSDP.
abbrev structures : Memory
structures =
    store_le 8
      (store_le 8
        (store_le 4
          (store_le 4
            (store_le 4
              (store_le 8 (store_le 8 (store_le 8 (λ a. 0) 0x918 0x950) 0x958 0xa00) 0x968
                0x80000000)
              0xa04 8)
            0xa08 16)
          0xa20 8)
        0x510 0xb00)
      0xb00 0x2052545020445352

structures-Placed : Placed offer system structures
unfolding store_le load_le store8 last_taken takes has_signature compare_efi_guid
structures-Placed = record {
  has_mode = refl;
  framebuffer = refl;
  horizontal = refl;
  vertical = refl;
  per_scanline = refl;
  xsdp = refl;
}

within_buffer :
    (b : ℕ) (info : MapInfo) (m : Memory) (p : Disk)
    → (let (_, m', p') = sample.get_memory_map b info m p in
        sample_view.Fine p' → sample_view.Fine p × Keeps sample_view b info.size m p m' p')
within_buffer b info m p = elim (Bool-cases (ltb info.size (map_length p))) [
  | inl small ↦ rw small (λ ok. (ok, (λ a own. (own, λ out. refl), λ a page. page)))
  | inr fits ↦ rw fits (λ ok. (ok, (λ a own. (own, λ out. ground arith), λ a page. page)))
]

sample-Promises : Promises sample sample_view offer system
unfolding efierr
sample-Promises = record {
  watchdog_law = λ timeout code size text m p placed.
      (placed, λ ok. (ok, (λ a own. (own, refl), λ a page. page)));
  locate_handles_law =
      λ old m p placed. (refl, placed, λ ok. (ok, (λ a own. (own, refl), λ a page. page)));
  open_protocol_law = λ handle agent old m p placed.
      (refl, refl, placed, λ ok. (ok, (λ a own. (own, refl), λ a page. page)));
  allocate_pool_placed = λ size old m p placed. placed;
  locate_protocol_law = λ old m p ok. (ok, (λ a own. (own, refl), λ a page. page));
  open_volume_law = λ protocol old m p. (refl, λ ok. (ok, (λ a own. (own, refl), λ a page. page)));
  open_kernel_law = λ m p. refl;
  memory_map_law = within_buffer;
  exit_law = λ handle key m p ok. (ok, (λ a own. (own, refl), λ a page. page));
  pages_owned = λ p a page. ground arith;
}

abbrev before : World Disk
before = record {
  mem = structures;
  private = record {
    ok = true;
    pool_next = 0x1000;
    page_next = one_mib;
    seek = 0;
    blocks = λ b. 0;
    left = false;
  };
  printed = [];
}

abbrev kernel : ℕ → BootInfo → Service Disk (Unit {0})
kernel entry info m p = (tt, store_le 8 m 0x700 entry, p)

abbrev at_end : World Disk
at_end = final before (boot_run quiet sample system kernel before)

kernel_fits :
    AllFit (sample_view.file_size 1) (file_count sample_view 1) (file_segment sample_view 1)
unfolding store_le load_le store8
kernel_fits zero lt load = (omega arith, omega arith, omega arith, omega arith)
kernel_fits (suc j) lt load = absurd (omega arith)

efi_main-Entered_example :
    (boot_run quiet sample system kernel before ≡ done (value efi_load_error, at_end))
    × (info : BootInfo) × (m : Memory) × (p : Disk) × (kernel (load_le 8 m 0) info m p
        ≡ (tt, at_end.mem, at_end.private))
    × Entered sample_view sample_map offer info m p
unfolding efi_main open_graphics graphics_init save_video_mode save_xsdp open_volume init_efi_fs
    load exit_efi get_memory_map lift find_xsdp xsdp_loop takes has_signature compare_efi_guid
    load_kernel open_kernel check_identity close_kernel read_elf_identity read_elf_file
    load_program_segments segments_loop load_segment load_bytes zero_fill call ◌>>=◌ check get
    check_quiet modify_mem print_if efi_print pure function efi_error efierr store_le load_le store8
    efi_size_to_pages validate_elf_identity bad_magic
efi_main-Entered_example =
    efi_main-Entered quiet refl sample sample_view sample_map sample-Laws sample-MapLaws offer
      system sample-Promises 0 (omega arith, omega arith) kernel_fits (omega arith) (omega arith)
      refl kernel before (λ entry info m p. (λ ok. ok, λ ok. ok)) (omega arith)
      (λ q. (ground arith, ground arith)) (λ a h. ground arith) structures-Placed refl refl
