-- ===== src/Boot/EndTests.antt =====
-- The end of the loader, with the memory map of the sample, which grows when the pool is used.
use flosp_os.Common.{ℕ, ◌≡◌, refl, [], true, false, arith}
use flosp_os.Common.Run.{done}
use flosp_os.Boot.Efi.{
  World, MapInfo, Build, value, ◌>>=◌, call, check, check_quiet, print_if, efi_print, pure,
  function,
}
use flosp_os.Boot.Codes.{efi_error, efierr}
use flosp_os.Boot.Triple.{final}
use flosp_os.Boot.Main.{System, VideoModeInfo, get_memory_map, exit_efi}
use flosp_os.Boot.MemoryMap.{exit_run, Handed, exit_efi-left}
use flosp_os.Boot.Sample.{Disk, one_mib, sample, sample_map, sample-MapLaws}

abbrev quiet : Build
quiet = record { debug = false; info = false; garbage = λ i. 7 }

abbrev system : System
system = record { image_handle = 3; number_of_table_entries = 0; configuration_table = 0 }

abbrev video : VideoModeInfo
video = record {
  framebuffer_pointer = 0x80000000;
  backbuffer_pointer = 0x900000;
  horizontal_resolution = 800;
  vertical_resolution = 600;
  pixels_per_scanline = 800;
}

abbrev before : World Disk
before = record {
  mem = λ a. 9;
  private = record {
    ok = true;
    pool_next = 0x1000;
    page_next = one_mib;
    seek = 0;
    blocks = λ b. 0;
    left = false;
  };
  printed = [];
}

abbrev at_end : World Disk
at_end = final before (exit_run quiet sample system video before)

exit_efi-left_example :
    (given : ℕ × MapInfo) × (exit_run quiet sample system video before ≡ done (value given, at_end))
    × Handed sample_map given.0 given.1 at_end.mem at_end.private
unfolding exit_efi get_memory_map ◌>>=◌ call check check_quiet print_if efi_print pure function
    efi_error efierr
exit_efi-left_example =
    exit_efi-left quiet sample sample_map sample-MapLaws refl system video before (omega arith)
      (omega arith) refl
