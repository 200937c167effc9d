-- ===== src/Boot/Main.antt =====
-- src/bootloader/src/main.c and fs.c: `efi_main`, in the order of its parts.
use flosp_os.Common.{ℕ, ◌+◌, ◌*◌, true, not, ◌&&◌, ◌||◌, ◌==◌, u32, u64, if◌then◌else◌, codes}
use flosp_os.Mem.{load_le}
use flosp_os.Text.{Text}
use flosp_os.Boot.Codes.{
  efi_error, efi_load_error, efi_not_found, efi_not_started, efi_buffer_too_small,
}
use flosp_os.Boot.Efi.{
  Service, MapInfo, Firmware, Build, L, ◌>>=◌, ◌>>◌, pure, return, call, lift, hang, get, skip,
  function, check, check_quiet, efi_print, efi_printhex, print_if,
}
use flosp_os.Boot.Graphics.{
  mode_of, mode_info, frame_buffer_base, horizontal_resolution, vertical_resolution,
  pixels_per_scanline, target_screen_width, target_screen_height, target_screen_pixel_format,
  graphics_init, set_graphics_mode, print_video_mode_info,
}
use flosp_os.Boot.Xsdp.{find_xsdp}
use flosp_os.Boot.Kernel.{load_kernel}

-- KERNEL_BOOT_VIDEO_MODE_INFO and KERNEL_BOOT_INFO
pub record VideoModeInfo : Type 0 where
  pub framebuffer_pointer : ℕ
  pub backbuffer_pointer : ℕ
  pub horizontal_resolution : ℕ
  pub vertical_resolution : ℕ
  pub pixels_per_scanline : ℕ

pub record BootInfo : Type 0 where
  pub memory_map : ℕ
  pub memory_map_size : ℕ
  pub memory_map_descriptor_size : ℕ
  pub video_mode_info : VideoModeInfo
  pub xsdp_table : ℕ

-- The fields of EFI_SYSTEM_TABLE that are not services, and the handle of the loader.
pub record System : Type 0 where
  pub image_handle : ℕ
  pub number_of_table_entries : ℕ
  pub configuration_table : ℕ

-- `KernelEntryPoint` stays the null pointer.
abbrev pub kernel_entry_point : ℕ
kernel_entry_point = 0

abbrev pub kernel_filepath : Text
kernel_filepath = codes "\\kernel.elf"

module _ {P : Type 0} (build : Build) (fw : Firmware P) where
  unfoldable pub init_efi_fs : {R : Type 0} → ℕ → L P R (ℕ × ℕ)
  init_efi_fs protocol = function (do
    print_if build.debug (codes "Debug: Loading EFI filesystem...\r\n")
    (status, protocol) ← call (fw.locate_protocol protocol)
    check status (codes "Fatal: Error locating Simple File System Protocol\r\n") (status, protocol)
    print_if build.debug (codes "Debug: EFI filesystem loaded\r\n")
    pure (status, protocol))

  -- The map's address and what the firmware told of it.
  unfoldable pub get_memory_map : {R : Type 0} → ℕ → MapInfo → L P R (ℕ × ℕ × MapInfo)
  get_memory_map map info = function (do
    print_if build.debug (codes "Debug: Allocating memory map\r\n")
    (status, info) ← call (fw.get_memory_map map info)
    let failed = (do
      efi_print (codes "Fatal: Error getting memory map size\r\n")
      return (status, map, info))
    if efi_error status && not (status == efi_buffer_too_small) then failed else skip
    let size = u64 (info.size + u64 (2 * info.descriptor_size))
    (status, map) ← call (fw.allocate_pool size map)
    check status (codes "Fatal: Error allocating memory map buffer\r\n")
        (status, map, record info { size = size })
    (status, info) ← call (fw.get_memory_map map (record info { size = size }))
    check status (codes "Fatal: Error getting memory map\r\n") (status, map, info)
    pure (status, map, info))

  -- The graphics protocol of the first handle, with a mode.
  unfoldable pub open_graphics : System → L P ℕ ℕ
  open_graphics system = do
    (status, service) ←
        graphics_init build fw
          (record { handle_buffer = build.garbage 0; handle_count = build.garbage 1 })
    let other = (do
      efi_print (codes "Fatal: Error initializing graphics service\r\n")
      return status)
    let absent = (do
      print_if build.debug (codes "Debug: Unable to locate graphics device\r\n")
      return status)
    (if efi_error status then (if status == efi_not_found then absent else other) else skip)
    w ← get
    (status, protocol) ←
        call (fw.open_protocol (load_le 8 w.mem service.handle_buffer) system.image_handle 0)
    let failed = (do
      efi_print (codes "Fatal: Failed to open graphics output protocol on the current console\r\n")
      hang)
    if efi_error status then failed else skip
    w ← get
    let set = (do
      status' ←
          set_graphics_mode build fw protocol target_screen_width target_screen_height
            target_screen_pixel_format
      check_quiet status' status')
    if status == efi_not_started || mode_of w.mem protocol == 0 then set else skip
    pure protocol

  -- What the kernel is told of the screen, and its back buffer.
  unfoldable pub save_video_mode : ℕ → L P ℕ VideoModeInfo
  save_video_mode protocol = do
    w ← get
    let base = frame_buffer_base w.mem (mode_of w.mem protocol)
    let info = mode_info w.mem (mode_of w.mem protocol)
    let missing = (do efi_print (codes "Fatal: Framebuffer address is NULL"); hang)
    if base == 0 then missing else skip
    let vertical = vertical_resolution w.mem info
    let per_scanline = pixels_per_scanline w.mem info
    (_, backbuffer) ← call (fw.allocate_pool (u32 (vertical * per_scanline * 4)) (build.garbage 2))
    pure (record {
      framebuffer_pointer = base;
      backbuffer_pointer = backbuffer;
      horizontal_resolution = horizontal_resolution w.mem info;
      vertical_resolution = vertical;
      pixels_per_scanline = per_scanline;
    })

  unfoldable pub save_xsdp : System → L P ℕ ℕ
  save_xsdp system = do
    w ← get
    xsdp ← lift (find_xsdp w.mem system.configuration_table system.number_of_table_entries)
    let missing = (do
      efi_print (codes "Fatal: Unable to locate ACPI v2+ XSDP\r\n")
      return efi_not_found)
    if xsdp == 0 then missing else skip
    pure xsdp

  -- The boot volume's root directory.
  unfoldable pub open_volume : L P ℕ ℕ
  open_volume = do
    (status, protocol) ← init_efi_fs 0
    check_quiet status status
    print_if build.debug (codes "Debug: Opening EFI boot volume\r\n")
    (status, root) ← call (fw.open_volume protocol 0)
    let address = (do
      efi_print (codes "Debug: Root file system address: ")
      efi_printhex build root true
      efi_print (codes "\r\n"))
    if build.debug then address else skip
    check status (codes "Fatal: Error opening EFI boot volume\r\n") status
    print_if build.debug (codes "Debug: EFI boot volume opened\r\n")
    pure root

  -- The kernel is loaded, and its entry point left at the null pointer.
  unfoldable pub load : ℕ → L P ℕ (Unit {0})
  load root = do
    status ← load_kernel build fw root kernel_filepath kernel_entry_point
    check_quiet status status
    w ← get
    let located = (do
      efi_print (codes "Debug: Kernel located in memory at entry point: ")
      efi_printhex build (load_le 8 w.mem kernel_entry_point) true
      efi_print (codes "\r\n"))
    if build.debug then located else skip

  -- The memory map is saved and the boot services are left.
  unfoldable pub exit_efi : System → VideoModeInfo → L P ℕ (ℕ × MapInfo)
  exit_efi system video = do
    print_if build.debug (codes "Debug: Saving memory map\r\n")
    (status, map, info) ←
        get_memory_map 0 (record { size = 0; key = 0; descriptor_size = 0; descriptor_version = 0 })
    check_quiet status status
    print_if build.debug (codes "Debug: Exiting EFI boot services\r\n")
    status ← call (fw.exit_boot_services system.image_handle info.key)
    check status (codes "Fatal: Error exiting EFI boot services\r\n") status
    (if build.debug
        then print_video_mode_info build video.framebuffer_pointer video.horizontal_resolution
            video.vertical_resolution video.pixels_per_scanline
        else skip)
    pure (map, info)

  -- `kernel` is the code at an address, which is given the boot information.
  unfoldable pub efi_main : (ℕ → BootInfo → Service P (Unit {0})) → System → L P ℕ ℕ
  efi_main kernel system = function (do
    efi_print (codes "Booting Flosp...\r\n")
    print_if build.debug (codes "Debug: Disabling watchdog\r\n")
    status ← call (fw.set_watchdog_timer 0 0 0 0)
    check status (codes "Fatal: Error disabling watchdog timer\r\n") status
    protocol ← open_graphics system
    video ← save_video_mode protocol
    xsdp ← save_xsdp system
    root ← open_volume
    load root
    (map, info) ← exit_efi system video
    print_if build.debug (codes "Debug: Entering kernel\r\n")
    let boot_info : BootInfo = record {
      memory_map = map;
      memory_map_size = info.size;
      memory_map_descriptor_size = info.descriptor_size;
      video_mode_info = video;
      xsdp_table = xsdp;
    }
    w ← get
    call (kernel (load_le 8 w.mem kernel_entry_point) boot_info)
    pure efi_load_error)
