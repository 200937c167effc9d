-- ===== src/Boot/Graphics.antt =====
-- src/bootloader/src/video.c: the graphics output protocol. The protocol and its mode are structures
-- of the firmware in the memory.
use flosp_os.Common.{ℕ, zero, suc, ◌+◌, ◌^◌, Bool, true, ◌&&◌, ltb, ◌==◌, u32, if◌then◌else◌, codes}
use flosp_os.Mem.{Memory, load_le}
use flosp_os.Text.{Text}
use flosp_os.Boot.Codes.{efi_unsupported, efi_error}
use flosp_os.Boot.Efi.{
  Firmware, Build, L, ◌>>=◌, ◌>>◌, pure, return, call, hang, get, skip, function, check,
  check_quiet, efi_print, efi_printnum, efi_printhex, print_if,
}

-- video.h: TARGET_SCREEN_WIDTH, TARGET_SCREEN_HEIGHT, TARGET_SCREEN_PIXEL_FORMAT.
abbrev pub target_screen_width : ℕ
target_screen_width = 800

abbrev pub target_screen_height : ℕ
target_screen_height = 600

abbrev pub target_screen_pixel_format : ℕ
target_screen_pixel_format = 1

-- UefiGraphicsService
pub record GraphicsService : Type 0 where
  pub handle_buffer : ℕ
  pub handle_count : ℕ

-- `Protocol->Mode` and its fields.
abbrev pub mode_of : Memory → ℕ → ℕ
mode_of m protocol = load_le 8 m (protocol + 24)

abbrev pub max_mode : Memory → ℕ → ℕ
max_mode m mode = load_le 4 m mode

abbrev pub mode_info : Memory → ℕ → ℕ
mode_info m mode = load_le 8 m (mode + 8)

abbrev pub frame_buffer_base : Memory → ℕ → ℕ
frame_buffer_base m mode = load_le 8 m (mode + 24)

-- EFI_GRAPHICS_OUTPUT_MODE_INFORMATION
abbrev pub horizontal_resolution : Memory → ℕ → ℕ
horizontal_resolution m info = load_le 4 m (info + 4)

abbrev pub vertical_resolution : Memory → ℕ → ℕ
vertical_resolution m info = load_le 4 m (info + 8)

abbrev pub pixel_format : Memory → ℕ → ℕ
pixel_format m info = load_le 4 m (info + 12)

abbrev pub pixels_per_scanline : Memory → ℕ → ℕ
pixels_per_scanline m info = load_le 4 m (info + 32)

module _ {P R : Type 0} (build : Build) where
  -- `video mode number` lines
  abbrev mode_line : Text → ℕ → L P R (Unit {0})
  mode_line caption i = do efi_print caption; efi_printnum build i; efi_print (codes "\r\n")

  -- The fields of KERNEL_BOOT_VIDEO_MODE_INFO that it prints.
  unfoldable pub print_video_mode_info : ℕ → ℕ → ℕ → ℕ → L P R (Unit {0})
  print_video_mode_info framebuffer horizontal vertical per_scanline = do
    efi_print (codes "Debug: Current video mode info:\r\n")
    efi_print (codes "    Framebuffer Address: ")
    efi_printhex build framebuffer true
    efi_print (codes "\r\n")
    mode_line (codes "    Horizontal Resolution: ") horizontal
    mode_line (codes "    Vertical Resolution: ") vertical
    mode_line (codes "    Pixels Per Scanline: ") per_scanline

-- The three tests that a mode must pass.
unfoldable pub is_target : ℕ → ℕ → ℕ → Memory → ℕ → Bool
is_target width height format m info =
    horizontal_resolution m info == width
    && (vertical_resolution m info == height && pixel_format m info == format)

module _ {P : Type 0} (build : Build) (fw : Firmware P) where
  unfoldable pub graphics_init : {R : Type 0} → GraphicsService → L P R (ℕ × GraphicsService)
  graphics_init service = function (do
    print_if build.debug (codes "Debug: Initializing the graphics output protocol service\r\n")
    (status, count, buffer) ←
        call (fw.locate_handle_buffer (service.handle_count, service.handle_buffer))
    let service' : GraphicsService = record { handle_buffer = buffer; handle_count = count }
    check status (codes "Fatal: Error locating graphics output protocol handle buffer\r\n")
        (status, service')
    let none_found = (do
      efi_print (codes "Fatal: Error locating any graphics output protocol handles\r\n")
      hang)
    if count == 0 then none_found else skip
    pure (status, service'))

  -- The rounds from `i` on; `info` is `ModeInfo` and `found` is `*GraphicsMode`.
  unfoldable pub mode_loop : ℕ → ℕ → ℕ → ℕ → ℕ → ℕ → ℕ → ℕ → L P (ℕ × ℕ) (ℕ × ℕ)
  mode_loop zero protocol width height format i info found = hang
  mode_loop (suc fuel) protocol width height format i info found = do
    w ← get
    let round = (do
      (if build.debug then mode_line build (codes "Debug: Testing video mode number: ") i else skip)
      (status, info') ← call (fw.query_mode protocol i info)
      (if efi_error status
          then mode_line build (codes "Fatal: Error querying video mode number: ") i
          else skip)
      w' ← get
      let matched = (do
        print_if build.debug (codes "Debug: Matching video mode detected\r\n")
        return (status, i))
      if is_target width height format w'.mem info' then matched else skip
      mode_loop fuel protocol width height format (u32 (i + 1)) info' found)
    if ltb i (max_mode w.mem (mode_of w.mem protocol)) then round else pure (efi_unsupported, found)

  -- `MaxMode` and `i` are 32 bits wide, so the loop ends before the fuel does.
  unfoldable pub find_graphics_mode : {R : Type 0} → ℕ → ℕ → ℕ → ℕ → ℕ → L P R (ℕ × ℕ)
  find_graphics_mode protocol width height format found =
      function (mode_loop (2 ^ 32) protocol width height format 0 (build.garbage 0) found)

  unfoldable pub set_graphics_mode : {R : Type 0} → ℕ → ℕ → ℕ → ℕ → L P R ℕ
  set_graphics_mode protocol width height format = function (do
    (status, found) ← find_graphics_mode protocol width height format 0
    check_quiet status status
    status ← call (fw.set_mode protocol found)
    check status (codes "Fatal: Error setting graphics mode\r\n") status
    status ← call fw.clear_screen
    check status (codes "Fatal: Error clearing console screen\r\n") status
    status ← call (fw.reset 0)
    check status (codes "Fatal: Error resetting console output\r\n") status
    pure status)
