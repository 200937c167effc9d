-- ===== src/Boot/Promises.antt =====
-- What `efi_main` of main.c relies on besides loading: the graphics protocol and the configuration table
-- of the firmware, and that the services it calls on its way leave them and the loader's memory alone.
use flosp_os.Common.{ℕ, ◌≡◌, ◌≢◌, false, ◌==◌}
use flosp_os.Mem.{Memory}
use flosp_os.Boot.Codes.{efi_success, efi_not_started}
use flosp_os.Boot.Efi.{Firmware, MapInfo}
use flosp_os.Boot.Graphics.{
  mode_of, mode_info, frame_buffer_base, horizontal_resolution, vertical_resolution,
  pixels_per_scanline,
}
use flosp_os.Boot.Search.{last_taken}
use flosp_os.Boot.Main.{VideoModeInfo, System, kernel_filepath}
use flosp_os.Boot.Uefi.{View, Keeps, KeepsAll}

-- What the firmware offers: its graphics protocol, the screen in its present mode, the XSDP that the
-- search takes, the root directory of the boot volume, and the kernel's file.
pub record Offer : Type 0 where
  pub protocol : ℕ
  pub screen : VideoModeInfo
  pub xsdp : ℕ
  pub root : ℕ
  pub image : ℕ
  pub has_screen : screen.framebuffer_pointer ≢ 0
  pub has_xsdp : xsdp ≢ 0
  pub has_image : image ≢ 0

-- The screen of an offer, with whatever back buffer.
pub record SameScreen (v w : VideoModeInfo) : Type 0 where
  pub framebuffer : v.framebuffer_pointer ≡ w.framebuffer_pointer
  pub horizontal : v.horizontal_resolution ≡ w.horizontal_resolution
  pub vertical : v.vertical_resolution ≡ w.vertical_resolution
  pub per_scanline : v.pixels_per_scanline ≡ w.pixels_per_scanline

-- The structures of the firmware stand in the memory.
pub record Placed (o : Offer) (system : System) (m : Memory) : Type 0 where
  pub has_mode : (mode_of m o.protocol == 0) ≡ false
  pub framebuffer : frame_buffer_base m (mode_of m o.protocol) ≡ o.screen.framebuffer_pointer
  pub horizontal :
      horizontal_resolution m (mode_info m (mode_of m o.protocol)) ≡ o.screen.horizontal_resolution
  pub vertical :
      vertical_resolution m (mode_info m (mode_of m o.protocol)) ≡ o.screen.vertical_resolution
  pub per_scanline :
      pixels_per_scanline m (mode_info m (mode_of m o.protocol)) ≡ o.screen.pixels_per_scanline
  pub xsdp : last_taken m system.configuration_table system.number_of_table_entries ≡ o.xsdp

module _ {P : Type 0} (u : View P) where
  -- If no service has failed up to the second state, none has up to the first, and what is the loader's
  -- is kept.
  abbrev pub Kept : Memory → P → Memory → P → Type 0
  Kept m p m' p' = u.Fine p' → u.Fine p × KeepsAll u m p m' p'

module _ {P : Type 0} (fw : Firmware P) (u : View P) (o : Offer) (system : System) where
  pub record Promises : Type 0 where
    pub watchdog_law :
        (timeout code size text : ℕ) (m : Memory) (p : P)
        → Placed o system m
        → (let (_, m', p') = fw.set_watchdog_timer timeout code size text m p in
            Placed o system m' × Kept u m p m' p')
    pub locate_handles_law :
        (old : ℕ × ℕ) (m : Memory) (p : P)
        → Placed o system m
        → (let ((_, count, _), m', p') = fw.locate_handle_buffer old m p in
            ((count == 0) ≡ false) × Placed o system m' × Kept u m p m' p')
    pub open_protocol_law :
        (handle agent old : ℕ) (m : Memory) (p : P)
        → Placed o system m
        → (let ((status, protocol), m', p') = fw.open_protocol handle agent old m p in
            ((status == efi_not_started) ≡ false)
            × (protocol ≡ o.protocol)
            × Placed o system m'
            × Kept u m p m' p')
    pub allocate_pool_placed :
        (size old : ℕ) (m : Memory) (p : P)
        → Placed o system m
        → Placed o system (fw.allocate_pool size old m p).1
    pub locate_protocol_law :
        (old : ℕ) (m : Memory) (p : P)
        → (let (_, m', p') = fw.locate_protocol old m p in Kept u m p m' p')
    pub open_volume_law :
        (protocol old : ℕ) (m : Memory) (p : P)
        → (let ((_, root), m', p') = fw.open_volume protocol old m p in
            (root ≡ o.root) × Kept u m p m' p')
    pub open_kernel_law :
        (m : Memory) (p : P)
        → (fw.open_file o.root kernel_filepath 0 m p).0 ≡ (efi_success, o.image)
    pub memory_map_law :
        (b : ℕ) (info : MapInfo) (m : Memory) (p : P)
        → (let (_, m', p') = fw.get_memory_map b info m p in
            u.Fine p' → u.Fine p × Keeps u b info.size m p m' p')
    pub exit_law :
        (handle key : ℕ) (m : Memory) (p : P)
        → (let (_, m', p') = fw.exit_boot_services handle key m p in Kept u m p m' p')
    -- The pages of the loader are its own.
    pub pages_owned : (p : P) (a : ℕ) → u.Page p a → u.Owned p a
