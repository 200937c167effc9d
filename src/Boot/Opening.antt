-- ===== src/Boot/Opening.antt =====
-- The first parts of `efi_main`, up to the boot volume.
use mathlib.Core.Path.{subst}
use flosp_os.Common.{sym, ap, ℕ, ◌^◌, ◌<◌, ◌≡◌, refl, ◌∙◌, false, ◌||◌, ◌==◌, arith}
use flosp_os.Mem.{Memory, load_le}
use flosp_os.Boot.Codes.{efi_error, efi_not_started}
use flosp_os.Boot.Efi.{Firmware, Build}
use flosp_os.Boot.Triple.{Ends, efi_error-never, lift-Ends, then_weaken}
use flosp_os.Boot.Rules.{
  then_do, then_get, then_print_if, then_check, then_check_quiet, then_call, then_if, ◌$◌,
  then_pure, then_function,
}
use flosp_os.Boot.Uefi.{View, Laws}
use flosp_os.Boot.Headers.{KeepsAll_trans}
use flosp_os.Boot.Graphics.{
  mode_of, mode_info, frame_buffer_base, horizontal_resolution, vertical_resolution,
  pixels_per_scanline, graphics_init, GraphicsService,
}
use flosp_os.Boot.Search.{last_taken, find_xsdp-last_taken}
use flosp_os.Boot.Main.{System, init_efi_fs, open_graphics, save_video_mode, save_xsdp, open_volume}
use flosp_os.Boot.Promises.{Offer, SameScreen, Placed, Kept, Promises}

module _ {P : Type 0} (u : View P) where
  pub refl-Kept : (m : Memory) (p : P) → Kept u m p m p
  refl-Kept m p fine = (fine, (λ a own. (own, refl), λ a page. page))

  pub trans-Kept :
      (m m1 m2 : Memory) (p p1 p2 : P) → Kept u m p m1 p1 → Kept u m1 p1 m2 p2 → Kept u m p m2 p2
  trans-Kept m m1 m2 p p1 p2 first second fine2 =
      let (fine1, keeps2) = second fine2 in
      let (fine, keeps1) = first fine1 in (fine, KeepsAll_trans u m m1 m2 p p1 p2 keeps1 keeps2)

module _ {P : Type 0} (build : Build) (quiet : build.debug ≡ false) (fw : Firmware P) (u : View P)
    (laws : Laws fw u) (o : Offer) (system : System) (promises : Promises fw u o system) where
  graphics_init-Kept :
      {R : Type 0} (service : GraphicsService) (m : Memory) (p : P)
      → Placed o system m
      → Ends {R = R}
          (graphics_init build fw service)
          (λ _ m' p'. Placed o system m' × Kept u m p m' p')
          m
          p
  unfolding graphics_init
  graphics_init-Kept service m p placed =
      let old : ℕ × ℕ = (service.handle_count, service.handle_buffer) in
      let (some_handle, placed1, kept1) = promises.locate_handles_law old m p placed in
      then_function
      $ then_print_if _ _
      $ then_call _ _
      $ then_check _ _ _
      $ then_do
      $ then_if ((fw.locate_handle_buffer old m p).0.1 == 0)
          (λ missing. absurd (ground (arith, some_handle, missing)))
          (λ _. then_pure _ (then_pure _ (placed1, kept1)))

  pub open_graphics-Kept :
      (m : Memory) (p : P)
      → Placed o system m
      → Ends
          (open_graphics build fw system)
          (λ protocol m' p'. (protocol ≡ o.protocol) × Placed o system m' × Kept u m p m' p')
          m
          p
  unfolding open_graphics
  open_graphics-Kept m p placed =
      then_do
      $ then_weaken (graphics_init-Kept _ m p placed) (λ (status, service) m1 p1 (placed1, kept1).
        then_do
        $ then_if (efi_error status)
            (λ failed. absurd (ground (arith, efi_error-never status, failed)))
            (λ _. then_pure _ $ then_get _ $ λ printed.
              let handle = load_le 8 m1 service.handle_buffer in
              let ((status2, protocol), m2, p2) =
                fw.open_protocol handle system.image_handle 0 m1 p1 in
              let (started, same, placed2, kept2) =
                promises.open_protocol_law handle system.image_handle 0 m1 p1 placed1 in
              let with_mode : (mode_of m2 protocol == 0) ≡ false =
                subst (λ r. (mode_of m2 r == 0) ≡ false) (sym same) placed2.has_mode in
              then_call _ _
              $ then_do
              $ then_if (efi_error status2)
                  (λ failed. absurd (ground (arith, efi_error-never status2, failed)))
                  (λ _. then_pure _ $ then_get _ $ λ printed.
                    then_do
                    $ then_if (status2 == efi_not_started || mode_of m2 protocol == 0)
                        (λ unset. absurd (ground (arith, started, with_mode, unset)))
                        (λ _. then_pure _ (
                          then_pure _ (same, placed2, trans-Kept u m m1 m2 p p1 p2 kept1 kept2))))))

  pub save_video_mode-Kept :
      (protocol : ℕ) (m : Memory) (p : P)
      → protocol ≡ o.protocol
      → Placed o system m
      → Ends
          (save_video_mode build fw protocol)
          (λ video m' p'. SameScreen video o.screen × Placed o system m' × Kept u m p m' p')
          m
          p
  unfolding save_video_mode
  save_video_mode-Kept protocol m p same placed =
      let mode : mode_of m protocol ≡ mode_of m o.protocol = ap (mode_of m) same in
      let base : frame_buffer_base m (mode_of m protocol) ≡ o.screen.framebuffer_pointer =
        ap (frame_buffer_base m) mode ∙ placed.framebuffer in
      let info : mode_info m (mode_of m protocol) ≡ mode_info m (mode_of m o.protocol) =
        ap (mode_info m) mode in
      then_get _ $ λ printed.
      then_do
      $ then_if (frame_buffer_base m (mode_of m protocol) == 0)
          (λ missing. absurd (ground (arith, base, o.has_screen, missing)))
          (λ _.
            then_pure _
            $ then_call _ _
            $ then_pure _ (
              record {
                framebuffer = base;
                horizontal = ap (horizontal_resolution m) info ∙ placed.horizontal;
                vertical = ap (vertical_resolution m) info ∙ placed.vertical;
                per_scanline = ap (pixels_per_scanline m) info ∙ placed.per_scanline;
              },
              promises.allocate_pool_placed _ _ m p placed,
              λ fine'.
                  let (fine, _, _, _, _, keeps) = laws.allocate_pool_law _ _ m p fine' in
                  (fine, keeps),
            ))

  pub save_xsdp-Kept :
      (m : Memory) (p : P)
      → system.number_of_table_entries < 2 ^ 16
      → Placed o system m
      → Ends (save_xsdp build fw system) (λ xsdp m' p'. (xsdp ≡ o.xsdp) × Kept u m p m' p') m p
  unfolding save_xsdp
  save_xsdp-Kept m p small placed =
      let xsdp = last_taken m system.configuration_table system.number_of_table_entries in
      then_get _ $ λ printed.
      then_do
      $ lift-Ends _ m p _ xsdp
          (find_xsdp-last_taken m system.configuration_table system.number_of_table_entries small)
          (then_do
            $ then_if (xsdp == 0)
                (λ missing. absurd (ground (arith, placed.xsdp, o.has_xsdp, missing)))
                (λ _. then_pure _ (then_pure _ (placed.xsdp, refl-Kept u m p))))

  init_efi_fs-Kept :
      {R : Type 0} (protocol : ℕ) (m : Memory) (p : P)
      → Ends {R = R} (init_efi_fs build fw protocol) (λ _ m' p'. Kept u m p m' p') m p
  unfolding init_efi_fs
  init_efi_fs-Kept protocol m p =
      then_function
      $ then_print_if _ _
      $ then_call _ _
      $ then_check _ _ _
      $ then_print_if _ _
      $ then_pure _ (promises.locate_protocol_law protocol m p)

  pub open_volume-Kept :
      (m : Memory) (p : P)
      → Ends (open_volume build fw) (λ root m' p'. (root ≡ o.root) × Kept u m p m' p') m p
  unfolding open_volume
  open_volume-Kept m p =
      then_do
      $ then_weaken (init_efi_fs-Kept 0 m p) (λ (status, protocol) m1 p1 kept1.
        let (same, kept2) = promises.open_volume_law protocol 0 m1 p1 in
        then_check_quiet _ _
        $ then_print_if _ _
        $ then_call _ _
        $ then_do
        $ then_if build.debug (λ debug. absurd (ground (arith, quiet, debug)))
            (λ _.
              then_pure _
              $ then_check _ _ _
              $ then_print_if _ _
              $ then_pure _ (same, trans-Kept u m m1 _ p p1 _ kept1 kept2)))
