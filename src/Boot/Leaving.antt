-- ===== src/Boot/Leaving.antt =====
-- The last parts of `efi_main`: what is loaded stays so while the boot services are left.
use mathlib.Core.Path.{subst}
use flosp_os.Common.{ℕ, ◌+◌, ◌*◌, ◌≡◌, ◌∙◌, refl, sym, false, not, ◌&&◌, ◌==◌, arith, u64}
use flosp_os.Mem.{Memory}
use flosp_os.Mem.Words.{inside}
use flosp_os.Boot.Codes.{efi_buffer_too_small, efi_error}
use flosp_os.Boot.Efi.{Firmware, Build, MapInfo}
use flosp_os.Boot.Triple.{Ends, efi_error-never, then_weaken}
use flosp_os.Boot.Rules.{
  then_do, then_print_if, then_check, then_check_quiet, then_call, then_if, ◌$◌, then_pure,
  then_function,
}
use flosp_os.Boot.Uefi.{View, Laws}
use flosp_os.Boot.Main.{VideoModeInfo, System, get_memory_map, exit_efi}
use flosp_os.Boot.Pieces.{outside_fresh}
use flosp_os.Boot.Promises.{Offer, Kept, Promises}
use flosp_os.Boot.Opening.{trans-Kept}

module _ {P : Type 0} (build : Build) (quiet : build.debug ≡ false) (fw : Firmware P) (u : View P)
    (laws : Laws fw u) (o : Offer) (system : System) (promises : Promises fw u o system) where
  -- A buffer without bytes, or one that is fresh from the pool, takes nothing from the loader.
  get_memory_map-Kept :
      {R : Type 0} (old : ℕ) (info : MapInfo) (m : Memory) (p : P)
      → info.size ≡ 0
      → Ends {R = R} (get_memory_map build fw old info) (λ _ m' p'. Kept u m p m' p') m p
  unfolding get_memory_map
  get_memory_map-Kept old info m p no_room =
      let ((status, told), m1, p1) = fw.get_memory_map old info m p in
      let size = u64 (told.size + u64 (2 * told.descriptor_size)) in
      let ((status2, b), m2, p2) = fw.allocate_pool size old m1 p1 in
      let grown : MapInfo = record told { size = size } in
      let ((status3, told3), m3, p3) = fw.get_memory_map b grown m2 p2 in
      then_function
      $ then_print_if _ _
      $ then_call _ _
      $ then_do
      $ then_if (efi_error status && not (status == efi_buffer_too_small))
          (λ failed. absurd (ground (arith, efi_error-never status, failed)))
          (λ _.
            then_pure _
            $ then_call _ _
            $ then_check _ _ _
            $ then_call _ _
            $ then_check _ _ _
            $ then_pure _ (λ fine3.
              let (fine2, (own3, page3)) = promises.memory_map_law b grown m2 p2 fine3 in
              let (fine1, _, _, _, fresh, (own2, page2)) =
                laws.allocate_pool_law size old m1 p1 fine2 in
              let (fine, (own1, page1)) = promises.memory_map_law old info m p fine1 in
              (
                fine,
                (
                  λ a own.
                      let (own_1, keep1) = own1 a own in
                      let (own_2, same2) = own2 a own_1 in
                      let (own_3, keep3) = own3 a own_2 in
                      let apart : inside b size a ≡ false =
                        outside_fresh u.Owned b size p1 (λ c h. (fresh c h).1) a own_1 in
                      let outside : inside old info.size a ≡ false =
                        subst (λ n. inside old n a ≡ false) (sym no_room) (nothing old a) in
                      (own_3, keep3 apart ∙ (same2 ∙ keep1 outside)),
                  λ a page. page3 a (page2 a (page1 a page)),
                ),
              )))
    where
      nothing : (b a : ℕ) → inside b 0 a ≡ false
      nothing b a = ground arith

  pub exit_efi-Kept :
      (video : VideoModeInfo) (m : Memory) (p : P)
      → Ends (exit_efi build fw system video) (λ _ m' p'. Kept u m p m' p') m p
  unfolding exit_efi
  exit_efi-Kept video m p =
      then_print_if _ _
      $ then_do
      $ then_weaken (get_memory_map-Kept 0 _ m p refl) (λ (status, map, info) m1 p1 kept1.
        then_check_quiet _ _
        $ then_print_if _ _
        $ then_call _ _
        $ then_check _ _ _
        $ then_do
        $ then_if build.debug (λ debug. absurd (ground (arith, quiet, debug)))
            (λ _.
              then_pure _
              $ then_pure _ (
                  trans-Kept u m m1 _ p p1 _ kept1
                    (promises.exit_law system.image_handle info.key m1 p1))))
