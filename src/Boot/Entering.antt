-- ===== src/Boot/Entering.antt =====
-- `efi_main` of main.c: from the first message to the kernel.
use mathlib.Core.Path.{subst}
use flosp_os.Common.{ℕ, ◌+◌, ◌*◌, ◌^◌, ◌<◌, ◌≡◌, ◌∙◌, sym, ap, refl, true, false, arith, codes}
use flosp_os.Common.Run.{Run, done}
use flosp_os.Mem.{Memory, load_le}
use flosp_os.Mem.Words.{inside}
use flosp_os.Boot.Codes.{efi_load_error}
use flosp_os.Boot.Efi.{
  Firmware, Build, Service, World, Outcome, value, ◌>>=◌, ◌>>◌, print_if, get, call, pure,
}
use flosp_os.Boot.Triple.{Ends, both-Ends, final, Ends-final, then_weaken}
use flosp_os.Boot.Rules.{
  then_do, then_get, then_print, then_print_if, then_check, then_check_quiet, then_call, then_if,
  ◌$◌, then_pure, then_function,
}
use flosp_os.Boot.Uefi.{View, Laws, KeepsAll}
use flosp_os.Boot.Segments.{pt_load}
use flosp_os.Boot.Table.{AllFit}
use flosp_os.Boot.Headers.{file_count, HeadersFit}
use flosp_os.Boot.FileTable.{file_segment}
use flosp_os.Boot.Kept.{KernelLoaded, kernel_kept}
use flosp_os.Boot.LoadKernel.{load_kernel-Loaded}
use flosp_os.Boot.MemoryMap.{MapView, MapLaws, Handed, exit_efi-Left}
use flosp_os.Boot.Promises.{Offer, SameScreen, Placed, Kept, Promises}
use flosp_os.Boot.Opening.{
  trans-Kept, open_graphics-Kept, save_video_mode-Kept, save_xsdp-Kept, open_volume-Kept,
}
use flosp_os.Boot.Leaving.{exit_efi-Kept}
use flosp_os.Boot.Main.{
  VideoModeInfo, BootInfo, System, kernel_entry_point, kernel_filepath, load, exit_efi, efi_main,
}

-- What the kernel finds: itself in the memory, the boot services left, and what it is told of the memory
-- map, the screen and the XSDP is so.
pub record Entered {P : Type 0} (u : View P) (v : MapView P) (o : Offer) (info : BootInfo)
    (m : Memory) (p : P) : Type 0 where
  pub kernel : KernelLoaded u o.image kernel_entry_point m p
  pub left : v.Left p
  pub map_size : info.memory_map_size ≡ v.map_size p
  pub descriptor_size : info.memory_map_descriptor_size ≡ v.descriptor_bytes
  pub map : (i : ℕ) → i < v.map_size p → m (info.memory_map + i) ≡ v.map p i
  pub screen : SameScreen info.video_mode_info o.screen
  pub xsdp : info.xsdp_table ≡ o.xsdp

module _ {P : Type 0} (build : Build) (fw : Firmware P) (system : System) where
  abbrev pub boot_run :
      (ℕ → BootInfo → Service P (Unit {0})) → World P → Run (Outcome ℕ ℕ × World P)
  boot_run kernel w = efi_main build fw kernel system w

module _ {P : Type 0} (u : View P) where
  -- The bytes at the null pointer, which takes the entry point, lie in a page that the loader has allocated.
  abbrev pub EntryPaged : P → Type 0
  EntryPaged p = (a : ℕ) → inside kernel_entry_point 8 a ≡ true → u.Page p a

  -- They are its own, too.
  abbrev pub EntryOwned : Memory → P → Type 0
  EntryOwned m p = (a : ℕ) → inside kernel_entry_point 8 a ≡ true → u.Page p a × u.Owned p a

module _ {P : Type 0} (u : View P) (v : MapView P) where
  -- A kernel that hides no failure of a service.
  abbrev pub IsHonest : (ℕ → BootInfo → Service P (Unit {0})) → Type 0
  IsHonest kernel =
      (entry : ℕ) (info : BootInfo) (m : Memory) (p : P)
      → (let (_, m', p') = kernel entry info m p in (u.Fine p' → u.Fine p) × (v.Fine p' → v.Fine p))

module _ {P : Type 0} (build : Build) (quiet : build.debug ≡ false) (fw : Firmware P) (u : View P)
    (v : MapView P) (laws : Laws fw u) (map_laws : MapLaws fw v) (o : Offer) (system : System)
    (promises : Promises fw u o system) where
  module _ (j : ℕ) (fits : HeadersFit u o.image)
      (fit : AllFit (u.file_size o.image) (file_count u o.image) (file_segment u o.image))
      (small : file_count u o.image < 2 ^ 16) (lt : j < file_count u o.image)
      (pt : (file_segment u o.image j).kind ≡ pt_load) where
    -- The loaded kernel, with its entry point in the memory still the loader's.
    abbrev pub LoadedFrom : Memory → P → Unit {0} → Memory → P → Type 0
    LoadedFrom m p _ m' p' =
        u.Fine p' → u.Fine p × (EntryOwned u m p → KernelLoaded u o.image kernel_entry_point m' p')

    exit_efi-both :
        (video : VideoModeInfo) (m : Memory) (p : P)
        → (0 < v.map_size p) × (v.map_size p + 2 * v.descriptor_bytes < 2 ^ 64)
        → Ends
            (exit_efi build fw system video)
            (λ (map, info) m' p'. (v.Fine p' → Handed v map info m' p') × Kept u m p m' p')
            m
            p
    exit_efi-both video m p (some_map, room) =
        both-Ends (exit_efi-Left build fw v map_laws quiet system video m p some_map room)
          (exit_efi-Kept build quiet fw u laws o system promises video m p)

    load-Loaded : (m : Memory) (p : P) → Ends (load build fw o.root) (LoadedFrom m p) m p
    unfolding load
    load-Loaded m p =
        then_do
        $ then_weaken
            (load_kernel-Loaded build fw u laws o.root kernel_filepath o.image kernel_entry_point
              quiet j fits fit small lt pt m p (promises.open_kernel_law m p) o.has_image)
            (λ status m1 p1 loaded. then_check_quiet _ _ $ then_get _ $ λ printed.
              then_if build.debug (λ debug. absurd (ground (arith, quiet, debug)))
                (λ _.
                  then_pure _
                    (λ fine1. let (fine, all) = loaded fine1 in (fine, λ entry. (all entry).1))))

    still_loaded :
        (m m' : Memory) (p p' : P)
        → KeepsAll u m p m' p'
        → KernelLoaded u o.image kernel_entry_point m p
        → KernelLoaded u o.image kernel_entry_point m' p'
    still_loaded m m' p p' keeps loaded =
        kernel_kept u o.image kernel_entry_point m m' p p' fit
          (λ a own page. (keeps.1 a page, (keeps.0 a own).1))
          (λ a h. (loaded.entry_page a h, promises.pages_owned p a (loaded.entry_page a h)))
          loaded.entry_stored
          (λ i below kind.
            let (held, zeros, pages) = loaded.segments_there i below kind in
            (held, zeros, λ a h. (pages a h, promises.pages_owned p a (pages a h))))

    owned_later :
        (m m' : Memory) (p p' : P) → KeepsAll u m p m' p' → EntryOwned u m p → EntryOwned u m' p'
    owned_later m m' p p' keeps entry a h =
        let (page, own) = entry a h in (keeps.1 a page, (keeps.0 a own).0)

    -- The kernel was entered with the boot information `info`, in a state that it finds as it should.
    abbrev pub RanKernel : (ℕ → BootInfo → Service P (Unit {0})) → ℕ → Memory → P → Type 0
    RanKernel kernel status m' p' =
        (info : BootInfo) × (m : Memory) × (p : P) × (status ≡ efi_load_error)
        × (kernel (load_le 8 m kernel_entry_point) info m p ≡ (tt, m', p'))
        × (u.Fine p → v.Fine p → Entered u v o info m p)

    -- The end of `efi_main`, once the kernel is loaded.
    leave_and_enter :
        (kernel : ℕ → BootInfo → Service P (Unit {0})) (video : VideoModeInfo) (xsdp : ℕ)
        (m : Memory) (p : P)
        → (0 < v.map_size p) × (v.map_size p + 2 * v.descriptor_bytes < 2 ^ 64)
        → SameScreen video o.screen
        → xsdp ≡ o.xsdp
        → (u.Fine p → KernelLoaded u o.image kernel_entry_point m p)
        → Ends {R = ℕ}
            (do
              (map, info) ← exit_efi build fw system video
              print_if build.debug (codes "Debug: Entering kernel\r\n")
              let boot_info : BootInfo = record {
                memory_map = map;
                memory_map_size = info.size;
                memory_map_descriptor_size = info.descriptor_size;
                video_mode_info = video;
                xsdp_table = xsdp;
              }
              w ← get
              call (kernel (load_le 8 w.mem kernel_entry_point) boot_info)
              pure efi_load_error)
            (RanKernel kernel)
            m
            p
    leave_and_enter kernel video xsdp m p room screen same_xsdp loaded =
        then_do
        $ then_weaken (exit_efi-both video m p room) (λ (map, info) m' p' (handed, kept).
          then_print_if _ _ $ then_get _ $ λ printed.
          then_call _ _
          $ then_pure _ (
            _,
            m',
            p',
            refl,
            refl,
            λ fine fine_map.
                let (fine0, keeps) = kept fine in
                let (left, size, descriptor, bytes) = handed fine_map in
                record {
                  kernel = still_loaded m m' p p' keeps (loaded fine0);
                  left = left;
                  map_size = size;
                  descriptor_size = descriptor;
                  map = bytes;
                  screen = screen;
                  xsdp = same_xsdp;
                },
          ))

    efi_main-RanKernel :
        (kernel : ℕ → BootInfo → Service P (Unit {0})) (m : Memory) (p : P)
        → system.number_of_table_entries < 2 ^ 16
        → ((q : P) → (0 < v.map_size q) × (v.map_size q + 2 * v.descriptor_bytes < 2 ^ 64))
        → EntryOwned u m p
        → Placed o system m
        → Ends {R = ℕ} (efi_main build fw kernel system) (RanKernel kernel) m p
    unfolding efi_main
    efi_main-RanKernel kernel m p few maps entry placed =
        let (placed1, kept1) = promises.watchdog_law 0 0 0 0 m p placed in
        let (_, m1, p1) = fw.set_watchdog_timer 0 0 0 0 m p in
        then_function
        $ then_print _
        $ then_print_if _ _
        $ then_call _ _
        $ then_check _ _ _
        $ then_do
        $ then_weaken (open_graphics-Kept build quiet fw u laws o system promises m1 p1 placed1)
            (λ protocol m2 p2 (same, placed2, kept2).
              then_do
              $ then_weaken
                  (save_video_mode-Kept build quiet fw u laws o system promises protocol m2 p2 same
                    placed2)
                  (λ video m3 p3 (screen, placed3, kept3).
                    then_do
                    $ then_weaken
                        (save_xsdp-Kept build quiet fw u laws o system promises m3 p3 few placed3)
                        (λ xsdp m4 p4 (same_xsdp, kept4).
                          then_do
                          $ then_weaken
                              (open_volume-Kept build quiet fw u laws o system promises m4 p4)
                              (λ root m5 p5 (same_root, kept5).
                                let kept15 =
                                  trans-Kept u m1 m4 m5 p1 p4 p5
                                    (trans-Kept u m1 m3 m4 p1 p3 p4
                                      (trans-Kept u m1 m2 m3 p1 p2 p3 kept2 kept3) kept4)
                                    kept5 in
                                let kept05 = trans-Kept u m m1 m5 p p1 p5 kept1 kept15 in
                                then_do
                                $ then_weaken
                                    (subst (λ r. Ends (load build fw r) (LoadedFrom m5 p5) m5 p5)
                                      (sym same_root) (load-Loaded m5 p5))
                                    (λ _ m6 p6 loaded.
                                      leave_and_enter kernel video xsdp m6 p6 (maps p6) screen
                                        same_xsdp
                                        (λ fine6.
                                          let (fine5, all) = loaded fine6 in
                                          all (owned_later m m5 p p5 (kept05 fine5).1 entry)))))))

    -- In a build that prints no debug texts, on a firmware that keeps its promises and whose kernel file
    -- fits, if no service has failed and the kernel hides no failure: `efi_main` enters the kernel, and ends
    -- with EFI_LOAD_ERROR only when that returns. The kernel is entered at the entry point of its file, its
    -- segments are in the memory, the boot services are left, and the memory map, the screen and the XSDP
    -- are as it is told. The conditions: the bytes at addresses 0 to 7, to which the loader's null pointer
    -- has the entry point stored, lie in a page that the loader has allocated, else nothing keeps them; the
    -- configuration table has fewer than 2 ^ 16 entries; and the memory map always has bytes and with two
    -- descriptors more stays below 2 ^ 64.
    pub efi_main-Entered :
        (kernel : ℕ → BootInfo → Service P (Unit {0})) (w : World P)
        → IsHonest u v kernel
        → system.number_of_table_entries < 2 ^ 16
        → ((q : P) → (0 < v.map_size q) × (v.map_size q + 2 * v.descriptor_bytes < 2 ^ 64))
        → EntryPaged u w.private
        → Placed o system w.mem
        → u.Fine (final w (boot_run build fw system kernel w)).private
        → v.Fine (final w (boot_run build fw system kernel w)).private
        → (let end = final w (boot_run build fw system kernel w) in
            (boot_run build fw system kernel w ≡ done (value efi_load_error, end))
            × (info : BootInfo) × (m : Memory) × (p : P) × (kernel
                  (load_le 8 m kernel_entry_point)
                  info
                  m
                  p
                ≡ (tt, end.mem, end.private))
            × Entered u v o info m p)
    efi_main-Entered kernel w honest few maps entry placed fine fine_map =
        let owned : EntryOwned u w.mem w.private =
          λ a h. (entry a h, promises.pages_owned w.private a (entry a h)) in
        let (status, e, (info, m, p, good, ran, entered)) =
          Ends-final (efi_main-RanKernel kernel w.mem w.private few maps owned placed) w.printed in
        let (fine0, fine_map0) = honest (load_le 8 m kernel_entry_point) info m p in
        let same : (final w (boot_run build fw system kernel w)).private
            ≡ (kernel (load_le 8 m kernel_entry_point) info m p).2 =
          sym (ap (λ r. r.2) ran) in
        (
          e ∙ ap (λ (t : ℕ). done (value t, final w (boot_run build fw system kernel w))) good,
          info,
          m,
          p,
          ran,
          entered (fine0 (subst u.Fine same fine)) (fine_map0 (subst v.Fine same fine_map)),
        )
