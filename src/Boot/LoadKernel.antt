-- ===== src/Boot/LoadKernel.antt =====
-- `load_kernel`: from the kernel file to the segments in the memory and the stored entry point.
use mathlib.Core.Path.{subst}
use flosp_os.Common.{ℕ, ◌^◌, ◌%◌, ◌<◌, ◌≡◌, ◌≢◌, sym, ◌∙◌, ap, true, false, ◌||◌, ◌==◌, arith}
use flosp_os.Common.Run.{Run, done}
use flosp_os.Mem.{Memory, store_le}
use flosp_os.Mem.Words.{inside, load_le_cong, load_le-store_le}
use flosp_os.Text.{Text}
use flosp_os.Boot.Codes.{efi_success, efi_not_found, efierr}
use flosp_os.Boot.Efi.{Firmware, Build, World, Outcome, value}
use flosp_os.Boot.Triple.{Ends, check-Ends, then_weaken, final, Ends-final}
use flosp_os.Boot.Rules.{
  then_do, then_get, then_print_if, then_print_all, then_check, then_check_quiet, then_call,
  then_modify_mem, then_if, ◌$◌, then_pure, then_function,
}
use flosp_os.Boot.Uefi.{View, Laws, KeepsAll}
use flosp_os.Boot.Elf.{ei_nident, e_phnum, e_entry}
use flosp_os.Boot.Segments.{pt_load}
use flosp_os.Boot.Kernel.{open_kernel, check_identity, close_kernel, load_kernel}
use flosp_os.Boot.Pieces.{outside_fresh}
use flosp_os.Boot.Table.{AllFit, Intact}
use flosp_os.Boot.Program.{AllLoaded, load_program_segments-AllDone}
use flosp_os.Boot.Headers.{
  KeepsAll_trans, read_elf_identity-Fetched, file_count, HeadersFit, header_field, HeadersRead,
  read_elf_file-FileRead,
}
use flosp_os.Boot.FileTable.{file_segment, count_stored, stored-Intact}
use flosp_os.Boot.Kept.{PagesKept, KernelLoaded, kernel_kept}

module _ {P : Type 0} (build : Build) (fw : Firmware P) (u : View P) (laws : Laws fw u) where
  close_kernel-PagesKept :
      (image header programs : ℕ) (m : Memory) (p : P)
      → Ends
          (close_kernel build fw image header programs)
          (λ status m' p'. u.Fine p' → u.Fine p × (status ≡ efi_success) × PagesKept u m p m' p')
          m
          p
  unfolding close_kernel
  close_kernel-PagesKept image header programs m p =
      let (_, m1, p1) = fw.close image m p in
      let (_, m2, p2) = fw.free_pool header m1 p1 in
      let (_, m3, p3) = fw.free_pool programs m2 p2 in
      then_print_if _ _
      $ then_call _ _
      $ then_check _ _ _
      $ then_print_if _ _
      $ then_call _ _
      $ then_check _ _ _
      $ then_print_if _ _
      $ then_call _ _
      $ then_check _ _ _
      $ then_print_if _ _
      $ then_pure _ (λ fine3.
        let (fine2, good, _, pages3) = laws.free_pool_law programs m2 p2 fine3 in
        let (fine1, _, _, pages2) = laws.free_pool_law header m1 p1 fine2 in
        let (fine, _, (own1, page1)) = laws.close_law image m p fine1 in
        (
          fine,
          good,
          λ a own page.
              let (page2, e2) = pages2 a (page1 a page) in
              let (page3, e3) = pages3 a page2 in (page3, e3 ∙ (e2 ∙ (own1 a own).1)),
        ))

  check_identity-KeepsAll :
      (image : ℕ) (m : Memory) (p : P)
      → Ends
          (check_identity build fw image)
          (λ _ m' p'. u.Fine p' → u.Fine p × KeepsAll u m p m' p')
          m
          p
  unfolding check_identity
  check_identity-KeepsAll image m p =
      then_do
      $ then_weaken (read_elf_identity-Fetched build fw u laws image 0 m p)
          (λ (status, b) m1 p1 fetched. then_check_quiet _ _ $ then_get _ $ λ printed.
            then_print_all _ _
            $ then_check_quiet _ _
            $ then_call _ _
            $ check-Ends _ _ _
                (λ fine2.
                  let (fine1, _, freed, freed_page) = laws.free_pool_law b m1 p1 fine2 in
                  let (fine, size, fresh, _, (own1, page1)) = fetched fine1 in
                  (
                    fine,
                    (
                      λ a own.
                          let (own', e1) = own1 a own in
                          let away =
                            outside_fresh u.Owned b ei_nident p (λ c h. (fresh c h).1) a own in
                          let (own2, e2) = freed a own' (rw size away) in (own2, e2 ∙ e1),
                      λ a page. (freed_page a (page1 a page)).0,
                    ),
                  ))
                _ _ _)

module _ {P : Type 0} (build : Build) (fw : Firmware P) (u : View P) (laws : Laws fw u) (root : ℕ)
    (name : Text) (image entry : ℕ) (quiet : build.debug ≡ false) where
  abbrev pub kernel_run : World P → Run (Outcome ℕ ℕ × World P)
  kernel_run w = load_kernel build fw root name entry w

  open_kernel-Ends :
      (Q : ℕ → Memory → P → Type 0) (m : Memory) (p : P)
      → (fw.open_file root name 0 m p).0 ≡ (efi_success, image)
      → image ≢ 0
      → (let (_, m', p') = fw.open_file root name 0 m p in Q image m' p')
      → Ends (open_kernel build fw root name) Q m p
  unfolding open_kernel efierr
  open_kernel-Ends Q m p opened given h =
      let ((status, found), m', p') = fw.open_file root name 0 m p in
      let good : status ≡ efi_success = ap (λ r. r.0) opened in
      let same : found ≡ image = ap (λ r. r.1) opened in
      then_print_if _ _
      $ then_print_if _ _
      $ then_call _ _
      $ then_check _ _ _
      $ then_do
      $ then_if (status == efi_not_found || found == 0)
          (λ missing. absurd (ground (arith, good, same)))
          (λ there. then_pure _ (then_pure _ (subst (λ k. Q k m' p') (sym same) h)))

  module _ (j : ℕ) (fits : HeadersFit u image)
      (fit : AllFit (u.file_size image) (file_count u image) (file_segment u image))
      (small : file_count u image < 2 ^ 16) (lt : j < file_count u image)
      (load : (file_segment u image j).kind ≡ pt_load) where
    -- The pieces together: each keeps what the ones before it have left.
    kernel_pieces :
        (header programs : ℕ) (m m1 m2 m3 m5 m6 : Memory) (p p1 p2 p3 p5 p6 : P)
        → KeepsAll u m p m1 p1
        → KeepsAll u m1 p1 m2 p2
        → KeepsAll u m2 p2 m3 p3
        → HeadersRead u image header programs m2 p2 m3 p3
        → (let m4 = store_le 8 m3 entry (e_entry m3 header) in
            (e_phnum m4 header ≡ file_count u image
              → Intact u programs (file_count u image) (file_segment u image) m4 p3
              → AllLoaded build fw u laws image programs
                  (file_count u image)
                  (file_segment u image)
                  fit
                  m4
                  p3
                  m5
                  p5)
            → PagesKept u m5 p5 m6 p6
            → ((a : ℕ) → inside entry 8 a ≡ true → u.Page p a × u.Owned p a)
            → KernelLoaded u image entry m6 p6)
    kernel_pieces header programs m m1 m2 m3 m5 m6 p p1 p2 p3 p5 p6 keeps1 keeps2 keeps3 read all
          kept entry0 =
        let v = e_entry m3 header in
        let (own12, page12) = KeepsAll_trans u m m1 m2 p p1 p2 keeps1 keeps2 in
        let owned2 : (a : ℕ) → inside entry 8 a ≡ true → u.Owned p2 a =
          λ a h. (own12 a (entry0 a h).1).0 in
        let (there, keeps5) =
          all (count_stored u image header programs entry v m2 m3 p2 p3 read owned2)
            (stored-Intact u image header programs entry v m2 m3 p2 p3 read owned2) in
        let owned3 : (a : ℕ) → inside entry 8 a ≡ true → u.Owned p3 a =
          λ a h. (keeps3.0 a (owned2 a h)).0 in
        kernel_kept u image entry m5 m6 p5 p6 fit kept
          (λ a h. (keeps5.1 a (keeps3.1 a (page12 a (entry0 a h).0)), (keeps5.0 a (owned3 a h)).0))
          (load_le_cong 8 m5 (store_le 8 m3 entry v) entry
              (λ a from to. (keeps5.0 a (owned3 a (ground arith))).1)
            ∙ load_le-store_le 8 m3 entry v
            ∙ ap (λ (t : ℕ). t % 256 ^ 8)
                (header_field u image 8 24 header m3 (omega arith) read.header_held))
          there

    abbrev pub Loaded : Memory → P → ℕ → Memory → P → Type 0
    Loaded m p status m' p' =
        u.Fine p'
        → u.Fine p
          × (((a : ℕ) → inside entry 8 a ≡ true → u.Page p a × u.Owned p a)
              → (status ≡ efi_success) × KernelLoaded u image entry m' p')

    pub load_kernel-Loaded :
        (m : Memory) (p : P)
        → (fw.open_file root name 0 m p).0 ≡ (efi_success, image)
        → image ≢ 0
        → Ends {R = ℕ} (load_kernel build fw root name entry) (Loaded m p) m p
    unfolding load_kernel
    load_kernel-Loaded m p opened given =
        let (_, m1, p1) = fw.open_file root name 0 m p in
        then_function
        $ then_do
        $ open_kernel-Ends _ m p opened given
        $ then_do
        $ then_weaken (check_identity-KeepsAll build fw u laws image m1 p1) (λ _ m2 p2 checked.
          then_do
          $ then_weaken (read_elf_file-FileRead build fw u laws image 0 0 m2 p2)
              (λ (_, header, programs) m3 p3 read.
                then_check_quiet _ _
                $ then_modify_mem _ _
                $ then_do
                $ then_if build.debug (λ debug. absurd (ground (arith, quiet, debug)))
                    (λ _.
                      then_pure _
                      $ then_do
                      $ then_weaken
                          (load_program_segments-AllDone build fw u laws image programs
                            (file_count u image) (file_segment u image) fit header
                            (store_le 8 m3 entry (e_entry m3 header)) p3 j small lt load)
                          (λ status m5 p5 loaded.
                            then_check_quiet _ _
                            $ then_weaken
                                (close_kernel-PagesKept build fw u laws image header programs m5 p5)
                                (λ status' m6 p6 closed fine6.
                                  let (fine5, good, kept) = closed fine6 in
                                  let (fine3, all) = loaded fine5 in
                                  let (fine2, keeps3, read_of) = read fine3 in
                                  let (fine1, keeps2) = checked fine2 in
                                  let (fine, keeps1) = laws.open_file_law root name 0 m p fine1 in
                                  (
                                    fine,
                                    λ entry0. (
                                      good,
                                      kernel_pieces header programs m m1 m2 m3 m5 m6 p p1 p2 p3 p5
                                          p6 keeps1 keeps2 keeps3 (read_of fits) all kept entry0,
                                    ),
                                  ))))))

    -- In a build that prints no debug texts: if the kernel file can be opened, its headers and segments
    -- fit, some program header asks for a segment, and the bytes for the entry point are in a page of
    -- the loader, the function returns; and if no service has failed, it returns EFI_SUCCESS, the entry
    -- point of the file is stored, and every segment of the file is in the memory, zeros behind it.
    pub load_kernel-loaded :
        (w : World P)
        → (fw.open_file root name 0 w.mem w.private).0 ≡ (efi_success, image)
        → image ≢ 0
        → ((a : ℕ) → inside entry 8 a ≡ true → u.Page w.private a × u.Owned w.private a)
        → u.Fine (final w (kernel_run w)).private
        → (kernel_run w ≡ done (value efi_success, final w (kernel_run w)))
          × KernelLoaded u image entry (final w (kernel_run w)).mem (final w (kernel_run w)).private
    load_kernel-loaded w opened given entry0 fine =
        let (status, e, all) =
          Ends-final (load_kernel-Loaded w.mem w.private opened given) w.printed in
        let (good, loaded) = (all fine).1 entry0 in
        (e ∙ ap (λ (t : ℕ). done (value t, final w (kernel_run w))) good, loaded)
