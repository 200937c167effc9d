-- ===== src/Boot/Loaded.antt =====
-- `load_segment` puts a segment of the kernel file into the memory.
use mathlib.Core.Path.{subst}
use flosp_os.Common.{ℕ, ◌+◌, ◌-◌, ◌^◌, ◌≤◌, ◌<◌, ◌≡◌, ◌∙◌, true, false, arith, u64}
use flosp_os.Common.Run.{Run, done}
use flosp_os.Mem.{Memory}
use flosp_os.Mem.Words.{inside}
use flosp_os.Boot.Codes.{efi_size_to_pages}
use flosp_os.Boot.Status.{efi_size_to_pages-least}
use flosp_os.Boot.Efi.{Firmware, Build, World, Outcome, value}
use flosp_os.Boot.Triple.{Ends, then_weaken, final, Ends-final}
use flosp_os.Boot.Rules.{then_do, then_print_if, then_check, then_call, ◌$◌, then_function}
use flosp_os.Boot.Uefi.{View, Laws, Keeps, KeepsAll}
use flosp_os.Boot.Segments.{load_segment, sub64}
use flosp_os.Boot.Pieces.{Holds, outside_fresh, bytes_if-BytesLoaded, zero_if-Zeroed}

-- What a segment wants: its bytes are in the file, and it lies in the address space.
abbrev pub Fits : ℕ → ℕ → ℕ → ℕ → ℕ → Type 0
Fits length offset file_size memory_size address =
    (offset + file_size ≤ length)
    × (file_size ≤ memory_size)
    × (memory_size < 2 ^ 64)
    × (address + memory_size ≤ 2 ^ 64)

module _ {P : Type 0} (u : View P) where
  -- The segment's bytes and its zeros are there, they are owned, and what was owned is as it was.
  abbrev pub Assembled : ℕ → ℕ → ℕ → ℕ → ℕ → Memory → P → Memory → P → Type 0
  Assembled image offset file_size memory_size address m p m' p' =
      Holds u image offset file_size address m'
      × ((i : ℕ) → file_size ≤ i → i < memory_size → m' (address + i) ≡ 0)
      × ((a : ℕ) → inside address memory_size a ≡ true → u.Page p' a × u.Owned p' a)
      × KeepsAll u m p m' p'

  abbrev pub SegmentLoaded : ℕ → ℕ → ℕ → ℕ → ℕ → Memory → P → Memory → P → Type 0
  SegmentLoaded image offset file_size memory_size address m p m' p' =
      u.Fine p'
      → u.Fine p
        × (Fits (u.file_size image) offset file_size memory_size address
            → Assembled image offset file_size memory_size address m p m' p')

  -- The bytes, then the zeros, from pages that are owned.
  assemble :
      (image offset file_size memory_size address : ℕ) (m m2 m3 m4 : Memory) (p p2 p3 p4 : P)
      → Fits (u.file_size image) offset file_size memory_size address
      → u.position p2 image ≡ offset
      → ((a : ℕ)
          → inside address memory_size a ≡ true
          → u.Page p2 a × u.Owned p2 a × ¬ (u.Owned p a))
      → KeepsAll u m p m2 p2
      → (((a : ℕ) → inside address file_size a ≡ true → u.Owned p2 a)
          → u.position p2 image + file_size ≤ u.file_size image
          → Holds u image (u.position p2 image) file_size address m3)
      → Keeps u address file_size m2 p2 m3 p3
      → (let start = u64 (address + file_size) in
          let count = sub64 memory_size file_size in
          ((i : ℕ) → i < count → m4 (start + i) ≡ 0)
          → Keeps u start count m3 p3 m4 p4
          → Assembled image offset file_size memory_size address m p m4 p4)
  assemble image offset file_size memory_size address m m2 m3 m4 p p2 p3 p4 (fits, le, small, high)
        at pages keeps2 holds keeps3 zeros keeps4 =
      let start = u64 (address + file_size) in
      let count = sub64 memory_size file_size in
      let held : Holds u image offset file_size address m3 =
        subst (λ (t : ℕ). Holds u image t file_size address m3) at
          (holds (λ a h. (pages a (ground arith)).1) (omega (arith, at))) in
      let owned3 : (a : ℕ) → inside address memory_size a ≡ true → u.Owned p3 a =
        λ a h. (keeps3.0 a (pages a h).1).0 in
      let before : (i : ℕ) → i < file_size → inside start count (address + i) ≡ false =
        λ i lt. ground arith in
      let outside : (a : ℕ)
          → inside address memory_size a ≡ false
          → (inside address file_size a ≡ false) × (inside start count a ≡ false) =
        λ a h. (ground arith, ground arith) in
      (
        λ i lt.
            (keeps4.0 (address + i) (owned3 (address + i) (ground arith))).1 (before i lt)
            ∙ held i lt,
        λ i from to.
            subst (λ (t : ℕ). m4 t ≡ 0) (ground arith) (zeros (i - file_size) (omega arith)),
        λ a h. (keeps4.1 a (keeps3.1 a (pages a h).0), (keeps4.0 a (owned3 a h)).0),
        (
          λ a own.
              let (own2, e2) = keeps2.0 a own in
              let (own3, e3) = keeps3.0 a own2 in
              let (own4, e4) = keeps4.0 a own3 in
              let (q3, q4) =
                outside a
                  (outside_fresh u.Owned address memory_size p (λ c h. (pages c h).2) a own) in
              (own4, e4 q4 ∙ (e3 q3 ∙ e2)),
          λ a page. keeps4.1 a (keeps3.1 a (keeps2.1 a page)),
        ),
      )

module _ {P : Type 0} (build : Build) (fw : Firmware P) (u : View P) (laws : Laws fw u) where
  pub load_segment-SegmentLoaded :
      {R : Type 0} (image offset file_size memory_size address : ℕ) (m : Memory) (p : P)
      → Ends {R = R}
          (load_segment build fw image offset file_size memory_size address)
          (λ status. SegmentLoaded u image offset file_size memory_size address m p)
          m
          p
  unfolding load_segment
  load_segment-SegmentLoaded image offset file_size memory_size address m p =
      let (_, m1, p1) = fw.set_position image offset m p in
      let ((_, address'), m2, p2) =
        fw.allocate_pages (efi_size_to_pages memory_size) address m1 p1 in
      then_function
      $ then_print_if _ _
      $ then_call _ _
      $ then_check _ _ _
      $ then_print_if _ _
      $ then_call _ _
      $ then_check _ _ _
      $ then_do
      $ then_weaken (bytes_if-BytesLoaded build fw u laws image file_size address' _ m2 p2)
          (λ status m3 p3 bytes.
            then_weaken (zero_if-Zeroed build fw u laws _ _ status m3 p3)
              (λ status' m4 p4 zeroed fine4.
                let (fine3, zeros, keeps4) = zeroed fine4 in
                let (fine2, holds, keeps3) = bytes fine3 in
                let (fine1, _, same, still, pages, keeps2) =
                  laws.allocate_pages_law (efi_size_to_pages memory_size) address m1 p1 fine2 in
                let (fine, _, at, keeps1) = laws.set_position_law image offset m p fine1 in
                let pages' : (a : ℕ)
                    → inside address' memory_size a ≡ true
                    → u.Page p2 a × u.Owned p2 a × ¬ (u.Owned p a) =
                  λ a h.
                    let (page, own, fresh) =
                      pages a (ground (arith, same, efi_size_to_pages-least memory_size)) in
                    (page, own, λ old. fresh (keeps1.0 a old).0) in
                (
                  fine,
                  λ fits.
                      subst (λ t. Assembled u image offset file_size memory_size t m p m4 p4) same
                        (assemble u image offset file_size memory_size address' m m2 m3 m4 p p2 p3
                          p4 (rw same fits) (still image ∙ at) pages'
                          (
                            λ a own.
                                let (own1, e1) = keeps1.0 a own in
                                let (own2, e2) = keeps2.0 a own1 in (own2, e2 ∙ e1),
                            λ a page. keeps2.1 a (keeps1.1 a page),
                          )
                          holds keeps3 zeros keeps4),
                )))

  abbrev pub segment_run : ℕ → ℕ → ℕ → ℕ → ℕ → World P → Run (Outcome ℕ ℕ × World P)
  segment_run image offset file_size memory_size address w =
      load_segment build fw image offset file_size memory_size address w

  -- For a segment that fits, the function returns from any state, and if no service has failed, the
  -- segment's bytes and then zeros are in the memory, and what was owned is as it was.
  pub load_segment-loaded :
      (image offset file_size memory_size address : ℕ) (w : World P)
      → Fits (u.file_size image) offset file_size memory_size address
      → u.Fine (final w (segment_run image offset file_size memory_size address w)).private
      → ((status : ℕ) × (segment_run image offset file_size memory_size address w
            ≡ done
                (value status, final w (segment_run image offset file_size memory_size address w))))
        × Assembled u image offset file_size memory_size address w.mem w.private
            (final w (segment_run image offset file_size memory_size address w)).mem
            (final w (segment_run image offset file_size memory_size address w)).private
  load_segment-loaded image offset file_size memory_size address w fits fine =
      let (status, e, all) =
        Ends-final
          (load_segment-SegmentLoaded image offset file_size memory_size address w.mem w.private)
          w.printed in
      ((status, e), (all fine).1 fits)
