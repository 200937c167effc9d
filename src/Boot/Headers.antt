-- ===== src/Boot/Headers.antt =====
-- `read_elf_identity` and `read_elf_file`: what they read of the kernel file.
use mathlib.Core.Path.{subst}
use flosp_os.Common.{ℕ, ◌+◌, ◌*◌, ◌≤◌, ◌≡◌, ◌∙◌, ap, true, arith}
use flosp_os.Mem.{Memory, load_le}
use flosp_os.Mem.Words.{inside, load_le_shift}
use flosp_os.Boot.Efi.{Firmware, Build}
use flosp_os.Boot.Triple.{Ends}
use flosp_os.Boot.Rules.{
  then_get, then_print, then_print_if, then_check, then_call, ◌$◌, then_pure, then_function,
}
use flosp_os.Boot.Uefi.{View, Laws, KeepsAll}
use flosp_os.Boot.Elf.{
  header_size, program_header_size, ei_nident, e_phoff, e_phnum, read_elf_identity, read_elf_file,
}
use flosp_os.Boot.Pieces.{Holds, outside_fresh}

module _ {P : Type 0} (u : View P) where
  abbrev pub KeepsAll_trans :
      (m m1 m2 : Memory) (p p1 p2 : P)
      → KeepsAll u m p m1 p1
      → KeepsAll u m1 p1 m2 p2
      → KeepsAll u m p m2 p2
  KeepsAll_trans m m1 m2 p p1 p2 (own1, page1) (own2, page2) = (
    λ a own. let (own', e) = own1 a own in let (own'', e') = own2 a own' in (own'', e' ∙ e),
    λ a page. page2 a (page1 a page),
  )

  -- A block of the pool that was filled from the file.
  abbrev pub Fetched : ℕ → ℕ → ℕ → ℕ → Memory → P → Memory → P → Type 0
  Fetched image pos size b m p m' p' =
      u.Fine p'
      → u.Fine p
        × (u.block p' b ≡ size)
        × ((a : ℕ) → inside b size a ≡ true → u.Owned p' a × ¬ (u.Owned p a))
        × (pos + size ≤ u.file_size image → Holds u image pos size b m')
        × KeepsAll u m p m' p'

module _ {P : Type 0} (fw : Firmware P) (u : View P) (laws : Laws fw u) where
  -- The three calls: the position, the block, the bytes.
  pub fetch :
      (image pos size old : ℕ) (m : Memory) (p : P)
      → (let (_, m1, p1) = fw.set_position image pos m p in
          let ((_, b), m2, p2) = fw.allocate_pool size old m1 p1 in
          let (_, m3, p3) = fw.read image b size m2 p2 in Fetched u image pos size b m p m3 p3)
  fetch image pos size old m p fine3 =
      let (_, m1, p1) = fw.set_position image pos m p in
      let ((_, b), m2, p2) = fw.allocate_pool size old m1 p1 in
      let (_, m3, p3) = fw.read image b size m2 p2 in
      let (fine2, _, same, got, keeps3) = laws.read_law image b size m2 p2 fine3 in
      let (fine1, _, still, block, fresh, keeps2) = laws.allocate_pool_law size old m1 p1 fine2 in
      let (fine, _, at, keeps1) = laws.set_position_law image pos m p fine1 in
      let here : u.position p2 image ≡ pos = still image ∙ at in
      (
        fine,
        same b ∙ block,
        λ a h. let (own, new) = fresh a h in ((keeps3.0 a own).0, λ old'. new (keeps1.0 a old').0),
        λ fits i lt. got (rw here fits) i lt ∙ ap (λ (t : ℕ). u.file image (t + i)) here,
        (
          λ a own.
              let (own1, e1) = keeps1.0 a own in
              let (own2, e2) = keeps2.0 a own1 in
              let (own3, e3) = keeps3.0 a own2 in
              (
                own3,
                e3 (outside_fresh u.Owned b size p1 (λ c h. (fresh c h).1) a own1) ∙ (e2 ∙ e1),
              ),
          λ a page. keeps3.1 a (keeps2.1 a (keeps1.1 a page)),
        ),
      )

module _ {P : Type 0} (build : Build) (fw : Firmware P) (u : View P) (laws : Laws fw u) where
  pub read_elf_identity-Fetched :
      {R : Type 0} (image buffer : ℕ) (m : Memory) (p : P)
      → Ends {R = R}
          (read_elf_identity build fw image buffer)
          (λ (status, b). Fetched u image 0 ei_nident b m p)
          m
          p
  unfolding read_elf_identity
  read_elf_identity-Fetched image buffer m p =
      then_function
      $ then_print_if _ _
      $ then_print_if _ _
      $ then_call _ _
      $ then_print _
      $ then_check _ _ _
      $ then_print_if _ _
      $ then_call _ _
      $ then_check _ _ _
      $ then_print_if _ _
      $ then_call _ _
      $ then_check _ _ _
      $ then_pure _ (fetch fw u laws image 0 ei_nident buffer m p)

module _ {P : Type 0} (u : View P) (image : ℕ) where
  -- The file as a memory, and what its header says.
  abbrev pub file_programs : ℕ
  file_programs = e_phoff (u.file image) 0

  abbrev pub file_count : ℕ
  file_count = e_phnum (u.file image) 0

  -- The header and the program headers are in the file.
  abbrev pub HeadersFit : Type 0
  HeadersFit =
      (header_size ≤ u.file_size image)
      × (file_programs + program_header_size * file_count ≤ u.file_size image)

  -- A number of the header, read from its copy.
  pub header_field :
      (k o header : ℕ) (m : Memory)
      → o + k ≤ header_size
      → Holds u image 0 header_size header m
      → load_le k m (header + o) ≡ load_le k (u.file image) o
  header_field k o header m le held = load_le_shift k m (u.file image) (header + o) o (λ i lt.
      ap m {x = header + o + i} {y = header + (o + i)} (omega arith)
      ∙ held (o + i) (omega arith)
      ∙ ap (u.file image) {x = 0 + (o + i)} {y = o + i} (omega arith))

  pub record HeadersRead (header programs : ℕ) (m : Memory) (p : P) (m' : Memory) (p' : P)
      : Type 0 where
    pub header_held : Holds u image 0 header_size header m'
    pub programs_held : Holds u image file_programs (program_header_size * file_count) programs m'
    pub programs_owned :
        (a : ℕ) → inside programs (program_header_size * file_count) a ≡ true → u.Owned p' a
    pub header_new : (a : ℕ) → inside header header_size a ≡ true → ¬ (u.Owned p a)
    pub programs_new :
        (a : ℕ) → inside programs (program_header_size * file_count) a ≡ true → ¬ (u.Owned p a)

  abbrev pub FileRead : Memory → P → ℕ × ℕ × ℕ → Memory → P → Type 0
  FileRead m p (status, header, programs) m' p' =
      u.Fine p'
      → u.Fine p × KeepsAll u m p m' p' × (HeadersFit → HeadersRead header programs m p m' p')

  both_read :
      (header programs : ℕ) (m m3 m6 : Memory) (p p3 p6 : P)
      → Fetched u image 0 header_size header m p m3 p3
      → Fetched u image
          (e_phoff m3 header)
          (program_header_size * e_phnum m3 header)
          programs
          m3
          p3
          m6
          p6
      → u.Fine p6
      → u.Fine p × KeepsAll u m p m6 p6 × (HeadersFit → HeadersRead header programs m p m6 p6)
  both_read header programs m m3 m6 p p3 p6 first second fine6 =
      let (fine3, _, _, _, keeps2) = second fine6 in
      let (fine, _, fresh1, holds1, keeps1) = first fine3 in
      (
        fine,
        KeepsAll_trans u m m3 m6 p p3 p6 keeps1 keeps2,
        λ (whole, table).
            let held = holds1 (omega (arith, whole)) in
            let at : e_phoff m3 header ≡ file_programs =
              header_field 8 32 header m3 (omega arith) held in
            let number : e_phnum m3 header ≡ file_count =
              header_field 2 56 header m3 (omega arith) held in
            let second' : Fetched u image file_programs (program_header_size * file_count) programs
                m3 p3 m6 p6 =
              subst
                (λ c. Fetched u image file_programs (program_header_size * c) programs m3 p3 m6 p6)
                number
                (subst
                  (λ a.
                    Fetched u image a (program_header_size * e_phnum m3 header) programs m3 p3 m6
                      p6)
                  at second) in
            let (_, _, fresh, holds, _) = second' fine6 in
            record {
              header_held = λ i lt.
                  (keeps2.0 (header + i) (fresh1 (header + i) (ground arith)).0).1 ∙ held i lt;
              programs_held = holds table;
              programs_owned = λ a h. (fresh a h).0;
              header_new = λ a h. (fresh1 a h).1;
              programs_new = λ a h old. (fresh a h).1 (keeps1.0 a old).0;
            },
      )

module _ {P : Type 0} (build : Build) (fw : Firmware P) (u : View P) (laws : Laws fw u) where
  pub read_elf_file-FileRead :
      {R : Type 0} (image header programs : ℕ) (m : Memory) (p : P)
      → Ends {R = R} (read_elf_file build fw image header programs) (FileRead u image m p) m p
  unfolding read_elf_file
  read_elf_file-FileRead image header programs m p =
      let (_, m1, p1) = fw.set_position image 0 m p in
      let ((_, h), m2, p2) = fw.allocate_pool header_size header m1 p1 in
      let (_, m3, p3) = fw.read image h header_size m2 p2 in
      let size = program_header_size * e_phnum m3 h in
      let (_, m4, p4) = fw.set_position image (e_phoff m3 h) m3 p3 in
      let ((_, t), m5, p5) = fw.allocate_pool size programs m4 p4 in
      let (_, m6, p6) = fw.read image t size m5 p5 in
      then_function
      $ then_print_if _ _
      $ then_print_if _ _
      $ then_call _ _
      $ then_check _ _ _
      $ then_print_if _ _
      $ then_call _ _
      $ then_check _ _ _
      $ then_print_if _ _
      $ then_call _ _
      $ then_check _ _ _
      $ then_get _
      $ λ printed.
          then_print_if _ _
          $ then_call _ _
          $ then_check _ _ _
          $ then_print_if _ _
          $ then_call _ _
          $ then_check _ _ _
          $ then_print_if _ _
          $ then_call _ _
          $ then_check _ _ _
          $ then_pure _ (
              both_read u image h t m m3 m6 p p3 p6 (fetch fw u laws image 0 header_size header m p)
                (fetch fw u laws image (e_phoff m3 h) size programs m3 p3))
