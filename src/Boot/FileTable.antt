-- ===== src/Boot/FileTable.antt =====
-- The program headers of the kernel file, and their copy in the memory after `read_elf_file`.
use flosp_os.Common.{ℕ, ◌+◌, ◌*◌, ◌≤◌, ◌<◌, ◌≡◌, ◌∙◌, ap, true, arith, Bool-cases, inl, inr}
use flosp_os.Mem.{Memory, load_le, store_le}
use flosp_os.Mem.Words.{inside, load_le_cong, load_le_shift, store_le_outside}
use flosp_os.Boot.Uefi.{View}
use flosp_os.Boot.Elf.{program_header_size, e_phnum}
use flosp_os.Boot.Segments.{header_at}
use flosp_os.Boot.Pieces.{Holds}
use flosp_os.Boot.Table.{Segment, segment_at, Intact}
use flosp_os.Boot.Headers.{file_programs, file_count, header_field, HeadersRead}

module _ {P : Type 0} (u : View P) (image : ℕ) where
  -- The segment that program header `j` of the file asks for.
  abbrev pub file_segment : ℕ → Segment
  file_segment j = segment_at (u.file image) (header_at (file_programs u image) j)

  -- A program header, read from its copy.
  segment_copied :
      (programs j : ℕ) (m : Memory)
      → j < file_count u image
      → Holds u image (file_programs u image) (program_header_size * file_count u image) programs m
      → segment_at m (header_at programs j) ≡ file_segment j
  segment_copied programs j m lt held = λ i. record {
    kind = kind_copied i;
    offset = field 8 8 (omega arith) i;
    file_size = field 8 32 (omega arith) i;
    memory_size = field 8 40 (omega arith) i;
    address = field 8 24 (omega arith) i;
  }
    where
      field :
          (k o : ℕ)
          → o + k ≤ program_header_size
          → load_le k m (header_at programs j + o)
            ≡ load_le k (u.file image) (header_at (file_programs u image) j + o)
      field k o le =
          let f = file_programs u image in
          load_le_shift k m (u.file image) (header_at programs j + o) (header_at f j + o)
            (λ i small.
              ap m {x = header_at programs j + o + i}
                {y = programs + (program_header_size * j + o + i)} (omega arith)
              ∙ held (program_header_size * j + o + i) (omega arith)
              ∙ ap (u.file image) {x = f + (program_header_size * j + o + i)}
                  {y = header_at f j + o + i} (omega arith))

      kind_copied :
          load_le 4 m (header_at programs j)
          ≡ load_le 4 (u.file image) (header_at (file_programs u image) j)
      kind_copied =
          let f = header_at (file_programs u image) j in
          ap (load_le 4 m) {x = header_at programs j} {y = header_at programs j + 0} (omega arith)
          ∙ field 4 0 (omega arith)
          ∙ ap (load_le 4 (u.file image)) {x = f + 0} {y = f} (omega arith)

  -- The entry point is stored into bytes that were owned before the headers were read.
  module _ (header programs entry v : ℕ) (m m3 : Memory) (p p3 : P)
      (read : HeadersRead u image header programs m p m3 p3)
      (owned : (a : ℕ) → inside entry 8 a ≡ true → u.Owned p a) where
    abbrev pub stored : Memory
    stored = store_le 8 m3 entry v

    stored_elsewhere : (a : ℕ) → ¬ (u.Owned p a) → stored a ≡ m3 a
    stored_elsewhere a new = elim (Bool-cases (inside entry 8 a)) [
      | inl e ↦ absurd (new (owned a e))
      | inr e ↦ store_le_outside 8 m3 entry v a e
    ]

    pub count_stored : e_phnum stored header ≡ file_count u image
    count_stored =
        load_le_cong 2 stored m3 (header + 56)
          (λ a from to. stored_elsewhere a (read.header_new a (ground arith)))
        ∙ header_field u image 2 56 header m3 (omega arith) read.header_held

    pub stored-Intact : Intact u programs (file_count u image) file_segment stored p3
    stored-Intact j lt = (
      segment_copied programs j stored lt (λ i small.
          stored_elsewhere (programs + i) (read.programs_new (programs + i) (ground arith))
          ∙ read.programs_held i small),
      λ a h. read.programs_owned a (ground arith),
    )
