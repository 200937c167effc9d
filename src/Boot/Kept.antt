-- ===== src/Boot/Kept.antt =====
-- A loaded kernel, and that it stays loaded whatever is freed.
use flosp_os.Common.{ℕ, ◌+◌, ◌^◌, ◌%◌, ◌≤◌, ◌<◌, ◌≡◌, ◌∙◌, true, arith}
use flosp_os.Mem.{Memory, load_le}
use flosp_os.Mem.Words.{inside, load_le_cong}
use flosp_os.Boot.Uefi.{View}
use flosp_os.Boot.Elf.{e_entry}
use flosp_os.Boot.Segments.{pt_load}
use flosp_os.Boot.Pieces.{Holds}
use flosp_os.Boot.Table.{Segment, AllFit, in_segment}
use flosp_os.Boot.Headers.{file_count}
use flosp_os.Boot.FileTable.{file_segment}

module _ {P : Type 0} (u : View P) where
  -- What is in pages of the loader stays so, whatever is freed.
  abbrev pub PagesKept : Memory → P → Memory → P → Type 0
  PagesKept m p m' p' = (a : ℕ) → u.Owned p a → u.Page p a → u.Page p' a × (m' a ≡ m a)

-- What the loaded kernel is: its entry point is stored, and with its segments lies in pages of the loader.
module _ {P : Type 0} (u : View P) (image entry : ℕ) where
  abbrev pub SegmentThere : Segment → Memory → P → Type 0
  SegmentThere s m p =
      Holds u image s.offset s.file_size s.address m
      × ((i : ℕ) → s.file_size ≤ i → i < s.memory_size → m (s.address + i) ≡ 0)
      × ((a : ℕ) → in_segment s a ≡ true → u.Page p a)

  pub record KernelLoaded (m : Memory) (p : P) : Type 0 where
    pub entry_stored : load_le 8 m entry ≡ e_entry (u.file image) 0 % 256 ^ 8
    pub entry_page : (a : ℕ) → inside entry 8 a ≡ true → u.Page p a
    pub segments_there :
        (j : ℕ)
        → j < file_count u image
        → (file_segment u image j).kind ≡ pt_load
        → SegmentThere (file_segment u image j) m p

  pub kernel_kept :
      (m m' : Memory) (p p' : P)
      → AllFit (u.file_size image) (file_count u image) (file_segment u image)
      → PagesKept u m p m' p'
      → ((a : ℕ) → inside entry 8 a ≡ true → u.Page p a × u.Owned p a)
      → load_le 8 m entry ≡ e_entry (u.file image) 0 % 256 ^ 8
      → ((j : ℕ)
          → j < file_count u image
          → (file_segment u image j).kind ≡ pt_load
          → Holds u image
              (file_segment u image j).offset
              (file_segment u image j).file_size
              (file_segment u image j).address
              m
            × ((i : ℕ)
                → (file_segment u image j).file_size ≤ i
                → i < (file_segment u image j).memory_size
                → m ((file_segment u image j).address + i) ≡ 0)
            × ((a : ℕ) → in_segment (file_segment u image j) a ≡ true → u.Page p a × u.Owned p a))
      → KernelLoaded m' p'
  kernel_kept m m' p p' fit kept entry_kept stored there = record {
    entry_stored =
        load_le_cong 8 m' m entry
          (λ a from to. let (page, own) = entry_kept a (ground arith) in (kept a own page).1)
        ∙ stored;
    entry_page = λ a h. let (page, own) = entry_kept a h in (kept a own page).0;
    segments_there = λ j lt load.
        let (held, zeros, pages) = there j lt load in
        let (_, le, _, _) = fit j lt load in
        let s = file_segment u image j in
        let same : (a : ℕ) → in_segment s a ≡ true → m' a ≡ m a =
          λ a h. let (page, own) = pages a h in (kept a own page).1 in
        (
          λ i small. same (s.address + i) (ground arith) ∙ held i small,
          λ i from to. same (s.address + i) (ground arith) ∙ zeros i from to,
          λ a h. let (page, own) = pages a h in (kept a own page).0,
        );
  }
