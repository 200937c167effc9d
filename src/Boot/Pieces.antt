-- ===== src/Boot/Pieces.antt =====
-- The two parts of `load_segment`: the bytes that go through a buffer, and the zeros.
use flosp_os.Common.{
  ℕ, ◌+◌, ◌≤◌, ◌<◌, ◌≡◌, refl, ◌∙◌, true, false, arith, ltb, if◌then◌else◌, ap, inl, inr,
  Bool-cases,
}
use flosp_os.Mem.{Memory}
use flosp_os.Mem.Words.{inside}
use flosp_os.Boot.Efi.{Firmware, Build, pure}
use flosp_os.Boot.Triple.{Ends}
use flosp_os.Boot.Rules.{then_print_if, then_check, then_call, ◌$◌, then_if, then_pure}
use flosp_os.Boot.Uefi.{View, Laws, Keeps}
use flosp_os.Boot.Segments.{load_bytes, zero_fill}

module _ {P : Type 0} (u : View P) where
  -- The bytes of the file at `offset` stand at `address`.
  abbrev pub Holds : ℕ → ℕ → ℕ → ℕ → Memory → Type 0
  Holds image offset size address m =
      (i : ℕ) → i < size → m (address + i) ≡ u.file image (offset + i)

  -- What the pool's buffer brings: the file's bytes at the address, if it is owned.
  abbrev pub BytesLoaded : ℕ → ℕ → ℕ → Memory → P → Memory → P → Type 0
  BytesLoaded image size address m p m' p' =
      u.Fine p'
      → u.Fine p
        × (((a : ℕ) → inside address size a ≡ true → u.Owned p a)
            → u.position p image + size ≤ u.file_size image
            → Holds image (u.position p image) size address m')
        × Keeps u address size m p m' p'

  abbrev pub Zeroed : ℕ → ℕ → Memory → P → Memory → P → Type 0
  Zeroed start count m p m' p' =
      u.Fine p'
      → u.Fine p × ((i : ℕ) → i < count → m' (start + i) ≡ 0) × Keeps u start count m p m' p'

-- A byte that was owned before a range became the loader's is not in the range.
pub outside_fresh :
    {P : Type 0} (Owned : P → ℕ → Type 0) (b size : ℕ) (p : P)
    → ((a : ℕ) → inside b size a ≡ true → ¬ (Owned p a))
    → (a : ℕ) → Owned p a
    → inside b size a ≡ false
outside_fresh Owned b size p fresh a own = elim (Bool-cases (inside b size a)) [
  | inl e ↦ absurd (fresh a e own)
  | inr e ↦ e
]

module _ {P : Type 0} (build : Build) (fw : Firmware P) (u : View P) (laws : Laws fw u) where
  module _ (image size address : ℕ) (m : Memory) (p : P) where
    -- The four calls: a buffer, the read, the copy, and the buffer given back.
    through_buffer :
        (let ((_, b), m1, p1) = fw.allocate_pool size 0 m p in
          let ((_, _), m2, p2) = fw.read image b size m1 p1 in
          let (_, m3, p3) = fw.copy_mem address b size m2 p2 in
          let (_, m4, p4) = fw.free_pool b m3 p3 in BytesLoaded u image size address m p m4 p4)
    through_buffer fine4 =
        let ((_, b), m1, p1) = fw.allocate_pool size 0 m p in
        let ((_, _), m2, p2) = fw.read image b size m1 p1 in
        let (_, m3, p3) = fw.copy_mem address b size m2 p2 in
        let (_, m4, p4) = fw.free_pool b m3 p3 in
        let (fine3, _, freed, freed_page) = laws.free_pool_law b m3 p3 fine4 in
        let (fine2, same3, copied, keeps3) = laws.copy_mem_law address b size m2 p2 fine3 in
        let (fine1, _, same2, got, keeps2) = laws.read_law image b size m1 p1 fine2 in
        let (fine, _, still, block1, fresh, keeps1) = laws.allocate_pool_law size 0 m p fine1 in
        let block3 : u.block p3 b ≡ size = same3 b ∙ (same2 b ∙ block1) in
        let kept : (a : ℕ)
            → u.Owned p a
            → u.Owned p4 a × (m4 a ≡ m3 a) × (inside address size a ≡ false → m3 a ≡ m a) =
          λ a own.
            let away = outside_fresh u.Owned b size p (λ c h. (fresh c h).1) a own in
            let (own1, e1) = keeps1.0 a own in
            let (own2, e2) = keeps2.0 a own1 in
            let (own3, e3) = keeps3.0 a own2 in
            let (own4, e4) = freed a own3 (rw block3 away) in
            (own4, e4, λ out. e3 out ∙ (e2 away ∙ e1)) in
        let held : ((a : ℕ) → inside address size a ≡ true → u.Owned p a)
            → u.position p image + size ≤ u.file_size image
            → Holds u image (u.position p image) size address m4 =
          λ owned fits i lt.
            let (_, e4, _) = kept (address + i) (owned (address + i) (ground arith)) in
            e4
            ∙ (copied i lt
                ∙ (got (rw (still image) fits) i lt
                    ∙ ap (λ (t : ℕ). u.file image (t + i)) (still image))) in
        (
          fine,
          held,
          (
            λ a own. let (own4, e4, rest) = kept a own in (own4, λ out. e4 ∙ rest out),
            λ a page. (freed_page a (keeps3.1 a (keeps2.1 a (keeps1.1 a page)))).0,
          ),
        )

    load_bytes-BytesLoaded :
        Ends
          (load_bytes build fw image size address)
          (λ status. BytesLoaded u image size address m p)
          m
          p
    unfolding load_bytes
    load_bytes-BytesLoaded =
        then_print_if _ _
        $ then_call _ _
        $ then_check _ _ _
        $ then_print_if _ _
        $ then_call _ _
        $ then_check _ _ _
        $ then_print_if _ _
        $ then_call _ _
        $ then_check _ _ _
        $ then_print_if _ _
        $ then_call _ _
        $ then_check _ _ _
        $ then_pure _ through_buffer

  zero_fill-Zeroed :
      (start count : ℕ) (m : Memory) (p : P)
      → Ends (zero_fill build fw start count) (λ status. Zeroed u start count m p) m p
  unfolding zero_fill
  zero_fill-Zeroed start count m p =
      then_print_if _ _
      $ then_call _ _
      $ then_check _ _ _
      $ then_pure _ (laws.set_mem_law start count 0 m p)

  -- The two branches that a size of 0 leaves out.
  pub bytes_if-BytesLoaded :
      (image size address status : ℕ) (m : Memory) (p : P)
      → Ends
          (if ltb 0 size then load_bytes build fw image size address else pure status)
          (λ status'. BytesLoaded u image size address m p)
          m
          p
  bytes_if-BytesLoaded image size address status m p =
      then_if (ltb 0 size) (λ _. load_bytes-BytesLoaded image size address m p)
        (λ e. then_pure _ (λ fine. (
          fine,
          λ owned fits i lt. absurd (ground arith),
          (λ a own. (own, λ _. refl), λ a page. page),
        )))

  pub zero_if-Zeroed :
      (start count status : ℕ) (m : Memory) (p : P)
      → Ends
          (if ltb 0 count then zero_fill build fw start count else pure status)
          (λ status'. Zeroed u start count m p)
          m
          p
  zero_if-Zeroed start count status m p =
      then_if (ltb 0 count) (λ _. zero_fill-Zeroed start count m p)
        (λ e. then_pure _ (λ fine.
          (fine, λ i lt. absurd (ground arith), (λ a own. (own, λ _. refl), λ a page. page))))
