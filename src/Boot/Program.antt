-- ===== src/Boot/Program.antt =====
-- `load_program_segments` loads every segment that the program headers ask for.
use mathlib.Core.Path.{subst}
use flosp_os.Common.{ℕ, zero, suc, ◌+◌, ◌^◌, ◌≤◌, ◌<◌, ◌≡◌, refl, sym, ◌∙◌, arith, ◌==◌, ap, u16}
use flosp_os.Common.Run.{Run, done}
use flosp_os.Mem.{Memory}
use flosp_os.Boot.Efi.{Firmware, Build, World, Outcome, value}
use flosp_os.Boot.Codes.{efi_success}
use flosp_os.Boot.Triple.{Ends, then_weaken, final, Ends-final}
use flosp_os.Boot.Rules.{
  then_get, then_do, then_check_quiet, ◌$◌, then_if, then_pure, then_function, body_do, body_guard,
  body_get, body_print_if,
}
use flosp_os.Boot.Uefi.{View, Laws, KeepsAll}
use flosp_os.Boot.Segments.{
  pt_load, p_type, p_offset, p_filesz, p_memsz, p_paddr, header_at, segments_loop,
  load_program_segments,
}
use flosp_os.Boot.Elf.{e_phnum}
use flosp_os.Boot.Loaded.{Fits, Assembled, load_segment-SegmentLoaded}
use flosp_os.Boot.Table.{Segment, AllFit, Intact, InMemory, Rounds, load_round, pass_round}

module _ {P : Type 0} (build : Build) (fw : Firmware P) (u : View P) (laws : Laws fw u)
    (image programs count : ℕ) (seg : ℕ → Segment)
    (fit : AllFit (u.file_size image) count seg) where
  abbrev RoundsDone : ℕ → ℕ → ℕ → Memory → P → ℕ × ℕ → Memory → P → Type 0
  RoundsDone i left loaded m p (status, n) m' p' =
      u.Fine p'
      → u.Fine p
        × (i + left ≤ count
            → Intact u programs count seg m p
            → Rounds u programs count seg image i left loaded n m p m' p')

  segments_loop-RoundsDone :
      (left i status loaded : ℕ) (m : Memory) (p : P)
      → Ends
          (segments_loop build fw left i image programs status loaded)
          (RoundsDone i left loaded m p)
          m
          p
  unfolding segments_loop
  segments_loop-RoundsDone zero i status loaded m p = then_pure _ (λ fine. (
    fine,
    λ within intact. record {
      there = λ j from to. absurd (omega arith);
      kept = (λ a own. (own, refl), λ a page. page);
      counted = λ small. (omega arith, λ j from to. absurd (omega arith));
    },
  ))
  segments_loop-RoundsDone (suc left) i status loaded m p =
      let header = header_at programs i in
      then_get _ $ λ printed.
      then_if (p_type m header == pt_load)
        (λ load.
          then_do
          $ then_weaken
              (load_segment-SegmentLoaded build fw u laws image (p_offset m header)
                (p_filesz m header) (p_memsz m header) (p_paddr m header) m p)
              (λ status' m1 p1 first.
                then_check_quiet _ _
                $ then_weaken
                    (segments_loop-RoundsDone left (i + 1) status' (u16 (loaded + 1)) m1 p1)
                    (λ (_, n) m' p' rest fine'.
                      let (fine1, rounds) = rest fine' in
                      let (fine, assembled) = first fine1 in
                      (
                        fine,
                        λ within intact.
                            let same = (intact i (omega arith)).0 in
                            let kind : (seg i).kind ≡ pt_load =
                              sym (ap (λ s. s.kind) same) ∙ ground (arith, load) in
                            load_round u programs count seg image i left loaded n m m' p p' fit
                              within intact m1 p1 kind
                              (subst
                                (λ s.
                                  Fits (u.file_size image) s.offset s.file_size s.memory_size
                                    s.address
                                  → Assembled u image s.offset s.file_size s.memory_size s.address m
                                      p m1 p1)
                                same assembled (fit i (omega arith) kind))
                              (rounds (omega arith)),
                      ))))
        (λ other.
          then_weaken (segments_loop-RoundsDone left (i + 1) status loaded m p)
            (λ (_, n) m' p' rest fine'.
              let (fine, rounds) = rest fine' in
              (
                fine,
                λ within intact.
                    pass_round u programs count seg image i left loaded n m m' p p' fit within
                      intact (ap (λ s. s.kind == pt_load) (sym (intact i (omega arith)).0) ∙ other)
                      (rounds (omega arith) intact),
              )))

  -- Every segment to load is in the memory, and what was owned is as it was.
  abbrev pub AllLoaded : Memory → P → Memory → P → Type 0
  AllLoaded m p m' p' =
      ((j : ℕ)
        → j < count
        → (seg j).kind ≡ pt_load
        → InMemory u programs count seg image (seg j) m' p')
      × KeepsAll u m p m' p'

  abbrev pub AllDone : ℕ → Memory → P → ℕ → Memory → P → Type 0
  AllDone header m p status m' p' =
      u.Fine p'
      → u.Fine p
        × (e_phnum m header ≡ count → Intact u programs count seg m p → AllLoaded m p m' p')

  -- Some program header asks for a segment: then the loader does not find that there is none.
  pub load_program_segments-AllDone :
      {R : Type 0} (header : ℕ) (m : Memory) (p : P) (j : ℕ)
      → count < 2 ^ 16
      → j < count
      → (seg j).kind ≡ pt_load
      → Ends {R = R} (load_program_segments build fw image header programs) (AllDone header m p) m p
  unfolding load_program_segments
  load_program_segments-AllDone header m p j small lt load = body_get _ $ λ printed.
      body_guard _ _ _ _ (λ none_found fine. (fine, λ number. absurd (ground (arith, number))))
      $ λ some_found.
          body_print_if _ _ _
          $ body_do _
          $ then_weaken (segments_loop-RoundsDone (e_phnum m header) 0 efi_success 0 m p)
              (λ (status, n) m' p' ended.
                let all : e_phnum m header ≡ count → RoundsDone 0 count 0 m p (status, n) m' p' =
                  λ number. subst (λ c. RoundsDone 0 c 0 m p (status, n) m' p') number ended in
                body_guard _ _ _ _ (λ none_loaded fine'. (
                  (ended fine').0,
                  λ number intact.
                      let (_, found) =
                        ((all number fine').1 (omega arith) intact).counted
                          (omega (arith, small)) in
                      absurd (ground (arith, found j (omega arith) (omega arith) load)),
                ))
                $ λ some_loaded. then_function $ then_pure _ $ λ fine'. (
                  (ended fine').0,
                  λ number intact.
                      let r = (all number fine').1 (omega arith) intact in
                      (λ k to. r.there k (omega arith) (omega arith), r.kept),
                ))

  abbrev pub program_run : ℕ → World P → Run (Outcome ℕ ℕ × World P)
  program_run header w = load_program_segments build fw image header programs w

  -- From any state whose program headers are intact and of which one asks for a segment, the function
  -- returns, and if no service has failed, every segment is in the memory and what was owned is as it
  -- was.
  pub load_program_segments-loaded :
      (header : ℕ) (w : World P) (j : ℕ)
      → e_phnum w.mem header ≡ count
      → count < 2 ^ 16
      → j < count
      → (seg j).kind ≡ pt_load
      → Intact u programs count seg w.mem w.private
      → u.Fine (final w (program_run header w)).private
      → ((status : ℕ) × (program_run header w
            ≡ done (value status, final w (program_run header w))))
        × AllLoaded w.mem w.private
            (final w (program_run header w)).mem
            (final w (program_run header w)).private
  load_program_segments-loaded header w j number small lt load intact fine =
      let (status, e, all) =
        Ends-final (load_program_segments-AllDone header w.mem w.private j small lt load)
          w.printed in
      ((status, e), (all fine).1 number intact)
