-- ===== src/Boot/Table.antt =====
-- The table of the program headers, and what a round of `load_program_segments` adds.
use mathlib.Core.Path.{subst}
use flosp_os.Common.{
  ℕ, suc, ◌+◌, ◌^◌, ◌≤◌, ◌<◌, ◌≡◌, sym, ◌∙◌, Bool, true, false, arith, ◌==◌, ◌⊎◌, inl, inr,
  Bool-cases, u16,
}
use flosp_os.Mem.{Memory}
use flosp_os.Mem.Words.{inside, load_le_cong}
use flosp_os.Boot.Uefi.{View, KeepsAll}
use flosp_os.Boot.Segments.{pt_load, p_type, p_offset, p_filesz, p_memsz, p_paddr, header_at}
use flosp_os.Boot.Pieces.{Holds}
use flosp_os.Boot.Loaded.{Fits, Assembled}

-- What the loader reads of a program header.
pub record Segment : Type 0 where
  pub kind : ℕ
  pub offset : ℕ
  pub file_size : ℕ
  pub memory_size : ℕ
  pub address : ℕ

abbrev pub segment_at : Memory → ℕ → Segment
segment_at m header = record {
  kind = p_type m header;
  offset = p_offset m header;
  file_size = p_filesz m header;
  memory_size = p_memsz m header;
  address = p_paddr m header;
}

-- `a` is a byte of the segment in the memory.
abbrev pub in_segment : Segment → ℕ → Bool
in_segment s a = inside s.address s.memory_size a

-- The segments to load fit.
abbrev pub AllFit : ℕ → ℕ → (ℕ → Segment) → Type 0
AllFit length count seg =
    (j : ℕ)
    → j < count
    → (seg j).kind ≡ pt_load
    → Fits length (seg j).offset (seg j).file_size (seg j).memory_size (seg j).address

-- Headers of the same bytes read the same.
segment_at_cong :
    (m m' : Memory) (header : ℕ)
    → ((a : ℕ) → inside header 56 a ≡ true → m' a ≡ m a)
    → segment_at m' header ≡ segment_at m header
segment_at_cong m m' header same = λ i. record {
  kind = load_le_cong 4 m' m header (λ a p q. same a (ground arith)) i;
  offset = load_le_cong 8 m' m (header + 8) (λ a p q. same a (ground arith)) i;
  file_size = load_le_cong 8 m' m (header + 32) (λ a p q. same a (ground arith)) i;
  memory_size = load_le_cong 8 m' m (header + 40) (λ a p q. same a (ground arith)) i;
  address = load_le_cong 8 m' m (header + 24) (λ a p q. same a (ground arith)) i;
}

from_here : (i j : ℕ) → i ≤ j → (i ≡ j) ⊎ (i + 1 ≤ j)
from_here i j from = elim (Bool-cases (i == j)) [
  | inl e ↦ inl (ground arith)
  | inr e ↦ inr (ground arith)
]

module _ {P : Type 0} (u : View P) (programs count : ℕ) (seg : ℕ → Segment) where
  -- The table is in the memory, and the loader's.
  abbrev pub Intact : Memory → P → Type 0
  Intact m p =
      (j : ℕ)
      → j < count
      → (segment_at m (header_at programs j) ≡ seg j)
        × ((a : ℕ) → inside (header_at programs j) 56 a ≡ true → u.Owned p a)

  -- The segment's bytes, then zeros.
  abbrev pub InMemory : ℕ → Segment → Memory → P → Type 0
  InMemory image s m p =
      Holds u image s.offset s.file_size s.address m
      × ((i : ℕ) → s.file_size ≤ i → i < s.memory_size → m (s.address + i) ≡ 0)
      × ((a : ℕ) → in_segment s a ≡ true → u.Page p a × u.Owned p a)

  -- What the rounds from `i` on do, `left` of them.
  pub record Rounds (image i left loaded loaded' : ℕ) (m : Memory) (p : P) (m' : Memory) (p' : P)
      : Type 0 where
    pub there :
        (j : ℕ) → i ≤ j → j < i + left → (seg j).kind ≡ pt_load → InMemory image (seg j) m' p'
    pub kept : KeepsAll u m p m' p'
    pub counted :
        loaded + left < 2 ^ 16
        → (loaded ≤ loaded')
          × ((j : ℕ) → i ≤ j → j < i + left → (seg j).kind ≡ pt_load → loaded < loaded')

  module _ (image i left loaded n : ℕ) (m m' : Memory) (p p' : P)
      (fit : AllFit (u.file_size image) count seg) (within : i + suc left ≤ count)
      (intact : Intact m p) where
    -- A round that loads the segment, before the rest.
    pub load_round :
        (m1 : Memory) (p1 : P)
        → (seg i).kind ≡ pt_load
        → Assembled u image
            (seg i).offset
            (seg i).file_size
            (seg i).memory_size
            (seg i).address
            m
            p
            m1
            p1
        → (Intact m1 p1 → Rounds image (i + 1) left (u16 (loaded + 1)) n m1 p1 m' p')
        → Rounds image i (suc left) loaded n m p m' p'
    load_round m1 p1 load (held, zeros, owned1, keeps) rest =
        let r = rest (λ j lt.
          let (same, own) = intact j lt in
          (
            segment_at_cong m m1 (header_at programs j) (λ a h. (keeps.0 a (own a h)).1) ∙ same,
            λ a h. (keeps.0 a (own a h)).0,
          )) in
        let (_, le, _, _) = fit i (omega arith) load in
        let stays : (a : ℕ) → in_segment (seg i) a ≡ true → u.Owned p' a × (m' a ≡ m1 a) =
          λ a h. r.kept.0 a (owned1 a h).1 in
        let first : InMemory image (seg i) m' p' = (
          λ x lt. (stays ((seg i).address + x) (ground arith)).1 ∙ held x lt,
          λ x from to. (stays ((seg i).address + x) (ground arith)).1 ∙ zeros x from to,
          λ a h. (r.kept.1 a (owned1 a h).0, (stays a h).0),
        ) in
        record {
          there = λ j from to e. elim (from_here i j from) [
            | inl here ↦ subst (λ k. InMemory image (seg k) m' p') here first
            | inr later ↦ r.there j later (omega arith) e
          ];
          kept = (
            λ a own.
                let (own1, e1) = keeps.0 a own in
                let (own2, e2) = r.kept.0 a own1 in (own2, e2 ∙ e1),
            λ a page. r.kept.1 a (keeps.1 a page),
          );
          counted = λ small.
              let (more, _) = r.counted (omega arith) in
              (omega (arith, more), λ j from to e. omega (arith, more));
        }

    -- A round that passes over the header, before the rest.
    pub pass_round :
        ((seg i).kind == pt_load) ≡ false
        → Rounds image (i + 1) left loaded n m p m' p'
        → Rounds image i (suc left) loaded n m p m' p'
    pass_round other r = record {
      there = λ j from to e. r.there j (later j from e) (omega arith) e;
      kept = r.kept;
      counted = λ small.
          let (more, found) = r.counted (omega arith) in
          (more, λ j from to e. found j (later j from e) (omega arith) e);
    }
      where
        later : (j : ℕ) → i ≤ j → (seg j).kind ≡ pt_load → i + 1 ≤ j
        later j from e = elim (from_here i j from) [
          | inl here ↦
              let load : (seg i).kind ≡ pt_load =
                subst (λ k. (seg k).kind ≡ pt_load) (sym here) e in
              absurd (ground (arith, load, other))
          | inr le ↦ le
        ]
