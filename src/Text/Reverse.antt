-- ===== src/Text/Reverse.antt =====
-- The reversal of the buffer, the null byte, and the string that `kprint` reads.
use flosp_os.Common.{
  ℕ, zero, suc, ◌+◌, ◌-◌, ◌/◌, ◌≤◌, ◌<◌, ◌≡◌, ◌≢◌, inl, inr, ap, refl, sym, ◌∙◌, [], ◌∷◌, true,
  false, ◌&&◌, arith, ltb, leb, ◌==◌, if◌then◌else◌, Bool-cases,
}
use flosp_os.Common.Run.{done, fault}
use flosp_os.Text.{Text, Buffer, update, reverse_loop, c_string, finish}
use flosp_os.Text.Loops.{write-done, write-fault}

-- The characters of `n` cells from `cells[i]` on.
abbrev pub tabulate : ℕ → ℕ → (ℕ → ℕ) → Text
tabulate zero i cells = []
tabulate (suc n) i cells = cells i ∷ tabulate n (i + 1) cells

pub tabulate_cong :
    (n i : ℕ) (f g : ℕ → ℕ)
    → ((j : ℕ) → i ≤ j → j < i + n → f j ≡ g j)
    → tabulate n i f ≡ tabulate n i g
tabulate_cong zero i f g h = refl
tabulate_cong (suc n) i f g h = cc (
  h i (omega arith) (omega arith),
  tabulate_cong n (i + 1) f g (λ j p q. h j (omega arith) (omega arith)),
)

abbrev swap : ℕ → ℕ → (ℕ → ℕ) → ℕ → ℕ
swap k t cells = update (update cells (t - k) (cells k)) k (cells (t - k))

-- The cells between `t - k` and `k`, turned round.
pub turned : ℕ → ℕ → (ℕ → ℕ) → ℕ → ℕ
turned k t cells j = if leb (t - k) j && leb j k then cells (t - j) else cells j

turned-swap :
    (k t : ℕ) (cells : ℕ → ℕ) (j : ℕ)
    → suc k ≤ t
    → t / 2 < suc k
    → turned k t (swap (suc k) t cells) j ≡ turned (suc k) t cells j
unfolding turned
turned-swap k t cells j h m = ground arith

turned_middle : (k t : ℕ) (cells : ℕ → ℕ) (j : ℕ) → k ≤ t / 2 → turned k t cells j ≡ cells j
unfolding turned
turned_middle k t cells j h = ground (arith, ap cells)

pub reverse_loop-turned :
    (size k t : ℕ) (cells : ℕ → ℕ)
    → k ≤ t
    → t < size
    → (cells' : ℕ → ℕ) × (reverse_loop size k t cells ≡ done cells')
      × ((j : ℕ) → cells' j ≡ turned k t cells j)
unfolding reverse_loop
reverse_loop-turned size zero t cells h lt =
    (cells, refl, λ j. sym (turned_middle zero t cells j (omega arith)))
reverse_loop-turned size (suc k) t cells h lt = elim (Bool-cases (ltb (t / 2) (suc k))) [
  | inr no_more ↦ (cells, rw no_more, λ j. sym (turned_middle (suc k) t cells j (ground arith)))
  | inl more ↦
      let (cells', run, at) =
        reverse_loop-turned size k t (swap (suc k) t cells) (omega arith) lt in
      (
        cells',
        rw
            (
              more,
              write-done size cells (t - suc k) (cells (suc k)) (omega arith),
              write-done size (update cells (t - suc k) (cells (suc k))) (suc k) (cells (t - suc k))
                  (omega arith),
            )
            run,
        λ j. at j ∙ turned-swap k t cells j h (ground arith),
      )
]

pub c_string-tabulate :
    (left n i : ℕ) (cells : ℕ → ℕ)
    → n < left
    → ((j : ℕ) → i ≤ j → j < i + n → cells j ≢ 0)
    → cells (i + n) ≡ 0
    → c_string left i cells ≡ done (tabulate n i cells)
unfolding c_string
c_string-tabulate zero n i cells lt ne z = absurd (omega arith)
c_string-tabulate (suc left) zero i cells lt ne z = rw (null) refl
  where
    null : (cells i == 0) ≡ true
    null = let e : i + 0 ≡ i = omega arith in ground (arith, ap cells e)
c_string-tabulate (suc left) (suc n) i cells lt ne z = rw (
  full,
  c_string-tabulate left n (i + 1) cells (omega arith) (λ j p q. ne j (omega arith) (omega arith))
      (ap cells end ∙ z),
)
  where
    full : (cells i == 0) ≡ false
    full = ground (arith, ne i (omega arith) (omega arith))

    end : i + 1 + n ≡ i + suc n
    end = omega arith

module _ (t : ℕ) (f cells : ℕ → ℕ) (at : (j : ℕ) → cells j ≡ turned t t f j) where
  closed_cell : (j : ℕ) → j ≤ t → update cells (t + 1) 0 j ≡ f (t - j)
  unfolding turned
  closed_cell j h = ground (arith, at j)

  closed_text :
      (size : ℕ)
      → t + 1 < size
      → ((j : ℕ) → j ≤ t → f j ≢ 0)
      → c_string size 0 (update cells (t + 1) 0) ≡ done (tabulate (suc t) 0 (λ j. f (t - j)))
  closed_text size lt ne =
      c_string-tabulate size (suc t) 0 (update cells (t + 1) 0) (omega arith) non_null
        (ground arith)
      ∙ ap done (tabulate_cong (suc t) 0 _ (λ j. f (t - j)) (λ j p q. closed_cell j (omega arith)))
    where
      non_null : (j : ℕ) → 0 ≤ j → j < 0 + suc t → update cells (t + 1) 0 j ≢ 0
      non_null j p q z = ne (t - j) (omega arith) (sym (closed_cell j (omega arith)) ∙ z)

-- With room for the null byte, the text is the buffer's characters in reverse.
pub finish-reverse :
    (size t : ℕ) (b : Buffer)
    → b.top ≡ t
    → t + 1 < size
    → ((j : ℕ) → j ≤ t → b.cells j ≢ 0)
    → finish size b ≡ done (tabulate (suc t) 0 (λ j. b.cells (t - j)))
unfolding finish
finish-reverse size t b e lt ne =
    let (cells, run, at) = reverse_loop-turned size t t b.cells (omega arith) (omega arith) in
    rw (e, run, write-done size cells (t + 1) 0 lt) (closed_text t b.cells cells at size lt ne)

-- Without it, the null byte is written past the end of the buffer.
pub finish-fault :
    (size t : ℕ) (b : Buffer) → b.top ≡ t → t < size → size ≤ t + 1 → finish size b ≡ fault
unfolding finish
finish-fault size t b e lt full =
    let (cells, run, at) = reverse_loop-turned size t t b.cells (omega arith) lt in
    rw (e, run, write-fault size cells (t + 1) 0 full)
