-- ===== src/Vga/Line.antt =====
-- What `draw_line` draws: the pixels of a buffer, and one line of a glyph.
use native.Mathlib.Nat.{mod-eq_of_lt, pow-suc, div-div-eq-div-mul, div-one}
use Prim.Native.Nat.pow
use flosp_os.Common.{
  ℕ, zero, suc, ◌+◌, ◌-◌, ◌*◌, ◌/◌, ◌%◌, ◌^◌, ◌≤◌, ◌<◌, ◌≡◌, ◌∙◌, ap, inl, inr, Bool, true, false,
  ◌&&◌, arith, ltb, leb, ◌==◌, if◌then◌else◌, Bool-cases,
}
use flosp_os.Mem.{Memory, load_le, store_le}
use flosp_os.Mem.Words.{load_le_cong, load_le-store_le, store_le_outside}
use flosp_os.Vga.{draw_line}

-- The pixel number `q` of the buffer at `back`.
abbrev pub pixel : Memory → ℕ → ℕ → ℕ
pixel m back q = load_le 4 m (back + 4 * q)

pixel-store :
    (m : Memory) (back p q v : ℕ)
    → v < 2 ^ 32
    → pixel (store_le 4 m (back + 4 * p) v) back q ≡ (if q == p then v else pixel m back q)
pixel-store m back p q v fits = elim (Bool-cases (q == p)) [
  | inl same ↦
      let e : q ≡ p = ground arith in
      rw (same, e, load_le-store_le 4 m (back + 4 * p) v) (mod-eq_of_lt fits)
  | inr other ↦ rw other (
      load_le_cong 4 (store_le 4 m (back + 4 * p) v) m (back + 4 * q)
        (λ a lo hi. store_le_outside 4 m (back + 4 * p) v a (ground (arith, other))))
]

-- Bit `k` of a byte chooses the colour.
abbrev pub colour : ℕ → ℕ → ℕ → ℕ → ℕ
colour ch k on off = if ch / 2 ^ k % 2 == 1 then on else off

-- Whether the pixel in row `r` and column `x` is in the cell of `lines` rows from `top` on, eight
-- columns from `col` on.
abbrev pub in_cell : ℕ → ℕ → ℕ → ℕ → ℕ → Bool
in_cell lines top col r x = (leb top r && ltb r (top + lines)) && (leb col x && ltb x (col + 8))

-- Pixel `q` is one of the `n` pixels that end in `p`.
abbrev pub hit : ℕ → ℕ → ℕ → Bool
hit n p q = leb (p + 1) (q + n) && leb q p

module _ (back on off : ℕ) (on_fits : on < 2 ^ 32) (off_fits : off < 2 ^ 32) where
  bit_halves : (ch k : ℕ) → ch / 2 / 2 ^ k ≡ ch / 2 ^ suc k
  bit_halves ch k =
      div-div-eq-div-mul ch 2 (2 ^ k) ∙ ap (λ (n : ℕ). ch / n) (omega (arith, pow-suc 2 k))

  colour_first : (ch : ℕ) → (if ch % 2 == 1 then on else off) ≡ colour ch 0 on off
  colour_first ch = rw (pow.zero 2, div-one)

  colour-fits : (b : Bool) → (if b then on else off) < 2 ^ 32
  colour-fits true = on_fits
  colour-fits false = off_fits

  colour_next : (ch p q : ℕ) → q ≤ p → colour (ch / 2) (p - q) on off ≡ colour ch (suc p - q) on off
  colour_next ch p q h =
      let e : suc p - q ≡ suc (p - q) = omega arith in rw (e, bit_halves ch (p - q))

  line_step :
      (n p ch q old : ℕ)
      → n ≤ p + 1
      → (if hit n p q
          then colour (ch / 2) (p - q) on off
          else if q == suc p
          then (if ch % 2 == 1 then on else off)
          else old)
        ≡ (if hit (suc n) (suc p) q then colour ch (suc p - q) on off else old)
  line_step n p ch q old h = elim (Bool-cases (q == suc p)) [
    | inl last ↦
        let e : q ≡ suc p = ground arith in
        let zero_bit : suc p - suc p ≡ 0 = omega arith in
        let out : hit n p (suc p) ≡ false = ground arith in
        let in_ : hit (suc n) (suc p) (suc p) ≡ true = ground arith in
        let same : (suc p == suc p) ≡ true = ground arith in
        rw (e, out, in_, same, zero_bit) (colour_first ch)
    | inr other ↦ elim (Bool-cases (hit n p q)) [
      | inl drawn ↦
          let in_ : hit (suc n) (suc p) q ≡ true = ground arith in
          rw (drawn, in_) (colour_next ch p q (ground arith))
      | inr old ↦ let out : hit (suc n) (suc p) q ≡ false = ground arith in rw (old, out, other)
    ]
  ]

  pub draw_line-pixel :
      (n p ch : ℕ) (m : Memory) (q : ℕ)
      → n ≤ p + 1
      → pixel (draw_line n (back + 4 * p) ch on off m) back q
        ≡ (if hit n p q then colour ch (p - q) on off else pixel m back q)
  unfolding draw_line
  draw_line-pixel zero p ch m q h = ground arith
  draw_line-pixel (suc zero) zero ch m q h =
      let c = if ch % 2 == 1 then on else off in
      pixel-store m back 0 q c (colour-fits (ch % 2 == 1)) ∙ single
    where
      single :
          (if q == 0 then (if ch % 2 == 1 then on else off) else pixel m back q)
          ≡ (if hit 1 0 q then colour ch (0 - q) on off else pixel m back q)
      single = elim (Bool-cases (q == 0)) [
        | inl first ↦ let e : q ≡ 0 = ground arith in rw e (colour_first ch)
        | inr other ↦ let out : hit 1 0 q ≡ false = ground arith in rw (other, out)
      ]
  draw_line-pixel (suc (suc n)) zero ch m q h = absurd (omega arith)
  draw_line-pixel (suc n) (suc p) ch m q h =
      let down : back + 4 * suc p - 4 ≡ back + 4 * p = omega arith in
      let c = if ch % 2 == 1 then on else off in
      rw
        (
          down,
          draw_line-pixel n p (ch / 2) (store_le 4 m (back + 4 * suc p) c) q (omega arith),
          pixel-store m back (suc p) q c (colour-fits (ch % 2 == 1)),
        )
        (line_step n p ch q (pixel m back q) (omega arith))
