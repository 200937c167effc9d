-- ===== src/Boot/Search.antt =====
-- The search for the XSDP: which entry of the configuration table it takes.
use mathlib.Core.Path.{subst}
use flosp_os.Common.{
  ℕ, zero, suc, ◌+◌, ◌*◌, ◌/◌, ◌^◌, ◌≤◌, ◌<◌, ◌≡◌, ◌↔◌, ◌⊎◌, inl, inr, sym, ◌∙◌, ap, refl, Bool,
  true, false, arith, ltb, bit_or, u16, if◌then◌else◌, Bool-cases, ◌&&◌,
}
use flosp_os.Common.Bits.{bit_or_halves}
use flosp_os.Common.Run.{done}
use flosp_os.Mem.{Memory}
use flosp_os.Boot.Xsdp.{
  Guid, sub32, widen, compare_efi_guid, acpi2_guid, vendor_guid, vendor_table, has_signature, takes,
  xsdp_loop, find_xsdp, entry_size,
}

-- The words of two GUIDs are the same.
abbrev pub SameGuid : Guid → Guid → Type 0
SameGuid g1 g2 = (g1 0 ≡ g2 0) × (g1 1 ≡ g2 1) × (g1 2 ≡ g2 2) × (g1 3 ≡ g2 3)

abbrev pub IsGuid : Guid → Type 0
IsGuid g = (i : ℕ) → g i < 2 ^ 32

bit_or-zero : (n a b : ℕ) → a ≤ n → b ≤ n → bit_or a b ≡ 0 → a + b ≡ 0
bit_or-zero zero a b p q e = omega arith
bit_or-zero (suc n) a b p q e =
    let halves = bit_or_halves a b in
    omega (
      arith,
      halves,
      bit_or-zero n (a / 2) (b / 2) (omega arith) (omega arith) (omega (arith, halves)),
    )

both_zero : (a b : ℕ) → bit_or a b ≡ 0 → a + b ≡ 0
both_zero a b e = bit_or-zero (a + b) a b (omega arith) (omega arith) e

sub32-zero : (a b : ℕ) → a < 2 ^ 32 → b < 2 ^ 32 → sub32 a b ≡ 0 → a ≡ b
sub32-zero a b p q e = omega arith

sub32-same : (a b : ℕ) → a ≡ b → sub32 a b ≡ 0
sub32-same a b e = omega arith

widen-zero : (r : ℕ) → widen r ≡ 0 → r ≡ 0
widen-zero r e = ground arith

compare_efi_guid-same : (g1 g2 : Guid) → SameGuid g1 g2 → compare_efi_guid g1 g2 ≡ 0
unfolding compare_efi_guid
compare_efi_guid-same g1 g2 (e0, e1, e2, e3) =
    let nothing = λ (a b : ℕ) (e : a ≡ b). sub32-same a b e in
    rw (nothing _ _ e0, nothing _ _ e1, nothing _ _ e2, nothing _ _ e3) refl

-- The comparison is 0 just when all the words are the same.
pub compare_efi_guid-zero :
    (g1 g2 : Guid) → IsGuid g1 → IsGuid g2 → (compare_efi_guid g1 g2 ≡ 0) ↔ SameGuid g1 g2
unfolding compare_efi_guid
compare_efi_guid-zero g1 g2 p q = (same, compare_efi_guid-same g1 g2)
  where
    d : ℕ → ℕ
    d i = sub32 (g1 i) (g2 i)

    same : compare_efi_guid g1 g2 ≡ 0 → SameGuid g1 g2
    same e =
        let all = both_zero (bit_or (bit_or (d 0) (d 1)) (d 2)) (d 3) (widen-zero _ e) in
        let three = both_zero (bit_or (d 0) (d 1)) (d 2) (omega (arith, all)) in
        let two = both_zero (d 0) (d 1) (omega (arith, three)) in
        (
          omega (arith, two, p 0, q 0),
          omega (arith, two, p 1, q 1),
          omega (arith, three, p 2, q 2),
          omega (arith, all, p 3, q 3),
        )

-- The entry that the search takes among the first `n`: the last one that passes its tests.
unfoldable pub last_taken : Memory → ℕ → ℕ → ℕ
last_taken m table zero = 0
last_taken m table (suc i) =
    if takes m i (table + entry_size * i)
    then vendor_table m (table + entry_size * i)
    else last_taken m table i

xsdp_loop-last_taken :
    (m : Memory) (table count fuel i temp xsdp : ℕ)
    → i ≤ count
    → count < i + fuel
    → count < 2 ^ 16
    → temp ≡ table + entry_size * i
    → xsdp ≡ last_taken m table i
    → xsdp_loop fuel m count i temp xsdp ≡ done (last_taken m table count)
unfolding xsdp_loop last_taken
xsdp_loop-last_taken m table count zero i temp xsdp p q small t x = absurd (omega arith)
xsdp_loop-last_taken m table count (suc fuel) i temp xsdp p q small t x =
    elim (Bool-cases (ltb i count)) [
      | inl more ↦
          let next : u16 (i + 1) ≡ suc i = ground arith in
          let step : (if takes m i temp then vendor_table m temp else xsdp)
              ≡ last_taken m table (suc i) =
            rw (t, x) refl in
          rw more (
            xsdp_loop-last_taken m table count fuel (u16 (i + 1)) (temp + entry_size)
              (if takes m i temp then vendor_table m temp else xsdp) (ground (arith, next))
              (omega (arith, next)) small (omega (arith, next))
              (subst
                (λ k. (if takes m i temp then vendor_table m temp else xsdp) ≡ last_taken m table k)
                (sym next) step))
      | inr over ↦
          let end : i ≡ count = ground arith in rw over (ap done (x ∙ ap (last_taken m table) end))
    ]

-- With a count that fits into 16 bits, the search ends with the last entry that passes its tests.
pub find_xsdp-last_taken :
    (m : Memory) (table count : ℕ)
    → count < 2 ^ 16
    → find_xsdp m table count ≡ done (last_taken m table count)
unfolding find_xsdp last_taken
find_xsdp-last_taken m table count small =
    xsdp_loop-last_taken m table count (2 ^ 16) 0 table 0 (omega arith) (omega arith) small
      (omega arith) refl

-- Where the entry at twice the index has the GUID of the ACPI tables, or the signature is missing, an
-- entry is passed over, and a table of such entries has no XSDP for the search: it takes 0.
pub find_xsdp-passed :
    (m : Memory) (table count : ℕ)
    → count < 2 ^ 16
    → ((i : ℕ)
        → i < count
        → SameGuid (vendor_guid m (table + entry_size * (2 * i))) acpi2_guid
          ⊎ (has_signature m (vendor_table m (table + entry_size * i)) ≡ false))
    → find_xsdp m table count ≡ done 0
unfolding last_taken
find_xsdp-passed m table count small passed =
    find_xsdp-last_taken m table count small ∙ ap done (none_taken count (omega arith))
  where
    and_false : (b : Bool) → (b && false) ≡ false
    and_false true = refl
    and_false false = refl

    not_taken : (i : ℕ) → i < count → takes m i (table + entry_size * i) ≡ false
    not_taken i lt = elim (passed i lt) [
      | inl same ↦
          let at : table + entry_size * (2 * i) ≡ table + entry_size * i + entry_size * i =
            omega arith in
          let nothing =
            compare_efi_guid-same (vendor_guid m (table + entry_size * i + entry_size * i))
              acpi2_guid (subst (λ a. SameGuid (vendor_guid m a) acpi2_guid) at same) in
          unfold takes in rw nothing refl
      | inr missing ↦ unfold takes in rw missing (and_false _)
    ]

    none_taken : (n : ℕ) → n ≤ count → last_taken m table n ≡ 0
    none_taken zero le = refl
    none_taken (suc i) le = rw (not_taken i (omega arith)) (none_taken i (omega arith))
