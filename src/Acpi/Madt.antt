-- ===== src/Acpi/Madt.antt =====
-- The walk of `get_madt_entry_addr` over the entries of the MADT.
use native.Mathlib.Nat.{mod-eq_of_lt}
use flosp_os.Common.{
  ℕ, zero, suc, ◌+◌, ◌^◌, ◌≤◌, ◌<◌, ◌≡◌, ◌≢◌, inl, inr, false, arith, leb, ◌==◌, Bool-cases, u64,
  leb→le, ==_iff,
}
use flosp_os.Common.Run.{done}
use flosp_os.Mem.{Memory}
use flosp_os.Mem.Words.{IsBytes}
use flosp_os.Machine.{Machine}
use flosp_os.Acpi.{walk_entries, get_madt_entry_addr, madt_limit}

-- The entries from an address on: each one's length is in its second byte.
module _ (m : Memory) where
  pub data Entry : ℕ → ℕ → Type 0 where
    here : {a : ℕ} → Entry a a
    next : {a b : ℕ} → m (a + 1) ≢ 0 → Entry (a + m (a + 1)) b → Entry a b

  -- What a walk from `a` comes to: an entry of the type up to the limit, or none up to there.
  pub data Walked (entry_type limit a : ℕ) : ℕ → Type 0 where
    found : {r : ℕ} → Entry a r → r ≤ limit → m r ≡ entry_type → Walked entry_type limit a r
    missing : ((r : ℕ) → Entry a r → r ≤ limit → m r ≢ entry_type) → Walked entry_type limit a 0

  Entry-le : {a b : ℕ} → Entry a b → a ≤ b
  Entry-le here = omega arith
  Entry-le (next long e) = omega (arith, Entry-le e)

  -- The entry at `a` is of another type: an entry of the type lies behind it.
  behind :
      (entry_type a r : ℕ)
      → m a ≢ entry_type
      → Entry a r
      → m r ≡ entry_type
      → (m (a + 1) ≢ 0) × Entry (a + m (a + 1)) r
  behind entry_type a r other here e = absurd (other e)
  behind entry_type a r other (next long rest) e = (long, rest)

  Walked-next :
      (entry_type limit a r : ℕ)
      → m a ≢ entry_type
      → m (a + 1) ≢ 0
      → Walked entry_type limit (a + m (a + 1)) r
      → Walked entry_type limit a r
  Walked-next entry_type limit a r other long (found e le is) = found (next long e) le is
  Walked-next entry_type limit a r other long (missing none_there) =
      missing (λ b e le is. none_there b (behind entry_type a b other e is).1 le is)

  differ : (x y : ℕ) → (x == y) ≡ false → x ≢ y
  differ x y e = λ p. ground arith

  module _ (bytes : IsBytes m) (entry_type limit : ℕ) (room : limit + 256 ≤ 2 ^ 64) where
    walk_entries-Walked :
        (fuel a : ℕ)
        → limit < fuel + a
        → (r : ℕ) × (walk_entries m entry_type limit (suc fuel) a ≡ done r)
          × Walked entry_type limit a r
    unfolding walk_entries
    walk_entries-Walked zero a enough =
        (0, rw (past a enough), missing (λ r e le is. omega (arith, Entry-le e)))
      where
        past : (a : ℕ) → limit < 0 + a → leb a limit ≡ false
        past a enough = ground arith
    walk_entries-Walked (suc fuel) a enough = elim (Bool-cases (leb a limit)) [
      | inr past ↦ (0, rw past, missing (λ r e le is. ground (arith, Entry-le e)))
      | inl inside ↦ elim (Bool-cases (m a == entry_type)) [
        | inl is ↦ (
          a,
          rw (inside, is),
          found here (leb→le a limit inside) ((==_iff (m a) entry_type).0 is),
        )
        | inr other ↦ elim (Bool-cases (m (a + 1) == 0)) [
          | inl ends ↦ (
            0,
            rw (inside, other, ends),
            missing (λ r e le is.
                (behind entry_type a r (differ (m a) entry_type other) e is).0
                  ((==_iff (m (a + 1)) 0).0 ends)),
          )
          | inr long ↦
              let (r, run, walked) = walk_entries-Walked fuel (a + m (a + 1)) (ground arith) in
              (
                r,
                rw (inside, other, long, no_wrap a (leb→le a limit inside)) run,
                Walked-next entry_type limit a r (differ (m a) entry_type other)
                    (differ (m (a + 1)) 0 long) walked,
              )
        ]
      ]
    ]
      where
        no_wrap : (a : ℕ) → a ≤ limit → u64 (a + m (a + 1)) ≡ a + m (a + 1)
        no_wrap a le = mod-eq_of_lt (omega (arith, bytes (a + 1)))

-- The walk ends, with an entry of the type within the limit, or with the null pointer if there is none,
-- in a memory of bytes, if the table lies below 2 ^ 64 and its limit at least 256 below.
pub get_madt_entry_addr-Walked :
    (entry_type : ℕ) (s : Machine)
    → IsBytes s.env.mem
    → madt_limit s.env.mem s.acpi.madt + 256 ≤ 2 ^ 64
    → s.acpi.madt + 0x2c < 2 ^ 64
    → (r : ℕ) × (get_madt_entry_addr entry_type s ≡ done r)
      × Walked s.env.mem entry_type (madt_limit s.env.mem s.acpi.madt) (s.acpi.madt + 0x2c) r
unfolding get_madt_entry_addr
get_madt_entry_addr-Walked entry_type s bytes room start =
    let (r, run, walked) =
      walk_entries-Walked s.env.mem bytes entry_type (madt_limit s.env.mem s.acpi.madt) room
        (madt_limit s.env.mem s.acpi.madt) (s.acpi.madt + 0x2c) (omega arith) in
    (r, rw (mod-eq_of_lt start) run, walked)
