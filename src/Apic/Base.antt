-- ===== src/Apic/Base.antt =====
-- apic.c: the base register and the checksum, in plain arithmetic.
use flosp_os.Common.{
  ℕ, zero, suc, ◌+◌, ◌-◌, ◌*◌, ◌/◌, ◌%◌, ◌^◌, ◌≡◌, ◌∙◌, ap, arith, ◌==◌, bit_and, bit_or, u16, u32,
  u64, ◌<<◌, ◌>>>◌,
}
use flosp_os.Common.Bits.{bit_and_high, bit_and_low, bit_or_fields, bit_or_comm}
use flosp_os.Common.Run.{done}
use flosp_os.Mem.{Memory}
use flosp_os.Machine.{Machine, value, ◌>>◌}
use flosp_os.Apic.{sum_chars, signed_char, validate_rsdp, lapic_set_base, lapic_get_base}

-- The bits of a number from `k` on, `n` of them, where they stand.
field_mask : (k n a : ℕ) → bit_and a ((2 ^ n - 1) * 2 ^ k) ≡ a / 2 ^ k % 2 ^ n * 2 ^ k
field_mask k n a =
    bit_and_high k a (2 ^ n - 1) ∙ ap (λ (t : ℕ). t * 2 ^ k) (bit_and_low n (a / 2 ^ k))

-- What `lapic_set_base` writes to the lower half of the register.
low_half : (b : ℕ) → bit_or (bit_and b 0xfffff0000) 0x800 ≡ b / 2 ^ 16 % 2 ^ 20 * 2 ^ 16 + 0x800
low_half b =
    ap (λ (t : ℕ). bit_or t 0x800) (field_mask 16 20 b)
    ∙ bit_or_fields 16 (b / 2 ^ 16 % 2 ^ 20) 0x800 (omega arith)

-- What `lapic_get_base` makes of the register.
both_halves :
    (r : ℕ)
    → bit_or (bit_and (u32 r) 0xfffff000) (u64 (bit_and (r >>> 32) 0x0f << 32))
      ≡ r / 2 ^ 32 % 2 ^ 4 * 2 ^ 32 + u32 r / 2 ^ 12 * 2 ^ 12
both_halves r =
    ap (λ (t : ℕ). bit_or (bit_and (u32 r) 0xfffff000) t) upper
    ∙ bit_or_comm (bit_and (u32 r) 0xfffff000) (r / 2 ^ 32 % 2 ^ 4 * 2 ^ 32)
    ∙ ap (λ (t : ℕ). bit_or (r / 2 ^ 32 % 2 ^ 4 * 2 ^ 32) t) lower
    ∙ bit_or_fields 32 (r / 2 ^ 32 % 2 ^ 4) (u32 r / 2 ^ 12 * 2 ^ 12) (omega arith)
  where
    lower : bit_and (u32 r) 0xfffff000 ≡ u32 r / 2 ^ 12 * 2 ^ 12
    lower = omega (arith, field_mask 12 20 (u32 r))

    upper : u64 (bit_and (r >>> 32) 0x0f << 32) ≡ r / 2 ^ 32 % 2 ^ 4 * 2 ^ 32
    upper = omega (arith, bit_and_low 4 (r / 2 ^ 32))

-- Of a base address that was set, the bits 16 to 35 can be read again: the bits 12 to 15 are lost, for
-- all that they belong to the address.
pub lapic_get_base-set_base :
    (b : ℕ) (s : Machine)
    → value ((lapic_set_base b >> lapic_get_base) s) ≡ done (b / 2 ^ 16 % 2 ^ 20 * 2 ^ 16)
unfolding lapic_set_base lapic_get_base
lapic_get_base-set_base b s = ap done (both_halves register ∙ read_back)
  where
    register : ℕ
    register = u32 (bit_and (b >>> 32) 15) * 2 ^ 32 + u32 (bit_or (bit_and b 0xfffff0000) 0x800)

    read_back :
        register / 2 ^ 32 % 2 ^ 4 * 2 ^ 32 + u32 register / 2 ^ 12 * 2 ^ 12
        ≡ b / 2 ^ 16 % 2 ^ 20 * 2 ^ 16
    read_back = omega (arith, bit_and_low 4 (b / 2 ^ 32), low_half b)

-- The sum of `n` bytes from `addr` on.
abbrev pub byte_sum : Memory → ℕ → ℕ → ℕ
byte_sum m zero addr = 0
byte_sum m (suc n) addr = m addr + byte_sum m n (addr + 1)

sum_chars-byte_sum :
    (m : Memory) (n addr sum : ℕ) → sum_chars m n addr sum % 256 ≡ (sum + byte_sum m n addr) % 256
unfolding sum_chars
sum_chars-byte_sum m zero addr sum = omega arith
sum_chars-byte_sum m (suc n) addr sum = omega (
  arith,
  sum_chars-byte_sum m n (addr + 1) (u32 (sum + signed_char (m addr))),
  signed_char-mod (m addr),
)
  where
    signed_char-mod : (b : ℕ) → signed_char b % 256 ≡ b % 256
    signed_char-mod b = ground arith

-- The check by signed characters in 32 bits is the check of the bytes: the sum is a multiple of 256.
pub validate_rsdp-byte_sum :
    (m : Memory) (rsdp size : ℕ)
    → validate_rsdp m rsdp size ≡ (byte_sum m (u16 size) rsdp % 256 == 0)
unfolding validate_rsdp
validate_rsdp-byte_sum m rsdp size =
    same (bit_and_low 8 sum) (sum_chars-byte_sum m (u16 size) rsdp 0)
  where
    sum : ℕ
    sum = sum_chars m (u16 size) rsdp 0

    same :
        bit_and sum 0xff ≡ sum % 2 ^ 8
        → sum % 256 ≡ (0 + byte_sum m (u16 size) rsdp) % 256
        → (bit_and sum 0xff == 0) ≡ (byte_sum m (u16 size) rsdp % 256 == 0)
    same low total = ap (λ (t : ℕ). t == 0) (omega arith)
