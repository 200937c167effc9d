-- ===== src/Ps2/Init/Findings.antt =====
-- ps2.c, `ps2_init`: what the checks of the configuration byte and the flags of the ports come to.
use flosp_os.Common.{
  ℕ, ◌+◌, ◌/◌, ◌%◌, ◌≡◌, ap, false, arith, ◌==◌, if◌then◌else◌, bit_or, Bool-cases,
}
use flosp_os.Common.Bits.{bit_and_high, bit_and_low, bit_or_halves, bit_or-zero}
use flosp_os.Common.Run.{done}
use flosp_os.Machine.{value, Machine}
use flosp_os.Ps2.Checks.{first_dual_check, second_dual_check}
use flosp_os.Ps2.Init.{with_interrupts}

-- The first check can never find a second port: a byte's bit 5 alone is 0 or 32, and it is compared to 1.
pub first_dual_check-never : (config_byte : ℕ) → first_dual_check config_byte ≡ false
unfolding first_dual_check
first_dual_check-never config_byte = ground (arith, bit_and_high 5 config_byte 1)

-- The second check finds a port exactly when bit 5 is clear, of whatever configuration byte.
pub second_dual_check-bit :
    (config_byte : ℕ) → second_dual_check config_byte ≡ (config_byte / 32 % 2 == 0)
unfolding second_dual_check
second_dual_check-bit config_byte =
    ground (arith, bit_and_high 5 config_byte 1, bit_and_low 1 (config_byte / 32))

bit_or_two_masks : (a : ℕ) → bit_or (bit_or a 1) 2 ≡ bit_or a 3
bit_or_two_masks a = omega (
  arith,
  bit_or_halves (bit_or a 1) 2,
  bit_or_halves a 1,
  bit_or_halves a 3,
  bit_or-zero (a / 2),
  ap (λ (t : ℕ). bit_or t 1) (half a),
)
  where
    half : (a : ℕ) → bit_or a 1 / 2 ≡ a / 2
    half a = omega (arith, bit_or_halves a 1, bit_or-zero (a / 2))

-- What a port adds to the configuration byte.
abbrev pub enable_mask : Machine → ℕ
enable_mask s = (if s.port1 == 0 then 0 else 1) + (if s.port2 == 0 then 0 else 2)

-- The interrupts of a port are enabled unless it failed its test: a port that was never tested, whose
-- flag is still -1, counts as usable.
pub with_interrupts-mask :
    (config_byte : ℕ) (s : Machine)
    → value (with_interrupts config_byte s) ≡ done (bit_or config_byte (enable_mask s))
unfolding with_interrupts
with_interrupts-mask config_byte s = ground (
  arith,
  bit_or_two_masks config_byte,
  bit_or-zero config_byte,
  Bool-cases (s.port1 == 0),
  Bool-cases (s.port2 == 0),
)
