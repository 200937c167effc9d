-- ===== src/Drivers.antt =====
-- The drivers of src/os/src together: the values that their global variables may have.
pub mod Ps2Kept
pub mod KeyboardKept
pub mod TimersKept
pub mod AcpiKept
pub mod InterruptsKept
pub mod Reach
use flosp_os.Common.{ℕ, ◌^◌, ◌≤◌, ◌<◌, ◌≡◌, ◌⊎◌, Bool, true}
use flosp_os.Machine.{Machine, Response}
use flosp_os.Machine.Keeps.{Stable}

-- A port of the PS/2 controller failed its test, passed it, or was not tested.
abbrev pub IsPort : ℕ → Type 0
IsPort p = (p ≤ 1) ⊎ (p ≡ 255)

-- The keyboard is on only behind a controller that is, and an identity fits its buffer.
abbrev pub Ports : ℕ → ℕ → Response → Response → Bool → Bool → Type 0
Ports port1 port2 one two keyboard initialized =
    IsPort port1
    × IsPort port2
    × (one.byte_count ≤ 2)
    × (two.byte_count ≤ 2)
    × (keyboard ≡ true → initialized ≡ true)

-- The numbers fit their types.
abbrev pub Numbers : ℕ → ℕ → ℕ → ℕ → Type 0
Numbers ticks period entries base =
    (ticks < 2 ^ 64) × (period < 2 ^ 32) × (entries < 2 ^ 16) × (base < 2 ^ 64)

abbrev pub Consistent : Machine → Type 0
Consistent s =
    Ports s.port1 s.port2 s.identity1 s.identity2 s.keyboard_enabled s.ps2_initialized
    × Numbers s.timers.ticks s.timers.hpet_period s.acpi.num_xsdt_entries s.apic_base

pub Consistent-Stable : Stable Consistent
Consistent-Stable = record { stays = λ s now trace error h. h }

-- The controller has been set up.
abbrev pub Ready : Machine → Type 0
Ready s = Consistent s × (s.ps2_initialized ≡ true)

pub Ready-Stable : Stable Ready
Ready-Stable = record { stays = λ s now trace error h. h }
