-- ===== src/Interrupts/Service.antt =====
-- Interrupts of idt.c one after the other, and a summary of what they do.
pub mod Drain
pub mod Served
pub mod Sequence
use mathlib.Core.Path.{subst}
use mathlib.Core.List.{foldl}
use flosp_os.Common.{
  ℕ, zero, suc, ◌+◌, ◌*◌, ◌^◌, ◌<◌, ◌≡◌, ◌∙◌, ap, sym, refl, Bool, true, false, ◌&&◌, ◌||◌, List,
  [], ◌∷◌, ◌++◌, arith, leb, ltb, ◌==◌, if◌then◌else◌, bit_and, inl, inr, Bool-cases, codes, u64,
}
use flosp_os.Common.Run.{Run, done}
use flosp_os.Text.{Text}
use flosp_os.Machine.{
  Machine, M, Event, out, set_reg, print, erase, skip, ◌>>◌, kern_log, filter_debug,
}
use flosp_os.Ps2.{data_port, status_port, drain, flush_ps2_output_buffer}
use flosp_os.Keyboard.{keyboard_handler}
use flosp_os.Keyboard.Typing.{Known, shift_after, shown, keyboard_handler-shown}
use flosp_os.Interrupts.{
  CpuStatus, apic_eoi, interrupt_handler, dispatch, end_of_interrupt, timer_handler, print_value,
}
use flosp_os.Interrupts.Dispatch.{print_value-printed}

-- How often the end of an interrupt was told to the port, and to the register `reg`.
abbrev pub eois : ℕ → List Event → ℕ
eois port [] = 0
eois port (out p v ∷ events) = (if (p == port) && (v == 0x20) then 1 else 0) + eois port events
eois port (set_reg r v ∷ events) = eois port events
eois port (print text ∷ events) = eois port events
eois port (erase ∷ events) = eois port events

abbrev pub local_eois : ℕ → List Event → ℕ
local_eois reg [] = 0
local_eois reg (out p v ∷ events) = local_eois reg events
local_eois reg (set_reg r v ∷ events) =
    (if (r == reg) && (v == 0) then 1 else 0) + local_eois reg events
local_eois reg (print text ∷ events) = local_eois reg events
local_eois reg (erase ∷ events) = local_eois reg events

-- The counter of ticks, and how often each controller was told of an interrupt's end.
pub record Service : Type 0 where
  pub ticks : ℕ
  pub local : ℕ
  pub master : ℕ
  pub slave : ℕ

abbrev pub eoi_register : Machine → ℕ
eoi_register s = u64 (s.lapic_addr + apic_eoi)

abbrev pub service : Machine → Service
service s = record {
  ticks = s.timers.ticks;
  local = local_eois (eoi_register s) s.trace;
  master = eois 0x20 s.trace;
  slave = eois 0xa0 s.trace;
}

-- One interrupt, where `on` tells that the timer is enabled.
abbrev pub serviced : Bool → Service → CpuStatus → Service
serviced on a c =
    let tick = on && (c.int_vector == 0x20) in
    record {
      ticks = if tick then u64 (a.ticks + 1) else a.ticks;
      local = if tick then 1 + a.local else a.local;
      master = 1 + a.master;
      slave = if leb 40 c.int_vector then 1 + a.slave else a.slave;
    }

-- Everything else of the machine stays.
abbrev pub after : Machine → ℕ → ℕ → Bool → List Event → Machine
after s now ticks shift trace = record s {
  now = now;
  shift_down = shift;
  trace = trace;
  timers = record s.timers { ticks = ticks };
}

-- What the devices answer: codes that the driver handles, if the keyboard is on, and an output buffer
-- that is empty before the rounds of the loop that drains it are over.
pub record Answers (fuel : ℕ) (s : Machine) : Type 0 where
  pub known : s.keyboard_enabled ≡ true → (t : ℕ) → Known (s.env.port_in t data_port)
  pub drains :
      (t : ℕ) → (k : ℕ) × (k < fuel) × (bit_and (s.env.port_in (t + 2 * k) status_port) 0b1 ≡ 0)

-- An interrupt, and no exception, whose number fits the buffer of `kprint_hex`.
abbrev pub Regular : CpuStatus → Type 0
Regular c = (c.error ≡ 0) × (c.int_vector < 16 ^ 15)

-- The interrupts of a list, one after the other.
unfoldable pub serve : ℕ → List CpuStatus → M (Unit {0})
serve fuel [] = skip
serve fuel (c ∷ cs) = interrupt_handler fuel c >> serve fuel cs

abbrev pub AllRegular : List CpuStatus → Type 0
AllRegular [] = Unit
AllRegular (c ∷ cs) = Regular c × AllRegular cs
