-- ===== src/Machine.antt =====
-- What the drivers share: ports, the tick counter and the console, with the drivers' global
-- variables. io.h and io.c name the ports; `inb` reads what the devices answer.
pub mod Sample
pub mod Keeps
pub mod Leads
use flosp_os.Common.{ℕ, ◌+◌, List, [], ◌∷◌, Bool, ltb, ◌==◌, u64, if◌then◌else◌, codes}
use flosp_os.Common.Run
use flosp_os.Common.Run.{Run, done, fault, stuck, frozen}
use flosp_os.Mem.{Memory}
use flosp_os.Text.{Text}

-- The devices: what the `k`-th input of the run reads from a port or a memory mapped register, how
-- many timer interrupts came while the driver polled up to then, and the build's MESSAGE_FILTER. The
-- firmware leaves its tables in `mem`, and `features` is what cpuid leaf 1 has in edx. What the stack
-- holds before a call is `garbage`.
pub record Env : Type 0 where
  pub port_in : ℕ → ℕ → ℕ
  pub reg_in : ℕ → ℕ → ℕ
  pub clock : ℕ → ℕ
  pub message_filter : ℕ
  pub mem : Memory
  pub features : ℕ
  pub garbage : ℕ → ℕ

-- What the processor sends out: to a port, to a memory mapped register, to the console.
pub data Event : Type 0 where
  out : ℕ → ℕ → Event
  set_reg : ℕ → ℕ → Event
  print : Text → Event
  erase : Event

-- ps2_response: `data` has three cells.
pub record Response : Type 0 where
  pub byte_count : ℕ
  pub bytes : ℕ → ℕ

-- acpi_tables_t and the other global variables of acpi.c: addresses, 0 for the null pointer.
pub record Acpi : Type 0 where
  pub xsdp : ℕ
  pub xsdt : ℕ
  pub fadt : ℕ
  pub hpet : ℕ
  pub madt : ℕ
  pub num_xsdt_entries : ℕ
  pub lapic_x86_addr : ℕ
  pub lapic_x86_64_addr : ℕ

-- The global variables of timers.c. `ticks` counts the runs of `timer_handler`.
pub record Timers : Type 0 where
  pub ticks : ℕ
  pub hpet_period : ℕ
  pub hpet_base_addr : ℕ
  pub hpet_cfg_addr : ℕ
  pub hpet_main_cntr_addr : ℕ
  pub lapic_timer_enabled : Bool

-- A `bool` is a signed byte: 255 stands for the -1 of a port that is not set. `apic_base` is the
-- model specific register IA32_APIC_BASE.
pub record Machine : Type 0 where
  pub env : Env
  pub now : ℕ
  pub trace : List Event
  pub ps2_initialized : Bool
  pub dual_channel : Bool
  pub port1 : ℕ
  pub port2 : ℕ
  pub ps2_error : Bool
  pub identity1 : Response
  pub identity2 : Response
  pub keyboard_enabled : Bool
  pub shift_down : Bool
  pub acpi : Acpi
  pub timers : Timers
  pub lapic_addr : ℕ
  pub apic_base : ℕ

abbrev pub M : Type 0 → Type 0
M A = Machine → Run (A × Machine)

module _ {A : Type 0} where
  abbrev pub pure : A → M A
  pure a s = done (a, s)

  -- A result that does not depend on the machine.
  abbrev pub lift : Run A → M A
  lift r s = Run.◌>>=◌ r (λ a. done (a, s))

  -- What a run returns, its end state left out.
  abbrev pub value : Run (A × Machine) → Run A
  value (done (a, s)) = done a
  value fault = fault
  value stuck = stuck
  value frozen = frozen

module _ {A B : Type 0} where
  abbrev pub and_then : Run (A × Machine) → (A → M B) → Run (B × Machine)
  and_then r k = Run.◌>>=◌ r (λ (a, s). k a s)

  infixl 5 ◌>>=◌ ◌>>◌
  abbrev pub ◌>>=◌ : M A → (A → M B) → M B
  m >>= k = λ s. and_then (m s) k

  abbrev pub ◌>>◌ : M A → M B → M B
  m >> n = m >>= λ _. n

abbrev pub skip : M (Unit {0})
skip = pure tt

abbrev pub get : M Machine
get s = done (s, s)

abbrev pub modify : (Machine → Machine) → M (Unit {0})
modify f s = done (tt, f s)

-- `inb(port)`
abbrev pub inb : ℕ → M ℕ
inb port s = done (s.env.port_in s.now port, record s { now = s.now + 1 })

-- `outb(port, value)`
abbrev pub outb : ℕ → ℕ → M (Unit {0})
outb port value s = done (tt, record s { trace = out port value ∷ s.trace })

-- The counter at the `k`-th moment: the handler's runs, and the interrupts that came while polling.
abbrev pub ticks_at : Machine → ℕ → ℕ
ticks_at s k = u64 (s.timers.ticks + s.env.clock k)

-- `get_uptime_ticks()`
abbrev pub get_uptime_ticks : M ℕ
get_uptime_ticks s = done (ticks_at s s.now, record s { now = s.now + 1 })

-- `lapic_read_reg(reg)` and `lapic_write_reg(reg, val)`
abbrev pub read_reg : ℕ → M ℕ
read_reg reg s = done (s.env.reg_in s.now reg, record s { now = s.now + 1 })

abbrev pub write_reg : ℕ → ℕ → M (Unit {0})
write_reg reg val s = done (tt, record s { trace = set_reg reg val ∷ s.trace })

abbrev pub kprint : Text → M (Unit {0})
kprint text s = done (tt, record s { trace = print text ∷ s.trace })

-- `kputchar(c)`, which ignores the null byte
abbrev pub kputchar : ℕ → M (Unit {0})
kputchar c = if c == 0 then skip else kprint (c ∷ [])

-- `backspace()`
abbrev pub backspace : M (Unit {0})
backspace s = done (tt, record s { trace = erase ∷ s.trace })

-- A text whose making can fail.
abbrev pub kprint_run : Run Text → M (Unit {0})
kprint_run r s = Run.◌>>=◌ r (λ text. kprint text s)

abbrev pub kern_log : ℕ → Text → M (Unit {0})
kern_log filter msg s =
    if ltb s.env.message_filter filter then (kprint msg >> kprint (codes "\n")) s else skip s

-- message.h
abbrev pub filter_debug : ℕ
filter_debug = 1

abbrev pub filter_info : ℕ
filter_info = 2

abbrev pub filter_warning : ℕ
filter_warning = 3

abbrev pub filter_error : ℕ
filter_error = 4

abbrev pub filter_critical : ℕ
filter_critical = 5

-- `cpu_freeze()`: the run ends.
abbrev pub cpu_freeze : M (Unit {0})
cpu_freeze = kern_log filter_critical (codes "CPU Frozen") >> (λ s. frozen)
