-- ===== src/Timers/Hpet.antt =====
-- `hpet_init` takes the timer of a good table, and of no other.
use flosp_os.Common.{ℕ, ◌^◌, ◌<◌, ◌≡◌, Bool, true, not, ◌&&◌, arith, ◌==◌, if◌then◌else◌}
use flosp_os.Common.Run.{Run, done, fault, stuck, frozen}
use flosp_os.Text.Numbers.{kprint_hex-IsNumeral}
use flosp_os.Mem.{Memory}
use flosp_os.Machine.{Machine}
use flosp_os.Acpi.{table_revision}
use flosp_os.Timers.{hpet_init, start_hpet, hpet_address, hpet_address_space}

-- The address of the timer that a run leaves, 0 if it has none.
abbrev pub timer_of : Run (Unit {0} × Machine) → Run ℕ
timer_of (done (a, t)) = done t.timers.hpet_base_addr
timer_of fault = fault
timer_of stuck = stuck
timer_of frozen = frozen

-- A table in a known version whose timer lies in memory.
abbrev pub usable : Memory → ℕ → Bool
usable m table = (hpet_address_space m table == 0) && not (table_revision m table == 0)

-- `hpet_init` returns, and leaves the address of the table if the table is usable, else the null
-- pointer; if the address is below 16 ^ 15, which fits the buffer of `kprint_hex`.
pub hpet_init-usable :
    (table : ℕ) (s : Machine)
    → hpet_address s.env.mem table < 16 ^ 15
    → timer_of (hpet_init table s)
      ≡ done (if usable s.env.mem table then hpet_address s.env.mem table else 0)
unfolding hpet_init start_hpet
hpet_init-usable table s lt =
    let (text, run, numeral) =
      kprint_hex-IsNumeral s.env.garbage (hpet_address s.env.mem table) true lt in
    rw run (ground arith)
