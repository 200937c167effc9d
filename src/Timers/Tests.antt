-- ===== src/Timers/Tests.antt =====
-- The theorems on timers.c with a clock and an HPET that run.
use flosp_os.Common.{ℕ, ◌+◌, ◌*◌, ◌≡◌, suc, arith, ◌==◌, if◌then◌else◌}
use flosp_os.Common.Run.{done}
use flosp_os.Mem.{load_le}
use flosp_os.Machine.{Machine, ticks_at}
use flosp_os.Machine.Sample.{machine}
use flosp_os.Ps2.Wait.{later}
use flosp_os.Timers.{sleep_timer, hpet_sleep, hpet_init}
use flosp_os.Timers.Sleep.{Awaited, hpet_at, sleep_timer-Awaited, hpet_sleep-Awaited}
use flosp_os.Timers.Hpet.{timer_of, hpet_init-usable}

-- The counter of the HPET moves by ten at each reading.
abbrev counting : Machine
counting = record machine {
  env = record machine.env { reg_in = λ k reg. 10 * k };
  timers = record machine.timers { hpet_period = 100 };
}

-- A table of revision 1 at 0x100, whose timer is at 0xfed00000.
abbrev with_hpet : Machine
with_hpet = record machine {
  env = record machine.env {
    mem =
        λ a. if a == 0x108 then 1 else if a == 0x12e then 0xd0 else if a == 0x12f then 0xfe else 0;
  };
}

-- A tick counter that moves by 60 at each reading reaches 10 more at the first one.
sleep_timer-Awaited_example :
    (n : ℕ) × (sleep_timer 20 10 machine ≡ done (tt, later machine (suc n)))
    × Awaited (λ n. ticks_at machine (0 + n)) 10 1 4 n
sleep_timer-Awaited_example = sleep_timer-Awaited 20 4 10 machine (omega arith) (omega arith)

hpet_sleep-Awaited_example :
    (n : ℕ) × (hpet_sleep 20 9 1000 counting ≡ done (tt, later counting (suc n)))
    × Awaited (hpet_at counting) 9000 1 9 n
hpet_sleep-Awaited_example = hpet_sleep-Awaited 20 9 9 1000 counting (omega arith) (omega arith)

hpet_init-usable_example : timer_of (hpet_init 0x100 with_hpet) ≡ done 0xfed00000
unfolding load_le
hpet_init-usable_example = hpet_init-usable 0x100 with_hpet (omega arith)
