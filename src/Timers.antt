-- ===== src/Timers.antt =====
-- src/os/src/kernel/timers.c: the tick counter, the HPET and the timer of the local APIC.
pub mod Sleep
pub mod Hpet
mod Tests
use flosp_os.Common.{
  ℕ, zero, suc, ◌+◌, ◌-◌, ◌*◌, ◌/◌, ◌^◌, Bool, true, ltb, ◌==◌, if◌then◌else◌, bit_and, bit_or, not,
  u8, u32, u64, ◌>>>◌, codes,
}
use flosp_os.Common.Run.{stuck}
use flosp_os.Mem.{Memory, load_le}
use flosp_os.Text
use flosp_os.Machine.{
  M, Machine, Timers, pure, ◌>>=◌, ◌>>◌, skip, get, modify, outb, read_reg, write_reg,
  get_uptime_ticks, kprint, kprint_run, kern_log, filter_debug, filter_error,
}
use flosp_os.Acpi.{table_revision}

abbrev pub pit_channel_0_data : ℕ
pit_channel_0_data = 0x40

abbrev pub pit_mode_command_register : ℕ
pit_mode_command_register = 0x43

abbrev pub channel_0_frequency_hz : ℕ
channel_0_frequency_hz = 100

abbrev pub hpet_offset_general_configuration : ℕ
hpet_offset_general_configuration = 0x010

abbrev pub hpet_offset_main_counter_value : ℕ
hpet_offset_main_counter_value = 0x0f0

abbrev pub hpet_milliseconds : ℕ
hpet_milliseconds = 1000000000000

-- ACPI_MEMORY_SPACE
abbrev pub acpi_memory_space : ℕ
acpi_memory_space = 0

abbrev pub apic_lvt_timer : ℕ
apic_lvt_timer = 0x320

abbrev pub apic_timer_initial_count : ℕ
apic_timer_initial_count = 0x380

abbrev pub apic_timer_current_count : ℕ
apic_timer_current_count = 0x390

abbrev pub apic_timer_divider : ℕ
apic_timer_divider = 0x3e0

abbrev pub apic_disable : ℕ
apic_disable = 0x10000

abbrev pub apic_timer_mode_periodic : ℕ
apic_timer_mode_periodic = 0x20000

-- `HPET->Base_Address`, at its offset in the packed hpet_t
abbrev pub hpet_address_space : Memory → ℕ → ℕ
hpet_address_space m table = m (table + 40)

abbrev pub hpet_address : Memory → ℕ → ℕ
hpet_address m table = load_le 8 m (table + 44)

abbrev pub set_timers : (Timers → Timers) → M (Unit {0})
set_timers f = modify (λ s. record s { timers = f s.timers })

unfoldable pub pit_disable : M (Unit {0})
pit_disable = outb pit_mode_command_register 0b00110010

unfoldable pub pit_init : M (Unit {0})
pit_init = do
  outb pit_mode_command_register 0b00110110
  let divisor = 1193180 / channel_0_frequency_hz
  outb pit_channel_0_data (bit_and divisor 0xff)
  outb pit_channel_0_data (u8 (divisor >>> 8))

-- The registers, once the table is found good.
unfoldable pub start_hpet : M (Unit {0})
start_hpet = do
  set_timers (λ t. record t {
    hpet_cfg_addr = u64 (t.hpet_base_addr + hpet_offset_general_configuration);
    hpet_main_cntr_addr = u64 (t.hpet_base_addr + hpet_offset_main_counter_value);
  })
  s ← get
  capabilities ← read_reg s.timers.hpet_base_addr
  set_timers (λ t. record t { hpet_period = u32 (capabilities >>> 32) })
  config ← read_reg s.timers.hpet_cfg_addr
  write_reg s.timers.hpet_cfg_addr (bit_and config 0xfffffffd)
  config ← read_reg s.timers.hpet_cfg_addr
  write_reg s.timers.hpet_cfg_addr (bit_or config 0x00000001)
  kern_log filter_debug (codes "Debug: HPET initialized")

unfoldable pub hpet_init : ℕ → M (Unit {0})
hpet_init table = do
  s ← get
  let address = hpet_address s.env.mem table
  set_timers (λ t. record t { hpet_base_addr = address })
  kprint (codes "Debug: HPET Address: ")
  kprint_run (Text.kprint_hex s.env.garbage address true)
  kprint (codes "\n")
  let elsewhere = (do
    kern_log filter_error (codes "Error: HPET is not located within memory")
    set_timers (λ t. record t { hpet_base_addr = 0 }))
  let unversioned = (do
    kern_log filter_error (codes "Error: HPET revision is 0")
    set_timers (λ t. record t { hpet_base_addr = 0 }))
  if address == 0
      then kern_log filter_error (codes "Error: HPET address is NULL")
      else if not (hpet_address_space s.env.mem table == acpi_memory_space)
      then elsewhere
      else if table_revision s.env.mem table == 0
      then unversioned
      else start_hpet

-- The first part of `timers_init`: the HPET, if there is a table of it.
unfoldable pub find_hpet : M (Unit {0})
find_hpet = do
  s ← get
  let start = (do
    kern_log filter_debug (codes "Debug: Initializing the HPET")
    hpet_init s.acpi.hpet)
  if s.acpi.hpet == 0 then skip else start

-- The second part: the PIT is switched off, or set up in place of the HPET.
unfoldable pub choose_timer : M (Unit {0})
choose_timer = do
  s ← get
  let by_hpet = (do
    kern_log filter_debug (codes "Debug: Using the HPET to calibrate the lapic timer")
    kern_log filter_debug (codes "Debug: Disabling the PIT")
    pit_disable)
  let by_pit = (do
    kern_log filter_debug (codes "Debug: Using the PIT to calibrate the lapic timer")
    kern_log filter_debug (codes "Debug: Initializing the PIT")
    pit_init)
  if s.timers.hpet_base_addr == 0 then by_pit else by_hpet

unfoldable pub poll_hpet : M ℕ
poll_hpet s =
    (do count ← read_reg s.timers.hpet_main_cntr_addr; pure (u64 (count * s.timers.hpet_period))) s

-- `while (read() < end_time);`, which may turn `rounds` times before it counts as stuck.
unfoldable pub wait_until : M ℕ → ℕ → ℕ → M (Unit {0})
wait_until read end_time zero = λ s. stuck
wait_until read end_time (suc rounds) = do
  time ← read
  let again = wait_until read end_time rounds
  if ltb time end_time then again else skip

module _ (fuel : ℕ) where
  unfoldable pub sleep_timer : ℕ → M (Unit {0})
  sleep_timer time_ms = do
    ticks ← get_uptime_ticks
    wait_until get_uptime_ticks (u64 (ticks + time_ms)) fuel

  unfoldable pub hpet_sleep : ℕ → ℕ → M (Unit {0})
  hpet_sleep time time_units = do
    start ← poll_hpet
    wait_until poll_hpet (u64 (start + u64 (time * time_units))) fuel

  -- The ten milliseconds in which the timer counts.
  unfoldable pub calibrate : ℕ → M (Unit {0})
  calibrate lapic s =
      (do
        write_reg (u64 (lapic + apic_timer_initial_count)) 0xffffffff
        let by_hpet = (do
          kern_log filter_debug (codes "Debug: HPET sleeping 10 ms for lapic calibration")
          hpet_sleep 10 hpet_milliseconds)
        let by_pit = (do
          kern_log filter_debug (codes "Debug: PIT sleeping for 10 ms for lapic calibration")
          sleep_timer 10)
        if s.timers.hpet_base_addr == 0 then by_pit else by_hpet)
        s

  unfoldable pub lapic_timer_init : M (Unit {0})
  lapic_timer_init = do
    s ← get
    let register = λ (offset : ℕ). u64 (s.lapic_addr + offset)
    write_reg (register apic_timer_divider) 0x3
    calibrate s.lapic_addr
    kern_log filter_debug (codes "Debug: lapic timer calibration complete")
    write_reg (register apic_lvt_timer) apic_disable
    left ← read_reg (register apic_timer_current_count)
    let ticks_10ms = u32 (0xffffffff + 2 ^ 32 - u32 left)
    kern_log filter_debug (codes "Debug: Enabling the lapic timer")
    write_reg (register apic_lvt_timer) (bit_or 0x20 apic_timer_mode_periodic)
    divider ← read_reg (register apic_timer_divider)
    write_reg (register apic_timer_divider) (bit_or (u32 divider) 0x3)
    write_reg (register apic_timer_initial_count) ticks_10ms
    set_timers (λ t. record t { lapic_timer_enabled = true })
    kern_log filter_debug (codes "Debug: lapic timer initialized")

  unfoldable pub timers_init : M (Unit {0})
  timers_init = do
    kern_log filter_debug (codes "Debug: Initializing the lapic timer")
    find_hpet
    choose_timer
    kern_log filter_debug (codes "Debug: Initializing the lapic timer")
    lapic_timer_init
