-- ===== src/Machine/Sample.antt =====
-- A machine to test on: it needs three status reads, and then answers 0xfa.
use flosp_os.Common.{◌*◌, [], true, false, ◌==◌, leb, if◌then◌else◌}
use flosp_os.Machine.{Machine, Response, Acpi, Timers}

abbrev pub no_response : Response
no_response = record { byte_count = 0; bytes = λ i. 0 }

abbrev pub no_tables : Acpi
no_tables = record {
  xsdp = 0;
  xsdt = 0;
  fadt = 0;
  hpet = 0;
  madt = 0;
  num_xsdt_entries = 0;
  lapic_x86_addr = 0;
  lapic_x86_64_addr = 0;
}

abbrev pub no_timers : Timers
no_timers = record {
  ticks = 0;
  hpet_period = 0;
  hpet_base_addr = 0;
  hpet_cfg_addr = 0;
  hpet_main_cntr_addr = 0;
  lapic_timer_enabled = false;
}

-- The input buffer is full at the first three reads, then empty, with a byte in the output buffer.
abbrev pub machine : Machine
machine = record {
  env = record {
    port_in = λ k port. if port == 0x60 then 0xfa else if leb 3 k then 1 else 2;
    reg_in = λ k reg. 0;
    clock = λ k. 60 * k;
    message_filter = 0;
    mem = λ a. 0;
    features = 0x200;
    garbage = λ i. 7;
  };
  now = 0;
  trace = [];
  ps2_initialized = false;
  dual_channel = false;
  port1 = 1;
  port2 = 255;
  ps2_error = true;
  identity1 = no_response;
  identity2 = no_response;
  keyboard_enabled = false;
  shift_down = false;
  acpi = no_tables;
  timers = no_timers;
  lapic_addr = 0;
  apic_base = 0xfee00900;
}
