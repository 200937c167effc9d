-- ===== src/Ps2/Init.antt =====
-- ps2.c, `ps2_init`, in the order of its parts.
pub mod Findings
use flosp_os.Common.{
  ℕ, zero, suc, ◌+◌, List, [], ◌∷◌, ◌++◌, Bool, true, false, not, ◌&&◌, ◌||◌, ◌==◌, if◌then◌else◌,
  Option, none, some, bit_and, bit_or, u8, codes,
}
use flosp_os.Common.Run.{stuck}
use flosp_os.Text
use flosp_os.Text.{Text}
use flosp_os.Machine.{
  M, Machine, Response, pure, ◌>>=◌, ◌>>◌, skip, get, modify, kprint, kprint_run, kern_log,
  filter_debug, filter_warning, filter_error,
}
use flosp_os.Ps2.{
  ps2_send_cmd, ps2_read_data, flush_ps2_output_buffer, read_ps2_controller_config,
  write_ps2_controller_config,
}
use flosp_os.Ps2.Checks.{
  controller_test, disable_port, disable_port_2, enable_port, enable_port_2, test_port, test_port_2,
  not_set, first_dual_check, second_dual_check, self_test, port_test,
}
use flosp_os.Ps2.Port.Identity.{ps2_port_identify}

-- The configuration byte with the interrupts of the ports that count as usable.
unfoldable pub with_interrupts : ℕ → M ℕ
with_interrupts config_byte s =
    (do
      let first = kern_log filter_debug (codes "Debug: Enabling PS/2 interrupts on port 1")
      let second = kern_log filter_debug (codes "Debug: Enabling PS/2 interrupts on port 2")
      if s.port1 == 0 then skip else first
      let one = if s.port1 == 0 then config_byte else bit_or config_byte 0b00000001
      if s.port2 == 0 then skip else second
      pure (if s.port2 == 0 then one else bit_or one 0b00000010))
      s

-- The bytes of an identity from the `i`-th on, `left` of them.
unfoldable pub print_bytes : Response → ℕ → ℕ → M (Unit {0})
print_bytes r zero i = skip
print_bytes r (suc left) i = do
  s ← get
  let first = r.bytes 0
  let next = (do
    kprint_run (Text.kprint_hex s.env.garbage (r.bytes i) true)
    kprint (codes " ")
    print_bytes r left (i + 1))
  if (i == 1) && ((first == 0x00) || ((first == 0x03) || (first == 0x04)))
      then kprint (codes "N/A")
      else next

module _ (fuel : ℕ) where
  -- Ports off, buffer empty, interrupts and translation off.
  unfoldable pub disable_ports : M ℕ
  disable_ports = do
    kern_log filter_debug (codes "Debug: Disabling any possibly active PS/2 ports")
    ps2_send_cmd fuel disable_port
    ps2_send_cmd fuel disable_port_2
    flush_ps2_output_buffer fuel
    config_byte ← read_ps2_controller_config fuel
    let found = (do
      kern_log filter_debug (codes "Debug: Dual channel PS/2 controller found upon first check")
      modify (λ s. record s { dual_channel = true }))
    if first_dual_check config_byte then found else skip
    write_ps2_controller_config fuel (bit_and config_byte 0b10111100)
    read_ps2_controller_config fuel

  unfoldable pub check_dual_channel : M (Unit {0})
  check_dual_channel = do
    kern_log filter_debug (codes "Debug: Running secondary test for dual channel PS/2 controller")
    ps2_send_cmd fuel enable_port_2
    config_byte ← read_ps2_controller_config fuel
    let found = (do
      modify (λ s. record s { dual_channel = true })
      kern_log filter_debug (codes "Debug: Dual channel PS/2 controller found upon second check")
      kern_log filter_debug (codes "Debug: Disabling PS/2 port 2")
      ps2_send_cmd fuel disable_port_2)
    if second_dual_check config_byte
        then found
        else kern_log filter_debug (codes "Debug: Dual channel PS/2 controller not detected")

  unfoldable pub test_port_1 : M (Unit {0})
  test_port_1 = do
    kern_log filter_debug (codes "Debug: Testing PS/2 port 1")
    ps2_send_cmd fuel test_port
    s ← get
    let run = (do
      port ← port_test fuel (codes "PS/2 port 1") fuel
      modify (λ s. record s { port1 = port }))
    if s.port1 == not_set then run else skip

  -- The second port is tested by the first port's command.
  unfoldable pub test_second_port : M (Unit {0})
  test_second_port = do
    kern_log filter_debug (codes "Debug: Testing PS/2 port 2")
    ps2_send_cmd fuel test_port
    s ← get
    let run = (do
      port ← port_test fuel (codes "PS/2 port 2") fuel
      modify (λ s. record s { port2 = port }))
    if s.port2 == not_set then run else skip

  -- `if (port1)` holds of every value but 0.
  unfoldable pub enable_ports : M (Unit {0})
  enable_ports = do
    s ← get
    let first = (do
      kern_log filter_debug (codes "Debug: Enabling PS/2 port 1")
      ps2_send_cmd fuel enable_port)
    let second = (do
      kern_log filter_debug (codes "Debug: Enabling PS/2 port 2")
      ps2_send_cmd fuel enable_port_2)
    if s.port1 == 0 then skip else first
    if s.port2 == 0 then skip else second

  unfoldable pub enable_interrupts : M ℕ
  enable_interrupts = do
    config_byte ← read_ps2_controller_config fuel
    config_byte ← with_interrupts config_byte
    write_ps2_controller_config fuel config_byte
    read_ps2_controller_config fuel

  unfoldable pub print_identities : M (Unit {0})
  print_identities = do
    kern_log filter_debug (codes "Debug: Getting PS/2 device identities")
    one ← ps2_port_identify fuel 1
    modify (λ s. record s { identity1 = one })
    kprint (codes "Debug: PS/2 port 1 identity: ")
    print_bytes one one.byte_count 0
    kprint (codes "\n")
    two ← ps2_port_identify fuel 2
    modify (λ s. record s { identity2 = two })
    kprint (codes "Debug: PS/2 port 2 identity: ")
    print_bytes two two.byte_count 0
    kprint (codes "\n")

  -- From the port tests on.
  unfoldable pub start_ports : M ℕ
  start_ports = do
    test_port_1
    s ← get
    if s.dual_channel then test_second_port else skip
    s ← get
    let none_found = (do kern_log filter_error (codes "No PS/2 ports avaliable"); pure 1)
    let start = (do
      enable_ports
      enable_interrupts
      print_identities
      modify (λ s. record s { ps2_initialized = true })
      pure 0)
    if (s.port1 == 0) && (s.port2 == 0) then none_found else start

  unfoldable pub ps2_init : M ℕ
  ps2_init = do
    disable_ports
    kern_log filter_debug (codes "Debug: Performing PS/2 controller self test")
    ps2_send_cmd fuel controller_test
    passed ← self_test fuel fuel
    let go = (do s ← get; if s.dual_channel then skip else check_dual_channel; start_ports)
    if passed then go else pure 1
