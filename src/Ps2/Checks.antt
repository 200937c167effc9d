-- ===== src/Ps2/Checks.antt =====
-- ps2.c, `ps2_init`: the tests of the controller and of its ports.
use flosp_os.Common.{
  ℕ, zero, suc, ◌++◌, Bool, true, false, ◌==◌, if◌then◌else◌, Option, none, some, bit_and, u8,
  codes,
}
use flosp_os.Common.Run.{stuck}
use flosp_os.Text.{Text}
use flosp_os.Machine.{M, pure, ◌>>=◌, ◌>>◌, kern_log, filter_debug, filter_warning, filter_error}
use flosp_os.Ps2.{ps2_read_data}

-- Controller commands and test results of io.h.
abbrev pub controller_test : ℕ
controller_test = 0xaa

abbrev pub disable_port : ℕ
disable_port = 0xad

abbrev pub disable_port_2 : ℕ
disable_port_2 = 0xa7

abbrev pub enable_port : ℕ
enable_port = 0xae

abbrev pub enable_port_2 : ℕ
enable_port_2 = 0xa8

abbrev pub test_port : ℕ
test_port = 0xab

abbrev pub test_port_2 : ℕ
test_port_2 = 0xa9

abbrev pub controller_test_pass : ℕ
controller_test_pass = 0x55

abbrev pub controller_test_fail : ℕ
controller_test_fail = 0xfc

-- The -1 of a port that is not set.
abbrev pub not_set : ℕ
not_set = 255

-- What a port test says: whether the port works, and the end of the message.
unfoldable pub port_verdict : ℕ → Option (Bool × Text)
port_verdict response =
    if response == 0x00
    then some (true, codes " passed test")
    else if response == 0x01
    then some (false, codes " failed test: clock line struck low")
    else if response == 0x02
    then some (false, codes " failed test: clock line struck high")
    else if response == 0x03
    then some (false, codes " failed test: data line struck low")
    else if response == 0x04
    then some (false, codes " failed test: data line struck high")
    else none

-- The first check of the configuration byte for a second port.
unfoldable pub first_dual_check : ℕ → Bool
first_dual_check config_byte = u8 (bit_and config_byte 0b00100000) == 1

-- The second check, after the second port was enabled.
unfoldable pub second_dual_check : ℕ → Bool
second_dual_check config_byte = u8 (bit_and config_byte 0b00100000) == 0

module _ (fuel : ℕ) where
  unfoldable pub self_test : ℕ → M Bool
  self_test zero = λ s. stuck
  self_test (suc rounds) = (do
    response ← ps2_read_data fuel
    let pass = (do kern_log filter_debug (codes "Debug: PS/2 controller test passed"); pure true)
    let fail = (do kern_log filter_error (codes "Error: PS/2 controller test failed"); pure false)
    let again = self_test rounds
    if response == controller_test_pass
        then pass
        else if response == controller_test_fail
        then fail
        else again)

  -- Reads answers until one is a verdict; `name` is "PS/2 port 1" or "PS/2 port 2".
  unfoldable pub port_test : Text → ℕ → M ℕ
  port_test name zero = λ s. stuck
  port_test name (suc rounds) = (do
    response ← ps2_read_data fuel
    let again = port_test name rounds
    elim (port_verdict response) [
      | none ↦ again
      | some (ok, text) ↦
          if ok
          then (kern_log filter_debug (codes "Debug: " ++ name ++ text) >> pure 1)
          else (kern_log filter_warning (name ++ text) >> pure 0)
    ])
