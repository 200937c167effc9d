-- ===== src/Ps2/Port.antt =====
-- ps2.c: the devices behind the two ports.
pub mod Identity
pub mod Timeout
use flosp_os.Common.{
  ℕ, zero, suc, ◌+◌, ◌/◌, Bool, true, false, not, ◌&&◌, leb, ◌==◌, if◌then◌else◌, bit_and, codes,
  u64,
}
use flosp_os.Common.Run.{stuck}
use flosp_os.Machine.{
  M, Machine, Response, pure, ◌>>=◌, ◌>>◌, skip, get, modify, inb, get_uptime_ticks, kern_log,
  filter_debug, filter_warning, filter_error,
}
use flosp_os.Ps2.{data_port, status_port, ps2_send_cmd, ps2_write_data}

-- Commands and answers of io.h.
abbrev pub write_byte_input_port_2 : ℕ
write_byte_input_port_2 = 0xd4

abbrev pub disable_scanning : ℕ
disable_scanning = 0xf5

abbrev pub enable_scanning : ℕ
enable_scanning = 0xf4

abbrev pub identify : ℕ
identify = 0xf2

abbrev pub ack : ℕ
ack = 0xfa

abbrev pub resend : ℕ
resend = 0xfe

-- PS2_TIMEOUT_DURATION, in ticks
abbrev pub timeout_duration : ℕ
timeout_duration = 100

-- `get_uptime_seconds()`
abbrev pub get_uptime_seconds : M ℕ
get_uptime_seconds = do ticks ← get_uptime_ticks; pure (ticks / 100)

-- Whether the error flag was set; the flag is cleared.
unfoldable pub ps2_check_error : M Bool
ps2_check_error s =
    if s.ps2_error
    then (modify (λ s. record s { ps2_error = false }) >> pure true) s
    else pure false s

-- Polls while the test holds of the status; `true` means that the time ran out.
unfoldable pub poll_until : (ℕ → Bool) → ℕ → ℕ → M Bool
poll_until waiting start zero = λ s. stuck
poll_until waiting start (suc rounds) = do
  status ← inb status_port
  let again = (do
    ticks ← get_uptime_ticks
    let more = poll_until waiting start rounds
    if leb (u64 (start + timeout_duration)) ticks then pure true else more)
  if waiting status then again else pure false

module _ (fuel : ℕ) where
  -- Status 0 is success, 1 an error.
  unfoldable pub send_byte : ℕ → M ℕ
  send_byte b = do
    start ← get_uptime_ticks
    timed_out ← poll_until (λ status. bit_and status 2 == 1) start fuel
    if timed_out
        then (do kern_log filter_error (codes "Error: PS/2 timeout: input buffer full"); pure 1)
        else (ps2_write_data fuel b >> pure 0)

  unfoldable pub ps2_port_write_data : ℕ → ℕ → M ℕ
  ps2_port_write_data port b s =
      let refuse = (do
        kern_log filter_warning (codes "Warning: PS/2 byte attempted to be sent to invalid port")
        pure 1) in
      if port == 2
      then (if s.port2 == 0
            then refuse
            else (ps2_send_cmd fuel write_byte_input_port_2 >> send_byte b))
          s
      else (if (port == 1) && (s.port1 == 0) then refuse else send_byte b) s

  unfoldable pub ps2_pol_recieve_byte : M ℕ
  ps2_pol_recieve_byte = do
    start ← get_uptime_ticks
    timed_out ← poll_until (λ status. bit_and status 0b1 == 0) start fuel
    if timed_out
        then (do
          kern_log filter_warning
              (codes "Error: PS/2 polling timeout: output buffer still empty, no data recieved")
          modify (λ s. record s { ps2_error = true })
          pure 1)
        else inb data_port

  -- One answer that is no acknowledgement: whether to give up.
  unfoldable pub not_acknowledged : ℕ → ℕ → ℕ → ℕ → M Bool
  not_acknowledged resend_port resend_command start response = do
    failed ← ps2_check_error
    if failed then pure true else (do
      (if response == resend
          then (ps2_port_write_data resend_port resend_command >> skip)
          else skip)
      seconds ← get_uptime_seconds
      if leb (u64 (start + timeout_duration)) seconds
          then (do
            kern_log filter_error (codes "Error: PS/2 timeout: command never aknowledged")
            pure true)
          else pure false)

  unfoldable pub ack_loop : ℕ → ℕ → ℕ → ℕ → M ℕ
  ack_loop resend_port resend_command start zero = λ s. stuck
  ack_loop resend_port resend_command start (suc rounds) = do
    response ← ps2_pol_recieve_byte
    let next = (do
      give_up ← not_acknowledged resend_port resend_command start response
      let more = ack_loop resend_port resend_command start rounds
      if give_up then pure 1 else more)
    if response == ack then pure 0 else next

  unfoldable pub ps2_wait_for_ack : ℕ → ℕ → M ℕ
  ps2_wait_for_ack resend_port resend_command = do
    start ← get_uptime_ticks
    ack_loop resend_port resend_command start fuel
