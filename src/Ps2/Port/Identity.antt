-- ===== src/Ps2/Port/Identity.antt =====
-- ps2.c: what kind of device is behind a port.
use flosp_os.Common.{
  ℕ, zero, suc, ◌+◌, true, ◌==◌, if◌then◌else◌, Option, none, some, bit_and, codes,
}
use flosp_os.Machine.{
  M, Response, pure, ◌>>=◌, ◌>>◌, modify, get_uptime_ticks, kern_log, filter_debug, filter_warning,
}
use flosp_os.Ps2.Port.{
  disable_scanning, enable_scanning, identify, ps2_check_error, poll_until, ps2_port_write_data,
  ps2_pol_recieve_byte, ps2_wait_for_ack,
}

abbrev pub empty : Response
empty = record { byte_count = 0; bytes = λ i. 0 }

-- `response.data[response.byte_count] = b; response.byte_count++`
abbrev pub add_byte : Response → ℕ → Response
add_byte r b = record {
  byte_count = r.byte_count + 1;
  bytes = λ i. if i == r.byte_count then b else r.bytes i;
}

module _ (fuel : ℕ) (port : ℕ) where
  unfoldable pub reenable : Response → M Response
  reenable response = do
    ps2_port_write_data fuel port enable_scanning
    ps2_wait_for_ack fuel port enable_scanning
    pure response

  -- The loop that reads the identity, with `missing` bytes until the count is two.
  unfoldable pub identity_bytes : ℕ → Response → M Response
  identity_bytes zero response = reenable response
  identity_bytes (suc missing) response = do
    start ← get_uptime_ticks
    timed_out ← poll_until (λ status. bit_and status 1 == 0) start fuel
    if timed_out
        then (do
          kern_log filter_debug (codes "Debug: Intentional PS/2 timeout: end of identity command")
          reenable response)
        else (do
          byte ← ps2_pol_recieve_byte fuel
          failed ← ps2_check_error
          if failed then pure response else identity_bytes missing (add_byte response byte))

  unfoldable pub ps2_port_identify : M Response
  ps2_port_identify = do
    ps2_port_write_data fuel port disable_scanning
    refused ← ps2_wait_for_ack fuel port disable_scanning
    if refused == 1 then (modify (λ s. record s { ps2_error = true }) >> pure empty) else (do
      ps2_port_write_data fuel port identify
      ps2_wait_for_ack fuel port identify
      identity_bytes 2 empty)

abbrev pub translation_keyboard : ℕ
translation_keyboard = 0

abbrev pub translation_mouse : ℕ
translation_mouse = 1

abbrev pub translation_other : ℕ
translation_other = 2

unfoldable pub ps2_port_identity_translation : Response → ℕ
ps2_port_identity_translation r =
    if r.byte_count == 1
    then translation_mouse
    else if r.byte_count == 2
    then translation_keyboard
    else translation_other

-- `none` is the null pointer.
unfoldable pub get_ps2_port_identity : ℕ → M (Option Response)
get_ps2_port_identity port s =
    if port == 1
    then pure (some s.identity1) s
    else if port == 2
    then pure (some s.identity2) s
    else (do
      kern_log filter_warning (codes "Warning: invalid port passed to `get_ps2_port_identity`")
      pure none)
        s
