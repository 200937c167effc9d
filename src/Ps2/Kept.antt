-- ===== src/Ps2/Kept.antt =====
-- What the polling routines of ps2.c keep: they change the inputs, the trace and the error flag only.
use flosp_os.Common.{
  ℕ, zero, suc, Bool, true, false, ◌==◌, ◌&&◌, ◌+◌, leb, u64, bit_and, codes, if◌then◌else◌,
}
use flosp_os.Machine.{Machine, M, ◌>>◌, pure, kern_log, filter_warning}
use flosp_os.Machine.Keeps.{
  Keeps, Stable, keeps_rules, Keeps-branch, Keeps-bind, Keeps-inb, Keeps-get_uptime_ticks,
  Keeps-state, Keeps-if, Keeps-pure,
}
use flosp_os.Ps2.{
  data_port, status_port, spin, drain, ps2_send_cmd, ps2_write_data, ps2_read_data,
  flush_ps2_output_buffer, read_ps2_controller_config, write_ps2_controller_config,
}
use flosp_os.Ps2.Port.{
  ps2_check_error, poll_until, send_byte, ps2_port_write_data, ps2_pol_recieve_byte,
  not_acknowledged, ack_loop, ps2_wait_for_ack, write_byte_input_port_2, timeout_duration,
}

module _ {Q : Machine → Type 0} (q : Stable Q) where
  Keeps-spin : (ready : ℕ → Bool) (rounds : ℕ) → Keeps Q (spin ready rounds)
  unfolding spin
  Keeps-spin ready zero = record { at = λ s t b h e. cc }
  Keeps-spin ready (suc rounds) =
      Keeps-bind _ _ (Keeps-inb q status_port)
        (λ status. Keeps-if (ready status) _ _ (Keeps-pure tt) (Keeps-spin ready rounds))

  Keeps-drain : (rounds : ℕ) → Keeps Q (drain rounds)
  unfolding drain
  Keeps-drain zero = record { at = λ s t b h e. cc }
  Keeps-drain (suc rounds) = Keeps-bind _ _ (Keeps-inb q status_port) (λ status.
      Keeps-if (bit_and status 1 == 1) _ _
        (Keeps-bind _ _ (Keeps-inb q data_port) (λ _. Keeps-drain rounds)) (Keeps-pure tt))

  pub Keeps-poll_until :
      (waiting : ℕ → Bool) (start rounds : ℕ) → Keeps Q (poll_until waiting start rounds)
  unfolding poll_until
  Keeps-poll_until waiting start zero = record { at = λ s t b h e. cc }
  Keeps-poll_until waiting start (suc rounds) = Keeps-bind _ _ (Keeps-inb q status_port) (λ status.
      Keeps-if (waiting status) _ _
        (Keeps-bind _ _ (Keeps-get_uptime_ticks q) (λ ticks.
          Keeps-if (leb (u64 (start + timeout_duration)) ticks) _ _ (Keeps-pure true)
            (Keeps-poll_until waiting start rounds)))
        (Keeps-pure false))

  pub Keeps-ps2_send_cmd : (fuel cmd : ℕ) → Keeps Q (ps2_send_cmd fuel cmd)
  unfolding ps2_send_cmd
  Keeps-ps2_send_cmd fuel cmd = search (keeps_rules, q, Keeps-spin) depth 20

  Keeps-ps2_write_data : (fuel byte : ℕ) → Keeps Q (ps2_write_data fuel byte)
  unfolding ps2_write_data
  Keeps-ps2_write_data fuel byte = search (keeps_rules, q, Keeps-spin) depth 20

  pub Keeps-ps2_read_data : (fuel : ℕ) → Keeps Q (ps2_read_data fuel)
  unfolding ps2_read_data
  Keeps-ps2_read_data fuel = search (keeps_rules, q, Keeps-spin) depth 20

  pub Keeps-flush_ps2_output_buffer : (fuel : ℕ) → Keeps Q (flush_ps2_output_buffer fuel)
  unfolding flush_ps2_output_buffer
  Keeps-flush_ps2_output_buffer fuel = search (keeps_rules, q, Keeps-drain) depth 20

  pub Keeps-read_ps2_controller_config : (fuel : ℕ) → Keeps Q (read_ps2_controller_config fuel)
  unfolding read_ps2_controller_config
  Keeps-read_ps2_controller_config fuel =
      search
        (keeps_rules, q, Keeps-flush_ps2_output_buffer, Keeps-ps2_send_cmd, Keeps-ps2_read_data)
        depth 20

  pub Keeps-write_ps2_controller_config :
      (fuel b : ℕ) → Keeps Q (write_ps2_controller_config fuel b)
  unfolding write_ps2_controller_config
  Keeps-write_ps2_controller_config fuel b =
      search (keeps_rules, q, Keeps-ps2_send_cmd, Keeps-ps2_write_data) depth 20

  pub Keeps-ps2_check_error : Keeps Q ps2_check_error
  unfolding ps2_check_error
  Keeps-ps2_check_error =
      Keeps-branch (λ s. s.ps2_error) _ _ (search (keeps_rules, q)) (search keeps_rules)

  Keeps-send_byte : (fuel b : ℕ) → Keeps Q (send_byte fuel b)
  unfolding send_byte
  Keeps-send_byte fuel b = search (keeps_rules, q, Keeps-poll_until, Keeps-ps2_write_data) depth 20

  pub Keeps-ps2_pol_recieve_byte : (fuel : ℕ) → Keeps Q (ps2_pol_recieve_byte fuel)
  unfolding ps2_pol_recieve_byte
  Keeps-ps2_pol_recieve_byte fuel = search (keeps_rules, q, Keeps-poll_until) depth 20

  pub Keeps-ps2_port_write_data : (fuel port b : ℕ) → Keeps Q (ps2_port_write_data fuel port b)
  unfolding ps2_port_write_data
  Keeps-ps2_port_write_data fuel port b =
      Keeps-branch (λ s. port == 2) (λ s. (if s.port2 == 0 then refuse else second) s)
        (λ s. (if (port == 1) && (s.port1 == 0) then refuse else send_byte fuel b) s)
        (Keeps-state _ (λ s.
          Keeps-if (s.port2 == 0) _ _ refused
            (Keeps-bind _ _ (Keeps-ps2_send_cmd fuel _) (λ _. Keeps-send_byte fuel b))))
        (Keeps-state _
          (λ s. Keeps-if ((port == 1) && (s.port1 == 0)) _ _ refused (Keeps-send_byte fuel b)))
    where
      refuse : M ℕ
      refuse =
          kern_log filter_warning (codes "Warning: PS/2 byte attempted to be sent to invalid port")
          >> pure 1

      second : M ℕ
      second = ps2_send_cmd fuel write_byte_input_port_2 >> send_byte fuel b

      refused : Keeps Q refuse
      refused = search (keeps_rules, q)

  Keeps-not_acknowledged :
      (fuel port command start response : ℕ)
      → Keeps Q (not_acknowledged fuel port command start response)
  unfolding not_acknowledged
  Keeps-not_acknowledged fuel port command start response =
      search (keeps_rules, q, Keeps-ps2_check_error, Keeps-ps2_port_write_data) depth 20

  Keeps-ack_loop :
      (fuel port command start rounds : ℕ) → Keeps Q (ack_loop fuel port command start rounds)
  unfolding ack_loop
  Keeps-ack_loop fuel port command start zero = record { at = λ s t b h e. cc }
  Keeps-ack_loop fuel port command start (suc rounds) =
      Keeps-bind _ _ (Keeps-ps2_pol_recieve_byte fuel) (λ response.
        Keeps-if (response == 0xfa) _ _ (Keeps-pure 0) (
          Keeps-bind _ _ (Keeps-not_acknowledged fuel port command start response) (λ give_up.
            Keeps-if give_up _ _ (Keeps-pure 1) (Keeps-ack_loop fuel port command start rounds))))

  pub Keeps-ps2_wait_for_ack :
      (fuel port command : ℕ) → Keeps Q (ps2_wait_for_ack fuel port command)
  unfolding ps2_wait_for_ack
  Keeps-ps2_wait_for_ack fuel port command = search (keeps_rules, q, Keeps-ack_loop) depth 20
