-- ===== src/Ps2/Results.antt =====
-- What the tests and the identification of ps2.c return: the values that the global variables take.
use flosp_os.Common.{
  ℕ, zero, suc, ◌+◌, ◌≤◌, ◌++◌, Bool, true, false, ◌==◌, bit_and, codes, if◌then◌else◌, Option,
  none, some, arith,
}
use flosp_os.Text.{Text}
use flosp_os.Machine.{Machine, Response, pure, ◌>>◌, kern_log, filter_debug, filter_warning}
use flosp_os.Machine.Keeps.{
  Keeps, Gives, Stable, Keeps-bind, Keeps-kern_log, Keeps-if, Keeps-pure, Gives-pure, Gives-if,
  Gives-bind, Keeps-get_uptime_ticks, Keeps-set_error,
}
use flosp_os.Ps2.Port.{enable_scanning}
use flosp_os.Ps2.Port.Identity.{empty, reenable, identity_bytes, ps2_port_identify, add_byte}
use flosp_os.Ps2.Checks.{
  self_test, port_test, port_verdict, controller_test_pass, controller_test_fail,
}
use flosp_os.Ps2.Kept.{
  Keeps-ps2_read_data, Keeps-ps2_port_write_data, Keeps-ps2_wait_for_ack,
  Keeps-ps2_pol_recieve_byte, Keeps-poll_until, Keeps-ps2_check_error,
}

module _ {Q : Machine → Type 0} (q : Stable Q) (fuel : ℕ) where
  logged :
      (filter : ℕ) (text : Text) {A : Type 0} (a : A) → Keeps Q (kern_log filter text >> pure a)
  logged filter text a = Keeps-bind _ _ (Keeps-kern_log q filter text) (λ _. Keeps-pure a)

  pub Keeps-self_test : (rounds : ℕ) → Keeps Q (self_test fuel rounds)
  unfolding self_test
  Keeps-self_test zero = record { at = λ s t b h e. cc }
  Keeps-self_test (suc rounds) = Keeps-bind _ _ (Keeps-ps2_read_data q fuel) (λ response.
      Keeps-if (response == controller_test_pass) _ _ (logged _ _ true) (
        Keeps-if (response == controller_test_fail) _ _ (logged _ _ false)
          (Keeps-self_test rounds)))

  -- A tested port is marked with 0 or 1.
  pub Gives-port_test :
      (name : Text) (rounds : ℕ) → Gives Q (λ port. port ≤ 1) (port_test fuel name rounds)
  unfolding port_test
  Gives-port_test name zero = record { at = λ s t b h e. cc }
  Gives-port_test name (suc rounds) =
      Gives-bind _ _ (Keeps-ps2_read_data q fuel)
        (λ response. verdict (Gives-port_test name rounds) (port_verdict response))
    where
      marked :
          (filter : ℕ) (text : Text) (n : ℕ)
          → n ≤ 1
          → Gives Q (λ port. port ≤ 1) (kern_log filter text >> pure n)
      marked filter text n le = Gives-bind _ _ (Keeps-kern_log q filter text) (λ _. Gives-pure n le)

      verdict :
          Gives Q (λ port. port ≤ 1) (port_test fuel name rounds)
          → (v : Option (Bool × Text))
          → Gives Q
              (λ port. port ≤ 1)
              (elim v [
                | none ↦ port_test fuel name rounds
                | some (ok, text) ↦
                    if ok
                    then (kern_log filter_debug (codes "Debug: " ++ name ++ text) >> pure 1)
                    else (kern_log filter_warning (name ++ text) >> pure 0)
              ])
      verdict again none = again
      verdict again (some (true, text)) = marked _ _ 1 (omega arith)
      verdict again (some (false, text)) = marked _ _ 0 (omega arith)

  module _ (port : ℕ) where
    Gives-reenable :
        (r : Response) (n : ℕ)
        → r.byte_count ≤ n
        → Gives Q (λ r. r.byte_count ≤ n) (reenable fuel port r)
    unfolding reenable
    Gives-reenable r n le =
        Gives-bind _ _ (Keeps-ps2_port_write_data q fuel port enable_scanning) (λ _.
          Gives-bind _ _ (Keeps-ps2_wait_for_ack q fuel port enable_scanning)
            (λ _. Gives-pure r le))

    Gives-identity_bytes :
        (missing n : ℕ) (r : Response)
        → r.byte_count + missing ≤ n
        → Gives Q (λ r. r.byte_count ≤ n) (identity_bytes fuel port missing r)
    unfolding identity_bytes
    Gives-identity_bytes zero n r le = Gives-reenable r n (omega arith)
    Gives-identity_bytes (suc missing) n r le = Gives-bind _ _ (Keeps-get_uptime_ticks q) (λ start.
        Gives-bind _ _ (Keeps-poll_until q (λ status. bit_and status 1 == 0) start fuel)
          (λ timed_out.
            Gives-if timed_out _ _
              (Gives-bind _ _
                (Keeps-kern_log q filter_debug
                  (codes "Debug: Intentional PS/2 timeout: end of identity command"))
                (λ _. Gives-reenable r n (omega arith)))
              (Gives-bind _ _ (Keeps-ps2_pol_recieve_byte q fuel) (λ byte.
                Gives-bind _ _ (Keeps-ps2_check_error q) (λ failed.
                  Gives-if failed _ _ (Gives-pure r (omega arith))
                    (Gives-identity_bytes missing n (add_byte r byte) (omega arith)))))))

    -- An identity has at most two bytes, of the three that there is room for.
    pub Gives-ps2_port_identify : Gives Q (λ r. r.byte_count ≤ 2) (ps2_port_identify fuel port)
    unfolding ps2_port_identify
    Gives-ps2_port_identify = Gives-bind _ _ (Keeps-ps2_port_write_data q fuel port _) (λ _.
        Gives-bind _ _ (Keeps-ps2_wait_for_ack q fuel port _) (λ refused.
          Gives-if (refused == 1) _ _
            (Gives-bind _ _ (Keeps-set_error q true) (λ _. Gives-pure empty (omega arith)))
            (Gives-bind _ _ (Keeps-ps2_port_write_data q fuel port _) (λ _.
              Gives-bind _ _ (Keeps-ps2_wait_for_ack q fuel port _)
                (λ _. Gives-identity_bytes 2 2 empty (omega arith))))))
