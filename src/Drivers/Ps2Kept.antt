-- ===== src/Drivers/Ps2Kept.antt =====
-- `ps2_init` of ps2.c and the global variables of the drivers.
use flosp_os.Common.{ℕ, zero, suc, ◌+◌, ◌≤◌, refl, ◌==◌, inl, codes, true}
use flosp_os.Machine.{M, Response, modify, ◌>>=◌, ◌>>◌}
use flosp_os.Machine.Keeps.{
  Keeps, Stable, keeps_rules, Keeps-bind, Keeps-if, Keeps-pure, Keeps-given, Keeps-modify,
  Keeps-kprint, Keeps-kprint_run, Keeps-get, Keeps-kern_log, Keeps-state,
}
use flosp_os.Ps2.Kept.{
  Keeps-ps2_send_cmd, Keeps-flush_ps2_output_buffer, Keeps-read_ps2_controller_config,
  Keeps-write_ps2_controller_config,
}
use flosp_os.Ps2.Results.{Keeps-self_test, Gives-port_test, Gives-ps2_port_identify}
use flosp_os.Ps2.Port.Identity.{ps2_port_identify}
use flosp_os.Ps2.Checks.{not_set}
use flosp_os.Ps2.Init.{
  with_interrupts, print_bytes, disable_ports, check_dual_channel, test_port_1, test_second_port,
  enable_ports, enable_interrupts, print_identities, start_ports, ps2_init,
}
use flosp_os.Drivers.{Consistent, Consistent-Stable}

abbrev q : Stable Consistent
q = Consistent-Stable

Keeps-dual : Keeps Consistent (modify (λ s. record s { dual_channel = true }))
Keeps-dual = Keeps-modify _ (λ s h. h)

Keeps-port1 : (port : ℕ) → port ≤ 1 → Keeps Consistent (modify (λ s. record s { port1 = port }))
Keeps-port1 port le =
    Keeps-modify _ (λ s ((_, two, id1, id2, on), numbers). ((inl le, two, id1, id2, on), numbers))

Keeps-port2 : (port : ℕ) → port ≤ 1 → Keeps Consistent (modify (λ s. record s { port2 = port }))
Keeps-port2 port le =
    Keeps-modify _ (λ s ((one, _, id1, id2, on), numbers). ((one, inl le, id1, id2, on), numbers))

Keeps-identity1 :
    (r : Response) → r.byte_count ≤ 2 → Keeps Consistent (modify (λ s. record s { identity1 = r }))
Keeps-identity1 r le =
    Keeps-modify _ (λ s ((one, two, _, id2, on), numbers). ((one, two, le, id2, on), numbers))

Keeps-identity2 :
    (r : Response) → r.byte_count ≤ 2 → Keeps Consistent (modify (λ s. record s { identity2 = r }))
Keeps-identity2 r le =
    Keeps-modify _ (λ s ((one, two, id1, _, on), numbers). ((one, two, id1, le, on), numbers))

Keeps-initialized : Keeps Consistent (modify (λ s. record s { ps2_initialized = true }))
Keeps-initialized =
    Keeps-modify _
      (λ s ((one, two, id1, id2, _), numbers). ((one, two, id1, id2, λ on. refl), numbers))

Keeps-with_interrupts : (config_byte : ℕ) → Keeps Consistent (with_interrupts config_byte)
unfolding with_interrupts
Keeps-with_interrupts config_byte = Keeps-state _ (λ s.
    Keeps-bind _ _
      (Keeps-if (s.port1 == 0) _ _ (Keeps-pure tt)
        (Keeps-kern_log q 1 (codes "Debug: Enabling PS/2 interrupts on port 1")))
      (λ _.
        Keeps-bind _ _
          (Keeps-if (s.port2 == 0) _ _ (Keeps-pure tt)
            (Keeps-kern_log q 1 (codes "Debug: Enabling PS/2 interrupts on port 2")))
          (λ _. Keeps-pure _)))

Keeps-print_bytes : (r : Response) (left i : ℕ) → Keeps Consistent (print_bytes r left i)
unfolding print_bytes
Keeps-print_bytes r zero i = Keeps-pure tt
Keeps-print_bytes r (suc left) i = Keeps-bind _ _ Keeps-get (λ s.
    Keeps-if _ _ _ (Keeps-kprint q (codes "N/A")) (
      Keeps-bind _ _ (Keeps-kprint_run q _)
        (λ _. Keeps-bind _ _ (Keeps-kprint q (codes " ")) (λ _. Keeps-print_bytes r left (i + 1)))))

module _ (fuel : ℕ) where
  Keeps-disable_ports : Keeps Consistent (disable_ports fuel)
  unfolding disable_ports
  Keeps-disable_ports =
      search
        (
          keeps_rules, q, Keeps-ps2_send_cmd, Keeps-flush_ps2_output_buffer,
          Keeps-read_ps2_controller_config, Keeps-write_ps2_controller_config, Keeps-dual,
        )
        depth 30

  Keeps-check_dual_channel : Keeps Consistent (check_dual_channel fuel)
  unfolding check_dual_channel
  Keeps-check_dual_channel =
      search (keeps_rules, q, Keeps-ps2_send_cmd, Keeps-read_ps2_controller_config, Keeps-dual)
        depth 30

  Keeps-test_port_1 : Keeps Consistent (test_port_1 fuel)
  unfolding test_port_1
  Keeps-test_port_1 = Keeps-bind _ _ (Keeps-kern_log q _ _) (λ _.
      Keeps-bind _ _ (Keeps-ps2_send_cmd q fuel _) (λ _. Keeps-bind _ _ Keeps-get (λ s.
        Keeps-if (s.port1 == not_set) _ _
          (Keeps-given _ _ (Gives-port_test q fuel _ fuel) Keeps-port1) (Keeps-pure tt))))

  Keeps-test_second_port : Keeps Consistent (test_second_port fuel)
  unfolding test_second_port
  Keeps-test_second_port = Keeps-bind _ _ (Keeps-kern_log q _ _) (λ _.
      Keeps-bind _ _ (Keeps-ps2_send_cmd q fuel _) (λ _. Keeps-bind _ _ Keeps-get (λ s.
        Keeps-if (s.port2 == not_set) _ _
          (Keeps-given _ _ (Gives-port_test q fuel _ fuel) Keeps-port2) (Keeps-pure tt))))

  Keeps-enable_ports : Keeps Consistent (enable_ports fuel)
  unfolding enable_ports
  Keeps-enable_ports = search (keeps_rules, q, Keeps-ps2_send_cmd) depth 30

  Keeps-enable_interrupts : Keeps Consistent (enable_interrupts fuel)
  unfolding enable_interrupts
  Keeps-enable_interrupts =
      search
        (
          keeps_rules, q, Keeps-with_interrupts, Keeps-read_ps2_controller_config,
          Keeps-write_ps2_controller_config,
        )
        depth 30

  -- An identity is saved once it is found.
  saved1 :
      (k : Response → M (Unit {0}))
      → ((r : Response) → Keeps Consistent (k r))
      → Keeps Consistent
          (ps2_port_identify fuel 1 >>= λ r. modify (λ s. record s { identity1 = r }) >> k r)
  saved1 k rest =
      Keeps-given _ _ (Gives-ps2_port_identify q fuel 1)
        (λ r le. Keeps-bind _ _ (Keeps-identity1 r le) (λ _. rest r))

  saved2 :
      (k : Response → M (Unit {0}))
      → ((r : Response) → Keeps Consistent (k r))
      → Keeps Consistent
          (ps2_port_identify fuel 2 >>= λ r. modify (λ s. record s { identity2 = r }) >> k r)
  saved2 k rest =
      Keeps-given _ _ (Gives-ps2_port_identify q fuel 2)
        (λ r le. Keeps-bind _ _ (Keeps-identity2 r le) (λ _. rest r))

  Keeps-print_identities : Keeps Consistent (print_identities fuel)
  unfolding print_identities
  Keeps-print_identities =
      Keeps-bind _ _ (Keeps-kern_log q 1 (codes "Debug: Getting PS/2 device identities")) (λ _.
        saved1 _ (λ one.
          Keeps-bind _ _ (Keeps-kprint q (codes "Debug: PS/2 port 1 identity: ")) (λ _.
            Keeps-bind _ _ (Keeps-print_bytes one one.byte_count 0) (λ _.
              Keeps-bind _ _ (Keeps-kprint q (codes "\n")) (λ _. saved2 _ (λ two.
                Keeps-bind _ _ (Keeps-kprint q (codes "Debug: PS/2 port 2 identity: ")) (λ _.
                  Keeps-bind _ _ (Keeps-print_bytes two two.byte_count 0)
                    (λ _. Keeps-kprint q (codes "\n")))))))))

  Keeps-start_ports : Keeps Consistent (start_ports fuel)
  unfolding start_ports
  Keeps-start_ports =
      search
        (
          keeps_rules, q, Keeps-test_port_1, Keeps-test_second_port, Keeps-enable_ports,
          Keeps-enable_interrupts, Keeps-print_identities, Keeps-initialized,
        )
        depth 40

  pub Keeps-ps2_init : Keeps Consistent (ps2_init fuel)
  unfolding ps2_init
  Keeps-ps2_init =
      search
        (
          keeps_rules, q, Keeps-disable_ports, Keeps-ps2_send_cmd, Keeps-self_test,
          Keeps-check_dual_channel, Keeps-start_ports,
        )
        depth 40
