-- ===== src/Ps2/Tests.antt =====
-- The theorems on ps2.c with a controller that needs three status reads.
use flosp_os.Common.{ℕ, suc, ◌≡◌, refl, Bool, true, [], ◌∷◌, arith}
use flosp_os.Common.Run.{done}
use flosp_os.Machine.{out, ◌>>◌, pure}
use flosp_os.Machine.Sample.{machine}
use flosp_os.Ps2.{command_port, can_write, ps2_send_cmd, ps2_write_data}
use flosp_os.Ps2.Wait.{later, Ready, ps2_send_cmd-Ready}
use flosp_os.Ps2.Port.{poll_until, send_byte}
use flosp_os.Ps2.Port.Timeout.{Ended, poll_until-Ended, send_byte-no_timeout}

ps2_send_cmd-Ready_example :
    (n : ℕ) × (ps2_send_cmd 10 0xae machine
      ≡ done (tt, record (later machine (suc n)) { trace = out command_port 0xae ∷ [] }))
    × Ready can_write machine 3 n
ps2_send_cmd-Ready_example = ps2_send_cmd-Ready 10 3 0xae machine (omega arith) refl

poll_until-Ended_example :
    (b : Bool) × (n : ℕ) × (poll_until (λ status. true) 0 10 machine
      ≡ done (b, later machine (suc n)))
    × Ended (λ status. true) 0 machine b n
poll_until-Ended_example =
    poll_until-Ended (λ status. true) 0 10 1 machine (omega arith) (omega arith)

send_byte-no_timeout_example :
    send_byte 10 0xf4 machine ≡ (ps2_write_data 10 0xf4 >> pure 0) (record machine { now = 2 })
send_byte-no_timeout_example = send_byte-no_timeout 9 0xf4 machine
