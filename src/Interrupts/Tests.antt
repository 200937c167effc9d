-- ===== src/Interrupts/Tests.antt =====
-- The theorems on idt.c at concrete interrupts.
use flosp_os.Common.{
  ℕ, ◌+◌, ◌*◌, ◌≡◌, refl, inl, true, ◌∷◌, List, [], arith, codes, ◌++◌, ◌==◌, leb, if◌then◌else◌,
  bit_and,
}
use flosp_os.Common.Run.{done}
use flosp_os.Text.{Text}
use flosp_os.Text.Numeral.{IsNumeral}
use flosp_os.Machine.{Machine, out, print, value}
use flosp_os.Machine.Sample.{machine}
use flosp_os.Interrupts.{
  StubTable, CpuStatus, Idt, descriptor, set_gates, idt_init, interrupt_handler,
}
use flosp_os.Interrupts.Service.{service, after, Answers, serve, AllRegular}
use flosp_os.Interrupts.Service.Sequence.{serve-service}
use flosp_os.Interrupts.Gates.{isr_address, gates, idt_init-gates, idt_init-isr_address}
use flosp_os.Interrupts.Dispatch.{interrupt_handler-key, interrupt_handler-exception}

abbrev stubs : StubTable
stubs = record { stub = λ v. 0xffff_8000_0010_0000 + 16 * v; behind = λ i. 0x1234 }

abbrev empty_idt : Idt
empty_idt v = descriptor 0 0

abbrev status : ℕ → ℕ → CpuStatus
status vector error = record { int_vector = vector; error = error; error_code = 2 }

abbrev ticking : Machine
ticking = record machine {
  timers = record machine.timers { lapic_timer_enabled = true; ticks = 41 };
  lapic_addr = 0xfee00000;
}

abbrev typing : Machine
typing = record machine {
  keyboard_enabled = true;
  env = record machine.env { port_in = λ k port. 0x1e };
}

idt_init-gates_example :
    value (idt_init stubs empty_idt machine) ≡ done (gates stubs empty_idt, 4095)
idt_init-gates_example = idt_init-gates stubs empty_idt machine

idt_init-isr_address_example :
    isr_address (set_gates stubs 16 32 (set_gates stubs 32 0 empty_idt) 33) ≡ 0xffff_8000_0010_0210
idt_init-isr_address_example = idt_init-isr_address stubs empty_idt 33 (omega arith) (omega arith)

interrupt_handler-key_example :
    interrupt_handler 10 (status 0x21 0) typing
    ≡ done (tt, record typing { now = 1; trace = out 0x20 0x20 ∷ print (codes "a") ∷ typing.trace })
interrupt_handler-key_example =
    interrupt_handler-key 10 (status 0x21 0) typing refl refl (inl (omega arith))

-- A division by zero, which has no error code.
interrupt_handler-exception_example :
    (text : Text) × IsNumeral 16 0 text
    × (interrupt_handler 10 (status 0 0) machine
        ≡ done (
          tt,
          record machine {
            trace =
                out 0x20 0x20
                ∷ print (codes "\n")
                ∷ print (codes "0x" ++ text)
                ∷ print (codes "Unexpected Interrupt: ")
                ∷ machine.trace;
          },
        ))
interrupt_handler-exception_example =
    interrupt_handler-exception 10 (status 0 0) machine (omega arith) (omega arith)

-- The timer and the keyboard are on; a mouse interrupt finds two bytes in the output buffer.
abbrev busy : Machine
busy = record ticking {
  keyboard_enabled = true;
  env = record machine.env {
    port_in = λ k port. if port == 0x60 then 0x1e else if leb 6 k then 0 else 1;
  };
}

busy-Answers : Answers 10 busy
busy-Answers = record {
  known = λ on t. inl (omega arith);
  drains = λ t. (3, omega arith, emptied t);
}
  where
    emptied : (t : ℕ) → bit_and (if leb 6 (t + 6) then 0 else 1) 1 ≡ 0
    emptied t = let late : leb 6 (t + 6) ≡ true = ground arith in rw late refl

-- A tick, a key, the mouse, an interrupt without a handler, and a tick.
abbrev vectors : List CpuStatus
vectors = status 0x20 0 ∷ status 0x21 0 ∷ status 0x2c 0 ∷ status 0x2f 0 ∷ status 0x20 0 ∷ []

vectors-AllRegular : AllRegular vectors
vectors-AllRegular = (
  (refl, omega arith),
  ((refl, omega arith), ((refl, omega arith), ((refl, omega arith), ((refl, omega arith), tt)))),
)

serve-service_example :
    (t : Machine) × (serve 10 vectors busy ≡ done (tt, t))
    × (t ≡ after busy t.now t.timers.ticks t.shift_down t.trace)
    × (service t ≡ record { ticks = 43; local = 2; master = 5; slave = 2 })
serve-service_example = serve-service 10 vectors busy vectors-AllRegular busy-Answers
