-- ===== src/Interrupts/Service/Sequence.antt =====
-- `interrupt_handler` of idt.c for interrupts that follow each other.
use mathlib.Core.Path.{subst}
use mathlib.Core.List.{foldl}
use flosp_os.Common.{ℕ, ◌≡◌, ◌∙◌, ap, sym, refl, List, [], ◌∷◌}
use flosp_os.Common.Run.{done}
use flosp_os.Machine.{Machine, and_then}
use flosp_os.Interrupts.{CpuStatus, interrupt_handler}
use flosp_os.Interrupts.Service.{service, serviced, after, Answers, serve, AllRegular}
use flosp_os.Interrupts.Service.Served.{interrupt_handler-Served, Served-service}

-- However interrupts that are no exceptions follow each other, the handler returns from all of them. The
-- counter then has moved on by one for each tick, modulo 2 ^ 64, if the timer is on; the local controller
-- was told of each tick, the master of each interrupt, and the slave of those from 40 on. Else only the
-- shift state, the trace and the count of inputs change. The devices give codes that the driver handles
-- if the keyboard is on, an output buffer that empties in time, and vectors below 16 ^ 15.
pub serve-service :
    (fuel : ℕ) (cs : List CpuStatus) (s : Machine)
    → AllRegular cs
    → Answers fuel s
    → (t : Machine) × (serve fuel cs s ≡ done (tt, t))
      × (t ≡ after s t.now t.timers.ticks t.shift_down t.trace)
      × (service t ≡ foldl (serviced s.timers.lapic_timer_enabled) (service s) cs)
unfolding serve
serve-service fuel [] s regular answers = (s, refl, refl, refl)
serve-service fuel (c ∷ cs) s (regular, rest) answers =
    let d = interrupt_handler-Served fuel s c answers regular in
    let (t, run, frame, one) = Served-service s c (interrupt_handler fuel c s) d in
    let (u, runs, frames, all) =
      serve-service fuel cs (next t) rest
        (record { known = answers.known; drains = answers.drains }) in
    (
      u,
      ap (λ r. and_then r (λ _. serve fuel cs)) run
          ∙ subst (λ v. serve fuel cs v ≡ done (tt, u)) (sym frame) runs,
      frames,
      all
          ∙ ap (λ v. foldl (serviced s.timers.lapic_timer_enabled) v cs)
              (subst (λ v. service v ≡ serviced s.timers.lapic_timer_enabled (service s) c) frame
                one),
    )
  where
    next : Machine → Machine
    next t = after s t.now t.timers.ticks t.shift_down t.trace
