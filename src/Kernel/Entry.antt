-- ===== src/Kernel/Entry.antt =====
-- src/os/src/kernel/kernel.c and src/os/src/cpu/gdt.c: the kernel from its entry to the halt. The drivers
-- of its middle part tell the console what to print as events, which are shown on the screen in their
-- order. The processor then halts, and only interrupts go on.
use flosp_os.Common.{ℕ, List, [], ◌∷◌, ◌++◌, ◌==◌, if◌then◌else◌, codes}
use flosp_os.Common.Run
use flosp_os.Common.Run.{Run, done}
use flosp_os.Text.{Text}
use flosp_os.Machine.{
  Machine, Event, out, set_reg, print, erase, M, pure, ◌>>=◌, ◌>>◌, skip, kern_log, filter_debug,
  filter_info, filter_critical, cpu_freeze,
}
use flosp_os.Vga
use flosp_os.Vga.{VideoModeInfo, Terminal, kscroll_down}
use flosp_os.Vga.Init.{initialize_video}
use flosp_os.Interrupts.{StubTable, Idt, idt_init}
use flosp_os.Acpi.{acpi_vcheck, acpi_ccheck, acpi_init}
use flosp_os.Apic.{enable_lapic}
use flosp_os.Timers.{timers_init}
use flosp_os.Kernel.{enter_sysprompt}

-- The tables that `gdt_init_asm` loads are in gdt64.s.
abbrev pub gdt_init : M (Unit {0})
gdt_init = kern_log filter_debug (codes "Debug: Loading GDT")

-- From the first message to the timers. `kver` is the build's KVER, and `isr_stub_table` is in isr.s.
unfoldable pub start_drivers : Text → StubTable → ℕ → ℕ → Idt → M (Idt × ℕ)
start_drivers kver isr_stub_table fuel xsdp idt = do
  kern_log filter_info (codes "Kernel flosp-" ++ (kver ++ codes " loaded"))
  gdt_init
  kern_log filter_info (codes "GDT initialized")
  table ← idt_init isr_stub_table idt
  kern_log filter_info (codes "IDT initialized and interrupts enabled")
  let refuse = (do kern_log filter_critical (codes "Fatal: Invalid ACPI XSDP address"); cpu_freeze)
  if xsdp == 0 then refuse else skip
  acpi_vcheck xsdp
  acpi_ccheck xsdp
  acpi_init xsdp
  kern_log filter_info (codes "ACPI enabled")
  enable_lapic
  kern_log filter_info (codes "LAPIC enabled")
  kern_log filter_debug (codes "Debug: Initializing the system timer for kernel usage")
  timers_init fuel
  pure table

module _ (fonts : ℕ → ℕ → ℕ) where
  -- The events of a run on the screen, the newest first in the list.
  unfoldable pub show_events : List Event → Terminal → Run Terminal
  show_events [] t = done t
  show_events (out port value ∷ events) t = show_events events t
  show_events (set_reg reg value ∷ events) t = show_events events t
  show_events (print text ∷ events) t =
      Run.◌>>=◌ (show_events events t) (λ t'. Vga.kprint fonts text t')
  show_events (erase ∷ events) t = Run.◌>>=◌ (show_events events t) (Vga.backspace fonts)

  -- The screen, the machine and the interrupt table with its limit, at the halt.
  unfoldable pub main :
      (ℕ → ℕ)
      → ℕ
      → Text
      → StubTable
      → ℕ
      → VideoModeInfo
      → ℕ
      → Idt
      → Terminal
      → Machine
      → Run ((Terminal × Machine) × Idt × ℕ)
  main garbage cr3 kver isr_stub_table fuel v xsdp idt t0 s0 =
      Run.◌>>=◌ (initialize_video fonts garbage cr3 v t0) (λ t1.
        Run.◌>>=◌ (start_drivers kver isr_stub_table fuel xsdp idt (record s0 { trace = [] }))
          (λ (table, s). Run.◌>>=◌ (show_events s.trace t1) (λ t2.
            Run.◌>>=◌ (kscroll_down t2) (λ t3.
              Run.◌>>=◌ (enter_sysprompt fonts garbage t3)
                (λ t4. (let (idt1, limit) = table in done ((t4, s), idt1, limit)))))))
