-- ===== src/Drivers/Reach.antt =====
-- The drivers of src/os/src in any order: kernel.c starts them, ps2.c and keyboard.c set up their devices,
-- and idt.c takes interrupts between them.
use flosp_os.Common.{ℕ, ◌≡◌, Bool}
use flosp_os.Common.Run.{done}
use flosp_os.Text.{Text}
use flosp_os.Machine.{Machine}
use flosp_os.Machine.Keeps.{Keeps, Stable, keeps_rules}
use flosp_os.Ps2.Init.{ps2_init}
use flosp_os.Keyboard.{keyboard_init}
use flosp_os.Interrupts.{StubTable, CpuStatus, Idt, interrupt_handler}
use flosp_os.Kernel.Entry.{start_drivers}
use flosp_os.Drivers.{Consistent, Consistent-Stable}
use flosp_os.Drivers.Ps2Kept.{Keeps-ps2_init}
use flosp_os.Drivers.KeyboardKept.{Keeps-keyboard_init}
use flosp_os.Drivers.TimersKept.{Keeps-timers_init, Keeps-enable_lapic}
use flosp_os.Drivers.AcpiKept.{Keeps-acpi_init, Keeps-acpi_vcheck, Keeps-acpi_ccheck}
use flosp_os.Drivers.InterruptsKept.{Keeps-interrupt_handler, Keeps-idt_init}

abbrev q : Stable Consistent
q = Consistent-Stable

-- One of the calls, and it returns.
pub data Step (fuel : ℕ) : Machine → Machine → Type 0 where
  starts :
      (kver : Text) (stubs : StubTable) (xsdp : ℕ) (idt : Idt) (table : Idt × ℕ) (s t : Machine)
      → start_drivers kver stubs fuel xsdp idt s ≡ done (table, t)
      → Step fuel s t
  finds_controller : (r : ℕ) (s t : Machine) → ps2_init fuel s ≡ done (r, t) → Step fuel s t
  finds_keyboard :
      (usb : Bool) (s t : Machine) → keyboard_init fuel usb s ≡ done (tt, t) → Step fuel s t
  interrupted :
      (c : CpuStatus) (s t : Machine) → interrupt_handler fuel c s ≡ done (tt, t) → Step fuel s t

-- Any number of them.
pub data Reach (fuel : ℕ) : Machine → Machine → Type 0 where
  here : (s : Machine) → Reach fuel s s
  next : (s t u : Machine) → Step fuel s t → Reach fuel t u → Reach fuel s u

module _ (fuel : ℕ) where
  Keeps-start_drivers :
      (kver : Text) (stubs : StubTable) (xsdp : ℕ) (idt : Idt)
      → Keeps Consistent (start_drivers kver stubs fuel xsdp idt)
  unfolding start_drivers
  Keeps-start_drivers kver stubs xsdp idt =
      search
        (
          keeps_rules, q, Keeps-idt_init, Keeps-acpi_vcheck, Keeps-acpi_ccheck, Keeps-acpi_init,
          Keeps-enable_lapic, Keeps-timers_init,
        )
        depth 80

  Step-Consistent : (s t : Machine) → Step fuel s t → Consistent s → Consistent t
  Step-Consistent s t (starts kver stubs xsdp idt table _ _ run) h =
      (Keeps-start_drivers kver stubs xsdp idt).at s t table h run
  Step-Consistent s t (finds_controller r _ _ run) h = (Keeps-ps2_init fuel).at s t r h run
  Step-Consistent s t (finds_keyboard usb _ _ run) h =
      (Keeps-keyboard_init fuel usb).at s t tt h run
  Step-Consistent s t (interrupted c _ _ run) h = (Keeps-interrupt_handler fuel c).at s t tt h run

-- However the start of the kernel, the set-up of the PS/2 controller, that of the keyboard and interrupts
-- follow each other, if each returns, the variables of the drivers stay consistent: a port has failed its
-- test, passed it or is marked as untested, an identity has at most two bytes, the keyboard is on only
-- behind a controller that is set up, and the ticks, the period, the number of tables and the base of the
-- local APIC fit their types.
pub Reach-Consistent : (fuel : ℕ) (s t : Machine) → Reach fuel s t → Consistent s → Consistent t
Reach-Consistent fuel s t (here _) h = h
Reach-Consistent fuel s u (next _ t _ step rest) h =
    Reach-Consistent fuel t u rest (Step-Consistent fuel s t step h)
