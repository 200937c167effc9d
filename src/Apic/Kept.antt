-- ===== src/Apic/Kept.antt =====
-- What apic.c keeps of the machine, if it returns.
use flosp_os.Common.{ℕ, ◌==◌, bit_and, bit_or, u32, u64, ◌>>>◌, ◌<<◌}
use flosp_os.Machine.{Machine, pure, modify}
use flosp_os.Machine.Keeps.{Keeps, Stable, keeps_rules, Keeps-pure, Keeps-branch, Keeps-state}
use flosp_os.Acpi.{get_lapic_address_acpi}
use flosp_os.Apic.{enable_lapic, check_apic, disable_pic8259, lapic_get_base, lapic_set_base}

module _ {Q : Machine → Type 0} where
  Keeps-get_lapic_address_acpi : Keeps Q get_lapic_address_acpi
  unfolding get_lapic_address_acpi
  Keeps-get_lapic_address_acpi =
      Keeps-branch (λ s. s.acpi.lapic_x86_64_addr == 0) (λ s. pure s.acpi.lapic_x86_addr s)
        (λ s. pure s.acpi.lapic_x86_64_addr s) (Keeps-state _ (λ s. Keeps-pure _))
        (Keeps-state _ (λ s. Keeps-pure _))

  Keeps-lapic_get_base : Keeps Q lapic_get_base
  unfolding lapic_get_base
  Keeps-lapic_get_base =
      Keeps-state
        (λ s. pure (
          bit_or (bit_and (u32 s.apic_base) 0xfffff000)
            (u64 (bit_and (s.apic_base >>> 32) 0x0f << 32))))
        (λ s. Keeps-pure _)

module _ {Q : Machine → Type 0} (q : Stable Q) where
  Keeps-check_apic : Keeps Q check_apic
  unfolding check_apic
  Keeps-check_apic = search (keeps_rules, q) depth 20

  -- It writes the address of the controller and its base.
  pub Keeps-enable_lapic :
      ((a : ℕ) → Keeps Q (modify (λ s. record s { lapic_addr = a })))
      → ((base : ℕ) → Keeps Q (lapic_set_base base))
      → Keeps Q enable_lapic
  unfolding enable_lapic disable_pic8259
  Keeps-enable_lapic address base =
      search (keeps_rules, q, Keeps-check_apic, Keeps-get_lapic_address_acpi, Keeps-lapic_get_base)
        depth 60
