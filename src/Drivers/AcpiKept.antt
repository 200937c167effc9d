-- ===== src/Drivers/AcpiKept.antt =====
-- acpi.c and the global variables of the drivers.
use flosp_os.Common.{ℕ, ◌+◌, ◌^◌, ◌<◌, ◌==◌, arith, u16, u64}
use flosp_os.Mem.{load_le}
use flosp_os.Machine.{Machine, Acpi}
use flosp_os.Machine.Keeps.{
  Keeps, Stable, keeps_rules, Keeps-bind, Keeps-if, Keeps-modify, Keeps-get, Keeps-lift,
}
use flosp_os.Acpi.{
  set_acpi, get_madt_entry_addr, lapic_address_override, acpi_init, save_xsdt, save_fadt, save_hpet,
  save_madt, acpi_vcheck, acpi_ccheck, save_lapic_address,
}
use flosp_os.Drivers.{Consistent, Consistent-Stable}

abbrev q : Stable Consistent
q = Consistent-Stable

Keeps-set_acpi :
    (f : Acpi → Acpi)
    → ((a : Acpi) → a.num_xsdt_entries < 2 ^ 16 → (f a).num_xsdt_entries < 2 ^ 16)
    → Keeps Consistent (set_acpi f)
Keeps-set_acpi f fits = Keeps-modify _ (λ s (ports, (ticks, period, entries, base)).
    (ports, (ticks, period, fits s.acpi entries, base)))

Keeps-tables :
    (xsdp xsdt n : ℕ)
    → Keeps Consistent (
        set_acpi (λ a. record a {
          xsdp = xsdp;
          xsdt = xsdt;
          fadt = 0;
          hpet = 0;
          madt = 0;
          num_xsdt_entries = u16 n;
        }))
Keeps-tables xsdp xsdt n = Keeps-set_acpi _ (λ a h. omega arith)

Keeps-fadt : (table : ℕ) → Keeps Consistent (set_acpi (λ a. record a { fadt = table }))
Keeps-fadt table = Keeps-set_acpi _ (λ a h. h)

Keeps-hpet : (table : ℕ) → Keeps Consistent (set_acpi (λ a. record a { hpet = table }))
Keeps-hpet table = Keeps-set_acpi _ (λ a h. h)

Keeps-madt : (table : ℕ) → Keeps Consistent (set_acpi (λ a. record a { madt = table }))
Keeps-madt table = Keeps-set_acpi _ (λ a h. h)

Keeps-wide : (addr : ℕ) → Keeps Consistent (set_acpi (λ a. record a { lapic_x86_64_addr = addr }))
Keeps-wide addr = Keeps-set_acpi _ (λ a h. h)

Keeps-narrow : (f : Acpi → ℕ) → Keeps Consistent (set_acpi (λ a. record a { lapic_x86_addr = f a }))
Keeps-narrow f = Keeps-set_acpi _ (λ a h. h)

Keeps-save_lapic_address : Keeps Consistent save_lapic_address
unfolding save_lapic_address
Keeps-save_lapic_address = Keeps-bind _ _ Keeps-get (λ s.
    Keeps-bind _ _ (Keeps-lift (get_madt_entry_addr lapic_address_override s)) (λ entry.
      Keeps-if (entry == 0) _ _
        (Keeps-bind _ _ (Keeps-wide 0) (λ _. Keeps-narrow (λ a. load_le 4 s.env.mem (a.madt + 36))))
        (Keeps-wide (u64 (entry + 4)))))

pub Keeps-acpi_init : (xsdp : ℕ) → Keeps Consistent (acpi_init xsdp)
unfolding acpi_init save_xsdt save_fadt save_hpet save_madt
Keeps-acpi_init xsdp =
    search
      (keeps_rules, q, Keeps-tables, Keeps-fadt, Keeps-hpet, Keeps-madt, Keeps-save_lapic_address)
      depth 60

module _ {Q : Machine → Type 0} (q : Stable Q) where
  pub Keeps-acpi_vcheck : (xsdp : ℕ) → Keeps Q (acpi_vcheck xsdp)
  unfolding acpi_vcheck
  Keeps-acpi_vcheck xsdp = search (keeps_rules, q) depth 30

  pub Keeps-acpi_ccheck : (xsdp : ℕ) → Keeps Q (acpi_ccheck xsdp)
  unfolding acpi_ccheck
  Keeps-acpi_ccheck xsdp = search (keeps_rules, q) depth 30
