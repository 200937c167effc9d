-- ===== src/Kernel/NoHpet.antt =====
-- The search for the tables on a machine without an HPET, and the set-up of the local APIC after it.
use flosp_os.Common.{
  ℕ, ◌+◌, ◌-◌, ◌/◌, ◌^◌, ◌==◌, ◌≡◌, ap, refl, ◌∙◌, codes, if◌then◌else◌, u16, u64,
}
use flosp_os.Mem.{Memory, load_le}
use flosp_os.Machine.{Machine, Env, Acpi, Timers, modify, kern_log, filter_debug, filter_critical}
use flosp_os.Machine.Keeps.{
  Keeps, Stable, keeps_rules, Keeps-bind, Keeps-if, Keeps-modify, Keeps-get, Keeps-lift, ends_at,
}
use flosp_os.Machine.Leads.{Leads, Leads-modify, Leads-rest, Leads-first, Leads-bind, Leads-bind}
use flosp_os.Acpi.{
  save_xsdt, save_fadt, save_hpet, save_madt, set_acpi, find_table, get_acpi_table, table_length,
  xsdt_ptr, sdt_header_size, acpi_init, save_lapic_address, get_madt_entry_addr,
  lapic_address_override,
}
use flosp_os.Apic.{enable_lapic, lapic_set_base}
use flosp_os.Apic.Kept.{Keeps-enable_lapic}

-- The number of entries of the XSDT, as `acpi_init` computes it.
abbrev pub entries : Memory → ℕ → ℕ
entries m xsdt = u16 (u64 (table_length m xsdt + 2 ^ 64 - sdt_header_size) / 8)

-- The table of an HPET that `acpi_init` finds behind the XSDP, or 0.
abbrev pub hpet_table : Memory → ℕ → ℕ
hpet_table m xsdp = find_table m (xsdt_ptr m xsdp) (codes "HPET") (entries m (xsdt_ptr m xsdp)) 0

-- The devices, the counter and the HPET's address.
module _ (e : Env) (x : Timers) where
  abbrev pub Same : Machine → Type 0
  Same s = (s.env ≡ e) × (s.timers ≡ x)

  abbrev Located : ℕ → ℕ → Machine → Type 0
  Located xsdt n s = Same s × (s.acpi.xsdt ≡ xsdt) × (s.acpi.num_xsdt_entries ≡ n)

  -- The table of the HPET was not found.
  abbrev pub Absent : Machine → Type 0
  Absent s = Same s × (s.acpi.hpet ≡ 0)

  pub Same-Stable : Stable Same
  Same-Stable = record { stays = λ s now trace error h. h }

  Located-Stable : (xsdt n : ℕ) → Stable (Located xsdt n)
  Located-Stable xsdt n = record { stays = λ s now trace error h. h }

  pub Absent-Stable : Stable Absent
  Absent-Stable = record { stays = λ s now trace error h. h }

  Absent-set_acpi :
      (f : Acpi → Acpi) → ((a : Acpi) → (f a).hpet ≡ a.hpet) → Keeps Absent (set_acpi f)
  Absent-set_acpi f same = Keeps-modify _ (λ s (h, none). (h, same s.acpi ∙ none))

  Absent-save_lapic_address : Keeps Absent save_lapic_address
  unfolding save_lapic_address
  Absent-save_lapic_address = Keeps-bind _ _ Keeps-get (λ s.
      Keeps-bind _ _ (Keeps-lift (get_madt_entry_addr lapic_address_override s)) (λ entry.
        Keeps-if (entry == 0) _ _
          (Keeps-bind _ _ (Absent-set_acpi (λ a. record a { lapic_x86_64_addr = 0 }) (λ a. refl))
            (λ _.
              Absent-set_acpi (λ a. record a { lapic_x86_addr = load_le 4 s.env.mem (a.madt + 36) })
                (λ a. refl)))
          (Absent-set_acpi (λ a. record a { lapic_x86_64_addr = u64 (entry + 4) }) (λ a. refl))))

  Absent-madt : (table : ℕ) → Keeps Absent (set_acpi (λ a. record a { madt = table }))
  Absent-madt table = Absent-set_acpi _ (λ a. refl)

  Absent-lapic_addr : (a : ℕ) → Keeps Absent (modify (λ s. record s { lapic_addr = a }))
  Absent-lapic_addr a = Keeps-modify _ (λ s h. h)

  Absent-lapic_set_base : (base : ℕ) → Keeps Absent (lapic_set_base base)
  unfolding lapic_set_base
  Absent-lapic_set_base base = Keeps-modify _ (λ s h. h)

  pub Absent-enable_lapic : Keeps Absent enable_lapic
  Absent-enable_lapic = Keeps-enable_lapic Absent-Stable Absent-lapic_addr Absent-lapic_set_base

  Located-fadt :
      (xsdt n table : ℕ) → Keeps (Located xsdt n) (set_acpi (λ a. record a { fadt = table }))
  Located-fadt xsdt n table = Keeps-modify _ (λ s h. h)

  Located-save_fadt : (xsdt n : ℕ) → Keeps (Located xsdt n) save_fadt
  unfolding save_fadt
  Located-save_fadt xsdt n = search (keeps_rules, Located-Stable, Located-fadt) depth 30

  Absent-save_madt : Keeps Absent save_madt
  unfolding save_madt
  Absent-save_madt = search (keeps_rules, Absent-Stable, Absent-madt) depth 30

  module _ (xsdp : ℕ) where
    -- What the XSDP names, in the memory of the devices.
    abbrev Named : Machine → Type 0
    Named = Located (xsdt_ptr e.mem xsdp) (entries e.mem (xsdt_ptr e.mem xsdp))

    save_xsdt-Named : Leads Same Named (save_xsdt xsdp)
    unfolding save_xsdt
    save_xsdt-Named = record {
      at = λ s t a (devices, timers) run. ends_at Named s t _ a tt run (
        (devices, timers),
        ap (λ (v : Env). xsdt_ptr v.mem xsdp) devices,
        ap (λ (v : Env). entries v.mem (xsdt_ptr v.mem xsdp)) devices,
      );
    }

    not_found :
        (table : ℕ) → table ≡ 0 → Leads Named Absent (set_acpi (λ a. record a { hpet = table }))
    not_found table none = Leads-modify _ (λ t (same, _, _). (same, none))

    shown :
        (table : ℕ)
        → Keeps Absent (
            if table == 0
            then kern_log filter_critical (codes "Warning: ACPI table HPET not found")
            else kern_log filter_debug
                (codes "Debug: ACPI table HPET (sign: \"HPET\") successfully located"))
    shown table = search (keeps_rules, Absent-Stable) depth 10

    -- Where the search finds nothing, nothing is saved.
    save_hpet-Absent : hpet_table e.mem xsdp ≡ 0 → Leads Named Absent save_hpet
    unfolding save_hpet get_acpi_table
    save_hpet-Absent none = record {
      at = λ s t a ((devices, timers), at, count) run.
          (Leads-first _ _
              (not_found (get_acpi_table (codes "HPET") s) (rw (devices, at, count) none))
              (λ _. shown (get_acpi_table (codes "HPET") s))).at
            s t a ((devices, timers), at, count) run;
    }

    pub acpi_init-Absent : hpet_table e.mem xsdp ≡ 0 → Leads Same Absent (acpi_init xsdp)
    unfolding acpi_init
    acpi_init-Absent none = Leads-bind _ _ save_xsdt-Named (λ _.
        Leads-rest _ _ (Located-save_fadt _ _) (λ _.
          Leads-first _ _ (save_hpet-Absent none)
            (λ _. Keeps-bind _ _ Absent-save_madt (λ _. Absent-save_lapic_address))))
