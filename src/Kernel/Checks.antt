-- ===== src/Kernel/Checks.antt =====
-- The checks of the ACPI tables in the kernel's `main`.
use mathlib.Core.Path.{subst}
use flosp_os.Common.{
  sym, [], ℕ, refl, ltb, codes, ◌≡◌, ◌∙◌, Bool, true, false, ◌||◌, not, arith, ◌==◌, bit_and,
  Bool-cases, inl, inr,
}
use flosp_os.Common.Run.{done, frozen}
use flosp_os.Text.{Text}
use flosp_os.Machine.{Machine, M, ◌>>◌, ◌>>=◌, kern_log, cpu_freeze, filter_critical, filter_debug}
use flosp_os.Mem.{Memory}
use flosp_os.Vga.{VideoModeInfo, Terminal}
use flosp_os.Vga.Init.{initialize_video}
use flosp_os.Interrupts.{StubTable, Idt, idt_init, mask_pic_interrupts}
use flosp_os.Acpi.{xsdp_size, xsdp_revision, sum_bytes, acpi_vcheck, acpi_ccheck}
use flosp_os.Kernel.Entry.{start_drivers, main}

-- There is no table, or an old one, or one whose bytes do not sum to 0 modulo 256.
abbrev pub refused : Memory → ℕ → Bool
refused m xsdp =
    xsdp == 0
    || (xsdp_revision m xsdp == 0 || not (bit_and (sum_bytes m xsdp_size xsdp 0) 0xff == 0))

-- A call that goes on, before a run that freezes wherever it starts on the same devices.
log_then :
    {A : Type 0} (filter : ℕ) (msg : Text) (k : M A) (s : Machine)
    → ((t : Machine) → t.env ≡ s.env → k t ≡ frozen)
    → (kern_log filter msg >> k) s ≡ frozen
log_then filter msg k s h = elim (Bool-cases (ltb s.env.message_filter filter)) [
  | inl more ↦ rw more (h _ refl)
  | inr less ↦ rw less (h _ refl)
]

freeze : (msg : Text) (s : Machine) → (kern_log filter_critical msg >> cpu_freeze) s ≡ frozen
freeze msg s = log_then filter_critical msg cpu_freeze s (λ t _. freezes t)
  where
    freezes : (t : Machine) → cpu_freeze t ≡ frozen
    freezes t = log_then filter_critical (codes "CPU Frozen") (λ u. frozen) t (λ u _. refl)

-- The descriptor table is set up without a change of the devices.
idt_then :
    {A : Type 0} (stubs : StubTable) (idt : Idt) (k : Idt × ℕ → M A) (s : Machine)
    → ((r : Idt × ℕ) (t : Machine) → t.env ≡ s.env → k r t ≡ frozen)
    → (idt_init stubs idt >>= k) s ≡ frozen
unfolding idt_init mask_pic_interrupts
idt_then stubs idt k s h = elim (Bool-cases (ltb s.env.message_filter filter_debug)) [
  | inl more ↦ rw (more, more, more, more) (h _ _ refl)
  | inr less ↦ rw (less, less, less, less) (h _ _ refl)
]

module _ {A : Type 0} (xsdp : ℕ) (k : M A) (s : Machine) where
  old_table : (xsdp_revision s.env.mem xsdp == 0) ≡ true → (acpi_vcheck xsdp >> k) s ≡ frozen
  unfolding acpi_vcheck
  old_table old = rw (old, freeze (codes "Fatal: ACPI version 1.0 is not supported") s) refl

  vcheck_then :
      (xsdp_revision s.env.mem xsdp == 0) ≡ false
      → ((t : Machine) → t.env ≡ s.env → k t ≡ frozen)
      → (acpi_vcheck xsdp >> k) s ≡ frozen
  unfolding acpi_vcheck
  vcheck_then new h = rw new (log_then _ _ k s h)

  bad_sum :
      (bit_and (sum_bytes s.env.mem xsdp_size xsdp 0) 0xff == 0) ≡ false
      → (acpi_ccheck xsdp >> k) s ≡ frozen
  unfolding acpi_ccheck
  bad_sum bad = rw (bad, freeze (codes "Fatal: ACPI checksum failed") s) refl

checks_frozen :
    {A : Type 0} (xsdp : ℕ) (k : M A) (s : Machine)
    → refused s.env.mem xsdp ≡ true
    → (xsdp == 0) ≡ false
    → (acpi_vcheck xsdp >> (acpi_ccheck xsdp >> k)) s ≡ frozen
checks_frozen xsdp k s bad some_table = elim (Bool-cases (xsdp_revision s.env.mem xsdp == 0)) [
  | inl old ↦ old_table xsdp (acpi_ccheck xsdp >> k) s old
  | inr new ↦
      let sum : (bit_and (sum_bytes s.env.mem xsdp_size xsdp 0) 0xff == 0) ≡ false = ground arith in
      vcheck_then xsdp (acpi_ccheck xsdp >> k) s new (λ t e.
        bad_sum xsdp k t
          (subst (λ v. (bit_and (sum_bytes v.mem xsdp_size xsdp 0) 0xff == 0) ≡ false) (sym e) sum))
]

start_drivers-frozen :
    (kver : Text) (stubs : StubTable) (fuel xsdp : ℕ) (idt : Idt) (s : Machine)
    → refused s.env.mem xsdp ≡ true
    → start_drivers kver stubs fuel xsdp idt s ≡ frozen
unfolding start_drivers
start_drivers-frozen kver stubs fuel xsdp idt s bad = log_then _ _ _ s (λ s1 e1.
    log_then _ _ _ s1 (λ s2 e2. log_then _ _ _ s2 (λ s3 e3. idt_then _ _ _ s3 (λ table s4 e4.
      log_then _ _ _ s4 (λ s5 e5.
        let same : s5.env ≡ s.env = e5 ∙ (e4 ∙ (e3 ∙ (e2 ∙ e1))) in
        let bad5 : refused s5.env.mem xsdp ≡ true =
          subst (λ v. refused v.mem xsdp ≡ true) (sym same) bad in
        elim (Bool-cases (xsdp == 0)) [
          | inl null ↦ rw (null, freeze (codes "Fatal: Invalid ACPI XSDP address") s5) refl
          | inr some_table ↦ rw some_table (checks_frozen xsdp _ s5 bad5 some_table)
        ])))))

-- Where the screen can be set up, and there is no XSDP, an old one, or one with a wrong checksum, the
-- kernel's `main` ends in a freeze, whatever else the devices answer.
pub main-frozen :
    (fonts : ℕ → ℕ → ℕ) (garbage : ℕ → ℕ) (cr3 : ℕ) (kver : Text) (stubs : StubTable) (fuel : ℕ)
    (v : VideoModeInfo) (xsdp : ℕ) (idt : Idt) (t0 t1 : Terminal) (s0 : Machine)
    → initialize_video fonts garbage cr3 v t0 ≡ done t1
    → refused s0.env.mem xsdp ≡ true
    → main fonts garbage cr3 kver stubs fuel v xsdp idt t0 s0 ≡ frozen
unfolding main
main-frozen fonts garbage cr3 kver stubs fuel v xsdp idt t0 t1 s0 screen bad =
    rw (screen, start_drivers-frozen kver stubs fuel xsdp idt (record s0 { trace = [] }) bad) refl
