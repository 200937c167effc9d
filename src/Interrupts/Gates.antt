-- ===== src/Interrupts/Gates.antt =====
-- The descriptor table that `idt_init` leaves.
use flosp_os.Common.{
  ℕ, zero, suc, ◌+◌, ◌*◌, ◌/◌, ◌^◌, ◌<◌, ◌≡◌, ◌∙◌, ap, ◌&&◌, arith, leb, ltb, ◌==◌, ◌-◌,
  if◌then◌else◌, lt→ltb,
}
use flosp_os.Common.Bits.{bit_and_low}
use flosp_os.Common.Run.{done}
use flosp_os.Machine.{Machine, value}
use flosp_os.Interrupts.{
  StubTable, isr_stub, IdtEntry, Idt, descriptor, idt_set_descriptor, set_gates, idt_init,
  mask_pic_interrupts,
}

-- The address that the processor reads from a descriptor.
abbrev pub isr_address : IdtEntry → ℕ
isr_address e = e.isr_low + e.isr_mid * 2 ^ 16 + e.isr_high * 2 ^ 32

descriptor-isr_address : (isr flags : ℕ) → isr < 2 ^ 64 → isr_address (descriptor isr flags) ≡ isr
unfolding descriptor
descriptor-isr_address isr flags fits =
    omega (arith, bit_and_low 16 isr, bit_and_low 16 (isr / 2 ^ 16), bit_and_low 32 (isr / 2 ^ 32))

set_gates-range :
    (t : StubTable) (n vect : ℕ) (idt : Idt) (v : ℕ)
    → set_gates t n vect idt v
      ≡ (if leb vect v && ltb v (vect + n) then descriptor (isr_stub t v) 0x8e else idt v)
unfolding set_gates idt_set_descriptor
set_gates-range t zero vect idt v = ground arith
set_gates-range t (suc n) vect idt v = ground (
  arith,
  set_gates-range t n (vect + 1) (idt_set_descriptor vect (isr_stub t vect) 0x8e idt) v,
  same_gate,
)
  where
    same_gate : v ≡ vect → descriptor (isr_stub t v) 0x8e ≡ descriptor (isr_stub t vect) 0x8e
    same_gate e = ap (λ (w : ℕ). descriptor (isr_stub t w) 0x8e) e

-- A gate for the stub of each of the first 47 vectors, one for the word behind the table of stubs, and the
-- rest as it was.
abbrev pub gates : StubTable → Idt → Idt
gates t idt v =
    if ltb v 47
    then descriptor (t.stub v) 0x8e
    else if v == 47
    then descriptor (t.behind 0) 0x8e
    else idt v

both_loops :
    (t : StubTable) (idt : Idt) (v : ℕ) → set_gates t 16 32 (set_gates t 32 0 idt) v ≡ gates t idt v
unfolding isr_stub
both_loops t idt v = ground (
  arith,
  set_gates-range t 16 32 (set_gates t 32 0 idt) v,
  set_gates-range t 32 0 idt v,
  λ (e : v ≡ 47). ap (λ (w : ℕ). t.behind (w - 47)) e,
)

-- `idt_init` sets the gates of the exceptions and of fifteen interrupt lines to their stubs, and the gate of
-- the sixteenth line, for which the table of stubs has no entry, to the word behind the table. It sets no
-- other gate, and loads the limit of the whole descriptor table.
pub idt_init-gates :
    (t : StubTable) (idt : Idt) (s : Machine) → value (idt_init t idt s) ≡ done (gates t idt, 4095)
unfolding idt_init mask_pic_interrupts
idt_init-gates t idt s = ran s ∙ (λ i. done ((λ v. both_loops t idt v i), 4095))
  where
    ran :
        (s : Machine)
        → value (idt_init t idt s) ≡ done (set_gates t 16 32 (set_gates t 32 0 idt), 4095)
    ran s = ground arith

-- Through its gate, each of the first 47 interrupts reaches its stub, wherever below 2 ^ 64 that is.
pub idt_init-isr_address :
    (t : StubTable) (idt : Idt) (v : ℕ)
    → v < 47
    → t.stub v < 2 ^ 64
    → isr_address (set_gates t 16 32 (set_gates t 32 0 idt) v) ≡ t.stub v
idt_init-isr_address t idt v lt fits =
    ap isr_address (both_loops t idt v)
    ∙ rw (lt→ltb v 47 lt) (descriptor-isr_address (t.stub v) 0x8e fits)
