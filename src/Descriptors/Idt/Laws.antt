-- ===== src/Descriptors/Idt/Laws.antt =====
-- What the interrupt descriptors say.
use phoebe.Base.{
  ℕ, zero, suc, ◌+◌, ◌*◌, ◌/◌, ◌%◌, ◌^◌, ◌<◌, ◌≤◌, ◌≡◌, refl, ◌∙◌, inl, inr, Bool-cases, false,
  ◌==◌, ==_iff, arith,
}
use phoebe.Descriptors.Masks.{bit_and_low}
use phoebe.Descriptors.Idt.{
  idt_attribute, create_gate, gate_bits, IdtTable, dpl_of, create_gates, initialize_idt,
  idt_interrupt_gate, kernel_code_selector,
}

-- The fields of a gate of 64-bit mode.
abbrev pub offset_of_gate : ℕ → ℕ
offset_of_gate g = g % 2 ^ 16 + 2 ^ 16 * (g / 2 ^ 48 % 2 ^ 48)

abbrev pub selector_of_gate : ℕ → ℕ
selector_of_gate g = g / 2 ^ 16 % 2 ^ 16

abbrev pub type_of_gate : ℕ → ℕ
type_of_gate g = g / 2 ^ 40 % 2 ^ 4

abbrev pub dpl_of_gate : ℕ → ℕ
dpl_of_gate g = g / 2 ^ 45 % 2 ^ 2

abbrev pub present_of_gate : ℕ → ℕ
present_of_gate g = g / 2 ^ 47 % 2

gate-fields :
    (base : ℕ)
    → base < 2 ^ 64
    → (offset_of_gate (gate_bits (create_gate base 0 idt_interrupt_gate 0 kernel_code_selector))
        ≡ base)
      × (gate_bits (create_gate base 0 idt_interrupt_gate 0 kernel_code_selector) / 2 ^ 16 % 2 ^ 32
          ≡ 0x8e000008)
unfolding create_gate gate_bits idt_attribute
gate-fields base h =
    let b0 = bit_and_low 48 16 base (omega (arith, h)) in
    let b1 = bit_and_low 32 16 (base / 2 ^ 16) (omega (arith, h)) in
    let b2 = bit_and_low 32 32 (base / 2 ^ 32) (omega (arith, h)) in
    rw (b0, b1, b2) (omega (arith, h), omega (arith, h))

dpl_of_lem : (vector dpl : ℕ) → dpl_of vector dpl ≡ 0
unfolding dpl_of
dpl_of_lem vector dpl = elim (Bool-cases (vector == 3)) [ inl e ↦ rw e refl | inr e ↦ rw e refl ]

-- The loop leaves the gates below `vector` as they are.
create_gates-below :
    (left : ℕ) (isr : ℕ → ℕ) (vector j : ℕ) (t : IdtTable)
    → j < vector
    → create_gates left isr vector idt_interrupt_gate 0 t j ≡ t j
unfolding create_gates
create_gates-below zero isr vector j t h = refl
create_gates-below (suc left) isr vector j t h =
    let other : (vector == j) ≡ false = ground (arith, h) in
    rw (dpl_of_lem vector 0)
      (create_gates-below left isr (vector + 1) j _ (omega (arith, h)) ∙ rw other refl)

create_gates-gate :
    (left : ℕ) (isr : ℕ → ℕ) (vector j : ℕ) (t : IdtTable)
    → vector ≤ j
    → j < vector + left
    → create_gates left isr vector idt_interrupt_gate 0 t j
      ≡ create_gate (isr j) 0 idt_interrupt_gate 0 kernel_code_selector
unfolding create_gates
create_gates-gate zero isr vector j t lo hi =
    let bad : 1 ≤ 0 = omega (arith, lo, hi) in elim bad [ ]
create_gates-gate (suc left) isr vector j t lo hi = elim (Bool-cases (vector == j)) [
  | inl e ↦
      let here : vector ≡ j = (==_iff _ _).0 e in
      rw (dpl_of_lem vector 0)
        (create_gates-below left isr (vector + 1) j _ (omega (arith, here)) ∙ rw (e, here) refl)
  | inr e ↦
      let above : vector + 1 ≤ j = ground (arith, e, lo) in
      rw (dpl_of_lem vector 0)
        (create_gates-gate left isr (vector + 1) j _ above (omega (arith, hi)))
]

-- `initialize` gives every vector, that of the breakpoint included, a present interrupt gate of privilege
-- level 0 to its routine in the code segment of the kernel.
pub initialize_idt-gates :
    (isr : ℕ → ℕ) (at vector : ℕ) (t : IdtTable)
    → vector < 256
    → isr vector < 2 ^ 64
    → (offset_of_gate (gate_bits ((initialize_idt isr at t).0 vector)) ≡ isr vector)
      × (selector_of_gate (gate_bits ((initialize_idt isr at t).0 vector)) ≡ kernel_code_selector)
      × (type_of_gate (gate_bits ((initialize_idt isr at t).0 vector)) ≡ idt_interrupt_gate)
      × (dpl_of_gate (gate_bits ((initialize_idt isr at t).0 vector)) ≡ 0)
      × (present_of_gate (gate_bits ((initialize_idt isr at t).0 vector)) ≡ 1)
unfolding initialize_idt
initialize_idt-gates isr at vector t few fits =
    let gate = create_gates-gate 256 isr 0 vector t (omega arith) (omega (arith, few)) in
    let fields = gate-fields (isr vector) fits in
    rw gate (
      fields.0,
      omega (arith, fields.1),
      omega (arith, fields.1),
      omega (arith, fields.1),
      omega (arith, fields.1),
    )
