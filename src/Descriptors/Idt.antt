-- ===== src/Descriptors/Idt.antt =====
-- The interrupt descriptor table of `kernel/arch/amd64/cpu/idt.cpp` and
-- `kernel/include/arch/amd64/cpu/idt.hpp`. The table `isr_table` of the assembly code is an
-- argument.
pub mod Laws
use phoebe.Base.{
  ℕ, zero, suc, ◌+◌, ◌-◌, ◌*◌, ◌/◌, ◌%◌, ◌^◌, ◌==◌, not, Bool, if◌then◌else◌, bit_and, bit_or, ltb,
  u8, u16, u32, u64, List, [], ◌∷◌, ◌++◌,
}

module _ where
  abbrev pub exception_breakpoint : ℕ
  exception_breakpoint = 3

  abbrev pub idt_interrupt_gate : ℕ
  idt_interrupt_gate = 0xe

  abbrev pub idt_dpl0 : ℕ
  idt_dpl0 = 0

  abbrev pub idt_dpl3 : ℕ
  idt_dpl3 = 3

  abbrev pub max_idt_entries : ℕ
  max_idt_entries = 256

  abbrev pub kernel_code_selector : ℕ
  kernel_code_selector = 8

pub record IdtSegment : Type 0 where
  pub base_low : ℕ
  pub selector : ℕ
  pub ist : ℕ
  pub type_attributes : ℕ
  pub base_mid : ℕ
  pub base_high : ℕ
  pub reserved : ℕ

unfoldable pub idt_attribute : ℕ → ℕ → ℕ
idt_attribute type dpl =
    let ret = 2 ^ 7 in let with_dpl = u8 (bit_or ret (dpl * 2 ^ 5)) in u8 (bit_or with_dpl type)

-- `IdtSegment::create_entry`
unfoldable pub create_gate : ℕ → ℕ → ℕ → ℕ → ℕ → IdtSegment
create_gate base ist type dpl selector = record {
  base_low = u16 (bit_and base 0xffff);
  selector = selector;
  ist = ist;
  type_attributes = idt_attribute type dpl;
  base_mid = u16 (bit_and (base / 2 ^ 16) 0xffff);
  base_high = u32 (bit_and (base / 2 ^ 32) 0xffffffff);
  reserved = 0;
}

-- The sixteen bytes of a packed segment as a number, the first byte lowest.
unfoldable pub gate_bits : IdtSegment → ℕ
gate_bits s =
    s.base_low
    + 2 ^ 16
      * (s.selector
          + 2 ^ 16
            * (s.ist
                + 2 ^ 8
                  * (s.type_attributes
                      + 2 ^ 8 * (s.base_mid + 2 ^ 16 * (s.base_high + 2 ^ 32 * s.reserved)))))

-- The segments by their vector.
abbrev pub IdtTable : Type 0
IdtTable = ℕ → IdtSegment

-- The case `default` of the switch.
abbrev pub default_dpl : ℕ → ℕ
default_dpl dpl = idt_dpl0

-- The switch: the case of the breakpoint falls through.
unfoldable pub dpl_of : ℕ → ℕ → ℕ
dpl_of vector dpl = if vector == exception_breakpoint then default_dpl idt_dpl3 else default_dpl dpl

-- The loop of `initialize` from `vector` on, with the rounds left.
unfoldable pub create_gates : ℕ → (ℕ → ℕ) → ℕ → ℕ → ℕ → IdtTable → IdtTable
create_gates zero isr_table vector type dpl t = t
create_gates (suc left) isr_table vector type dpl t =
    let dpl' = dpl_of vector dpl in
    let gate = create_gate (isr_table vector) 0 type dpl' kernel_code_selector in
    create_gates left isr_table (vector + 1) type dpl' (λ j. if vector == j then gate else t j)

-- `IdtRegister`: what `load_idt` is given.
pub record IdtRegister : Type 0 where
  pub limit : ℕ
  pub base : ℕ

-- The table and the register; `at` is the address of the table.
unfoldable pub initialize_idt : (ℕ → ℕ) → ℕ → IdtTable → IdtTable × IdtRegister
initialize_idt isr_table at t = (
  create_gates max_idt_entries isr_table 0 idt_interrupt_gate idt_dpl0 t,
  record { limit = max_idt_entries * 16 - 1; base = at },
)
