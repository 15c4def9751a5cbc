-- ===== src/Descriptors/Tests.antt =====
-- Descriptors at concrete addresses, and what the theorems say of them.
use phoebe.Base.{ℕ, ◌+◌, ◌*◌, ◌%◌, ◌^◌, ◌≡◌, refl, false, some, arith}
use phoebe.Lock.{TicketLock, new_lock, is_locked}
use phoebe.Descriptors.Gdt.{
  GdtTable, GdtRegister, create_entry, segment_bits, create_tss_entry, initialize_gdt,
}
use phoebe.Descriptors.Gdt.Laws.{
  base_of_segment, limit_of_segment, access_of_segment, flags_of_segment, IsInitialized,
  create_entry-segment_bits, initialize_gdt-IsInitialized,
}
use phoebe.Descriptors.Idt.{
  IdtTable, create_gate, gate_bits, initialize_idt, idt_interrupt_gate, kernel_code_selector,
}
use phoebe.Descriptors.Idt.Laws.{
  offset_of_gate, selector_of_gate, type_of_gate, dpl_of_gate, present_of_gate,
  initialize_idt-gates,
}

abbrev blank_gdt : GdtTable
blank_gdt = record { table = λ i. create_entry 0 0 0 0; tss = create_tss_entry 0 }

abbrev blank_idt : IdtTable
blank_idt vector = create_gate 0 0 0 0 0

create_entry-segment_bits_example :
    (base_of_segment (segment_bits (create_entry 0x1234_5678 0xabcde 0xc 0x92)) ≡ 0x1234_5678)
    × (limit_of_segment (segment_bits (create_entry 0x1234_5678 0xabcde 0xc 0x92))
        ≡ 0xabcde % 2 ^ 20)
    × (access_of_segment (segment_bits (create_entry 0x1234_5678 0xabcde 0xc 0x92)) ≡ 0x92)
    × (flags_of_segment (segment_bits (create_entry 0x1234_5678 0xabcde 0xc 0x92)) ≡ 0xc % 2 ^ 4)
create_entry-segment_bits_example =
    create_entry-segment_bits 0x1234_5678 0xabcde 0xc 0x92 (omega arith) (omega arith) (omega arith)

initialize_gdt-IsInitialized_example :
    (after : TicketLock) × (filled : GdtTable) × (r : GdtRegister) × (initialize_gdt
        0xffff_8000_0010_2000 0x5000 new_lock blank_gdt
      ≡ some (some after, filled, r))
    × (is_locked after ≡ false)
    × IsInitialized 0xffff_8000_0010_2000 0x5000 filled r
unfolding is_locked
initialize_gdt-IsInitialized_example =
    initialize_gdt-IsInitialized 0xffff_8000_0010_2000 0x5000 new_lock blank_gdt (omega arith)
      (record { next = omega arith; serving = omega arith }) refl

-- The routines of the assembly code, 16 bytes each.
abbrev isr_table : ℕ → ℕ
isr_table vector = 0xffff_ffff_8000_0000 + 16 * vector

initialize_idt-gates_example :
    (offset_of_gate (gate_bits ((initialize_idt isr_table 0x6000 blank_idt).0 3)) ≡ isr_table 3)
    × (selector_of_gate (gate_bits ((initialize_idt isr_table 0x6000 blank_idt).0 3))
        ≡ kernel_code_selector)
    × (type_of_gate (gate_bits ((initialize_idt isr_table 0x6000 blank_idt).0 3))
        ≡ idt_interrupt_gate)
    × (dpl_of_gate (gate_bits ((initialize_idt isr_table 0x6000 blank_idt).0 3)) ≡ 0)
    × (present_of_gate (gate_bits ((initialize_idt isr_table 0x6000 blank_idt).0 3)) ≡ 1)
initialize_idt-gates_example =
    initialize_idt-gates isr_table 0x6000 3 blank_idt (omega arith) (omega arith)
