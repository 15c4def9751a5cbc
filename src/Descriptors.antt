-- ===== src/Descriptors.antt =====
-- The descriptor tables of `kernel/arch/amd64/cpu`.
pub mod Gdt
pub mod Masks
pub mod Idt
pub mod Tests
