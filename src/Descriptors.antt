-- ===== src/Descriptors.antt =====
-- The tables of the processor: src/kernel/gdt.c in `Gdt`, src/kernel/idt.c in `Idt`. `Bytes` has the
-- writes of little-endian numbers that both files have.
pub mod Bytes
pub mod Gdt
pub mod Idt
pub mod Decode
pub mod Tests
