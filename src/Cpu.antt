-- ===== src/Cpu.antt =====
-- The descriptor tables of the processor, and the functions of kernel/cpu.cpp that print.
pub mod Gdt
pub mod Idt
pub mod Print
