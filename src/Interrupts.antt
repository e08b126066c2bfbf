-- ===== src/Interrupts.antt =====
-- The interrupt controller (kernel/src/interrupts/pic.rs) and the timer
-- (kernel/src/interrupts/pit.rs) without their ports.
pub mod Pic
pub mod Pit
pub mod Delay
pub mod Idt
