-- ===== src/Tests.antt =====
-- Runs of the model on concrete inputs, and each property at an input that meets its hypotheses.
mod Pmm
mod Keyboard
mod Controller
mod Vmm
mod Mapping
mod Multiboot
mod Cpu
mod Log
mod Interrupts
mod Console
mod Machine
mod Panic
mod Syscall
