-- ===== src/Tests/Machine.antt =====
-- Registers of a processor in long mode without NX, and counters at zero.
use orin_os.Cpu.Regs.{CpuRegs}
use orin_os.Interrupts.Idt.{Counters}

abbrev pub registers : CpuRegs
registers = record {
  rip = 0xFFFFFFFF80101000;
  rsp = 0xFFFFFFFF8020F000;
  rflags = 0x202;
  cs = 8;
  ss = 16;
  rax = 0;
  rbx = 0;
  rcx = 0;
  rdx = 0;
  rsi = 0;
  rdi = 0;
  rbp = 0xFFFFFFFF8020F010;
  r8 = 0;
  r9 = 0;
  r10 = 0;
  r11 = 0;
  r12 = 0;
  r13 = 0;
  r14 = 0;
  r15 = 0;
  cr0 = 0x80010011;
  cr2 = 0;
  cr3 = 0x1000;
  cr4 = 0x20;
  efer = 0x500;
}

abbrev pub no_counts : Counters
no_counts = record {
  timer_ticks = 0;
  key_events = 0;
  spurious = 0;
  exceptions = 0;
  unassigned = 0;
  syscalls = 0;
}
