-- ===== src/Interrupts/Idt/Handlers.antt =====
-- The handlers of kernel/src/interrupts/idt.rs as functions of the machine. Records of the log are
-- left out, but for what `on_page_fault` logs of a fault's shape.
use orin_os.Prelude.{ℕ, List, [], ◌∷◌, ◌++◌, Option, none, some, Outcome, ok, ◌>>=◌, if◌then◌else◌}
use orin_os.Prelude.Ports.{Trace, Device}
use orin_os.Cpu.{CpuFeatures}
use orin_os.Cpu.Regs.{Frame, CpuRegs}
use orin_os.Interrupts.Pic.{vector_for_irq}
use orin_os.Interrupts.Pic.Ports.{Pics, mask_line, end_of_interrupt}
use orin_os.Interrupts.Pit.{tick}
use orin_os.Keyboard.Controller.{interrupt_handler}
use orin_os.Interrupts.Idt.{
  Machine, Counter, timer_tick, key_event, spurious_one, exception, unassigned_one, syscall, bump,
  Handler, on_divide_error, on_debug, on_nmi, on_breakpoint, on_overflow, on_bound_range,
  on_invalid_opcode, on_device_not_available, on_double_fault, on_invalid_tss,
  on_segment_not_present, on_stack_segment, on_general_protection, on_page_fault, on_x87_fault,
  on_alignment_check, on_machine_check, on_simd_fault, on_virtualization, on_vmm_comm,
  on_security_exception, on_irq_timer, on_irq_keyboard, on_irq_cascade, on_irq_unexpected,
  on_syscall_vector, on_spurious, on_unassigned_general, other_lines,
}
use orin_os.Interrupts.Idt.Names.{
  divide_error_name, debug_name, overflow_trap_name, bound_range_name, invalid_opcode_name,
  device_not_available_name, invalid_tss_name, segment_not_present_name, stack_segment_name,
  general_protection_name, page_fault_name, x87_fault_name, alignment_check_name, simd_fault_name,
  virtualization_name, vmm_comm_name, security_exception_name,
}
use orin_os.Interrupts.Idt.Report.{
  Line, logged_fault, format_pf_bits, shape_lines, fatal_lines, shape_of,
  is_probable_stack_overflow,
}

-- How a handler ends: it returns, or it panics behind its report.
pub data Exit : Type 0 where
  resumes : Machine → Exit
  dies : Machine → List Line → Exit

-- What an interrupt finds: the features and registers of the processor, CR2, the devices, the tops of
-- the two stacks, the frame, and the error code (0 where the vector pushes none).
pub record Event : Type 0 where
  pub feats : CpuFeatures
  pub now : CpuRegs
  pub cr2 : ℕ
  pub device : Device
  pub boot_top : ℕ
  pub kern_top : ℕ
  pub frame : Frame
  pub code : ℕ

unfoldable pub count : Counter → Machine → Outcome Machine
count which m = bump which m.tally >>= λ c. ok (record m { tally = c })

unfoldable pub fatal_exception : Event → List ℕ → ℕ → Option ℕ → Option ℕ → Machine → Outcome Exit
fatal_exception e name vector code cr2 m = count exception m >>= λ m1.
    ok (dies m1 (fatal_lines e.feats e.now name vector e.frame code cr2))

-- The faults that do nothing but report, without an error code and with one.
unfoldable pub fatal : Event → List ℕ → ℕ → Machine → Outcome Exit
fatal e name vector = fatal_exception e name vector none none

unfoldable pub fatal_code : Event → List ℕ → ℕ → Machine → Outcome Exit
fatal_code e name vector = fatal_exception e name vector (some e.code) none

-- A handler that counts and panics.
unfoldable pub stop : Machine → Outcome Exit
stop m = count exception m >>= λ m1. ok (dies m1 [])

unfoldable pub double_fault : Event → Machine → Outcome Exit
double_fault e m = do
  m1 ← count exception m
  _ ← is_probable_stack_overflow e.boot_top e.kern_top e.frame.stack_pointer
  ok (dies m1 [])

-- Lines of the log in front of a report.
unfoldable pub behind : List Line → Exit → Exit
behind before (resumes m) = resumes m
behind before (dies m lines) = dies m (before ++ lines)

unfoldable pub page_fault : Event → Machine → Outcome Exit
page_fault e m = do
  x ← fatal_exception e page_fault_name 0x0E (some e.code) (some e.cr2) m
  ok (behind (logged_fault e.cr2 (format_pf_bits e.code) ∷ shape_lines (shape_of e.cr2 e.code)) x)

-- `pic::end_of_interrupt(pic::vector_for_irq(irq))`
unfoldable pub acknowledge_line : ℕ → Machine → Outcome Exit
acknowledge_line irq m =
    vector_for_irq irq >>= λ v. ok (resumes (record m { ports = end_of_interrupt v m.ports }))

unfoldable pub irq_timer : Machine → Outcome Exit
irq_timer m = do m1 ← count timer_tick m; acknowledge_line 0 (record m1 { clock = tick m1.clock })

unfoldable pub irq_keyboard : Device → Machine → Outcome Exit
irq_keyboard device m = do
  m1 ← count key_event m
  (ports, ring) ← interrupt_handler device m1.ports m1.ring
  acknowledge_line 1 (record m1 { ports = ports; ring = ring })

-- The loop of `on_irq_unexpected`.
unfoldable pub mask_lines : List ℕ → Trace → Pics → Outcome (Trace × Pics)
mask_lines [] t p = ok (t, p)
mask_lines (irq ∷ rest) t p = mask_line irq t p >>= λ r. mask_lines rest r.0 r.1

unfoldable pub irq_unexpected : Machine → Outcome Exit
irq_unexpected m = do
  m1 ← count unassigned_one m
  (ports, pics) ← mask_lines other_lines m1.ports m1.pics
  acknowledge_line 8 (record m1 { ports = ports; pics = pics })

-- A run of the handler.
unfoldable pub handle : Handler → Event → Machine → Outcome Exit
handle on_divide_error e m = fatal e divide_error_name 0x00 m
handle on_debug e m =
    if m.debugger then (count exception m >>= λ m1. ok (resumes m1)) else fatal e debug_name 0x01 m
handle on_nmi e m = stop m
handle on_breakpoint e m = count exception m >>= λ m1. ok (resumes m1)
handle on_overflow e m = fatal e overflow_trap_name 0x04 m
handle on_bound_range e m = fatal e bound_range_name 0x05 m
handle on_invalid_opcode e m = fatal e invalid_opcode_name 0x06 m
handle on_device_not_available e m = fatal e device_not_available_name 0x07 m
handle on_double_fault e m = double_fault e m
handle on_invalid_tss e m = fatal_code e invalid_tss_name 0x0A m
handle on_segment_not_present e m = fatal_code e segment_not_present_name 0x0B m
handle on_stack_segment e m = fatal_code e stack_segment_name 0x0C m
handle on_general_protection e m = fatal_code e general_protection_name 0x0D m
handle on_page_fault e m = page_fault e m
handle on_x87_fault e m = fatal e x87_fault_name 0x10 m
handle on_alignment_check e m = fatal_code e alignment_check_name 0x11 m
handle on_machine_check e m = stop m
handle on_simd_fault e m = fatal e simd_fault_name 0x13 m
handle on_virtualization e m = fatal e virtualization_name 0x14 m
handle on_vmm_comm e m = fatal_code e vmm_comm_name 0x1D m
handle on_security_exception e m = fatal_code e security_exception_name 0x1E m
handle on_irq_timer e m = irq_timer m
handle on_irq_keyboard e m = irq_keyboard e.device m
handle on_irq_cascade e m = acknowledge_line 2 m
handle on_irq_unexpected e m = irq_unexpected m
handle on_syscall_vector e m = count syscall m >>= λ m1. ok (resumes m1)
handle on_spurious e m = count spurious_one m >>= λ m1. ok (resumes m1)
handle on_unassigned_general e m = count unassigned_one m >>= λ m1. ok (dies m1 [])
