-- ===== src/Interrupts/Idt.antt =====
-- kernel/src/interrupts/idt.rs: the counters, the table of handlers and the state that the handlers
-- work on. The table's fields stand at the vectors that the architecture gives their exceptions.
pub mod Names
pub mod Report
pub mod Handlers
pub mod Table
pub mod Masking
pub mod Lines
pub mod PageFault
use orin_os.Prelude.{
  ℕ, ◌+◌, ◌<◌, ◌^◌, Bool, true, false, ◌||◌, ◌&&◌, List, [], ◌∷◌, Option, none, some, Outcome, ok,
  ◌>>=◌, checked, ltb, leb, ◌==◌, if◌then◌else◌,
}
use orin_os.Prelude.Ports.{Trace}
use orin_os.Interrupts.Pic.{vector_for_irq}
use orin_os.Interrupts.Pic.Ports.{Pics}
use orin_os.Interrupts.Pit.{Clock}
use orin_os.Keyboard.Ring.{Ring}

abbrev pub syscall_vector : ℕ
syscall_vector = 0x40

abbrev pub spurious_vector : ℕ
spurious_vector = 0xFF

pub record Counters : Type 0 where
  pub timer_ticks : ℕ
  pub key_events : ℕ
  pub spurious : ℕ
  pub exceptions : ℕ
  pub unassigned : ℕ
  pub syscalls : ℕ

unfoldable pub counters : Counters → ℕ × ℕ × ℕ × ℕ × ℕ × ℕ
counters c = (c.timer_ticks, c.key_events, c.spurious, c.exceptions, c.unassigned, c.syscalls)

pub data Counter : Type 0 where
  timer_tick key_event spurious_one exception unassigned_one syscall : Counter

-- The sum is in u64, with its overflow check.
unfoldable pub bump : Counter → Counters → Outcome Counters
bump timer_tick c = checked (c.timer_ticks + 1) >>= λ n. ok (record c { timer_ticks = n })
bump key_event c = checked (c.key_events + 1) >>= λ n. ok (record c { key_events = n })
bump spurious_one c = checked (c.spurious + 1) >>= λ n. ok (record c { spurious = n })
bump exception c = checked (c.exceptions + 1) >>= λ n. ok (record c { exceptions = n })
bump unassigned_one c = checked (c.unassigned + 1) >>= λ n. ok (record c { unassigned = n })
bump syscall c = checked (c.syscalls + 1) >>= λ n. ok (record c { syscalls = n })

-- What the handlers read and change: the counters, the clock, the scancode ring, the interrupt
-- controllers, the ports, and the flag that a debugger is attached.
pub record Machine : Type 0 where
  pub tally : Counters
  pub clock : Clock
  pub ring : Ring
  pub pics : Pics
  pub ports : Trace
  pub debugger : Bool

-- The handler functions.
pub data Handler : Type 0 where
  on_divide_error on_debug on_nmi on_breakpoint on_overflow on_bound_range : Handler
  on_invalid_opcode on_device_not_available on_double_fault on_invalid_tss : Handler
  on_segment_not_present on_stack_segment on_general_protection on_page_fault : Handler
  on_x87_fault on_alignment_check on_machine_check on_simd_fault on_virtualization : Handler
  on_vmm_comm on_security_exception : Handler
  on_irq_timer on_irq_keyboard on_irq_cascade on_irq_unexpected : Handler
  on_syscall_vector on_spurious on_unassigned_general : Handler

-- An entry: the handler, and the stack of the TSS that it runs on.
pub record Gate : Type 0 where
  pub handler : Handler
  pub stack_index : Option ℕ

abbrev pub Table : Type 0
Table = ℕ → Option Gate

abbrev pub plain : Handler → Gate
plain h = record { handler = h; stack_index = none }

-- The slots of `gdt::ist`.
abbrev pub ist_double_fault : ℕ
ist_double_fault = 1

abbrev pub ist_nmi : ℕ
ist_nmi = 2

abbrev pub ist_machine_check : ℕ
ist_machine_check = 3

abbrev pub ist_debug : ℕ
ist_debug = 4

abbrev pub ist_page_fault : ℕ
ist_page_fault = 5

abbrev pub on_stack : ℕ → Handler → Gate
on_stack slot h = record { handler = h; stack_index = some slot }

-- `set_general_handler!` of the x86_64 crate, by the table that it makes for a handler: an entry may
-- stay missing.
abbrev pub Filler : Type 0
Filler = Handler → Table

unfoldable pub blanket : Filler → Table
blanket set_general_handler = set_general_handler on_unassigned_general

unfoldable pub set_gate : Table → ℕ → Gate → Table
set_gate table at gate v = if v == at then some gate else table v

unfoldable pub set_gates : Table → List (ℕ × Gate) → Table
set_gates table [] = table
set_gates table ((at, gate) ∷ rest) = set_gates (set_gate table at gate) rest

-- The entries of the exceptions, with the architecture's vectors.
abbrev pub exception_gates : List (ℕ × Gate)
exception_gates =
    (0, plain on_divide_error)
    ∷ (1, plain on_debug)
    ∷ (2, on_stack ist_nmi on_nmi)
    ∷ (3, plain on_breakpoint)
    ∷ (4, plain on_overflow)
    ∷ (5, plain on_bound_range)
    ∷ (6, plain on_invalid_opcode)
    ∷ (7, plain on_device_not_available)
    ∷ (8, on_stack ist_double_fault on_double_fault)
    ∷ (10, plain on_invalid_tss)
    ∷ (11, plain on_segment_not_present)
    ∷ (12, plain on_stack_segment)
    ∷ (13, plain on_general_protection)
    ∷ (14, on_stack ist_page_fault on_page_fault)
    ∷ (16, plain on_x87_fault)
    ∷ (17, plain on_alignment_check)
    ∷ (18, on_stack ist_machine_check on_machine_check)
    ∷ (19, plain on_simd_fault)
    ∷ (20, plain on_virtualization)
    ∷ (29, plain on_vmm_comm)
    ∷ (30, plain on_security_exception)
    ∷ []

unfoldable pub set_irq : ℕ → Handler → Table → Outcome Table
set_irq irq h table = vector_for_irq irq >>= λ v. ok (set_gate table v (plain h))

-- The loop over the lines without a driver.
unfoldable pub set_irqs : List ℕ → Handler → Table → Outcome Table
set_irqs [] h table = ok table
set_irqs (irq ∷ rest) h table = set_irq irq h table >>= λ t. set_irqs rest h t

abbrev pub other_lines : List ℕ
other_lines = 3 ∷ 4 ∷ 5 ∷ 6 ∷ 7 ∷ 8 ∷ 9 ∷ 10 ∷ 11 ∷ 12 ∷ 13 ∷ 14 ∷ 15 ∷ []

unfoldable pub install_purposeful_handlers : Table → Outcome Table
install_purposeful_handlers table = do
  t1 ← set_irq 0 on_irq_timer (set_gates table exception_gates)
  t2 ← set_irq 1 on_irq_keyboard t1
  t3 ← set_irq 2 on_irq_cascade t2
  t4 ← set_irqs other_lines on_irq_unexpected t3
  ok (
      set_gate (set_gate t4 syscall_vector (plain on_syscall_vector)) spurious_vector
        (plain on_spurious))

unfoldable pub init : Filler → Outcome Table
init set_general_handler = install_purposeful_handlers (blanket set_general_handler)

unfoldable pub is_assigned : ℕ → Bool
is_assigned v =
    ltb v 32 || (leb 0x20 v && ltb v 0x30) || (v == syscall_vector) || (v == spurious_vector)
