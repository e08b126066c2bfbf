-- ===== src/Interrupts/Idt/Table.antt =====
-- The table that `init` installs against the vector map.
use orin_os.Prelude.{
  ℕ, ◌-◌, ◌<◌, ◌≡◌, refl, ap, List, [], ◌∷◌, Option, none, some, ok, get_or, ltb, ◌==◌,
  if◌then◌else◌, values, values_same, panic,
}
use orin_os.Interrupts.Pic.{vector_for_irq}
use orin_os.Interrupts.Idt.{
  Handler, on_divide_error, on_debug, on_nmi, on_breakpoint, on_overflow, on_bound_range,
  on_invalid_opcode, on_device_not_available, on_double_fault, on_invalid_tss,
  on_segment_not_present, on_stack_segment, on_general_protection, on_page_fault, on_x87_fault,
  on_alignment_check, on_machine_check, on_simd_fault, on_virtualization, on_vmm_comm,
  on_security_exception, on_irq_timer, on_irq_keyboard, on_irq_cascade, on_irq_unexpected,
  on_syscall_vector, on_spurious, on_unassigned_general, Gate, Table, Filler, blanket, set_gate,
  set_gates, set_irq, set_irqs, install_purposeful_handlers, init,
}

-- The handlers of the exceptions; the vectors that have none are left as they are.
exceptions : List (Option Handler)
exceptions =
    some on_divide_error
    ∷ some on_debug
    ∷ some on_nmi
    ∷ some on_breakpoint
    ∷ some on_overflow
    ∷ some on_bound_range
    ∷ some on_invalid_opcode
    ∷ some on_device_not_available
    ∷ some on_double_fault
    ∷ none
    ∷ some on_invalid_tss
    ∷ some on_segment_not_present
    ∷ some on_stack_segment
    ∷ some on_general_protection
    ∷ some on_page_fault
    ∷ none
    ∷ some on_x87_fault
    ∷ some on_alignment_check
    ∷ some on_machine_check
    ∷ some on_simd_fault
    ∷ some on_virtualization
    ∷ none
    ∷ none
    ∷ none
    ∷ none
    ∷ none
    ∷ none
    ∷ none
    ∷ none
    ∷ some on_vmm_comm
    ∷ some on_security_exception
    ∷ none
    ∷ []

unfoldable pub line_handler : ℕ → Handler
line_handler irq =
    if irq == 0
    then on_irq_timer
    else if irq == 1
    then on_irq_keyboard
    else if irq == 2
    then on_irq_cascade
    else on_irq_unexpected

unfoldable pub vector_map : ℕ → Option Handler
unfolding exceptions
vector_map v =
    if ltb v 32
    then get_or exceptions v none
    else if ltb v 48
    then some (line_handler (v - 32))
    else if v == 0x40
    then some on_syscall_vector
    else if v == 0xFF
    then some on_spurious
    else none

-- Double faults, non-maskable interrupts, machine checks and page faults have stacks of their own.
unfoldable pub stack_map : ℕ → Option ℕ
stack_map v =
    if v == 8
    then some 1
    else if v == 2
    then some 2
    else if v == 18
    then some 3
    else if v == 14
    then some 5
    else none

abbrev gate_or : Option Handler → Option ℕ → Option Gate → Option Gate
gate_or (some h) stack left = some (record { handler = h; stack_index = stack })
gate_or none stack left = left

-- A vector that the map does not name keeps what `set_general_handler!` gave it.
unfoldable pub described : Filler → ℕ → Option Gate
described general v = gate_or (vector_map v) (stack_map v) (general on_unassigned_general v)

pub described-named :
    (general : Filler) (v : ℕ) (h : Handler)
    → vector_map v ≡ some h
    → described general v ≡ some (record { handler = h; stack_index = stack_map v })
unfolding described
described-named general v h e =
    ap (λ (o : Option Handler). gate_or o (stack_map v) (general on_unassigned_general v)) e

installed : Filler → Table
unfolding blanket set_gate set_gates set_irq set_irqs install_purposeful_handlers vector_for_irq
    init
installed general = elim (init general) [ ok t ↦ t | panic e ↦ blanket general ]

runs : (general : Filler) → init general ≡ ok (installed general)
unfolding blanket set_gate set_gates set_irq set_irqs install_purposeful_handlers vector_for_irq
    init installed
runs general = refl

pub init-described :
    (general : Filler)
    → (table : Table) × (init general ≡ ok table)
      × ((v : ℕ) → v < 256 → table v ≡ described general v)
init-described general =
    (installed general, runs general, values_same 256 (installed general) (described general) same)
  where
    same : values 256 (installed general) ≡ values 256 (described general)
    same = unfold values installed described vector_map stack_map line_handler blanket in refl
