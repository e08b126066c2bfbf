-- ===== src/Interrupts/Idt/Names.antt =====
-- The names under which kernel/src/interrupts/idt.rs reports exceptions, as their bytes.
use orin_os.Prelude.{ℕ, List, [], ◌∷◌}

abbrev pub divide_error_name : List ℕ
divide_error_name =
    100 ∷ 105 ∷ 118 ∷ 105 ∷ 100 ∷ 101 ∷ 45 ∷ 101 ∷ 114 ∷ 114 ∷ 111 ∷ 114 ∷ 32 ∷ 40 ∷ 35 ∷ 68 ∷ 69
    ∷ 41 ∷ []  -- divide-error (#DE)

abbrev pub debug_name : List ℕ
debug_name = 100 ∷ 101 ∷ 98 ∷ 117 ∷ 103 ∷ 32 ∷ 40 ∷ 35 ∷ 68 ∷ 66 ∷ 41 ∷ []  -- debug (#DB)

abbrev pub overflow_trap_name : List ℕ
overflow_trap_name =
    111 ∷ 118 ∷ 101 ∷ 114 ∷ 102 ∷ 108 ∷ 111 ∷ 119 ∷ 32 ∷ 40 ∷ 35 ∷ 79 ∷ 70 ∷ 41 ∷ []  -- overflow (#OF)

abbrev pub bound_range_name : List ℕ
bound_range_name =
    98 ∷ 111 ∷ 117 ∷ 110 ∷ 100 ∷ 45 ∷ 114 ∷ 97 ∷ 110 ∷ 103 ∷ 101 ∷ 45 ∷ 101 ∷ 120 ∷ 99 ∷ 101 ∷ 101
    ∷ 100 ∷ 101 ∷ 100 ∷ 32 ∷ 40 ∷ 35 ∷ 66 ∷ 82 ∷ 41 ∷ []  -- bound-range-exceeded (#BR)

abbrev pub invalid_opcode_name : List ℕ
invalid_opcode_name =
    105 ∷ 110 ∷ 118 ∷ 97 ∷ 108 ∷ 105 ∷ 100 ∷ 45 ∷ 111 ∷ 112 ∷ 99 ∷ 111 ∷ 100 ∷ 101 ∷ 32 ∷ 40 ∷ 35
    ∷ 85 ∷ 68 ∷ 41 ∷ []  -- invalid-opcode (#UD)

abbrev pub device_not_available_name : List ℕ
device_not_available_name =
    100 ∷ 101 ∷ 118 ∷ 105 ∷ 99 ∷ 101 ∷ 45 ∷ 110 ∷ 111 ∷ 116 ∷ 45 ∷ 97 ∷ 118 ∷ 97 ∷ 105 ∷ 108 ∷ 97
    ∷ 98 ∷ 108 ∷ 101 ∷ 32 ∷ 40 ∷ 35 ∷ 78 ∷ 77 ∷ 41 ∷ []  -- device-not-available (#NM)

abbrev pub invalid_tss_name : List ℕ
invalid_tss_name =
    105 ∷ 110 ∷ 118 ∷ 97 ∷ 108 ∷ 105 ∷ 100 ∷ 45 ∷ 84 ∷ 83 ∷ 83 ∷ 32 ∷ 40 ∷ 35 ∷ 84 ∷ 83 ∷ 41 ∷ []  -- invalid-TSS (#TS)

abbrev pub segment_not_present_name : List ℕ
segment_not_present_name =
    115 ∷ 101 ∷ 103 ∷ 109 ∷ 101 ∷ 110 ∷ 116 ∷ 45 ∷ 110 ∷ 111 ∷ 116 ∷ 45 ∷ 112 ∷ 114 ∷ 101 ∷ 115
    ∷ 101 ∷ 110 ∷ 116 ∷ 32 ∷ 40 ∷ 35 ∷ 78 ∷ 80 ∷ 41 ∷ []  -- segment-not-present (#NP)

abbrev pub stack_segment_name : List ℕ
stack_segment_name =
    115 ∷ 116 ∷ 97 ∷ 99 ∷ 107 ∷ 45 ∷ 115 ∷ 101 ∷ 103 ∷ 109 ∷ 101 ∷ 110 ∷ 116 ∷ 45 ∷ 102 ∷ 97 ∷ 117
    ∷ 108 ∷ 116 ∷ 32 ∷ 40 ∷ 35 ∷ 83 ∷ 83 ∷ 41 ∷ []  -- stack-segment-fault (#SS)

abbrev pub general_protection_name : List ℕ
general_protection_name =
    103 ∷ 101 ∷ 110 ∷ 101 ∷ 114 ∷ 97 ∷ 108 ∷ 45 ∷ 112 ∷ 114 ∷ 111 ∷ 116 ∷ 101 ∷ 99 ∷ 116 ∷ 105 ∷ 111
    ∷ 110 ∷ 32 ∷ 40 ∷ 35 ∷ 71 ∷ 80 ∷ 41 ∷ []  -- general-protection (#GP)

abbrev pub page_fault_name : List ℕ
page_fault_name =
    112 ∷ 97 ∷ 103 ∷ 101 ∷ 45 ∷ 102 ∷ 97 ∷ 117 ∷ 108 ∷ 116 ∷ 32 ∷ 40 ∷ 35 ∷ 80 ∷ 70 ∷ 41 ∷ []  -- page-fault (#PF)

abbrev pub x87_fault_name : List ℕ
x87_fault_name =
    120 ∷ 56 ∷ 55 ∷ 45 ∷ 102 ∷ 108 ∷ 111 ∷ 97 ∷ 116 ∷ 105 ∷ 110 ∷ 103 ∷ 45 ∷ 112 ∷ 111 ∷ 105 ∷ 110
    ∷ 116 ∷ 32 ∷ 40 ∷ 35 ∷ 77 ∷ 70 ∷ 41 ∷ []  -- x87-floating-point (#MF)

abbrev pub alignment_check_name : List ℕ
alignment_check_name =
    97 ∷ 108 ∷ 105 ∷ 103 ∷ 110 ∷ 109 ∷ 101 ∷ 110 ∷ 116 ∷ 45 ∷ 99 ∷ 104 ∷ 101 ∷ 99 ∷ 107 ∷ 32 ∷ 40
    ∷ 35 ∷ 65 ∷ 67 ∷ 41 ∷ []  -- alignment-check (#AC)

abbrev pub simd_fault_name : List ℕ
simd_fault_name =
    115 ∷ 105 ∷ 109 ∷ 100 ∷ 45 ∷ 102 ∷ 108 ∷ 111 ∷ 97 ∷ 116 ∷ 105 ∷ 110 ∷ 103 ∷ 45 ∷ 112 ∷ 111 ∷ 105
    ∷ 110 ∷ 116 ∷ 32 ∷ 40 ∷ 35 ∷ 88 ∷ 70 ∷ 41 ∷ []  -- simd-floating-point (#XF)

abbrev pub virtualization_name : List ℕ
virtualization_name =
    118 ∷ 105 ∷ 114 ∷ 116 ∷ 117 ∷ 97 ∷ 108 ∷ 105 ∷ 122 ∷ 97 ∷ 116 ∷ 105 ∷ 111 ∷ 110 ∷ 32 ∷ 40 ∷ 35
    ∷ 86 ∷ 69 ∷ 41 ∷ []  -- virtualization (#VE)

abbrev pub vmm_comm_name : List ℕ
vmm_comm_name =
    118 ∷ 109 ∷ 109 ∷ 45 ∷ 99 ∷ 111 ∷ 109 ∷ 109 ∷ 117 ∷ 110 ∷ 105 ∷ 99 ∷ 97 ∷ 116 ∷ 105 ∷ 111 ∷ 110
    ∷ 32 ∷ 40 ∷ 35 ∷ 86 ∷ 67 ∷ 41 ∷ []  -- vmm-communication (#VC)

abbrev pub security_exception_name : List ℕ
security_exception_name =
    115 ∷ 101 ∷ 99 ∷ 117 ∷ 114 ∷ 105 ∷ 116 ∷ 121 ∷ 45 ∷ 101 ∷ 120 ∷ 99 ∷ 101 ∷ 112 ∷ 116 ∷ 105 ∷ 111
    ∷ 110 ∷ 32 ∷ 40 ∷ 35 ∷ 83 ∷ 88 ∷ 41 ∷ []  -- security-exception (#SX)

abbrev pub plain_page_fault_name : List ℕ
plain_page_fault_name = 112 ∷ 97 ∷ 103 ∷ 101 ∷ 45 ∷ 102 ∷ 97 ∷ 117 ∷ 108 ∷ 116 ∷ []  -- page-fault
