-- ===== src/Interrupts/Idt/Report.antt =====
-- What kernel/src/interrupts/idt.rs says before it stops: the report of `fatal_exception`, the words
-- for the bits of a page fault, and the guess at a stack overflow. A line of text is the data that it
-- shows.
use orin_os.Prelude.{
  ℕ, ◌+◌, ◌-◌, Bool, true, false, not, ◌&&◌, ◌||◌, List, [], ◌∷◌, ◌++◌, Option, none, some, Outcome,
  ok, ◌>>=◌, checked, bit_and, ltb, leb, ◌==◌, if◌then◌else◌,
}
use orin_os.Vmm.Init.{kernel_vma}
use orin_os.Log.{same_text}
use orin_os.Cpu.{CpuFeatures}
use orin_os.Cpu.Regs.{
  Frame, CpuRegs, ControlText, Problem, read_around, is_set, format_control,
  control_register_problems,
}
use orin_os.Interrupts.Idt.Names.{plain_page_fault_name}

-- The words of `format_pf_bits`, and the spaces between them.
pub data Word : Type 0 where
  space : Word
  present not_present write read user reserved_bits : Word
  instruction_fetch protection_key shadow_stack sgx nx_user_filter : Word

abbrev pub is_empty : List Word → Bool
is_empty [] = true
is_empty (w ∷ ws) = false

-- `bit!`
unfoldable pub add_bit : ℕ → ℕ → Word → List Word → List Word
add_bit code n label s =
    if is_set code n then (if is_empty s then s else s ++ space ∷ []) ++ label ∷ [] else s

unfoldable pub format_pf_bits : ℕ → List Word
format_pf_bits code =
    let s0 = add_bit code 0 present [] in
    let s1 = if bit_and code 1 == 0 then s0 ++ space ∷ not_present ∷ [] else s0 in
    let s2 = add_bit code 1 write s1 in
    let s3 = if bit_and code 2 == 0 then s2 ++ space ∷ read ∷ [] else s2 in
    let s4 =
      add_bit code 4 instruction_fetch (add_bit code 3 reserved_bits (add_bit code 2 user s3)) in
    let s5 = add_bit code 7 sgx (add_bit code 6 shadow_stack (add_bit code 5 protection_key s4)) in
    add_bit code 15 nx_user_filter s5

-- What `on_page_fault` logs of the fault's shape.
pub data Shape : Type 0 where
  null_dereference below_kernel page_not_present protected write_by_fetch : Shape

unfoldable pub shape_of : ℕ → ℕ → List Shape
shape_of addr raw =
    if addr == 0
    then null_dereference ∷ []
    else if ltb addr kernel_vma
    then below_kernel ∷ []
    else if bit_and raw 0x1 == 0
    then page_not_present ∷ []
    else protected
      ∷ (if not (bit_and raw 0x2 == 0) && not (bit_and raw 0x10 == 0)
          then write_by_fetch ∷ []
          else [])

pub data Line : Type 0 where
  logged_fault : ℕ → List Word → Line  -- of the log, as the next
  shape : Shape → Line
  fatal_begin fatal_end : Line
  exception_line : List ℕ → ℕ → Line
  error_code : ℕ → Line
  pf_bits : List Word → Line
  selector_index : Line
  faulting_address : ℕ → Line
  below_kernel_half : Line
  place : ℕ → ℕ → ℕ → ℕ → ℕ → Line
  privilege : Bool → Bool → Line  -- ring 0, interrupts enabled
  general : CpuRegs → Line
  control : ControlText → Line
  security : Problem → Line
  resolve : ℕ → Line

-- `if let Some(c) = code`
unfoldable pub code_lines : List ℕ → Option ℕ → List Line
code_lines name none = []
code_lines name (some c) =
    error_code c
    ∷ (if same_text name plain_page_fault_name
        then pf_bits (format_pf_bits c) ∷ []
        else selector_index ∷ [])

-- `if let Some(a) = cr2`
unfoldable pub address_lines : Option ℕ → List Line
address_lines none = []
address_lines (some a) =
    faulting_address a ∷ (if ltb a kernel_vma then below_kernel_half ∷ [] else [])

-- The loop over the problems, less the empty ones.
unfoldable pub security_lines : List (Option Problem) → List Line
security_lines [] = []
security_lines (none ∷ rest) = security_lines rest
security_lines (some p ∷ rest) = security p ∷ security_lines rest

unfoldable pub register_lines : CpuRegs → List Line
register_lines regs =
    place regs.rip regs.rsp regs.rflags regs.cs regs.ss
    ∷ privilege (bit_and regs.cs 3 == 0) (is_set regs.rflags 9)
    ∷ general regs
    ∷ control (format_control regs)
    ∷ []

unfoldable pub resolve_lines : ℕ → List Line
resolve_lines rip = if leb kernel_vma rip then resolve rip ∷ [] else []

-- The lines of `fatal_exception`, which panics behind them.
unfoldable pub fatal_lines :
    CpuFeatures → CpuRegs → List ℕ → ℕ → Frame → Option ℕ → Option ℕ → List Line
fatal_lines feats now name vector frame code cr2 =
    let regs = read_around frame now in
    (fatal_begin ∷ exception_line name vector ∷ [])
    ++ code_lines name code
    ++ address_lines cr2
    ++ register_lines regs
    ++ security_lines (control_register_problems feats regs)
    ++ resolve_lines regs.rip
    ++ fatal_end ∷ []

-- `near`, for a stack with this top. The sum is in u64.
unfoldable pub near_top : ℕ → ℕ → Outcome Bool
near_top rsp top = do above ← checked (rsp + 0x1000); ok (leb (top - 0x100) above && ltb rsp top)

unfoldable pub is_probable_stack_overflow : ℕ → ℕ → ℕ → Outcome Bool
is_probable_stack_overflow boot_top kern_top rsp = do
  boot ← near_top rsp boot_top
  kern ← near_top rsp kern_top
  ok (boot || kern || ltb rsp 0x1000)

unfoldable pub shape_lines : List Shape → List Line
shape_lines [] = []
shape_lines (s ∷ rest) = shape s ∷ shape_lines rest
