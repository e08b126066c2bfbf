-- ===== src/Cpu/Regs.antt =====
-- The registers of kernel/src/cpu/regs.rs: what an exception or a panic reports of them, and the
-- problems of the control registers. The registers that assembly reads are an argument; a line of
-- text is the data that it shows.
pub mod Problems
use orin_os.Prelude.{
  ℕ, ◌+◌, ◌^◌, Bool, true, false, not, ◌&&◌, List, [], ◌∷◌, ◌++◌, Option, none, some, bit_and, ◌==◌,
  ltb, set, replicate, if◌then◌else◌,
}
use orin_os.Cpu.{CpuFeatures}

-- `InterruptStackFrame`, the part of it that is read.
pub record Frame : Type 0 where
  pub instruction_pointer : ℕ
  pub stack_pointer : ℕ
  pub cpu_flags : ℕ
  pub code_segment : ℕ
  pub stack_segment : ℕ

pub record CpuRegs : Type 0 where
  pub rip : ℕ
  pub rsp : ℕ
  pub rflags : ℕ
  pub cs : ℕ
  pub ss : ℕ
  pub rax : ℕ
  pub rbx : ℕ
  pub rcx : ℕ
  pub rdx : ℕ
  pub rsi : ℕ
  pub rdi : ℕ
  pub rbp : ℕ
  pub r8 : ℕ
  pub r9 : ℕ
  pub r10 : ℕ
  pub r11 : ℕ
  pub r12 : ℕ
  pub r13 : ℕ
  pub r14 : ℕ
  pub r15 : ℕ
  pub cr0 : ℕ
  pub cr2 : ℕ
  pub cr3 : ℕ
  pub cr4 : ℕ
  pub efer : ℕ

-- `read_around`, where `now` holds what the assembly reads inside the handler.
unfoldable pub read_around : Frame → CpuRegs → CpuRegs
read_around frame now = record now {
  rip = frame.instruction_pointer;
  rsp = frame.stack_pointer;
  rflags = frame.cpu_flags;
  cs = frame.code_segment;
  ss = frame.stack_segment;
}

-- The flags that `format_control` names.
pub data Flag : Type 0 where
  pe wp nw cd pg : Flag
  pae pge umip fsgsbase pcide smep smap : Flag
  sce lme lma nxe svme : Flag

-- `value & (1 << n) != 0`
abbrev pub is_set : ℕ → ℕ → Bool
is_set value n = not (bit_and value (2 ^ n) == 0)

unfoldable pub push_if : Bool → Flag → List Flag → List Flag
push_if b f s = if b then s ++ f ∷ [] else s

pub record ControlText : Type 0 where
  pub cr0_flags : List Flag
  pub cr4_flags : List Flag
  pub efer_flags : List Flag

unfoldable pub format_control : CpuRegs → ControlText
format_control r = record {
  cr0_flags = push_if (is_set r.cr0 31) pg (
      push_if (is_set r.cr0 30) cd (
        push_if (is_set r.cr0 29) nw
          (push_if (is_set r.cr0 16) wp (push_if (is_set r.cr0 0) pe []))));
  cr4_flags = push_if (is_set r.cr4 21) smap (
      push_if (is_set r.cr4 20) smep (
        push_if (is_set r.cr4 17) pcide (
          push_if (is_set r.cr4 16) fsgsbase (
            push_if (is_set r.cr4 11) umip
              (push_if (is_set r.cr4 7) pge (push_if (is_set r.cr4 5) pae []))))));
  efer_flags = push_if (is_set r.efer 12) svme (
      push_if (is_set r.efer 11) nxe (
        push_if (is_set r.efer 10) lma
          (push_if (is_set r.efer 8) lme (push_if (is_set r.efer 0) sce []))));
}

-- The messages of `control_register_problems`.
pub data Problem : Type 0 where
  wp_clear pg_clear nxe_clear lma_clear smep_clear smap_clear : Problem

-- `out` and `n`; an empty string is none.
pub record Report : Type 0 where
  pub out : List (Option Problem)
  pub n : ℕ

unfoldable pub add_problem : Bool → Problem → Report → Report
add_problem cond msg r =
    if cond
    then (if ltb r.n 6 then record { out = set r.out r.n (some msg); n = r.n + 1 } else r)
    else r

unfoldable pub control_register_problems : CpuFeatures → CpuRegs → List (Option Problem)
control_register_problems feats r =
    let start : Report = record { out = replicate 6 none; n = 0 } in
    let hard = add_problem (not (is_set r.efer 10)) lma_clear (
      add_problem (not (is_set r.efer 11)) nxe_clear (
        add_problem (not (is_set r.cr0 31)) pg_clear
          (add_problem (not (is_set r.cr0 16)) wp_clear start))) in
    (add_problem (feats.smap && not (is_set r.cr4 21)) smap_clear
      (add_problem (feats.smep && not (is_set r.cr4 20)) smep_clear hard)).out
