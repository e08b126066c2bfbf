-- ===== src/Panic.antt =====
-- The panic handler of kernel/src/panic.rs: the state that it keeps, the walk along the frame
-- pointers, its report and the action behind it. A line of text is the data that it shows; memory and
-- the linker's symbols are arguments.
pub mod Backtrace
pub mod Once
use orin_os.Prelude.{
  ℕ, zero, suc, ◌+◌, ◌-◌, ◌*◌, ◌/◌, ◌^◌, ◌%◌, Bool, true, false, ◌&&◌, List, [], ◌∷◌, ◌++◌, Option,
  none, some, Outcome, ok, checked, ◌>>=◌, ltb, leb, ◌==◌, if◌then◌else◌,
}
use orin_os.Prelude.Ports.{Trace, Device, outb, poll_until}
use orin_os.Vmm.Init.{kernel_vma}
use orin_os.Multiboot.Params.{PanicAction, halt, reboot, triple}
use orin_os.Keyboard.Controller.{is_clear}
use orin_os.Pmm.{Pmm, Stats, stats}
use orin_os.Keyboard.Ring.{pending}
use orin_os.Keyboard.Decode.{Presence}
use orin_os.Keyboard.Poll.{Driver}
use orin_os.Interrupts.Idt.{Counters, counters}
use orin_os.Cpu.{CpuFeatures}
use orin_os.Cpu.Regs.{CpuRegs, ControlText, Problem, format_control, control_register_problems}

-- `PanicAction::… as u64`
unfoldable pub action_number : PanicAction → ℕ
action_number halt = 0
action_number reboot = 1
action_number triple = 2

-- `PANICKING`, `PANIC_COUNT` and `ACTION`.
pub record PanicState : Type 0 where
  pub panicking : Bool
  pub panics : ℕ
  pub action : ℕ

unfoldable pub at_boot : PanicState
at_boot = record { panicking = false; panics = 0; action = action_number halt }

unfoldable pub set_panic_action : PanicAction → PanicState → PanicState
set_panic_action a s = record s { action = action_number a }

unfoldable pub panic_action : PanicState → PanicAction
panic_action s =
    if s.action == action_number reboot
    then reboot
    else if s.action == action_number triple
    then triple
    else halt

unfoldable pub panic_count : PanicState → ℕ
panic_count s = s.panics

unfoldable pub valid_frame_pointer : ℕ → Bool
valid_frame_pointer rbp = leb kernel_vma rbp && (rbp % 16 == 0) && ltb rbp (2 ^ 64 - 1 - 16)

abbrev pub max_frames : ℕ
max_frames = 24

-- What the walk does: it reads the two words at a frame pointer, and it prints.
pub data Step : Type 0 where
  reads_frame : ℕ → Step
  implausible : ℕ → ℕ → Step
  frame : ℕ → ℕ → Bool → ℕ → Step  -- depth, return address, in the text, saved pointer
  outside_text : Step
  chain_corrupt : Step
  truncated : Step

module _ (memory : ℕ → ℕ) (text_start text_end : ℕ) where
  unfoldable pub in_text : ℕ → Bool
  in_text ret = leb text_start ret && ltb ret text_end

  -- The loop of `backtrace`, with the rounds that are left.
  unfoldable pub walk : ℕ → ℕ → ℕ → List Step
  walk zero depth rbp = truncated ∷ []
  walk (suc rounds) depth rbp =
      let saved = memory rbp in
      let ret = memory (rbp + 8) in
      let rest = walk rounds (depth + 1) saved in
      if valid_frame_pointer rbp
      then reads_frame rbp
        ∷ frame depth ret (in_text ret) saved
        ∷ (if in_text ret
            then (if leb saved rbp then chain_corrupt ∷ [] else rest)
            else outside_text ∷ [])
      else implausible depth rbp ∷ []

  unfoldable pub backtrace : ℕ → List Step
  backtrace = walk max_frames 0

-- The parts of the report.
pub data Line : Type 0 where
  recursive panic_begin panic_end : Line
  message : List ℕ → Line
  location : List ℕ → ℕ → ℕ → Line
  place : ℕ → ℕ → ℕ → ℕ → ℕ → Line
  general : CpuRegs → Line
  control : ControlText → Line
  security : Problem → Line
  text_offset : ℕ → Line
  resolve : ℕ → Line
  below_kernel : ℕ → Line
  backtrace_heading : Line
  step : Step → Line
  state_heading : Line
  frames_ready : Bool → Line
  frame_stats : ℕ → ℕ → ℕ → ℕ → ℕ → Line  -- free, total, reserved, bad, MiB unmapped
  heap_stats : ℕ → ℕ → Bool → Line
  interrupt_counts : ℕ × ℕ × ℕ × ℕ × ℕ × ℕ → Line
  keyboard_state : Presence → ℕ → ℕ → ℕ → Line
  log_stats : ℕ → ℕ → Line
  number : ℕ → Line

-- What the handler finds: the message and the place of the panic, the processor, memory, the bounds
-- of the kernel's text, and the state of the other subsystems; of the heap its size, its base and
-- whether it is there, of the log the records that it printed and those it left out.
pub record Scene : Type 0 where
  pub text : List ℕ
  pub at : Option (List ℕ × ℕ × ℕ)
  pub feats : CpuFeatures
  pub regs : CpuRegs
  pub memory : ℕ → ℕ
  pub text_start : ℕ
  pub text_end : ℕ
  pub pmm : Pmm
  pub heap_size : ℕ
  pub heap_base : ℕ
  pub heap_ready : Bool
  pub tally : Counters
  pub driver : Driver
  pub emitted : ℕ
  pub filtered : ℕ

unfoldable pub location_lines : Option (List ℕ × ℕ × ℕ) → List Line
location_lines none = []
location_lines (some (file, line, column)) = location file line column ∷ []

unfoldable pub security_lines : List (Option Problem) → List Line
security_lines [] = []
security_lines (none ∷ rest) = security_lines rest
security_lines (some p ∷ rest) = security p ∷ security_lines rest

unfoldable pub step_lines : List Step → List Line
step_lines [] = []
step_lines (s ∷ rest) = step s ∷ step_lines rest

-- `rip.wrapping_sub(text_start)`
unfoldable pub offset_in_text : ℕ → ℕ → ℕ
offset_in_text rip start = (rip + 2 ^ 64 - start) % 2 ^ 64

unfoldable pub rip_lines : ℕ → ℕ → List Line
rip_lines rip start =
    if leb kernel_vma rip
    then text_offset (offset_in_text rip start) ∷ resolve rip ∷ []
    else below_kernel rip ∷ []

unfoldable pub subsystem_lines : Scene → List Line
subsystem_lines e =
    let ps = stats e.pmm in
    let st = e.driver.state in
    state_heading
    ∷ frames_ready e.pmm.initialised
    ∷ frame_stats ps.free_frames ps.total_frames ps.reserved_frames ps.bad_frames
        (ps.unmapped_bytes / (1024 * 1024))
    ∷ heap_stats e.heap_size e.heap_base e.heap_ready
    ∷ interrupt_counts (counters e.tally)
    ∷ keyboard_state st.presence st.events (pending e.driver.ring) e.driver.ring.dropped
    ∷ log_stats e.emitted e.filtered
    ∷ []

unfoldable pub report : Scene → ℕ → List Line
report e n =
    (panic_begin ∷ message e.text ∷ [])
    ++ location_lines e.at
    ++ (place e.regs.rip e.regs.rsp e.regs.rflags e.regs.cs e.regs.ss
        ∷ general e.regs
        ∷ control (format_control e.regs)
        ∷ [])
    ++ security_lines (control_register_problems e.feats e.regs)
    ++ rip_lines e.regs.rip e.text_start
    ++ (backtrace_heading ∷ [])
    ++ step_lines (backtrace e.memory e.text_start e.text_end e.regs.rbp)
    ++ subsystem_lines e
    ++ (number n ∷ panic_end ∷ [])

-- How the machine ends.
pub data Ending : Type 0 where
  halted : Ending
  triple_faulted : Trace → Ending

-- The write that pulses the reset line.
unfoldable pub reset_line : Device → Trace → Trace
reset_line device t = outb 0x64 0xFE (poll_until device 0x64 (is_clear 0x02) 16 t).0

unfoldable pub perform : Device → Trace → PanicAction → Ending
perform device t halt = halted
perform device t reboot = triple_faulted (reset_line device t)
perform device t triple = triple_faulted t

unfoldable pub action : Device → Trace → PanicState → Ending
action device t s = perform device t (panic_action s)

-- `panic`: `fetch_add` wraps, the sum behind it does not. A recursive panic ends in `action`.
unfoldable pub panic_handler :
    Device → Trace → Scene → PanicState → Outcome (PanicState × List Line × Ending)
panic_handler device t e s = do
  n ← checked (s.panics + 1)
  ok (
    record s { panicking = true; panics = (s.panics + 1) % 2 ^ 64 },
    (if s.panicking then recursive ∷ panic_end ∷ [] else report e n),
    action device t s,
  )
