-- ===== src/Tests/Panic.antt =====
-- Panics on a stack of two frames.
use orin_os.Prelude.{ℕ, ◌≡◌, refl, [], ◌∷◌, none, true, arith, ◌==◌, if◌then◌else◌}
use orin_os.Prelude.Ports.{Device}
use orin_os.Tests.Machine.{registers, no_counts}
use orin_os.Pmm.{new}
use orin_os.Keyboard.Ring.{empty}
use orin_os.Keyboard.Decode.{initial}
use orin_os.Cpu.{CpuFeatures, features, no_result}
use orin_os.Panic.{Scene, valid_frame_pointer, in_text, backtrace, max_frames}
use orin_os.Panic.Backtrace.{
  Reads, returns, Chain, outermost, called, backtrace-Reads, backtrace-Chain,
}

abbrev bare : CpuFeatures
bare = features (λ leaf subleaf. no_result) none

-- A caller at 0xFFFFFFFF8020F010, and its own caller at 0xFFFFFFFF8020F050.
abbrev stack : ℕ → ℕ
stack a =
    if a == 0xFFFFFFFF8020F010
    then 0xFFFFFFFF8020F050
    else if a == 0xFFFFFFFF8020F018
    then 0xFFFFFFFF80100200
    else if a == 0xFFFFFFFF8020F058
    then 0xFFFFFFFF80100100
    else 0

abbrev from : ℕ
from = 0xFFFFFFFF80100000

abbrev to : ℕ
to = 0xFFFFFFFF80140000

two_frames : Chain stack from to 0xFFFFFFFF8020F010 (0xFFFFFFFF80100200 ∷ 0xFFFFFFFF80100100 ∷ [])
unfolding valid_frame_pointer in_text
two_frames = called refl refl refl (omega arith) (outermost refl refl refl (omega arith))

backtrace-Reads_example : Reads max_frames 0 (backtrace stack from to 0xFFFFFFFF8020F010)
backtrace-Reads_example = backtrace-Reads stack from to 0xFFFFFFFF8020F010

backtrace-Chain_example :
    returns (backtrace stack from to 0xFFFFFFFF8020F010)
    ≡ 0xFFFFFFFF80100200 ∷ 0xFFFFFFFF80100100 ∷ []
backtrace-Chain_example = backtrace-Chain stack from to two_frames (omega arith)

abbrev scene : Scene
scene = record {
  text = [];
  at = none;
  feats = bare;
  regs = registers;
  memory = stack;
  text_start = from;
  text_end = to;
  pmm = new;
  heap_size = 0x1000000;
  heap_base = 0xFFFFFFFF00000000;
  heap_ready = true;
  tally = no_counts;
  driver = record { ring = empty; state = initial };
  emitted = 12;
  filtered = 3;
}

abbrev ports : Device
ports t port = 0
