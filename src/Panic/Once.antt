-- ===== src/Panic/Once.antt =====
-- Panics one inside another: the report of the first one is cut off where the next one comes, and
-- whatever comes behind it only says that it is one more. No handler returns: the last one acts.
use orin_os.Prelude.{ℕ, ◌+◌, true, List, [], ◌∷◌, Outcome, ok, ◌>>=◌, take}
use orin_os.Prelude.Ports.{Trace, Device}
use orin_os.Panic.{PanicState, Scene, Line, recursive, panic_end, Ending, panic_handler}

-- A panic in the handler of the one before, which has printed so many lines by then and does
-- nothing more. Only the last handler ends in its action.
unfoldable pub panics :
    Device
    → Trace
    → Scene
    → List (ℕ × Scene)
    → PanicState
    → Outcome (PanicState × List (List Line) × Ending)
panics device t e [] s = do
  (s1, lines, ending) ← panic_handler device t e s
  ok (s1, lines ∷ [], ending)
panics device t e ((printed, next) ∷ later) s = do
  (s1, lines, _) ← panic_handler device t e s
  (s2, outputs, ending) ← panics device t next later s1
  ok (s2, take printed lines ∷ outputs, ending)

abbrev pub short : List Line
short = recursive ∷ panic_end ∷ []

-- What a run of handlers prints: the given lines of the first, all of the last one's, and of each
-- between and the last what a recursive panic says.
abbrev pub printed_lines : List Line → List (ℕ × Scene) → List (List Line)
printed_lines first [] = first ∷ []
printed_lines first ((printed, next) ∷ later) = take printed first ∷ printed_lines short later

-- The state behind so many panics.
abbrev pub after : PanicState → ℕ → PanicState
after s n = record s { panicking = true; panics = s.panics + n }
