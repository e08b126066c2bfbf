-- ===== src/Keyboard/Poll.antt =====
-- `poll` and `drain` of kernel/src/drivers/keyboard.rs: the consumer's side of the ring and the
-- decoder together. No byte arrives while `drain` runs; the ring's own modules cover that case for a
-- pop. `clock n` is the time that the n-th decoded byte reads.
pub mod Drain
use orin_os.Prelude.{ℕ, zero, suc, ◌+◌, List, [], ◌∷◌, Option, none, some, Outcome, ok, ◌>>=◌}
use orin_os.Keyboard.Ring.{Ring, ring_pop}
use orin_os.Keyboard.Decode.{KeyEvent, State, translate}

pub record Driver : Type 0 where
  pub ring : Ring
  pub state : State

unfoldable pub poll : Driver → ℕ → Outcome (Driver × Option KeyEvent)
poll d tick = do
  (ring, front) ← ring_pop d.ring
  elim front [
    | none ↦ ok (record d { ring = ring }, none)
    | some byte ↦ translate d.state tick byte >>= λ r. ok (record { ring = ring; state = r.0 }, r.1)
  ]

-- `drain` into a slice with `capacity` places left.
unfoldable pub drain : ℕ → Driver → (ℕ → ℕ) → Outcome (Driver × List KeyEvent)
drain zero d clock = ok (d, [])
drain (suc capacity) d clock = do
  (d1, ev) ← poll d (clock 0)
  elim ev [
    | none ↦ ok (d1, [])
    | some e ↦ drain capacity d1 (λ n. clock (n + 1)) >>= λ r. ok (r.0, e ∷ r.1)
  ]
