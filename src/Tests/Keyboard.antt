-- ===== src/Tests/Keyboard.antt =====
-- The keyboard driver: a ring with one byte in it, near the end of the cells.
use orin_os.Prelude.{
  ◌+◌, ℕ, ◌≡◌, refl, [], ◌∷◌, Option, some, ok, arith, replicate, length-replicate,
}
use orin_os.Keyboard.Ring.{Ring, ring_push, ring_pop, pop_front, pop_commit}
use orin_os.Keyboard.Ring.Queue.{IsRing, Pushed, ring_push-Pushed}
use orin_os.Keyboard.Decode.{State, KeyEvent, initial, translate}
use orin_os.Keyboard.Decode.Laws.{Decoded}
use orin_os.Keyboard.Decode.Total.{translate-Translates}
use orin_os.Keyboard.Poll.{Driver}
use orin_os.Keyboard.Poll.Drain.{Drains, drain-Drains}
use orin_os.Keyboard.Ring.Handover.{push_all, HandsOver, pop-push_all}

-- Its `unfolding` line is what a run of the ring computes with.
wrapping : Ring
unfolding ring_push ring_pop pop_front pop_commit push_all replicate
wrapping = record { cells = replicate 256 30; head = 0; tail = 255; dropped = 0 }

wrapping-IsRing : IsRing wrapping
unfolding wrapping
wrapping-IsRing = record {
  size = length-replicate {A = ℕ} 256 30;
  head_in = omega arith;
  tail_in = omega arith;
}

-- Two bytes come in.
pushed : Ring
pushed = record { cells = 158 ∷ 48 ∷ replicate 254 30; head = 2; tail = 255; dropped = 0 }

front_lem : pop_front wrapping ≡ ok (some 30)
unfolding wrapping
front_lem = refl

pushed_lem : push_all wrapping (158 ∷ 48 ∷ []) ≡ ok pushed
unfolding wrapping pushed
pushed_lem = refl

pop-push_all_example : HandsOver wrapping (158 ∷ 48 ∷ []) pushed 30
pop-push_all_example =
    pop-push_all wrapping pushed 30 (158 ∷ 48 ∷ []) wrapping-IsRing front_lem pushed_lem

ring_push-Pushed_example : (q : Ring) × (ring_push wrapping 158 ≡ ok q) × Pushed wrapping 158 q
ring_push-Pushed_example = ring_push-Pushed wrapping 158 wrapping-IsRing

abbrev clock : ℕ → ℕ
clock n = 100 + n

translate-Translates_example :
    (st1 : State) × (ev : Option KeyEvent) × (translate initial 7 0x2A ≡ ok (st1, ev))
    × Decoded initial 7 st1 ev
unfolding initial
translate-Translates_example = translate-Translates initial 7 0x2A (omega arith) (omega arith)

-- The arrow-up key, E0 48, is waiting.
arrow_waiting : Driver
arrow_waiting = record {
  ring = record { cells = 0xE0 ∷ 0x48 ∷ replicate 254 0; head = 2; tail = 0; dropped = 0 };
  state = initial;
}

arrow_waiting-IsRing : IsRing (arrow_waiting.ring)
unfolding arrow_waiting replicate
arrow_waiting-IsRing = record { size = refl; head_in = omega arith; tail_in = omega arith }

drain-Drains_example : Drains 8 arrow_waiting clock
unfolding arrow_waiting initial
drain-Drains_example = drain-Drains 8 arrow_waiting clock arrow_waiting-IsRing (omega arith)
