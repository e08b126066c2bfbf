-- ===== src/Keyboard/Poll/Drain.antt =====
-- `drain` against the queue of bytes that the ring stands for.
use orin_os.Prelude.{
  subst, ℕ, zero, suc, ◌+◌, ◌^◌, ◌<◌, ◌≤◌, ◌≡◌, refl, sym, List, [], ◌∷◌, Option, none, some,
  Outcome, ok, ◌>>=◌, arith,
}
use orin_os.Keyboard.Ring.{Ring, ring_pop}
use orin_os.Keyboard.Ring.Queue.{IsRing, contents, Popped, ring_pop-Popped}
use orin_os.Keyboard.Decode.{KeyEvent, State, translate}
use orin_os.Keyboard.Decode.Laws.{Decoded}
use orin_os.Keyboard.Decode.Total.{translate-Translates}
use orin_os.Keyboard.Poll.{Driver, poll, drain}

-- Decodes bytes from the front of a queue until `capacity` events are there, the queue is empty, or a
-- byte has given no event; that byte is used up.
unfoldable pub decode_queue :
    ℕ → State → (ℕ → ℕ) → List ℕ → Outcome (State × (List ℕ × List KeyEvent))
decode_queue zero st clock bytes = ok (st, (bytes, []))
decode_queue (suc capacity) st clock [] = ok (st, ([], []))
decode_queue (suc capacity) st clock (byte ∷ bytes) = do
  (st1, ev) ← translate st (clock 0) byte
  elim ev [
    | none ↦ ok (st1, (bytes, []))
    | some e ↦
        decode_queue capacity st1 (λ n. clock (n + 1)) bytes >>= λ r. ok (r.0, (r.1.0, e ∷ r.1.1))
  ]

-- What `drain` leaves is what the queue's decoder leaves.
unfoldable pub Drains : ℕ → Driver → (ℕ → ℕ) → Type 0
Drains capacity d clock =
    (d1 : Driver) × (evs : List KeyEvent) × (drain capacity d clock ≡ ok (d1, evs))
    × IsRing (d1.ring)
    × (decode_queue capacity d.state clock (contents (d.ring))
        ≡ ok (d1.state, (contents (d1.ring), evs)))

module _ (capacity : ℕ) (d : Driver) (clock : ℕ → ℕ) (v : IsRing (d.ring))
    (room : d.state.events + d.state.unknown_scancodes + suc capacity < 2 ^ 64)
    (again : (d1 : Driver)
      → IsRing (d1.ring)
      → d1.state.events + d1.state.unknown_scancodes + capacity < 2 ^ 64
      → Drains capacity d1 (λ n. clock (n + 1))) where
  by_event :
      (q : Ring) (byte : ℕ)
      → ring_pop (d.ring) ≡ ok (q, some byte)
      → IsRing q
      → contents (d.ring) ≡ byte ∷ contents q
      → ((st1 : State) × (ev : Option KeyEvent) × (translate d.state (clock 0) byte ≡ ok (st1, ev))
          × Decoded d.state (clock 0) st1 ev)
      → Drains (suc capacity) d clock
  unfolding Drains drain decode_queue poll
  by_event q byte e ring front (st1, none, t, dec) =
      (record { ring = q; state = st1 }, [], rw e (rw t refl), ring, rw front (rw t refl))
  by_event q byte e ring front (st1, some ev, t, dec) =
      let r = again (record { ring = q; state = st1 }) ring (omega (arith, dec.counted)) in
      (r.0, ev ∷ r.1, rw e (rw t (rw r.2 refl)), r.3, rw front (rw t (rw r.4 refl)))

  by_pop :
      ((res : Ring × Option ℕ) × (ring_pop (d.ring) ≡ ok res) × Popped (d.ring) res)
      → Drains (suc capacity) d clock
  unfolding Drains drain decode_queue poll
  by_pop ((q, none), e, h) =
      (record d { ring = q }, [], rw e refl, subst IsRing (sym h.0) v, rw (h.0, h.1) refl)
  by_pop ((q, some byte), e, h) =
      by_event q byte e h.0 h.1
        (translate-Translates d.state (clock 0) byte (omega arith) (omega arith))

-- On a well-formed ring, with room in the counters, `drain` returns. It decodes the bytes of the
-- queue in order, until it has the given number of events, the queue is empty, or a byte gives no
-- event; that byte is used up, and the ring, well formed, holds the bytes behind.
pub drain-Drains :
    (capacity : ℕ) (d : Driver) (clock : ℕ → ℕ)
    → IsRing (d.ring)
    → d.state.events + d.state.unknown_scancodes + capacity < 2 ^ 64
    → Drains capacity d clock
unfolding Drains drain decode_queue
drain-Drains zero d clock v room = (d, [], refl, v, refl)
drain-Drains (suc capacity) d clock v room =
    by_pop capacity d clock v room
      (λ d1 ring less. drain-Drains capacity d1 (λ n. clock (n + 1)) ring less)
      (ring_pop-Popped (d.ring) v)

left_over :
    {st st1 : State} {bytes bytes1 : List ℕ} {evs evs1 : List KeyEvent}
    → ◌≡◌ {A = Outcome (State × (List ℕ × List KeyEvent))}
        (ok (st, (bytes, evs)))
        (ok (st1, (bytes1, evs1)))
    → (bytes1 ≡ bytes) × (evs1 ≡ evs)
left_over e = (cc, cc)

-- If the oldest byte of a well-formed ring is the prefix E0 and the counters have room, `drain` gives
-- no event at all, whatever its capacity, and with a positive capacity leaves every byte behind the
-- prefix in the ring.
pub drain_stops_at_prefix :
    (capacity : ℕ) (d : Driver) (clock : ℕ → ℕ) (rest : List ℕ)
    → IsRing (d.ring)
    → contents (d.ring) ≡ 0xE0 ∷ rest
    → d.state.events + d.state.unknown_scancodes + capacity < 2 ^ 64
    → (d1 : Driver) × (drain capacity d clock ≡ ok (d1, []))
      × (1 ≤ capacity → contents (d1.ring) ≡ rest)
unfolding Drains drain decode_queue translate
drain_stops_at_prefix zero d clock rest v front room = (d, refl, λ h. absurd (omega arith))
drain_stops_at_prefix (suc capacity) d clock rest v front room =
    let r = drain-Drains (suc capacity) d clock v room in
    let e =
      subst
        (λ bytes.
          decode_queue (suc capacity) d.state clock bytes
          ≡ ok ((r.0).state, (contents ((r.0).ring), r.1)))
        front r.4 in
    let parts = left_over e in (r.0, rw (r.2, parts.1) refl, λ _. parts.0)
