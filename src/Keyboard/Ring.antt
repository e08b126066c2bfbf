-- ===== src/Keyboard/Ring.antt =====
-- The scancode ring of kernel/src/drivers/keyboard.rs. The interrupt handler is the only producer
-- and the main loop the only consumer, on one core: a push runs as a whole between two steps of the
-- consumer, whose pop is a read (`pop_front`) and a store of the tail (`pop_commit`).
pub mod Queue
pub mod Handover
pub mod Service
use orin_os.Prelude.{
  ℕ, ◌+◌, ◌-◌, ◌%◌, ◌^◌, Bool, true, false, List, [], ◌∷◌, Option, none, some, Outcome, ok, panic,
  out_of_bounds, or_panic, ◌>>=◌, get_elem?, set, replicate, ltb, leb, ◌==◌, if◌then◌else◌,
}

abbrev pub ring_cap : ℕ
ring_cap = 256

-- `RING`, `RING_HEAD`, `RING_TAIL` and `DROPPED`.
pub record Ring : Type 0 where
  pub cells : List ℕ
  pub head : ℕ
  pub tail : ℕ
  pub dropped : ℕ

unfoldable pub empty : Ring
empty = record { cells = replicate ring_cap 0; head = 0; tail = 0; dropped = 0 }

-- A byte that does not fit is dropped and counted; `fetch_add` wraps.
unfoldable pub ring_push : Ring → ℕ → Outcome Ring
ring_push r b =
    let next = (r.head + 1) % ring_cap in
    if next == r.tail then ok (record r { dropped = (r.dropped + 1) % 2 ^ 64 }) else (do
      _ ← or_panic (get_elem? r.cells r.head) out_of_bounds
      ok (record r { cells = set r.cells r.head b; head = next }))

-- The loads of `ring_pop`: the byte at the tail, if the ring is not empty.
unfoldable pub pop_front : Ring → Outcome (Option ℕ)
pop_front r =
    if r.tail == r.head
    then ok none
    else (or_panic (get_elem? r.cells r.tail) out_of_bounds >>= λ b. ok (some b))

-- Its store, with the tail that it has loaded.
unfoldable pub pop_commit : ℕ → Ring → Ring
pop_commit tail r = record r { tail = (tail + 1) % ring_cap }

unfoldable pub ring_pop : Ring → Outcome (Ring × Option ℕ)
ring_pop r = do
  front ← pop_front r
  ok (elim front [ none ↦ (r, none) | some b ↦ (pop_commit r.tail r, some b) ])

unfoldable pub pending : Ring → ℕ
pending r = if leb r.tail r.head then r.head - r.tail else ring_cap - r.tail + r.head
