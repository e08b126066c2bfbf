-- ===== src/Keyboard/Ring/Queue.antt =====
-- The ring is a bounded first-in first-out queue.
use orin_os.Prelude.{
  ℕ, zero, suc, ◌+◌, ◌%◌, ◌^◌, ◌≤◌, ◌<◌, ◌≡◌, refl, ap, ap₂, ◌∙◌, ◌≢◌, true, false, List, [], ◌∷◌,
  ◌++◌, Option, none, some, arith, length, get_or, set, ok, ◌==◌, leb, ℕ_discrete, dec_lt, ltb,
  lt→ltb, ge→ltb, le→leb, lt→leb, length-set, get_or-set_self, get_or-set_ne, get_elem?-eq-get_or,
  if◌then◌else◌,
}
use orin_os.Keyboard.Ring.{Ring, ring_push, ring_pop, pop_front, pop_commit, pending, ring_cap}

pub record IsRing (r : Ring) : Type 0 where
  pub size : length r.cells ≡ ring_cap
  pub head_in : r.head < ring_cap
  pub tail_in : r.tail < ring_cap

-- `n` bytes from the cell `i` on, round the end.
unfoldable pub read : List ℕ → ℕ → ℕ → List ℕ
read cells zero i = []
read cells (suc n) i = get_or cells i 0 ∷ read cells n ((i + 1) % ring_cap)

-- Oldest first.
unfoldable pub contents : Ring → List ℕ
contents r = read r.cells (pending r) r.tail

pending-lt : (r : Ring) → IsRing r → pending r < ring_cap
unfolding pending
pending-lt r v = ground arith

length-read : (cells : List ℕ) (n i : ℕ) → length (read cells n i) ≡ n
unfolding read
length-read cells zero i = refl
length-read cells (suc n) i = ap suc (length-read cells n ((i + 1) % ring_cap))

pub length-contents : (r : Ring) → length (contents r) ≡ pending r
unfolding contents
length-contents r = length-read r.cells (pending r) r.tail

-- A write to a cell that is not read changes nothing; behind the last cell it appends.
read-set :
    (cells : List ℕ) (n i h b : ℕ)
    → length cells ≡ ring_cap
    → i < ring_cap
    → n < ring_cap
    → h ≡ (i + n) % ring_cap
    → read (set cells h b) (suc n) i ≡ read cells n i ++ b ∷ []
unfolding read
read-set cells zero i h b size hi hn e =
    ap (λ (x : ℕ). x ∷ [])
      (let same : h ≡ i = omega arith in
        ap (λ (k : ℕ). get_or (set cells k b) i 0) same ∙ get_or-set_self cells i b 0 (omega arith))
read-set cells (suc n) i h b size hi hn e =
    ap₂ ◌∷◌ (get_or-set_ne cells h i b 0 (λ q. absurd (omega arith)))
      (read-set cells n ((i + 1) % ring_cap) h b size (omega arith) (omega arith) (omega arith))

abbrev limit : ℕ
limit = 255

-- What a push does to the queue: a byte that finds room goes to the end, any other is counted.
pub record Pushed (r : Ring) (b : ℕ) (q : Ring) : Type 0 where
  pub ring : IsRing q
  pub same_tail : q.tail ≡ r.tail
  pub stored : length (contents r) < 255 → contents q ≡ contents r ++ b ∷ []
  pub refused : 255 ≤ length (contents r) → contents q ≡ contents r
  pub counted :
      q.dropped ≡ (if ltb (length (contents r)) 255 then r.dropped else (r.dropped + 1) % 2 ^ 64)

full_iff : (r : Ring) → IsRing r → ((r.head + 1) % ring_cap == r.tail) ≡ leb 255 (pending r)
unfolding pending
full_iff r v = ground arith

head_behind : (r : Ring) → IsRing r → r.head ≡ (r.tail + pending r) % ring_cap
unfolding pending
head_behind r v = ground arith

pending-suc :
    (r : Ring) (b : ℕ)
    → IsRing r
    → pending r < 255
    → pending (record r { cells = set r.cells r.head b; head = (r.head + 1) % ring_cap })
      ≡ suc (pending r)
unfolding pending
pending-suc r b v room = ground arith

module _ (r : Ring) (b : ℕ) (v : IsRing r) where
  push_full : 255 ≤ pending r → (q : Ring) × (ring_push r b ≡ ok q) × Pushed r b q
  unfolding ring_push contents pending
  push_full full = (
    record r { dropped = (r.dropped + 1) % 2 ^ 64 },
    simp (full_iff r v, le→leb 255 (pending r) full),
    record {
      ring = record { size = v.size; head_in = v.head_in; tail_in = v.tail_in };
      same_tail = refl;
      stored = λ h. absurd (omega (arith, length-contents r));
      refused = λ _. refl;
      counted = rw (length-contents r, ge→ltb (pending r) 255 full) refl;
    },
  )

  push_room : pending r < 255 → (q : Ring) × (ring_push r b ≡ ok q) × Pushed r b q
  unfolding ring_push
  push_room room = (
    q,
    simp (
      full_iff r v,
      lt→leb 255 (pending r) room,
      get_elem?-eq-get_or r.cells r.head 0 (omega (arith, v.size, v.head_in)),
    ),
    record {
      ring = record {
        size = length-set r.cells r.head b ∙ v.size;
        head_in = omega arith;
        tail_in = v.tail_in;
      };
      same_tail = refl;
      stored = λ _. appended;
      refused = λ h. absurd (omega (arith, length-contents r));
      counted = rw (length-contents r, lt→ltb (pending r) 255 room) refl;
    },
  )
    where
      q : Ring
      q = record r { cells = set r.cells r.head b; head = (r.head + 1) % ring_cap }

      one_more : pending q ≡ suc (pending r)
      one_more = pending-suc r b v room

      behind : r.head ≡ (r.tail + pending r) % ring_cap
      behind = head_behind r v

      appended : contents q ≡ contents r ++ b ∷ []
      appended =
          unfold contents in
          (ap (λ (n : ℕ). read q.cells n r.tail) one_more
            ∙ read-set r.cells (pending r) r.tail r.head b v.size v.tail_in (omega arith) behind)

  -- `ring_push` on a well-formed ring does not panic; it appends the byte to the queue while that
  -- holds fewer than 255, and else changes nothing but the count of dropped bytes.
  pub ring_push-Pushed : (q : Ring) × (ring_push r b ≡ ok q) × Pushed r b q
  ring_push-Pushed = elim (dec_lt (pending r) 255) [
    | yes room ↦ push_room room
    | no full ↦ push_full (omega arith)
  ]

-- What a pop does to the queue.
abbrev pub Popped : Ring → Ring × Option ℕ → Type 0
Popped r (q, none) = (q ≡ r) × (contents r ≡ [])
Popped r (q, some b) = IsRing q × (contents r ≡ b ∷ contents q) × (q.dropped ≡ r.dropped)

module _ (r : Ring) (v : IsRing r) where
  pending_pred :
      r.tail ≢ r.head → pending r ≡ suc (pending (record r { tail = (r.tail + 1) % ring_cap }))
  unfolding pending
  pending_pred ne = ground arith

  pub pop_some :
      r.tail ≢ r.head
      → (pop_front r ≡ ok (some (get_or r.cells r.tail 0)))
        × (contents r ≡ get_or r.cells r.tail 0 ∷ contents (pop_commit r.tail r))
  unfolding pop_front pop_commit contents
  pop_some ne = (
    simp (differ, get_elem?-eq-get_or r.cells r.tail 0 (omega (arith, v.size, v.tail_in))),
    ap (λ (n : ℕ). read r.cells n r.tail) (pending_pred ne) ∙ first,
  )
    where
      differ : (r.tail == r.head) ≡ false
      differ = ground arith

      first :
          read r.cells (suc (pending (record r { tail = (r.tail + 1) % ring_cap }))) r.tail
          ≡ get_or r.cells r.tail 0
            ∷ read r.cells
                (pending (record r { tail = (r.tail + 1) % ring_cap }))
                ((r.tail + 1) % ring_cap)
      first = unfold read in refl

  pending-zero : r.tail ≡ r.head → pending r ≡ 0
  unfolding pending
  pending-zero e = ground arith

  pub pop_none : r.tail ≡ r.head → (pop_front r ≡ ok none) × (contents r ≡ [])
  unfolding pop_front contents read
  pop_none e =
      let empty : (r.tail == r.head) ≡ true = ground arith in
      (simp empty, ap (λ (n : ℕ). read r.cells n r.tail) (pending-zero e))

  -- `ring_pop` on a well-formed ring does not panic; it takes the oldest byte off the queue, and
  -- returns `None` only from an empty queue, changing nothing then.
  pub ring_pop-Popped : (res : Ring × Option ℕ) × (ring_pop r ≡ ok res) × Popped r res
  unfolding ring_pop
  ring_pop-Popped = elim (ℕ_discrete r.tail r.head) [
    | yes e ↦ let (f, c) = pop_none e in ((r, none), simp f, (refl, c))
    | no ne ↦
        let (f, c) = pop_some ne in
        (
          (pop_commit r.tail r, some (get_or r.cells r.tail 0)),
          simp f,
          (
            unfold pop_commit in
                record { size = v.size; head_in = v.head_in; tail_in = omega arith },
            c,
            unfold pop_commit in refl,
          ),
        )
  ]
