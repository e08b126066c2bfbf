-- ===== src/Keyboard/Ring/Handover.antt =====
-- Interrupts that arrive in the middle of a pop.
use mathlib.Core.List.{append-nil, append_assoc}
use orin_os.Prelude.{
  ℕ, ◌≡◌, refl, sym, ap, subst, ◌∙◌, List, [], ◌∷◌, ◌++◌, some, Outcome, ok, ok-injective,
  some-ne-none, ◌>>=◌, get_or, take, ◌-◌, ◌+◌, ◌<◌, ◌≤◌, ap₂, zero, suc, length-append, arith,
  length, ℕ_discrete, dec_lt,
}
use orin_os.Keyboard.Ring.{Ring, ring_push, pop_front, pop_commit}
use orin_os.Keyboard.Ring.Queue.{IsRing, contents, ring_push-Pushed, pop_some, pop_none}

cons-ne-nil : {x : ℕ} {xs : List ℕ} → x ∷ xs ≡ [] → ⊥
cons-ne-nil e = cc

cons-tail : {x y : ℕ} {xs ys : List ℕ} → x ∷ xs ≡ y ∷ ys → xs ≡ ys
cons-tail e = cc

pop_commit-IsRing : (t : ℕ) (r : Ring) → IsRing r → IsRing (pop_commit t r)
unfolding pop_commit
pop_commit-IsRing t r v = record { size = v.size; head_in = v.head_in; tail_in = omega arith }

-- Interrupts, one after another.
unfoldable pub push_all : Ring → List ℕ → Outcome Ring
push_all r [] = ok r
push_all r (b ∷ bs) = ring_push r b >>= λ q. push_all q bs

-- Of the bytes that arrive, those that find room: a queue holds 255.
abbrev pub that_fit : Ring → List ℕ → List ℕ
that_fit r bs = take (255 - length (contents r)) bs

take-nil : (n : ℕ) → take {A = ℕ} n [] ≡ []
take-nil zero = refl
take-nil (suc n) = refl

-- A byte that finds room is the first of those that do.
that_fit-room :
    (r p : Ring) (b : ℕ) (bs : List ℕ)
    → length (contents r) < 255
    → contents p ≡ contents r ++ b ∷ []
    → b ∷ that_fit p bs ≡ that_fit r (b ∷ bs)
that_fit-room r p b bs room stored =
    let longer : length (contents p) ≡ length (contents r) + 1 =
      ap length stored ∙ length-append {0} (contents r) (b ∷ []) in
    let left : 255 - length (contents r) ≡ suc (255 - length (contents p)) = omega arith in
    rw left refl

that_fit-full :
    (r p : Ring) (b : ℕ) (bs : List ℕ)
    → 255 ≤ length (contents r)
    → contents p ≡ contents r
    → that_fit p bs ≡ that_fit r (b ∷ bs)
that_fit-full r p b bs full refused =
    let same : length (contents p) ≡ length (contents r) = ap length refused in
    let none_left : 255 - length (contents r) ≡ 0 = omega arith in
    let none_there : 255 - length (contents p) ≡ 0 = omega arith in rw (none_left, none_there) refl

-- The queue has only grown at its end, by the bytes that fit, and its front cell is where it was.
pub record Extends (r : Ring) (bs : List ℕ) (q : Ring) : Type 0 where
  pub ring : IsRing q
  pub same_tail : q.tail ≡ r.tail
  pub longer : contents q ≡ contents r ++ that_fit r bs

pub push_all-Extends :
    (r : Ring) (bs : List ℕ) → IsRing r → (q : Ring) × (push_all r bs ≡ ok q) × Extends r bs q
unfolding push_all
push_all-Extends r [] v = (
  r,
  refl,
  record {
    ring = v;
    same_tail = refl;
    longer =
        sym (append-nil (contents r))
        ∙ ap (λ (l : List ℕ). contents r ++ l) (sym (take-nil (255 - length (contents r))));
  },
)
push_all-Extends r (b ∷ bs) v =
    let (p, e, h) = ring_push-Pushed r b v in
    let (q, e', k) = push_all-Extends p bs h.ring in
    elim (dec_lt (length (contents r)) 255) [
      | yes room ↦ (
        q,
        rw e e',
        record {
          ring = k.ring;
          same_tail = k.same_tail ∙ h.same_tail;
          longer =
              k.longer
              ∙ ap (λ (l : List ℕ). l ++ that_fit p bs) (h.stored room)
              ∙ append_assoc (contents r) (b ∷ []) (that_fit p bs)
              ∙ ap (λ (l : List ℕ). contents r ++ l) (that_fit-room r p b bs room (h.stored room));
        },
      )
      | no full ↦ (
        q,
        rw e e',
        record {
          ring = k.ring;
          same_tail = k.same_tail ∙ h.same_tail;
          longer =
              k.longer
              ∙ ap₂ (λ (l m : List ℕ). l ++ m) (h.refused (omega arith))
                  (that_fit-full r p b bs (omega arith) (h.refused (omega arith)));
        },
      )
    ]

-- A pop that read a byte before the interrupts and stores the tail after them.
pub record HandsOver (r : Ring) (bs : List ℕ) (q : Ring) (b : ℕ) : Type 0 where
  pub rest : List ℕ
  pub before : contents r ≡ b ∷ rest
  pub during : contents q ≡ b ∷ (rest ++ that_fit r bs)
  pub after : contents (pop_commit r.tail q) ≡ rest ++ that_fit r bs
  pub ring : IsRing (pop_commit r.tail q)

-- If a pop has read a byte from a well-formed ring and any bytes arrive by interrupt before it
-- stores the tail, the pop takes off the oldest byte, and what is left, in a well-formed ring, is
-- what was behind it, in order, followed by the first of the bytes that arrived, in order, as many
-- as a queue of 255 had room for.
pub pop-push_all :
    (r q : Ring) (b : ℕ) (bs : List ℕ)
    → IsRing r
    → pop_front r ≡ ok (some b)
    → push_all r bs ≡ ok q
    → HandsOver r bs q b
pop-push_all r q b bs v front pushed = elim (ℕ_discrete r.tail r.head) [
  | yes e ↦ absurd (some-ne-none (ok-injective (sym front ∙ (pop_none r v e).0)))
  | no ne ↦
      let (f, c) = pop_some r v ne in
      let byte : get_or r.cells r.tail 0 ≡ b = cc (ok-injective (sym front ∙ f)) in
      let (q₀, e, k₀) = push_all-Extends r bs v in
      let k : Extends r bs q = subst (Extends r bs) (ok-injective (sym e ∙ pushed)) k₀ in
      handed b (byte) c k
]
  where
    handed :
        (b : ℕ)
        → get_or r.cells r.tail 0 ≡ b
        → contents r ≡ get_or r.cells r.tail 0 ∷ contents (pop_commit r.tail r)
        → Extends r bs q
        → HandsOver r bs q b
    handed b byte c k =
        let rest = contents (pop_commit r.tail r) in
        let before : contents r ≡ b ∷ rest = c ∙ ap (λ (x : ℕ). x ∷ rest) byte in
        let during : contents q ≡ b ∷ (rest ++ that_fit r bs) =
          k.longer ∙ ap (λ (l : List ℕ). l ++ that_fit r bs) before in
        elim (ℕ_discrete q.tail q.head) [
          | yes e ↦ absurd (cons-ne-nil (sym during ∙ (pop_none q k.ring e).1))
          | no ne ↦
              let same : q.tail ≡ r.tail = k.same_tail in
              record {
                rest = rest;
                before = before;
                during = during;
                after =
                    ap (λ (t : ℕ). contents (pop_commit t q)) (sym same)
                    ∙ cons-tail (sym (pop_some q k.ring ne).1 ∙ during);
                ring = pop_commit-IsRing r.tail q k.ring;
              }
        ]
