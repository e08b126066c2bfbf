-- ===== src/Keyboard/Ring/Service.antt =====
-- The ring over any interleaving of arrivals and takes: nothing overtakes, and what is in the queue
-- is served after as many takes as there are bytes in front of it and one more.
use mathlib.Core.List.{append-nil, append_assoc}
use orin_os.Prelude.{
  ℕ, zero, suc, ◌+◌, ◌≤◌, ◌<◌, ◌≡◌, refl, sym, ap, subst, ◌∙◌, List, [], ◌∷◌, ◌++◌, Option, none,
  some, Outcome, ok, ◌>>=◌, get_or, arith, length, length-append, dec_lt, min,
}
use orin_os.Keyboard.Ring.{Ring, ring_push, ring_pop}
use orin_os.Keyboard.Ring.Queue.{IsRing, contents, ring_push-Pushed, ring_pop-Popped, Popped}

-- The interrupt handler has a byte, or the main loop asks for one.
pub data Event : Type 0 where
  arrives : ℕ → Event
  takes : Event

unfoldable pub deliver : Option ℕ → List ℕ → List ℕ
deliver none out = out
deliver (some b) out = b ∷ out

abbrev pub served_after : Option ℕ → Outcome (Ring × List ℕ) → Outcome (Ring × List ℕ)
served_after front rest = rest >>= λ r. ok (r.0, deliver front r.1)

-- The ring after a schedule, and the bytes that the main loop got, in order.
unfoldable pub run : Ring → List Event → Outcome (Ring × List ℕ)
run r [] = ok (r, [])
run r (arrives b ∷ es) = ring_push r b >>= λ q. run q es
run r (takes ∷ es) = ring_pop r >>= λ p. served_after p.1 (run p.0 es)

unfoldable pub arrivals : List Event → List ℕ
arrivals [] = []
arrivals (arrives b ∷ es) = b ∷ arrivals es
arrivals (takes ∷ es) = arrivals es

unfoldable pub takes_in : List Event → ℕ
takes_in [] = 0
takes_in (arrives b ∷ es) = takes_in es
takes_in (takes ∷ es) = suc (takes_in es)

-- What a schedule does to the ring.
pub record Served (r : Ring) (es : List Event) (q : Ring) (out : List ℕ) : Type 0 where
  pub ring : IsRing q
  pub added : List ℕ
  pub in_order : out ++ contents q ≡ contents r ++ added
  pub all_kept : length (contents r) + length (arrivals es) ≤ 255 → added ≡ arrivals es
  pub enough : min (takes_in es) (length (contents r)) ≤ length out

abbrev pub Serves : Ring → List Event → Type 0
Serves r es = (q : Ring) × (out : List ℕ) × (run r es ≡ ok (q, out)) × Served r es q out

module _ (r : Ring) (b : ℕ) (es : List Event) (p q : Ring) (out : List ℕ) where
  pushed_room :
      contents p ≡ contents r ++ b ∷ [] → Served p es q out → Served r (arrives b ∷ es) q out
  unfolding arrivals takes_in
  pushed_room e k =
      let more : length (contents p) ≡ length (contents r) + 1 =
        ap length e ∙ length-append (contents r) (b ∷ []) in
      record {
        ring = k.ring;
        added = b ∷ k.added;
        in_order =
            k.in_order
            ∙ ap (λ (l : List ℕ). l ++ k.added) e
            ∙ append_assoc (contents r) (b ∷ []) k.added;
        all_kept = λ h. ap (λ (l : List ℕ). b ∷ l) (k.all_kept (omega (arith, h, more)));
        enough = omega (arith, k.enough, more);
      }

  pushed_full :
      contents p ≡ contents r
      → 255 ≤ length (contents r)
      → Served p es q out
      → Served r (arrives b ∷ es) q out
  unfolding arrivals takes_in
  pushed_full e full k = record {
    ring = k.ring;
    added = k.added;
    in_order = k.in_order ∙ ap (λ (l : List ℕ). l ++ k.added) e;
    all_kept = λ h. absurd (omega (arith, h, full));
    enough = omega (arith, k.enough, ap length e);
  }

  popped_some : contents r ≡ b ∷ contents p → Served p es q out → Served r (takes ∷ es) q (b ∷ out)
  unfolding arrivals takes_in
  popped_some e k =
      let less : length (contents r) ≡ suc (length (contents p)) = ap length e in
      record {
        ring = k.ring;
        added = k.added;
        in_order =
            ap (λ (l : List ℕ). b ∷ l) k.in_order ∙ ap (λ (l : List ℕ). l ++ k.added) (sym e);
        all_kept = λ h. k.all_kept (omega (arith, h, less));
        enough = omega (arith, k.enough, less);
      }

popped_none :
    (r : Ring) (es : List Event) (q : Ring) (out : List ℕ)
    → contents r ≡ []
    → Served r es q out
    → Served r (takes ∷ es) q out
unfolding arrivals takes_in
popped_none r es q out e k = record {
  ring = k.ring;
  added = k.added;
  in_order = k.in_order;
  all_kept = k.all_kept;
  enough = omega (arith, k.enough, ap length e);
}

-- Whatever bytes arrive and whenever the main loop asks, from a well-formed ring.
pub run-Served : (r : Ring) (es : List Event) → IsRing r → Serves r es
unfolding run
run-Served r [] v = (
  r,
  [],
  refl,
  unfold arrivals takes_in in
      record {
        ring = v;
        added = [];
        in_order = sym (append-nil (contents r));
        all_kept = λ _. refl;
        enough = omega arith;
      },
)
run-Served r (arrives b ∷ es) v =
    let (p, e, h) = ring_push-Pushed r b v in
    let (q, out, e', k) = run-Served p es h.ring in
    (
      q,
      out,
      rw e e',
      elim (dec_lt (length (contents r)) 255) [
        | yes room ↦ pushed_room r b es p q out (h.stored room) k
        | no full ↦ pushed_full r b es p q out (h.refused (omega arith)) (omega arith) k
      ],
    )
run-Served r (takes ∷ es) v =
    let (res, e, h) = ring_pop-Popped r v in rw e (popped res h (run-Served res.0 es))
  where
    popped :
        (res : Ring × Option ℕ)
        → Popped r res
        → (IsRing res.0 → Serves res.0 es)
        → (q : Ring) × (out : List ℕ) × (served_after res.1 (run res.0 es) ≡ ok (q, out))
          × Served r (takes ∷ es) q out
    popped (p, none) (same, empty) later =
        let (q, out, e, k) = later (subst IsRing (sym same) v) in
        (
          q,
          out,
          rw e (unfold deliver in refl),
          popped_none r es q out empty (subst (λ (x : Ring). Served x es q out) same k),
        )
    popped (p, some b) (ring, first, _) later =
        let (q, out, e, k) = later ring in
        (q, b ∷ out, rw e (unfold deliver in refl), popped_some r b es p q out first k)

get_or-front : (xs ys : List ℕ) (i : ℕ) → i < length xs → get_or (xs ++ ys) i 0 ≡ get_or xs i 0
get_or-front [] ys i h = absurd (omega arith)
get_or-front (x ∷ xs) ys zero h = refl
get_or-front (x ∷ xs) ys (suc i) h = get_or-front xs ys i (omega arith)

-- On a well-formed ring, whatever bytes arrive and in whatever order arrivals and takes come, a
-- run with more than d takes, d below the length of the queue, returns and has delivered the byte
-- that had d others in front of it, as number d of the bytes delivered.
pub run_delivers :
    (r : Ring) (es : List Event) (depth : ℕ)
    → IsRing r
    → depth < length (contents r)
    → depth < takes_in es
    → (q : Ring) × (out : List ℕ) × (run r es ≡ ok (q, out))
      × (depth < length out)
      × (get_or out depth 0 ≡ get_or (contents r) depth 0)
run_delivers r es depth v here asked =
    let (q, out, e, k) = run-Served r es v in
    let long : depth < length out = omega (arith, k.enough, here, asked) in
    (
      q,
      out,
      e,
      long,
      sym (get_or-front out (contents q) depth long)
          ∙ ap (λ (l : List ℕ). get_or l depth 0) k.in_order
          ∙ get_or-front (contents r) k.added depth here,
    )
