-- ===== src/Pmm/Ranges.antt =====
-- `free_range` and `reserve_range` as changes of the set of free frames.
use orin_os.Prelude.{
  ℕ, zero, suc, ◌+◌, ◌-◌, ◌*◌, ◌^◌, ◌≤◌, ◌<◌, ◌≡◌, refl, ap, subst, ◌∙◌, ◌⊎◌, inl, arith, length,
  ok, checked-ok, checked_sub-ok, for_range, ℕ_discrete, dec_lt, Outcome,
}
use orin_os.Bitmap.Frames.{
  frame, frame-lt, Updates, bit_test_lem, bit_set_lem, bit_clear_lem, raised-Updates,
  cleared-Updates, raised, cleared,
}
use orin_os.Pmm.{Pmm, free_one, reserve_one, max_frames}
use orin_os.Pmm.Count.{Inv, count-Updates, count_positive, free_frames-le}

-- What an operation on the map leaves alone.
pub record KeepsRest (p q : Pmm) : Type 0 where
  pub total : q.total_frames ≡ p.total_frames
  pub bad : q.bad_frames ≡ p.bad_frames
  pub unmapped : q.unmapped_bytes ≡ p.unmapped_bytes
  pub ready : q.initialised ≡ p.initialised
  pub place : q.cursor ≡ p.cursor

pub KeepsRest-trans : {p q r : Pmm} → KeepsRest p q → KeepsRest q r → KeepsRest p r
KeepsRest-trans h k = record {
  total = k.total ∙ h.total;
  bad = k.bad ∙ h.bad;
  unmapped = k.unmapped ∙ h.unmapped;
  ready = k.ready ∙ h.ready;
  place = k.place ∙ h.place;
}

-- The frames from `first` up to `last` are all `v`, the others as before; no counter but those of
-- free and reserved frames has changed, and the free frames are still counted.
pub record SetsRange (p : Pmm) (first last v : ℕ) (q : Pmm) : Type 0 where
  pub inv : Inv q
  pub inside : (j : ℕ) → first ≤ j → j < last → frame q.bitmap j ≡ v
  pub outside : (j : ℕ) → (j < first) ⊎ (last ≤ j) → frame q.bitmap j ≡ frame p.bitmap j
  pub rest : KeepsRest p q

-- A frame that changes, with the count moved accordingly, keeps the invariant.
pub Updates-Inv :
    (p q : Pmm) (idx v : ℕ)
    → Inv p
    → idx < max_frames
    → Updates p.bitmap idx v q.bitmap
    → q.free_frames + frame p.bitmap idx ≡ p.free_frames + v
    → Inv q
Updates-Inv p q idx v inv lt u moved = record {
  size = u.same_length ∙ inv.size;
  words = u.words;
  counted = omega (arith, moved, inv.counted, count-Updates max_frames u lt);
}

module _ (p : Pmm) (idx : ℕ) (inv : Inv p) (lt : idx < max_frames) where
  within : idx < 64 * length p.bitmap
  within = omega (arith, inv.size)

  kept_frame : (v : ℕ) → frame p.bitmap idx ≡ v → SetsRange p idx (suc idx) v p
  kept_frame v e = record {
    inv = inv;
    inside = λ j lo hi. ap (frame p.bitmap) (let e : j ≡ idx = omega arith in e) ∙ e;
    outside = λ j _. refl;
    rest = record { total = refl; bad = refl; unmapped = refl; ready = refl; place = refl };
  }

  changed_frame :
      (q : Pmm) (v : ℕ)
      → Updates p.bitmap idx v q.bitmap
      → q.free_frames + frame p.bitmap idx ≡ p.free_frames + v
      → KeepsRest p q
      → SetsRange p idx (suc idx) v q
  changed_frame q v u moved rest = record {
    inv = Updates-Inv p q idx v inv lt u moved;
    inside = λ j lo hi. ap (frame q.bitmap) (let e : j ≡ idx = omega arith in e) ∙ u.at;
    outside = λ j h. u.off j (λ e. omega arith);
    rest = rest;
  }

  pub free_one_lem :
      (q : Pmm) × (free_one idx p ≡ ok q)
      × SetsRange p idx (suc idx) 1 q
      × (q.reserved_frames ≡ p.reserved_frames)
  unfolding free_one
  free_one_lem =
      let test = bit_test_lem p.bitmap idx within inv.words in
      elim (ℕ_discrete (frame p.bitmap idx) 1) [
        | yes free ↦ (p, rw (test, free) refl, kept_frame 1 free, refl)
        | no taken ↦
            let zeroed : frame p.bitmap idx ≡ 0 = omega (arith, frame-lt p.bitmap idx) in
            let map = raised p.bitmap idx within inv.words in
            let q : Pmm = record p { bitmap = map; free_frames = p.free_frames + 1 } in
            (
              q,
              rw
                  (
                    test,
                    zeroed,
                    bit_set_lem p.bitmap idx within inv.words,
                    checked-ok (p.free_frames + 1) (omega (arith, free_frames-le inv)),
                  )
                  refl,
              changed_frame q 1 (raised-Updates p.bitmap idx within inv.words) (omega arith)
                  (record {
                    total = refl;
                    bad = refl;
                    unmapped = refl;
                    ready = refl;
                    place = refl;
                  }),
              refl,
            )
      ]

  pub reserve_one_lem :
      p.reserved_frames + p.free_frames < 2 ^ 64
      → (q : Pmm) × (reserve_one idx p ≡ ok q)
        × SetsRange p idx (suc idx) 0 q
        × (q.reserved_frames + q.free_frames ≡ p.reserved_frames + p.free_frames)
  unfolding reserve_one
  reserve_one_lem room =
      let test = bit_test_lem p.bitmap idx within inv.words in
      elim (ℕ_discrete (frame p.bitmap idx) 1) [
        | no taken ↦
            let zeroed : frame p.bitmap idx ≡ 0 = omega (arith, frame-lt p.bitmap idx) in
            (p, rw (test, zeroed) refl, kept_frame 0 zeroed, refl)
        | yes free ↦
            let some_free : 0 < p.free_frames =
              omega (arith, inv.counted, count_positive p.bitmap max_frames idx lt free) in
            let map = cleared p.bitmap idx within inv.words in
            let q : Pmm = record p {
              bitmap = map;
              free_frames = p.free_frames - 1;
              reserved_frames = p.reserved_frames + 1;
            } in
            (
              q,
              rw
                  (
                    test,
                    free,
                    bit_clear_lem p.bitmap idx within inv.words,
                    checked_sub-ok p.free_frames 1 some_free,
                    checked-ok (p.reserved_frames + 1) (omega arith),
                  )
                  refl,
              changed_frame q 0 (cleared-Updates p.bitmap idx within inv.words) (omega arith)
                  (record {
                    total = refl;
                    bad = refl;
                    unmapped = refl;
                    ready = refl;
                    place = refl;
                  }),
              omega arith,
            )
      ]

SetsRange-join :
    {p q r : Pmm} {first mid last v : ℕ}
    → first ≤ mid
    → mid ≤ last
    → SetsRange p first mid v q
    → SetsRange q mid last v r
    → SetsRange p first last v r
SetsRange-join {mid = mid} le le' h k = record {
  inv = k.inv;
  inside = λ j lo hi. elim (dec_lt j mid) [
    | yes below ↦ k.outside j (inl below) ∙ h.inside j lo below
    | no above ↦ k.inside j (omega arith) hi
  ];
  outside = λ j out. k.outside j (omega arith) ∙ h.outside j (omega arith);
  rest = KeepsRest-trans h.rest k.rest;
}

pub SetsRange-empty :
    (p : Pmm) (first last v : ℕ) → last ≤ first → Inv p → SetsRange p first last v p
SetsRange-empty p first last v le inv = record {
  inv = inv;
  inside = λ j lo hi. absurd (omega arith);
  outside = λ j _. refl;
  rest = record { total = refl; bad = refl; unmapped = refl; ready = refl; place = refl };
}

-- A loop whose body sets one frame sets the range; `R` is what else it keeps.
module _ (body : ℕ → Pmm → Outcome Pmm) (v : ℕ) (R : Pmm → Type 0)
    (step : (p : Pmm) (idx : ℕ)
      → Inv p
      → idx < max_frames
      → R p
      → (q : Pmm) × (body idx p ≡ ok q) × SetsRange p idx (suc idx) v q × R q) where
  pub for_range-SetsRange :
      (rounds first : ℕ) (p : Pmm)
      → Inv p
      → rounds ≤ max_frames - first
      → R p
      → (q : Pmm) × (for_range rounds first body p ≡ ok q)
        × SetsRange p first (first + rounds) v q
        × R q
  unfolding for_range
  for_range-SetsRange zero first p inv le k =
      (p, refl, SetsRange-empty p first (first + 0) v (omega arith) inv, k)
  for_range-SetsRange (suc rounds) first p inv le k =
      let (q, e, h, k') = step p first inv (omega arith) k in
      let (r, e', h', k'') = for_range-SetsRange rounds (suc first) q h.inv (omega arith) k' in
      let end : suc first + rounds ≡ first + suc rounds = omega arith in
      (
        r,
        rw e e',
        SetsRange-join (omega arith) (omega arith) h
            (subst (λ l. SetsRange q (suc first) l v r) end h'),
        k'',
      )
