-- ===== src/Pmm/Alloc.antt =====
-- `allocate`: what it takes, and when it gives up.
pub mod Search
pub mod Laws
pub mod Frame
use orin_os.Prelude.{
  ℕ, zero, suc, ◌+◌, ◌-◌, ◌*◌, ◌%◌, ◌^◌, ◌≤◌, ◌<◌, min, max, ◌≡◌, refl, sym, ap, subst, ◌∙◌, ◌≢◌,
  ◌⊎◌, inl, inr, Bool, true, false, not, List, Option, none, some, arith, length, ok, ◌>>=◌,
  checked, checked-ok, checked_sub-ok, for_range, ltb, lt→ltb, ge→ltb, ◌==◌, ℕ_discrete, dec_lt,
  Option-cases, Outcome,
}
use orin_os.Bitmap.{bit_clear, next_free, next_free_run}
use orin_os.Bitmap.Frames.{
  frame, frame-lt, frame_above, IsWords, Updates, bit_clear_lem, cleared-Updates, cleared,
}
use orin_os.Bitmap.Scan.{IsFirst, next_free-IsFirst}
use orin_os.Bitmap.Run.{IsRun, IsFirstRun, next_free_run-IsFirstRun}
use orin_os.Pmm.{Pmm, find, take_frames, allocate, max_frames}
use orin_os.Pmm.Count.{Inv, in_map, count, count-Updates, free_frames-le, count_none}

-- The frames from `s` on, `n` of them, are taken out of the map, and no other changes.
record Clears (map : List ℕ) (s n : ℕ) (map' : List ℕ) : Type 0 where
  same_length : length map' ≡ length map
  words : IsWords map'
  gone : (j : ℕ) → s ≤ j → j < s + n → frame map' j ≡ 0
  other : (j : ℕ) → (j < s) ⊎ (s + n ≤ j) → frame map' j ≡ frame map j
  counted : count map' max_frames + n ≡ count map max_frames

IsRun-at : (map : List ℕ) (n s j : ℕ) → IsRun map n s → s ≤ j → j < s + n → frame map j ≡ 1
IsRun-at map n s j run lo hi =
    let e : j ≡ s + (j - s) = omega arith in ap (frame map) e ∙ run (j - s) (omega arith)

clear_loop :
    (rounds start i : ℕ) (map : List ℕ)
    → IsWords map
    → max_frames ≤ 64 * length map
    → start + i + rounds ≤ max_frames
    → IsRun map rounds (start + i)
    → (map' : List ℕ) × (for_range rounds i (λ k m. bit_clear m (start + k)) map ≡ ok map')
      × Clears map (start + i) rounds map'
unfolding for_range
clear_loop zero start i map words fits le run = (
  map,
  refl,
  record {
    same_length = refl;
    words = words;
    gone = λ j lo hi. absurd (omega arith);
    other = λ j _. refl;
    counted = omega arith;
  },
)
clear_loop (suc rounds) start i map words fits le run =
    let inside : start + i < 64 * length map = omega arith in
    let u = cleared-Updates map (start + i) inside words in
    let map₁ = cleared map (start + i) inside words in
    let (map', e, c) =
      clear_loop rounds start (suc i) map₁ u.words (omega (arith, u.same_length)) (omega arith)
        (λ k lt.
          u.off (start + suc i + k) (λ q. absurd (omega arith))
          ∙ IsRun-at map (suc rounds) (start + i) (start + suc i + k) run (omega arith)
              (omega arith)) in
    let here = IsRun-at map (suc rounds) (start + i) (start + i) run (omega arith) (omega arith) in
    (
      map',
      rw (bit_clear_lem map (start + i) inside words) e,
      record {
        same_length = c.same_length ∙ u.same_length;
        words = c.words;
        gone = λ j lo hi. elim (ℕ_discrete j (start + i)) [
          | yes q ↦ c.other j (inl (omega arith)) ∙ ap (frame map₁) q ∙ u.at
          | no ne ↦ c.gone j (omega arith) (omega arith)
        ];
        other = λ j out. c.other j (omega arith) ∙ u.off j (λ q. absurd (omega arith));
        counted = omega (arith, c.counted, count-Updates max_frames u (omega arith), here);
      },
    )

-- `q` is `p` with the `n` free frames from `s` on taken: they were free, they no longer are, no
-- other frame changes, the counters follow and the next search starts behind them.
pub record Takes (p : Pmm) (n s : ℕ) (q : Pmm) : Type 0 where
  pub inv : Inv q
  pub within : s + n ≤ max_frames
  pub run : IsRun p.bitmap n s
  pub gone : (j : ℕ) → s ≤ j → j < s + n → frame q.bitmap j ≡ 0
  pub other : (j : ℕ) → (j < s) ⊎ (s + n ≤ j) → frame q.bitmap j ≡ frame p.bitmap j
  pub free : q.free_frames + n ≡ p.free_frames
  pub reserved : q.reserved_frames ≡ p.reserved_frames
  pub total : q.total_frames ≡ p.total_frames
  pub ready : q.initialised ≡ p.initialised
  pub next : q.cursor ≡ s + n

pub take_frames-Takes :
    (p : Pmm) (n s : ℕ)
    → Inv p
    → s + n ≤ max_frames
    → IsRun p.bitmap n s
    → (q : Pmm) × (take_frames p s n ≡ ok q) × Takes p n s q
unfolding take_frames
take_frames-Takes p n s inv le run =
    let start : s + 0 ≡ s = omega arith in
    let (map, e, c₀) =
      clear_loop n s 0 p.bitmap inv.words (in_map inv) (omega arith)
        (subst (IsRun p.bitmap n) (sym start) run) in
    let c : Clears p.bitmap s n map = subst (λ t. Clears p.bitmap t n map) start c₀ in
    let left = p.free_frames - n in
    (
      record p { bitmap = map; free_frames = left; cursor = s + n },
      rw
          (
            e,
            checked_sub-ok p.free_frames n (omega (arith, inv.counted, c.counted)),
            checked-ok (s + n) (omega arith),
          )
          refl,
      record {
        inv = record {
          size = c.same_length ∙ inv.size;
          words = c.words;
          counted = omega (arith, inv.counted, c.counted);
        };
        within = le;
        run = run;
        gone = c.gone;
        other = c.other;
        free = omega (arith, inv.counted, c.counted);
        reserved = refl;
        total = refl;
        ready = refl;
        next = refl;
      },
    )
