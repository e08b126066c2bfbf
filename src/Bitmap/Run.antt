-- ===== src/Bitmap/Run.antt =====
-- `next_free_run` finds the first aligned run of free frames.
use native.Mathlib.Nat.{div-add-mod', mul-mod_left, add-mod_right, lt-div-mul-add, div-mul-le_self}
use orin_os.Prelude.{
  ℕ, zero, suc, ◌+◌, ◌-◌, ◌*◌, ◌/◌, ◌%◌, ◌^◌, ◌≤◌, ◌<◌, max, ◌≡◌, refl, sym, ap, subst, ◌∙◌, ◌↔◌,
  inl, inr, Bool, true, false, List, Option, none, some, ok, length, ◌==◌, arith, ℕ_discrete,
  dec_lt, checked-ok, le→leb, lt→leb, Bool-cases,
}
use mathlib.Core.Bool.{false≢true}
use orin_os.Bitmap.{all_free, scan_runs, next_free_run}
use orin_os.Bitmap.Frames.{frame, frame-lt, IsWords, bit_test_lem}

-- The `count` frames from `start` on are free.
abbrev pub IsRun : List ℕ → ℕ → ℕ → Type 0
IsRun map count start = (i : ℕ) → i < count → frame map (start + i) ≡ 1

-- `r` is the first aligned start, from `from` on, of a run of `count` free frames below `limit`.
abbrev pub IsFirstRun : List ℕ → ℕ → ℕ → ℕ → ℕ → Option ℕ → Type 0
IsFirstRun map from limit count align none =
    (s : ℕ) → from ≤ s → s % align ≡ 0 → s + count ≤ limit → ¬ IsRun map count s
IsFirstRun map from limit count align (some r) =
    (from ≤ r)
    × (r % align ≡ 0)
    × (r + count ≤ limit)
    × IsRun map count r
    × ((s : ℕ) → from ≤ s → s < r → s % align ≡ 0 → ¬ IsRun map count s)

IsRun-suc :
    (map : List ℕ) (count start : ℕ)
    → frame map start ≡ 1
    → IsRun map count (start + 1)
    → IsRun map (suc count) start
IsRun-suc map count start h rest zero lt =
    ap (frame map) (let e : start + 0 ≡ start = omega arith in e) ∙ h
IsRun-suc map count start h rest (suc i) lt =
    ap (frame map) (let e : start + suc i ≡ start + 1 + i = omega arith in e) ∙ rest i (omega arith)

IsRun-tail :
    (map : List ℕ) (count start : ℕ) → IsRun map (suc count) start → IsRun map count (start + 1)
IsRun-tail map count start h i lt =
    ap (frame map) (let e : start + 1 + i ≡ start + suc i = omega arith in e)
    ∙ h (suc i) (omega arith)

IsRun-head : (map : List ℕ) (count start : ℕ) → IsRun map (suc count) start → frame map start ≡ 1
IsRun-head map count start h =
    ap (frame map) (let e : start ≡ start + 0 = omega arith in e) ∙ h 0 (omega arith)

module _ (map : List ℕ) (words : IsWords map) where
  all_free_lem :
      (left idx : ℕ)
      → idx + left ≤ 64 * length map
      → (b : Bool) × (all_free left map idx ≡ ok b) × ((b ≡ true) ↔ IsRun map left idx)
  unfolding all_free
  all_free_lem zero idx fits = (true, refl, (λ _ i lt. absurd (omega arith), λ _. refl))
  all_free_lem (suc left) idx fits =
      let (b, e, spec) = all_free_lem left (idx + 1) (omega arith) in
      let test = bit_test_lem map idx (omega arith) words in
      elim (ℕ_discrete (frame map idx) 1) [
        | yes free ↦ (
          b,
          rw (test, e) (ground arith),
          (
            λ t. IsRun-suc map left idx free (spec.0 t),
            λ run. spec.1 (IsRun-tail map left idx run),
          ),
        )
        | no taken ↦ (
          false,
          rw test (ground (arith, frame-lt map idx)),
          (λ t. cc, λ run. absurd (taken (IsRun-head map left idx run))),
        )
      ]

-- After an aligned start the next one is `align` further on.
next_aligned :
    (start align : ℕ) → 0 < align → start % align ≡ 0 → (start / align + 1) * align ≡ start + align
next_aligned start align pos al = omega (arith, div-add-mod' start align)

aligned_gap :
    (start s align : ℕ)
    → 0 < align
    → start % align ≡ 0
    → s % align ≡ 0
    → start < s
    → start + align ≤ s
aligned_gap start s align pos al als lt =
    grind (arith, div-add-mod' start align, div-add-mod' s align)

module _ (map : List ℕ) (words : IsWords map) (count align limit : ℕ) (some_frame : 0 < count)
    (some_align : 0 < align) (in_map : limit ≤ 64 * length map)
    (room : limit + count + align < 2 ^ 64) where
  scan_runs_end :
      (k start : ℕ)
      → start ≤ limit + align
      → limit < start + count
      → scan_runs (suc k) map limit count align start ≡ ok none
  unfolding scan_runs
  scan_runs_end k start le over =
      rw (checked-ok (start + count) (omega arith), lt→leb (start + count) limit over) refl

  module _ (k start : ℕ) (fits : start + count ≤ limit) where
    count_back : start + 1 + (count - 1) ≤ 64 * length map
    count_back = omega arith

    IsRun-split : frame map start ≡ 1 → IsRun map (count - 1) (start + 1) → IsRun map count start
    IsRun-split h rest =
        let e : suc (count - 1) ≡ count = omega arith in
        subst (λ c. IsRun map c start) e (IsRun-suc map (count - 1) start h rest)

    scan_runs_found :
        IsRun map count start → scan_runs (suc k) map limit count align start ≡ ok (some start)
    unfolding scan_runs
    scan_runs_found run =
        let e : count ≡ suc (count - 1) = omega arith in
        let run' : IsRun map (suc (count - 1)) start = subst (λ c. IsRun map c start) e run in
        let (b, found, spec) = all_free_lem map words (count - 1) (start + 1) count_back in
        rw
          (
            checked-ok (start + count) (omega arith),
            le→leb (start + count) limit fits,
            bit_test_lem map start (omega arith) words,
            IsRun-head map (count - 1) start run',
            found,
            spec.1 (IsRun-tail map (count - 1) start run'),
          )
          refl

    scan_runs_next :
        ¬ IsRun map count start
        → start % align ≡ 0
        → scan_runs (suc k) map limit count align start
          ≡ scan_runs k map limit count align (start + align)
    unfolding scan_runs
    scan_runs_next no_run al =
        let (b, found, spec) = all_free_lem map words (count - 1) (start + 1) count_back in
        let next = next_aligned start align some_align al in
        elim (ℕ_discrete (frame map start) 1) [
          | no taken ↦
              let zeroed : frame map start ≡ 0 = omega (arith, frame-lt map start) in
              rw
                (
                  checked-ok (start + count) (omega arith),
                  le→leb (start + count) limit fits,
                  bit_test_lem map start (omega arith) words,
                  zeroed,
                  next,
                  checked-ok (start + align) (omega arith),
                )
                refl
          | yes free ↦ elim (Bool-cases b) [
            | inl t ↦ absurd (no_run (IsRun-split free (spec.0 t)))
            | inr f ↦
                rw
                  (
                    checked-ok (start + count) (omega arith),
                    le→leb (start + count) limit fits,
                    bit_test_lem map start (omega arith) words,
                    free,
                    found,
                    f,
                    next,
                    checked-ok (start + align) (omega arith),
                  )
                  refl
          ]
        ]

  -- A start that is no run is left behind with all that is not aligned.
  IsFirstRun-back :
      (r : Option ℕ) (start : ℕ)
      → start % align ≡ 0
      → ¬ IsRun map count start
      → IsFirstRun map (start + align) limit count align r
      → IsFirstRun map start limit count align r
  IsFirstRun-back none start al no_run h = λ s lo als fits run. elim (ℕ_discrete s start) [
    | yes e ↦ no_run (subst (IsRun map count) e run)
    | no ne ↦ h s (aligned_gap start s align some_align al als (omega arith)) als fits run
  ]
  IsFirstRun-back (some r) start al no_run h = (
    omega arith,
    h.1,
    h.2,
    h.3,
    λ s lo lt als run. elim (ℕ_discrete s start) [
      | yes e ↦ no_run (subst (IsRun map count) e run)
      | no ne ↦ h.4 s (aligned_gap start s align some_align al als (omega arith)) lt als run
    ],
  )

  -- Whether a run starts here is decided by the same scan.
  IsRun_dec : (start : ℕ) → start + count ≤ limit → Dec (IsRun map count start)
  IsRun_dec start fits =
      let (b, e, spec) = all_free_lem map words count start (omega arith) in
      elim (Bool-cases b) [
        | inl t ↦ yes (spec.0 t)
        | inr f ↦ no (λ run. false≢true (sym f ∙ spec.1 run))
      ]

  -- With fuel for each start up to `limit`.
  scan_runs-IsFirstRun :
      (k start : ℕ)
      → start % align ≡ 0
      → start ≤ limit + align
      → limit ≤ start + k
      → (r : Option ℕ) × (scan_runs (suc k) map limit count align start ≡ ok r)
        × IsFirstRun map start limit count align r
  scan_runs-IsFirstRun zero start al le fuel =
      (none, scan_runs_end zero start le (omega arith), λ s lo als fits run. absurd (omega arith))
  scan_runs-IsFirstRun (suc k) start al le fuel = elim (dec_lt limit (start + count)) [
    | yes over ↦
        (none, scan_runs_end (suc k) start le over, λ s lo als fits run. absurd (omega arith))
    | no within ↦ elim (IsRun_dec start (omega arith)) [
      | yes run ↦ (
        some start,
        scan_runs_found (suc k) start (omega arith) run,
        (omega arith, al, omega arith, run, λ s lo lt als _. absurd (omega arith)),
      )
      | no no_run ↦
          let (r, e, first) =
            scan_runs-IsFirstRun k (start + align) (add-mod_right start align ∙ al) (omega arith)
              (omega arith) in
          (
            r,
            scan_runs_next (suc k) start (omega arith) no_run al ∙ e,
            IsFirstRun-back r start al no_run first,
          )
    ]
  ]

-- The first aligned number that is not below `from`.
round_up : (from align : ℕ) → ℕ
round_up from align = (from + align - 1) / align * align

round_up_least : (from align s : ℕ) → 0 < align → from ≤ s → s % align ≡ 0 → round_up from align ≤ s
unfolding round_up
round_up_least from align s pos lo al = elim (dec_lt s (round_up from align)) [
  | no h ↦ omega arith
  | yes h ↦
      let gap = aligned_gap s (round_up from align) align pos al (mul-mod_left _ align) h in
      absurd (omega (arith, gap, div-mul-le_self (from + align - 1) align))
]

round_up_bounds :
    (from align : ℕ)
    → 0 < align
    → (from ≤ round_up from align) × (round_up from align < from + align)
unfolding round_up
round_up_bounds from align pos = (
  omega (arith, lt-div-mul-add {a = from + align - 1} {b = align} pos),
  omega (arith, div-mul-le_self (from + align - 1) align),
)

module _ (map : List ℕ) (words : IsWords map) (from limit count align : ℕ)
    (in_map : limit ≤ 64 * length map) (start_in : from ≤ limit)
    (room : limit + count + max align 1 < 2 ^ 64) where
  some_count : 0 < count → (count == 0) ≡ false
  some_count pos = ground arith

  -- From the first aligned number on is from `from` on.
  IsFirstRun-from :
      (r : Option ℕ) (start : ℕ)
      → from ≤ start
      → ((s : ℕ) → from ≤ s → s % max align 1 ≡ 0 → start ≤ s)
      → IsFirstRun map start limit count (max align 1) r
      → IsFirstRun map from limit count (max align 1) r
  IsFirstRun-from none start le up h = λ s lo als fits run. h s (up s lo als) als fits run
  IsFirstRun-from (some r) start le up h =
      (omega arith, h.1, h.2, h.3, λ s lo lt als run. h.4 s (up s lo als) lt als run)

  -- With room in the address arithmetic and a map that reaches up to `limit`, `next_free_run` does
  -- not panic; for a positive count it returns the first aligned start, from `from` on, of a run of
  -- free frames that ends by `limit`, and `None` only if there is no such run.
  pub next_free_run-IsFirstRun :
      0 < count
      → (r : Option ℕ) × (next_free_run map from limit count align ≡ ok r)
        × IsFirstRun map from limit count (max align 1) r
  unfolding next_free_run round_up
  next_free_run-IsFirstRun pos =
      let align' = max align 1 in
      let pos' : 0 < align' = omega arith in
      let start = round_up from align' in
      let bounds = round_up_bounds from align' pos' in
      let fuel : limit + 1 ≡ suc limit = omega arith in
      let (r, e, first) =
        scan_runs-IsFirstRun map words count align' limit pos pos' in_map room limit start
          (mul-mod_left _ align') (omega arith) (omega arith) in
      (
        r,
        rw (some_count pos, checked-ok (from + align') (omega arith), fuel) e,
        IsFirstRun-from r start bounds.0 (λ s lo als. round_up_least from align' s pos' lo als)
            first,
      )
