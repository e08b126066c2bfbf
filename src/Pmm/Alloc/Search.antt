-- ===== src/Pmm/Alloc/Search.antt =====
-- The two searches of `allocate`, from the cursor and then from the start.
use native.Mathlib.Nat.{mod-one}
use orin_os.Prelude.{
  ℕ, ◌+◌, ◌%◌, ◌^◌, ◌≤◌, ◌<◌, min, max, ◌≡◌, refl, sym, ap, subst, ◌∙◌, ◌≢◌, ◌⊎◌, false, List,
  Option, none, some, arith, ok, ◌==◌, ℕ_discrete, dec_lt, if◌then◌else◌,
}
use orin_os.Bitmap.Frames.{frame, frame_above}
use orin_os.Bitmap.Scan.{IsFirst, next_free-IsFirst}
use orin_os.Bitmap.Run.{IsRun, IsFirstRun, next_free_run-IsFirstRun}
use orin_os.Pmm.{Pmm, find, max_frames}
use orin_os.Pmm.Count.{Inv}
use orin_os.Pmm.Alloc.{Takes}

-- The alignment that a search keeps to: a single frame is taken wherever it is free.
abbrev pub kept_align : ℕ → ℕ → ℕ
kept_align n align = if n == 1 then 1 else max align 1

-- A search returns an aligned run, or shows that there is none in its part of the map.
abbrev pub Searched : List ℕ → ℕ → ℕ → ℕ → ℕ → Option ℕ → Type 0
Searched map from limit n a none = (s : ℕ) → from ≤ s → s % a ≡ 0 → s + n ≤ limit → ¬ IsRun map n s
Searched map from limit n a (some s) =
    (from ≤ s) × (s % a ≡ 0) × (s + n ≤ max_frames) × IsRun map n s × (n ≢ 1 → s + n ≤ limit)

module _ (p : Pmm) (inv : Inv p) (from limit : ℕ) (start_in : from ≤ limit)
    (limit_in : limit ≤ max_frames) where
  one-Searched : (r : Option ℕ) → IsFirst p.bitmap from limit r → Searched p.bitmap from limit 1 1 r
  one-Searched none h = λ s lo al fits run.
      let e : s + 0 ≡ s = omega arith in
      let one = ap (frame p.bitmap) (sym e) ∙ run 0 (omega arith) in
      omega (arith, one, h s lo (omega arith))
  one-Searched (some s) h = (
    h.0,
    mod-one s,
    elim (dec_lt s max_frames) [
      | yes lt ↦ omega arith
      | no ge ↦ absurd (omega (arith, h.1, frame_above p.bitmap s (omega (arith, inv.size))))
    ],
    λ i lt. ap (frame p.bitmap) (let e : s + i ≡ s = omega arith in e) ∙ h.1,
    λ ne. absurd (ne refl),
  )

  run-Searched :
      (n a : ℕ) (r : Option ℕ)
      → IsFirstRun p.bitmap from limit n a r
      → Searched p.bitmap from limit n a r
  run-Searched n a none h = h
  run-Searched n a (some s) h = (h.0, h.1, omega (arith, h.2), h.3, λ _. h.2)

  pub find-Searched :
      (n align : ℕ)
      → 0 < n
      → max_frames + n + max align 1 < 2 ^ 64
      → (r : Option ℕ) × (find p.bitmap from limit n align ≡ ok r)
        × Searched p.bitmap from limit n (kept_align n align) r
  unfolding find
  find-Searched n align pos room = elim (ℕ_discrete n 1) [
    | yes e ↦
        let (r, found, first) =
          next_free-IsFirst p.bitmap inv.words from limit (omega (arith, inv.size)) in
        subst
          (λ m.
            (r : Option ℕ) × (find p.bitmap from limit m align ≡ ok r)
            × Searched p.bitmap from limit m (kept_align m align) r)
          (sym e) (r, found, one-Searched r first)
    | no ne ↦
        let other : (n == 1) ≡ false = ground arith in
        let (r, found, first) =
          next_free_run-IsFirstRun p.bitmap inv.words from limit n align (omega (arith, inv.size))
            start_in (omega arith) pos in
        (r, rw other found, rw other (run-Searched n (max align 1) r first))
  ]

-- Where the search begins.
abbrev pub from_of : Pmm → ℕ
from_of p = min p.cursor max_frames

-- `allocate` takes an aligned run of free frames on one side of the cursor, and nothing else; or it leaves the allocator as it
-- was, and there is no such run from the cursor on, nor one that ends by the cursor.
abbrev pub Allocated : Pmm → ℕ → ℕ → Pmm × Option ℕ → Type 0
Allocated p n align (q, none) =
    (q ≡ p)
    × Searched p.bitmap (from_of p) max_frames n (kept_align n align) none
    × Searched p.bitmap 0 (from_of p) n (kept_align n align) none
Allocated p n align (q, some s) =
    Takes p n s q × (s % kept_align n align ≡ 0) × ((from_of p ≤ s) ⊎ (s + n ≤ from_of p))
