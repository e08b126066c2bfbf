-- ===== src/Pmm/Alloc/Laws.antt =====
-- `allocate`, `allocate_frame` and `allocate_contiguous` on every branch.
use orin_os.Prelude.{
  ℕ, ◌+◌, ◌^◌, ◌≤◌, ◌<◌, max, ◌≡◌, refl, ◌⊎◌, inl, inr, true, Option, none, some, arith, ok, ◌>>=◌,
  lt→ltb, ge→ltb, ℕ_discrete, dec_lt,
}
use orin_os.Pmm.{Pmm, find, take_frames, allocate, max_frames}
use orin_os.Pmm.Count.{Inv}
use orin_os.Pmm.Alloc.{take_frames-Takes}
use orin_os.Pmm.Alloc.Search.{Searched, find-Searched, Allocated, from_of, kept_align}

module _ (p : Pmm) (inv : Inv p) (ready : p.initialised ≡ true) (n align : ℕ) (pos : 0 < n)
    (room : max_frames + n + max align 1 < 2 ^ 64) where
  taken :
      (s from limit : ℕ)
      → Searched p.bitmap from limit n (kept_align n align) (some s)
      → (from_of p ≤ s) ⊎ (s + n ≤ from_of p)
      → (r : Pmm × Option ℕ) × ((take_frames p s n >>= λ q. ok (q, some s)) ≡ ok r)
        × Allocated p n align r
  taken s from limit h side =
      let (q, e, t) = take_frames-Takes p n s inv h.2 h.3 in
      ((q, some s), rw e refl, (t, h.1, side))

  -- What the second search finds ends by the cursor.
  before :
      (s : ℕ)
      → Searched p.bitmap (from_of p) max_frames n (kept_align n align) none
      → Searched p.bitmap 0 (from_of p) n (kept_align n align) (some s)
      → s + n ≤ from_of p
  before s ahead h = elim (ℕ_discrete n 1) [
    | no ne ↦ h.4 ne
    | yes e ↦ elim (dec_lt s (from_of p)) [
      | yes lt ↦ omega arith
      | no ge ↦ absurd (ahead s (omega arith) h.1 h.2 h.3)
    ]
  ]

  -- The second search, after a first that found nothing.
  retried :
      (r : Option ℕ)
      → Searched p.bitmap (from_of p) max_frames n (kept_align n align) none
      → find p.bitmap (from_of p) max_frames n align ≡ ok none
      → find p.bitmap 0 (from_of p) n align ≡ ok r
      → Searched p.bitmap 0 (from_of p) n (kept_align n align) r
      → 0 < from_of p
      → (r : Pmm × Option ℕ) × (allocate p n align ≡ ok r) × Allocated p n align r
  unfolding allocate
  retried none ahead e e' h lt =
      ((p, none), simp (ready, e, lt→ltb 0 (from_of p) lt, e'), (refl, ahead, h))
  retried (some s) ahead e e' h lt =
      let (r, t, a) = taken s 0 (from_of p) h (inr (before s ahead h)) in
      (r, simp (ready, e, lt→ltb 0 (from_of p) lt, e') t, a)

  searched :
      (r : Option ℕ)
      → find p.bitmap (from_of p) max_frames n align ≡ ok r
      → Searched p.bitmap (from_of p) max_frames n (kept_align n align) r
      → (r : Pmm × Option ℕ) × (allocate p n align ≡ ok r) × Allocated p n align r
  unfolding allocate
  searched (some s) e h =
      let (r, t, a) = taken s (from_of p) max_frames h (inl h.0) in (r, simp (ready, e) t, a)
  searched none e h = elim (dec_lt 0 (from_of p)) [
    | yes lt ↦
        let (r, e', h') =
          find-Searched p inv 0 (from_of p) (omega arith) (omega arith) n align pos room in
        retried r h e e' h' lt
    | no at_start ↦ (
      (p, none),
      simp (ready, e, ge→ltb 0 (from_of p) (omega arith)),
      (refl, h, λ s lo al fits run. omega arith),
    )
  ]

  -- On a consistent, initialised allocator, for a positive count and with room in the index
  -- arithmetic, allocate returns. It takes a run of free frames on one side of the cursor, which
  -- begins at a multiple of the alignment (0 counts as 1) if the count is above 1 and anywhere if
  -- it is 1, changes no other frame, keeps the free-frame count exact and moves the cursor behind
  -- the run; or it changes nothing, and then no such run begins at or after the cursor and none
  -- ends at or before it.
  pub allocate-Allocated :
      (r : Pmm × Option ℕ) × (allocate p n align ≡ ok r) × Allocated p n align r
  allocate-Allocated =
      let (r, e, h) =
        find-Searched p inv (from_of p) max_frames (omega arith) (omega arith) n align pos room in
      searched r e h
