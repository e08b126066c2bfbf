-- ===== src/Pmm/Alloc/Frame.antt =====
-- Single frames, and two defects of the search for runs.
use orin_os.Prelude.{
  ℕ, ◌+◌, ◌*◌, ◌^◌, ◌<◌, max, ◌≡◌, refl, sym, ap, subst, ◌∙◌, ◌≢◌, true, Option, none, some, arith,
  ok, ok-injective, dec_lt,
}
use orin_os.Bitmap.Frames.{frame, frame-lt}
use orin_os.Bitmap.Run.{IsRun}
use orin_os.Pmm.{Pmm, find, allocate, allocate_frame, allocate_contiguous, max_frames}
use orin_os.Pmm.Count.{Inv, count_none}
use orin_os.Pmm.Alloc.{Takes}
use orin_os.Pmm.Alloc.Search.{Searched, Allocated, from_of}
use orin_os.Pmm.Alloc.Laws.{allocate-Allocated}

-- A free frame is taken and its address returned; or nothing changes and no frame is free.
abbrev pub AllocatedFrame : Pmm → Pmm × Option ℕ → Type 0
AllocatedFrame p (q, none) = (q ≡ p) × (p.free_frames ≡ 0)
AllocatedFrame p (q, some a) = (s : ℕ) × (a ≡ s * 4096) × Takes p 1 s q

no_frame :
    (p : Pmm)
    → Inv p
    → Searched p.bitmap (from_of p) max_frames 1 1 none
    → Searched p.bitmap 0 (from_of p) 1 1 none
    → p.free_frames ≡ 0
no_frame p inv ahead behind =
    inv.counted
    ∙ count_none p.bitmap max_frames λ j lt.
      let run : frame p.bitmap j ≡ 1 → IsRun p.bitmap 1 j =
        λ e i below. ap (frame p.bitmap) (let z : j + i ≡ j = omega arith in z) ∙ e in
      elim (dec_lt j (from_of p)) [
        | yes low ↦ omega (
          arith,
          frame-lt p.bitmap j,
          λ (e : frame p.bitmap j ≡ 1). behind j (omega arith) (omega arith) (omega arith) (run e),
        )
        | no high ↦ omega (
          arith,
          frame-lt p.bitmap j,
          λ (e : frame p.bitmap j ≡ 1). ahead j (omega arith) (omega arith) (omega arith) (run e),
        )
      ]

-- On a consistent, initialised allocator `allocate_frame` returns: it takes a free frame and
-- returns its address, and it returns `None` only if no frame is free, changing nothing then.
pub allocate_frame-AllocatedFrame :
    (p : Pmm)
    → Inv p
    → p.initialised ≡ true
    → (r : Pmm × Option ℕ) × (allocate_frame p ≡ ok r) × AllocatedFrame p r
allocate_frame-AllocatedFrame p inv ready =
    let (r, e, h) = allocate-Allocated p inv ready 1 1 (omega arith) (omega arith) in returned r e h
  where
    returned :
        (r : Pmm × Option ℕ)
        → allocate p 1 1 ≡ ok r
        → Allocated p 1 1 r
        → (r : Pmm × Option ℕ) × (allocate_frame p ≡ ok r) × AllocatedFrame p r
    returned (q, none) e h =
        ((q, none), unfold allocate_frame in rw e refl, (h.0, no_frame p inv h.1 h.2))
    returned (q, some s) e h =
        ((q, some (s * 4096)), unfold allocate_frame in rw e refl, (s, refl, h.0))

-- The same for a call that is known to have returned `r`.
pub allocate_frame_returned :
    (p : Pmm) (r : Pmm × Option ℕ)
    → Inv p
    → p.initialised ≡ true
    → allocate_frame p ≡ ok r
    → AllocatedFrame p r
allocate_frame_returned p r inv ready e =
    let (r', e', h) = allocate_frame-AllocatedFrame p inv ready in
    subst (AllocatedFrame p) (ok-injective (sym e' ∙ e)) h

-- Two allocations in a row never return the same frame.
pub allocate_frame_twice :
    (p q r : Pmm) (a b : ℕ)
    → Inv p
    → p.initialised ≡ true
    → allocate_frame p ≡ ok (q, some a)
    → allocate_frame q ≡ ok (r, some b)
    → a ≢ b
allocate_frame_twice p q r a b inv ready e e' same =
    let (s, ea, t) = allocate_frame_returned p (q, some a) inv ready e in
    let (s', eb, t') = allocate_frame_returned q (r, some b) t.inv (t.ready ∙ ready) e' in
    let one : frame q.bitmap s' ≡ 1 =
      ap (frame q.bitmap) (let z : s' ≡ s' + 0 = omega arith in z) ∙ t'.run 0 (omega arith) in
    omega (arith, one, t.gone s' (omega arith) (omega arith))

-- On a consistent, initialised allocator in which every run of n free frames begins before the
-- cursor and ends behind it, and with room in the index arithmetic (the number of frames, n and
-- the alignment together are below 2^64), a request for n frames returns None with the allocator
-- unchanged, although such a run exists.
pub allocate_misses_straddling :
    (p : Pmm) (n align s : ℕ)
    → Inv p
    → p.initialised ≡ true
    → max_frames + n + max align 1 < 2 ^ 64
    → 0 < n
    → IsRun p.bitmap n s
    → ((t : ℕ) → IsRun p.bitmap n t → (t < p.cursor) × (p.cursor < t + n))
    → allocate p n align ≡ ok (p, none)
allocate_misses_straddling p n align s inv ready room pos run across =
    let (r, e, h) = allocate-Allocated p inv ready n align pos room in refused r e h
  where
    refused :
        (r : Pmm × Option ℕ)
        → allocate p n align ≡ ok r
        → Allocated p n align r
        → allocate p n align ≡ ok (p, none)
    refused (q, none) e h = e ∙ ap (λ (t : Pmm). ok (t, none)) h.0
    refused (q, some t) e h = absurd (omega (arith, across t h.0.run, h.0.within, h.2))

-- A request for one frame ignores its alignment: it is the request for any free frame.
pub allocate_contiguous_one :
    (p : Pmm) (align : ℕ) → allocate_contiguous p 1 align ≡ allocate_frame p
unfolding allocate_contiguous allocate_frame allocate find
allocate_contiguous_one p align = refl
