-- ===== src/Pmm/Dealloc.antt =====
-- `deallocate`: what it gives back, what it refuses, and what its canary refuses by mistake.
use orin_os.Prelude.{
  ℕ, ◌+◌, ◌*◌, ◌/◌, ◌≤◌, ◌<◌, ◌≡◌, refl, sym, ap, subst, ◌∙◌, ◌≢◌, ◌⊎◌, inl, inr, Bool, true, false,
  some, arith, ok, ok-injective, ok-ne-panic, panic, explicit, checked-ok, lt→leb, le→leb,
  ℕ_discrete, dec_lt, if◌then◌else◌, length,
}
use orin_os.Bitmap.Frames.{frame, frame-lt, bit_test_lem, bit_set_lem, raised-Updates, raised}
use orin_os.Pmm.{Pmm, Mem, store, canary_ok, deallocate, allocate_frame, free_canary, max_frames}
use orin_os.Pmm.Count.{Inv, free_frames-le}
use orin_os.Pmm.Ranges.{KeepsRest, Updates-Inv}
use orin_os.Pmm.Alloc.Frame.{allocate_frame_returned}

-- The word at `phys` is the canary of a freed frame, and it is looked at.
abbrev pub Poisoned : Bool → Mem → ℕ → Type 0
Poisoned debug mem phys = (debug ≡ true) × (mem phys ≡ free_canary)

-- The frame at `phys` becomes free, and no other changes; in a debug build its word is the canary.
pub record Releases (debug : Bool) (p : Pmm) (mem : Mem) (phys : ℕ) (q : Pmm) (mem' : Mem)
    : Type 0 where
  pub inv : Inv q
  pub freed : frame q.bitmap (phys / 4096) ≡ 1
  pub other : (j : ℕ) → j ≢ phys / 4096 → frame q.bitmap j ≡ frame p.bitmap j
  pub free : q.free_frames ≡ p.free_frames + 1
  pub reserved : q.reserved_frames ≡ p.reserved_frames
  pub rest : KeepsRest p q
  pub marked : mem' ≡ (if debug then store mem phys free_canary else mem)

module _ (debug : Bool) (p : Pmm) (mem : Mem) (phys : ℕ) (inv : Inv p)
    (managed : phys / 4096 < max_frames) where
  inside : phys / 4096 < 64 * length p.bitmap
  inside = omega (arith, inv.size)

  poisoned : Poisoned debug mem phys → canary_ok debug mem phys ≡ false
  unfolding canary_ok
  poisoned h = ground arith

  clean : ¬ Poisoned debug mem phys → canary_ok debug mem phys ≡ true
  unfolding canary_ok
  clean h = ground arith

  -- A managed frame that is not free and does not hold the canary is given back.
  pub deallocate-Releases :
      frame p.bitmap (phys / 4096) ≡ 0
      → ¬ Poisoned debug mem phys
      → (q : Pmm) × (mem' : Mem) × (deallocate debug p mem phys ≡ ok (q, mem'))
        × Releases debug p mem phys q mem'
  unfolding deallocate
  deallocate-Releases used h =
      let idx = phys / 4096 in
      let u = raised-Updates p.bitmap idx inside inv.words in
      let map = raised p.bitmap idx inside inv.words in
      let q : Pmm = record p { bitmap = map; free_frames = p.free_frames + 1 } in
      (
        q,
        if debug then store mem phys free_canary else mem,
        simp (
          lt→leb max_frames idx managed,
          bit_test_lem p.bitmap idx inside inv.words,
          used,
          clean h,
          bit_set_lem p.bitmap idx inside inv.words,
          checked-ok (p.free_frames + 1) (omega (arith, free_frames-le inv)),
        ),
        record {
          inv = Updates-Inv p q idx 1 inv managed u (omega arith);
          freed = u.at;
          other = u.off;
          free = refl;
          reserved = refl;
          rest = record { total = refl; bad = refl; unmapped = refl; ready = refl; place = refl };
          marked = refl;
        },
      )

  refused_free : frame p.bitmap (phys / 4096) ≡ 1 → deallocate debug p mem phys ≡ panic explicit
  unfolding deallocate
  refused_free e = simp (
    lt→leb max_frames (phys / 4096) managed,
    bit_test_lem p.bitmap (phys / 4096) inside inv.words,
    e,
  )

  refused_canary :
      frame p.bitmap (phys / 4096) ≡ 0
      → Poisoned debug mem phys
      → deallocate debug p mem phys ≡ panic explicit
  unfolding deallocate
  refused_canary e h = simp (
    lt→leb max_frames (phys / 4096) managed,
    bit_test_lem p.bitmap (phys / 4096) inside inv.words,
    e,
    poisoned h,
  )

-- `deallocate` panics on a frame outside the managed range, on one that is free already, and on one
-- whose first word is the canary in a debug build.
pub deallocate_refuses :
    (debug : Bool) (p : Pmm) (mem : Mem) (phys : ℕ)
    → Inv p
    → (max_frames ≤ phys / 4096) ⊎ (frame p.bitmap (phys / 4096) ≡ 1) ⊎ Poisoned debug mem phys
    → deallocate debug p mem phys ≡ panic explicit
deallocate_refuses debug p mem phys inv why = elim (dec_lt (phys / 4096) max_frames) [
  | no out ↦ unfold deallocate in simp (le→leb max_frames (phys / 4096) (omega arith))
  | yes managed ↦ elim (ℕ_discrete (frame p.bitmap (phys / 4096)) 1) [
    | yes e ↦ refused_free debug p mem phys inv managed e
    | no ne ↦ elim why [
      | inl out ↦ absurd (omega arith)
      | inr (inl e) ↦ absurd (ne e)
      | inr (inr h) ↦
          refused_canary debug p mem phys inv managed
            (omega (arith, frame-lt p.bitmap (phys / 4096))) h
    ]
  ]
]

-- What a call that returned has done.
pub deallocate_returned :
    (debug : Bool) (p q : Pmm) (mem mem' : Mem) (phys : ℕ)
    → Inv p
    → deallocate debug p mem phys ≡ ok (q, mem')
    → (phys / 4096 < max_frames) × Releases debug p mem phys q mem'
deallocate_returned debug p q mem mem' phys inv e =
    let never : (max_frames ≤ phys / 4096)
          ⊎ (frame p.bitmap (phys / 4096) ≡ 1)
          ⊎ Poisoned debug mem phys
        → ⊥ =
      λ why. ok-ne-panic (sym e ∙ deallocate_refuses debug p mem phys inv why) in
    elim (dec_lt (phys / 4096) max_frames) [
      | no out ↦ absurd (never (inl (omega arith)))
      | yes managed ↦ elim (ℕ_discrete (frame p.bitmap (phys / 4096)) 1) [
        | yes taken ↦ absurd (never (inr (inl taken)))
        | no ne ↦
            let (q₀, mem₀, e₀, h) =
              deallocate-Releases debug p mem phys inv managed
                (omega (arith, frame-lt p.bitmap (phys / 4096))) (λ bad. never (inr (inr bad))) in
            let same : (q₀, mem₀) ≡ (q, mem') = ok-injective (sym e₀ ∙ e) in
            (managed, subst (λ (t : Pmm × Mem). Releases debug p mem phys t.0 t.1) same h)
      ]
    ]

-- A frame that was just allocated, and holds no canary, can be given back; the set of free frames
-- and their number are then what they were.
pub allocate-deallocate :
    (debug : Bool) (p q : Pmm) (mem : Mem) (a : ℕ)
    → Inv p
    → p.initialised ≡ true
    → allocate_frame p ≡ ok (q, some a)
    → ¬ Poisoned debug mem a
    → (r : Pmm) × (mem' : Mem) × (deallocate debug q mem a ≡ ok (r, mem'))
      × ((j : ℕ) → frame r.bitmap j ≡ frame p.bitmap j)
      × (r.free_frames ≡ p.free_frames)
allocate-deallocate debug p q mem a inv ready e clean =
    let (s, ea, t) = allocate_frame_returned p (q, some a) inv ready e in
    let idx : a / 4096 ≡ s = omega arith in
    let gone : frame q.bitmap (a / 4096) ≡ 0 =
      ap (frame q.bitmap) idx ∙ t.gone s (omega arith) (omega arith) in
    let was : frame p.bitmap (a / 4096) ≡ 1 =
      ap (frame p.bitmap) (let z : a / 4096 ≡ s + 0 = omega arith in z) ∙ t.run 0 (omega arith) in
    let (r, mem', e', h) =
      deallocate-Releases debug q mem a t.inv (omega (arith, t.within)) gone clean in
    (
      r,
      mem',
      e',
      λ j. elim (ℕ_discrete j (a / 4096)) [
        | yes q ↦ ap (frame r.bitmap) q ∙ h.freed ∙ sym was ∙ ap (frame p.bitmap) (sym q)
        | no ne ↦ h.other j ne ∙ t.other j (omega arith)
      ],
      omega (arith, h.free, t.free),
    )

-- The canary refuses frames that nobody misused: in a debug build a frame that was given back,
-- allocated again and never written to cannot be given back a second time.
pub deallocate_rejects_untouched :
    (p q r : Pmm) (mem mem' : Mem) (a : ℕ)
    → Inv p
    → q.initialised ≡ true
    → deallocate true p mem a ≡ ok (q, mem')
    → allocate_frame q ≡ ok (r, some a)
    → deallocate true r mem' a ≡ panic explicit
deallocate_rejects_untouched p q r mem mem' a inv ready e e' =
    let (managed, h) = deallocate_returned true p q mem mem' a inv e in
    let (s, ea, t) = allocate_frame_returned q (r, some a) h.inv ready e' in
    let marked : store mem a free_canary a ≡ free_canary = ground arith in
    let canary : mem' a ≡ free_canary = ap (λ (m : Mem). m a) h.marked ∙ marked in
    deallocate_refuses true r mem' a t.inv (inr (inr (refl, canary)))
