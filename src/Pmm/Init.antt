-- ===== src/Pmm/Init.antt =====
-- `init`: which frames the firmware's memory map makes free.
use orin_os.Prelude.{
  ℕ, ◌+◌, ◌-◌, ◌*◌, ◌/◌, ◌^◌, ◌≤◌, ◌<◌, min, ◌≡◌, refl, sym, subst, ◌∙◌, ◌⊎◌, inl, inr, true, false,
  List, [], ◌∷◌, arith, ok, ok-injective, panic, explicit, checked-ok, lt→ltb, ge→ltb, le→leb,
  lt→leb, ◌==◌, ℕ_discrete, dec_lt,
}
use orin_os.Bitmap.Frames.{frame}
use orin_os.Pmm.{
  Pmm, new, MmapEntry, add_region, add_regions, init, max_frames, max_phys, u64_max, available,
  bad_ram, frame_size,
}
use orin_os.Pmm.Count.{Inv, new-Inv, frame-new}
use orin_os.Pmm.Bytes.{free_range-Frees, Frees}

-- Frame `j` lies in an available region as a whole.
abbrev pub Covers : MmapEntry → ℕ → Type 0
Covers e j = (e.mem_type ≡ available) × (e.base ≤ j * 4096) × ((j + 1) * 4096 ≤ e.base + e.length)

abbrev pub AnyCovers : List MmapEntry → ℕ → Type 0
AnyCovers [] j = ⊥
AnyCovers (e ∷ es) j = Covers e j ⊎ AnyCovers es j

Covers_dec : (e : MmapEntry) (j : ℕ) → Dec (Covers e j)
Covers_dec e j = elim (ℕ_discrete e.mem_type available) [
  | no ne ↦ no (λ c. ne c.0)
  | yes ty ↦ elim (dec_lt (j * 4096) e.base) [
    | yes low ↦ no (λ c. omega arith)
    | no ge ↦ elim (dec_lt (e.base + e.length) ((j + 1) * 4096)) [
      | yes high ↦ no (λ c. omega arith)
      | no within ↦ yes (ty, omega arith, omega arith)
    ]
  ]
]

AnyCovers_dec : (es : List MmapEntry) (j : ℕ) → Dec (AnyCovers es j)
AnyCovers_dec [] j = no (λ c. c)
AnyCovers_dec (e ∷ es) j = elim (Covers_dec e j) [
  | yes c ↦ yes (inl c)
  | no nc ↦ elim (AnyCovers_dec es j) [
    | yes c ↦ yes (inr c)
    | no none ↦ no (elim [ inl c ↦ nc c | inr c ↦ none c ])
  ]
]

abbrev pub bytes : List MmapEntry → ℕ
bytes [] = 0
bytes (e ∷ es) = e.length + bytes es

-- `q` has the frames of `p` and those for which `C` holds, as far as they are managed.
pub record Adds (p : Pmm) (C : ℕ → Type 0) (room : ℕ) (q : Pmm) : Type 0 where
  pub inv : Inv q
  pub covered : (j : ℕ) → j < max_frames → C j → frame q.bitmap j ≡ 1
  pub other : (j : ℕ) → ¬ C j → frame q.bitmap j ≡ frame p.bitmap j
  pub reserved : q.reserved_frames ≡ p.reserved_frames
  pub ready : q.initialised ≡ p.initialised
  pub unmapped : q.unmapped_bytes ≤ p.unmapped_bytes + room
  pub bad : q.bad_frames ≤ p.bad_frames + room

module _ (p : Pmm) (e : MmapEntry) (inv : Inv p) (room : p.unmapped_bytes + e.length < 2 ^ 64)
    (room_bad : p.bad_frames + e.length < 2 ^ 64) where
  abbrev hi : ℕ
  hi = min (e.base + e.length) u64_max

  -- Nothing freed: only the two counters of unusable memory may grow.
  counters :
      (n m : ℕ)
      → n ≤ p.unmapped_bytes + e.length
      → m ≤ p.bad_frames + e.length
      → ((j : ℕ) → j < max_frames → ¬ Covers e j)
      → Adds p (Covers e) e.length (record p { unmapped_bytes = n; bad_frames = m })
  counters n m hn hm none = record {
    inv = record { size = inv.size; words = inv.words; counted = inv.counted };
    covered = λ j lt c. absurd (none j lt c);
    other = λ j _. refl;
    reserved = refl;
    ready = refl;
    unmapped = hn;
    bad = hm;
  }

  freed :
      (n : ℕ) (q : Pmm)
      → e.mem_type ≡ available
      → e.base < max_phys
      → n ≤ p.unmapped_bytes + e.length
      → Frees (record p { unmapped_bytes = n }) e.base (min hi max_phys) q
      → Adds p (Covers e) e.length q
  freed n q ty lo hn f = record {
    inv = f.inv;
    covered = λ j lt c. f.whole j lt (omega arith) (omega arith);
    other = λ j no_cover. elim (dec_lt j max_frames) [
      | no out ↦ f.other j (inl (omega arith))
      | yes lt ↦ elim (dec_lt (j * 4096) e.base) [
        | yes low ↦ f.other j (inr (inl low))
        | no ge ↦ elim (dec_lt (min hi max_phys) ((j + 1) * 4096)) [
          | yes high ↦ f.other j (inr (inr high))
          | no within ↦ absurd (no_cover (ty, omega arith, omega arith))
        ]
      ]
    ];
    reserved = f.reserved;
    ready = f.rest.ready;
    unmapped = omega (arith, f.rest.unmapped);
    bad = omega (arith, f.rest.bad);
  }

  add_region-Adds : (q : Pmm) × (add_region p e ≡ ok q) × Adds p (Covers e) e.length q
  unfolding add_region
  add_region-Adds = elim (ℕ_discrete e.mem_type available) [
    | no ne ↦
        let other : (e.mem_type == available) ≡ false = ground arith in
        elim (ℕ_discrete e.mem_type bad_ram) [
          | yes bad ↦
              let is_bad : (e.mem_type == bad_ram) ≡ true = ground arith in
              (
                _,
                simp (
                  other,
                  is_bad,
                  checked-ok (p.bad_frames + e.length / frame_size) (omega arith),
                ),
                counters p.unmapped_bytes (p.bad_frames + e.length / frame_size) (omega arith)
                    (omega arith) (λ j lt c. ne c.0),
              )
          | no good ↦
              let not_bad : (e.mem_type == bad_ram) ≡ false = ground arith in
              (
                _,
                simp (other, not_bad),
                counters p.unmapped_bytes p.bad_frames (omega arith) (omega arith)
                    (λ j lt c. ne c.0),
              )
        ]
    | yes ty ↦
        let is : (e.mem_type == available) ≡ true = ground arith in
        elim (dec_lt e.base max_phys) [
          | no above ↦ (
            _,
            simp (
              is,
              le→leb max_phys e.base (omega arith),
              checked-ok (p.unmapped_bytes + e.length) room,
            ),
            counters (p.unmapped_bytes + e.length) p.bad_frames (omega arith) (omega arith)
                (λ j lt c. omega arith),
          )
          | yes lo ↦ elim (dec_lt max_phys hi) [
            | yes over ↦
                let n = p.unmapped_bytes + (hi - max_phys) in
                let (q, f, h) =
                  free_range-Frees (record p { unmapped_bytes = n }) e.base (min hi max_phys)
                    (record { size = inv.size; words = inv.words; counted = inv.counted })
                    (omega arith) in
                (
                  q,
                  simp (
                    is,
                    lt→leb max_phys e.base lo,
                    lt→ltb max_phys hi over,
                    checked-ok n (omega arith),
                    f,
                  ),
                  freed n q ty lo (omega arith) h,
                )
            | no fits ↦
                let (q, f, h) = free_range-Frees p e.base (min hi max_phys) inv (omega arith) in
                (
                  q,
                  simp (is, lt→leb max_phys e.base lo, ge→ltb max_phys hi (omega arith), f),
                  freed p.unmapped_bytes q ty lo (omega arith) h,
                )
          ]
        ]
  ]

add_regions-Adds :
    (p : Pmm) (es : List MmapEntry)
    → Inv p
    → p.unmapped_bytes + bytes es < 2 ^ 64
    → p.bad_frames + bytes es < 2 ^ 64
    → (q : Pmm) × (add_regions p es ≡ ok q) × Adds p (AnyCovers es) (bytes es) q
unfolding add_regions
add_regions-Adds p [] inv hu hb = (
  p,
  refl,
  record {
    inv = inv;
    covered = λ j lt c. absurd c;
    other = λ j _. refl;
    reserved = refl;
    ready = refl;
    unmapped = omega arith;
    bad = omega arith;
  },
)
add_regions-Adds p (e ∷ es) inv hu hb =
    let (q, eq, h) = add_region-Adds p e inv (omega arith) (omega arith) in
    let (r, er, k) =
      add_regions-Adds q es h.inv (omega (arith, h.unmapped)) (omega (arith, h.bad)) in
    (
      r,
      rw eq er,
      record {
        inv = k.inv;
        covered = λ j lt c. covered_by q r j h k lt c;
        other = λ j none. k.other j (λ c. none (inr c)) ∙ h.other j (λ c. none (inl c));
        reserved = k.reserved ∙ h.reserved;
        ready = k.ready ∙ h.ready;
        unmapped = omega (arith, h.unmapped, k.unmapped);
        bad = omega (arith, h.bad, k.bad);
      },
    )
  where
    kept :
        (q r : Pmm) (j : ℕ)
        → Adds q (AnyCovers es) (bytes es) r
        → j < max_frames
        → frame q.bitmap j ≡ 1
        → frame r.bitmap j ≡ 1
    kept q r j k lt h = elim (AnyCovers_dec es j) [
      | yes c ↦ k.covered j lt c
      | no nc ↦ k.other j nc ∙ h
    ]

    covered_by :
        (q r : Pmm) (j : ℕ)
        → Adds p (Covers e) e.length q
        → Adds q (AnyCovers es) (bytes es) r
        → j < max_frames
        → Covers e j ⊎ AnyCovers es j
        → frame r.bitmap j ≡ 1
    covered_by q r j h k lt (inl c) = kept q r j k lt (h.covered j lt c)
    covered_by q r j h k lt (inr c) = k.covered j lt c

-- What `init` builds: the free frames are the managed ones that lie in one available region.
pub record Initialised (es : List MmapEntry) (q : Pmm) : Type 0 where
  pub inv : Inv q
  pub ready : q.initialised ≡ true
  pub total : q.total_frames ≡ q.free_frames
  pub nothing_reserved : q.reserved_frames ≡ 0
  pub covered : (j : ℕ) → j < max_frames → AnyCovers es j → frame q.bitmap j ≡ 1
  pub other : (j : ℕ) → ¬ AnyCovers es j → frame q.bitmap j ≡ 0

-- If the lengths of the regions add up to less than 2 ^ 64, `init` on the fresh allocator returns
-- one that is consistent and ready, in which a managed frame is free exactly if it lies as a whole
-- in one available region; and `init` on the result panics.
pub init-Initialised :
    (es : List MmapEntry)
    → bytes es < 2 ^ 64
    → (q : Pmm) × (init new es ≡ ok q) × Initialised es q × (init q es ≡ panic explicit)
init-Initialised es room =
    let (q, e, h) = add_regions-Adds new es new-Inv fresh_room fresh_room_bad in
    (
      record q { total_frames = q.free_frames; initialised = true },
      unfold init in simp (fresh, e),
      record {
        inv = record { size = h.inv.size; words = h.inv.words; counted = h.inv.counted };
        ready = refl;
        total = refl;
        nothing_reserved = h.reserved ∙ fresh_reserved;
        covered = h.covered;
        other = λ j none. h.other j none ∙ frame-new j;
      },
      unfold init in refl,
    )
  where
    fresh : new.initialised ≡ false
    fresh = unfold new in refl

    fresh_reserved : new.reserved_frames ≡ 0
    fresh_reserved = unfold new in refl

    fresh_room : new.unmapped_bytes + bytes es < 2 ^ 64
    fresh_room = unfold new in omega arith

    fresh_room_bad : new.bad_frames + bytes es < 2 ^ 64
    fresh_room_bad = unfold new in omega arith

-- The same for a call that is known to have returned `q`.
pub init_returned :
    (es : List MmapEntry) (q : Pmm) → bytes es < 2 ^ 64 → init new es ≡ ok q → Initialised es q
init_returned es q room e =
    let (q₀, e₀, h, _) = init-Initialised es room in
    subst (Initialised es) (ok-injective (sym e₀ ∙ e)) h
