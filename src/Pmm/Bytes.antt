-- ===== src/Pmm/Bytes.antt =====
-- `free_range` rounds inward and `reserve_range` outward: what each does, by byte addresses.
use orin_os.Prelude.{
  ℕ, ◌+◌, ◌-◌, ◌*◌, ◌/◌, ◌^◌, ◌≤◌, ◌<◌, min, ◌≡◌, refl, ◌∙◌, ◌⊎◌, arith, ok, checked-ok, lt→leb,
  le→leb, dec_lt,
}
use orin_os.Bitmap.Frames.{frame}
use orin_os.Pmm.{
  Pmm, free_one, free_range, reserve_one, reserve_range, max_frames, max_phys, frame_size,
}
use orin_os.Pmm.Count.{Inv}
use orin_os.Pmm.Ranges.{KeepsRest, for_range-SetsRange, free_one_lem, reserve_one_lem}

-- The managed frames that lie in the bytes `start..end` as a whole are free, the others as before.
pub record Frees (p : Pmm) (start end : ℕ) (q : Pmm) : Type 0 where
  pub inv : Inv q
  pub whole :
      (j : ℕ) → j < max_frames → start ≤ j * 4096 → (j + 1) * 4096 ≤ end → frame q.bitmap j ≡ 1
  pub other :
      (j : ℕ)
      → (max_frames ≤ j) ⊎ (j * 4096 < start) ⊎ (end < (j + 1) * 4096)
      → frame q.bitmap j ≡ frame p.bitmap j
  pub rest : KeepsRest p q
  pub reserved : q.reserved_frames ≡ p.reserved_frames

-- The managed frames that hold a byte of `start..end` are not free, the others as before.
pub record Reserves (p : Pmm) (start end : ℕ) (q : Pmm) : Type 0 where
  pub inv : Inv q
  pub touched :
      (j : ℕ)
      → start < end
      → j < max_frames
      → start < (j + 1) * 4096
      → j * 4096 < end
      → frame q.bitmap j ≡ 0
  pub other :
      (j : ℕ)
      → (end ≤ start) ⊎ (max_frames ≤ j) ⊎ ((j + 1) * 4096 ≤ start) ⊎ (end ≤ j * 4096)
      → frame q.bitmap j ≡ frame p.bitmap j
  pub rest : KeepsRest p q
  pub moved : q.reserved_frames + q.free_frames ≡ p.reserved_frames + p.free_frames

-- `free_range` on a consistent allocator returns, and frees exactly the managed frames that lie in
-- the byte range as a whole, with the count of free frames kept true.
pub free_range-Frees :
    (p : Pmm) (start end : ℕ)
    → Inv p
    → start + 4096 < 2 ^ 64
    → (q : Pmm) × (free_range p start end ≡ ok q) × Frees p start end q
unfolding free_range
free_range-Frees p start end inv room = elim (dec_lt start end) [
  | no empty ↦ (
    p,
    rw (le→leb end start (omega arith)) refl,
    record {
      inv = inv;
      whole = λ j lt lo hi. absurd (omega arith);
      other = λ j _. refl;
      rest = record { total = refl; bad = refl; unmapped = refl; ready = refl; place = refl };
      reserved = refl;
    },
  )
  | yes some_bytes ↦
      let first = (start + frame_size - 1) / frame_size in
      let last = min (min end max_phys / frame_size) max_frames in
      let (q, e, h, same) =
        for_range-SetsRange free_one 1 (λ q. q.reserved_frames ≡ p.reserved_frames)
          (λ p' idx v lt k. let (q, e, h, k') = free_one_lem p' idx v lt in (q, e, h, k' ∙ k))
          (last - first) first p inv (omega arith) refl in
      (
        q,
        rw (lt→leb end start some_bytes, checked-ok (start + frame_size) room) e,
        record {
          inv = h.inv;
          whole = λ j lt lo hi. h.inside j (omega arith) (omega arith);
          other = λ j out. h.outside j (omega arith);
          rest = h.rest;
          reserved = same;
        },
      )
]

-- `reserve_range` on a consistent allocator returns, and reserves every managed frame that the
-- byte range touches and no other; each frame that was free moves to the reserved count.
pub reserve_range-Reserves :
    (p : Pmm) (start end : ℕ)
    → Inv p
    → end + 4096 < 2 ^ 64
    → p.reserved_frames + p.free_frames < 2 ^ 64
    → (q : Pmm) × (reserve_range p start end ≡ ok q) × Reserves p start end q
unfolding reserve_range
reserve_range-Reserves p start end inv room total = elim (dec_lt start end) [
  | no empty ↦ (
    p,
    rw (le→leb end start (omega arith)) refl,
    record {
      inv = inv;
      touched = λ j lt _ _ _. absurd (omega arith);
      other = λ j _. refl;
      rest = record { total = refl; bad = refl; unmapped = refl; ready = refl; place = refl };
      moved = refl;
    },
  )
  | yes some_bytes ↦
      let first = start / frame_size in
      let last = min ((end + frame_size - 1) / frame_size) max_frames in
      let (q, e, h, same) =
        for_range-SetsRange reserve_one 0
          (λ q. q.reserved_frames + q.free_frames ≡ p.reserved_frames + p.free_frames)
          (λ p' idx v lt k.
            let (q, e, h, k') = reserve_one_lem p' idx v lt (omega arith) in (q, e, h, k' ∙ k))
          (last - first) first p inv (omega arith) refl in
      (
        q,
        rw (lt→leb end start some_bytes, checked-ok (end + frame_size) room) e,
        record {
          inv = h.inv;
          touched = λ j _ lt lo hi. h.inside j (omega arith) (omega arith);
          other = λ j out. h.outside j (omega arith);
          rest = h.rest;
          moved = same;
        },
      )
]
