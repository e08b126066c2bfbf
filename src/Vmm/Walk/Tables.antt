-- ===== src/Vmm/Walk/Tables.antt =====
-- The tables on the path of an address: what they are before a mapping function, and what the pool adds.
use orin_os.Prelude.{
  ℕ, ◌+◌, ◌*◌, ◌^◌, ◌≤◌, ◌<◌, ◌≡◌, refl, ap, ◌∙◌, ◌⊎◌, inl, inr, Bool, true, false, Option, none,
  some, ok, arith, if◌then◌else◌, dec_lt, ltb, checked-ok, set,
}
use orin_os.Bitmap.Frames.{frame}
use orin_os.Pmm.{Pmm, Mem, max_frames, allocate_frame}
use orin_os.Pmm.Count.{Inv}
use orin_os.Pmm.Alloc.Frame.{AllocatedFrame, allocate_frame-AllocatedFrame}
use orin_os.Vmm.{is_present}
use orin_os.Vmm.Entries.{IsLink}
use orin_os.Vmm.Walk.{Vmm, zero_page, pool_alloc, pool_cap, table_at, entry_at}

-- The entry of table frame `t` at index `i`.
abbrev pub slot : ℕ → ℕ → ℕ
slot t i = entry_at (t * 2 ^ 12) i

-- Each frame's level: 4 for the root, 1 for a page table, 0 for a frame that is none of these. `idx` is
-- the index of the address at each level; at least `need` frames are free.
pub record Owned (level idx : ℕ → ℕ) (need : ℕ) (s : Vmm) : Type 0 where
  pub inv : Inv s.pmm
  pub ready : s.pmm.initialised ≡ true
  pub enough : need ≤ s.pmm.free_frames
  pub room : s.allocated + need < 2 ^ 64
  pub mapped : (t : ℕ) → 0 < level t → t < max_frames
  pub taken : (t : ℕ) → 0 < level t → frame s.pmm.bitmap t ≡ 0
  pub child :
      (t n : ℕ)
      → level t ≡ n + 2
      → is_present (s.mem (slot t (idx (n + 2)))) ≡ true
      → (u : ℕ) × IsLink u (s.mem (slot t (idx (n + 2)))) × (level u ≡ n + 1)
  pub leaf : (t : ℕ) → level t ≡ 1 → is_present (s.mem (slot t (idx 1))) ≡ false

-- What the pool hands out: a frame that was free, zeroed; every other frame of memory is as it was.
pub record Fresh (s : Vmm) (pa : ℕ) (s1 : Vmm) (u : ℕ) : Type 0 where
  pub where_is : pa ≡ u * 2 ^ 12
  pub inside : u < max_frames
  pub was_free : frame s.pmm.bitmap u ≡ 1
  pub inv : Inv s1.pmm
  pub ready : s1.pmm.initialised ≡ true
  pub taken : frame s1.pmm.bitmap u ≡ 0
  pub other : (j : ℕ) → (j ≡ u → ⊥) → frame s1.pmm.bitmap j ≡ frame s.pmm.bitmap j
  pub fewer : s1.pmm.free_frames + 1 ≡ s.pmm.free_frames
  pub counted : s1.allocated ≡ s.allocated + 1
  pub zeroed : (i : ℕ) → i < 512 → s1.mem (slot u i) ≡ 0
  pub elsewhere : (t i : ℕ) → (t ≡ u → ⊥) → i < 512 → s1.mem (slot t i) ≡ s.mem (slot t i)
  pub same_root : s1.root ≡ s.root
  pub same_nx : s1.nx ≡ s.nx

zeroed_lem : (mem : Mem) (u i : ℕ) → i < 512 → zero_page mem (u * 2 ^ 12) (slot u i) ≡ 0
unfolding zero_page
zeroed_lem mem u i lt = ground arith

elsewhere_lem :
    (mem : Mem) (u t i : ℕ)
    → (t ≡ u → ⊥)
    → i < 512
    → zero_page mem (u * 2 ^ 12) (slot t i) ≡ mem (slot t i)
unfolding zero_page
elsewhere_lem mem u t i ne lt = ground arith

apart : (j u : ℕ) → (j ≡ u → ⊥) → (j < u) ⊎ (u + 1 ≤ j)
apart j u ne = elim (dec_lt j u) [ yes lt ↦ inl lt | no ge ↦ inr (omega arith) ]

pub pool_alloc-Fresh :
    (s : Vmm)
    → Inv s.pmm
    → s.pmm.initialised ≡ true
    → 1 ≤ s.pmm.free_frames
    → s.allocated + 1 < 2 ^ 64
    → (s1 : Vmm) × (pa : ℕ) × (u : ℕ) × (pool_alloc s ≡ ok (s1, some pa)) × Fresh s pa s1 u
unfolding pool_alloc
pool_alloc-Fresh s inv ready enough room =
    let (r, e, h) = allocate_frame-AllocatedFrame s.pmm inv ready in found r e h
  where
    found :
        (r : Pmm × Option ℕ)
        → allocate_frame s.pmm ≡ ok r
        → AllocatedFrame s.pmm r
        → (s1 : Vmm) × (pa : ℕ) × (u : ℕ) × (pool_alloc s ≡ ok (s1, some pa)) × Fresh s pa s1 u
    found (q, none) e h = absurd (omega (arith, h.1))
    found (q, some pa) e (u, at, k) = (
      record s {
        pmm = q;
        mem = zero_page s.mem pa;
        allocated = s.allocated + 1;
        frames = if ltb s.allocated pool_cap then set s.frames s.allocated pa else s.frames;
      },
      pa,
      u,
      rw (e, checked-ok (s.allocated + 1) room) refl,
      record {
        where_is = at;
        inside = omega (arith, k.within);
        was_free =
            ap (frame s.pmm.bitmap) (let z : u ≡ u + 0 = omega arith in z) ∙ k.run 0 (omega arith);
        inv = k.inv;
        ready = k.ready ∙ ready;
        taken = k.gone u (omega arith) (omega arith);
        other = λ j ne. k.other j (apart j u ne);
        fewer = k.free;
        counted = refl;
        zeroed = λ i lt. rw at (zeroed_lem s.mem u i lt);
        elsewhere = λ t i ne lt. rw at (elsewhere_lem s.mem u t i ne lt);
        same_root = refl;
        same_nx = refl;
      },
    )

pub table_at-ok :
    (debug : Bool) (t : ℕ) → t < max_frames → table_at debug (t * 2 ^ 12) ≡ ok (t * 2 ^ 12)
unfolding table_at
table_at-ok debug t inside = ground arith
