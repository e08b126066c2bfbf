-- ===== src/Vmm/Walk/Mapping.antt =====
-- A page that the body of `map_4k`'s loop maps, as `translate` reads it back.
use orin_os.Prelude.{
  ℕ, ◌+◌, ◌*◌, ◌%◌, ◌^◌, ◌<◌, ◌≡◌, refl, sym, ap, subst, ◌∙◌, Bool, true, false, ◌==◌, some, ok,
  arith, if◌then◌else◌, bit_or, checked-ok, for_range,
}
use orin_os.Prelude.Bits.Masks.{low_mask}
use orin_os.Prelude.Loops.{Gives}
use orin_os.Pmm.{store, max_frames}
use orin_os.Vmm.{Perm, effective, Indices, indices, is_present}
use orin_os.Vmm.Indexing.{indices-Splits}
use orin_os.Vmm.Entries.{IsLink, effective-IsLeaf, SafeWithNx, is_wx-SafeWithNx}
use orin_os.Vmm.Walk.{Vmm, table_at, entry_at, descend_from, map_page, map_4k, page_size, translate}
use orin_os.Vmm.Walk.Tables.{slot, Owned, table_at-ok}
use orin_os.Vmm.Walk.Descent.{descend_from-Descends, stored_elsewhere, stored_here}
use orin_os.Vmm.Walk.Path.{Path4, translate-Path4, not_first}

-- The index of an address in a table of a level.
abbrev pub index_at : Indices → ℕ → ℕ
index_at i n = if n == 4 then i.pml4 else if n == 3 then i.pdpt else if n == 2 then i.pd else i.pt

index_at-lt : (v n : ℕ) → index_at (indices v) n < 512
index_at-lt v n = by_tests (n == 4) (n == 3) (n == 2)
  where
    by_tests :
        (a b c : Bool)
        → (if a
            then (indices v).pml4
            else if b
            then (indices v).pdpt
            else if c
            then (indices v).pd
            else (indices v).pt)
          < 512
    by_tests true b c = (indices-Splits v).pml4_in
    by_tests false true c = (indices-Splits v).pdpt_in
    by_tests false false true = (indices-Splits v).pd_in
    by_tests false false false = (indices-Splits v).pt_in

-- The tables of the address before its page is mapped: `r` is the root's frame.
pub record Ready (v r : ℕ) (s : Vmm) : Type 0 where
  pub level : ℕ → ℕ
  pub owned : Owned level (index_at (indices v)) 3 s
  pub root_level : level r ≡ 4
  pub root_frame : s.root ≡ r * 2 ^ 12
  pub not_zero : 0 < r

-- The page is found at its frame, with its flags, and the rest of the state that `map_4k` reads stays.
Mapped : Bool → ℕ → ℕ → ℕ → Vmm → Type 0
Mapped debug v e p t = translate debug t v ≡ ok (some (p + (indices v).offset, e))

-- The body of the loop, when its steps return and the last entry is free.
map_page_run :
    (debug : Bool) (flags v p : ℕ) (s : Vmm) (r1 r2 r3 : Vmm × ℕ) (pt : ℕ)
    → descend_from debug s s.root (indices v).pml4 ≡ ok r1
    → descend_from debug (r1.0) r1.1 (indices v).pdpt ≡ ok r2
    → descend_from debug (r2.0) r2.1 (indices v).pd ≡ ok r3
    → table_at debug r3.1 ≡ ok pt
    → is_present ((r3.0).mem (entry_at pt (indices v).pt)) ≡ false
    → map_page debug flags v p s
      ≡ ok (record (r3.0) { mem = store (r3.0).mem (entry_at pt (indices v).pt) (bit_or p flags) })
unfolding map_page
map_page_run debug flags v p s r1 r2 r3 pt e1 e2 e3 e4 e5 = rw (e1, e2, e3, e4, e5) refl

map_page-Mapped :
    (debug : Bool) (perm : Perm) (v r f : ℕ) (s : Vmm)
    → Ready v r s
    → f < 2 ^ 40
    → Gives
        (Mapped debug v (bit_or (f * 2 ^ 12) (effective s.nx perm)) (f * 2 ^ 12))
        (map_page debug (effective s.nx perm) v (f * 2 ^ 12) s)
unfolding map_page Mapped
map_page-Mapped debug perm v r f s h small =
    let i = indices v in
    let idx = index_at i in
    let step = descend_from-Descends debug idx (index_at-lt v) in
    let (r1, q1, w1) = step h.level 2 s r 2 h.owned h.root_level in
    let (r2, q2, w2) = step w1.level1 1 (r1.0) w1.next 1 w1.owned w1.next_level in
    let (r3, q3, w3) = step w2.level1 0 (r2.0) w2.next 0 w2.owned w2.next_level in
    let leaf = effective-IsLeaf s.nx perm f small in
    let root2 : w1.level1 r ≡ 4 = w1.extends r (omega (arith, h.root_level)) ∙ h.root_level in
    let root3 : w2.level1 r ≡ 4 = w2.extends r (omega (arith, root2)) ∙ root2 in
    let root4 : w3.level1 r ≡ 4 = w3.extends r (omega (arith, root3)) ∙ root3 in
    let a3 : w2.level1 w1.next ≡ 3 =
      w2.extends w1.next (omega (arith, w1.next_level)) ∙ w1.next_level in
    let a4 : w3.level1 w1.next ≡ 3 = w3.extends w1.next (omega (arith, a3)) ∙ a3 in
    let b4 : w3.level1 w2.next ≡ 2 =
      w3.extends w2.next (omega (arith, w2.next_level)) ∙ w2.next_level in
    let c4 : w3.level1 w3.next ≡ 1 = w3.next_level in
    let entry = bit_or (f * 2 ^ 12) (effective s.nx perm) in
    let done : Vmm = record (r3.0) { mem = store (r3.0).mem (slot w3.next i.pt) entry } in
    let sp = indices-Splits v in
    let stored : (t j : ℕ)
        → j < 512
        → (t ≡ w3.next → ⊥)
        → done.mem (slot t j) ≡ (r3.0).mem (slot t j) =
      λ t j lt ne. stored_elsewhere (r3.0).mem t w3.next j i.pt entry lt sp.pt_in ne in
    let r_ne_c : r ≡ w3.next → ⊥ = λ e. omega (arith, root4, c4, ap w3.level1 e) in
    let a_ne_c : w1.next ≡ w3.next → ⊥ = λ e. omega (arith, a4, c4, ap w3.level1 e) in
    let b_ne_c : w2.next ≡ w3.next → ⊥ = λ e. omega (arith, b4, c4, ap w3.level1 e) in
    let r_ne_b : r ≡ w2.next → ⊥ = λ e. omega (arith, root4, b4, ap w3.level1 e) in
    let a_ne_b : w1.next ≡ w2.next → ⊥ = λ e. omega (arith, a4, b4, ap w3.level1 e) in
    let r_ne_a : r ≡ w1.next → ⊥ = λ e. omega (arith, root4, a4, ap w3.level1 e) in
    let c_in : w3.next < max_frames = w3.owned.mapped w3.next (omega (arith, c4)) in
    let kept_r : done.mem (slot r i.pml4) ≡ (r1.0).mem (slot r i.pml4) =
      stored r i.pml4 sp.pml4_in r_ne_c
      ∙ w3.keep r i.pml4 (omega (arith, root3)) sp.pml4_in r_ne_b
      ∙ w2.keep r i.pml4 (omega (arith, root2)) sp.pml4_in r_ne_a in
    let kept_a : done.mem (slot w1.next i.pdpt) ≡ (r2.0).mem (slot w1.next i.pdpt) =
      stored w1.next i.pdpt sp.pdpt_in a_ne_c
      ∙ w3.keep w1.next i.pdpt (omega (arith, a3)) sp.pdpt_in a_ne_b in
    let path : Path4 v r w1.next w2.next w3.next entry done.mem = record {
      root_in = w3.owned.mapped r (omega (arith, root4));
      a_in = w3.owned.mapped w1.next (omega (arith, a4));
      b_in = w3.owned.mapped w2.next (omega (arith, b4));
      c_in = c_in;
      to_a = subst (IsLink w1.next) (sym kept_r) w1.linked;
      to_b = subst (IsLink w2.next) (sym kept_a) w2.linked;
      to_c = subst (IsLink w3.next) (sym (stored w2.next i.pd sp.pd_in b_ne_c)) w3.linked;
      to_e = stored_here (r3.0).mem (slot w3.next i.pt) entry;
    } in
    (
      done,
      map_page_run debug (effective s.nx perm) v (f * 2 ^ 12) s r1 r2 r3 (w3.next * 2 ^ 12)
          (ap (λ (x : ℕ). descend_from debug s x i.pml4) h.root_frame ∙ q1)
          (ap (λ (x : ℕ). descend_from debug (r1.0) x i.pdpt) w1.named ∙ q2)
          (ap (λ (x : ℕ). descend_from debug (r2.0) x i.pd) w2.named ∙ q3)
          (ap (table_at debug) w3.named ∙ table_at-ok debug w3.next c_in)
          (w3.owned.leaf w3.next c4),
      translate-Path4 debug v r w1.next w2.next w3.next entry (f * 2 ^ 12) done path h.not_zero
          (w3.same_root ∙ w2.same_root ∙ w1.same_root ∙ h.root_frame) leaf.seen_present
          leaf.same_address,
    )

page_offset : (va : ℕ) → va % 4096 ≡ 0 → (indices va).offset ≡ 0
unfolding indices
page_offset va aligned = low_mask 12 va ∙ aligned

-- One page of `map_4k` is one round of its loop.
map_4k_round :
    (debug : Bool) (s : Vmm) (va f : ℕ) (perm : Perm) (t : Vmm)
    → va < 2 ^ 64
    → va % 4096 ≡ 0
    → f < 2 ^ 40
    → (s.root == 0) ≡ false
    → map_page debug (effective s.nx perm) va (f * 2 ^ 12) s ≡ ok t
    → map_4k debug s va (f * 2 ^ 12) page_size perm ≡ ok t
unfolding map_4k for_range
map_4k_round debug s va f perm t fits aligned small root e =
    let aligned_f : f * 2 ^ 12 % 4096 ≡ 0 = omega arith in
    let here : va + 0 ≡ va = omega arith in
    let there : f * 2 ^ 12 + 0 ≡ f * 2 ^ 12 = omega arith in
    rw
      (
        aligned,
        aligned_f,
        root,
        here,
        there,
        checked-ok va fits,
        checked-ok (f * 2 ^ 12) (omega arith),
        e,
      )
      refl

-- map_4k maps a page that was not mapped: from an initialised allocator with three free frames, on
-- tables without a large page on the way to the address, none of them free in the allocator, it
-- returns, and translate then finds the page at its frame, by an entry with the flags of the
-- profile. On a processor with NX that entry has its writable bit clear or its no-execute bit set.
pub map_4k-translate :
    (debug : Bool) (perm : Perm) (va r f : ℕ) (s : Vmm)
    → Ready va r s
    → va < 2 ^ 64
    → va % 4096 ≡ 0
    → f < 2 ^ 40
    → Gives
        (λ t.
          (translate debug t va ≡ ok (some (f * 2 ^ 12, bit_or (f * 2 ^ 12) (effective s.nx perm))))
          × SafeWithNx s.nx (bit_or (f * 2 ^ 12) (effective s.nx perm)))
        (map_4k debug s va (f * 2 ^ 12) page_size perm)
unfolding Mapped
map_4k-translate debug perm va r f s h fits aligned small =
    let (t, e, found) = map_page-Mapped debug perm va r f s h small in
    let offset : f * 2 ^ 12 + (indices va).offset ≡ f * 2 ^ 12 =
      omega (arith, page_offset va aligned) in
    (
      t,
      map_4k_round debug s va f perm t fits aligned small
          (ap (λ (x : ℕ). x == 0) h.root_frame ∙ not_first r h.not_zero) e,
      (
        found ∙ ap (λ (x : ℕ). ok (some (x, bit_or (f * 2 ^ 12) (effective s.nx perm)))) offset,
        is_wx-SafeWithNx s.nx (bit_or (f * 2 ^ 12) (effective s.nx perm))
            (effective-IsLeaf s.nx perm f small).not_wx,
      ),
    )
