-- ===== src/Vmm/Audit/Violations.antt =====
-- What a count of no violations says of the addresses that the tables translate.
use orin_os.Prelude.{
  ◌>>◌, guard, explicit, ℕ, ◌+◌, ◌<◌, ◌≡◌, refl, sym, ap, ◌∙◌, inl, inr, Bool, true, false, not,
  ◌&&◌, Option, none, some, Outcome, ok, arith, ◌>>=◌, ok-injective, if◌then◌else◌, Bool-cases,
  ◌==◌, for_range, ltb, ◌||◌, assert_failed, ◌%◌, ◌*◌,
}
use orin_os.Prelude.Loops.{bind_returned, bind_at, guard_returned, for_range_still}
use orin_os.Pmm.{Mem}
use orin_os.Vmm.{Indices, indices, is_present, is_wx, entry_addr}
use orin_os.Vmm.Indexing.{indices-Splits}
use orin_os.Vmm.Entries.{WritableXorExecutable, is_wx-WritableXorExecutable}
use orin_os.Vmm.Audit.Counts.{
  count_pt_entry-le, count_pd_entry-le, count_pdpt_entry-le, count_pml4_entry-le,
}
use orin_os.Vmm.Walk.{
  is_canonical, Vmm, table_at, entry_at, is_huge, translate_pt, translate_pd, translate_pdpt,
  translate, in_large, large_page_size, boot_mapped_bytes, page_size,
}
use orin_os.Vmm.Audit.{
  count_pt, count_pd, count_pdpt, count_wx_violations, count_pt_entry, count_pd_entry,
  count_pdpt_entry, count_pml4_entry,
}

table_at_returned : (debug : Bool) (pa t : ℕ) → table_at debug pa ≡ ok t → t ≡ pa
unfolding table_at
table_at_returned debug pa t e = sym (
    ok-injective (
      (guard_returned (is_canonical pa) explicit (ok pa) t
        (guard_returned (not debug || (ltb pa boot_mapped_bytes && (pa % page_size == 0)))
          assert_failed (guard (is_canonical pa) explicit >> ok pa) t e).1).1))

-- A run that, if it finds an entry, finds none that is both writable and executable.
abbrev Clean : Bool → Outcome (Option (ℕ × ℕ)) → Type 0
Clean nx run = (pa e : ℕ) → run ≡ ok (some (pa, e)) → is_wx nx e ≡ false

-- Where an entry of the last table was not counted.
leaf-Clean :
    (nx p : Bool) (e1 a : ℕ)
    → ok (if p && is_wx nx e1 then 0 + 1 else 0) ≡ ok 0
    → Clean nx (ok (if not p then none else some (a, e1)))
leaf-Clean nx false e1 a h pa e q = absurd cc
leaf-Clean nx true e1 a h pa e q = elim (Bool-cases (is_wx nx e1)) [
  | inr f ↦ let same : e1 ≡ e = cc in ap (is_wx nx) (sym same) ∙ f
  | inl t ↦ absurd (ground (arith, ok-injective h))
]

-- Where an entry of a table above the last was not counted, and what it leads to is clean.
level-Clean :
    (nx p h : Bool) (e2 a : ℕ) (next : ℕ → Outcome ℕ) (deeper : Outcome (Option (ℕ × ℕ)))
    → (if not p then ok 0 else if h then ok (if is_wx nx e2 then 0 + 1 else 0) else next 0) ≡ ok 0
    → (next 0 ≡ ok 0 → Clean nx deeper)
    → Clean nx (if not p then ok none else if h then ok (some (a, e2)) else deeper)
level-Clean nx false h e2 a next deeper still k pa e q = absurd cc
level-Clean nx true true e2 a next deeper still k pa e q = elim (Bool-cases (is_wx nx e2)) [
  | inr f ↦ let same : e2 ≡ e = cc in ap (is_wx nx) (sym same) ∙ f
  | inl t ↦ absurd (ground (arith, ok-injective still))
]
level-Clean nx true false e2 a next deeper still k pa e q = k still pa e q

module _ (debug nx : Bool) (mem : Mem) where
  -- A table without violations translates through no entry that is one.
  module _ (va : ℕ) (idx : Indices) where
    translate_pt-Clean :
        (a pt : ℕ)
        → idx.pt < 512
        → table_at debug a ≡ ok pt
        → count_pt nx mem pt 0 ≡ ok 0
        → Clean nx (translate_pt debug mem a idx)
    unfolding count_pt count_pt_entry translate_pt
    translate_pt-Clean a pt lt at still pa e q =
        leaf-Clean nx (is_present (mem (entry_at pt idx.pt))) (mem (entry_at pt idx.pt))
          (entry_addr (mem (entry_at pt idx.pt)) + idx.offset)
          ((for_range_still (count_pt_entry nx mem pt) (count_pt_entry-le debug nx mem pt) 512 0 0 0
              still).1
            refl idx.pt (omega arith) (omega arith))
          pa e
          (bind_at (table_at debug a)
            (λ t.
              let e1 = mem (entry_at t idx.pt) in
              ok (if not (is_present e1) then none else some (entry_addr e1 + idx.offset, e1)))
            pt (some (pa, e)) at q)

    translate_pd-Clean :
        (a pd : ℕ)
        → idx.pd < 512
        → idx.pt < 512
        → table_at debug a ≡ ok pd
        → count_pd debug nx mem pd 0 ≡ ok 0
        → Clean nx (translate_pd debug mem a va idx)
    unfolding count_pd count_pd_entry translate_pd
    translate_pd-Clean a pd lt lt' at still pa e q =
        let e2 = mem (entry_at pd idx.pd) in
        level-Clean nx (is_present e2) (is_huge e2) e2 (in_large e2 large_page_size va)
          (λ k. table_at debug (entry_addr e2) >>= λ pt. count_pt nx mem pt k)
          (translate_pt debug mem (entry_addr e2) idx)
          ((for_range_still (count_pd_entry debug nx mem pd) (count_pd_entry-le debug nx mem pd) 512
              0 0 0 still).1
            refl idx.pd (omega arith) (omega arith))
          (λ r.
            let (pt, at', r') =
              bind_returned (table_at debug (entry_addr e2)) (λ t. count_pt nx mem t 0) 0 r in
            translate_pt-Clean (entry_addr e2) pt lt' at' r')
          pa e
          (bind_at (table_at debug a)
            (λ t.
              let e2 = mem (entry_at t idx.pd) in
              if not (is_present e2)
              then ok none
              else if is_huge e2
              then ok (some (in_large e2 large_page_size va, e2))
              else translate_pt debug mem (entry_addr e2) idx)
            pd (some (pa, e)) at q)

    translate_pdpt-Clean :
        (a pdpt : ℕ)
        → idx.pdpt < 512
        → idx.pd < 512
        → idx.pt < 512
        → table_at debug a ≡ ok pdpt
        → count_pdpt debug nx mem pdpt 0 ≡ ok 0
        → Clean nx (translate_pdpt debug mem a va idx)
    unfolding count_pdpt count_pdpt_entry translate_pdpt
    translate_pdpt-Clean a pdpt lt lt2 lt3 at still pa e q =
        let e3 = mem (entry_at pdpt idx.pdpt) in
        level-Clean nx (is_present e3) (is_huge e3) e3 (in_large e3 (1024 * 1024 * 1024) va)
          (λ k. table_at debug (entry_addr e3) >>= λ pd. count_pd debug nx mem pd k)
          (translate_pd debug mem (entry_addr e3) va idx)
          ((for_range_still (count_pdpt_entry debug nx mem pdpt)
              (count_pdpt_entry-le debug nx mem pdpt) 512 0 0 0 still).1
            refl idx.pdpt (omega arith) (omega arith))
          (λ r.
            let (pd, at', r') =
              bind_returned (table_at debug (entry_addr e3)) (λ t. count_pd debug nx mem t 0) 0 r in
            translate_pd-Clean (entry_addr e3) pd lt2 lt3 at' r')
          pa e
          (bind_at (table_at debug a)
            (λ t.
              let e3 = mem (entry_at t idx.pdpt) in
              if not (is_present e3)
              then ok none
              else if is_huge e3
              then ok (some (in_large e3 (1024 * 1024 * 1024) va, e3))
              else translate_pd debug mem (entry_addr e3) va idx)
            pdpt (some (pa, e)) at q)

-- On a processor with NX, if the self-test's count of violations is zero, every address that
-- translates does so through an entry whose writable bit is clear or whose no-execute bit is set,
-- whatever the tables look like.
pub count_wx_violations_sound :
    (debug : Bool) (s : Vmm) (va pa e : ℕ)
    → s.nx ≡ true
    → count_wx_violations debug s ≡ ok 0
    → translate debug s va ≡ ok (some (pa, e))
    → WritableXorExecutable e
unfolding count_wx_violations translate count_pml4_entry
count_wx_violations_sound debug s va pa e nx none_counted found =
    is_wx-WritableXorExecutable e
      (ap (λ (b : Bool). is_wx b e) (sym nx) ∙ by_root (s.root == 0) none_counted found)
  where
    step : ℕ → Outcome (Option (ℕ × ℕ))
    step t =
        let e4 = s.mem (entry_at t (indices va).pml4) in
        if not (is_present e4)
        then ok none
        else translate_pdpt debug s.mem (entry_addr e4) va (indices va)

    by_root :
        (z : Bool)
        → (if z
            then ok 0
            else (table_at debug s.root >>= λ t.
                for_range 512 0 (count_pml4_entry debug s.nx s.mem t) 0))
          ≡ ok 0
        → (if z then ok none else (table_at debug s.root >>= step)) ≡ ok (some (pa, e))
        → is_wx s.nx e ≡ false
    by_root true c q = absurd cc
    by_root false c q =
        let i = indices-Splits va in
        let (pml4, at, still) =
          bind_returned (table_at debug s.root)
            (λ t. for_range 512 0 (count_pml4_entry debug s.nx s.mem t) 0) 0 c in
        let e4 = s.mem (entry_at pml4 (indices va).pml4) in
        level-Clean s.nx (is_present e4) false e4 0
          (λ k. table_at debug (entry_addr e4) >>= λ t. count_pdpt debug s.nx s.mem t k)
          (translate_pdpt debug s.mem (entry_addr e4) va (indices va))
          ((for_range_still (count_pml4_entry debug s.nx s.mem pml4)
              (count_pml4_entry-le debug s.nx s.mem pml4) 512 0 0 0 still).1
            refl (indices va).pml4 (omega arith) (omega (arith, i.pml4_in)))
          (λ r.
            let (t, at', r') =
              bind_returned (table_at debug (entry_addr e4)) (λ t. count_pdpt debug s.nx s.mem t 0)
                0 r in
            translate_pdpt-Clean debug s.nx s.mem va (indices va) (entry_addr e4) t i.pdpt_in
              i.pd_in i.pt_in at' r')
          pa e (bind_at (table_at debug s.root) step pml4 (some (pa, e)) at q)
