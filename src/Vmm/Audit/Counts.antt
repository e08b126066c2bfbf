-- ===== src/Vmm/Audit/Counts.antt =====
-- The loops of `count_wx_violations` only count up.
use orin_os.Prelude.{
  ℕ, ◌+◌, ◌≤◌, ◌≡◌, Bool, true, false, not, Outcome, ok, arith, ◌>>=◌, ok-injective, if◌then◌else◌,
}
use orin_os.Prelude.Loops.{bind_returned, for_range_still}
use orin_os.Pmm.{Mem}
use orin_os.Vmm.{is_present, is_wx, entry_addr}
use orin_os.Vmm.Walk.{table_at, entry_at, is_huge}
use orin_os.Vmm.Audit.{
  count_pt, count_pd, count_pdpt, count_pt_entry, count_pd_entry, count_pdpt_entry,
  count_pml4_entry,
}

-- One entry of a table above the last: it is passed over, counted as a large page, or entered.
level_up :
    (p h w : Bool) (next : ℕ → Outcome ℕ) (k m : ℕ)
    → ((a b : ℕ) → next a ≡ ok b → a ≤ b)
    → (if not p then ok k else if h then ok (if w then k + 1 else k) else next k) ≡ ok m
    → k ≤ m
level_up false h w next k m up e = omega (arith, ok-injective e)
level_up true true true next k m up e = omega (arith, ok-injective e)
level_up true true false next k m up e = omega (arith, ok-injective e)
level_up true false w next k m up e = up k m e

module _ (debug nx : Bool) (mem : Mem) where
  -- Counts only go up.
  pub count_pt_entry-le : (pt j a b : ℕ) → count_pt_entry nx mem pt j a ≡ ok b → a ≤ b
  unfolding count_pt_entry
  count_pt_entry-le pt j a b q = ground (arith, ok-injective q)

  pub count_pt-le : (pt k m : ℕ) → count_pt nx mem pt k ≡ ok m → k ≤ m
  unfolding count_pt
  count_pt-le pt k m e =
      (for_range_still (count_pt_entry nx mem pt) (count_pt_entry-le pt) 512 0 k m e).0

  pub enter_pt-le : (e k m : ℕ) → (table_at debug e >>= λ pt. count_pt nx mem pt k) ≡ ok m → k ≤ m
  enter_pt-le e k m q =
      let (pt, _, r) = bind_returned (table_at debug e) (λ t. count_pt nx mem t k) m q in
      count_pt-le pt k m r

  pub count_pd_entry-le : (pd j a b : ℕ) → count_pd_entry debug nx mem pd j a ≡ ok b → a ≤ b
  unfolding count_pd_entry
  count_pd_entry-le pd j a b q =
      let e2 = mem (entry_at pd j) in
      level_up (is_present e2) (is_huge e2) (is_wx nx e2)
        (λ k. table_at debug (entry_addr e2) >>= λ pt. count_pt nx mem pt k) a b
        (enter_pt-le (entry_addr e2)) q

  pub count_pd-le : (pd k m : ℕ) → count_pd debug nx mem pd k ≡ ok m → k ≤ m
  unfolding count_pd
  count_pd-le pd k m e =
      (for_range_still (count_pd_entry debug nx mem pd) (count_pd_entry-le pd) 512 0 k m e).0

  pub enter_pd-le :
      (e k m : ℕ) → (table_at debug e >>= λ pd. count_pd debug nx mem pd k) ≡ ok m → k ≤ m
  enter_pd-le e k m q =
      let (pd, _, r) = bind_returned (table_at debug e) (λ t. count_pd debug nx mem t k) m q in
      count_pd-le pd k m r

  pub count_pdpt_entry-le : (pdpt j a b : ℕ) → count_pdpt_entry debug nx mem pdpt j a ≡ ok b → a ≤ b
  unfolding count_pdpt_entry
  count_pdpt_entry-le pdpt j a b q =
      let e3 = mem (entry_at pdpt j) in
      level_up (is_present e3) (is_huge e3) (is_wx nx e3)
        (λ k. table_at debug (entry_addr e3) >>= λ pd. count_pd debug nx mem pd k) a b
        (enter_pd-le (entry_addr e3)) q

  pub count_pdpt-le : (pdpt k m : ℕ) → count_pdpt debug nx mem pdpt k ≡ ok m → k ≤ m
  unfolding count_pdpt
  count_pdpt-le pdpt k m e =
      (for_range_still (count_pdpt_entry debug nx mem pdpt) (count_pdpt_entry-le pdpt) 512 0 k m
        e).0

  pub enter_pdpt-le :
      (e k m : ℕ) → (table_at debug e >>= λ t. count_pdpt debug nx mem t k) ≡ ok m → k ≤ m
  enter_pdpt-le e k m q =
      let (t, _, r) = bind_returned (table_at debug e) (λ t. count_pdpt debug nx mem t k) m q in
      count_pdpt-le t k m r

  pub count_pml4_entry-le : (pml4 j a b : ℕ) → count_pml4_entry debug nx mem pml4 j a ≡ ok b → a ≤ b
  unfolding count_pml4_entry
  count_pml4_entry-le pml4 j a b q =
      let e4 = mem (entry_at pml4 j) in
      level_up (is_present e4) false false
        (λ k. table_at debug (entry_addr e4) >>= λ t. count_pdpt debug nx mem t k) a b
        (enter_pdpt-le (entry_addr e4)) q
