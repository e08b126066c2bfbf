-- ===== src/Vmm/Audit.antt =====
-- The count of violations and the hardening of the boot map in kernel/src/memory/vmm.rs, on the tables
-- of Vmm/Walk.
pub mod Counts
pub mod Violations
pub mod Hardened
pub mod Hardening
use orin_os.Prelude.{
  ℕ, zero, suc, ◌+◌, ◌-◌, ◌*◌, ◌/◌, ◌%◌, ◌^◌, Bool, true, false, not, ◌&&◌, ◌||◌, List, Option,
  none, some, Outcome, ok, panic, explicit, assert_failed, checked, or_panic, ◌>>=◌, ◌>>◌, guard,
  for_range, replicate, set, bit_and, bit_or, ltb, leb, ◌==◌, if◌then◌else◌,
}
use orin_os.Pmm.{Pmm, Mem, store, allocate_frame}
use orin_os.Vmm.{
  Perm, boot_identity, present, writable, effective, Indices, indices, entry_addr, is_present,
  is_wx,
}
use orin_os.Vmm.Walk.{
  page_size, large_page_size, boot_mapped_bytes, huge_page, pool_cap, Vmm, zero_page, pool_alloc,
  table_at, entry_at, is_huge,
}

-- The loops of `count_wx_violations` and their bodies, from the innermost; each goes on from a count.
unfoldable pub count_pt_entry : Bool → Mem → ℕ → ℕ → ℕ → Outcome ℕ
count_pt_entry nx mem pt pt_i k =
    let e1 = mem (entry_at pt pt_i) in ok (if is_present e1 && is_wx nx e1 then k + 1 else k)

unfoldable pub count_pt : Bool → Mem → ℕ → ℕ → Outcome ℕ
count_pt nx mem pt = for_range 512 0 (count_pt_entry nx mem pt)

unfoldable pub count_pd_entry : Bool → Bool → Mem → ℕ → ℕ → ℕ → Outcome ℕ
count_pd_entry debug nx mem pd pd_i k =
    let e2 = mem (entry_at pd pd_i) in
    if not (is_present e2)
    then ok k
    else if is_huge e2
    then ok (if is_wx nx e2 then k + 1 else k)
    else (table_at debug (entry_addr e2) >>= λ pt. count_pt nx mem pt k)

unfoldable pub count_pd : Bool → Bool → Mem → ℕ → ℕ → Outcome ℕ
count_pd debug nx mem pd = for_range 512 0 (count_pd_entry debug nx mem pd)

unfoldable pub count_pdpt_entry : Bool → Bool → Mem → ℕ → ℕ → ℕ → Outcome ℕ
count_pdpt_entry debug nx mem pdpt pdpt_i k =
    let e3 = mem (entry_at pdpt pdpt_i) in
    if not (is_present e3)
    then ok k
    else if is_huge e3
    then ok (if is_wx nx e3 then k + 1 else k)
    else (table_at debug (entry_addr e3) >>= λ pd. count_pd debug nx mem pd k)

unfoldable pub count_pdpt : Bool → Bool → Mem → ℕ → ℕ → Outcome ℕ
count_pdpt debug nx mem pdpt = for_range 512 0 (count_pdpt_entry debug nx mem pdpt)

unfoldable pub count_pml4_entry : Bool → Bool → Mem → ℕ → ℕ → ℕ → Outcome ℕ
count_pml4_entry debug nx mem pml4 pml4_i k =
    let e4 = mem (entry_at pml4 pml4_i) in
    if not (is_present e4)
    then ok k
    else (table_at debug (entry_addr e4) >>= λ pdpt. count_pdpt debug nx mem pdpt k)

unfoldable pub count_wx_violations : Bool → Vmm → Outcome ℕ
count_wx_violations debug s =
    if s.root == 0
    then ok 0
    else (table_at debug s.root >>= λ pml4.
        for_range 512 0 (count_pml4_entry debug s.nx s.mem pml4) 0)

-- A present entry of a page directory of the boot map, with the count of entries that were changed.
unfoldable pub harden_entry : ℕ → ℕ → ℕ → Mem × ℕ → Outcome (Mem × ℕ)
harden_entry f pd pd_i (mem, n) =
    let e = mem (entry_at pd pd_i) in
    if not (is_present e)
    then ok (mem, n)
    else ok (store mem (entry_at pd pd_i) (bit_or (bit_or (entry_addr e) f) huge_page), n + 1)

unfoldable pub harden_directory : Bool → ℕ → ℕ → ℕ → Mem × ℕ → Outcome (Mem × ℕ)
harden_directory debug f pdpt pdpt_i (mem, n) =
    let pd_entry = mem (entry_at pdpt pdpt_i) in
    if not (is_present pd_entry) then ok (mem, n) else (do
      guard (bit_and pd_entry huge_page == 0) assert_failed
      pd ← table_at debug (entry_addr pd_entry)
      for_range 512 0 (harden_entry f pd) (mem, n))

-- The rest of `harden_boot_map` behind the test of the first entry.
unfoldable pub harden_tables : Bool → ℕ → Vmm → Outcome (Vmm × ℕ)
harden_tables debug pdpt_entry s = do
  pdpt ← table_at debug (entry_addr pdpt_entry)
  r ← for_range 512 0 (harden_directory debug (effective s.nx boot_identity) pdpt) (s.mem, 0)
  ok (record s { mem = r.0 }, r.1)

-- `boot_root` is the table that CR3 names.
unfoldable pub harden_boot_map : Bool → ℕ → Vmm → Outcome (Vmm × ℕ)
harden_boot_map debug boot_root s = table_at debug boot_root >>= λ pml4.
    let pdpt_entry = s.mem (entry_at pml4 0) in
    if not (is_present pdpt_entry) then ok (s, 0) else harden_tables debug pdpt_entry s
