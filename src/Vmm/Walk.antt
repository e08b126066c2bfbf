-- ===== src/Vmm/Walk.antt =====
-- The page-table walk of kernel/src/memory/vmm.rs: the pool of table frames, `descend`, the mapping
-- functions and `translate`. Memory is 64-bit
-- words at physical addresses, as the identity map shows it. `debug` is `cfg!(debug_assertions)`.
-- An address type of the x86_64 crate is its number; log lines and the flush of the TLB are left out.

pub mod Tables
pub mod Descent
pub mod Path
pub mod Mapping
use orin_os.Prelude.{
  ℕ, ◌+◌, ◌-◌, ◌*◌, ◌/◌, ◌%◌, ◌^◌, Bool, not, ◌&&◌, ◌||◌, List, Option, none, some, Outcome, ok,
  explicit, assert_failed, checked, or_panic, ◌>>=◌, ◌>>◌, guard, for_range, set, bit_and, bit_or,
  ltb, leb, ◌==◌, if◌then◌else◌,
}
use orin_os.Pmm.{Pmm, Mem, store, allocate_frame}
use orin_os.Vmm.{Perm, present, writable, effective, Indices, indices, entry_addr, is_present}

abbrev pub page_size : ℕ
page_size = 4096

abbrev pub large_page_size : ℕ
large_page_size = 2 * 1024 * 1024

abbrev pub boot_mapped_bytes : ℕ
boot_mapped_bytes = 2 * 1024 * 1024 * 1024

abbrev pub huge_page : ℕ
huge_page = 2 ^ 7

abbrev pub pool_cap : ℕ
pool_cap = 64

-- The statics: `PT_POOL`, `KERNEL_PML4` and `NX_AVAILABLE`, with the frame allocator and memory.
pub record Vmm : Type 0 where
  pub pmm : Pmm
  pub mem : Mem
  pub allocated : ℕ
  pub frames : List ℕ
  pub root : ℕ
  pub nx : Bool

-- `write_bytes(p, 0, PAGE_SIZE)`
unfoldable pub zero_page : Mem → ℕ → Mem
zero_page mem pa a = if leb pa a && ltb a (pa + page_size) then 0 else mem a

-- `PtPool::alloc`
unfoldable pub pool_alloc : Vmm → Outcome (Vmm × Option ℕ)
pool_alloc s = do
  r ← allocate_frame s.pmm
  let (p, found) = r
  elim found [
    | none ↦ ok (record s { pmm = p }, none)
    | some pa ↦ checked (s.allocated + 1) >>= λ n. ok (
      record s {
        pmm = p;
        mem = zero_page s.mem pa;
        allocated = n;
        frames = if ltb s.allocated pool_cap then set s.frames s.allocated pa else s.frames;
      },
      some pa,
    )
  ]

-- `VirtAddr::new` panics for an address whose bits 63 to 47 are not all the same.
abbrev pub is_canonical : ℕ → Bool
is_canonical a = ltb a (2 ^ 47) || leb (2 ^ 64 - 2 ^ 47) a

unfoldable pub table_at : Bool → ℕ → Outcome ℕ
table_at debug pa =
    guard (not debug || (ltb pa boot_mapped_bytes && (pa % page_size == 0))) assert_failed
    >> (guard (is_canonical pa) explicit >> ok pa)

-- The address of an entry of a table.
abbrev pub entry_at : ℕ → ℕ → ℕ
entry_at table i = table + 8 * i

unfoldable pub descend : Vmm → ℕ → ℕ → Outcome (Vmm × Option ℕ)
descend s table index =
    let entry = s.mem (entry_at table index) in
    if is_present entry then ok (s, some (entry_addr entry)) else (do
      r ← pool_alloc s
      let (s1, found) = r
      ok (elim found [
        | none ↦ (s1, none)
        | some pa ↦ (
          record s1 {
            mem = store s1.mem (entry_at table index) (bit_or pa (bit_or present writable));
          },
          some pa,
        )
      ]))

-- `descend` in the mapping functions, which panic when no frame is left.
unfoldable pub descend_from : Bool → Vmm → ℕ → ℕ → Outcome (Vmm × ℕ)
descend_from debug s pa index = do
  table ← table_at debug pa
  r ← descend s table index
  let (s1, next) = r
  or_panic next explicit >>= λ t. ok (s1, t)

-- The body of the loop of `map_4k`.
unfoldable pub map_page : Bool → ℕ → ℕ → ℕ → Vmm → Outcome Vmm
map_page debug f v p s =
    let idx = indices v in
    do
      r1 ← descend_from debug s s.root idx.pml4
      r2 ← descend_from debug (r1.0) r1.1 idx.pdpt
      r3 ← descend_from debug (r2.0) r2.1 idx.pd
      pt ← table_at debug r3.1
      let old = (r3.0).mem (entry_at pt idx.pt)
      guard (not (is_present old && not (entry_addr old == p))) explicit
      ok (record (r3.0) { mem = store (r3.0).mem (entry_at pt idx.pt) (bit_or p f) })

unfoldable pub map_4k : Bool → Vmm → ℕ → ℕ → ℕ → Perm → Outcome Vmm
map_4k debug s va pa size perm =
    guard (va % page_size == 0) assert_failed
    >> guard (pa % page_size == 0) assert_failed
    >> guard (size % page_size == 0) assert_failed
    >> guard (not (s.root == 0)) assert_failed
    >> for_range (size / page_size) 0
        (λ i t. do
          v ← checked (va + i * page_size)
          p ← checked (pa + i * page_size)
          map_page debug (effective s.nx perm) v p t)
        s

-- The body of the loop of `map_2m`.
unfoldable pub map_large : Bool → ℕ → ℕ → ℕ → Vmm → Outcome Vmm
map_large debug f v p s =
    let idx = indices v in
    do
      r1 ← descend_from debug s s.root idx.pml4
      r2 ← descend_from debug (r1.0) r1.1 idx.pdpt
      pd ← table_at debug r2.1
      ok (record (r2.0) { mem = store (r2.0).mem (entry_at pd idx.pd) (bit_or p f) })

unfoldable pub map_2m : Bool → Vmm → ℕ → ℕ → ℕ → Perm → Outcome Vmm
map_2m debug s va pa size perm =
    guard (va % large_page_size == 0) assert_failed
    >> guard (pa % large_page_size == 0) assert_failed
    >> guard (size % large_page_size == 0) assert_failed
    >> guard (not (s.root == 0)) assert_failed
    >> for_range (size / large_page_size) 0
        (λ i t. do
          v ← checked (va + i * large_page_size)
          p ← checked (pa + i * large_page_size)
          map_large debug (bit_or (effective s.nx perm) huge_page) v p t)
        s

abbrev pub is_huge : ℕ → Bool
is_huge e = not (bit_and e huge_page == 0)

-- An address in a large page: the base with its low bits cleared, and the low bits of the address.
unfoldable pub in_large : ℕ → ℕ → ℕ → ℕ
in_large e size va = bit_and (entry_addr e) (2 ^ 64 - 1 - (size - 1)) + bit_and va (size - 1)

-- The levels of `translate`, from the last.
unfoldable pub translate_pt : Bool → Mem → ℕ → Indices → Outcome (Option (ℕ × ℕ))
translate_pt debug mem pa idx = do
  pt ← table_at debug pa
  let e1 = mem (entry_at pt idx.pt)
  ok (if not (is_present e1) then none else some (entry_addr e1 + idx.offset, e1))

unfoldable pub translate_pd : Bool → Mem → ℕ → ℕ → Indices → Outcome (Option (ℕ × ℕ))
translate_pd debug mem pa va idx = table_at debug pa >>= λ pd.
    let e2 = mem (entry_at pd idx.pd) in
    if not (is_present e2)
    then ok none
    else if is_huge e2
    then ok (some (in_large e2 large_page_size va, e2))
    else translate_pt debug mem (entry_addr e2) idx

unfoldable pub translate_pdpt : Bool → Mem → ℕ → ℕ → Indices → Outcome (Option (ℕ × ℕ))
translate_pdpt debug mem pa va idx = table_at debug pa >>= λ pdpt.
    let e3 = mem (entry_at pdpt idx.pdpt) in
    if not (is_present e3)
    then ok none
    else if is_huge e3
    then ok (some (in_large e3 (1024 * 1024 * 1024) va, e3))
    else translate_pd debug mem (entry_addr e3) va idx

-- The physical address and the entry that maps it.
unfoldable pub translate : Bool → Vmm → ℕ → Outcome (Option (ℕ × ℕ))
translate debug s va =
    if s.root == 0
    then ok none
    else (table_at debug s.root >>= λ pml4.
        let e4 = s.mem (entry_at pml4 (indices va).pml4) in
        if not (is_present e4)
        then ok none
        else translate_pdpt debug s.mem (entry_addr e4) va (indices va))
