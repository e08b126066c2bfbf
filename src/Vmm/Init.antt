-- ===== src/Vmm/Init.antt =====
-- `init` of kernel/src/memory/vmm.rs. The linker's symbols and the heap's physical range are arguments;
-- the table that CR3 is switched to is the root of the state that is returned. Log lines are left out,
-- and the lengths that are mapped, each added to a zero, are not checked.
use orin_os.Prelude.{
  ℕ, ◌+◌, ◌-◌, ◌*◌, ◌^◌, ◌≤◌, ◌<◌, ◌%◌, ◌≡◌, refl, sym, ap, ◌∙◌, Bool, true, false, not, ◌&&◌,
  Option, none, some, Outcome, ok, panic, explicit, assert_failed, checked, checked_sub, or_panic,
  ◌>>=◌, ◌>>◌, guard, bit_and, ltb, lt→ltb, leb, ◌==◌, if◌then◌else◌, arith,
}
use orin_os.Pmm.{store, max_frames}
use orin_os.Pmm.Count.{Inv}
use orin_os.Vmm.{Perm, text_ro_x, ro_data, data_rw_nx, device}
use orin_os.Vmm.Walk.{
  Vmm, page_size, large_page_size, boot_mapped_bytes, pool_alloc, table_at, entry_at, map_4k,
}
use orin_os.Vmm.Walk.Tables.{pool_alloc-Fresh, table_at-ok}

-- The symbols of the linker script, and the heap's backing store.
pub record Symbols : Type 0 where
  pub text_start : ℕ
  pub text_end : ℕ
  pub rodata_start : ℕ
  pub rodata_end : ℕ
  pub data_start : ℕ
  pub data_end : ℕ
  pub bss_start : ℕ
  pub bss_end : ℕ
  pub virt_end : ℕ
  pub heap_start : ℕ
  pub heap_end : ℕ

abbrev pub kernel_vma : ℕ
kernel_vma = 0xFFFFFFFF80000000

abbrev pub heap_virt_start : ℕ
heap_virt_start = 0xFFFFFFFF00000000

-- `virt_to_phys`, `phys_to_virt` and `phys_of`
unfoldable pub virt_to_phys : ℕ → Option ℕ
virt_to_phys va = if ltb va kernel_vma then none else some (va - kernel_vma)

unfoldable pub phys_to_virt : ℕ → ℕ
phys_to_virt pa = (pa + kernel_vma) % 2 ^ 64

unfoldable pub phys_of : ℕ → Outcome ℕ
phys_of va = or_panic (virt_to_phys va) explicit

unfoldable pub align_down : ℕ → ℕ
align_down v = bit_and v (2 ^ 64 - 1 - (large_page_size - 1))

unfoldable pub align_up : ℕ → Outcome ℕ
align_up v = checked (v + large_page_size) >>= λ w. ok (align_down (w - 1))

pub record VmmInfo : Type 0 where
  pub kernel_pml4_phys : ℕ
  pub boot_pml4_phys : ℕ
  pub text_va : ℕ
  pub text_content : ℕ
  pub text_mapped : ℕ
  pub rodata_content : ℕ
  pub rodata_mapped : ℕ
  pub data_content : ℕ
  pub data_mapped : ℕ
  pub bss_content : ℕ
  pub bss_mapped : ℕ
  pub heap_va : ℕ
  pub heap_size : ℕ
  pub pt_frames : ℕ
  pub identity_bytes : ℕ

-- The body of the loop over the regions.
unfoldable pub map_region : Bool → Vmm → ℕ → ℕ → Perm → Outcome Vmm
map_region debug s start len perm =
    if len == 0 then ok s else (do pa ← phys_of start; map_4k debug s start pa len perm)

-- The tests of the sections.
abbrev pub sections_ordered : Symbols → Bool
sections_ordered y =
    leb y.text_end y.rodata_start && leb y.rodata_start y.data_start && leb y.data_start y.bss_start

abbrev pub sections_apart : Symbols → Bool
sections_apart y =
    not (align_down y.rodata_start == align_down y.text_start)
    && not (align_down y.data_start == align_down y.rodata_start)
    && not (align_down y.bss_start == align_down y.data_start)

-- The regions, the heap and the screen.
unfoldable pub map_kernel : Bool → ℕ → Symbols → Vmm → Outcome (Vmm × VmmInfo)
map_kernel debug boot_root y s = do
  text_len ← checked_sub (align_down y.rodata_start) y.text_start
  rodata_len ← checked_sub (align_down y.data_start) y.rodata_start
  data_len ← checked_sub (align_down y.bss_start) y.data_start
  top ← align_up y.virt_end
  bss_len ← checked_sub top y.bss_start
  s1 ← map_region debug s y.text_start text_len text_ro_x
  s2 ← map_region debug s1 y.rodata_start rodata_len ro_data
  s3 ← map_region debug s2 y.data_start data_len data_rw_nx
  s4 ← map_region debug s3 y.bss_start bss_len data_rw_nx
  heap_len ← checked_sub y.heap_end y.heap_start
  guard (leb y.heap_end boot_mapped_bytes) assert_failed
  s5 ← map_4k debug s4 heap_virt_start y.heap_start heap_len data_rw_nx
  s6 ← map_4k debug s5 (phys_to_virt 0xB8000) 0xB8000 page_size device
  text_content ← checked_sub y.text_end y.text_start
  rodata_content ← checked_sub y.rodata_end y.rodata_start
  data_content ← checked_sub y.data_end y.data_start
  bss_content ← checked_sub y.bss_end y.bss_start
  ok (
    s6,
    record {
      kernel_pml4_phys = s6.root;
      boot_pml4_phys = boot_root;
      text_va = y.text_start;
      text_content = text_content;
      text_mapped = text_len;
      rodata_content = rodata_content;
      rodata_mapped = rodata_len;
      data_content = data_content;
      data_mapped = data_len;
      bss_content = bss_content;
      bss_mapped = bss_len;
      heap_va = heap_virt_start;
      heap_size = heap_len;
      pt_frames = s6.allocated;
      identity_bytes = boot_mapped_bytes;
    },
  )

unfoldable pub init : Bool → ℕ → Symbols → Vmm → Outcome (Vmm × VmmInfo)
init debug boot_root y s = do
  guard (ltb boot_root boot_mapped_bytes) assert_failed
  r ← pool_alloc s
  new_pml4 ← or_panic (r.1) explicit
  boot ← table_at debug boot_root
  dst ← table_at debug new_pml4
  guard (align_down y.text_start == y.text_start) assert_failed
  guard (sections_ordered y) assert_failed
  guard (sections_apart y) assert_failed
  map_kernel debug boot_root y (record (r.0) {
    mem = store (r.0).mem (entry_at dst 0) ((r.0).mem (entry_at boot 0));
    root = new_pml4;
  })

-- With a frame for the root and a boot table that `table_at` takes, init panics by an assertion unless
-- the text begins at a large page's boundary, the sections ascend, and no two of them share a large
-- page.
pub init_refuses :
    (debug : Bool) (boot_root : ℕ) (y : Symbols) (s : Vmm)
    → Inv s.pmm
    → s.pmm.initialised ≡ true
    → 1 ≤ s.pmm.free_frames
    → s.allocated + 1 < 2 ^ 64
    → boot_root < max_frames
    → (align_down y.text_start == y.text_start && (sections_ordered y && sections_apart y)) ≡ false
    → init debug (boot_root * 2 ^ 12) y s ≡ panic assert_failed
unfolding init
init_refuses debug boot_root y s inv ready enough room low bad =
    let (s1, pa, u, e, g) = pool_alloc-Fresh s inv ready enough room in
    let inside : boot_root * 2 ^ 12 < boot_mapped_bytes = omega arith in
    let found : table_at debug pa ≡ ok pa =
      ap (table_at debug) g.where_is ∙ table_at-ok debug u g.inside ∙ ap ok (sym g.where_is) in
    rw
      (
        lt→ltb (boot_root * 2 ^ 12) boot_mapped_bytes inside,
        e,
        table_at-ok debug boot_root low,
        found,
      )
      (by_tests (align_down y.text_start == y.text_start) (sections_ordered y) (sections_apart y)
        bad
        (map_kernel debug (boot_root * 2 ^ 12) y (record s1 {
          mem = store s1.mem (entry_at pa 0) (s1.mem (entry_at (boot_root * 2 ^ 12) 0));
          root = pa;
        })))
  where
    by_tests :
        (a b c : Bool)
        → (a && (b && c)) ≡ false
        → (rest : Outcome (Vmm × VmmInfo))
        → (guard a assert_failed >> (guard b assert_failed >> (guard c assert_failed >> rest)))
          ≡ panic assert_failed
    by_tests false b c h rest = refl
    by_tests true false c h rest = refl
    by_tests true true false h rest = refl
    by_tests true true true h rest = absurd cc
