-- ===== src/Pmm.antt =====
-- The physical frame allocator, kernel/src/memory/pmm.rs, from its state on. The lock is held for
-- the whole of each operation, so an operation is a function of the state; log lines are left out.
-- A `PhysFrame` or `PhysAddr` is the address that it holds.
pub mod Count
pub mod Ranges
pub mod Bytes
pub mod Alloc
pub mod Dealloc
pub mod Init
use orin_os.Prelude.{
  ℕ, ◌+◌, ◌-◌, ◌*◌, ◌/◌, ◌^◌, min, Bool, true, false, not, ◌&&◌, ◌||◌, List, [], ◌∷◌, Option, none,
  some, Outcome, ok, panic, explicit, checked, checked_sub, ◌>>=◌, ◌>>◌, guard, for_range,
  replicate, ltb, leb, ◌==◌, if◌then◌else◌,
}
use orin_os.Bitmap.{bit_set, bit_clear, bit_test, next_free, next_free_run}

abbrev pub frame_size : ℕ
frame_size = 4096

-- `BOOT_MAPPED_BYTES`, 2 GiB.
abbrev pub max_phys : ℕ
max_phys = 0x8000_0000

abbrev pub max_frames : ℕ
max_frames = 524288

abbrev pub bitmap_words : ℕ
bitmap_words = 8192

-- `PmmInner`, with the static `CURSOR`.
pub record Pmm : Type 0 where
  pub bitmap : List ℕ
  pub total_frames : ℕ
  pub free_frames : ℕ
  pub reserved_frames : ℕ
  pub bad_frames : ℕ
  pub unmapped_bytes : ℕ
  pub initialised : Bool
  pub cursor : ℕ

-- `MmapEntry` of multiboot/info.rs: `mem_type` is the firmware's number.
pub record MmapEntry : Type 0 where
  pub base : ℕ
  pub length : ℕ
  pub mem_type : ℕ

-- The 64-bit word at a physical address, read and written through the identity map.
abbrev pub Mem : Type 0
Mem = ℕ → ℕ

abbrev pub store : Mem → ℕ → ℕ → Mem
store mem a v b = if a == b then v else mem b

unfoldable pub new : Pmm
new = record {
  bitmap = replicate bitmap_words 0;
  total_frames = 0;
  free_frames = 0;
  reserved_frames = 0;
  bad_frames = 0;
  unmapped_bytes = 0;
  initialised = false;
  cursor = 0;
}

-- The body of the loop of `free_range`.
unfoldable pub free_one : ℕ → Pmm → Outcome Pmm
free_one idx p = do
  free ← bit_test p.bitmap idx
  if free then ok p else (do
    map ← bit_set p.bitmap idx
    count ← checked (p.free_frames + 1)
    ok (record p { bitmap = map; free_frames = count }))

-- Only frames that lie in the range as a whole become free.
unfoldable pub free_range : Pmm → ℕ → ℕ → Outcome Pmm
free_range p start end = if leb end start then ok p else (do
  top ← checked (start + frame_size)
  let first = (top - 1) / frame_size
  let last = min end max_phys / frame_size
  for_range (min last max_frames - first) first free_one p)

-- The body of the loop of `reserve_range`.
unfoldable pub reserve_one : ℕ → Pmm → Outcome Pmm
reserve_one idx p = do
  free ← bit_test p.bitmap idx
  if not free then ok p else (do
    map ← bit_clear p.bitmap idx
    count ← checked_sub p.free_frames 1
    reserved ← checked (p.reserved_frames + 1)
    ok (record p { bitmap = map; free_frames = count; reserved_frames = reserved }))

-- A frame that the range touches is reserved as a whole.
unfoldable pub reserve_range : Pmm → ℕ → ℕ → Outcome Pmm
reserve_range p start end = if leb end start then ok p else (do
  top ← checked (end + frame_size)
  let first = start / frame_size
  let last = (top - 1) / frame_size
  for_range (min last max_frames - first) first reserve_one p)

-- The search of `allocate`: one frame, or a run.
unfoldable pub find : List ℕ → ℕ → ℕ → ℕ → ℕ → Outcome (Option ℕ)
find map from limit count align =
    if count == 1 then next_free map from limit else next_free_run map from limit count align

-- Takes the frames from `start` on out of the map.
unfoldable pub take_frames : Pmm → ℕ → ℕ → Outcome Pmm
take_frames p start count = do
  map ← for_range count 0 (λ i m. bit_clear m (start + i)) p.bitmap
  left ← checked_sub p.free_frames count
  end ← checked (start + count)
  ok (record p { bitmap = map; free_frames = left; cursor = end })

-- From the cursor on, then once more from the start up to the cursor.
unfoldable pub allocate : Pmm → ℕ → ℕ → Outcome (Pmm × Option ℕ)
allocate p count align = if not p.initialised then panic explicit else (do
  let from = min p.cursor max_frames
  ahead ← find p.bitmap from max_frames count align
  start ← elim ahead [
    | some s ↦ ok (some s)
    | none ↦ if ltb 0 from then find p.bitmap 0 from count align else ok none
  ]
  elim start [ none ↦ ok (p, none) | some s ↦ take_frames p s count >>= λ q. ok (q, some s) ])

abbrev pub frame_from_index : ℕ → ℕ
frame_from_index idx = idx * frame_size

-- `allocate_contiguous` returns the address of the first frame.
unfoldable pub allocate_contiguous : Pmm → ℕ → ℕ → Outcome (Pmm × Option ℕ)
allocate_contiguous p count align = do
  r ← allocate p count align
  let (q, found) = r
  ok (q, elim found [ none ↦ none | some idx ↦ some (frame_from_index idx) ])

unfoldable pub allocate_frame : Pmm → Outcome (Pmm × Option ℕ)
allocate_frame p = do
  r ← allocate p 1 1
  let (q, found) = r
  ok (q, elim found [ none ↦ none | some idx ↦ some (frame_from_index idx) ])

-- "ORINFREE"
abbrev pub free_canary : ℕ
free_canary = 0x4F52_494E_4652_4545

-- `debug` is `cfg!(debug_assertions)`.
unfoldable pub canary_ok : Bool → Mem → ℕ → Bool
canary_ok debug mem phys =
    if not debug
    then true
    else if leb max_frames (phys / frame_size) || leb max_phys phys
    then true
    else not (mem phys == free_canary)

unfoldable pub deallocate : Bool → Pmm → Mem → ℕ → Outcome (Pmm × Mem)
deallocate debug p mem phys =
    let idx = phys / frame_size in
    if leb max_frames idx then panic explicit else (do
      free ← bit_test p.bitmap idx
      guard (not free) explicit
      guard (canary_ok debug mem phys) explicit
      map ← bit_set p.bitmap idx
      count ← checked (p.free_frames + 1)
      ok (
        record p { bitmap = map; free_frames = count },
        if debug then store mem phys free_canary else mem,
      ))

abbrev pub available : ℕ
available = 1

abbrev pub bad_ram : ℕ
bad_ram = 4

abbrev pub u64_max : ℕ
u64_max = 0xFFFF_FFFF_FFFF_FFFF

-- One region of the firmware's map. Only available RAM below `max_phys` is freed.
unfoldable pub add_region : Pmm → MmapEntry → Outcome Pmm
add_region p e =
    let hi = min (e.base + e.length) u64_max in
    if e.mem_type == available
    then (if leb max_phys e.base
        then (checked (p.unmapped_bytes + e.length) >>= λ n. ok (record p { unmapped_bytes = n }))
        else (do
          q ←
              if ltb max_phys hi
              then (checked (p.unmapped_bytes + (hi - max_phys)) >>= λ n.
                  ok (record p { unmapped_bytes = n }))
              else ok p
          free_range q e.base (min hi max_phys)))
    else if e.mem_type == bad_ram
    then (checked (p.bad_frames + e.length / frame_size) >>= λ n. ok (record p { bad_frames = n }))
    else ok p

unfoldable pub add_regions : Pmm → List MmapEntry → Outcome Pmm
add_regions p [] = ok p
add_regions p (e ∷ es) = add_region p e >>= λ q. add_regions q es

unfoldable pub init : Pmm → List MmapEntry → Outcome Pmm
init p mmap = if p.initialised then panic explicit else (do
  q ← add_regions p mmap
  ok (record q { total_frames = q.free_frames; initialised = true }))

-- The snapshot of the counters.
pub record Stats : Type 0 where
  pub total_frames : ℕ
  pub free_frames : ℕ
  pub reserved_frames : ℕ
  pub bad_frames : ℕ
  pub unmapped_bytes : ℕ
  pub frame_size : ℕ
  pub max_phys : ℕ

unfoldable pub stats : Pmm → Stats
stats p = record {
  total_frames = p.total_frames;
  free_frames = p.free_frames;
  reserved_frames = p.reserved_frames;
  bad_frames = p.bad_frames;
  unmapped_bytes = p.unmapped_bytes;
  frame_size = 4096;
  max_phys = 0x8000_0000;
}
