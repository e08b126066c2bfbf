-- ===== src/Tests/Mapping.antt =====
-- Empty tables below a root at frame 10, with three free frames, and one page of the kernel's half.
use orin_os.Prelude.{
  ℕ, ◌*◌, ◌^◌, ◌<◌, ◌≡◌, refl, ap, sym, ◌∙◌, true, false, List, [], ◌∷◌, some, Outcome, ok, panic,
  arith, bit_or, ◌&&◌, ◌==◌, if◌then◌else◌, for_range, replicate,
}
use orin_os.Prelude.Loops.{Gives}
use orin_os.Bitmap.{bit_test, bit_set}
use orin_os.Bitmap.Frames.{frame}
use orin_os.Prelude.Bits.{bit}
use orin_os.Pmm.{Pmm, MmapEntry, new, init, add_regions, add_region, free_range, free_one}
use orin_os.Pmm.Init.{Initialised, init_returned}
use orin_os.Vmm.{text_ro_x, effective, is_present}
use orin_os.Vmm.Entries.{SafeWithNx}
use orin_os.Vmm.Init.{Symbols, align_down, sections_ordered, sections_apart}
use orin_os.Vmm.Walk.{Vmm, map_4k, page_size, translate}
use orin_os.Vmm.Walk.Mapping.{Ready, map_4k-translate}

abbrev three_frames : List MmapEntry
three_frames = record { base = 258048; length = 12288; mem_type = 1 } ∷ []

abbrev got : Outcome Pmm → Pmm
got (ok a) = a
got (panic e) = new

booted : Pmm
unfolding init new add_regions add_region free_range free_one for_range bit_test bit_set replicate
booted = got (init new three_frames)

booted_lem : init new three_frames ≡ ok booted
unfolding booted
booted_lem = refl

booted-Initialised : Initialised three_frames booted
booted-Initialised = init_returned three_frames booted (omega arith) booted_lem

three_free : booted.free_frames ≡ 3
unfolding booted
three_free = refl

root_taken : frame booted.bitmap 10 ≡ 0
unfolding booted frame bit
root_taken = refl

abbrev machine : Vmm
machine = record {
  pmm = booted;
  mem = λ a. 0;
  allocated = 1;
  frames = replicate 64 0;
  root = 10 * 2 ^ 12;
  nx = true;
}

abbrev root_only : ℕ → ℕ
root_only f = if f == 10 then 4 else 0

is_root : (f : ℕ) → 0 < root_only f → f ≡ 10
is_root f h = ground arith

abbrev address : ℕ
address = 0xFFFFFFFF80200000

empty : is_present 0 ≡ false
unfolding is_present
empty = refl

tables : Ready address 10 machine
tables = record {
  level = root_only;
  owned = record {
    inv = booted-Initialised.inv;
    ready = booted-Initialised.ready;
    enough = omega (arith, three_free);
    room = omega arith;
    mapped = λ f h. omega (arith, is_root f h);
    taken = λ f h. ap (frame booted.bitmap) (is_root f h) ∙ root_taken;
    child = λ f n l p. absurd (differ (sym p ∙ empty));
    leaf = λ f l. empty;
  };
  root_level = refl;
  root_frame = refl;
  not_zero = omega arith;
}
  where
    differ : true ≡ false → ⊥
    differ e = cc

map_4k-translate_example :
    Gives
      (λ t.
        (translate true t address
          ≡ ok (some (7 * 2 ^ 12, bit_or (7 * 2 ^ 12) (effective true text_ro_x))))
        × SafeWithNx true (bit_or (7 * 2 ^ 12) (effective true text_ro_x)))
      (map_4k true machine address (7 * 2 ^ 12) page_size text_ro_x)
map_4k-translate_example =
    map_4k-translate true text_ro_x address 10 7 machine tables (omega arith) refl (omega arith)

-- Read-only data in the large page of the text.
abbrev crowded : Symbols
crowded = record {
  text_start = 0xFFFFFFFF80200000;
  text_end = 0xFFFFFFFF80201000;
  rodata_start = 0xFFFFFFFF80202000;
  rodata_end = 0xFFFFFFFF80203000;
  data_start = 0xFFFFFFFF80600000;
  data_end = 0xFFFFFFFF80601000;
  bss_start = 0xFFFFFFFF80800000;
  bss_end = 0xFFFFFFFF80801000;
  virt_end = 0xFFFFFFFF80802000;
  heap_start = 0x2000000;
  heap_end = 0x3000000;
}

crowded_lem :
    (align_down crowded.text_start == crowded.text_start
      && (sections_ordered crowded && sections_apart crowded))
    ≡ false
unfolding align_down
crowded_lem = refl
