-- ===== src/Tests/Multiboot.antt =====
-- The information structure: one of 56 bytes, with a memory map of one region.
use orin_os.Prelude.{ℕ, ◌^◌, ◌<◌, ◌≡◌, refl, List, [], ◌∷◌, ◌++◌, some, arith, length}
use orin_os.Prelude.Text.{le_value}
use orin_os.Pmm.{MmapEntry}
use orin_os.Multiboot.{parsed, get_range, le_at, u32_at}
use orin_os.Multiboot.Containers.{Vec, as_slice, new_vec}
use orin_os.Multiboot.Tags.{parse_mmap}
use orin_os.Multiboot.Parse.{new_info, parse}
use orin_os.Multiboot.Settles.{Settles}
use orin_os.Multiboot.Total.{IsAccepted, new_info-IsInfo, parse-Settles}
use orin_os.Multiboot.Prefix.{parse-append}
use orin_os.Multiboot.Encode.{encode_mmap}
use orin_os.Multiboot.RoundTrip.{parse_mmap-encode_mmap}

abbrev structure : List ℕ
structure =
    56 ∷ 0 ∷ 0 ∷ 0 ∷ 0 ∷ 0 ∷ 0 ∷ 0 ∷ 6 ∷ 0 ∷ 0 ∷ 0 ∷ 40 ∷ 0 ∷ 0 ∷ 0 ∷ 24 ∷ 0 ∷ 0 ∷ 0 ∷ 0 ∷ 0 ∷ 0 ∷ 0
    ∷ 0 ∷ 0 ∷ 16 ∷ 0 ∷ 0 ∷ 0 ∷ 0 ∷ 0 ∷ 0 ∷ 0 ∷ 0 ∷ 1 ∷ 0 ∷ 0 ∷ 0 ∷ 0 ∷ 1 ∷ 0 ∷ 0 ∷ 0 ∷ 0 ∷ 0 ∷ 0 ∷ 0
    ∷ 0 ∷ 0 ∷ 0 ∷ 0 ∷ 8 ∷ 0 ∷ 0 ∷ 0 ∷ []

abbrev trailing : List ℕ
trailing = 1 ∷ 2 ∷ 3 ∷ []

abbrev one_region : List MmapEntry
one_region = record { base = 0x100000; length = 0x1000000; mem_type = 1 } ∷ []

small : length structure < 2 ^ 63
small = omega arith

declared : u32_at structure 0 ≡ some 56
unfolding u32_at le_at get_range le_value
declared = refl

parse-Settles_example : Settles (IsAccepted structure) (parse structure)
parse-Settles_example = parse-Settles structure small

parse-append_example : parse (structure ++ trailing) ≡ parse structure
parse-append_example = parse-append structure trailing 56 declared (omega arith)

parse_mmap-encode_mmap_example :
    (v : Vec MmapEntry) × (parse_mmap (encode_mmap one_region) (new_info 56)
      ≡ parsed (record (new_info 56) { mmap = v }))
    × (as_slice v ≡ as_slice (new_info 56).mmap ++ one_region)
parse_mmap-encode_mmap_example =
    parse_mmap-encode_mmap one_region (new_info 56)
      (record { base_in = omega arith; length_in = omega arith; type_in = omega arith }, tt)
      (new_info-IsInfo 56).vec (unfold new_info new_vec in omega arith)
