-- ===== src/Tests/Pmm.antt =====
-- The frame allocator on a machine with two frames of RAM, 63 and 64, either side of a word's end.
use orin_os.Prelude.{
  ℕ, zero, suc, ◌+◌, ◌/◌, ◌^◌, ◌<◌, ◌≡◌, refl, ◌∙◌, inl, inr, true, List, [], ◌∷◌, Option, none,
  some, Outcome, ok, panic, explicit, arith, for_range, replicate, dec_lt,
}
use orin_os.Prelude.Bits.Words.{trailing_zeros}
use orin_os.Bitmap.{bit_test, bit_set, bit_clear, next_free, scan_words, next_free_run}
use orin_os.Bitmap.Frames.{frame}
use orin_os.Bitmap.Run.{IsRun, IsFirstRun, next_free_run-IsFirstRun}
use orin_os.Pmm.{
  Pmm, Mem, MmapEntry, new, init, add_regions, add_region, free_range, free_one, reserve_range,
  allocate_frame, allocate, find, take_frames, deallocate, canary_ok,
}
use orin_os.Pmm.Count.{Inv, free_frames-le}
use orin_os.Pmm.Bytes.{Reserves, reserve_range-Reserves}
use orin_os.Pmm.Init.{Initialised, init_returned, init-Initialised}
use orin_os.Pmm.Alloc.Search.{Allocated}
use orin_os.Pmm.Alloc.Laws.{allocate-Allocated}
use orin_os.Pmm.Alloc.Frame.{
  AllocatedFrame, allocate_frame-AllocatedFrame, allocate_frame_returned,
  allocate_misses_straddling,
}
use orin_os.Pmm.Dealloc.{
  Poisoned, Releases, deallocate-Releases, deallocate_refuses, allocate-deallocate,
  deallocate_rejects_untouched,
}

abbrev two_frames : List MmapEntry
two_frames = record { base = 258048; length = 8192; mem_type = 1 } ∷ []

abbrev got {ℓ} : {A : Type ℓ} → Outcome A → A → A
got (ok a) d = a
got (panic e) d = d

-- Its `unfolding` line is what a run of the allocator computes with.
booted : Pmm
unfolding init new add_regions add_region free_range free_one for_range bit_test bit_set replicate
    allocate_frame allocate find take_frames next_free scan_words trailing_zeros bit_clear
    deallocate canary_ok
booted = got (init new two_frames) new

booted_lem : init new two_frames ≡ ok booted
unfolding booted
booted_lem = refl

booted-Initialised : Initialised two_frames booted
booted-Initialised = init_returned two_frames booted (omega arith) booted_lem

booted-Inv : Inv booted
booted-Inv = booted-Initialised.inv

booted_room : booted.reserved_frames + booted.free_frames < 2 ^ 64
booted_room = omega (arith, booted-Initialised.nothing_reserved, free_frames-le booted-Inv)

-- Both frames taken, one after the other; then with the cursor at the start.
one : Pmm
unfolding booted
one = (got (allocate_frame booted) (new, none)).0

one_lem : allocate_frame booted ≡ ok (one, some 258048)
unfolding one
one_lem = refl

two : Pmm
unfolding one
two = (got (allocate_frame one) (new, none)).0

two_lem : allocate_frame one ≡ ok (two, some 262144)
unfolding two
two_lem = refl

rewound : Pmm
unfolding two
rewound = record two { cursor = 0 }

blank : Mem
blank a = 0

-- Frame 63 given back, and allocated again.
back : Pmm × Mem
unfolding rewound blank
back = got (deallocate true rewound blank 258048) (new, blank)

back_lem : deallocate true rewound blank 258048 ≡ ok (back.0, back.1)
unfolding back
back_lem = refl

again : Pmm
unfolding back
again = (got (allocate_frame back.0) (new, none)).0

again_lem : allocate_frame back.0 ≡ ok (again, some 258048)
unfolding again
again_lem = refl

one-AllocatedFrame : AllocatedFrame booted (one, some 258048)
one-AllocatedFrame =
    allocate_frame_returned booted (one, some 258048) booted-Inv booted-Initialised.ready one_lem

one-Inv : Inv one
one-Inv = one-AllocatedFrame.2.inv

two-AllocatedFrame : AllocatedFrame one (two, some 262144)
two-AllocatedFrame =
    allocate_frame_returned one (two, some 262144) one-Inv
      (one-AllocatedFrame.2.ready ∙ booted-Initialised.ready) two_lem

two-Inv : Inv two
two-Inv = two-AllocatedFrame.2.inv

rewound-Inv : Inv rewound
unfolding rewound
rewound-Inv = record { size = two-Inv.size; words = two-Inv.words; counted = two-Inv.counted }

back_ready : back.0.initialised ≡ true
unfolding back
back_ready = refl

allocate-Allocated_example :
    (r : Pmm × Option ℕ) × (allocate booted 2 1 ≡ ok r) × Allocated booted 2 1 r
allocate-Allocated_example =
    allocate-Allocated booted booted-Inv booted-Initialised.ready 2 1 (omega arith) (omega arith)

allocate_frame-AllocatedFrame_example :
    (r : Pmm × Option ℕ) × (allocate_frame booted ≡ ok r) × AllocatedFrame booted r
allocate_frame-AllocatedFrame_example =
    allocate_frame-AllocatedFrame booted booted-Inv booted-Initialised.ready

init-Initialised_example :
    (q : Pmm) × (init new two_frames ≡ ok q)
    × Initialised two_frames q
    × (init q two_frames ≡ panic explicit)
init-Initialised_example = init-Initialised two_frames (omega arith)

reserve_range-Reserves_example :
    (q : Pmm) × (reserve_range booted 262144 262145 ≡ ok q) × Reserves booted 262144 262145 q
reserve_range-Reserves_example =
    reserve_range-Reserves booted 262144 262145 booted-Inv (omega arith) booted_room

blank_clean : ¬ Poisoned true blank 258048
unfolding blank
blank_clean h = omega (arith, h.1)

allocate-deallocate_example :
    (r : Pmm) × (mem' : Mem) × (deallocate true one blank 258048 ≡ ok (r, mem'))
    × ((j : ℕ) → frame r.bitmap j ≡ frame booted.bitmap j)
    × (r.free_frames ≡ booted.free_frames)
allocate-deallocate_example =
    allocate-deallocate true booted one blank 258048 booted-Inv booted-Initialised.ready one_lem
      blank_clean

one_taken : frame one.bitmap (258048 / 4096) ≡ 0
one_taken =
    one-AllocatedFrame.2.gone 63 (omega (arith, one-AllocatedFrame.1))
      (omega (arith, one-AllocatedFrame.1))

deallocate-Releases_example :
    (q : Pmm) × (mem' : Mem) × (deallocate true one blank 258048 ≡ ok (q, mem'))
    × Releases true one blank 258048 q mem'
deallocate-Releases_example =
    deallocate-Releases true one blank 258048 one-Inv (omega arith) one_taken blank_clean

deallocate_refuses_example : deallocate true booted blank 0x8000_0000 ≡ panic explicit
deallocate_refuses_example =
    deallocate_refuses true booted blank 0x8000_0000 booted-Inv (inl (omega arith))

deallocate_rejects_untouched_example : deallocate true again back.1 258048 ≡ panic explicit
deallocate_rejects_untouched_example =
    deallocate_rejects_untouched rewound back.0 again blank back.1 258048 rewound-Inv back_ready
      back_lem again_lem

-- The cursor between the two free frames.
halfway : Pmm
halfway = record booted { cursor = 64 }

halfway-Inv : Inv halfway
unfolding halfway
halfway-Inv = record {
  size = booted-Inv.size;
  words = booted-Inv.words;
  counted = booted-Inv.counted;
}

halfway-IsRun : IsRun halfway.bitmap 2 63
unfolding halfway
halfway-IsRun zero lt =
    booted-Initialised.covered 63 (omega arith) (inl (refl, omega arith, omega arith))
halfway-IsRun (suc zero) lt =
    booted-Initialised.covered 64 (omega arith) (inl (refl, omega arith, omega arith))
halfway-IsRun (suc (suc i)) lt = absurd (omega arith)

halfway_across :
    (t : ℕ) → IsRun halfway.bitmap 2 t → (t < halfway.cursor) × (halfway.cursor < t + 2)
unfolding halfway
halfway_across t run = (
  elim (dec_lt t 64) [
    | yes lt ↦ lt
    | no ge ↦ absurd (
        omega (
          arith,
          run 1 (omega arith),
          booted-Initialised.other (t + 1) (elim [ inl c ↦ omega arith | inr c ↦ c ]),
        ))
  ],
  elim (dec_lt 62 t) [
    | yes gt ↦ omega arith
    | no le ↦ absurd (
        omega (
          arith,
          run 0 (omega arith),
          booted-Initialised.other (t + 0) (elim [ inl c ↦ omega arith | inr c ↦ c ]),
        ))
  ],
)

allocate_misses_straddling_example : allocate halfway 2 1 ≡ ok (halfway, none)
allocate_misses_straddling_example =
    allocate_misses_straddling halfway 2 1 63 halfway-Inv ready (omega arith) (omega arith)
      halfway-IsRun halfway_across
  where
    ready : halfway.initialised ≡ true
    ready = unfold halfway in booted-Initialised.ready

next_free_run-IsFirstRun_example :
    (r : Option ℕ) × (next_free_run booted.bitmap 0 128 2 1 ≡ ok r)
    × IsFirstRun booted.bitmap 0 128 2 1 r
next_free_run-IsFirstRun_example =
    next_free_run-IsFirstRun booted.bitmap booted-Inv.words 0 128 2 1
      (omega (arith, booted-Inv.size)) (omega arith) (omega arith) (omega arith)
