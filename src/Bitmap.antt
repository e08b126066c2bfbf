-- ===== src/Bitmap.antt =====
-- The pure bitmap helpers of kernel/src/memory/pmm.rs: one bit for each frame, 1 = free, in 64-bit
-- words. An index out of bounds panics.
pub mod Frames
pub mod Scan
pub mod Run
use orin_os.Prelude.{
  ℕ, zero, suc, ◌+◌, ◌-◌, ◌*◌, ◌/◌, ◌%◌, ◌^◌, max, bit_and, bit_or, Bool, true, false, not, List,
  Option, none, some, Outcome, ok, panic, out_of_bounds, out_of_fuel, or_panic, checked, ◌>>=◌,
  get_elem?, set, ltb, leb, ◌==◌, if◌then◌else◌,
}
use orin_os.Prelude.Bits.Words.{trailing_zeros}

abbrev pub word_at : List ℕ → ℕ → Outcome ℕ
word_at map i = or_panic (get_elem? map i) out_of_bounds

unfoldable pub bit_set : List ℕ → ℕ → Outcome (List ℕ)
bit_set map idx = do w ← word_at map (idx / 64); ok (set map (idx / 64) (bit_or w (2 ^ (idx % 64))))

unfoldable pub bit_clear : List ℕ → ℕ → Outcome (List ℕ)
bit_clear map idx = do
  w ← word_at map (idx / 64)
  ok (set map (idx / 64) (bit_and w (2 ^ 64 - 1 - 2 ^ (idx % 64))))

unfoldable pub bit_test : List ℕ → ℕ → Outcome Bool
bit_test map idx = do w ← word_at map (idx / 64); ok (not (bit_and w (2 ^ (idx % 64)) == 0))

-- The `while` of `next_free`: a word at a time.
unfoldable pub scan_words : ℕ → List ℕ → ℕ → ℕ → Outcome (Option ℕ)
scan_words zero map limit idx = panic out_of_fuel
scan_words (suc fuel) map limit idx =
    let rest = scan_words fuel map limit (idx + 64) in
    let visit = word_at map (idx / 64) >>= λ w.
    if not (w == 0) then ok (some (idx / 64 * 64 + trailing_zeros 64 w)) else rest in
    if ltb idx limit then visit else ok none

unfoldable pub next_free : List ℕ → ℕ → ℕ → Outcome (Option ℕ)
next_free map from limit = if leb limit from then ok none else (do
  w ← word_at map (from / 64)
  let shifted = w / 2 ^ (from % 64)
  if not (shifted == 0)
      then ok (some (from / 64 * 64 + from % 64 + trailing_zeros 64 shifted))
      else scan_words (limit / 64 + 1) map limit ((from / 64 + 1) * 64))

-- `for i in i..count`: whether every frame `start + i` is free.
unfoldable pub all_free : ℕ → List ℕ → ℕ → Outcome Bool
all_free zero map idx = ok true
all_free (suc left) map idx =
    let rest = all_free left map (idx + 1) in
    bit_test map idx >>= λ free. if free then rest else ok false

-- The `while` of `next_free_run`. After a frame that is taken, the next aligned start.
unfoldable pub scan_runs : ℕ → List ℕ → ℕ → ℕ → ℕ → ℕ → Outcome (Option ℕ)
scan_runs zero map limit count align start = panic out_of_fuel
scan_runs (suc fuel) map limit count align start =
    let next = (start / align + 1) * align in
    let rest = checked next >>= λ s. scan_runs fuel map limit count align s in
    let visit = bit_test map start >>= λ first.
    if not first
    then rest
    else (all_free (count - 1) map (start + 1) >>= λ free.
        if free then ok (some start) else rest) in
    checked (start + count) >>= λ end. if leb end limit then visit else ok none

unfoldable pub next_free_run : List ℕ → ℕ → ℕ → ℕ → ℕ → Outcome (Option ℕ)
next_free_run map from limit count align = if count == 0 then ok (some from) else (do
  let align' = max align 1
  top ← checked (from + align')
  scan_runs (limit + 1) map limit count align' ((top - 1) / align' * align'))
