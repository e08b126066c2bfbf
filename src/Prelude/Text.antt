-- ===== src/Prelude/Text.antt =====
-- Bytes: a number as its little-endian bytes, a copy into a buffer, and the characters of a string, as
-- the standard library's from_le_bytes, to_le_bytes, copy_from_slice, chars and encode_utf8 give them.
use Prim.Native.Nat.{ℕ, zero, suc, ◌+◌, ◌*◌, ◌/◌, ◌%◌, ◌^◌, ◌<◌, ◌≤◌}
use mathlib.Core.Path.{◌≡◌, refl, ap}
use mathlib.Core.Bool.{true, false, ◌&&◌}
use mathlib.Core.Option.{Option, none, some}
use mathlib.Core.List.{List, [], ◌∷◌, ◌++◌}
use native.Mathlib.Omega.{arith}
use native.Mathlib.Nat.{pow-succ'}
use orin_os.Prelude.Tests.{ltb, leb, ◌==◌, le→leb, if◌then◌else◌}
use orin_os.Prelude.Lists.{take, drop, length, length-append, length-take, length-drop}
use orin_os.Prelude.Panics.{Outcome, ok, panic, out_of_bounds}

-- `from_le_bytes`
unfoldable pub le_value : List ℕ → ℕ
le_value [] = 0
le_value (b ∷ bs) = b + 256 * le_value bs

-- `to_le_bytes` of a number of `n` bytes.
unfoldable pub le_bytes : ℕ → ℕ → List ℕ
le_bytes zero v = []
le_bytes (suc n) v = v % 256 ∷ le_bytes n (v / 256)

pub length-le_bytes : (n v : ℕ) → length (le_bytes n v) ≡ n
unfolding le_bytes
length-le_bytes zero v = refl
length-le_bytes (suc n) v = ap suc (length-le_bytes n (v / 256))

pub le_value-le_bytes : (n v : ℕ) → v < 256 ^ n → le_value (le_bytes n v) ≡ v
unfolding le_value le_bytes
le_value-le_bytes zero v h = omega arith
le_value-le_bytes (suc n) v h =
    omega (arith, pow-succ' 256 n, le_value-le_bytes n (v / 256) (omega (arith, pow-succ' 256 n)))

-- `buf[at..at + enc.len()].copy_from_slice(enc)` where the range is in the buffer
unfoldable pub copy_at : List ℕ → ℕ → List ℕ → List ℕ
copy_at buf at enc = take at buf ++ (enc ++ drop (at + length enc) buf)

pub length-copy_at :
    (buf : List ℕ) (at : ℕ) (enc : List ℕ)
    → at + length enc ≤ length buf
    → length (copy_at buf at enc) ≡ length buf
unfolding copy_at
length-copy_at buf at enc h = omega (
  arith,
  length-append {0} (take at buf) (enc ++ drop (at + length enc) buf),
  length-append {0} enc (drop (at + length enc) buf),
  length-take at buf (omega arith),
  length-drop (at + length enc) buf,
)

-- `self.buf[at..at + enc.len()].copy_from_slice(enc)`, with the panic of a range that is not.
unfoldable pub copied : List ℕ → ℕ → List ℕ → Outcome (List ℕ)
copied buf at enc =
    if leb (at + length enc) (length buf) then ok (copy_at buf at enc) else panic out_of_bounds

pub copied-ok :
    (buf : List ℕ) (at : ℕ) (enc : List ℕ)
    → at + length enc ≤ length buf
    → copied buf at enc ≡ ok (copy_at buf at enc)
unfolding copied
copied-ok buf at enc h = rw (le→leb (at + length enc) (length buf) h) refl

-- After a lead byte: how many bytes follow, and the bounds of the next one.
unfoldable pub lead : ℕ → Option (ℕ × (ℕ × ℕ))
lead b =
    if ltb b 0xC2
    then none
    else if ltb b 0xE0
    then some (0, (0x80, 0xBF))
    else if b == 0xE0
    then some (1, (0xA0, 0xBF))
    else if b == 0xED
    then some (1, (0x80, 0x9F))
    else if ltb b 0xF0
    then some (1, (0x80, 0xBF))
    else if b == 0xF0
    then some (2, (0x90, 0xBF))
    else if ltb b 0xF4
    then some (2, (0x80, 0xBF))
    else if b == 0xF4
    then some (2, (0x80, 0x8F))
    else none

abbrev pub cons_char : List ℕ → Option (List (List ℕ)) → Option (List (List ℕ))
cons_char c none = none
cons_char c (some cs) = some (c ∷ cs)

-- The characters of a byte string: `chars_from` begins one, `chars_in` is inside one that has begun as
-- `cur` and takes `more` bytes behind the next.
unfoldable mutual
  pub chars_from : List ℕ → Option (List (List ℕ))
  chars_from [] = some []
  chars_from (b ∷ bs) = elim (ltb b 0x80) [
    | true ↦ cons_char (b ∷ []) (chars_from bs)
    | false ↦ elim (lead b) [
      | none ↦ none
      | some (more, (lo, hi)) ↦ chars_in bs (b ∷ []) more lo hi
    ]
  ]

  pub chars_in : List ℕ → List ℕ → ℕ → ℕ → ℕ → Option (List (List ℕ))
  chars_in [] cur more lo hi = none
  chars_in (b ∷ bs) cur more lo hi = elim (leb lo b && leb b hi) [
    | true ↦ elim more [
      | zero ↦ cons_char (cur ++ b ∷ []) (chars_from bs)
      | suc n ↦ chars_in bs (cur ++ b ∷ []) n 0x80 0xBF
    ]
    | false ↦ none
  ]
