-- ===== src/Prelude/Bits/Masks.antt =====
-- `&` with a mask of low bits.
use Prim.Native.Nat.{ℕ, ◌+◌, ◌-◌, ◌*◌, ◌/◌, ◌%◌, ◌^◌, ◌<◌, bit_and, bit_or}
use mathlib.Core.Path.{◌≡◌, ap, ap₂}
use native.Mathlib.Nat.{one-le-pow, mod-add-div'}
use native.Mathlib.Omega.{arith}
use native.Mathlib.Decide.{dec_lt}
use orin_os.Prelude.Bits.{
  bit, bit-lt, bit-zero, bit-bit_and, bit-bit_or, bit_above, bit_ext, bit_complement,
}
use orin_os.Prelude.Bits.Words.{bit_and-lt, bit_or-lt, bit_and-zero}
use orin_os.Prelude.Bits.Fields.{bit_and_split}

pub full_mask : (k x : ℕ) → x < 2 ^ k → bit_and x (2 ^ k - 1) ≡ x
full_mask k x h = bit_ext k (bit_and x (2 ^ k - 1)) x (bit_and-lt k x (2 ^ k - 1) h) h same
  where
    one : (i : ℕ) → i < k → bit (2 ^ k - 1) i ≡ 1
    one i lt = omega (
      arith,
      ap (λ (t : ℕ). bit t i) (let e : 2 ^ k - 1 - 0 ≡ 2 ^ k - 1 = omega arith in e),
      bit_complement k 0 i (omega (arith, one-le-pow k 2 (omega arith))) lt,
      bit-zero i,
    )

    same : (i : ℕ) → bit (bit_and x (2 ^ k - 1)) i ≡ bit x i
    same i = elim (dec_lt i k) [
      | yes lt ↦ omega (arith, bit-bit_and x (2 ^ k - 1) i, one i lt, bit-lt x i)
      | no ge ↦ omega (arith, bit-bit_and x (2 ^ k - 1) i, bit_above k x i h (omega arith))
    ]

-- The low bits of a word are a remainder.
pub low_mask : (k x : ℕ) → bit_and x (2 ^ k - 1) ≡ x % 2 ^ k
low_mask k x = omega (
  arith,
  ap₂ bit_and whole mask,
  bit_and_split k (x / 2 ^ k) 0 (x % 2 ^ k) (2 ^ k - 1) r (omega (arith, positive)),
  bit_and-zero (x / 2 ^ k),
  ap (λ (t : ℕ). t * 2 ^ k) (bit_and-zero (x / 2 ^ k)),
  full_mask k (x % 2 ^ k) r,
)
  where
    positive : 0 < 2 ^ k
    positive = one-le-pow k 2 (omega arith)

    r : x % 2 ^ k < 2 ^ k
    r = omega (arith, positive)

    whole : x ≡ x / 2 ^ k * 2 ^ k + x % 2 ^ k
    whole = omega (arith, mod-add-div' x (2 ^ k))

    mask : 2 ^ k - 1 ≡ 0 * 2 ^ k + (2 ^ k - 1)
    mask = omega arith

pub bit_or-zero : (k x : ℕ) → x < 2 ^ k → bit_or x 0 ≡ x
bit_or-zero k x h =
    bit_ext k (bit_or x 0) x (bit_or-lt k x 0 h (one-le-pow k 2 (omega arith))) h
      (λ i. omega (arith, bit-bit_or x 0 i, bit-zero i))

-- `x & !7`, the round down to a multiple of eight.
pub bit_and-eights : (x : ℕ) → x < 2 ^ 64 → bit_and x (2 ^ 64 - 1 - 7) ≡ x / 8 * 8
bit_and-eights x h = omega (
  arith,
  ap (λ (t : ℕ). bit_and t (2 ^ 64 - 1 - 7)) whole,
  bit_and_split 3 (x / 8) (2 ^ 61 - 1) (x % 8) 0 (omega arith) (omega arith),
  bit_and-zero (x % 8),
  full_mask 61 (x / 8) (omega arith),
)
  where
    whole : x ≡ x / 8 * 2 ^ 3 + x % 8
    whole = omega arith

pub bit_or_assoc :
    (k a b c : ℕ)
    → a < 2 ^ k
    → b < 2 ^ k
    → c < 2 ^ k
    → bit_or (bit_or a b) c ≡ bit_or a (bit_or b c)
bit_or_assoc k a b c ha hb hc =
    bit_ext k (bit_or (bit_or a b) c) (bit_or a (bit_or b c))
      (bit_or-lt k (bit_or a b) c (bit_or-lt k a b ha hb) hc)
      (bit_or-lt k a (bit_or b c) ha (bit_or-lt k b c hb hc))
      λ i. omega (
        arith,
        bit-bit_or (bit_or a b) c i,
        bit-bit_or a b i,
        bit-bit_or a (bit_or b c) i,
        bit-bit_or b c i,
      )
