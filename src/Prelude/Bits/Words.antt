-- ===== src/Prelude/Bits/Words.antt =====
-- Bounds of `&` and `|`, the single-bit forms `w & (1 << i)`, `w | (1 << i)` and `w & !(1 << i)`,
-- and `trailing_zeros` of a word.
use Prim.Native.Nat.{
  ℕ, zero, suc, ◌+◌, ◌-◌, ◌*◌, ◌/◌, ◌%◌, ◌^◌, ◌≤◌, ◌<◌, bit_and, bit_or, bit_and-bitwise,
}
use mathlib.Core.Path.{◌≡◌, refl, sym, ap, ap₂, ◌∙◌}
use mathlib.Core.Logic.{◌≢◌}
use native.Mathlib.Nat.{pow-succ', one-le-pow, div-div-eq-div-mul}
use native.Mathlib.Omega.{arith}
use orin_os.Prelude.Bits.{
  bit, bit-lt, bit-bit_and, bit-bit_or, bit-pow_self, bit-pow_ne, bit_complement,
}
use orin_os.Prelude.Bits.Step.{bit_and_step, bit_or_step}
use orin_os.Prelude.Tests.{◌==◌, if◌then◌else◌}

pub bit_or-lt : (k a b : ℕ) → a < 2 ^ k → b < 2 ^ k → bit_or a b < 2 ^ k
bit_or-lt zero a b ha hb = ground arith
bit_or-lt (suc k) a b ha hb = omega (
  arith,
  bit_or_step a b,
  pow-succ' 2 k,
  bit_or-lt k (a / 2) (b / 2) (omega (arith, pow-succ' 2 k)) (omega (arith, pow-succ' 2 k)),
)

zero-bit_and : (b : ℕ) → bit_and 0 b ≡ 0
zero-bit_and b = bit_and-bitwise 0 b

pub bit_and-lt : (k a b : ℕ) → a < 2 ^ k → bit_and a b < 2 ^ k
bit_and-lt zero a b ha = omega (arith, ap (λ (t : ℕ). bit_and t b) zeroed, zero-bit_and b)
  where
    zeroed : a ≡ 0
    zeroed = omega arith
bit_and-lt (suc k) a b ha = omega (
  arith,
  bit_and_step a b,
  pow-succ' 2 k,
  bit_and-lt k (a / 2) (b / 2) (omega (arith, pow-succ' 2 k)),
)

pub bit_and-zero : (a : ℕ) → bit_and a 0 ≡ 0
bit_and-zero a = halved a a (omega arith)
  where
    halved : (n a : ℕ) → a ≤ n → bit_and a 0 ≡ 0
    halved n zero h = refl
    halved zero (suc a) h = absurd (omega arith)
    halved (suc n) (suc a) h =
        omega (arith, bit_and_step (suc a) 0, halved n (suc a / 2) (omega arith))

pub bit_and-pow : (w i : ℕ) → bit_and w (2 ^ i) ≡ bit w i * 2 ^ i
unfolding bit
bit_and-pow w zero = omega (arith, bit_and_step w 1, bit_and-zero (w / 2))
bit_and-pow w (suc i) =
    let half : 2 ^ suc i / 2 ≡ 2 ^ i = omega (arith, pow-succ' 2 i) in
    omega (
      arith,
      bit_and_step w (2 ^ suc i),
      pow-succ' 2 i,
      bit_and-pow (w / 2) i,
      ap (λ (t : ℕ). bit_and (w / 2) t) half,
      ap (λ (t : ℕ). bit (w / 2) i * t) (pow-succ' 2 i),
    )

-- `trailing_zeros` of a word of `k` bits.
unfoldable pub trailing_zeros : ℕ → ℕ → ℕ
trailing_zeros zero w = 0
trailing_zeros (suc k) w = if w % 2 == 1 then 0 else suc (trailing_zeros k (w / 2))

-- It is the place of the lowest digit 1, if the word has one.
pub trailing_zeros-lt : (k w : ℕ) → w < 2 ^ k → w ≢ 0 → trailing_zeros k w < k
unfolding trailing_zeros
trailing_zeros-lt zero w h ne = absurd (ne (omega arith))
trailing_zeros-lt (suc k) w h ne = ground (arith, pow-succ' 2 k, trailing_zeros-lt k (w / 2))

pub bit-trailing_zeros : (k w : ℕ) → w < 2 ^ k → w ≢ 0 → bit w (trailing_zeros k w) ≡ 1
unfolding trailing_zeros bit
bit-trailing_zeros zero w h ne = absurd (ne (omega arith))
bit-trailing_zeros (suc k) w h ne = ground (arith, pow-succ' 2 k, bit-trailing_zeros k (w / 2))

pub bit_below-trailing_zeros : (k w i : ℕ) → i < trailing_zeros k w → bit w i ≡ 0
unfolding trailing_zeros bit
bit_below-trailing_zeros zero w i h = absurd (omega arith)
bit_below-trailing_zeros (suc k) w zero h = ground arith
bit_below-trailing_zeros (suc k) w (suc i) h = ground (arith, bit_below-trailing_zeros k (w / 2) i)

pub pow_mono : (i k : ℕ) → i < k → 2 ^ i < 2 ^ k
pow_mono zero zero h = absurd (omega arith)
pow_mono zero (suc k) h = omega (arith, pow-succ' 2 k, one-le-pow k 2)
pow_mono (suc i) zero h = absurd (omega arith)
pow_mono (suc i) (suc k) h = omega (arith, pow-succ' 2 i, pow-succ' 2 k, pow_mono i k (omega arith))

-- `w & (1 << i) != 0` reads the digit `i`.
bit_and-pow_one : (w i : ℕ) → bit w i ≡ 1 → bit_and w (2 ^ i) ≡ 2 ^ i
bit_and-pow_one w i h = bit_and-pow w i ∙ ap (λ (t : ℕ). t * 2 ^ i) h ∙ omega arith

bit_and-pow_none : (w i : ℕ) → bit w i ≡ 0 → bit_and w (2 ^ i) ≡ 0
bit_and-pow_none w i h = bit_and-pow w i ∙ ap (λ (t : ℕ). t * 2 ^ i) h ∙ omega arith

pub bit_and-pow_test : (w i : ℕ) → (bit_and w (2 ^ i) == 0) ≡ (bit w i == 0)
bit_and-pow_test w i =
    ground (arith, bit_and-pow_one w i, bit_and-pow_none w i, bit-lt w i, one-le-pow i 2)

-- `w | (1 << i)` changes the digit `i` alone.
pub bit_or-pow_self : (w i : ℕ) → bit (bit_or w (2 ^ i)) i ≡ 1
bit_or-pow_self w i = omega (arith, bit-bit_or w (2 ^ i) i, bit-pow_self i, bit-lt w i)

pub bit_or-pow_ne : (w i j : ℕ) → i ≢ j → bit (bit_or w (2 ^ i)) j ≡ bit w j
bit_or-pow_ne w i j ne = omega (arith, bit-bit_or w (2 ^ i) j, bit-pow_ne i j ne)

-- `w & !(1 << i)`, in a word of `k` bits, likewise.
pub bit_and-clear_self : (k w i : ℕ) → i < k → bit (bit_and w (2 ^ k - 1 - 2 ^ i)) i ≡ 0
bit_and-clear_self k w i h = omega (
  arith,
  bit-bit_and w (2 ^ k - 1 - 2 ^ i) i,
  bit_complement k (2 ^ i) i (pow_mono i k h) h,
  bit-pow_self i,
)

pub bit_and-clear_ne :
    (k w i j : ℕ) → i < k → j < k → i ≢ j → bit (bit_and w (2 ^ k - 1 - 2 ^ i)) j ≡ bit w j
bit_and-clear_ne k w i j hi hj ne = omega (
  arith,
  bit-bit_and w (2 ^ k - 1 - 2 ^ i) j,
  bit_complement k (2 ^ i) j (pow_mono i k hi) hj,
  bit-pow_ne i j ne,
  bit-lt w j,
)

-- The digits of `w >> s`.
pub bit_shifted : (s w i : ℕ) → bit (w / 2 ^ s) i ≡ bit w (s + i)
unfolding bit
bit_shifted zero w i =
    let whole : w / 2 ^ 0 ≡ w = omega arith in
    let same : i ≡ 0 + i = omega arith in ap₂ bit whole same
bit_shifted (suc s) w i =
    let place : suc (s + i) ≡ suc s + i = omega arith in
    ap (λ (t : ℕ). bit t i) halved ∙ bit_shifted s (w / 2) i ∙ ap (bit w) place
  where
    halved : w / 2 ^ suc s ≡ w / 2 / 2 ^ s
    halved = ap (λ (t : ℕ). w / t) (pow-succ' 2 s) ∙ sym (div-div-eq-div-mul w 2 (2 ^ s))
