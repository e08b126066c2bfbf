-- ===== src/Prelude/Bits.antt =====
-- Binary digits of native numbers: `&`, `|` and `!` of machine words, digit by digit.
mod Step
pub mod Words
pub mod Fields
pub mod Masks
use Step.{bit_and_step, bit_or_step}
use Prim.Native.Nat.{
  ℕ, zero, suc, ◌+◌, ◌-◌, ◌*◌, ◌/◌, ◌%◌, ◌^◌, ◌≤◌, ◌<◌, min, max, bit_and, bit_or,
}
use mathlib.Core.Path.{◌≡◌, refl, sym, ap, ◌∙◌}
use mathlib.Core.Logic.{◌≢◌}
use native.Mathlib.Nat.{pow-succ', div-div-eq-div-mul}
use native.Mathlib.Omega.{arith}

-- The digit of weight `2 ^ i`.
unfoldable pub bit : ℕ → ℕ → ℕ
bit n zero = n % 2
bit n (suc i) = bit (n / 2) i

pub bit-lt : (n i : ℕ) → bit n i < 2
unfolding bit
bit-lt n zero = omega arith
bit-lt n (suc i) = bit-lt (n / 2) i

pub bit-div : (n i : ℕ) → bit n i ≡ n / 2 ^ i % 2
unfolding bit
bit-div n zero = omega arith
bit-div n (suc i) =
    bit-div (n / 2) i
    ∙ ap (λ (t : ℕ). t % 2)
        (div-div-eq-div-mul n 2 (2 ^ i) ∙ ap (λ (t : ℕ). n / t) (sym (pow-succ' 2 i)))

pub bit-zero : (i : ℕ) → bit 0 i ≡ 0
unfolding bit
bit-zero zero = refl
bit-zero (suc i) = bit-zero i

pub bit-bit_and : (a b i : ℕ) → bit (bit_and a b) i ≡ min (bit a i) (bit b i)
unfolding bit
bit-bit_and a b zero = omega (arith, bit_and_step a b)
bit-bit_and a b (suc i) =
    ap (λ (t : ℕ). bit t i) (omega (arith, bit_and_step a b)) ∙ bit-bit_and (a / 2) (b / 2) i

pub bit-bit_or : (a b i : ℕ) → bit (bit_or a b) i ≡ max (bit a i) (bit b i)
unfolding bit
bit-bit_or a b zero = omega (arith, bit_or_step a b)
bit-bit_or a b (suc i) =
    ap (λ (t : ℕ). bit t i) (omega (arith, bit_or_step a b)) ∙ bit-bit_or (a / 2) (b / 2) i

-- Two numbers with the same digits are one number.
pub bit_ext : (k a b : ℕ) → a < 2 ^ k → b < 2 ^ k → ((i : ℕ) → bit a i ≡ bit b i) → a ≡ b
unfolding bit
bit_ext zero a b ha hb h = omega arith
bit_ext (suc k) a b ha hb h = omega (
  arith,
  h 0,
  bit_ext k (a / 2) (b / 2) (omega (arith, pow-succ' 2 k)) (omega (arith, pow-succ' 2 k))
      (λ i. h (suc i)),
)

pub bit_above : (k a i : ℕ) → a < 2 ^ k → k ≤ i → bit a i ≡ 0
unfolding bit
bit_above zero a i h le = ap (λ (t : ℕ). bit t i) (omega arith) ∙ bit-zero i
bit_above (suc k) a zero h le = absurd (omega arith)
bit_above (suc k) a (suc i) h le =
    bit_above k (a / 2) i (omega (arith, pow-succ' 2 k)) (omega arith)

pub bit-pow_self : (i : ℕ) → bit (2 ^ i) i ≡ 1
unfolding bit
bit-pow_self zero = refl
bit-pow_self (suc i) = ap (λ (t : ℕ). bit t i) (omega (arith, pow-succ' 2 i)) ∙ bit-pow_self i

pub bit-pow_ne : (j i : ℕ) → j ≢ i → bit (2 ^ j) i ≡ 0
unfolding bit
bit-pow_ne zero zero h = absurd (h refl)
bit-pow_ne zero (suc i) h = bit-zero i
bit-pow_ne (suc j) zero h = omega (arith, pow-succ' 2 j)
bit-pow_ne (suc j) (suc i) h =
    ap (λ (t : ℕ). bit t i) (omega (arith, pow-succ' 2 j)) ∙ bit-pow_ne j i (λ e. h (ap suc e))

-- The digits of `!x` in a word of `k` bits.
pub bit_complement : (k x i : ℕ) → x < 2 ^ k → i < k → bit (2 ^ k - 1 - x) i ≡ 1 - bit x i
unfolding bit
bit_complement zero x i hx hi = absurd (omega arith)
bit_complement (suc k) x zero hx hi = omega (arith, pow-succ' 2 k)
bit_complement (suc k) x (suc i) hx hi =
    ap (λ (t : ℕ). bit t i) (omega (arith, pow-succ' 2 k))
    ∙ bit_complement k (x / 2) i (omega (arith, pow-succ' 2 k)) (omega arith)
