-- ===== src/Prelude/Bits/Fields.antt =====
-- `&` and `|` of words made of a high and a low field act field by field, at every width.
use Prim.Native.Nat.{ℕ, zero, suc, ◌+◌, ◌*◌, ◌/◌, ◌^◌, ◌<◌, bit_and, bit_or}
use mathlib.Core.Path.{◌≡◌, ap}
use native.Mathlib.Nat.{pow-succ'}
use native.Mathlib.Omega.{arith}
use orin_os.Prelude.Bits.Step.{bit_and_step, bit_or_step}

mul-double : (q k : ℕ) → q * 2 ^ suc k ≡ 2 * (q * 2 ^ k)
mul-double q k = omega (arith, ap (λ (t : ℕ). q * t) (pow-succ' 2 k))

pub bit_or_split :
    (k q p r s : ℕ)
    → r < 2 ^ k
    → s < 2 ^ k
    → bit_or (q * 2 ^ k + r) (p * 2 ^ k + s) ≡ bit_or q p * 2 ^ k + bit_or r s
bit_or_split zero q p r s hr hs = ground arith
bit_or_split (suc k) q p r s hr hs = ground (
  arith,
  bit_or_step (q * 2 ^ suc k + r) (p * 2 ^ suc k + s),
  bit_or_step r s,
  mul-double q k,
  mul-double p k,
  mul-double (bit_or q p) k,
  pow-succ' 2 k,
  bit_or_split k q p (r / 2) (s / 2) (omega (arith, pow-succ' 2 k)) (omega (arith, pow-succ' 2 k)),
)

pub bit_and_split :
    (k q p r s : ℕ)
    → r < 2 ^ k
    → s < 2 ^ k
    → bit_and (q * 2 ^ k + r) (p * 2 ^ k + s) ≡ bit_and q p * 2 ^ k + bit_and r s
bit_and_split zero q p r s hr hs = ground arith
bit_and_split (suc k) q p r s hr hs = ground (
  arith,
  bit_and_step (q * 2 ^ suc k + r) (p * 2 ^ suc k + s),
  bit_and_step r s,
  mul-double q k,
  mul-double p k,
  mul-double (bit_and q p) k,
  pow-succ' 2 k,
  bit_and_split k q p (r / 2) (s / 2) (omega (arith, pow-succ' 2 k)) (omega (arith, pow-succ' 2 k)),
)
