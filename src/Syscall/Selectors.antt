-- ===== src/Syscall/Selectors.antt =====
-- What a processor reads out of the IA32_STAR that star_value gives, and the errors in rax.
use orin_os.Prelude.{ℕ, ◌+◌, ◌-◌, ◌*◌, ◌/◌, ◌%◌, ◌^◌, ◌<◌, bit_or, ◌≡◌, sym, ap₂, ◌∙◌, arith}
use native.Mathlib.Nat.{one-le-pow}
use orin_os.Prelude.Bits.{bit_ext, bit-bit_or, bit-zero}
use orin_os.Prelude.Bits.Words.{bit_or-lt}
use orin_os.Prelude.Bits.Fields.{bit_or_split}
use orin_os.Prelude.Bits.Masks.{low_mask, bit_or-zero}
use orin_os.Syscall.{star_value}

-- `syscall` loads CS from bits 47 to 32, with privilege level 0. `sysret` to 64-bit code takes bits
-- 63 to 48 plus 16 for CS and plus 8 for SS, each with privilege level 3.
abbrev pub syscall_cs : ℕ → ℕ
syscall_cs star = star / 2 ^ 32 % 2 ^ 16 / 4 * 4

abbrev pub sysret_cs : ℕ → ℕ
sysret_cs star = (star / 2 ^ 48 + 16) % 2 ^ 16 / 4 * 4 + 3

abbrev pub sysret_ss : ℕ → ℕ
sysret_ss star = (star / 2 ^ 48 + 8) % 2 ^ 16 / 4 * 4 + 3

zero-bit_or : (k r : ℕ) → r < 2 ^ k → bit_or 0 r ≡ r
zero-bit_or k r h =
    bit_ext k (bit_or 0 r) r (bit_or-lt k 0 r (one-le-pow k 2 (omega arith)) h) h
      (λ i. omega (arith, bit-bit_or 0 r i, bit-zero i))

fields : (q r : ℕ) → q < 2 ^ 16 → r < 2 ^ 48 → bit_or (q * 2 ^ 48) r ≡ q * 2 ^ 48 + r
fields q r hq hr =
    let left : q * 2 ^ 48 + 0 ≡ q * 2 ^ 48 = omega arith in
    let right : r ≡ 0 * 2 ^ 48 + r = omega arith in
    let split : bit_or (q * 2 ^ 48) r ≡ bit_or q 0 * 2 ^ 48 + bit_or 0 r =
      ap₂ bit_or (sym left) right ∙ bit_or_split 48 q 0 0 r (omega arith) hr in
    split ∙ ap₂ (λ (t u : ℕ). t * 2 ^ 48 + u) (bit_or-zero 16 q hq) (zero-bit_or 48 r hr)

sums :
    (k u : ℕ)
    → k < 2 ^ 16
    → u < 2 ^ 16
    → star_value k u ≡ (u + 2 ^ 16 - 16) % 2 ^ 16 * 2 ^ 48 + k * 2 ^ 32
unfolding star_value
sums k u hk hu =
    let s = (u + 2 ^ 16 - 16) % 2 ^ 16 in
    let small : s < 2 ^ 16 = omega arith in
    let base : s % 2 ^ 16 * 2 ^ 48 % 2 ^ 64 ≡ s * 2 ^ 48 = omega arith in
    let low : k % 2 ^ 16 * 2 ^ 32 % 2 ^ 64 ≡ k * 2 ^ 32 = omega arith in
    let joined : bit_or (s * 2 ^ 48) (k * 2 ^ 32) ≡ s * 2 ^ 48 + k * 2 ^ 32 =
      fields s (k * 2 ^ 32) small (omega arith) in
    (rw (low_mask 16 s, low_mask 16 k, base, low) joined)

-- For a kernel selector of privilege level 0 and a user selector of level 3, both of 16 bits, the
-- STAR that star_value gives makes syscall take the given kernel selector for CS, and sysret to
-- 64-bit code the given user selector for CS and the one 8 below it, modulo 2^16, for SS.
pub star_value-selects :
    (kernel_cs user_cs : ℕ)
    → kernel_cs < 2 ^ 16
    → user_cs < 2 ^ 16
    → kernel_cs % 4 ≡ 0
    → user_cs % 4 ≡ 3
    → (syscall_cs (star_value kernel_cs user_cs) ≡ kernel_cs)
      × (sysret_cs (star_value kernel_cs user_cs) ≡ user_cs)
      × (sysret_ss (star_value kernel_cs user_cs) ≡ (user_cs + 2 ^ 16 - 8) % 2 ^ 16)
star_value-selects k u hk hu level0 level3 =
    let e = sums k u hk hu in (omega (arith, e), omega (arith, e), omega (arith, e))
