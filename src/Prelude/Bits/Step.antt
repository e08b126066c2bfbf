-- ===== src/Prelude/Bits/Step.antt =====
-- `bit_and` and `bit_or` stand for a recursion over binary digits that counts the digits still to
-- go. The count does not matter once it is large enough, so the lowest digit obeys a plain law.
use Prim.Native.Nat.{
  ℕ, zero, suc, ◌+◌, ◌*◌, ◌/◌, ◌%◌, ◌≤◌, min, max, bit_and, bit_or, digits, bit_or-bitwise,
  bit_and-bitwise,
}
use mathlib.Core.Path.{◌≡◌, refl, ap, ◌∙◌}
use native.Mathlib.Decide.{ℕ_discrete}
use native.Mathlib.Omega.{arith}

module _ (high : ℕ → ℕ) (op : ℕ → ℕ → ℕ) where
  abbrev run : ℕ → ℕ → ℕ → ℕ
  run = digits high op

  run-suc : (k a b : ℕ) → a ≤ k → run (suc k) a b ≡ run k a b
  run-suc zero zero b h = refl
  run-suc (suc k) zero b h = refl
  run-suc zero (suc a) b h = elim h [ ]
  run-suc (suc k) (suc a) b h =
      let rest = run-suc k (suc a / 2) (b / 2) (omega arith) in
      ap (λ (t : ℕ). t * 2 + op (suc a % 2) (b % 2)) rest

  -- Any count from `a` on gives what `a` gives.
  run_enough : (k a b : ℕ) → a ≤ k → run k a b ≡ run a a b
  run_enough zero a b h = let none_left : 0 ≡ a = omega arith in ap (λ (n : ℕ). run n a b) none_left
  run_enough (suc k) a b h = elim (ℕ_discrete (suc k) a) [
    | yes e ↦ ap (λ (n : ℕ). run n a b) e
    | no ne ↦ run-suc k a b (omega arith) ∙ run_enough k a b (omega arith)
  ]

  -- The law of the lowest digit, where the first number is not zero.
  run_lowest :
      (a b : ℕ)
      → run (suc a) (suc a) b ≡ run (suc a / 2) (suc a / 2) (b / 2) * 2 + op (suc a % 2) (b % 2)
  run_lowest a b =
      ap (λ (t : ℕ). t * 2 + op (suc a % 2) (b % 2))
        (run_enough a (suc a / 2) (b / 2) (omega arith))

pub bit_or_step : (x y : ℕ) → bit_or x y ≡ bit_or (x / 2) (y / 2) * 2 + max (x % 2) (y % 2)
bit_or_step zero y =
    let digit : y ≡ y / 2 * 2 + max 0 (y % 2) = omega arith in simp bit_or-bitwise digit
bit_or_step (suc x) y = simp bit_or-bitwise (run_lowest (λ t. t) max x y)

pub bit_and_step : (x y : ℕ) → bit_and x y ≡ bit_and (x / 2) (y / 2) * 2 + min (x % 2) (y % 2)
bit_and_step zero y =
    let nothing : 0 ≡ 0 * 2 + min 0 (y % 2) = omega arith in simp bit_and-bitwise nothing
bit_and_step (suc x) y = simp bit_and-bitwise (run_lowest (λ _. 0) min x y)
