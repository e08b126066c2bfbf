-- ===== src/Prelude/Panics.antt =====
-- The outcome of kernel code that may panic. Both cargo profiles build with overflow checks, so
-- arithmetic that leaves its machine type is a panic of its own; so is an index out of bounds.
use Prim.Native.Nat.{ℕ, ◌^◌, ◌-◌, ◌<◌, ◌≤◌}
use mathlib.Core.Path.{◌≡◌}
use native.Mathlib.Omega.{arith}
use orin_os.Prelude.Tests.{ltb, leb, if◌then◌else◌}
use mathlib.Core.Bool.{Bool, true, false}
use mathlib.Core.Option.{Option, none, some}

pub data Fault : Type 0 where
  out_of_bounds overflow : Fault
  assert_failed : Fault  -- `assert!`
  explicit : Fault  -- `panic!`, `expect`
  out_of_fuel : Fault  -- of the model: a loop that its fuel did not cover

pub data Outcome {ℓ} (A : Type ℓ) : Type ℓ where
  ok : A → Outcome A
  panic : Fault → Outcome A

infixl 5 ◌>>=◌ ◌>>◌
abbrev pub ◌>>=◌ {ℓ κ} : {A : Type ℓ} {B : Type κ} → Outcome A → (A → Outcome B) → Outcome B
ok a >>= f = f a
panic e >>= f = panic e

abbrev pub ◌>>◌ {ℓ} : {B : Type ℓ} → Outcome (Unit {0}) → Outcome B → Outcome B
m >> k = m >>= λ _. k

-- `guard b e` goes on only if `b` holds.
abbrev pub guard : Bool → Fault → Outcome (Unit {0})
guard true e = ok tt
guard false e = panic e

-- An index into a slice, a checked read: the panic is Rust's bounds check.
abbrev pub or_panic {ℓ} : {A : Type ℓ} → Option A → Fault → Outcome A
or_panic none e = panic e
or_panic (some a) e = ok a

-- A value of 64-bit arithmetic (`u64`, `usize`).
abbrev pub checked : ℕ → Outcome ℕ
checked n = if ltb n (2 ^ 64) then ok n else panic overflow

-- Subtraction.
abbrev pub checked_sub : ℕ → ℕ → Outcome ℕ
checked_sub a b = if leb b a then ok (a - b) else panic overflow

pub checked-ok : (n : ℕ) → n < 2 ^ 64 → checked n ≡ ok n
checked-ok n h = ground arith

pub checked_sub-ok : (a b : ℕ) → b ≤ a → checked_sub a b ≡ ok (a - b)
checked_sub-ok a b h = ground arith

-- A loop `for i in i..i + rounds` whose body may panic.
unfoldable pub for_range {ℓ} : {S : Type ℓ} → ℕ → ℕ → (ℕ → S → Outcome S) → S → Outcome S
for_range ℕ.zero i body s = ok s
for_range (ℕ.suc rounds) i body s = body i s >>= for_range rounds (ℕ.suc i) body

pub ok-injective {ℓ} : {A : Type ℓ} {a b : A} → ok a ≡ ok b → a ≡ b
ok-injective e = cc

pub ok-ne-panic {ℓ} : {A : Type ℓ} {a : A} {e : Fault} → ok a ≡ panic e → ⊥
ok-ne-panic h = cc

pub some-ne-none {ℓ} : {A : Type ℓ} {a : A} → some a ≡ none → ⊥
some-ne-none h = cc

pub some-injective {ℓ} : {A : Type ℓ} {a b : A} → some a ≡ some b → a ≡ b
some-injective h = cc
