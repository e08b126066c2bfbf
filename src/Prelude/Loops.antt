-- ===== src/Prelude/Loops.antt =====
-- Runs that are known to have returned: a bind, a loop over a range, and a loop that counts.
use Prim.Native.Nat.{ℕ, zero, suc, ◌+◌, ◌≤◌, ◌<◌}
use mathlib.Core.Path.{◌≡◌, refl, sym, ap, subst, ◌∙◌}
use native.Mathlib.Omega.{arith}
use native.Mathlib.Decide.{ℕ_discrete}
use orin_os.Prelude.Panics.{
  Outcome, ok, panic, Fault, ◌>>=◌, ◌>>◌, guard, for_range, ok-injective, ok-ne-panic,
}
use mathlib.Core.Bool.{Bool, true, false}

pub bind_returned {ℓ κ} :
    {A : Type ℓ} {B : Type κ} (m : Outcome A) (f : A → Outcome B) (b : B)
    → (m >>= f) ≡ ok b
    → (a : A) × (m ≡ ok a) × (f a ≡ ok b)
bind_returned (ok a) f b e = (a, refl, e)
bind_returned (panic x) f b e = absurd (ok-ne-panic (sym e))

-- A bind whose first part is known.
pub bind_at {ℓ κ} :
    {A : Type ℓ} {B : Type κ} (m : Outcome A) (f : A → Outcome B) (a : A) (b : B)
    → m ≡ ok a
    → (m >>= f) ≡ ok b
    → f a ≡ ok b
bind_at {A = A} m f a b e q = sym (ap (λ (r : Outcome A). r >>= f) e) ∙ q

-- A test that was passed.
pub guard_returned {ℓ} :
    {B : Type ℓ} (t : Bool) (x : Fault) (m : Outcome B) (b : B)
    → (guard t x >> m) ≡ ok b
    → (t ≡ true) × (m ≡ ok b)
guard_returned true x m b e = (refl, e)
guard_returned false x m b e = absurd (ok-ne-panic (sym e))

-- What each round keeps, a loop that has returned has kept.
pub for_range_returned {ℓ κ} :
    {S : Type ℓ} (P : S → Type κ) (body : ℕ → S → Outcome S)
    → ((j : ℕ) (s t : S) → P s → body j s ≡ ok t → P t)
    → (rounds i : ℕ) (s t : S) → P s
    → for_range rounds i body s ≡ ok t
    → P t
unfolding for_range
for_range_returned P body keep zero i s t h e = subst P (ok-injective e) h
for_range_returned P body keep (suc rounds) i s t h e =
    let (u, first, rest) = bind_returned (body i s) (for_range rounds (suc i) body) t e in
    for_range_returned P body keep rounds (suc i) u t (keep i s u h first) rest

-- A loop that only counts up and has come out where it began has not counted in any round.
pub for_range_still :
    (body : ℕ → ℕ → Outcome ℕ)
    → ((j a b : ℕ) → body j a ≡ ok b → a ≤ b)
    → (rounds i k m : ℕ) → for_range rounds i body k ≡ ok m
    → (k ≤ m) × (m ≡ k → (j : ℕ) → i ≤ j → j < i + rounds → body j k ≡ ok k)
unfolding for_range
for_range_still body up zero i k m e =
    (omega (arith, ok-injective e), λ s j lo hi. absurd (omega arith))
for_range_still body up (suc rounds) i k m e =
    let (u, first, rest) = bind_returned (body i k) (for_range rounds (suc i) body) m e in
    let later = for_range_still body up rounds (suc i) u m rest in
    let low = up i k u first in
    (
      omega (arith, later.0),
      λ s j lo hi. elim (ℕ_discrete i j) [
        | yes here ↦
            let same : u ≡ k = omega (arith, later.0) in
            ap (λ (x : ℕ). body x k) (sym here) ∙ first ∙ ap ok same
        | no ne ↦
            let same : u ≡ k = omega (arith, later.0) in
            ap (λ (x : ℕ). body j x) (sym same)
            ∙ later.1 (omega arith) j (omega arith) (omega arith)
            ∙ ap ok same
      ],
    )

-- An invariant that depends on the round; `last` is where the loop ends.
pub for_range_rounds {ℓ κ} :
    {S : Type ℓ} (P : ℕ → S → Type κ) (body : ℕ → S → Outcome S)
    → ((j : ℕ) (s t : S) → P j s → body j s ≡ ok t → P (suc j) t)
    → (rounds i last : ℕ) (s t : S) → i + rounds ≡ last
    → P i s
    → for_range rounds i body s ≡ ok t
    → P last t
unfolding for_range
for_range_rounds {S = S} P body keep zero i last s t e h q =
    let z : i ≡ last = omega (arith, e) in
    subst (λ (j : ℕ). P j t) z (subst (P i) (ok-injective q) h)
for_range_rounds P body keep (suc rounds) i last s t e h q =
    let (u, first, rest) = bind_returned (body i s) (for_range rounds (suc i) body) t q in
    for_range_rounds P body keep rounds (suc i) last u t (omega (arith, e)) (keep i s u h first)
      rest

-- The run returns, and what it returns has the property.
abbrev pub Gives {ℓ} : {A : Type ℓ} → (A → Type 0) → Outcome A → Type ℓ
Gives {A = A} P m = (a : A) × (m ≡ ok a) × P a

-- A loop whose every round returns.
pub for_range-Gives {ℓ} :
    {S : Type ℓ} (P : ℕ → S → Type 0) (body : ℕ → S → Outcome S) (last : ℕ)
    → ((j : ℕ) (s : S) → j < last → P j s → Gives (P (suc j)) (body j s))
    → (rounds i : ℕ) (s : S) → i + rounds ≡ last
    → P i s
    → Gives (P last) (for_range rounds i body s)
unfolding for_range
for_range-Gives P body last step zero i s e h =
    (s, refl, subst (λ (j : ℕ). P j s) (omega (arith, e)) h)
for_range-Gives P body last step (suc rounds) i s e h =
    let (u, first, hu) = step i s (omega (arith, e)) h in
    let (t, rest, ht) = for_range-Gives P body last step rounds (suc i) u (omega (arith, e)) hu in
    (t, ap (λ (r : Outcome _). r >>= for_range rounds (suc i) body) first ∙ rest, ht)
