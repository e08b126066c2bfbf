-- ===== src/Cpu/Entropy.antt =====
-- What the verdict on RDRAND says of its eight probes.
use orin_os.Prelude.{
  ℕ, zero, suc, ◌+◌, ◌-◌, ◌^◌, ◌≤◌, ◌<◌, ◌≡◌, refl, subst, ◌⊎◌, ◌↔◌, inl, inr, Bool, true, false,
  not, ◌&&◌, ◌==◌, Option, none, some, arith, ℕ_discrete, if◌then◌else◌,
}
use orin_os.Cpu.{CpuFeatures, probe, entropy_probe}

-- A result that is no evidence of a working generator.
unfoldable pub IsPoor : Option ℕ → Type 0
IsPoor none = Unit
IsPoor (some v) = (v ≡ 0) ⊎ (v ≡ 2 ^ 64 - 1)

poor_word :
    (v : ℕ) (rest : Bool)
    → (if not (v == 2 ^ 64 - 1) && not (v == 0) then false else rest) ≡ true
    → ((v ≡ 0) ⊎ (v ≡ 2 ^ 64 - 1)) × (rest ≡ true)
poor_word v rest e = elim (ℕ_discrete v 0) [
  | yes z ↦ (inl z, ground arith)
  | no nz ↦ elim (ℕ_discrete v (2 ^ 64 - 1)) [
    | yes top ↦ (inr top, ground arith)
    | no ntop ↦ absurd (ground arith)
  ]
]

word_poor :
    (v : ℕ) (rest : Bool)
    → (v ≡ 0) ⊎ (v ≡ 2 ^ 64 - 1)
    → rest ≡ true
    → (if not (v == 2 ^ 64 - 1) && not (v == 0) then false else rest) ≡ true
word_poor v rest (inl z) r = ground arith
word_poor v rest (inr top) r = ground arith

-- One probe in front of the rest.
probe_first :
    (o : Option ℕ) (rest : Bool)
    → elim o [
      | none ↦ rest
      | some v ↦ if not (v == 2 ^ 64 - 1) && not (v == 0) then false else rest
    ]
      ≡ true
    → IsPoor o × (rest ≡ true)
unfolding IsPoor
probe_first none rest e = (tt, e)
probe_first (some v) rest e = poor_word v rest e

first_probe :
    (o : Option ℕ) (rest : Bool)
    → IsPoor o
    → rest ≡ true
    → elim o [
      | none ↦ rest
      | some v ↦ if not (v == 2 ^ 64 - 1) && not (v == 0) then false else rest
    ]
      ≡ true
unfolding IsPoor
first_probe none rest p e = e
first_probe (some v) rest p e = word_poor v rest p e

module _ (results : ℕ → Option ℕ) where
  probe-IsPoor :
      (rounds i : ℕ)
      → probe rounds i results ≡ true
      → (j : ℕ) → i ≤ j
      → j < i + rounds
      → IsPoor (results j)
  unfolding probe
  probe-IsPoor zero i e j lo hi = absurd (omega arith)
  probe-IsPoor (suc rounds) i e j lo hi =
      let (p, rest) = probe_first (results i) (probe rounds (suc i) results) e in
      elim (ℕ_discrete i j) [
        | yes same ↦ subst (λ (x : ℕ). IsPoor (results x)) same p
        | no ne ↦ probe-IsPoor rounds (suc i) rest j (omega arith) (omega arith)
      ]

  IsPoor-probe :
      (rounds i : ℕ)
      → ((j : ℕ) → i ≤ j → j < i + rounds → IsPoor (results j))
      → probe rounds i results ≡ true
  unfolding probe
  IsPoor-probe zero i h = refl
  IsPoor-probe (suc rounds) i h =
      first_probe (results i) (probe rounds (suc i) results) (h i (omega arith) (omega arith))
        (IsPoor-probe rounds (suc i) λ j lo hi. h j (omega arith) (omega arith))

-- On a processor with RDRAND entropy_probe suspects the generator if and only if none of its eight
-- probes gave a word other than 0 and 2^64 - 1, where a probe that failed gave none; the verdict is
-- stored.
pub entropy_probe-Suspects :
    (f : CpuFeatures) (results : ℕ → Option ℕ) (stored : Bool)
    → f.rdrand ≡ true
    → (((entropy_probe f results stored).0 ≡ true) ↔ ((j : ℕ) → j < 8 → IsPoor (results j)))
      × ((entropy_probe f results stored).1 ≡ (entropy_probe f results stored).0)
unfolding entropy_probe
entropy_probe-Suspects f results stored has = rw has (
  (
    λ e j lt. probe-IsPoor results 8 0 e j (omega arith) (omega arith),
    λ h. IsPoor-probe results 8 0 λ j lo hi. h j (omega arith),
  ),
  refl,
)
