-- ===== src/Cpu/Leaves.antt =====
-- The leaves that detection reads.
use orin_os.Prelude.{ℕ, ◌≤◌, ◌≡◌, refl, Bool, true, false, leb, leb→le, Bool-cases, inl, inr, arith}
use orin_os.Cpu.{Cpuid, has, leaf_up_to, brand_of, hypervisor_name, features, detect}

-- Two processors that give the same results on the leaves that the first one reports.
pub record SameLeaves (raw other : Cpuid) : Type 0 where
  pub basic : other 0 0 ≡ raw 0 0
  pub extended : other 0x80000000 0 ≡ raw 0x80000000 0
  pub basic_leaf : (l : ℕ) → l ≤ (raw 0 0).eax → other l 0 ≡ raw l 0
  pub extended_leaf : (l : ℕ) → 0x80000000 ≤ l → l ≤ (raw 0x80000000 0).eax → other l 0 ≡ raw l 0
  pub hypervisor :
      has (leaf_up_to raw (raw 0 0).eax 1).ecx 31 ≡ true → other 0x40000000 0 ≡ raw 0x40000000 0

leaf_up_to-same :
    (raw other : Cpuid) (top l : ℕ)
    → (l ≤ top → other l 0 ≡ raw l 0)
    → leaf_up_to other top l ≡ leaf_up_to raw top l
unfolding leaf_up_to
leaf_up_to-same raw other top l h = elim (Bool-cases (leb l top)) [
  | inl e ↦ rw e (h (leb→le l top e))
  | inr e ↦ rw e refl
]

brand_of-same :
    (raw other : Cpuid) (top : ℕ)
    → ((l : ℕ) → 0x80000000 ≤ l → l ≤ top → other l 0 ≡ raw l 0)
    → brand_of other top ≡ brand_of raw top
unfolding brand_of
brand_of-same raw other top h = elim (Bool-cases (leb 0x80000004 top)) [
  | inl e ↦
      let reach = leb→le 0x80000004 top e in
      rw
        (
          e,
          h 0x80000002 (omega arith) (omega arith),
          h 0x80000003 (omega arith) (omega arith),
          h 0x80000004 (omega arith) reach,
        )
        refl
  | inr e ↦ rw e refl
]

hypervisor_name-same :
    (raw other : Cpuid) (b : Bool)
    → (b ≡ true → other 0x40000000 0 ≡ raw 0x40000000 0)
    → hypervisor_name other b ≡ hypervisor_name raw b
unfolding hypervisor_name
hypervisor_name-same raw other true h = rw (h refl) refl
hypervisor_name-same raw other false h = refl

-- What `detect` finds depends only on the leaves that the processor says it has: the basic ones up to
-- its highest, the extended ones up to their highest, and the hypervisor's if its bit is set.
pub detect-SameLeaves : (raw other : Cpuid) → SameLeaves raw other → detect other ≡ detect raw
unfolding detect features
detect-SameLeaves raw other s =
    rw
      (
        s.basic,
        s.extended,
        leaf_up_to-same raw other (raw 0 0).eax 1 (s.basic_leaf 1),
        leaf_up_to-same raw other (raw 0 0).eax 7 (s.basic_leaf 7),
        leaf_up_to-same raw other (raw 0 0).eax 0x15 (s.basic_leaf 0x15),
        leaf_up_to-same raw other (raw 0x80000000 0).eax 0x80000001
            (s.extended_leaf 0x80000001 (omega arith)),
        leaf_up_to-same raw other (raw 0x80000000 0).eax 0x80000007
            (s.extended_leaf 0x80000007 (omega arith)),
        brand_of-same raw other (raw 0x80000000 0).eax s.extended_leaf,
        hypervisor_name-same raw other (has (leaf_up_to raw (raw 0 0).eax 1).ecx 31) s.hypervisor,
      )
      refl
