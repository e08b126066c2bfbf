-- ===== src/Cpu/Detected.antt =====
-- What detection finds on a processor with 32-bit registers.
use orin_os.Prelude.{
  ℕ, ◌+◌, ◌-◌, ◌*◌, ◌/◌, ◌%◌, ◌^◌, ◌≤◌, ◌<◌, ◌≡◌, ◌≢◌, refl, sym, ◌∙◌, Bool, true, false, not, ◌&&◌,
  ◌==◌, List, Option, none, some, ok, bit_and, length, length-replicate, replicate, leb, arith,
  checked-ok, Bool-cases, inl, inr, if◌then◌else◌, checked, ◌>>=◌, some-injective, some-ne-none,
  min, subst, ◌⊎◌,
}
use native.Mathlib.Nat.{mul-le-mul_right, mul-le-mul, div-mul-le_self, div-add-mod', mod-lt}
use orin_os.Prelude.Loops.{Gives}
use orin_os.Prelude.Text.{le_bytes, length-le_bytes, copy_at, length-copy_at}
use orin_os.Prelude.Bits.Masks.{low_mask}
use orin_os.Cpu.{
  Cpuid, CpuidResult, CpuFeatures, leaf_up_to, name_of, copy_brand, brand_of, hypervisor_name,
  family_of, model_of, tsc_rate, features, detect, has,
}

pub record Is32 (r : CpuidResult) : Type 0 where
  pub eax_in : r.eax < 2 ^ 32
  pub ebx_in : r.ebx < 2 ^ 32
  pub ecx_in : r.ecx < 2 ^ 32
  pub edx_in : r.edx < 2 ^ 32

-- Four bytes of a register.
length-copy_register :
    (buf : List ℕ) (at v n : ℕ)
    → length buf ≡ n
    → at + 4 ≤ n
    → length (copy_at buf at (le_bytes 4 v)) ≡ n
length-copy_register buf at v n e h =
    length-copy_at buf at (le_bytes 4 v) (omega (arith, length-le_bytes 4 v)) ∙ e

length-name_of : (a b c : ℕ) → length (name_of a b c) ≡ 13
unfolding name_of
length-name_of a b c =
    length-copy_register (copy_at (copy_at (replicate 13 0) 0 (le_bytes 4 a)) 4 (le_bytes 4 b)) 8 c
      13
      (length-copy_register (copy_at (replicate 13 0) 0 (le_bytes 4 a)) 4 b 13
        (length-copy_register (replicate 13 0) 0 a 13 (length-replicate 13 0) (omega arith))
        (omega arith))
      (omega arith)

-- The time-stamp counter's rate: leaf 0x15 gives a nominal clock and a ratio, all of them or none.
pub record IsRate (leaf : CpuidResult) (khz : ℕ) : Type 0 where
  pub at_least : khz * 1000 * leaf.eax ≤ leaf.ecx * leaf.ebx
  pub below : leaf.ecx * leaf.ebx < (khz + 1) * 1000 * leaf.eax

quotient_bounds :
    (n e : ℕ) → 0 < e → (n / e / 1000 * 1000 * e ≤ n) × (n < (n / e / 1000 + 1) * 1000 * e)
quotient_bounds n e pos =
    let q : n / e / 1000 * 1000 ≤ n / e = omega arith in
    let r : n / e + 1 ≤ (n / e / 1000 + 1) * 1000 = omega arith in
    (
      omega (arith, mul-le-mul_right e q, div-mul-le_self n e),
      omega (arith, mul-le-mul_right e r, div-add-mod' n e, mod-lt n pos),
    )

pub tsc_rate-IsRate :
    (leaf : CpuidResult)
    → Is32 leaf
    → Gives (λ r. (khz : ℕ) → r ≡ some khz → IsRate leaf khz) (tsc_rate leaf)
unfolding tsc_rate
tsc_rate-IsRate leaf h = by_tests (leaf.ebx == 0) (leaf.eax == 0) (leaf.ecx == 0) refl refl
  where
    Rates : Option ℕ → Type 0
    Rates r = (khz : ℕ) → r ≡ some khz → IsRate leaf khz

    product_in : leaf.ecx * leaf.ebx < 2 ^ 64
    product_in =
        let q : leaf.ecx ≤ 2 ^ 32 - 1 = omega arith in
        let r : leaf.ebx ≤ 2 ^ 32 - 1 = omega arith in omega (arith, mul-le-mul q r)

    by_tests :
        (b a c : Bool)
        → (leaf.eax == 0) ≡ a
        → (leaf.ecx == 0) ≡ c
        → Gives Rates (
            if not b && not a
            then (let nominal = if not c then leaf.ecx else 0 in
                if not (nominal == 0)
                then (checked (nominal * leaf.ebx) >>= λ n. ok (some (n / leaf.eax / 1000)))
                else ok none)
            else ok none)
    by_tests true a c p q = (none, refl, λ khz e. absurd (some-ne-none (sym e)))
    by_tests false true c p q = (none, refl, λ khz e. absurd (some-ne-none (sym e)))
    by_tests false false true p q = (none, refl, λ khz e. absurd (some-ne-none (sym e)))
    by_tests false false false p q =
        let pos : 0 < leaf.eax = ground arith in
        let (lo, hi) = quotient_bounds (leaf.ecx * leaf.ebx) leaf.eax pos in
        (
          some (leaf.ecx * leaf.ebx / leaf.eax / 1000),
          rw (q, checked-ok (leaf.ecx * leaf.ebx) product_in) refl,
          λ khz e.
              let same : leaf.ecx * leaf.ebx / leaf.eax / 1000 ≡ khz = some-injective e in
              subst (IsRate leaf) same (record { at_least = lo; below = hi }),
        )

nibble : (x : ℕ) → bit_and x 0xF ≡ x % 16
nibble x = low_mask 4 x

-- The signature of leaf 1 and what is read from it.
pub record IsSignature (eax family model stepping : ℕ) : Type 0 where
  pub base_family : min family 15 ≡ eax / 2 ^ 8 % 16
  pub ext_family : eax / 2 ^ 8 % 16 ≡ 15 → family ≡ 15 + eax / 2 ^ 20 % 256
  pub base_model : model % 16 ≡ eax / 2 ^ 4 % 16
  pub ext_model : eax / 2 ^ 8 % 16 ≡ 6 ⊎ eax / 2 ^ 8 % 16 ≡ 15 → model / 16 ≡ eax / 2 ^ 16 % 16
  pub own_family : eax / 2 ^ 8 % 16 ≢ 15 → family ≡ eax / 2 ^ 8 % 16
  pub own_model : eax / 2 ^ 8 % 16 ≢ 6 → eax / 2 ^ 8 % 16 ≢ 15 → model ≡ eax / 2 ^ 4 % 16
  pub stepping_is : stepping ≡ eax % 16
  pub family_in : family ≤ 270
  pub model_in : model ≤ 255

signature : (eax : ℕ) → IsSignature eax (family_of eax) (model_of eax) (bit_and eax 0xF)
unfolding family_of model_of
signature eax =
    rw
      (
        nibble (eax / 2 ^ 8),
        nibble (eax / 2 ^ 4),
        nibble (eax / 2 ^ 16),
        nibble eax,
        low_mask 8 (eax / 2 ^ 20),
      )
      (record {
        base_family = ground arith;
        ext_family = λ e. ground arith;
        base_model = ground arith;
        ext_model = λ e. ground arith;
        own_family = λ e. ground arith;
        own_model = λ e e1. ground arith;
        stepping_is = refl;
        family_in = ground arith;
        model_in = ground arith;
      })

length-copy_brand :
    (i : ℕ) (r : CpuidResult) (brand : List ℕ)
    → i ≤ 2
    → length brand ≡ 49
    → length (copy_brand i r brand) ≡ 49
unfolding copy_brand
length-copy_brand i r brand h e =
    let first = length-copy_register brand (i * 16) r.eax 49 e (omega arith) in
    let second =
      length-copy_register (copy_at brand (i * 16) (le_bytes 4 r.eax)) (i * 16 + 4) r.ebx 49 first
        (omega arith) in
    let third =
      length-copy_register
        (copy_at (copy_at brand (i * 16) (le_bytes 4 r.eax)) (i * 16 + 4) (le_bytes 4 r.ebx))
        (i * 16 + 8) r.ecx 49 second (omega arith) in
    length-copy_register
      (copy_at (copy_at (copy_at brand (i * 16) (le_bytes 4 r.eax)) (i * 16 + 4) (le_bytes 4 r.ebx))
        (i * 16 + 8) (le_bytes 4 r.ecx))
      (i * 16 + 12) r.edx 49 third (omega arith)

length-brand_of : (raw : Cpuid) (top : ℕ) → length (brand_of raw top) ≡ 49
unfolding brand_of
length-brand_of raw top = elim (Bool-cases (leb 0x80000004 top)) [
  | inl e ↦ rw e (
      length-copy_brand 2 (raw 0x80000004 0)
        (copy_brand 1 (raw 0x80000003 0) (copy_brand 0 (raw 0x80000002 0) (replicate 49 0)))
        (omega arith)
        (length-copy_brand 1 (raw 0x80000003 0) (copy_brand 0 (raw 0x80000002 0) (replicate 49 0))
          (omega arith)
          (length-copy_brand 0 (raw 0x80000002 0) (replicate 49 0) (omega arith)
            (length-replicate 49 0))))
  | inr e ↦ rw e (length-replicate 49 0)
]

length-hypervisor_name : (raw : Cpuid) (b : Bool) → length (hypervisor_name raw b) ≡ 13
unfolding hypervisor_name
length-hypervisor_name raw true =
    length-name_of (raw 0x40000000 0).ebx (raw 0x40000000 0).ecx (raw 0x40000000 0).edx
length-hypervisor_name raw false = length-replicate 13 0

pub leaf_up_to-Is32 :
    (raw : Cpuid) (top l : ℕ) → ((n : ℕ) → Is32 (raw n 0)) → Is32 (leaf_up_to raw top l)
unfolding leaf_up_to
leaf_up_to-Is32 raw top l h = elim (Bool-cases (leb l top)) [
  | inl e ↦ rw e (h l)
  | inr e ↦ rw e (record {
    eax_in = omega arith;
    ebx_in = omega arith;
    ecx_in = omega arith;
    edx_in = omega arith;
  })
]

pub record Detected (raw : Cpuid) (f : CpuFeatures) : Type 0 where
  pub vendor_length : length f.vendor ≡ 13
  pub brand_length : length f.brand ≡ 49
  pub hypervisor_length : length f.hypervisor_vendor ≡ 13
  pub signed : IsSignature (leaf_up_to raw f.max_leaf 1).eax f.family f.model f.stepping
  pub rate : (khz : ℕ) → f.tsc_khz ≡ some khz → IsRate (leaf_up_to raw f.max_leaf 0x15) khz

-- On a processor with 32-bit registers detect returns. The three names have the lengths of their
-- buffers. Family, model and stepping are those of the signature in leaf 1, the extended family
-- added only for the base family 15 and the extended model only for 6 and 15, at most 270, 255 and
-- 15. A rate of the time-stamp counter is the nominal clock of leaf 0x15 times its ratio, in kHz,
-- rounded down once: the two roundings of the code lose nothing more.
pub detect-Detected : (raw : Cpuid) → ((l : ℕ) → Is32 (raw l 0)) → Gives (Detected raw) (detect raw)
unfolding detect features
detect-Detected raw h =
    let top = (raw 0 0).eax in
    let (khz, q, rated) =
      tsc_rate-IsRate (leaf_up_to raw top 0x15) (leaf_up_to-Is32 raw top 0x15 h) in
    (
      features raw khz,
      rw q refl,
      record {
        vendor_length = length-name_of (raw 0 0).ebx (raw 0 0).edx (raw 0 0).ecx;
        brand_length = length-brand_of raw (raw 0x80000000 0).eax;
        hypervisor_length = length-hypervisor_name raw (has (leaf_up_to raw top 1).ecx 31);
        signed = signature (leaf_up_to raw top 1).eax;
        rate = rated;
      },
    )
