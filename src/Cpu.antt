-- ===== src/Cpu.antt =====
-- The feature detection of kernel/src/cpu/cpuid.rs. The CPUID instruction is a function from a leaf and
-- a subleaf to four registers; RDRAND is a sequence of results. Sums of masked fields, which stay below
-- 2^32, are not checked. Log lines are left out.
pub mod Leaves
pub mod Detected
pub mod Vendor
pub mod Entropy
pub mod Regs
use orin_os.Prelude.{
  ℕ, zero, suc, ◌+◌, ◌-◌, ◌*◌, ◌/◌, ◌^◌, Bool, true, false, not, ◌&&◌, ◌||◌, List, [], ◌∷◌, Option,
  none, some, Outcome, ok, assert_failed, checked, ◌>>=◌, ◌>>◌, guard, bit_and, leb, ◌==◌, take,
  length, replicate, if◌then◌else◌,
}
use orin_os.Prelude.Text.{le_bytes, copy_at, chars_from}

pub record CpuidResult : Type 0 where
  pub eax : ℕ
  pub ebx : ℕ
  pub ecx : ℕ
  pub edx : ℕ

-- `CpuidResult::default()`
abbrev pub no_result : CpuidResult
no_result = record { eax = 0; ebx = 0; ecx = 0; edx = 0 }

-- What `raw` returns for a leaf and a subleaf.
abbrev pub Cpuid : Type 0
Cpuid = ℕ → ℕ → CpuidResult

pub record CpuFeatures : Type 0 where
  pub vendor : List ℕ
  pub family : ℕ
  pub model : ℕ
  pub stepping : ℕ
  pub brand : List ℕ
  pub max_leaf : ℕ
  pub max_ext_leaf : ℕ
  pub nx : Bool
  pub pdpe1gb : Bool
  pub la57 : Bool
  pub smep : Bool
  pub smap : Bool
  pub invpcid : Bool
  pub rdseed : Bool
  pub rdrand : Bool
  pub rdrand_present_but_unverified : Bool
  pub x2apic : Bool
  pub apic : Bool
  pub tsc : Bool
  pub tsc_invariant : Bool
  pub tsc_khz : Option ℕ
  pub hypervisor_present : Bool
  pub hypervisor_vendor : List ℕ
  pub sse2 : Bool
  pub syscall : Bool
  pub fsgsbase : Bool
  pub avx : Bool
  pub avx2 : Bool

-- `r & (1 << i) != 0`
abbrev pub has : ℕ → ℕ → Bool
has r i = not (bit_and r (2 ^ i) == 0)

-- A leaf that is read only if the CPU's highest leaf reaches it.
unfoldable pub leaf_up_to : Cpuid → ℕ → ℕ → CpuidResult
leaf_up_to raw top leaf = if leb leaf top then raw leaf 0 else no_result

-- Three registers in a buffer of 13 bytes; the three ranges lie in it.
unfoldable pub name_of : ℕ → ℕ → ℕ → List ℕ
name_of a b c =
    copy_at (copy_at (copy_at (replicate 13 0) 0 (le_bytes 4 a)) 4 (le_bytes 4 b)) 8 (le_bytes 4 c)

-- The body of the loop over the leaves of the brand string, for `i` from 0 to 2, so that the ranges
-- lie in the buffer of 49 bytes.
unfoldable pub copy_brand : ℕ → CpuidResult → List ℕ → List ℕ
copy_brand i r brand =
    copy_at
      (copy_at (copy_at (copy_at brand (i * 16) (le_bytes 4 r.eax)) (i * 16 + 4) (le_bytes 4 r.ebx))
        (i * 16 + 8) (le_bytes 4 r.ecx))
      (i * 16 + 12) (le_bytes 4 r.edx)

unfoldable pub brand_of : Cpuid → ℕ → List ℕ
brand_of raw max_ext_leaf =
    if leb 0x80000004 max_ext_leaf
    then copy_brand 2 (raw 0x80000004 0)
        (copy_brand 1 (raw 0x80000003 0) (copy_brand 0 (raw 0x80000002 0) (replicate 49 0)))
    else replicate 49 0

unfoldable pub hypervisor_name : Cpuid → Bool → List ℕ
hypervisor_name raw hypervisor_present =
    if hypervisor_present
    then (let hv = raw 0x40000000 0 in name_of hv.ebx hv.ecx hv.edx)
    else replicate 13 0

unfoldable pub family_of : ℕ → ℕ
family_of eax =
    let base_family = bit_and (eax / 2 ^ 8) 0xF in
    let ext_family = bit_and (eax / 2 ^ 20) 0xFF in
    if base_family == 0xF then base_family + ext_family else base_family

unfoldable pub model_of : ℕ → ℕ
model_of eax =
    let base_family = bit_and (eax / 2 ^ 8) 0xF in
    let base_model = bit_and (eax / 2 ^ 4) 0xF in
    let ext_model = bit_and (eax / 2 ^ 16) 0xF in
    if (base_family == 0x6) || (base_family == 0xF)
    then ext_model * 2 ^ 4 + base_model
    else base_model

unfoldable pub tsc_rate : CpuidResult → Outcome (Option ℕ)
tsc_rate leaf15 =
    if not (leaf15.ebx == 0) && not (leaf15.eax == 0)
    then (let nominal = if not (leaf15.ecx == 0) then leaf15.ecx else 0 in
        if not (nominal == 0)
        then (checked (nominal * leaf15.ebx) >>= λ n. ok (some (n / leaf15.eax / 1000)))
        else ok none)
    else ok none

-- The features, with the rate of the time-stamp counter.
unfoldable pub features : Cpuid → Option ℕ → CpuFeatures
features raw tsc_khz =
    let leaf0 = raw 0 0 in
    let max_leaf = leaf0.eax in
    let leaf1 = leaf_up_to raw max_leaf 1 in
    let leaf7 = leaf_up_to raw max_leaf 7 in
    let max_ext_leaf = (raw 0x80000000 0).eax in
    let ext1 = leaf_up_to raw max_ext_leaf 0x80000001 in
    let ext7 = leaf_up_to raw max_ext_leaf 0x80000007 in
    record {
      vendor = name_of leaf0.ebx leaf0.edx leaf0.ecx;
      family = family_of leaf1.eax;
      model = model_of leaf1.eax;
      stepping = bit_and leaf1.eax 0xF;
      brand = brand_of raw max_ext_leaf;
      max_leaf = max_leaf;
      max_ext_leaf = max_ext_leaf;
      nx = has ext1.edx 20;
      pdpe1gb = has ext1.edx 26;
      la57 = has leaf7.ecx 16;
      smep = has leaf7.ebx 7;
      smap = has leaf7.ebx 20;
      invpcid = has leaf7.ebx 10;
      rdseed = has leaf7.ebx 18;
      rdrand = has leaf1.ecx 30;
      rdrand_present_but_unverified = has leaf1.ecx 30;
      x2apic = has leaf1.ecx 21;
      apic = has leaf1.edx 9;
      tsc = has leaf1.edx 4;
      tsc_invariant = has ext7.edx 8;
      tsc_khz = tsc_khz;
      hypervisor_present = has leaf1.ecx 31;
      hypervisor_vendor = hypervisor_name raw (has leaf1.ecx 31);
      sse2 = has leaf1.edx 26;
      syscall = has ext1.edx 11;
      fsgsbase = has leaf7.ebx 0;
      avx = has leaf1.ecx 28;
      avx2 = has leaf7.ebx 5;
    }

-- `detect`, before `call_once` keeps its result.
unfoldable pub detect : Cpuid → Outcome CpuFeatures
detect raw =
    let leaf15 = leaf_up_to raw (raw 0 0).eax 0x15 in
    tsc_rate leaf15 >>= λ tsc_khz. ok (features raw tsc_khz)

abbrev non_ascii : List ℕ
non_ascii = 60 ∷ 110 ∷ 111 ∷ 110 ∷ 45 ∷ 97 ∷ 115 ∷ 99 ∷ 105 ∷ 105 ∷ 62 ∷ []

-- `position(|&b| b == 0)`
unfoldable pub nul_position : List ℕ → Option ℕ
nul_position [] = none
nul_position (b ∷ bs) = elim b [
  | zero ↦ some 0
  | suc n ↦ elim (nul_position bs) [ none ↦ none | some i ↦ some (suc i) ]
]

-- `cstr` behind its search for a NUL byte, and with it.
unfoldable pub text_up_to : List ℕ → ℕ → List ℕ
text_up_to buf end = let s = take end buf in elim (chars_from s) [ none ↦ non_ascii | some cs ↦ s ]

unfoldable pub cstr : List ℕ → List ℕ
cstr buf = text_up_to buf (elim (nul_position buf) [ none ↦ length buf | some i ↦ i ])

-- The loop of `entropy_probe`, from probe `i` on: `none` is an instruction that failed.
unfoldable pub probe : ℕ → ℕ → (ℕ → Option ℕ) → Bool
probe zero i results = true
probe (suc rounds) i results =
    let rest = probe rounds (suc i) results in
    elim (results i) [
      | none ↦ rest
      | some v ↦ if not (v == 2 ^ 64 - 1) && not (v == 0) then false else rest
    ]

-- The result, and RDRAND_SUSPECT behind it.
unfoldable pub entropy_probe : CpuFeatures → (ℕ → Option ℕ) → Bool → Bool × Bool
entropy_probe f results rdrand_suspect =
    if not f.rdrand
    then (false, rdrand_suspect)
    else (let suspect = probe 8 0 results in (suspect, suspect))

-- The assertions of `report`.
unfoldable pub report : CpuFeatures → Outcome (Unit {0})
report f =
    guard f.sse2 assert_failed >> guard f.nx assert_failed >> guard f.syscall assert_failed >> ok tt
