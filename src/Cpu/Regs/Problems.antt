-- ===== src/Cpu/Regs/Problems.antt =====
-- The problems of the control registers are all reported, in order.
use mathlib.Core.List.{append-nil}
use orin_os.Prelude.{
  ℕ, zero, suc, ◌+◌, ◌<◌, ◌≤◌, ◌≡◌, refl, sym, ap, ◌∙◌, Bool, true, false, not, ◌&&◌, List, [], ◌∷◌,
  ◌++◌, Option, none, some, arith, ◌^◌, bit_and, lt→ltb, set, length, length-append, replicate,
  ◌==◌, ap₂, if◌then◌else◌,
}
use orin_os.Prelude.Bits.{bit}
use orin_os.Prelude.Bits.Words.{bit_and-pow_test}
use orin_os.Cpu.{CpuFeatures}
use orin_os.Cpu.Regs.{
  CpuRegs, Problem, wp_clear, pg_clear, nxe_clear, lma_clear, smep_clear, smap_clear, Report,
  add_problem, control_register_problems, is_set,
}

abbrev when : Bool → Problem → List Problem
when b p = if b then p ∷ [] else []

-- A problem for each protection that is off: SMEP and SMAP only count where the processor has them.
unfoldable failed : CpuFeatures → CpuRegs → List Problem
failed feats r =
    ((((when (bit r.cr0 16 == 0) wp_clear ++ when (bit r.cr0 31 == 0) pg_clear)
          ++ when (bit r.efer 11 == 0) nxe_clear)
        ++ when (bit r.efer 10 == 0) lma_clear)
      ++ when (feats.smep && (bit r.cr4 20 == 0)) smep_clear)
    ++ when (feats.smap && (bit r.cr4 21 == 0)) smap_clear

-- So many places, of which the first hold these problems.
unfoldable filled : ℕ → List Problem → List (Option Problem)
filled zero ps = []
filled (suc n) [] = none ∷ filled n []
filled (suc n) (p ∷ ps) = some p ∷ filled n ps

set-filled :
    (n : ℕ) (ps : List Problem) (p : Problem)
    → length ps < n
    → set (filled n ps) (length ps) (some p) ≡ filled n (ps ++ p ∷ [])
unfolding filled
set-filled zero ps p h = absurd (omega arith)
set-filled (suc n) [] p h = refl
set-filled (suc n) (q ∷ ps) p h =
    ap (λ (l : List (Option Problem)). some q ∷ l) (set-filled n ps p (omega arith))

length-when : (b : Bool) (p : Problem) → length (when b p) ≤ 1
length-when true p = omega arith
length-when false p = omega arith

abbrev after : List Problem → Report
after ps = record { out = filled 6 ps; n = length ps }

-- `add!` behind at most `k` others.
module _ (k : ℕ) (room : k < 6) (p : Problem) (ps : List Problem) (short : length ps ≤ k) where
  add_lem : (b : Bool) → add_problem b p (after ps) ≡ after (ps ++ when b p)
  unfolding add_problem
  add_lem true = rw (lt→ltb (length ps) 6 (omega arith)) (
      ap₂ (λ (o : List (Option Problem)) (m : ℕ). record { out = o; n = m })
        (set-filled 6 ps p (omega arith)) (sym (length-append ps (p ∷ []))))
  add_lem false = ap after (sym (append-nil ps))

  add_short : (b : Bool) → length (ps ++ when b p) ≤ k + 1
  add_short b = omega (arith, length-append ps (when b p), length-when b p)

not_set : (v n : ℕ) → not (is_set v n) ≡ (bit v n == 0)
not_set v n = by_test (bit_and v (2 ^ n) == 0) ∙ bit_and-pow_test v n
  where
    by_test : (b : Bool) → not (not b) ≡ b
    by_test true = refl
    by_test false = refl

-- The six tests of `control_register_problems`, one behind another.
all_added :
    (w g x l e a : Bool)
    → let start : Report = after [] in
      let hard =
        add_problem l lma_clear
          (add_problem x nxe_clear (add_problem g pg_clear (add_problem w wp_clear start))) in
      let ps =
        ((((when w wp_clear ++ when g pg_clear) ++ when x nxe_clear) ++ when l lma_clear)
          ++ when e smep_clear)
        ++ when a smap_clear in
      (add_problem a smap_clear (add_problem e smep_clear hard) ≡ after ps) × (length ps ≤ 6)
all_added w g x l e a =
    let p1 = when w wp_clear in
    let p2 = p1 ++ when g pg_clear in
    let p3 = p2 ++ when x nxe_clear in
    let p4 = p3 ++ when l lma_clear in
    let p5 = p4 ++ when e smep_clear in
    let h1 : length p1 ≤ 1 = length-when w wp_clear in
    let h2 = add_short 1 (omega arith) pg_clear p1 h1 g in
    let h3 = add_short 2 (omega arith) nxe_clear p2 h2 x in
    let h4 = add_short 3 (omega arith) lma_clear p3 h3 l in
    let h5 = add_short 4 (omega arith) smep_clear p4 h4 e in
    (
      rw
          (
            add_lem 0 (omega arith) wp_clear [] (omega arith) w,
            add_lem 1 (omega arith) pg_clear p1 h1 g,
            add_lem 2 (omega arith) nxe_clear p2 h2 x,
            add_lem 3 (omega arith) lma_clear p3 h3 l,
            add_lem 4 (omega arith) smep_clear p4 h4 e,
            add_lem 5 (omega arith) smap_clear p5 h5 a,
          )
          refl,
      add_short 5 (omega arith) smap_clear p5 h5 a,
    )

-- Whatever the processor and its registers, control_register_problems fills its places with
-- exactly the protections that are off, in the order of the tests, SMEP and SMAP only if the
-- processor has them; there are never more than the six places.
problems-failed :
    (feats : CpuFeatures) (r : CpuRegs)
    → (control_register_problems feats r ≡ filled 6 (failed feats r))
      × (length (failed feats r) ≤ 6)
unfolding control_register_problems failed replicate filled
problems-failed feats r =
    let (e, h) =
      all_added (bit r.cr0 16 == 0) (bit r.cr0 31 == 0) (bit r.efer 11 == 0) (bit r.efer 10 == 0)
        (feats.smep && (bit r.cr4 20 == 0)) (feats.smap && (bit r.cr4 21 == 0)) in
    (
      rw
          (
            control_register_problems,
            not_set r.cr0 16,
            not_set r.cr0 31,
            not_set r.efer 11,
            not_set r.efer 10,
            not_set r.cr4 20,
            not_set r.cr4 21,
          )
          (ap (λ (q : Report). q.out) e),
      h,
    )
