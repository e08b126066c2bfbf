-- ===== src/Interrupts/Idt/PageFault.antt =====
-- What the report of a page fault says of its error code.
use orin_os.Prelude.{
  ℕ, ◌+◌, ◌^◌, ◌<◌, ◌≡◌, refl, Bool, true, false, ◌||◌, List, [], ◌∷◌, ◌++◌, Option, none, some, ok,
  checked-ok, ltb, leb, if_cases,
}
use orin_os.Vmm.Init.{kernel_vma}
use orin_os.Log.{same_text}
use orin_os.Cpu.Regs.{Problem, read_around, control_register_problems}
use orin_os.Interrupts.Idt.{Machine, bump, on_page_fault}
use orin_os.Interrupts.Idt.Names.{page_fault_name, plain_page_fault_name}
use orin_os.Interrupts.Idt.Report.{
  Line, pf_bits, logged_fault, format_pf_bits, selector_index, below_kernel_half, Shape,
  shape_lines, shape_of, code_lines, address_lines, security_lines, fatal_lines, register_lines,
  resolve_lines, resolve, fatal_end,
}
use orin_os.Interrupts.Idt.Handlers.{
  Event, dies, count, behind, fatal_exception, page_fault, handle,
}

-- Whether a report breaks the bits of a page fault down, and whether it speaks of a selector.
abbrev pub breaks_down : Line → Bool
breaks_down (pf_bits ws) = true
breaks_down _ = false

abbrev pub speaks_of_selector : Line → Bool
speaks_of_selector selector_index = true
speaks_of_selector _ = false

unfoldable pub some_line : (Line → Bool) → List Line → Bool
some_line p [] = false
some_line p (l ∷ ls) = p l || some_line p ls

module _ (p : Line → Bool) where
  absent :
      (xs ys : List Line)
      → some_line p xs ≡ false
      → some_line p ys ≡ false
      → some_line p (xs ++ ys) ≡ false
  unfolding some_line
  absent [] ys h k = k
  absent (x ∷ xs) ys h k = by_first (p x) h (absent xs ys)
    where
      by_first :
          (b : Bool)
          → (b || some_line p xs) ≡ false
          → (some_line p xs ≡ false → some_line p ys ≡ false → some_line p (xs ++ ys) ≡ false)
          → (b || some_line p (xs ++ ys)) ≡ false
      by_first true e later = e
      by_first false e later = later e k

  found_left : (xs ys : List Line) → some_line p xs ≡ true → some_line p (xs ++ ys) ≡ true
  unfolding some_line
  found_left [] ys h = cc
  found_left (x ∷ xs) ys h = by_first (p x) h (found_left xs ys)
    where
      by_first :
          (b : Bool)
          → (b || some_line p xs) ≡ true
          → (some_line p xs ≡ true → some_line p (xs ++ ys) ≡ true)
          → (b || some_line p (xs ++ ys)) ≡ true
      by_first true e later = refl
      by_first false e later = later e

  found_right : (xs ys : List Line) → some_line p ys ≡ true → some_line p (xs ++ ys) ≡ true
  unfolding some_line
  found_right [] ys h = h
  found_right (x ∷ xs) ys h = by_first (p x) (found_right xs ys h)
    where
      by_first : (b : Bool) → some_line p (xs ++ ys) ≡ true → (b || some_line p (xs ++ ys)) ≡ true
      by_first true e = refl
      by_first false e = e

-- The other parts of a report.
shapes_quiet : (ss : List Shape) → some_line breaks_down (shape_lines ss) ≡ false
unfolding shape_lines some_line
shapes_quiet [] = refl
shapes_quiet (s ∷ ss) = shapes_quiet ss

problems_quiet : (ps : List (Option Problem)) → some_line breaks_down (security_lines ps) ≡ false
unfolding security_lines some_line
problems_quiet [] = refl
problems_quiet (none ∷ ps) = problems_quiet ps
problems_quiet (some q ∷ ps) = problems_quiet ps

address_quiet : (a : ℕ) → some_line breaks_down (address_lines (some a)) ≡ false
unfolding address_lines some_line
address_quiet a =
    if_cases (λ (l : List Line). some_line breaks_down l ≡ false) (ltb a kernel_vma)
      (below_kernel_half ∷ []) [] (λ _. refl) (λ _. refl)

abbrev fault_lines : Event → List Line
fault_lines e = fatal_lines e.feats e.now page_fault_name 0x0E e.frame (some e.code) (some e.cr2)

not_its_name : same_text page_fault_name plain_page_fault_name ≡ false
unfolding same_text
not_its_name = refl

resolve_quiet : (rip : ℕ) → some_line breaks_down (resolve_lines rip) ≡ false
unfolding resolve_lines some_line
resolve_quiet rip =
    if_cases (λ (l : List Line). some_line breaks_down l ≡ false) (leb kernel_vma rip)
      (resolve rip ∷ []) [] (λ _. refl) (λ _. refl)

fault_quiet : (e : Event) → some_line breaks_down (fault_lines e) ≡ false
unfolding fatal_lines code_lines some_line
fault_quiet e =
    let regs = read_around e.frame e.now in
    let a = address_lines (some e.cr2) in
    let r = register_lines regs in
    let s = security_lines (control_register_problems e.feats regs) in
    let p = resolve_lines regs.rip in
    rw not_its_name (
      absent breaks_down (a ++ r ++ s ++ p) (fatal_end ∷ [])
        (absent breaks_down (a ++ r ++ s) p
          (absent breaks_down (a ++ r) s
            (absent breaks_down a r (address_quiet e.cr2) (unfold register_lines in refl))
            (problems_quiet (control_register_problems e.feats regs)))
          (resolve_quiet regs.rip))
        refl)

fault_speaks : (e : Event) → some_line speaks_of_selector (fault_lines e) ≡ true
unfolding fatal_lines code_lines some_line
fault_speaks e = rw not_its_name refl

-- With room in the counter of exceptions, on_page_fault ends in its report, whatever the fault.
-- Behind what the log says, the report never breaks the bits of the error code down, and it always
-- says that the code is a selector index or 0.
pub page_fault_report :
    (e : Event) (m : Machine)
    → m.tally.exceptions + 1 < 2 ^ 64
    → (m1 : Machine) × (lines : List Line) × (handle on_page_fault e m ≡ ok (dies m1 lines))
      × (some_line breaks_down lines ≡ false)
      × (some_line speaks_of_selector lines ≡ true)
unfolding handle page_fault fatal_exception count bump behind
page_fault_report e m room =
    let before = logged_fault e.cr2 (format_pf_bits e.code) ∷ shape_lines (shape_of e.cr2 e.code) in
    (
      record m { tally = record m.tally { exceptions = m.tally.exceptions + 1 } },
      before ++ fault_lines e,
      rw (checked-ok (m.tally.exceptions + 1) room) refl,
      absent breaks_down before (fault_lines e)
          (unfold some_line in shapes_quiet (shape_of e.cr2 e.code)) (fault_quiet e),
      found_right speaks_of_selector before (fault_lines e) (fault_speaks e),
    )
