-- ===== src/Panic/Backtrace.antt =====
-- The walk along the frame pointers: where it reads, and what it finds on a stack in good order.
use orin_os.Prelude.{
  ℕ, zero, suc, ◌+◌, ◌^◌, ◌%◌, ◌<◌, ◌≤◌, ◌≡◌, refl, ap, true, false, List, [], ◌∷◌, arith, length,
  leb, lt→leb, le→leb, if◌then◌else◌, if_cases,
}
use orin_os.Vmm.Init.{kernel_vma}
use orin_os.Panic.{
  valid_frame_pointer, max_frames, Step, reads_frame, implausible, frame, outside_text,
  chain_corrupt, in_text, walk, backtrace,
}

-- The frame pointers that the walk reads at.
unfoldable pub reads_at : List Step → List ℕ
reads_at [] = []
reads_at (reads_frame p ∷ rest) = p ∷ reads_at rest
reads_at (_ ∷ rest) = reads_at rest

-- The return addresses in the kernel's text that it prints.
unfoldable pub returns : List Step → List ℕ
returns [] = []
returns (frame depth ret inside saved ∷ rest) =
    let later = returns rest in if inside then ret ∷ later else later
returns (_ ∷ rest) = returns rest

-- From `low` up, in the kernel half, aligned, and with room for the two words.
abbrev pub Climbs : ℕ → List ℕ → Type 0
Climbs low [] = Unit
Climbs low (p ∷ ps) =
    (low ≤ p) × (kernel_vma ≤ p) × (p % 16 ≡ 0) × (p + 16 < 2 ^ 64) × Climbs (suc p) ps

abbrev pub Reads : ℕ → ℕ → List Step → Type 0
Reads rounds low s = Climbs low (reads_at s) × (length (reads_at s) ≤ rounds)

is_valid :
    (p : ℕ) → valid_frame_pointer p ≡ true → (kernel_vma ≤ p) × (p % 16 ≡ 0) × (p + 16 < 2 ^ 64)
unfolding valid_frame_pointer
is_valid p h = (ground arith, ground arith, ground arith)

module _ (memory : ℕ → ℕ) (text_start text_end : ℕ) where
  walk-Reads :
      (rounds depth low rbp : ℕ)
      → low ≤ rbp
      → Reads rounds low (walk memory text_start text_end rounds depth rbp)
  unfolding walk reads_at
  walk-Reads zero depth low rbp h = (tt, omega arith)
  walk-Reads (suc rounds) depth low rbp h =
      let saved = memory rbp in
      let ret = memory (rbp + 8) in
      let inside = in_text memory text_start text_end ret in
      let rest = walk memory text_start text_end rounds (depth + 1) saved in
      let R : List Step → Type 0 = Reads (suc rounds) low in
      let here : Step = frame depth ret inside saved in
      if_cases R (valid_frame_pointer rbp)
        (reads_frame rbp
          ∷ here
          ∷ (if inside
              then (if leb saved rbp then chain_corrupt ∷ [] else rest)
              else outside_text ∷ []))
        (implausible depth rbp ∷ [])
        (λ ok.
          let (a, b, c) = is_valid rbp ok in
          if_cases (λ (s : List Step). R (reads_frame rbp ∷ here ∷ s)) inside
            (if leb saved rbp then chain_corrupt ∷ [] else rest) (outside_text ∷ [])
            (λ _.
              if_cases (λ (s : List Step). R (reads_frame rbp ∷ here ∷ s)) (leb saved rbp)
                (chain_corrupt ∷ []) rest (λ _. ((h, a, b, c, tt), omega arith))
                (λ up.
                  let (climbs, few) =
                    walk-Reads rounds (depth + 1) (suc rbp) saved (ground arith) in
                  ((h, a, b, c, climbs), omega arith)))
            (λ _. ((h, a, b, c, tt), omega arith)))
        (λ _. (tt, omega arith))

  -- Whatever memory holds, and from any frame pointer, the backtrace ends after at most 24 frames,
  -- and every frame pointer it reads at is in the kernel half, a multiple of 16, above the one
  -- before, and has room for two words below 2^64.
  pub backtrace-Reads : (rbp : ℕ) → Reads max_frames 0 (backtrace memory text_start text_end rbp)
  unfolding backtrace
  backtrace-Reads rbp = walk-Reads max_frames 0 0 rbp (omega arith)

  -- A stack in good order: its return addresses from a frame pointer outward. It ends at a pointer
  -- that is no frame's, or at a frame whose saved pointer is not above it.
  pub data Chain : ℕ → List ℕ → Type 0 where
    stops : {rbp : ℕ} → valid_frame_pointer rbp ≡ false → Chain rbp []
    outermost :
        {rbp ret : ℕ}
        → valid_frame_pointer rbp ≡ true
        → memory (rbp + 8) ≡ ret
        → in_text memory text_start text_end ret ≡ true
        → memory rbp ≤ rbp
        → Chain rbp (ret ∷ [])
    called :
        {rbp ret : ℕ} {rets : List ℕ}
        → valid_frame_pointer rbp ≡ true
        → memory (rbp + 8) ≡ ret
        → in_text memory text_start text_end ret ≡ true
        → rbp < memory rbp
        → Chain (memory rbp) rets
        → Chain rbp (ret ∷ rets)

  walk-Chain :
      (rounds depth : ℕ) {rbp : ℕ} {rets : List ℕ}
      → Chain rbp rets
      → length rets ≤ rounds
      → returns (walk memory text_start text_end rounds depth rbp) ≡ rets
  unfolding walk returns
  walk-Chain zero depth (stops v) h = refl
  walk-Chain (suc rounds) depth (stops v) h = rw v refl
  walk-Chain zero depth (outermost v e i u) h = absurd (omega arith)
  walk-Chain (suc rounds) depth (outermost v e i u) h = rw (v, e, i, le→leb _ _ u) refl
  walk-Chain zero depth (called v e i u c) h = absurd (omega arith)
  walk-Chain (suc rounds) depth (called {rbp} {ret} v e i u c) h =
      rw (v, e, i, lt→leb _ _ u)
        (ap (λ (l : List ℕ). ret ∷ l) (walk-Chain rounds (depth + 1) c (omega arith)))

  -- On a stack in good order of at most 24 frames, whose return addresses are in the text and
  -- whose saved pointers increase up to the outermost frame, the backtrace prints exactly the
  -- return addresses, in order.
  pub backtrace-Chain :
      {rbp : ℕ} {rets : List ℕ}
      → Chain rbp rets
      → length rets ≤ max_frames
      → returns (backtrace memory text_start text_end rbp) ≡ rets
  unfolding backtrace
  backtrace-Chain c h = walk-Chain max_frames 0 c h
