-- ===== src/Bitmap/Scan.antt =====
-- `next_free` finds the first free frame.
use orin_os.Prelude.{
  ℕ, zero, suc, ◌+◌, ◌-◌, ◌*◌, ◌/◌, ◌%◌, ◌^◌, ◌≤◌, ◌<◌, ◌≡◌, refl, sym, ap, subst, ◌∙◌, ◌≢◌, List,
  Option, none, some, ok, length, get_or, get_elem?-eq-get_or, arith, ℕ_discrete, lt→ltb, ge→ltb,
  dec_lt, le→leb, lt→leb,
}
use orin_os.Prelude.Bits.{bit, bit-zero, bit_above}
use orin_os.Prelude.Bits.Words.{
  trailing_zeros, bit-trailing_zeros, bit_below-trailing_zeros, bit_shifted,
}
use orin_os.Bitmap.{scan_words, next_free}
use orin_os.Bitmap.Frames.{frame, IsWords, get_or-lt}

-- `r` is the first free frame from `from` on; `none` says that there is none below `limit`.
abbrev pub IsFirst : List ℕ → ℕ → ℕ → Option ℕ → Type 0
IsFirst map from limit none = (j : ℕ) → from ≤ j → j < limit → frame map j ≡ 0
IsFirst map from limit (some r) =
    (from ≤ r) × (frame map r ≡ 1) × ((j : ℕ) → from ≤ j → j < r → frame map j ≡ 0)

IsFirst-back :
    (map : List ℕ) (limit : ℕ) (r : Option ℕ) (from mid : ℕ)
    → from ≤ mid
    → ((j : ℕ) → from ≤ j → j < mid → frame map j ≡ 0)
    → IsFirst map mid limit r
    → IsFirst map from limit r
IsFirst-back map limit none from mid le free h =
    λ j lo hi. elim (dec_lt j mid) [ yes p ↦ free j lo p | no p ↦ h j (omega arith) hi ]
IsFirst-back map limit (some r) from mid le free h = (
  omega arith,
  h.1,
  λ j lo hi. elim (dec_lt j mid) [ yes p ↦ free j lo p | no p ↦ h.2 j (omega arith) hi ],
)

module _ (map : List ℕ) (words : IsWords map) where
  -- `w` is the word `i` from its digit `s` on.
  module _ (i s w : ℕ) (in_word : s < 64) (is : w ≡ get_or map i 0 / 2 ^ s) where
    word-lt : w < 2 ^ 64
    word-lt = omega (arith, get_or-lt map i words)

    frame-word : (j : ℕ) → j / 64 ≡ i → s ≤ j % 64 → frame map j ≡ bit w (j % 64 - s)
    unfolding frame
    frame-word j e le =
        let digit : s + (j % 64 - s) ≡ j % 64 = omega arith in
        ap (λ (k : ℕ). bit (get_or map k 0) (j % 64)) e
        ∙ ap (bit (get_or map i 0)) (sym digit)
        ∙ sym (bit_shifted s (get_or map i 0) (j % 64 - s))
        ∙ ap (λ (t : ℕ). bit t (j % 64 - s)) (sym is)

    no_frame : w ≡ 0 → (j : ℕ) → i * 64 + s ≤ j → j < (i + 1) * 64 → frame map j ≡ 0
    no_frame e j lo hi =
        frame-word j (omega arith) (omega arith)
        ∙ ap (λ (t : ℕ). bit t (j % 64 - s)) e
        ∙ bit-zero (j % 64 - s)

    module _ (ne : w ≢ 0) where
      abbrev place : ℕ
      place = trailing_zeros 64 w

      place-lt : s + place < 64
      place-lt =
          let one = bit-trailing_zeros 64 w word-lt ne in
          let same = ap (λ (t : ℕ). bit t place) is ∙ bit_shifted s (get_or map i 0) place in
          let above = bit_above 64 (get_or map i 0) (s + place) (get_or-lt map i words) in
          elim (dec_lt (s + place) 64) [
            | yes h ↦ h
            | no h ↦ absurd (omega (arith, one, same, above (omega arith)))
          ]

      IsFirst-frame : (limit : ℕ) → IsFirst map (i * 64 + s) limit (some (i * 64 + s + place))
      IsFirst-frame limit = (
        omega arith,
        let digit : (i * 64 + s + place) % 64 - s ≡ place = omega (arith, place-lt) in
            frame-word (i * 64 + s + place) (omega (arith, place-lt)) (omega (arith, place-lt))
            ∙ ap (bit w) digit
            ∙ bit-trailing_zeros 64 w word-lt ne,
        λ j lo hi.
            frame-word j (omega (arith, place-lt)) (omega (arith, place-lt))
            ∙ bit_below-trailing_zeros 64 w (j % 64 - s) (omega (arith, place-lt)),
      )

  module _ (k idx limit : ℕ) (below : idx < limit) (inside : idx / 64 < length map) where
    scan_words_hit :
        get_or map (idx / 64) 0 ≢ 0
        → scan_words (suc k) map limit idx
          ≡ ok (some (idx / 64 * 64 + trailing_zeros 64 (get_or map (idx / 64) 0)))
    unfolding scan_words
    scan_words_hit ne =
        rw (lt→ltb idx limit below, get_elem?-eq-get_or map (idx / 64) 0 inside) (ground arith)

    scan_words_skip :
        get_or map (idx / 64) 0 ≡ 0
        → scan_words (suc k) map limit idx ≡ scan_words k map limit (idx + 64)
    unfolding scan_words
    scan_words_skip e =
        rw (lt→ltb idx limit below, get_elem?-eq-get_or map (idx / 64) 0 inside) (ground arith)

  scan_words_end : (k idx limit : ℕ) → limit ≤ idx → scan_words (suc k) map limit idx ≡ ok none
  unfolding scan_words
  scan_words_end k idx limit h = rw (ge→ltb idx limit h) refl

  -- The loop at the start of a word, with fuel for each word below `limit`.
  scan_words-IsFirst :
      (k idx limit : ℕ)
      → idx % 64 ≡ 0
      → limit ≤ idx + 64 * k
      → limit ≤ 64 * length map
      → (r : Option ℕ) × (scan_words (suc k) map limit idx ≡ ok r) × IsFirst map idx limit r
  scan_words-IsFirst zero idx limit al fuel fits =
      (none, scan_words_end zero idx limit (omega arith), λ j lo hi. absurd (omega arith))
  scan_words-IsFirst (suc k) idx limit al fuel fits =
      let later = scan_words-IsFirst k (idx + 64) limit (omega arith) (omega arith) fits in
      elim (dec_lt idx limit) [
        | no out ↦
            (none, scan_words_end (suc k) idx limit (omega arith), λ j lo hi. absurd (omega arith))
        | yes below ↦ elim (ℕ_discrete (get_or map (idx / 64) 0) 0) [
          | yes empty ↦
              let free : (j : ℕ) → idx ≤ j → j < idx + 64 → frame map j ≡ 0 = λ j lo hi.
                no_frame (idx / 64) 0 _ (omega arith) (omega arith) empty j (omega arith)
                  (omega arith) in
              (
                later.0,
                scan_words_skip (suc k) idx limit below (omega arith) empty ∙ later.1,
                IsFirst-back map limit later.0 idx (idx + 64) (omega arith) free later.2,
              )
          | no ne ↦
              let w = get_or map (idx / 64) 0 in
              let start : idx / 64 * 64 + 0 ≡ idx = omega arith in
              let spot : idx / 64 * 64 + 0 + trailing_zeros 64 w
                  ≡ idx / 64 * 64 + trailing_zeros 64 w =
                omega arith in
              (
                some (idx / 64 * 64 + trailing_zeros 64 w),
                scan_words_hit (suc k) idx limit below (omega arith) ne,
                subst (λ f. IsFirst map f limit (some (idx / 64 * 64 + trailing_zeros 64 w))) start
                    (subst (λ r. IsFirst map (idx / 64 * 64 + 0) limit (some r)) spot
                      (IsFirst-frame (idx / 64) 0 w (omega arith) (omega arith) ne limit)),
              )
        ]
      ]

  module _ (from limit : ℕ) (below : from < limit) (inside : from / 64 < length map) where
    abbrev shifted : ℕ
    shifted = get_or map (from / 64) 0 / 2 ^ (from % 64)

    next_free_hit :
        shifted ≢ 0
        → next_free map from limit
          ≡ ok (some (from / 64 * 64 + from % 64 + trailing_zeros 64 shifted))
    unfolding next_free
    next_free_hit ne =
        rw (lt→leb limit from below, get_elem?-eq-get_or map (from / 64) 0 inside) (ground arith)

    next_free_miss :
        shifted ≡ 0
        → next_free map from limit ≡ scan_words (limit / 64 + 1) map limit ((from / 64 + 1) * 64)
    unfolding next_free
    next_free_miss e =
        rw (lt→leb limit from below, get_elem?-eq-get_or map (from / 64) 0 inside) (ground arith)

  next_free_end : (from limit : ℕ) → limit ≤ from → next_free map from limit ≡ ok none
  unfolding next_free
  next_free_end from limit h = rw (le→leb limit from h) refl

  pub next_free-IsFirst :
      (from limit : ℕ)
      → limit ≤ 64 * length map
      → (r : Option ℕ) × (next_free map from limit ≡ ok r) × IsFirst map from limit r
  next_free-IsFirst from limit fits = elim (dec_lt from limit) [
    | no out ↦ (none, next_free_end from limit (omega arith), λ j lo hi. absurd (omega arith))
    | yes below ↦ elim (ℕ_discrete (shifted from limit below (omega arith)) 0) [
      | yes empty ↦
          let next = (from / 64 + 1) * 64 in
          let later = scan_words-IsFirst (limit / 64) next limit (omega arith) (omega arith) fits in
          let fuel : limit / 64 + 1 ≡ suc (limit / 64) = omega arith in
          (
            later.0,
            next_free_miss from limit below (omega arith) empty
                ∙ ap (λ (k : ℕ). scan_words k map limit next) fuel
                ∙ later.1,
            IsFirst-back map limit later.0 from next (omega arith)
                (λ j lo hi.
                  no_frame (from / 64) (from % 64) _ (omega arith) refl empty j (omega arith)
                    (omega arith))
                later.2,
          )
      | no ne ↦
          let start : from / 64 * 64 + from % 64 ≡ from = omega arith in
          (
            _,
            next_free_hit from limit below (omega arith) ne,
            subst
                (λ f. IsFirst map f limit (
                  some (
                    from / 64 * 64
                    + from % 64
                    + trailing_zeros 64 (get_or map (from / 64) 0 / 2 ^ (from % 64)))))
                start (IsFirst-frame (from / 64) (from % 64) _ (omega arith) refl ne limit),
          )
    ]
  ]
