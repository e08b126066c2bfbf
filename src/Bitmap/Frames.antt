-- ===== src/Bitmap/Frames.antt =====
-- The bitmap as a set of frames.
use orin_os.Prelude.{
  ℕ, zero, suc, ◌-◌, ◌*◌, ◌/◌, ◌%◌, ◌^◌, ◌≤◌, ◌<◌, bit_and, bit_or, ◌≡◌, refl, sym, ap, ◌∙◌, ◌≢◌,
  not, List, [], ◌∷◌, ok, length, get_or, set, get_elem?-eq-get_or, length-set, get_or-set_self,
  get_or-set_ne, get_or_above, ◌==◌, arith, ℕ_discrete,
}
use orin_os.Prelude.Bits.{bit, bit-zero, bit-lt}
use orin_os.Prelude.Bits.Words.{
  bit_and-pow_test, bit_or-pow_self, bit_or-pow_ne, bit_and-clear_self, bit_and-clear_ne, bit_or-lt,
  bit_and-lt, pow_mono,
}
use orin_os.Bitmap.{bit_set, bit_clear, bit_test}

-- 1 if frame `idx` is free, else 0. Frames beyond the map are not free.
unfoldable pub frame : List ℕ → ℕ → ℕ
frame map idx = bit (get_or map (idx / 64) 0) (idx % 64)

-- Every entry is a 64-bit word.
abbrev pub IsWords : List ℕ → Type 0
IsWords [] = Unit {0}
IsWords (w ∷ ws) = (w < 2 ^ 64) × IsWords ws

pub frame-lt : (map : List ℕ) (idx : ℕ) → frame map idx < 2
unfolding frame
frame-lt map idx = bit-lt _ (idx % 64)

pub frame_above : (map : List ℕ) (idx : ℕ) → 64 * length map ≤ idx → frame map idx ≡ 0
unfolding frame
frame_above map idx h =
    ap (λ (w : ℕ). bit w (idx % 64)) (get_or_above map (idx / 64) 0 (omega arith))
    ∙ bit-zero (idx % 64)

pub get_or-lt : (map : List ℕ) (i : ℕ) → IsWords map → get_or map i 0 < 2 ^ 64
get_or-lt [] i h = omega arith
get_or-lt (w ∷ ws) zero h = h.0
get_or-lt (w ∷ ws) (suc i) h = get_or-lt ws i h.1

set-IsWords : (map : List ℕ) (i w : ℕ) → IsWords map → w < 2 ^ 64 → IsWords (set map i w)
set-IsWords [] i w h hw = tt
set-IsWords (v ∷ vs) zero w h hw = (hw, h.1)
set-IsWords (v ∷ vs) (suc i) w h hw = (h.0, set-IsWords vs i w h.1 hw)

-- `set` becomes `v` at `idx` and keeps the rest, in a map of the same size.
pub record Updates (map : List ℕ) (idx v : ℕ) (map' : List ℕ) : Type 0 where
  pub same_length : length map' ≡ length map
  pub words : IsWords map'
  pub at : frame map' idx ≡ v
  pub off : (j : ℕ) → j ≢ idx → frame map' j ≡ frame map j

module _ (map : List ℕ) (idx : ℕ) (inside : idx < 64 * length map) (words : IsWords map) where
  abbrev old : ℕ
  old = get_or map (idx / 64) 0

  pub bit_test_lem : bit_test map idx ≡ ok (not (frame map idx == 0))
  unfolding bit_test frame
  bit_test_lem =
      rw (get_elem?-eq-get_or map (idx / 64) 0 (omega arith), bit_and-pow_test old (idx % 64)) refl

  write_word :
      (w v : ℕ)
      → w < 2 ^ 64
      → bit w (idx % 64) ≡ v
      → ((j : ℕ) → j < 64 → j ≢ idx % 64 → bit w j ≡ bit old j)
      → Updates map idx v (set map (idx / 64) w)
  unfolding frame
  write_word w v hw at off = record {
    same_length = length-set map (idx / 64) w;
    words = set-IsWords map (idx / 64) w words hw;
    at = rw (get_or-set_self map (idx / 64) w 0 (omega arith)) at;
    off = λ j ne. elim (ℕ_discrete (idx / 64) (j / 64)) [
      | yes e ↦
          ap (λ (i : ℕ). bit (get_or (set map (idx / 64) w) i 0) (j % 64)) (sym e)
          ∙ ap (λ (t : ℕ). bit t (j % 64)) (get_or-set_self map (idx / 64) w 0 (omega arith))
          ∙ off (j % 64) (omega arith) (λ q. ne (omega arith))
          ∙ ap (λ (i : ℕ). bit (get_or map i 0) (j % 64)) e
      | no n ↦ ap (λ (t : ℕ). bit t (j % 64)) (get_or-set_ne map (idx / 64) (j / 64) w 0 n)
    ];
  }

  pub raised : List ℕ
  raised = set map (idx / 64) (bit_or old (2 ^ (idx % 64)))

  pub cleared : List ℕ
  cleared = set map (idx / 64) (bit_and old (2 ^ 64 - 1 - 2 ^ (idx % 64)))

  pub bit_set_lem : bit_set map idx ≡ ok raised
  unfolding bit_set raised
  bit_set_lem = rw (get_elem?-eq-get_or map (idx / 64) 0 (omega arith)) refl

  pub bit_clear_lem : bit_clear map idx ≡ ok cleared
  unfolding bit_clear cleared
  bit_clear_lem = rw (get_elem?-eq-get_or map (idx / 64) 0 (omega arith)) refl

  pub raised-Updates : Updates map idx 1 raised
  unfolding raised
  raised-Updates =
      write_word (bit_or old (2 ^ (idx % 64))) 1
        (bit_or-lt 64 old (2 ^ (idx % 64)) (get_or-lt map (idx / 64) words)
          (pow_mono (idx % 64) 64 (omega arith)))
        (bit_or-pow_self old (idx % 64))
        (λ j h ne. bit_or-pow_ne old (idx % 64) j (λ e. ne (sym e)))

  pub cleared-Updates : Updates map idx 0 cleared
  unfolding cleared
  cleared-Updates =
      write_word (bit_and old (2 ^ 64 - 1 - 2 ^ (idx % 64))) 0
        (bit_and-lt 64 old (2 ^ 64 - 1 - 2 ^ (idx % 64)) (get_or-lt map (idx / 64) words))
        (bit_and-clear_self 64 old (idx % 64) (omega arith))
        (λ j h ne. bit_and-clear_ne 64 old (idx % 64) j (omega arith) h (λ e. ne (sym e)))
