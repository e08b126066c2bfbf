-- ===== src/Pmm/Count.antt =====
-- The number of free frames, and the invariant of an allocator.
use orin_os.Prelude.{
  ℕ, zero, suc, ◌+◌, ◌*◌, ◌/◌, ◌%◌, ◌≤◌, ◌<◌, ◌≡◌, refl, sym, ap, ◌∙◌, List, arith, length,
  length-replicate, get_or-replicate, replicate, ℕ_discrete,
}
use orin_os.Prelude.Bits.{bit, bit-zero}
use orin_os.Bitmap.Frames.{frame, frame-lt, IsWords, Updates}
use orin_os.Pmm.{Pmm, new, max_frames, bitmap_words}

-- The free frames below `n`.
pub count : List ℕ → ℕ → ℕ
count map zero = 0
count map (suc n) = count map n + frame map n

pub count-le : (map : List ℕ) (n : ℕ) → count map n ≤ n
unfolding count
count-le map zero = omega arith
count-le map (suc n) = omega (arith, count-le map n, frame-lt map n)

pub count_same :
    (map map' : List ℕ) (n : ℕ)
    → ((j : ℕ) → j < n → frame map' j ≡ frame map j)
    → count map' n ≡ count map n
unfolding count
count_same map map' zero h = refl
count_same map map' (suc n) h =
    omega (arith, h n (omega arith), count_same map map' n (λ j lt. h j (omega arith)))

-- One frame that changes changes the count by that much.
pub count-Updates :
    {map map' : List ℕ} {idx v : ℕ} (n : ℕ)
    → Updates map idx v map'
    → idx < n
    → count map' n + frame map idx ≡ count map n + v
unfolding count
count-Updates zero u lt = absurd (omega arith)
count-Updates {map} {map'} {idx} {v} (suc n) u lt = elim (ℕ_discrete idx n) [
  | yes e ↦
      let below = count_same map map' n (λ j h. u.off j (λ q. absurd (omega arith))) in
      omega (arith, below, ap (frame map') e, ap (frame map) e, u.at)
  | no ne ↦ omega (arith, count-Updates n u (omega arith), u.off n (λ q. ne (sym q)))
]

pub count_positive : (map : List ℕ) (n idx : ℕ) → idx < n → frame map idx ≡ 1 → 0 < count map n
unfolding count
count_positive map zero idx lt h = absurd (omega arith)
count_positive map (suc n) idx lt h = elim (ℕ_discrete idx n) [
  | yes e ↦ omega (arith, ap (frame map) e)
  | no ne ↦ omega (arith, count_positive map n idx (omega arith) h)
]

pub count_none : (map : List ℕ) (n : ℕ) → ((j : ℕ) → j < n → frame map j ≡ 0) → count map n ≡ 0
unfolding count
count_none map zero h = refl
count_none map (suc n) h =
    omega (arith, h n (omega arith), count_none map n (λ j lt. h j (omega arith)))

-- The map has a 64-bit word for every 64 managed frames, and `free_frames` counts its ones.
pub record Inv (p : Pmm) : Type 0 where
  pub size : length p.bitmap ≡ bitmap_words
  pub words : IsWords p.bitmap
  pub counted : p.free_frames ≡ count p.bitmap max_frames

pub in_map : {p : Pmm} → Inv p → max_frames ≤ 64 * length p.bitmap
in_map v = omega (arith, v.size)

pub free_frames-le : {p : Pmm} → Inv p → p.free_frames ≤ max_frames
free_frames-le {p} v = omega (arith, v.counted, count-le p.bitmap max_frames)

replicate-IsWords : (n : ℕ) → IsWords (replicate n 0)
unfolding replicate
replicate-IsWords zero = tt
replicate-IsWords (suc n) = (omega arith, replicate-IsWords n)

frame-replicate : (n j : ℕ) → frame (replicate n 0) j ≡ 0
unfolding frame
frame-replicate n j =
    ap (λ (w : ℕ). bit w (j % 64)) (get_or-replicate n (j / 64) 0) ∙ bit-zero (j % 64)

pub frame-new : (j : ℕ) → frame new.bitmap j ≡ 0
unfolding new
frame-new j = frame-replicate bitmap_words j

pub new-Inv : Inv new
unfolding new
new-Inv = record {
  size = length-replicate bitmap_words 0;
  words = replicate-IsWords bitmap_words;
  counted = sym (count_none _ max_frames (λ j _. frame-replicate bitmap_words j));
}
