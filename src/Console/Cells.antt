-- ===== src/Console/Cells.antt =====
-- Writes of cells, of a cleared line and of a scroll stay in the text buffer and leave the cursor where
-- it was.
use orin_os.Prelude.{
  ℕ, zero, suc, ◌+◌, ◌-◌, ◌*◌, ◌<◌, ◌≤◌, ◌≡◌, refl, ◌∙◌, Bool, true, false, Outcome, ok, arith,
  length, length-set, for_range, leb, lt→ltb, get_elem?-eq-get_or, get_or, set,
}
use orin_os.Console.{
  VgaWriter, width, height, write_cell, read_cell, clear_line, copy_up, scroll_up,
}

-- A column of 80 is the end of a full row, before the next character.
pub record IsConsole (w : VgaWriter) : Type 0 where
  pub column_in : w.column ≤ 80
  pub row_in : w.row < 25
  pub size : length w.cells ≡ 2000

-- A run that returns a console.
unfoldable pub Keeps : Outcome VgaWriter → Type 0
Keeps run = (v : VgaWriter) × (run ≡ ok v) × IsConsole v

-- A run that also leaves the cursor where it was.
unfoldable pub Stays : VgaWriter → Outcome VgaWriter → Type 0
Stays w run =
    (v : VgaWriter) × (run ≡ ok v) × (IsConsole v × ((v.row ≡ w.row) × (v.column ≡ w.column)))

for_range-keeps :
    {S : Type 0} (P : S → Type 0) (rounds i : ℕ) (body : ℕ → S → Outcome S)
    → ((k : ℕ) → i ≤ k → k < i + rounds → (s : S) → P s → (t : S) × (body k s ≡ ok t) × P t)
    → (s : S) → P s
    → (t : S) × (for_range rounds i body s ≡ ok t) × P t
unfolding for_range
for_range-keeps P zero i body step s h = (s, refl, h)
for_range-keeps P (suc rounds) i body step s h =
    let one = step i (omega arith) (omega arith) s h in
    let rest =
      for_range-keeps P rounds (suc i) body (λ k lo hi. step k (omega arith) (omega arith)) (one.0)
        one.2 in
    (rest.0, rw one.1 rest.1, rest.2)

pub write_cell-Stays :
    (w : VgaWriter) (index ascii : ℕ)
    → IsConsole w
    → index < 2000
    → Stays w (write_cell w index ascii)
unfolding write_cell Stays
write_cell-Stays w index ascii v h = (
  record w { cells = set w.cells index (ascii, w.color) },
  rw (lt→ltb index (length w.cells) (omega (arith, v.size))) refl,
  (
    record {
      column_in = v.column_in;
      row_in = v.row_in;
      size = length-set w.cells index (ascii, w.color) ∙ v.size;
    },
    (refl, refl),
  ),
)

-- The loops keep the cursor.
At : VgaWriter → VgaWriter → Type 0
At w v = IsConsole v × ((v.row ≡ w.row) × (v.column ≡ w.column))

onward : (w v : VgaWriter) (run : Outcome VgaWriter) → At w v → Stays v run → Stays w run
unfolding At Stays
onward w v run h s = (s.0, s.1, (s.2.0, (s.2.1.0 ∙ h.1.0, s.2.1.1 ∙ h.1.1)))

clear_line-Stays : (w : VgaWriter) (row : ℕ) → IsConsole w → Stays w (clear_line w row)
unfolding clear_line Stays At
clear_line-Stays w row v = by_row (leb height row) refl
  where
    by_row : (b : Bool) → leb height row ≡ b → Stays w (clear_line w row)
    by_row true h = (w, rw h refl, (v, (refl, refl)))
    by_row false h = rw h (
        for_range-keeps (At w) width 0 (λ c u. write_cell u (row * width + c) 32)
          (λ c lo hi u at. onward w u (write_cell u (row * width + c) 32) at (
            write_cell-Stays u (row * width + c) 32 at.0
              (let r : row < 25 = ground arith in omega arith)))
          w (v, (refl, refl)))

copy_up-Stays :
    (w : VgaWriter) (row col : ℕ)
    → IsConsole w
    → row < 25
    → col < 80
    → 0 < row
    → Stays w (copy_up row col w)
unfolding copy_up read_cell
copy_up-Stays w row col v hr hc pos =
    rw (get_elem?-eq-get_or w.cells (row * width + col) (0, 0) (omega (arith, v.size))) (
      write_cell-Stays w ((row - 1) * width + col) ((get_or w.cells (row * width + col) (0, 0)).0) v
        (omega arith))

pub scroll_up-Stays : (w : VgaWriter) → IsConsole w → Stays w (scroll_up w)
unfolding scroll_up Stays At
scroll_up-Stays w v =
    let moved =
      for_range-keeps (At w) (height - 1) 1
        (λ row u. for_range width 0 (λ col t. copy_up row col t) u)
        (λ row lo hi u at.
          for_range-keeps (At w) width 0 (λ col t. copy_up row col t)
            (λ col from to t here.
              onward w t (copy_up row col t) here
                (copy_up-Stays t row col here.0 (omega arith) (omega arith) (omega arith)))
            u at)
        w (v, (refl, refl)) in
    let cleared =
      onward w (moved.0) (clear_line (moved.0) (height - 1)) moved.2
        (clear_line-Stays (moved.0) (height - 1) moved.2.0) in
    (cleared.0, rw moved.1 cleared.1, cleared.2)
