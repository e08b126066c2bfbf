-- ===== src/Console.antt =====
-- The text console of kernel/src/console/vga.rs: the cells of the text buffer and the cursor. Writes
-- to the buffer are unchecked pointer writes there; here one outside its 2000 cells is a panic. The
-- ports of the hardware cursor are left out.
pub mod Cells
pub mod Cursor
use orin_os.Prelude.{
  ℕ, zero, suc, ◌+◌, ◌-◌, ◌*◌, ◌%◌, ◌^◌, min, List, [], ◌∷◌, Outcome, ok, out_of_bounds, or_panic,
  ◌>>=◌, ◌>>◌, guard, bit_and, get_elem?, set, length, for_range, replicate, ltb, leb, ◌==◌, ◌||◌,
  if◌then◌else◌,
}

abbrev pub width : ℕ
width = 80

abbrev pub height : ℕ
height = 25

pub record VgaWriter : Type 0 where
  pub column : ℕ
  pub row : ℕ
  pub color : ℕ
  pub cells : List (ℕ × ℕ)

unfoldable pub write_cell : VgaWriter → ℕ → ℕ → Outcome VgaWriter
write_cell w index ascii =
    guard (ltb index (length w.cells)) out_of_bounds
    >> ok (record w { cells = set w.cells index (ascii, w.color) })

unfoldable pub read_cell : VgaWriter → ℕ → Outcome ℕ
read_cell w index = or_panic (get_elem? w.cells index) out_of_bounds >>= λ c. ok (c.0)

unfoldable pub clear_line : VgaWriter → ℕ → Outcome VgaWriter
clear_line w row =
    if leb height row then ok w else for_range width 0 (λ c v. write_cell v (row * width + c) 32) w

unfoldable pub clear_screen : VgaWriter → Outcome VgaWriter
clear_screen w = for_range (width * height) 0 (λ i v. write_cell v i 32) w >>= λ v.
    ok (record v { column = 0; row = 0 })

-- One cell of `scroll_up`.
unfoldable pub copy_up : ℕ → ℕ → VgaWriter → Outcome VgaWriter
copy_up row col w = do
  ch ← read_cell w (row * width + col)
  write_cell w ((row - 1) * width + col) ch

unfoldable pub scroll_up : VgaWriter → Outcome VgaWriter
scroll_up w =
    for_range (height - 1) 1 (λ row v. for_range width 0 (λ col u. copy_up row col u) v) w >>= λ v.
    clear_line v (height - 1)

unfoldable pub new_line : VgaWriter → Outcome VgaWriter
new_line w =
    if ltb w.row (height - 1)
    then ok (record w { column = 0; row = w.row + 1 })
    else scroll_up (record w { column = 0 })

unfoldable pub put : VgaWriter → ℕ → Outcome VgaWriter
put w ascii = do
  v ← (if leb width w.column then new_line w else ok w)
  u ← write_cell v (v.row * width + v.column) ascii
  ok (record u { column = u.column + 1 })

unfoldable pub backspace : VgaWriter → Outcome VgaWriter
backspace w =
    let at_cursor = (λ (v : VgaWriter). write_cell v (v.row * width + v.column) 32) in
    if ltb 0 w.column
    then at_cursor (record w { column = w.column - 1 })
    else if ltb 0 w.row
    then at_cursor (record w { row = w.row - 1; column = width - 1 })
    else ok w

unfoldable pub write_byte : VgaWriter → ℕ → Outcome VgaWriter
write_byte w byte =
    if byte == 10
    then new_line w
    else if byte == 13
    then ok (record w { column = 0 })
    else if byte == 8
    then backspace w
    else if byte == 9
    then ok (record w { column = min (bit_and (w.column + 8) (2 ^ 64 - 1 - 7)) (width - 1) })
    else if ltb byte 0x20 || (byte == 0x7F)
    then (put w 94 >>= λ v. put v ((byte + 0x40) % 256))
    else put w byte

-- The bytes of a string; one that is not ASCII is shown as a question mark.
unfoldable pub write_str : VgaWriter → List ℕ → Outcome VgaWriter
write_str w [] = ok w
write_str w (byte ∷ bytes) =
    write_byte w (if ltb byte 128 then byte else 63) >>= λ v. write_str v bytes
