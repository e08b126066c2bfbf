-- ===== src/Tests/Console.antt =====
-- A full screen with the cursor behind its last cell: the next character scrolls.
use orin_os.Prelude.{ℕ, [], ◌∷◌, arith, length-replicate, replicate}
use orin_os.Console.{VgaWriter, write_str}
use orin_os.Console.Cells.{IsConsole, Keeps}
use orin_os.Console.Cursor.{write_str-Keeps}

full_screen : VgaWriter
full_screen = record { column = 80; row = 24; color = 7; cells = replicate 2000 (65, 7) }

full_screen-IsConsole : IsConsole full_screen
unfolding full_screen
full_screen-IsConsole = record {
  column_in = omega arith;
  row_in = omega arith;
  size = length-replicate {A = ℕ × ℕ} 2000 (65, 7);
}

write_str-Keeps_example : Keeps (write_str full_screen (66 ∷ 10 ∷ 8 ∷ 200 ∷ []))
write_str-Keeps_example = write_str-Keeps full_screen (66 ∷ 10 ∷ 8 ∷ 200 ∷ []) full_screen-IsConsole
