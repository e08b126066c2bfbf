-- ===== src/Console/Cursor.antt =====
-- The cursor stays on the screen, and no write leaves the text buffer.
use orin_os.Prelude.{
  ℕ, ◌+◌, ◌-◌, ◌*◌, ◌%◌, ◌^◌, min, ◌<◌, ◌≡◌, refl, Bool, true, false, List, [], ◌∷◌, ok, ◌>>=◌,
  arith, bit_and, ltb, leb, ◌==◌, ◌||◌, if◌then◌else◌,
}
use orin_os.Console.{
  VgaWriter, width, height, write_cell, new_line, put, backspace, write_byte, write_str,
}
use orin_os.Console.Cells.{IsConsole, Keeps, Stays, write_cell-Stays, scroll_up-Stays}

new_line-keeps :
    (w : VgaWriter)
    → IsConsole w
    → (v : VgaWriter) × (new_line w ≡ ok v) × (IsConsole v × (v.column ≡ 0))
unfolding new_line Stays
new_line-keeps w v = by_row (ltb w.row (height - 1)) refl
  where
    by_row :
        (b : Bool)
        → ltb w.row (height - 1) ≡ b
        → (u : VgaWriter) × (new_line w ≡ ok u) × (IsConsole u × (u.column ≡ 0))
    by_row true h = (
      record w { column = 0; row = w.row + 1 },
      rw h refl,
      (record { column_in = omega arith; row_in = ground arith; size = v.size }, refl),
    )
    by_row false h =
        let s =
          scroll_up-Stays (record w { column = 0 })
            (record { column_in = omega arith; row_in = v.row_in; size = v.size }) in
        (s.0, rw h s.1, (s.2.0, s.2.1.1))

-- A character written at a column that is on the screen.
put_here :
    (w : VgaWriter) (ascii : ℕ)
    → IsConsole w
    → w.column < 80
    → Keeps (
        write_cell w (w.row * width + w.column) ascii >>= λ u.
        ok (record u { column = u.column + 1 }))
unfolding Keeps Stays
put_here w ascii v h =
    let s = write_cell-Stays w (w.row * width + w.column) ascii v (omega (arith, v.row_in)) in
    (
      record (s.0) { column = (s.0).column + 1 },
      rw s.1 refl,
      record { column_in = omega (arith, s.2.1.1); row_in = s.2.0.row_in; size = s.2.0.size },
    )

put-Keeps : (w : VgaWriter) (ascii : ℕ) → IsConsole w → Keeps (put w ascii)
unfolding put Keeps
put-Keeps w ascii v = by_column (leb width w.column) refl
  where
    by_column : (b : Bool) → leb width w.column ≡ b → Keeps (put w ascii)
    by_column true h =
        let l = new_line-keeps w v in
        let p = put_here (l.0) ascii l.2.0 (omega (arith, l.2.1)) in (p.0, rw h (rw l.1 p.1), p.2)
    by_column false h = rw h (put_here w ascii v (ground arith))

backspace-Keeps : (w : VgaWriter) → IsConsole w → Keeps (backspace w)
unfolding backspace Keeps Stays
backspace-Keeps w v = by_column (ltb 0 w.column) (ltb 0 w.row) refl refl
  where
    erased :
        (u : VgaWriter)
        → IsConsole u
        → u.column < 80
        → Keeps (write_cell u (u.row * width + u.column) 32)
    erased u c h =
        let s = write_cell-Stays u (u.row * width + u.column) 32 c (omega (arith, c.row_in)) in
        (s.0, s.1, s.2.0)

    by_column : (a b : Bool) → ltb 0 w.column ≡ a → ltb 0 w.row ≡ b → Keeps (backspace w)
    by_column true b h g = rw h (
        erased (record w { column = w.column - 1 })
          (record { column_in = omega (arith, v.column_in); row_in = v.row_in; size = v.size })
          (ground (arith, v.column_in)))
    by_column false true h g = rw h (
        rw g (
          erased (record w { row = w.row - 1; column = width - 1 })
            (record { column_in = omega arith; row_in = omega (arith, v.row_in); size = v.size })
            (omega arith)))
    by_column false false h g = (w, rw h (rw g refl), v)

-- On a console whose cursor is on the screen, write_byte returns for every byte: no write leaves the
-- text buffer, and the cursor is on the screen again.
pub write_byte-Keeps : (w : VgaWriter) (byte : ℕ) → IsConsole w → Keeps (write_byte w byte)
unfolding write_byte Keeps
write_byte-Keeps w byte v =
    by_byte (byte == 10) (byte == 13) (byte == 8) (byte == 9) (ltb byte 0x20 || (byte == 0x7F))
  where
    by_byte :
        (nl cr bs tab control : Bool)
        → Keeps (
            if nl
            then new_line w
            else if cr
            then ok (record w { column = 0 })
            else if bs
            then backspace w
            else if tab
            then ok
                (record w { column = min (bit_and (w.column + 8) (2 ^ 64 - 1 - 7)) (width - 1) })
            else if control
            then (put w 94 >>= λ u. put u ((byte + 0x40) % 256))
            else put w byte)
    by_byte true cr bs tab control = let l = new_line-keeps w v in (l.0, l.1, l.2.0)
    by_byte false true bs tab control = (
      record w { column = 0 },
      refl,
      record { column_in = omega arith; row_in = v.row_in; size = v.size },
    )
    by_byte false false true tab control = backspace-Keeps w v
    by_byte false false false true control = (
      record w { column = min (bit_and (w.column + 8) (2 ^ 64 - 1 - 7)) (width - 1) },
      refl,
      record { column_in = omega arith; row_in = v.row_in; size = v.size },
    )
    by_byte false false false false true =
        let p = put-Keeps w 94 v in
        let q = put-Keeps (p.0) ((byte + 0x40) % 256) p.2 in (q.0, rw p.1 q.1, q.2)
    by_byte false false false false false = put-Keeps w byte v

-- On a console whose cursor is in one of the 25 rows, at one of their 80 columns or behind the
-- last, write_str returns for every string of bytes: no write leaves the text buffer, and the
-- cursor is in such a place again.
pub write_str-Keeps : (w : VgaWriter) (bytes : List ℕ) → IsConsole w → Keeps (write_str w bytes)
unfolding write_str Keeps
write_str-Keeps w [] v = (w, refl, v)
write_str-Keeps w (byte ∷ bytes) v =
    let shown = if ltb byte 128 then byte else 63 in
    let p = write_byte-Keeps w shown v in
    let q = write_str-Keeps (p.0) bytes p.2 in (q.0, rw p.1 q.1, q.2)
