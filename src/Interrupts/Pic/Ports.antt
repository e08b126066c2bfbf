-- ===== src/Interrupts/Pic/Ports.antt =====
-- What kernel/src/interrupts/pic.rs writes to the ports of the two 8259A, and the state that it
-- keeps of them: `MASKS` with the writes of `unmask` and `mask`, and `REMAPPED`.
use orin_os.Prelude.{
  ℕ, ◌+◌, ◌^◌, Bool, true, Option, none, some, Outcome, ok, ◌>>=◌, ltb, if◌then◌else◌,
}
use orin_os.Prelude.Ports.{Trace, Device, inb, outb}
use orin_os.Interrupts.Pic.{
  Masks, unmask, mask, irq_for_vector, master_offset, slave_offset, cascade,
}

abbrev pub master_cmd : ℕ
master_cmd = 0x20

abbrev pub master_data : ℕ
master_data = 0x21

abbrev pub slave_cmd : ℕ
slave_cmd = 0xA0

abbrev pub slave_data : ℕ
slave_data = 0xA1

abbrev pub cmd_end_of_interrupt : ℕ
cmd_end_of_interrupt = 0x20

abbrev pub icw1_init : ℕ
icw1_init = 0x10

abbrev pub icw1_icw4 : ℕ
icw1_icw4 = 0x01

abbrev pub icw4_8086 : ℕ
icw4_8086 = 0x01

unfoldable pub iowait : Trace → Trace
iowait = outb 0x80 0

-- A write and the pause behind it.
unfoldable pub write_slowly : ℕ → ℕ → Trace → Trace
write_slowly port v t = iowait (outb port v t)

pub record Pics : Type 0 where
  pub masks : Masks
  pub remapped : Bool

unfoldable pub at_reset : Pics
at_reset = record { masks = record { master = 0xFF; slave = 0xFF }; remapped = Bool.false }

unfoldable pub remap : Device → Trace → Pics → Trace × Pics
remap device t p =
    let saved = (inb device slave_data (inb device master_data t).0).0 in
    let icw1 =
      write_slowly slave_cmd (icw1_init + icw1_icw4)
        (write_slowly master_cmd (icw1_init + icw1_icw4) saved) in
    let icw2 = write_slowly slave_data slave_offset (write_slowly master_data master_offset icw1) in
    let icw3 = write_slowly slave_data cascade (write_slowly master_data (2 ^ cascade) icw2) in
    let icw4 = write_slowly slave_data icw4_8086 (write_slowly master_data icw4_8086 icw3) in
    (
      write_slowly slave_data 0xFF (write_slowly master_data 0xFF icw4),
      record { masks = record { master = 0xFF; slave = 0xFF }; remapped = true },
    )

-- `unmask` of pic.rs with its writes: the master's mask first, if the line is on the slave.
unfoldable pub unmask_line : ℕ → Trace → Pics → Outcome (Trace × Pics)
unmask_line irq t p = do
  m ← unmask p.masks irq
  ok (
    if ltb irq 8
        then write_slowly master_data m.master t
        else write_slowly slave_data m.slave (write_slowly master_data m.master t),
    record p { masks = m },
  )

unfoldable pub mask_line : ℕ → Trace → Pics → Outcome (Trace × Pics)
mask_line irq t p = do
  m ← mask p.masks irq
  ok (
    if ltb irq 8 then write_slowly master_data m.master t else write_slowly slave_data m.slave t,
    record p { masks = m },
  )

-- `end_of_interrupt`, behind its look-up of the line.
unfoldable pub acknowledge : Option ℕ → Trace → Trace
acknowledge none t = t
acknowledge (some irq) t =
    if ltb irq 8
    then write_slowly master_cmd cmd_end_of_interrupt t
    else write_slowly master_cmd cmd_end_of_interrupt
        (write_slowly slave_cmd cmd_end_of_interrupt t)

unfoldable pub end_of_interrupt : ℕ → Trace → Trace
end_of_interrupt vec = acknowledge (irq_for_vector vec)
