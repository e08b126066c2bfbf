-- ===== src/Interrupts/Pic/Chip.antt =====
-- The 8259A as its data sheet has it, to read the writes of the driver by: the four initialisation
-- words, the mask register, and the end-of-interrupt commands.
use orin_os.Prelude.{ℕ, Bool, ◌+◌, ◌≡◌, [], ◌∷◌, ◌==◌, if◌then◌else◌}
use orin_os.Prelude.Bits.{bit}
use orin_os.Prelude.Ports.{reads, writes, Trace}
use orin_os.Interrupts.Pic.Ports.{master_cmd, master_data, slave_cmd, slave_data, Pics}

-- The word that the data port takes next.
pub data Stage : Type 0 where
  -- ICW2, ICW3 and ICW4; of the latter two, whether ICW1 asked for the fourth word.
  vector_base : (single fourth : Bool) → Stage
  wiring : (fourth : Bool) → Stage
  mode : Stage
  ready : Stage

pub record Chip : Type 0 where
  pub stage : Stage
  pub base : ℕ
  pub wires : ℕ  -- ICW3; no other chip if it is alone
  pub mode_word : ℕ
  pub mask_register : ℕ
  pub acknowledged : ℕ  -- the non-specific end-of-interrupt commands so far

-- Behind the vector base, and behind the wiring word.
abbrev pub after_wiring : Bool → Stage
after_wiring fourth = if fourth then mode else ready

abbrev pub after_base : Bool → Bool → Stage
after_base single fourth = if single then after_wiring fourth else wiring fourth

-- A write to the command port: ICW1 has bit 4 set. It clears the mask register; bit 1 says that the
-- chip is alone, so that no ICW3 comes, and bit 0 that an ICW4 comes: without it, the functions of
-- ICW4 are all off.
unfoldable pub command : ℕ → Chip → Chip
command v c =
    if bit v 4 == 1
    then record c {
      stage = vector_base (bit v 1 == 1) (bit v 0 == 1);
      mask_register = 0;
      mode_word = if bit v 0 == 1 then c.mode_word else 0;
    }
    else if v == 0x20
    then record c { acknowledged = c.acknowledged + 1 }
    else c

-- A write to the data port.
unfoldable pub store : Stage → ℕ → Chip → Chip
store (vector_base single fourth) v c = record c {
  stage = after_base single fourth;
  base = v;
  wires = if single then 0 else c.wires;
}
store (wiring fourth) v c = record c { stage = after_wiring fourth; wires = v }
store mode v c = record c { stage = ready; mode_word = v }
store ready v c = record c { mask_register = v }

-- The chip behind two ports after a trace, from a given state.
unfoldable pub chip : ℕ → ℕ → Chip → Trace → Chip
chip cmd dat start [] = start
chip cmd dat start (reads port v ∷ t) = chip cmd dat start t
chip cmd dat start (writes port v ∷ t) =
    let c = chip cmd dat start t in
    if port == cmd then command v c else if port == dat then store c.stage v c else c

module _ (power_on : Chip) where
  unfoldable pub master_chip : Trace → Chip
  master_chip = chip master_cmd master_data power_on

  unfoldable pub slave_chip : Trace → Chip
  slave_chip = chip slave_cmd slave_data power_on

  -- The masks that the driver keeps are those of the chips, which take no initialisation word.
  pub record Mirrors (t : Trace) (p : Pics) : Type 0 where
    pub master_ready : (master_chip t).stage ≡ ready
    pub slave_ready : (slave_chip t).stage ≡ ready
    pub master_mask : (master_chip t).mask_register ≡ p.masks.master
    pub slave_mask : (slave_chip t).mask_register ≡ p.masks.slave
