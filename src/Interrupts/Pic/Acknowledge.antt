-- ===== src/Interrupts/Pic/Acknowledge.antt =====
-- Which controllers an end of interrupt reaches.
use orin_os.Prelude.{
  ℕ, ◌+◌, ◌-◌, ◌<◌, ◌≤◌, ◌≡◌, refl, ap, ◌∙◌, ◌⊎◌, some, none, arith, lt→ltb, ge→ltb,
}
use orin_os.Prelude.Bits.{bit}
use orin_os.Prelude.Ports.{Trace, outb}
use orin_os.Interrupts.Pic.{irq_for_vector}
use orin_os.Interrupts.Pic.Ports.{iowait, write_slowly, Pics, acknowledge, end_of_interrupt}
use orin_os.Interrupts.Pic.Chip.{Chip, command, chip, master_chip, slave_chip, Mirrors}

module _ (power_on : Chip) (t : Trace) where
  -- The commands that a run adds to each chip, which else stays as it is.
  pub record Acks (masters slaves : ℕ) (t1 : Trace) : Type 0 where
    pub master_acks : master_chip power_on t1 ≡ record (master_chip power_on t) {
      acknowledged = (master_chip power_on t).acknowledged + masters;
    }
    pub slave_acks : slave_chip power_on t1 ≡ record (slave_chip power_on t) {
      acknowledged = (slave_chip power_on t).acknowledged + slaves;
    }

  pub Acks-Mirrored :
      {masters slaves : ℕ} {t1 : Trace} {p : Pics}
      → Acks masters slaves t1
      → Mirrors power_on t p
      → Mirrors power_on t1 p
  Acks-Mirrored a h = record {
    master_ready = ap (λ (c : Chip). c.stage) a.master_acks ∙ h.master_ready;
    slave_ready = ap (λ (c : Chip). c.stage) a.slave_acks ∙ h.slave_ready;
    master_mask = ap (λ (c : Chip). c.mask_register) a.master_acks ∙ h.master_mask;
    slave_mask = ap (λ (c : Chip). c.mask_register) a.slave_acks ∙ h.slave_mask;
  }

  acknowledge_low : (irq : ℕ) → irq < 8 → Acks 1 0 (acknowledge (some irq) t)
  unfolding acknowledge write_slowly iowait outb master_chip slave_chip chip command bit
  acknowledge_low irq h = rw (lt→ltb irq 8 h) (record {
    master_acks = refl;
    slave_acks = ap (λ (n : ℕ). record (slave_chip power_on t) { acknowledged = n }) (omega arith);
  })

  acknowledge_high : (irq : ℕ) → 8 ≤ irq → Acks 1 1 (acknowledge (some irq) t)
  unfolding acknowledge write_slowly iowait outb master_chip slave_chip chip command bit
  acknowledge_high irq h = rw (ge→ltb irq 8 h) (record { master_acks = refl; slave_acks = refl })

  -- What an end of interrupt does, by its vector.
  pub record Acknowledges (vec : ℕ) : Type 0 where
    pub of_master : 0x20 ≤ vec → vec < 0x28 → Acks 1 0 (end_of_interrupt vec t)
    pub of_slave : 0x28 ≤ vec → vec < 0x30 → Acks 1 1 (end_of_interrupt vec t)
    pub of_neither : (vec < 0x20) ⊎ (0x30 ≤ vec) → end_of_interrupt vec t ≡ t

  -- After any accesses end_of_interrupt sends one non-specific end of interrupt to the master
  -- alone for the vectors 0x20 to 0x27, one to each chip for 0x28 to 0x2F, and touches no port for
  -- any other vector; nothing else of the chips changes.
  pub end_of_interrupt-Acknowledges : (vec : ℕ) → Acknowledges vec
  unfolding end_of_interrupt
  end_of_interrupt-Acknowledges vec = record {
    of_master = λ lo hi.
        let e : irq_for_vector vec ≡ some (vec - 0x20) = unfold irq_for_vector in ground arith in
        rw e (acknowledge_low (vec - 0x20) (omega arith));
    of_slave = λ lo hi.
        let e : irq_for_vector vec ≡ some (8 + (vec - 0x28)) =
          unfold irq_for_vector in ground arith in
        rw e (acknowledge_high (8 + (vec - 0x28)) (omega arith));
    of_neither = λ out.
        let e : irq_for_vector vec ≡ none = unfold irq_for_vector in ground arith in
        rw e (unfold acknowledge in refl);
  }
