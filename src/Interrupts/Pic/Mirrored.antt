-- ===== src/Interrupts/Pic/Mirrored.antt =====
-- The driver of the 8259A pair against the chips: what `remap` programs, that the masks kept are the
-- chips' own, and which controllers an end of interrupt reaches.
use orin_os.Prelude.{
  ℕ, zero, suc, ◌-◌, ◌<◌, ◌≡◌, ◌≢◌, refl, sym, ◌∙◌, true, false, Outcome, ok, ok-injective, ◌>>=◌,
  subst, ltb, arith, lt→ltb, ge→ltb, bit_and, bit_or, ◌^◌, dec_lt,
}
use orin_os.Prelude.Bits.{bit}
use orin_os.Prelude.Ports.{Trace, Device, inb, outb}
use orin_os.Interrupts.Pic.{
  Masks, cascade, unmask, mask, unmask-Unmasked, mask-Masked, Unmasked, masked,
}
use orin_os.Interrupts.Pic.Ports.{
  master_data, slave_data, iowait, write_slowly, Pics, remap, unmask_line, mask_line,
}
use orin_os.Interrupts.Pic.Chip.{Chip, command, store, chip, master_chip, slave_chip, Mirrors}

-- What `remap` leaves in the chips.
pub record Programmed (power_on : Chip) (t : Trace) (p : Pics) : Type 0 where
  pub mirrored : Mirrors power_on t p
  pub master_base : (master_chip power_on t).base ≡ 0x20
  pub slave_base : (slave_chip power_on t).base ≡ 0x28
  pub master_wires : (master_chip power_on t).wires ≡ 4
  pub slave_wires : (slave_chip power_on t).wires ≡ 2
  pub master_mode : (master_chip power_on t).mode_word ≡ 1  -- 8086 mode, nothing else
  pub slave_mode : (slave_chip power_on t).mode_word ≡ 1
  pub all_masked : (irq : ℕ) → irq < 16 → masked p.masks irq ≡ 1
  pub is_remapped : p.remapped ≡ true

ones : (i : ℕ) → i < 8 → bit 255 i ≡ 1
unfolding bit
ones zero h = refl
ones (suc zero) h = refl
ones (suc (suc zero)) h = refl
ones (suc (suc (suc zero))) h = refl
ones (suc (suc (suc (suc zero)))) h = refl
ones (suc (suc (suc (suc (suc zero))))) h = refl
ones (suc (suc (suc (suc (suc (suc zero)))))) h = refl
ones (suc (suc (suc (suc (suc (suc (suc zero))))))) h = refl
ones (suc (suc (suc (suc (suc (suc (suc (suc i)))))))) h = absurd (omega arith)

all_ones : (irq : ℕ) → irq < 16 → masked (record { master = 255; slave = 255 }) irq ≡ 1
unfolding masked
all_ones irq h = elim (dec_lt irq 8) [
  | yes low ↦ rw (lt→ltb irq 8 low) (ones irq low)
  | no high ↦ rw (ge→ltb irq 8 (omega arith)) (ones (irq - 8) (omega arith))
]

module _ (power_on : Chip) (device : Device) where
  -- After remap, from any state of the two 8259A and after any accesses, the chips, which take the
  -- initialisation words that the first of them asks for, take none any more, are in 8086 mode,
  -- deliver from the vectors 0x20 and 0x28 on, are wired to each other by line 2, and have every
  -- line masked; so do the masks that the driver keeps.
  pub remap-Programmed :
      (t : Trace) (p : Pics) → Programmed power_on (remap device t p).0 (remap device t p).1
  unfolding remap write_slowly iowait outb inb master_chip slave_chip chip command store bit masked
  remap-Programmed t p = record {
    mirrored = record {
      master_ready = refl;
      slave_ready = refl;
      master_mask = refl;
      slave_mask = refl;
    };
    master_base = refl;
    slave_base = refl;
    master_wires = refl;
    slave_wires = refl;
    master_mode = refl;
    slave_mode = refl;
    all_masked = all_ones;
    is_remapped = refl;
  }

module _ (power_on : Chip) (t : Trace) (p : Pics) (h : Mirrors power_on t p) where
  write_master :
      (v : ℕ)
      → Mirrors power_on
          (write_slowly master_data v t)
          (record p { masks = record p.masks { master = v } })
  unfolding write_slowly iowait outb master_chip slave_chip chip store
  write_master v = record {
    master_ready = rw h.master_ready refl;
    slave_ready = h.slave_ready;
    master_mask = rw h.master_ready refl;
    slave_mask = h.slave_mask;
  }

  write_slave :
      (v : ℕ)
      → Mirrors power_on
          (write_slowly slave_data v t)
          (record p { masks = record p.masks { slave = v } })
  unfolding write_slowly iowait outb master_chip slave_chip chip store
  write_slave v = record {
    master_ready = h.master_ready;
    slave_ready = rw h.slave_ready refl;
    master_mask = h.master_mask;
    slave_mask = rw h.slave_ready refl;
  }

abbrev pub Masked : Masks → ℕ → Masks → Type 0
Masked m irq m1 =
    (masked m1 irq ≡ 1)
    × ((other : ℕ) → other < 16 → other ≢ irq → masked m1 other ≡ masked m other)

-- What an operation on a line leaves: the masks still mirrored, and `Done` of them.
abbrev pub Lines : Chip → (Masks → Type 0) → Outcome (Trace × Pics) → Type 0
Lines power_on Done m =
    (t1 : Trace) × (p1 : Pics) × (m ≡ ok (t1, p1)) × Mirrors power_on t1 p1 × Done p1.masks

module _ (power_on : Chip) (irq : ℕ) (t : Trace) (p : Pics) (h : irq < 16)
    (v : Mirrors power_on t p) where
  -- A run that is known up to its masks, which are those of `m1`.
  settled :
      {t1 : Trace} {p1 : Pics} (Done : Masks → Type 0) {m1 : Masks} (op : Outcome Masks)
      → (run : Masks → Outcome (Trace × Pics)) → op ≡ ok p1.masks
      → (op ≡ ok m1) × Done m1
      → run p1.masks ≡ ok (t1, p1)
      → Mirrors power_on t1 p1
      → Lines power_on Done (op >>= run)
  settled {t1} {p1} Done op run e (e1, d) r k =
      (t1, p1, rw e r, k, subst Done (ok-injective (sym e1 ∙ e)) d)

  -- While the driver's masks are those of the chips, unmask of one of the 16 lines returns and
  -- keeps them so; it opens the line, and the cascade if the line is one of the slave's, and no
  -- other.
  pub unmask_line-Lines : Lines power_on (Unmasked p.masks irq) (unmask_line irq t p)
  unfolding unmask_line unmask
  unmask_line-Lines = elim (dec_lt irq 8) [
    | yes low ↦
        let (m1, e, u) = unmask-Unmasked p.masks irq h in
        settled (Unmasked p.masks irq) (unmask p.masks irq) _ (rw (lt→ltb irq 8 low) refl) (e, u)
          (rw (lt→ltb irq 8 low) refl)
          (write_master power_on t p v (bit_and p.masks.master (2 ^ 8 - 1 - 2 ^ irq)))
    | no high ↦
        let (m1, e, u) = unmask-Unmasked p.masks irq h in
        let ge : ltb irq 8 ≡ false = ge→ltb irq 8 (omega arith) in
        let opened = bit_and p.masks.master (2 ^ 8 - 1 - 2 ^ cascade) in
        let fits : ltb (irq - 8) 8 ≡ true = lt→ltb (irq - 8) 8 (omega arith) in
        settled (Unmasked p.masks irq) (unmask p.masks irq) _ (rw (ge, fits) refl) (e, u)
          (rw ge refl)
          (write_slave power_on (write_slowly master_data opened t)
            (record p { masks = record p.masks { master = opened } })
            (write_master power_on t p v opened)
            (bit_and p.masks.slave (2 ^ 8 - 1 - 2 ^ (irq - 8))))
  ]

  -- `mask` of one of the 16 lines closes the line in the chips.
  pub mask_line-Lines : Lines power_on (Masked p.masks irq) (mask_line irq t p)
  unfolding mask_line mask
  mask_line-Lines = elim (dec_lt irq 8) [
    | yes low ↦
        let (m1, e, u, w) = mask-Masked p.masks irq h in
        settled (Masked p.masks irq) (mask p.masks irq) _ (rw (lt→ltb irq 8 low) refl) (e, (u, w))
          (rw (lt→ltb irq 8 low) refl)
          (write_master power_on t p v (bit_or p.masks.master (2 ^ irq)))
    | no high ↦
        let (m1, e, u, w) = mask-Masked p.masks irq h in
        let ge : ltb irq 8 ≡ false = ge→ltb irq 8 (omega arith) in
        let fits : ltb (irq - 8) 8 ≡ true = lt→ltb (irq - 8) 8 (omega arith) in
        settled (Masked p.masks irq) (mask p.masks irq) _ (rw (ge, fits) refl) (e, (u, w))
          (rw ge refl) (write_slave power_on t p v (bit_or p.masks.slave (2 ^ (irq - 8))))
  ]
