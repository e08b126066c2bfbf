-- ===== src/Interrupts/Idt/Lines.antt =====
-- The handlers of the sixteen interrupt lines: each acknowledges its interrupt, and one that has no
-- driver closes every line without a driver.
use orin_os.Prelude.{
  ℕ, some, zero, suc, ◌+◌, ◌^◌, ◌<◌, ◌≤◌, ◌≡◌, refl, sym, ap, ◌∙◌, Bool, true, false, ◌||◌, List,
  [], ◌∷◌, Outcome, ok, ok-injective, checked-ok, arith, ltb, leb, lt→ltb, ge→ltb, le→leb, lt→leb,
  ◌==◌, if◌then◌else◌, values, values_same, ℕ_discrete, dec_lt,
}
use orin_os.Prelude.Ports.{Trace, Device}
use orin_os.Interrupts.Pic.{masked, vector_for_irq}
use orin_os.Interrupts.Pic.Ports.{end_of_interrupt}
use orin_os.Interrupts.Pic.Chip.{Chip, Mirrors}
use orin_os.Interrupts.Pic.Acknowledge.{Acks, Acks-Mirrored, end_of_interrupt-Acknowledges}
use orin_os.Keyboard.Ring.Queue.{IsRing}
use orin_os.Keyboard.Controller.Handler.{interrupt_handler-Handled}
use orin_os.Interrupts.Idt.{
  Counters, Machine, bump, other_lines, Gate, Table, Filler, init, on_irq_unexpected,
}
use orin_os.Interrupts.Idt.Handlers.{
  Event, Exit, resumes, count, acknowledge_line, irq_timer, irq_keyboard, irq_unexpected, handle,
}
use orin_os.Interrupts.Idt.Table.{
  line_handler, init-described, described-named, vector_map, stack_map,
}
use orin_os.Interrupts.Idt.Masking.{
  acks, contains, reads_mirrored, acks_reads, mask_lines-AllMasked,
}

pub record IsMachine (power_on : Chip) (m : Machine) : Type 0 where
  pub ring : IsRing m.ring
  pub mirrored : Mirrors power_on m.ports m.pics

-- One more interrupt can be counted.
pub record HasRoom (c : Counters) : Type 0 where
  pub timer_room : c.timer_ticks + 1 < 2 ^ 64
  pub key_room : c.key_events + 1 < 2 ^ 64
  pub unassigned_room : c.unassigned + 1 < 2 ^ 64

-- What the handler of a line does: one end of interrupt for the master, one for the slave from line 3
-- on, and from there on all lines without a driver closed.
pub record Served (power_on : Chip) (irq : ℕ) (m m1 : Machine) : Type 0 where
  pub still : IsMachine power_on m1
  pub master_acked : (acks power_on m1.ports).0 ≡ (acks power_on m.ports).0 + 1
  pub slave_acked :
      (acks power_on m1.ports).1 ≡ (acks power_on m.ports).1 + (if ltb irq 3 then 0 else 1)
  pub untouched : irq < 3 → m1.pics ≡ m.pics
  pub closed : 3 ≤ irq → (j : ℕ) → 3 ≤ j → j < 16 → masked m1.pics.masks j ≡ 1
  pub drivers : 3 ≤ irq → (j : ℕ) → j < 3 → masked m1.pics.masks j ≡ masked m.pics.masks j

abbrev Serves : Chip → ℕ → Machine → Outcome Exit → Type 0
Serves power_on irq m run = (m1 : Machine) × (run ≡ ok (resumes m1)) × Served power_on irq m m1

without_driver : (j : ℕ) → j < 16 → contains j other_lines ≡ leb 3 j
without_driver = values_same 16 (λ j. contains j other_lines) (λ j. leb 3 j) same
  where
    same : values 16 (λ j. contains j other_lines) ≡ values 16 (λ j. leb 3 j)
    same = unfold values contains in refl

-- A list whose every item is below a bound holds nothing else.
all_below : List ℕ → ℕ → Bool
all_below [] n = true
all_below (x ∷ xs) n = let rest = all_below xs n in if ltb x n then rest else false

below : (ls : List ℕ) (n j : ℕ) → all_below ls n ≡ true → contains j ls ≡ true → j < n
unfolding all_below contains
below [] n j a c = cc
below (x ∷ xs) n j a c = elim (dec_lt x n) [
  | yes lt ↦ elim (ℕ_discrete j x) [
    | yes e ↦ omega arith
    | no ne ↦ below xs n j (rw (lt→ltb x n lt) at a) (rest (ground arith) c)
  ]
  | no ge ↦ absurd (ground arith)
]
  where
    rest : (j == x) ≡ false → ((j == x) || contains j xs) ≡ true → contains j xs ≡ true
    rest e q = rw e at q

all_small : (j : ℕ) → contains j other_lines ≡ true → j < 16
unfolding all_below
all_small j = below other_lines 16 j refl

mapped : (irq : ℕ) → irq < 16 → vector_map (0x20 + irq) ≡ some (line_handler irq)
mapped = values_same 16 (λ irq. vector_map (0x20 + irq)) (λ irq. some (line_handler irq)) same
  where
    same : values 16 (λ irq. vector_map (0x20 + irq)) ≡ values 16 (λ irq. some (line_handler irq))
    same = unfold values vector_map line_handler in refl

counted :
    (power_on : Chip) (t : Trace) {a b : ℕ} {t1 : Trace}
    → Acks power_on t a b t1
    → ((acks power_on t1).0 ≡ (acks power_on t).0 + a)
      × ((acks power_on t1).1 ≡ (acks power_on t).1 + b)
unfolding acks
counted power_on t h = (
  ap (λ (c : Chip). c.acknowledged) h.master_acks,
  ap (λ (c : Chip). c.acknowledged) h.slave_acks,
)

module _ (power_on : Chip) (m0 m : Machine) (v : IsMachine power_on m)
    (quiet : acks power_on m.ports ≡ acks power_on m0.ports) where
  masters : (acks power_on m.ports).0 ≡ (acks power_on m0.ports).0
  masters = ap (λ (x : ℕ × ℕ). x.0) quiet

  slaves : (acks power_on m.ports).1 ≡ (acks power_on m0.ports).1
  slaves = ap (λ (x : ℕ × ℕ). x.1) quiet

  -- The end of a handler of one of the first three lines, where the rest has acknowledged nothing.
  acknowledged_low :
      (irq : ℕ)
      → irq < 3
      → vector_for_irq irq ≡ ok (0x20 + irq)
      → m.pics ≡ m0.pics
      → Serves power_on irq m0 (acknowledge_line irq m)
  unfolding acknowledge_line
  acknowledged_low irq h e same =
      let a : Acks power_on m.ports 1 0 (end_of_interrupt (0x20 + irq) m.ports) =
        (end_of_interrupt-Acknowledges power_on m.ports (0x20 + irq)).of_master (omega arith)
          (omega arith) in
      let (one, none_more) = counted power_on m.ports a in
      (
        record m { ports = end_of_interrupt (0x20 + irq) m.ports },
        rw e refl,
        record {
          still = record { ring = v.ring; mirrored = Acks-Mirrored power_on m.ports a v.mirrored };
          master_acked = omega (arith, one, masters);
          slave_acked = rw (lt→ltb irq 3 h) (omega (arith, none_more, slaves));
          untouched = λ _. same;
          closed = λ q. absurd (omega arith);
          drivers = λ q. absurd (omega arith);
        },
      )

  -- The end of `on_irq_unexpected`.
  acknowledged_both :
      (irq : ℕ)
      → 3 ≤ irq
      → ((j : ℕ) → 3 ≤ j → j < 16 → masked m.pics.masks j ≡ 1)
      → ((j : ℕ) → j < 3 → masked m.pics.masks j ≡ masked m0.pics.masks j)
      → Serves power_on irq m0 (acknowledge_line 8 m)
  unfolding acknowledge_line vector_for_irq
  acknowledged_both irq h closed drivers =
      let a : Acks power_on m.ports 1 1 (end_of_interrupt 0x28 m.ports) =
        (end_of_interrupt-Acknowledges power_on m.ports 0x28).of_slave (omega arith)
          (omega arith) in
      let (one, one_more) = counted power_on m.ports a in
      (
        record m { ports = end_of_interrupt 0x28 m.ports },
        refl,
        record {
          still = record { ring = v.ring; mirrored = Acks-Mirrored power_on m.ports a v.mirrored };
          master_acked = omega (arith, one, masters);
          slave_acked = rw (ge→ltb irq 3 h) (omega (arith, one_more, slaves));
          untouched = λ q. absurd (omega arith);
          closed = λ _. closed;
          drivers = λ _. drivers;
        },
      )

module _ (power_on : Chip) (m : Machine) (v : IsMachine power_on m) (room : HasRoom m.tally) where
  timer_served : Serves power_on 0 m (irq_timer m)
  unfolding irq_timer count bump
  timer_served = rw (checked-ok (m.tally.timer_ticks + 1) room.timer_room) (
      acknowledged_low power_on m _ (record { ring = v.ring; mirrored = v.mirrored }) refl 0
        (omega arith) (unfold vector_for_irq in refl) refl)

  keyboard_served : (device : Device) → Serves power_on 1 m (irq_keyboard device m)
  unfolding irq_keyboard count bump
  keyboard_served device =
      let (t1, r1, e, h) = interrupt_handler-Handled device m.ports m.ring v.ring in
      rw (checked-ok (m.tally.key_events + 1) room.key_room, e)
        (acknowledged_low power_on m _
          (record { ring = h.ring; mirrored = reads_mirrored power_on h.only_reads v.mirrored })
          (acks_reads power_on h.only_reads) 1 (omega arith) (unfold vector_for_irq in refl) refl)

  cascade_served : Serves power_on 2 m (acknowledge_line 2 m)
  cascade_served =
      acknowledged_low power_on m m v refl 2 (omega arith) (unfold vector_for_irq in refl) refl

  unexpected_served : (irq : ℕ) → 3 ≤ irq → Serves power_on irq m (irq_unexpected m)
  unfolding irq_unexpected count bump
  unexpected_served irq lo =
      let (t1, p1, e, h) =
        mask_lines-AllMasked power_on other_lines m.ports m.pics all_small v.mirrored in
      rw (checked-ok (m.tally.unassigned + 1) room.unassigned_room, e)
        (acknowledged_both power_on m _ (record { ring = v.ring; mirrored = h.mirrored }) h.no_acks
          irq lo (λ j a b. h.closed j b (without_driver j b ∙ le→leb 3 j a))
          (λ j a. h.others j (omega arith) (without_driver j (omega arith) ∙ lt→leb 3 j a)))

  by_line : (e : Event) (irq : ℕ) → Serves power_on irq m (handle (line_handler irq) e m)
  unfolding line_handler handle
  by_line e zero = timer_served
  by_line e (suc zero) = keyboard_served e.device
  by_line e (suc (suc zero)) = cascade_served
  by_line e (suc (suc (suc n))) =
      let unexpected : line_handler (suc (suc (suc n))) ≡ on_irq_unexpected = ground arith in
      rw unexpected (unexpected_served (suc (suc (suc n))) (omega arith))

  -- On a machine with a well-formed ring whose masks are those of the chips, and with room in its
  -- counters, the handler that init installs at the vector of each of the 16 lines returns and
  -- keeps the machine so. It sends the master exactly one end of interrupt, and the slave exactly
  -- one for the lines from 3 on and none for the others: on lines 7 and 15 too, where it does not
  -- ask whether the interrupt is spurious. The lines below 3 change no mask; any other closes all
  -- lines from 3 on and leaves those below as they were.
  pub handle-Served :
      (general : Filler) (table : Table) (e : Event) (irq : ℕ)
      → init general ≡ ok table
      → irq < 16
      → (g : Gate) × (table (0x20 + irq) ≡ some g) × Serves power_on irq m (handle g.handler e m)
  handle-Served general table e irq run h =
      let (t, run1, same) = init-described general in
      let at : table (0x20 + irq)
          ≡ some (record { handler = line_handler irq; stack_index = stack_map (0x20 + irq) }) =
        ap (λ (f : Table). f (0x20 + irq)) (ok-injective (sym run ∙ run1))
        ∙ same (0x20 + irq) (omega arith)
        ∙ described-named general (0x20 + irq) (line_handler irq) (mapped irq h) in
      (
        record { handler = line_handler irq; stack_index = stack_map (0x20 + irq) },
        at,
        by_line e irq,
      )
