-- ===== src/Interrupts/Idt/Masking.antt =====
-- The masking of the lines without a driver, and the accesses that acknowledge nothing: reads, and
-- writes of the masks.
use orin_os.Prelude.{
  ℕ, ◌<◌, ◌≡◌, refl, sym, ap, ◌∙◌, Bool, true, false, ◌||◌, List, [], ◌∷◌, ok, ok-injective, ap₂,
  arith, ltb, ◌==◌, subst, if_cases,
}
use orin_os.Prelude.Loops.{bind_returned}
use orin_os.Prelude.Ports.{Trace, outb}
use orin_os.Interrupts.Pic.{masked, mask}
use orin_os.Interrupts.Pic.Ports.{
  Pics, mask_line, write_slowly, iowait, master_cmd, master_data, slave_cmd, slave_data,
}
use orin_os.Interrupts.Pic.Chip.{
  Chip, Stage, store, chip, master_chip, slave_chip, Mirrors, vector_base, wiring, mode, ready,
}
use orin_os.Interrupts.Pic.Mirrored.{mask_line-Lines, Masked}
use orin_os.Keyboard.Controller.Handler.{OnlyReads, no_access, read_more}
use orin_os.Interrupts.Idt.Handlers.{mask_lines}

unfoldable pub contains : ℕ → List ℕ → Bool
contains j [] = false
contains j (x ∷ xs) = let rest = contains j xs in (j == x) || rest

or_true : (b : Bool) → (b || true) ≡ true
or_true true = refl
or_true false = refl

store_keeps : (s : Stage) (v : ℕ) (c : Chip) → (store s v c).acknowledged ≡ c.acknowledged
unfolding store
store_keeps (vector_base single fourth) v c = refl
store_keeps (wiring fourth) v c = refl
store_keeps mode v c = refl
store_keeps ready v c = refl

module _ (power_on : Chip) where
  -- The end-of-interrupt commands that the two chips have had.
  unfoldable pub acks : Trace → ℕ × ℕ
  acks t = ((master_chip power_on t).acknowledged, (slave_chip power_on t).acknowledged)

  -- The chips do not change by reads.
  pub chip_reads :
      (cmd dat : ℕ) {t u : Trace}
      → OnlyReads t u
      → chip cmd dat power_on u ≡ chip cmd dat power_on t
  unfolding chip
  chip_reads cmd dat no_access = refl
  chip_reads cmd dat (read_more port v h) = chip_reads cmd dat h

  pub reads_mirrored :
      {t u : Trace} {p : Pics} → OnlyReads t u → Mirrors power_on t p → Mirrors power_on u p
  unfolding master_chip slave_chip
  reads_mirrored q h =
      let m = chip_reads master_cmd master_data q in
      let s = chip_reads slave_cmd slave_data q in
      record {
        master_ready = ap (λ (c : Chip). c.stage) m ∙ h.master_ready;
        slave_ready = ap (λ (c : Chip). c.stage) s ∙ h.slave_ready;
        master_mask = ap (λ (c : Chip). c.mask_register) m ∙ h.master_mask;
        slave_mask = ap (λ (c : Chip). c.mask_register) s ∙ h.slave_mask;
      }

  pub acks_reads : {t u : Trace} → OnlyReads t u → acks u ≡ acks t
  unfolding acks master_chip slave_chip
  acks_reads q =
      ap₂ (λ (c d : Chip). (c.acknowledged, d.acknowledged)) (chip_reads master_cmd master_data q)
        (chip_reads slave_cmd slave_data q)

  acks_write_master : (v : ℕ) (t : Trace) → acks (write_slowly master_data v t) ≡ acks t
  unfolding acks master_chip slave_chip write_slowly iowait outb chip
  acks_write_master v t =
      ap (λ (n : ℕ). (n, (slave_chip power_on t).acknowledged)) (store_keeps _ v _)

  acks_write_slave : (v : ℕ) (t : Trace) → acks (write_slowly slave_data v t) ≡ acks t
  unfolding acks master_chip slave_chip write_slowly iowait outb chip
  acks_write_slave v t =
      ap (λ (n : ℕ). ((master_chip power_on t).acknowledged, n)) (store_keeps _ v _)

  acks-mask_line :
      (irq : ℕ) (t : Trace) (p : Pics) (t1 : Trace) (p1 : Pics)
      → mask_line irq t p ≡ ok (t1, p1)
      → acks t1 ≡ acks t
  unfolding mask_line
  acks-mask_line irq t p t1 p1 e =
      let (m, _, q) = bind_returned (mask p.masks irq) _ (t1, p1) e in
      ap acks (sym (ap (λ (r : Trace × Pics). r.0) (ok-injective q)))
      ∙ if_cases (λ (u : Trace). acks u ≡ acks t) (ltb irq 8) (write_slowly master_data m.master t)
          (write_slowly slave_data m.slave t) (λ _. acks_write_master m.master t)
          (λ _. acks_write_slave m.slave t)

  -- What the loop over some lines does to them, and to no other.
  pub record AllMasked (ls : List ℕ) (t : Trace) (p : Pics) (t1 : Trace) (p1 : Pics) : Type 0 where
    pub mirrored : Mirrors power_on t1 p1
    pub no_acks : acks t1 ≡ acks t
    pub closed : (j : ℕ) → j < 16 → contains j ls ≡ true → masked p1.masks j ≡ 1
    pub others : (j : ℕ) → j < 16 → contains j ls ≡ false → masked p1.masks j ≡ masked p.masks j

  module _ (x : ℕ) (rest : List ℕ) (t : Trace) (p : Pics) (t1 : Trace) (p1 : Pics) (t2 : Trace)
      (p2 : Pics) (first : Masked p.masks x p1.masks) (unacked : acks t1 ≡ acks t)
      (later : AllMasked rest t1 p1 t2 p2) where
    closed_now :
        (b c : Bool) (j : ℕ)
        → (j == x) ≡ b
        → contains j rest ≡ c
        → j < 16
        → (b || c) ≡ true
        → masked p2.masks j ≡ 1
    closed_now b true j e q h o = later.closed j h q
    closed_now true false j e q h o =
        later.others j h q ∙ subst (λ (k : ℕ). masked p1.masks k ≡ 1) (ground arith) first.0
    closed_now false false j e q h o = cc

    as_before :
        (b c : Bool) (j : ℕ)
        → (j == x) ≡ b
        → contains j rest ≡ c
        → j < 16
        → (b || c) ≡ false
        → masked p2.masks j ≡ masked p.masks j
    as_before false false j e q h o = later.others j h q ∙ first.1 j h (λ k. absurd (ground arith))
    as_before true c j e q h o = cc
    as_before false true j e q h o = cc

    one_more : AllMasked (x ∷ rest) t p t2 p2
    unfolding contains
    one_more = record {
      mirrored = later.mirrored;
      no_acks = later.no_acks ∙ unacked;
      closed = λ j h o. closed_now (j == x) (contains j rest) j refl refl h o;
      others = λ j h o. as_before (j == x) (contains j rest) j refl refl h o;
    }

  pub mask_lines-AllMasked :
      (ls : List ℕ) (t : Trace) (p : Pics)
      → ((j : ℕ) → contains j ls ≡ true → j < 16)
      → Mirrors power_on t p
      → (t1 : Trace) × (p1 : Pics) × (mask_lines ls t p ≡ ok (t1, p1)) × AllMasked ls t p t1 p1
  unfolding mask_lines contains
  mask_lines-AllMasked [] t p small v = (
    t,
    p,
    refl,
    record { mirrored = v; no_acks = refl; closed = λ j h o. cc; others = λ j h o. refl },
  )
  mask_lines-AllMasked (x ∷ rest) t p small v =
      let here : (x == x) ≡ true = ground arith in
      let (t1, p1, e, v1, first) = mask_line-Lines power_on x t p (small x (rw here refl)) v in
      let (t2, p2, e2, later) =
        mask_lines-AllMasked rest t1 p1
          (λ j o. small j (ap (λ (c : Bool). (j == x) || c) o ∙ or_true (j == x))) v1 in
      (t2, p2, rw e e2, one_more x rest t p t1 p1 t2 p2 first (acks-mask_line x t p t1 p1 e) later)
