-- ===== src/Interrupts/Pic.antt =====
-- Vectors and line masks of kernel/src/interrupts/pic.rs. The state is `MASKS`; the writes of it to
-- the data ports are left out. A shift of a u8 by eight or more is an overflow panic, and so is a sum
-- above 255.
pub mod Ports
pub mod Chip
pub mod Mirrored
pub mod Acknowledge
use orin_os.Prelude.{
  ℕ, ◌+◌, ◌-◌, ◌^◌, ◌≤◌, ◌<◌, ◌≡◌, ◌≢◌, refl, sym, Option, none, some, Outcome, ok, panic, overflow,
  ◌>>=◌, arith, ltb, leb, lt→ltb, ge→ltb, bit_and, bit_or, if◌then◌else◌, dec_lt,
}
use orin_os.Prelude.Bits.{bit}
use orin_os.Prelude.Bits.Words.{
  bit_and-clear_self, bit_and-clear_ne, bit_or-pow_self, bit_or-pow_ne,
}

abbrev pub master_offset : ℕ
master_offset = 0x20

abbrev pub slave_offset : ℕ
slave_offset = 0x28

abbrev pub cascade : ℕ
cascade = 2

abbrev pub checked_u8 : ℕ → Outcome ℕ
checked_u8 n = if ltb n 256 then ok n else panic overflow

unfoldable pub vector_for_irq : ℕ → Outcome ℕ
vector_for_irq irq =
    if ltb irq 8 then checked_u8 (master_offset + irq) else checked_u8 (slave_offset + (irq - 8))

unfoldable pub irq_for_vector : ℕ → Option ℕ
irq_for_vector vec =
    if ltb vec 0x20
    then none
    else if leb vec 0x27
    then some (vec - master_offset)
    else if leb vec 0x2F
    then some (8 + (vec - slave_offset))
    else none

pub record Masks : Type 0 where
  pub master : ℕ
  pub slave : ℕ

-- `1 << bit`
abbrev pub line : ℕ → Outcome ℕ
line n = if ltb n 8 then ok (2 ^ n) else panic overflow

unfoldable pub unmask : Masks → ℕ → Outcome Masks
unmask m irq =
    if ltb irq 8
    then (line irq >>= λ b. ok (record m { master = bit_and m.master (2 ^ 8 - 1 - b) }))
    else (line (irq - 8) >>= λ b. ok (record {
      master = bit_and m.master (2 ^ 8 - 1 - 2 ^ cascade);
      slave = bit_and m.slave (2 ^ 8 - 1 - b);
    }))

unfoldable pub mask : Masks → ℕ → Outcome Masks
mask m irq =
    if ltb irq 8
    then (line irq >>= λ b. ok (record m { master = bit_or m.master b }))
    else (line (irq - 8) >>= λ b. ok (record m { slave = bit_or m.slave b }))

-- 1 if a line is masked, of 16.
unfoldable pub masked : Masks → ℕ → ℕ
masked m irq = if ltb irq 8 then bit m.master irq else bit m.slave (irq - 8)

-- What `unmask` does: the line is open, and so is the cascade if the line needs it; no other line
-- changes.
pub record Unmasked (m : Masks) (irq : ℕ) (m1 : Masks) : Type 0 where
  pub open_line : masked m1 irq ≡ 0
  pub open_cascade : 8 ≤ irq → masked m1 cascade ≡ 0
  pub others :
      (other : ℕ)
      → other < 16
      → other ≢ irq
      → (8 ≤ irq → other ≢ cascade)
      → masked m1 other ≡ masked m other

-- Of the 16 lines, `irq_for_vector` takes the vector of each back to it.
pub irq_for_vector-vector_for_irq :
    (irq : ℕ)
    → irq < 16
    → (vec : ℕ) × (vector_for_irq irq ≡ ok vec) × (irq_for_vector vec ≡ some irq)
unfolding vector_for_irq irq_for_vector
irq_for_vector-vector_for_irq irq h = (irq + 32, ground arith, ground arith)

-- Every vector that `irq_for_vector` gives a line for is the vector of that line, one of 16.
pub vector_for_irq-irq_for_vector :
    (vec irq : ℕ) → irq_for_vector vec ≡ some irq → (irq < 16) × (vector_for_irq irq ≡ ok vec)
unfolding vector_for_irq irq_for_vector
vector_for_irq-irq_for_vector vec irq h = (ground arith, ground arith)

-- `unmask` of one of the 16 lines opens the line, and with it the cascade if the line is on the slave;
-- it changes no other line.
pub unmask-Unmasked :
    (m : Masks) (irq : ℕ) → irq < 16 → (m1 : Masks) × (unmask m irq ≡ ok m1) × Unmasked m irq m1
unfolding unmask masked
unmask-Unmasked m irq h = elim (dec_lt irq 8) [
  | yes lt ↦ (
    record m { master = bit_and m.master (2 ^ 8 - 1 - 2 ^ irq) },
    ground arith,
    record {
      open_line = rw (lt→ltb irq 8 lt) (bit_and-clear_self 8 m.master irq lt);
      open_cascade = λ q. absurd (omega arith);
      others = λ other o ne nc. elim (dec_lt other 8) [
        | yes low ↦
            rw (lt→ltb other 8 low) (bit_and-clear_ne 8 m.master irq other lt low (λ e. ne (sym e)))
        | no high ↦ rw (ge→ltb other 8 (omega arith)) refl
      ];
    },
  )
  | no ge ↦ (
    record {
      master = bit_and m.master (2 ^ 8 - 1 - 2 ^ cascade);
      slave = bit_and m.slave (2 ^ 8 - 1 - 2 ^ (irq - 8));
    },
    ground arith,
    record {
      open_line =
          rw (ge→ltb irq 8 (omega arith)) (bit_and-clear_self 8 m.slave (irq - 8) (omega arith));
      open_cascade = λ _. bit_and-clear_self 8 m.master cascade (omega arith);
      others = λ other o ne nc. elim (dec_lt other 8) [
        | yes low ↦ rw (lt→ltb other 8 low) (
            bit_and-clear_ne 8 m.master cascade other (omega arith) low
              (λ e. nc (omega arith) (sym e)))
        | no high ↦ rw (ge→ltb other 8 (omega arith)) (
            bit_and-clear_ne 8 m.slave (irq - 8) (other - 8) (omega arith) (omega arith)
              (λ e. ne (omega arith)))
      ];
    },
  )
]

-- `mask` of one of the 16 lines closes the line and changes no other.
pub mask-Masked :
    (m : Masks) (irq : ℕ)
    → irq < 16
    → (m1 : Masks) × (mask m irq ≡ ok m1)
      × (masked m1 irq ≡ 1)
      × ((other : ℕ) → other < 16 → other ≢ irq → masked m1 other ≡ masked m other)
unfolding mask masked
mask-Masked m irq h = elim (dec_lt irq 8) [
  | yes lt ↦ (
    record m { master = bit_or m.master (2 ^ irq) },
    ground arith,
    rw (lt→ltb irq 8 lt) (bit_or-pow_self m.master irq),
    λ other o ne. elim (dec_lt other 8) [
      | yes low ↦ rw (lt→ltb other 8 low) (bit_or-pow_ne m.master irq other (λ e. ne (sym e)))
      | no high ↦ rw (ge→ltb other 8 (omega arith)) refl
    ],
  )
  | no ge ↦ (
    record m { slave = bit_or m.slave (2 ^ (irq - 8)) },
    ground arith,
    rw (ge→ltb irq 8 (omega arith)) (bit_or-pow_self m.slave (irq - 8)),
    λ other o ne. elim (dec_lt other 8) [
      | yes low ↦ rw (lt→ltb other 8 low) refl
      | no high ↦
          rw (ge→ltb other 8 (omega arith))
            (bit_or-pow_ne m.slave (irq - 8) (other - 8) (λ e. ne (omega arith)))
    ],
  )
]
