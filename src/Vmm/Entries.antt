-- ===== src/Vmm/Entries.antt =====
-- A leaf entry as the mapping functions write it: the address of a frame with the flags of a profile.
use orin_os.Prelude.{
  ◌/◌, ℕ, ◌+◌, ◌-◌, ◌*◌, ◌/◌, ◌%◌, ◌^◌, ◌<◌, ◌≡◌, refl, subst, ap, ap₂, ◌∙◌, Bool, true, false, not,
  ◌&&◌, ◌==◌, arith, max, ℕ_discrete, ◌⊎◌, inl, inr, bit_and, bit_or, if◌then◌else◌,
}
use orin_os.Prelude.Bits.{bit, bit-bit_or, bit-div, bit-lt}
use orin_os.Prelude.Bits.Words.{bit_and-pow_test, bit_and-zero, bit_or-lt}
use orin_os.Prelude.Bits.Fields.{bit_or_split, bit_and_split}
use orin_os.Prelude.Bits.Masks.{low_mask, bit_or-zero, bit_or_assoc}
use orin_os.Vmm.{
  present, writable, no_execute, Perm, text_ro_x, ro_data, data_rw_nx, device, boot_identity, bits,
  effective, entry_addr, is_present, is_wx,
}

and_false : (b : Bool) → (b && false) ≡ false
and_false true = refl
and_false false = refl

-- The bits of an entry with the flags `h * 2 ^ 52 + lo`.
module _ (frame h lo : ℕ) (small : frame < 2 ^ 40) (low : lo < 2 ^ 12) where
  fields :
      bit_or (frame * 2 ^ 12) (h * 2 ^ 40 * 2 ^ 12 + lo)
      ≡ bit_or frame (h * 2 ^ 40) * 2 ^ 12 + bit_or 0 lo
  fields =
      ap (λ (t : ℕ). bit_or t (h * 2 ^ 40 * 2 ^ 12 + lo))
        (let e : frame * 2 ^ 12 ≡ frame * 2 ^ 12 + 0 = omega arith in e)
      ∙ bit_or_split 12 frame (h * 2 ^ 40) 0 lo (omega arith) low

  above : bit_or frame (h * 2 ^ 40) ≡ bit_or 0 h * 2 ^ 40 + frame
  above =
      ap₂ bit_or (let e : frame ≡ 0 * 2 ^ 40 + frame = omega arith in e)
        (let e : h * 2 ^ 40 ≡ h * 2 ^ 40 + 0 = omega arith in e)
      ∙ bit_or_split 40 0 h frame 0 small (omega arith)
      ∙ ap (λ (t : ℕ). bit_or 0 h * 2 ^ 40 + t) (bit_or-zero 40 frame small)

  address : entry_addr (bit_or (frame * 2 ^ 12) (h * 2 ^ 40 * 2 ^ 12 + lo)) ≡ frame * 2 ^ 12
  unfolding entry_addr
  address = omega (
    arith,
    ap (λ (t : ℕ). bit_and t 0x000FFFFFFFFFF000) fields,
    bit_and_split 12 (bit_or frame (h * 2 ^ 40)) (2 ^ 40 - 1) (bit_or 0 lo) 0
        (bit_or-lt 12 0 lo (omega arith) low) (omega arith),
    bit_and-zero (bit_or 0 lo),
    low_mask 40 (bit_or frame (h * 2 ^ 40)),
    above,
  )

  bit_of :
      (i : ℕ)
      → bit (bit_or (frame * 2 ^ 12) (h * 2 ^ 40 * 2 ^ 12 + lo)) i
        ≡ max (frame * 2 ^ 12 / 2 ^ i % 2) ((h * 2 ^ 40 * 2 ^ 12 + lo) / 2 ^ i % 2)
  bit_of i =
      bit-bit_or (frame * 2 ^ 12) (h * 2 ^ 40 * 2 ^ 12 + lo) i
      ∙ ap₂ max (bit-div (frame * 2 ^ 12) i) (bit-div (h * 2 ^ 40 * 2 ^ 12 + lo) i)

  -- The entry.
  abbrev entry : ℕ
  entry = bit_or (frame * 2 ^ 12) (h * 2 ^ 40 * 2 ^ 12 + lo)

  seen : lo % 2 ≡ 1 → is_present entry ≡ true
  unfolding is_present
  seen odd =
      let one : bit entry 0 ≡ 1 = omega (arith, bit_of 0) in
      ap not (bit_and-pow_test entry 0 ∙ ap (λ (t : ℕ). t == 0) one)

  read_only : (nx : Bool) → lo / 2 % 2 ≡ 0 → is_wx nx entry ≡ false
  unfolding is_wx
  read_only nx even =
      let none_set : bit entry 1 ≡ 0 = omega (arith, bit_of 1) in
      ap (λ (b : Bool). not b && (if nx then bit_and entry no_execute == 0 else false))
        (bit_and-pow_test entry 1 ∙ ap (λ (t : ℕ). t == 0) none_set)

  marked : (nx : Bool) → h ≡ 2 ^ 11 → is_wx nx entry ≡ false
  unfolding is_wx
  marked false top = and_false (not (bit_and entry writable == 0))
  marked true top =
      let one : bit entry 63 ≡ 1 = omega (arith, bit_of 63) in
      ap (λ (b : Bool). not (bit_and entry writable == 0) && b)
        (bit_and-pow_test entry 63 ∙ ap (λ (t : ℕ). t == 0) one)
      ∙ and_false (not (bit_and entry writable == 0))

  -- Bit 7, a large page's.
  not_large : lo / 2 ^ 7 % 2 ≡ 0 → (bit_and entry (2 ^ 7) == 0) ≡ true
  not_large even =
      let none_set : bit entry 7 ≡ 0 = omega (arith, bit_of 7) in
      bit_and-pow_test entry 7 ∙ ap (λ (t : ℕ). t == 0) none_set

-- An entry that names the next table, as `descend` writes it.
pub record IsLink (frame e : ℕ) : Type 0 where
  pub seen_present : is_present e ≡ true
  pub same_address : entry_addr e ≡ frame * 2 ^ 12
  pub not_huge : (bit_and e (2 ^ 7) == 0) ≡ true

pub table_entry-IsLink :
    (frame : ℕ) → frame < 2 ^ 40 → IsLink frame (bit_or (frame * 2 ^ 12) (bit_or present writable))
table_entry-IsLink frame small = record {
  seen_present = seen frame 0 3 small (omega arith) refl;
  same_address = address frame 0 3 small (omega arith);
  not_huge = not_large frame 0 3 small (omega arith) refl;
}

-- The tests that the walk and the self-test make on an entry.
pub record IsLeaf (nx : Bool) (address_of : ℕ) (e : ℕ) : Type 0 where
  pub seen_present : is_present e ≡ true
  pub same_address : entry_addr e ≡ address_of
  pub not_wx : is_wx nx e ≡ false

-- An entry that has its writable bit clear, or its bit 63, the no-execute bit, set.
unfoldable pub WritableXorExecutable : ℕ → Type 0
WritableXorExecutable e = (bit e 1 ≡ 0) ⊎ (bit e 63 ≡ 1)

pub is_wx-WritableXorExecutable : (e : ℕ) → is_wx true e ≡ false → WritableXorExecutable e
unfolding WritableXorExecutable is_wx
is_wx-WritableXorExecutable e h = elim (ℕ_discrete (bit e 1) 0) [
  | yes clear ↦ inl clear
  | no ne ↦ elim (ℕ_discrete (bit e 63) 0) [
    | no marked_one ↦ inr (omega (arith, bit-lt e 63, marked_one))
    | yes z ↦ absurd (
        both (bit e 1) (bit e 63) (omega (arith, bit-lt e 1, ne)) z (
          subst (λ (b : Bool). (not b && (bit e 63 == 0)) ≡ false) (bit_and-pow_test e 1)
            (subst (λ (b : Bool). (not (bit_and e (2 ^ 1) == 0) && b) ≡ false)
              (bit_and-pow_test e 63) h)))
  ]
]
  where
    both : (a b : ℕ) → a ≡ 1 → b ≡ 0 → (not (a == 0) && (b == 0)) ≡ false → ⊥
    both a b one none_set c =
        let d : true ≡ false =
          subst (λ (x : ℕ). (not (x == 0) && true) ≡ false) one
            (subst (λ (x : ℕ). (not (a == 0) && (x == 0)) ≡ false) none_set c) in
        cc

-- On a processor with NX the entry is not both writable and executable; without NX the hardware
-- has no such bit, and every page is executable.
abbrev pub SafeWithNx : Bool → ℕ → Type 0
SafeWithNx nx e = (nx ≡ false) ⊎ WritableXorExecutable e

pub is_wx-SafeWithNx : (nx : Bool) (e : ℕ) → is_wx nx e ≡ false → SafeWithNx nx e
is_wx-SafeWithNx false e h = inl refl
is_wx-SafeWithNx true e h = inr (is_wx-WritableXorExecutable e h)

read_only-IsLeaf :
    (nx : Bool) (frame h lo : ℕ)
    → frame < 2 ^ 40
    → lo < 2 ^ 12
    → lo % 2 ≡ 1
    → lo / 2 % 2 ≡ 0
    → IsLeaf nx (frame * 2 ^ 12) (bit_or (frame * 2 ^ 12) (h * 2 ^ 40 * 2 ^ 12 + lo))
read_only-IsLeaf nx frame h lo small low odd even = record {
  seen_present = seen frame h lo small low odd;
  same_address = address frame h lo small low;
  not_wx = read_only frame h lo small low nx even;
}

marked-IsLeaf :
    (nx : Bool) (frame lo : ℕ)
    → frame < 2 ^ 40
    → lo < 2 ^ 12
    → lo % 2 ≡ 1
    → IsLeaf nx (frame * 2 ^ 12) (bit_or (frame * 2 ^ 12) (2 ^ 11 * 2 ^ 40 * 2 ^ 12 + lo))
marked-IsLeaf nx frame lo small low odd = record {
  seen_present = seen frame (2 ^ 11) lo small low odd;
  same_address = address frame (2 ^ 11) lo small low;
  not_wx = marked frame (2 ^ 11) lo small low nx refl;
}

plain-IsLeaf :
    (frame lo : ℕ)
    → frame < 2 ^ 40
    → lo < 2 ^ 12
    → lo % 2 ≡ 1
    → IsLeaf false (frame * 2 ^ 12) (bit_or (frame * 2 ^ 12) (0 * 2 ^ 40 * 2 ^ 12 + lo))
unfolding is_wx
plain-IsLeaf frame lo small low odd = record {
  seen_present = seen frame 0 lo small low odd;
  same_address = address frame 0 lo small low;
  not_wx =
      and_false (not (bit_and (bit_or (frame * 2 ^ 12) (0 * 2 ^ 40 * 2 ^ 12 + lo)) writable == 0));
}

-- Whatever the profile, and with NX or without, the entry for a frame below 2^52 bytes is present, its
-- address is the frame's, and it does not count as both writable and executable.
pub effective-IsLeaf :
    (nx : Bool) (perm : Perm) (frame : ℕ)
    → frame < 2 ^ 40
    → IsLeaf nx (frame * 2 ^ 12) (bit_or (frame * 2 ^ 12) (effective nx perm))
unfolding effective bits
effective-IsLeaf true text_ro_x frame small =
    read_only-IsLeaf true frame 0 0x101 small (omega arith) refl refl
effective-IsLeaf true ro_data frame small = marked-IsLeaf true frame 0x101 small (omega arith) refl
effective-IsLeaf true data_rw_nx frame small =
    marked-IsLeaf true frame 0x103 small (omega arith) refl
effective-IsLeaf true device frame small = marked-IsLeaf true frame 0x1B small (omega arith) refl
effective-IsLeaf true boot_identity frame small =
    marked-IsLeaf true frame 0x13 small (omega arith) refl
effective-IsLeaf false text_ro_x frame small = plain-IsLeaf frame 0x101 small (omega arith) refl
effective-IsLeaf false ro_data frame small = plain-IsLeaf frame 0x101 small (omega arith) refl
effective-IsLeaf false data_rw_nx frame small = plain-IsLeaf frame 0x103 small (omega arith) refl
effective-IsLeaf false device frame small = plain-IsLeaf frame 0x1B small (omega arith) refl
effective-IsLeaf false boot_identity frame small = plain-IsLeaf frame 0x13 small (omega arith) refl

-- The address of any entry is that of a frame.
pub entry_addr-eq-frame : (e : ℕ) → entry_addr e ≡ e / 4096 % 2 ^ 40 * 2 ^ 12
unfolding entry_addr
entry_addr-eq-frame e = omega (
  arith,
  ap (λ (t : ℕ). bit_and t 0x000FFFFFFFFFF000) whole,
  bit_and_split 12 (e / 4096) (2 ^ 40 - 1) (e % 4096) 0 (omega arith) (omega arith),
  bit_and-zero (e % 4096),
  low_mask 40 (e / 4096),
)
  where
    whole : e ≡ e / 4096 * 2 ^ 12 + e % 4096
    whole = omega arith

-- An entry with the profile of the boot map and the mark of a large page.
pub boot_identity-IsLeaf :
    (nx : Bool) (frame : ℕ)
    → frame < 2 ^ 40
    → IsLeaf nx
        (frame * 2 ^ 12)
        (bit_or (bit_or (frame * 2 ^ 12) (effective nx boot_identity)) (2 ^ 7))
unfolding effective bits
boot_identity-IsLeaf true frame small =
    rw
      (bit_or_assoc 64 (frame * 2 ^ 12) (2 ^ 63 + 0x13) (2 ^ 7) (omega arith) (omega arith)
        (omega arith))
      (marked-IsLeaf true frame 0x93 small (omega arith) refl)
boot_identity-IsLeaf false frame small =
    rw (bit_or_assoc 64 (frame * 2 ^ 12) 0x13 (2 ^ 7) (omega arith) (omega arith) (omega arith))
      (plain-IsLeaf frame 0x93 small (omega arith) refl)
