-- ===== src/Vmm/Audit/Hardened.antt =====
-- One entry of `harden_boot_map`: what it becomes, and what the memory of an unfinished run is.
use orin_os.Prelude.{
  ℕ, ◌+◌, ◌/◌, ◌%◌, ◌^◌, ◌≡◌, refl, sym, ap, ◌∙◌, ◌⊎◌, inl, inr, Bool, true, false, not, Outcome,
  ok, arith, if◌then◌else◌, bit_or, ℕ_discrete,
}
use orin_os.Prelude.Bits.{bit}
use orin_os.Prelude.Bits.Words.{bit_or-pow_self}
use orin_os.Prelude.Loops.{Gives}
use orin_os.Pmm.{Mem, store}
use orin_os.Vmm.{effective, boot_identity, entry_addr, is_present}
use orin_os.Vmm.Entries.{
  IsLeaf, SafeWithNx, is_wx-SafeWithNx, entry_addr-eq-frame, boot_identity-IsLeaf,
}
use orin_os.Vmm.Walk.{entry_at, huge_page}
use orin_os.Vmm.Audit.{harden_entry}

-- A large page at the same address with the profile of the boot map.
unfoldable pub hardened : Bool → ℕ → ℕ
hardened nx e = bit_or (bit_or (entry_addr e) (effective nx boot_identity)) huge_page

pub hardened-IsLeaf : (nx : Bool) (e : ℕ) → IsLeaf nx (entry_addr e) (hardened nx e)
unfolding hardened
hardened-IsLeaf nx e =
    rw (entry_addr-eq-frame e) (boot_identity-IsLeaf nx (e / 4096 % 2 ^ 40) (omega arith))

-- A present large page at an address, whose entry is not both writable and executable.
pub record IsLargePage (nx : Bool) (address_of : ℕ) (e : ℕ) : Type 0 where
  pub is_there : is_present e ≡ true
  pub large : bit e 7 ≡ 1
  pub address_kept : entry_addr e ≡ address_of
  pub not_both : SafeWithNx nx e

pub hardened-IsLargePage : (nx : Bool) (e : ℕ) → IsLargePage nx (entry_addr e) (hardened nx e)
unfolding hardened
hardened-IsLargePage nx e =
    let leaf = hardened-IsLeaf nx e in
    record {
      is_there = leaf.seen_present;
      large = bit_or-pow_self (bit_or (entry_addr e) (effective nx boot_identity)) 7;
      address_kept = leaf.same_address;
      not_both = is_wx-SafeWithNx nx (hardened nx e) leaf.not_wx;
    }

pub hardened_twice : (nx : Bool) (e : ℕ) → hardened nx (hardened nx e) ≡ hardened nx e
unfolding hardened
hardened_twice nx e =
    ap (λ (a : ℕ). bit_or (bit_or a (effective nx boot_identity)) huge_page)
      (unfold hardened in (hardened-IsLeaf nx e).same_address)

store_at : (mem : Mem) (v : ℕ) {at a : ℕ} → at ≡ a → store mem at v a ≡ v
store_at mem v e = ground arith

store_elsewhere : (mem : Mem) (v : ℕ) {at a : ℕ} → (at ≡ a → ⊥) → store mem at v a ≡ mem a
store_elsewhere mem v ne = ground arith

pub true-ne-false : true ≡ false → ⊥
true-ne-false e = cc

-- Every word is as it was, or is a present entry that was hardened.
unfoldable pub Hardens : Bool → Mem → Mem → Type 0
Hardens nx old mem =
    (a : ℕ) → (mem a ≡ old a) ⊎ ((is_present (old a) ≡ true) × (mem a ≡ hardened nx (old a)))

-- A word that has been hardened, if it was a present entry.
unfoldable pub Done : Bool → Mem → Mem → ℕ → Type 0
Done nx old mem a = is_present (old a) ≡ true → mem a ≡ hardened nx (old a)

module _ (nx : Bool) (old : Mem) where
  pub same_present :
      (mem : Mem) (a : ℕ) → Hardens nx old mem → is_present (mem a) ≡ is_present (old a)
  unfolding Hardens
  same_present mem a h = elim (h a) [
    | inl e ↦ ap is_present e
    | inr (p, e) ↦ ap is_present e ∙ (hardened-IsLeaf nx (old a)).seen_present ∙ sym p
  ]

  pub same_address :
      (mem : Mem) (a : ℕ) → Hardens nx old mem → entry_addr (mem a) ≡ entry_addr (old a)
  unfolding Hardens
  same_address mem a h = elim (h a) [
    | inl e ↦ ap entry_addr e
    | inr (p, e) ↦ ap entry_addr e ∙ (hardened-IsLeaf nx (old a)).same_address
  ]

  -- A round hardens its own word, keeps `Hardens`, and leaves what was done.
  pub record Step (mem : Mem) (at : ℕ) (mem1 : Mem) : Type 0 where
    pub hardens : Hardens nx old mem1
    pub here : Done nx old mem1 at
    pub keep : (a : ℕ) → Done nx old mem a → Done nx old mem1 a
    pub elsewhere : (a : ℕ) → (at ≡ a → ⊥) → mem1 a ≡ mem a

  pub harden_entry-Step :
      (pd i : ℕ) (s : Mem × ℕ)
      → Hardens nx old s.0
      → Gives
          (λ (t : Mem × ℕ). Step s.0 (entry_at pd i) t.0)
          (harden_entry (effective nx boot_identity) pd i s)
  unfolding harden_entry Hardens Done
  harden_entry-Step pd i (mem, n) h = by_present (is_present (mem (entry_at pd i))) refl
    where
      at : ℕ
      at = entry_at pd i

      new : ℕ
      new = bit_or (bit_or (entry_addr (mem at)) (effective nx boot_identity)) huge_page

      same : new ≡ hardened nx (old at)
      same =
          unfold hardened in
          ap (λ (a : ℕ). bit_or (bit_or a (effective nx boot_identity)) huge_page)
            (same_address mem at h)

      stored :
          (a : ℕ)
          → (store mem at new a ≡ mem a) ⊎ ((at ≡ a) × (store mem at new a ≡ hardened nx (old a)))
      stored a = elim (ℕ_discrete at a) [
        | yes q ↦ inr (q, store_at mem new q ∙ same ∙ ap (λ (x : ℕ). hardened nx (old x)) q)
        | no ne ↦ inl (store_elsewhere mem new ne)
      ]

      by_present :
          (b : Bool)
          → is_present (mem at) ≡ b
          → Gives
              (λ (t : Mem × ℕ). Step mem at t.0)
              (if◌then◌else◌ {A = Outcome (Mem × ℕ)}
                (not b)
                (ok (mem, n))
                (ok (store mem at new, n + 1)))
      by_present false p = (
        (mem, n),
        refl,
        record {
          hardens = h;
          here = λ now. absurd (true-ne-false (sym now ∙ sym (same_present mem at h) ∙ p));
          keep = λ a d. d;
          elsewhere = λ a ne. refl;
        },
      )
      by_present true p = (
        (store mem at new, n + 1),
        refl,
        record {
          hardens = λ a. elim (stored a) [
            | inl e ↦ rw e (h a)
            | inr (here, e) ↦ inr (ap (λ (x : ℕ). is_present (old x)) (sym here) ∙ was, e)
          ];
          here = λ _. store_at mem new refl ∙ same;
          keep = λ a d now. elim (stored a) [ inl e ↦ e ∙ d now | inr (here, e) ↦ e ];
          elsewhere = λ a ne. store_elsewhere mem new ne;
        },
      )
        where
          was : is_present (old at) ≡ true
          was = sym (same_present mem at h) ∙ p
