-- ===== src/Vmm/Walk/Path.antt =====
-- An address whose tables are linked, as `translate` finds it.
use orin_os.Prelude.{ℕ, ◌+◌, ◌*◌, ◌^◌, ◌<◌, ◌≡◌, refl, Bool, true, false, ◌==◌, some, ok, arith}
use orin_os.Pmm.{Mem, max_frames}
use orin_os.Vmm.{indices, entry_addr, is_present}
use orin_os.Vmm.Entries.{IsLink}
use orin_os.Vmm.Walk.{Vmm, translate, translate_pt, translate_pd, translate_pdpt}
use orin_os.Vmm.Walk.Tables.{slot, table_at-ok}

-- The path of an address through tables `r`, `a`, `b` and `c` to the entry `e`.
pub record Path4 (v r a b c e : ℕ) (mem : Mem) : Type 0 where
  pub root_in : r < max_frames
  pub a_in : a < max_frames
  pub b_in : b < max_frames
  pub c_in : c < max_frames
  pub to_a : IsLink a (mem (slot r (indices v).pml4))
  pub to_b : IsLink b (mem (slot a (indices v).pdpt))
  pub to_c : IsLink c (mem (slot b (indices v).pd))
  pub to_e : mem (slot c (indices v).pt) ≡ e

module _ (debug : Bool) (v r a b c e p : ℕ) (mem : Mem) (w : Path4 v r a b c e mem) where
  at_pt :
      is_present e ≡ true
      → entry_addr e ≡ p
      → translate_pt debug mem (c * 2 ^ 12) (indices v) ≡ ok (some (p + (indices v).offset, e))
  unfolding translate_pt
  at_pt seen addr = rw (table_at-ok debug c w.c_in, w.to_e, seen, addr) refl

  at_pd :
      is_present e ≡ true
      → entry_addr e ≡ p
      → translate_pd debug mem (b * 2 ^ 12) v (indices v) ≡ ok (some (p + (indices v).offset, e))
  unfolding translate_pd
  at_pd seen addr =
      rw
        (
          table_at-ok debug b w.b_in,
          w.to_c.seen_present,
          w.to_c.not_huge,
          w.to_c.same_address,
          at_pt seen addr,
        )
        refl

  at_pdpt :
      is_present e ≡ true
      → entry_addr e ≡ p
      → translate_pdpt debug mem (a * 2 ^ 12) v (indices v) ≡ ok (some (p + (indices v).offset, e))
  unfolding translate_pdpt
  at_pdpt seen addr =
      rw
        (
          table_at-ok debug a w.a_in,
          w.to_b.seen_present,
          w.to_b.not_huge,
          w.to_b.same_address,
          at_pd seen addr,
        )
        refl

pub not_first : (r : ℕ) → 0 < r → (r * 2 ^ 12 == 0) ≡ false
not_first r pos = ground arith

pub translate-Path4 :
    (debug : Bool) (v r a b c e p : ℕ) (s : Vmm)
    → Path4 v r a b c e s.mem
    → 0 < r
    → s.root ≡ r * 2 ^ 12
    → is_present e ≡ true
    → entry_addr e ≡ p
    → translate debug s v ≡ ok (some (p + (indices v).offset, e))
unfolding translate
translate-Path4 debug v r a b c e p s w pos root seen addr =
    rw
      (
        root,
        not_first r pos,
        table_at-ok debug r w.root_in,
        w.to_a.seen_present,
        w.to_a.same_address,
        at_pdpt debug v r a b c e p s.mem w seen addr,
      )
      refl
