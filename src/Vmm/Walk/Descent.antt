-- ===== src/Vmm/Walk/Descent.antt =====
-- One step of the page-table walk, which adds a table where there is none.
use orin_os.Prelude.{
  ℕ, ◌+◌, ◌*◌, ◌^◌, ◌<◌, ◌≡◌, refl, sym, ap, subst, ◌∙◌, inl, inr, Bool, true, false, ◌==◌, arith,
  if◌then◌else◌, Bool-cases, bit_or, ℕ_discrete,
}
use orin_os.Prelude.Loops.{Gives}
use orin_os.Bitmap.Frames.{frame}
use orin_os.Pmm.{Mem, store}
use orin_os.Vmm.{present, writable, entry_addr, is_present}
use orin_os.Vmm.Entries.{IsLink, table_entry-IsLink}
use orin_os.Vmm.Walk.{Vmm, descend, descend_from}
use orin_os.Vmm.Walk.Tables.{slot, Owned, Fresh, pool_alloc-Fresh, table_at-ok}

-- A step down from table `t` of level `n + 2`: the frame of the next table, the tables then, and what
-- the step leaves as it was.
pub record Descends (level idx : ℕ → ℕ) (need : ℕ) (s : Vmm) (t n : ℕ) (r : Vmm × ℕ) : Type 0 where
  pub next : ℕ
  pub named : r.1 ≡ next * 2 ^ 12
  pub level1 : ℕ → ℕ
  pub owned : Owned level1 idx need r.0
  pub next_level : level1 next ≡ n + 1
  pub extends : (f : ℕ) → 0 < level f → level1 f ≡ level f
  pub linked : IsLink next ((r.0).mem (slot t (idx (n + 2))))
  pub keep :
      (f i : ℕ) → 0 < level f → i < 512 → (f ≡ t → ⊥) → (r.0).mem (slot f i) ≡ s.mem (slot f i)
  pub same_root : (r.0).root ≡ s.root
  pub same_nx : (r.0).nx ≡ s.nx

-- The levels with a new table.
raise : (ℕ → ℕ) → ℕ → ℕ → ℕ → ℕ
raise level u n f = if f == u then n else level f

raise-at : (level : ℕ → ℕ) (u n : ℕ) → raise level u n u ≡ n
unfolding raise
raise-at level u n = ground arith

raise_elsewhere : (level : ℕ → ℕ) (u n f : ℕ) → (f ≡ u → ⊥) → raise level u n f ≡ level f
unfolding raise
raise_elsewhere level u n f ne = ground arith

slots_differ : (f t i j : ℕ) → i < 512 → j < 512 → (f ≡ t → ⊥) → slot t j ≡ slot f i → ⊥
slots_differ f t i j li lj ne e = ne (omega (arith, e))

pub stored_elsewhere :
    (mem : Mem) (f t i j v : ℕ)
    → i < 512
    → j < 512
    → (f ≡ t → ⊥)
    → store mem (slot t j) v (slot f i) ≡ mem (slot f i)
stored_elsewhere mem f t i j v li lj ne = let differ = slots_differ f t i j li lj ne in ground arith

pub stored_here : (mem : Mem) (a v : ℕ) → store mem a v a ≡ v
stored_here mem a v = ground arith

absent_zero : is_present 0 ≡ false
unfolding is_present
absent_zero = refl

true-ne-false : true ≡ false → ⊥
true-ne-false e = cc

module _ (debug : Bool) (idx : ℕ → ℕ) (indexed : (n : ℕ) → idx n < 512) where
  -- The next table is there.
  descend_present :
      (level : ℕ → ℕ) (need : ℕ) (s : Vmm) (t n : ℕ)
      → Owned level idx (need + 1) s
      → level t ≡ n + 2
      → is_present (s.mem (slot t (idx (n + 2)))) ≡ true
      → Gives (Descends level idx need s t n) (descend_from debug s (t * 2 ^ 12) (idx (n + 2)))
  unfolding descend_from descend
  descend_present level need s t n o lev p =
      let (u, link, low) = o.child t n lev p in
      (
        (s, entry_addr (s.mem (slot t (idx (n + 2))))),
        rw (table_at-ok debug t (o.mapped t (omega (arith, lev))), p) refl,
        record {
          next = u;
          named = link.same_address;
          level1 = level;
          owned = record {
            inv = o.inv;
            ready = o.ready;
            enough = omega (arith, o.enough);
            room = omega (arith, o.room);
            mapped = o.mapped;
            taken = o.taken;
            child = o.child;
            leaf = o.leaf;
          };
          next_level = low;
          extends = λ f h. refl;
          linked = link;
          keep = λ f i h lt ne. refl;
          same_root = refl;
          same_nx = refl;
        },
      )

  -- A table is added.
  module _ (level : ℕ → ℕ) (need : ℕ) (s : Vmm) (t n : ℕ) (o : Owned level idx (need + 1) s)
      (lev : level t ≡ n + 2) (s1 : Vmm) (pa u : ℕ) (g : Fresh s pa s1 u) where
    added : Vmm
    added = record s1 {
      mem = store s1.mem (slot t (idx (n + 2))) (bit_or pa (bit_or present writable));
    }

    no_level : level u ≡ 0
    no_level = elim (ℕ_discrete (level u) 0) [
      | yes z ↦ z
      | no ne ↦ absurd (omega (arith, o.taken u (omega arith), g.was_free))
    ]

    new_ne_parent : u ≡ t → ⊥
    new_ne_parent e = omega (arith, no_level, lev, ap level e)

    old_slot :
        (f i : ℕ) → (f ≡ u → ⊥) → (f ≡ t → ⊥) → i < 512 → (added).mem (slot f i) ≡ s.mem (slot f i)
    unfolding added
    old_slot f i nu nt lt =
        stored_elsewhere s1.mem f t i (idx (n + 2)) (bit_or pa (bit_or present writable)) lt
          (indexed (n + 2)) nt
        ∙ g.elsewhere f i nu lt

    new_slot : (i : ℕ) → i < 512 → (added).mem (slot u i) ≡ 0
    unfolding added
    new_slot i lt =
        stored_elsewhere s1.mem u t i (idx (n + 2)) (bit_or pa (bit_or present writable)) lt
          (indexed (n + 2)) new_ne_parent
        ∙ g.zeroed i lt

    parent_slot : IsLink u ((added).mem (slot t (idx (n + 2))))
    unfolding added
    parent_slot =
        subst (IsLink u)
          (ap (λ (x : ℕ). bit_or x (bit_or present writable)) (sym g.where_is)
            ∙ sym (stored_here s1.mem (slot t (idx (n + 2))) (bit_or pa (bit_or present writable))))
          (table_entry-IsLink u (omega (arith, g.inside)))

    old_level : (f : ℕ) → 0 < level f → raise level u (n + 1) f ≡ level f
    old_level f h = raise_elsewhere level u (n + 1) f λ e. omega (arith, no_level, ap level e)

    child_added :
        (f m : ℕ)
        → raise level u (n + 1) f ≡ m + 2
        → is_present ((added).mem (slot f (idx (m + 2)))) ≡ true
        → (x : ℕ) × IsLink x ((added).mem (slot f (idx (m + 2))))
          × (raise level u (n + 1) x ≡ m + 1)
    child_added f m fl p = elim (ℕ_discrete f u) [
      | yes same ↦ absurd (
          true-ne-false (
            sym p
            ∙ ap (λ (x : ℕ). is_present ((added).mem (slot x (idx (m + 2))))) same
            ∙ ap is_present (new_slot (idx (m + 2)) (indexed (m + 2)))
            ∙ absent_zero))
      | no nu ↦ elim (ℕ_discrete f t) [
        | yes same ↦
            let depth : m ≡ n =
              omega (arith, sym (raise_elsewhere level u (n + 1) f nu) ∙ fl, lev, ap level same) in
            (
              u,
              subst (λ (x : ℕ). IsLink u ((added).mem (slot x (idx (m + 2))))) (sym same)
                  (subst (λ (k : ℕ). IsLink u ((added).mem (slot t (idx (k + 2))))) (sym depth)
                    parent_slot),
              omega (arith, raise-at level u (n + 1), depth),
            )
        | no nt ↦
            let here = old_slot f (idx (m + 2)) nu nt (indexed (m + 2)) in
            let (x, link, xl) =
              o.child f m (sym (raise_elsewhere level u (n + 1) f nu) ∙ fl)
                (ap is_present (sym here) ∙ p) in
            (x, subst (IsLink x) (sym here) link, old_level x (omega (arith, xl)) ∙ xl)
      ]
    ]

    leaf_added :
        (f : ℕ) → raise level u (n + 1) f ≡ 1 → is_present ((added).mem (slot f (idx 1))) ≡ false
    leaf_added f fl = elim (ℕ_discrete f u) [
      | yes same ↦
          ap (λ (x : ℕ). is_present ((added).mem (slot x (idx 1)))) same
          ∙ ap is_present (new_slot (idx 1) (indexed 1))
          ∙ absent_zero
      | no nu ↦
          let low = sym (raise_elsewhere level u (n + 1) f nu) ∙ fl in
          let nt : f ≡ t → ⊥ = λ e. omega (arith, low, lev, ap level e) in
          ap is_present (old_slot f (idx 1) nu nt (indexed 1)) ∙ o.leaf f low
    ]

    added-Owned : Owned (raise level u (n + 1)) idx need added
    unfolding added
    added-Owned = record {
      inv = g.inv;
      ready = g.ready;
      enough = omega (arith, o.enough, g.fewer);
      room = omega (arith, o.room, g.counted);
      mapped = λ f h. elim (ℕ_discrete f u) [
        | yes same ↦ omega (arith, g.inside)
        | no nu ↦ o.mapped f (omega (arith, raise_elsewhere level u (n + 1) f nu))
      ];
      taken = λ f h. elim (ℕ_discrete f u) [
        | yes same ↦ ap (frame s1.pmm.bitmap) same ∙ g.taken
        | no nu ↦ g.other f nu ∙ o.taken f (omega (arith, raise_elsewhere level u (n + 1) f nu))
      ];
      child = child_added;
      leaf = leaf_added;
    }

  descend_absent :
      (level : ℕ → ℕ) (need : ℕ) (s : Vmm) (t n : ℕ)
      → Owned level idx (need + 1) s
      → level t ≡ n + 2
      → is_present (s.mem (slot t (idx (n + 2)))) ≡ false
      → Gives (Descends level idx need s t n) (descend_from debug s (t * 2 ^ 12) (idx (n + 2)))
  unfolding descend_from descend added
  descend_absent level need s t n o lev p =
      let (s1, pa, u, e, g) =
        pool_alloc-Fresh s o.inv o.ready (omega (arith, o.enough)) (omega (arith, o.room)) in
      (
        (added level need s t n o lev s1 pa u g, pa),
        rw (table_at-ok debug t (o.mapped t (omega (arith, lev))), p, e) refl,
        record {
          next = u;
          named = g.where_is;
          level1 = raise level u (n + 1);
          owned = added-Owned level need s t n o lev s1 pa u g;
          next_level = raise-at level u (n + 1);
          extends = old_level level need s t n o lev s1 pa u g;
          linked = parent_slot level need s t n o lev s1 pa u g;
          keep = λ f i h lt nt.
              old_slot level need s t n o lev s1 pa u g f i
                (λ same. omega (arith, no_level level need s t n o lev s1 pa u g, ap level same)) nt
                lt;
          same_root = g.same_root;
          same_nx = g.same_nx;
        },
      )

  pub descend_from-Descends :
      (level : ℕ → ℕ) (need : ℕ) (s : Vmm) (t n : ℕ)
      → Owned level idx (need + 1) s
      → level t ≡ n + 2
      → Gives (Descends level idx need s t n) (descend_from debug s (t * 2 ^ 12) (idx (n + 2)))
  descend_from-Descends level need s t n o lev =
      elim (Bool-cases (is_present (s.mem (slot t (idx (n + 2)))))) [
        | inl p ↦ descend_present level need s t n o lev p
        | inr p ↦ descend_absent level need s t n o lev p
      ]
