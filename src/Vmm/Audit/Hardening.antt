-- ===== src/Vmm/Audit/Hardening.antt =====
-- The loops of `harden_boot_map` on the tables that the boot stub has left.
use orin_os.Prelude.{ℕ, ◌%◌, ◌<◌, ◌≡◌, ◌⊎◌, Bool, true, ◌==◌, bit_and}
use orin_os.Pmm.{Mem}
use orin_os.Vmm.{entry_addr, is_present}
use orin_os.Vmm.Walk.{Vmm, entry_at, huge_page, boot_mapped_bytes, page_size}
use orin_os.Vmm.Audit.Hardened.{Hardens, Done, IsLargePage}

-- What the loop over the table needs of an entry: it names a directory that `table_at` takes, which
-- does not overlap the table.
pub record NamesDirectory (old : Mem) (pdpt i : ℕ) : Type 0 where
  pub small : (bit_and (old (entry_at pdpt i)) huge_page == 0) ≡ true
  pub low : entry_addr (old (entry_at pdpt i)) < boot_mapped_bytes
  pub aligned : entry_addr (old (entry_at pdpt i)) % page_size ≡ 0
  pub apart :
      (k j : ℕ)
      → k < 512
      → j < 512
      → entry_at (entry_addr (old (entry_at pdpt i))) k ≡ entry_at pdpt j
      → ⊥

module _ (nx : Bool) (old : Mem) where
  -- The directory of page `pd` before round `j`, begun on `mem`.
  record Swept (pd : ℕ) (mem : Mem) (j : ℕ) (mem1 : Mem) : Type 0 where
    hardens : Hardens nx old mem1
    done : (k : ℕ) → k < j → Done nx old mem1 (entry_at pd k)
    keep : (a : ℕ) → Done nx old mem a → Done nx old mem1 a
    elsewhere : (a : ℕ) → ((k : ℕ) → k < 512 → entry_at pd k ≡ a → ⊥) → mem1 a ≡ mem a

  -- The table before round `j`.
  record Covered (pdpt j : ℕ) (mem : Mem) : Type 0 where
    hardens : Hardens nx old mem
    table : (i : ℕ) → i < 512 → mem (entry_at pdpt i) ≡ old (entry_at pdpt i)
    done :
        (i : ℕ)
        → i < j
        → is_present (old (entry_at pdpt i)) ≡ true
        → (k : ℕ) → k < 512
        → Done nx old mem (entry_at (entry_addr (old (entry_at pdpt i))) k)

-- The boot map as `harden_boot_map` wants it: a root and a table that `table_at` takes, and, of every
-- present entry of the table, a directory.
pub record BootMap (boot_root : ℕ) (s : Vmm) : Type 0 where
  pub root_low : boot_root < boot_mapped_bytes
  pub root_aligned : boot_root % page_size ≡ 0
  pub first_present : is_present (s.mem (entry_at boot_root 0)) ≡ true
  pub table_low : entry_addr (s.mem (entry_at boot_root 0)) < boot_mapped_bytes
  pub table_aligned : entry_addr (s.mem (entry_at boot_root 0)) % page_size ≡ 0
  pub directories :
      (i : ℕ)
      → i < 512
      → is_present (s.mem (entry_at (entry_addr (s.mem (entry_at boot_root 0))) i)) ≡ true
      → NamesDirectory s.mem (entry_addr (s.mem (entry_at boot_root 0))) i

-- The address of entry `k` of the directory that entry `i` of the table names.
abbrev pub boot_entry : Mem → ℕ → ℕ → ℕ → ℕ
boot_entry mem boot_root i k =
    entry_at (entry_addr (mem (entry_at (entry_addr (mem (entry_at boot_root 0))) i))) k

pub record Hardened (boot_root : ℕ) (s : Vmm) (mem : Mem) : Type 0 where
  pub everywhere :
      (a : ℕ)
      → (mem a ≡ s.mem a)
        ⊎ ((is_present (s.mem a) ≡ true) × IsLargePage s.nx (entry_addr (s.mem a)) (mem a))
  pub entries :
      (i k : ℕ)
      → i < 512
      → k < 512
      → is_present (s.mem (entry_at (entry_addr (s.mem (entry_at boot_root 0))) i)) ≡ true
      → is_present (s.mem (boot_entry s.mem boot_root i k)) ≡ true
      → IsLargePage s.nx
          (entry_addr (s.mem (boot_entry s.mem boot_root i k)))
          (mem (boot_entry s.mem boot_root i k))
