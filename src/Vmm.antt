-- ===== src/Vmm.antt =====
-- Page-table entries of kernel/src/memory/vmm.rs: the flags, the permission profiles, the indices of an
-- address and the tests on an entry. `nx` is the cached answer of `nx_available`.
pub mod Entries
pub mod Indexing
pub mod Walk
pub mod Audit
pub mod Init
use orin_os.Prelude.{
  ℕ, ◌-◌, ◌/◌, ◌^◌, Bool, true, false, not, ◌&&◌, bit_and, bit_or, ◌==◌, if◌then◌else◌,
}

abbrev pub present : ℕ
present = 2 ^ 0

abbrev pub writable : ℕ
writable = 2 ^ 1

abbrev pub write_through : ℕ
write_through = 2 ^ 3

abbrev pub no_cache : ℕ
no_cache = 2 ^ 4

abbrev pub global : ℕ
global = 2 ^ 8

abbrev pub no_execute : ℕ
no_execute = 2 ^ 63

abbrev pub device_flags : ℕ
device_flags = bit_or (bit_or (bit_or (bit_or present writable) no_cache) write_through) no_execute

pub data Perm : Type 0 where
  text_ro_x ro_data data_rw_nx device boot_identity : Perm

unfoldable pub bits : Perm → ℕ
bits text_ro_x = bit_or present global
bits ro_data = bit_or (bit_or present global) no_execute
bits data_rw_nx = bit_or (bit_or (bit_or present writable) global) no_execute
bits device = device_flags
bits boot_identity = bit_or (bit_or (bit_or present writable) no_cache) no_execute

unfoldable pub effective : Bool → Perm → ℕ
effective nx perm = if nx then bits perm else bit_and (bits perm) (2 ^ 64 - 1 - no_execute)

pub record Indices : Type 0 where
  pub pml4 : ℕ
  pub pdpt : ℕ
  pub pd : ℕ
  pub pt : ℕ
  pub offset : ℕ

unfoldable pub indices : ℕ → Indices
indices v = record {
  pml4 = bit_and (v / 2 ^ 39) 0x1FF;
  pdpt = bit_and (v / 2 ^ 30) 0x1FF;
  pd = bit_and (v / 2 ^ 21) 0x1FF;
  pt = bit_and (v / 2 ^ 12) 0x1FF;
  offset = bit_and v 0xFFF;
}

unfoldable pub entry_addr : ℕ → ℕ
entry_addr e = bit_and e 0x000FFFFFFFFFF000

unfoldable pub is_present : ℕ → Bool
is_present e = not (bit_and e present == 0)

unfoldable pub is_wx : Bool → ℕ → Bool
is_wx nx e =
    let w = not (bit_and e writable == 0) in
    let x = if nx then bit_and e no_execute == 0 else false in w && x
