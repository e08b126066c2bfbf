-- ===== src/Vmm/Indexing.antt =====
-- The indices of an address.
use orin_os.Prelude.{ℕ, ◌+◌, ◌*◌, ◌/◌, ◌%◌, ◌^◌, ◌<◌, ◌≡◌, arith}
use orin_os.Prelude.Bits.Masks.{low_mask}
use orin_os.Vmm.{Indices, indices}

-- Each index is in its table, and the parts make up the low 48 bits of the address.
pub record Splits (v : ℕ) (i : Indices) : Type 0 where
  pub pml4_in : i.pml4 < 512
  pub pdpt_in : i.pdpt < 512
  pub pd_in : i.pd < 512
  pub pt_in : i.pt < 512
  pub offset_in : i.offset < 4096
  pub sum :
      i.pml4 * 2 ^ 39 + i.pdpt * 2 ^ 30 + i.pd * 2 ^ 21 + i.pt * 2 ^ 12 + i.offset ≡ v % 2 ^ 48

-- `indices` of any address: the four indices are below 512, the offset is below 4096, and together
-- they give the low 48 bits of the address back.
pub indices-Splits : (v : ℕ) → Splits v (indices v)
unfolding indices
indices-Splits v =
    rw
      (
        low_mask 9 (v / 2 ^ 39),
        low_mask 9 (v / 2 ^ 30),
        low_mask 9 (v / 2 ^ 21),
        low_mask 9 (v / 2 ^ 12),
        low_mask 12 v,
      )
      record {
        pml4_in = omega arith;
        pdpt_in = omega arith;
        pd_in = omega arith;
        pt_in = omega arith;
        offset_in = omega arith;
        sum = omega arith;
      }
