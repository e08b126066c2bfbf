-- ===== src/Multiboot/Encode.antt =====
-- A memory map written out as a tag's body, and its fields read back.
use orin_os.Prelude.{
  ℕ, ◌+◌, ◌^◌, ◌<◌, ◌≡◌, refl, sym, ap, ◌∙◌, List, [], ◌∷◌, ◌++◌, Option, none, some, arith, length,
  length-append, drop-append, take-append, le→leb,
}
use orin_os.Prelude.Text.{le_value, le_bytes, length-le_bytes, le_value-le_bytes}
use mathlib.Core.List.{append_assoc}
use orin_os.Multiboot.{get_range, le_at, u32_at, u64_at}
use orin_os.Multiboot.Tags.{read_entry}
use orin_os.Pmm.{MmapEntry}

get_range-behind :
    (pre mid rest : List ℕ) (off n : ℕ)
    → off ≡ length pre
    → length mid ≡ n
    → get_range (pre ++ (mid ++ rest)) off n ≡ some mid
unfolding get_range
get_range-behind pre mid rest off n e l =
    rw
      (
        e,
        sym l,
        le→leb (length pre + length mid) (length (pre ++ (mid ++ rest)))
            (omega (arith, length-append {0} pre (mid ++ rest), length-append {0} mid rest)),
        drop-append pre (mid ++ rest),
        take-append mid rest,
      )
      refl

-- A field of `n` bytes behind `pre`.
pub le_at-le_bytes :
    (pre rest : List ℕ) (n v off : ℕ)
    → off ≡ length pre
    → v < 256 ^ n
    → le_at (pre ++ (le_bytes n v ++ rest)) off n ≡ some v
unfolding le_at
le_at-le_bytes pre rest n v off e h =
    ap (λ (o : Option (List ℕ)). elim o [ none ↦ none | some s ↦ some (le_value s) ])
      (get_range-behind pre (le_bytes n v) rest off n e (length-le_bytes n v))
    ∙ ap some (le_value-le_bytes n v h)

-- An entry as the loader writes it: base, length, type and four reserved bytes.
unfoldable pub encode_entry : MmapEntry → List ℕ
encode_entry e =
    le_bytes 8 e.base ++ (le_bytes 8 e.length ++ (le_bytes 4 e.mem_type ++ le_bytes 4 0))

unfoldable pub encode_entries : List MmapEntry → List ℕ
encode_entries [] = []
encode_entries (e ∷ es) = encode_entry e ++ encode_entries es

-- A tag's body: the size of an entry and the version before them.
unfoldable pub encode_mmap : List MmapEntry → List ℕ
encode_mmap es = le_bytes 4 24 ++ (le_bytes 4 0 ++ encode_entries es)

-- Each field is in its machine type.
pub record IsEntry (e : MmapEntry) : Type 0 where
  pub base_in : e.base < 2 ^ 64
  pub length_in : e.length < 2 ^ 64
  pub type_in : e.mem_type < 2 ^ 32

abbrev pub AreEntries : List MmapEntry → Type 0
AreEntries [] = Unit
AreEntries (e ∷ es) = IsEntry e × AreEntries es

pub length-encode_entry : (e : MmapEntry) → length (encode_entry e) ≡ 24
unfolding encode_entry
length-encode_entry e = omega (
  arith,
  length-append {0} (le_bytes 8 e.base)
      (le_bytes 8 e.length ++ (le_bytes 4 e.mem_type ++ le_bytes 4 0)),
  length-append {0} (le_bytes 8 e.length) (le_bytes 4 e.mem_type ++ le_bytes 4 0),
  length-append {0} (le_bytes 4 e.mem_type) (le_bytes 4 0),
  length-le_bytes 8 e.base,
  length-le_bytes 8 e.length,
  length-le_bytes 4 e.mem_type,
  length-le_bytes 4 0,
)

module _ (pre rest : List ℕ) (e : MmapEntry) (ok_entry : IsEntry e) where
  abbrev written : List ℕ
  written = pre ++ (encode_entry e ++ rest)

  base_at : u64_at written (length pre) ≡ some e.base
  unfolding u64_at encode_entry
  base_at =
      rw
        (append_assoc (le_bytes 8 e.base)
          (le_bytes 8 e.length ++ (le_bytes 4 e.mem_type ++ le_bytes 4 0)) rest)
        (le_at-le_bytes pre
          ((le_bytes 8 e.length ++ (le_bytes 4 e.mem_type ++ le_bytes 4 0)) ++ rest) 8 e.base
          (length pre) refl (omega arith))

  length_at : u64_at written (length pre + 8) ≡ some e.length
  unfolding u64_at encode_entry
  length_at = simp (append_assoc) (
      rw
        (← append_assoc pre (le_bytes 8 e.base)
          (le_bytes 8 e.length ++ (le_bytes 4 e.mem_type ++ (le_bytes 4 0 ++ rest))))
        (le_at-le_bytes (pre ++ le_bytes 8 e.base) (le_bytes 4 e.mem_type ++ (le_bytes 4 0 ++ rest))
          8 e.length (length pre + 8)
          (omega (arith, length-append {0} pre (le_bytes 8 e.base), length-le_bytes 8 e.base))
          (omega arith)))

  type_at : u32_at written (length pre + 16) ≡ some e.mem_type
  unfolding u32_at encode_entry
  type_at = simp (append_assoc) (
      rw
        (
          ← append_assoc pre (le_bytes 8 e.base)
              (le_bytes 8 e.length ++ (le_bytes 4 e.mem_type ++ (le_bytes 4 0 ++ rest))),
          ← append_assoc (pre ++ le_bytes 8 e.base) (le_bytes 8 e.length)
              (le_bytes 4 e.mem_type ++ (le_bytes 4 0 ++ rest)),
        )
        (le_at-le_bytes ((pre ++ le_bytes 8 e.base) ++ le_bytes 8 e.length) (le_bytes 4 0 ++ rest) 4
          e.mem_type (length pre + 16)
          (omega (
            arith,
            length-append {0} (pre ++ le_bytes 8 e.base) (le_bytes 8 e.length),
            length-append {0} pre (le_bytes 8 e.base),
            length-le_bytes 8 e.base,
            length-le_bytes 8 e.length,
          ))
          (omega arith)))

  pub read_entry-encode_entry : read_entry written (length pre) ≡ some e
  unfolding read_entry
  read_entry-encode_entry = rw (base_at, length_at, type_at, read_entry) refl
