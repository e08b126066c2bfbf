-- ===== src/Multiboot/Containers.antt =====
-- `heapless` of kernel/src/multiboot/info.rs: strings and vectors of a fixed capacity. A string is its
-- bytes; the characters of a valid one are the byte runs that encode them, as `chars` and
-- `encode_utf8` of the standard library give them.
use orin_os.Prelude.{
  ℕ, ◌+◌, true, false, List, [], ◌∷◌, Option, none, some, take, length, replicate, set, leb,
  Outcome, ok, ◌>>=◌, if◌then◌else◌,
}
use orin_os.Prelude.Text.{chars_from, copied}

abbrev pub str_cap : ℕ
str_cap = 191

abbrev pub mmap_cap : ℕ
mmap_cap = 64

pub record Str : Type 0 where
  pub buf : List ℕ
  pub len : ℕ

unfoldable pub new_str : Str
new_str = record { buf = replicate str_cap 0; len = 0 }

-- The loop of `push_str`; it returns at the first character that does not fit.
unfoldable pub push_chars : Str → List (List ℕ) → Outcome Str
push_chars s [] = ok s
push_chars s (enc ∷ cs) = elim (leb (s.len + length enc) str_cap) [
  | true ↦ copied s.buf s.len enc >>= λ buf.
      push_chars (record { buf = buf; len = s.len + length enc }) cs
  | false ↦ ok s
]

-- A byte string that is not valid has no characters to push; the callers pass valid ones.
unfoldable pub push_str : Str → List ℕ → Outcome Str
push_str s text = elim (chars_from text) [ none ↦ ok s | some cs ↦ push_chars s cs ]

unfoldable pub as_bytes : Str → List ℕ
as_bytes s = take s.len s.buf

module _ {ℓ} where
  pub record Vec (A : Type ℓ) : Type ℓ where
    pub items : List A
    pub count : ℕ

module _ {ℓ} {A : Type ℓ} where
  unfoldable pub new_vec : A → Vec A
  new_vec item = record { items = replicate mmap_cap item; count = 0 }

  -- `none` where the source gives the item back.
  unfoldable pub push : Vec A → A → Option (Vec A)
  push v x =
      if leb mmap_cap v.count
      then none
      else some (record { items = set v.items v.count x; count = v.count + 1 })

  unfoldable pub as_slice : Vec A → List A
  as_slice v = take v.count v.items
