-- ===== src/Multiboot.antt =====
-- The Multiboot2 information structure of kernel/src/multiboot/info.rs: results, the fields of the
-- structure, and the little-endian readers.
pub mod Containers
pub mod Tags
pub mod Parse
pub mod Settles
pub mod Strings
pub mod Bounds
pub mod Total
pub mod Prefix
pub mod Encode
pub mod RoundTrip
pub mod Params
pub mod Words
use orin_os.Prelude.{
  ℕ, zero, suc, ◌+◌, ◌*◌, ◌-◌, ◌^◌, Bool, List, [], ◌∷◌, Option, none, some, Fault, out_of_bounds,
  Outcome, ok, panic, take, drop, length, leb, if◌then◌else◌,
}
use orin_os.Prelude.Text.{le_value}

pub data ParseError : Type 0 where
  too_short size_mismatch tag_overrun tag_undersize no_memory_map bad_mmap_entry_size : ParseError

-- What the parser's functions return: a value, an error of theirs, or a panic.
pub data Parsed {ℓ} (A : Type ℓ) : Type ℓ where
  parsed : A → Parsed A
  refused : ParseError → Parsed A
  crashed : Fault → Parsed A

infixl 5 ◌>>=◌
abbrev pub ◌>>=◌ {ℓ κ} : {A : Type ℓ} {B : Type κ} → Parsed A → (A → Parsed B) → Parsed B
parsed a >>= f = f a
refused e >>= f = refused e
crashed e >>= f = crashed e

-- A call of code that has no errors of its own.
unfoldable pub returned {ℓ} : {A : Type ℓ} → Outcome A → Parsed A
returned (ok a) = parsed a
returned (panic e) = crashed e

-- `ok_or(e)?`
abbrev pub ok_or {ℓ} : {A : Type ℓ} → Option A → ParseError → Parsed A
ok_or none e = refused e
ok_or (some a) e = parsed a

-- A slice by a checked index, `&b[start..end]`.
abbrev pub slice : List ℕ → ℕ → ℕ → Parsed (List ℕ)
slice b start end =
    if leb start end
    then (if leb end (length b)
        then parsed (take (end - start) (drop start b))
        else crashed out_of_bounds)
    else crashed out_of_bounds

-- `b.get(off..off + n)`
unfoldable pub get_range : List ℕ → ℕ → ℕ → Option (List ℕ)
get_range b off n = if leb (off + n) (length b) then some (take n (drop off b)) else none

-- The readers of a field of `n` bytes.
unfoldable pub le_at : List ℕ → ℕ → ℕ → Option ℕ
le_at b off n = elim (get_range b off n) [ none ↦ none | some s ↦ some (le_value s) ]

unfoldable pub u16_at : List ℕ → ℕ → Option ℕ
u16_at b off = le_at b off 2

unfoldable pub u32_at : List ℕ → ℕ → Option ℕ
u32_at b off = le_at b off 4

unfoldable pub u64_at : List ℕ → ℕ → Option ℕ
u64_at b off = le_at b off 8

pub record FramebufferInfo : Type 0 where
  pub address : ℕ
  pub pitch : ℕ
  pub width : ℕ
  pub height : ℕ
  pub bpp : ℕ
  pub fb_type : ℕ
  pub size : ℕ
