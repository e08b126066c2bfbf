-- ===== src/Multiboot/Settles.antt =====
-- What it means for a run of the parser to end without a panic, and the rule for a bind.
use orin_os.Prelude.{◌≡◌, refl, Option, none, some, Outcome}
use orin_os.Prelude.Loops.{Gives}
use orin_os.Multiboot.{Parsed, parsed, refused, returned, ParseError, ◌>>=◌, ok_or}

-- Any error of the parser, or a value with the property; no panic.
pub data Settles {ℓ} {A : Type ℓ} (P : A → Type 0) : Parsed A → Type ℓ where
  value : {a : A} → P a → Settles P (parsed a)
  error : {e : ParseError} → Settles P (refused e)

module _ {ℓ} {A : Type ℓ} where
  pub Settles-bind {κ} :
      {B : Type κ} {P : A → Type 0} {Q : B → Type 0} {m : Parsed A} {f : A → Parsed B}
      → Settles P m
      → ((a : A) → P a → Settles Q (f a))
      → Settles Q (m >>= f)
  Settles-bind (value {a} h) k = k a h
  Settles-bind error k = error

pub ok_or-Settles :
    {A : Type 0} (o : Option A) (e : ParseError) → Settles (λ a. o ≡ some a) (ok_or o e)
ok_or-Settles none e = error
ok_or-Settles (some a) e = value refl

pub returned-Settles :
    {A : Type 0} {P : A → Type 0} (m : Outcome A) → Gives P m → Settles P (returned m)
unfolding returned
returned-Settles m (a, e, h) = rw e (value h)
