-- ===== src/Multiboot/Strings.antt =====
-- The strings of kernel/src/multiboot/info.rs: `push_str` stays inside the buffer.
use orin_os.Prelude.{
  ℕ, ◌+◌, ◌≤◌, ◌≡◌, refl, ◌∙◌, true, false, List, [], ◌∷◌, Option, none, some, ok, ◌>>=◌, Bool,
  length, leb, arith, length-replicate,
}
use orin_os.Prelude.Loops.{Gives}
use orin_os.Prelude.Text.{chars_from, copy_at, copied, copied-ok, length-copy_at}
use orin_os.Multiboot.Containers.{Str, new_str, push_chars, push_str, str_cap}
use orin_os.Multiboot.Tags.{read_str, trim_nul, bytes_to_str}

-- A buffer of the capacity.
abbrev pub IsStr : Str → Type 0
IsStr s = length s.buf ≡ str_cap

pub push_chars-IsStr : (s : Str) (cs : List (List ℕ)) → IsStr s → Gives IsStr (push_chars s cs)
unfolding push_chars
push_chars-IsStr s [] h = (s, refl, h)
push_chars-IsStr s (enc ∷ cs) h =
    by_room (λ t k. push_chars-IsStr t cs k) (leb (s.len + length enc) str_cap) refl
  where
    by_room :
        ((t : Str) → IsStr t → Gives IsStr (push_chars t cs))
        → (b : Bool) → leb (s.len + length enc) str_cap ≡ b
        → Gives IsStr (elim b [
          | true ↦ copied s.buf s.len enc >>= λ buf.
              push_chars (record { buf = buf; len = s.len + length enc }) cs
          | false ↦ ok s
        ])
    by_room later false e = (s, refl, h)
    by_room later true e =
        let fits : s.len + length enc ≤ length s.buf = ground arith in
        rw (copied-ok s.buf s.len enc fits) (
          later (record { buf = copy_at s.buf s.len enc; len = s.len + length enc })
            (length-copy_at s.buf s.len enc fits ∙ h))

pub push_str-IsStr : (s : Str) (text : List ℕ) → IsStr s → Gives IsStr (push_str s text)
unfolding push_str
push_str-IsStr s text h = by_chars (chars_from text)
  where
    by_chars :
        (o : Option (List (List ℕ)))
        → Gives IsStr (elim o [ none ↦ ok s | some cs ↦ push_chars s cs ])
    by_chars none = (s, refl, h)
    by_chars (some cs) = push_chars-IsStr s cs h

pub read_str-IsStr : (body : List ℕ) → Gives IsStr (read_str body)
unfolding read_str new_str
read_str-IsStr body =
    push_str-IsStr new_str (trim_nul (bytes_to_str body)) (length-replicate str_cap 0)
