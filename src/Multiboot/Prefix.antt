-- ===== src/Multiboot/Prefix.antt =====
-- The parser reads no byte behind the declared size.
use orin_os.Prelude.{
  ℕ, zero, suc, ◌+◌, ◌-◌, ◌≤◌, ◌≡◌, refl, ap, ◌∙◌, Bool, true, false, List, ◌++◌, Option, none,
  some, arith, length, length-append, take, drop, take-drop-append, ltb, leb, leb→le, ltb→ge,
  le→leb, ge→ltb, Bool-cases, Option-cases, if◌then◌else◌, fun_ext, inl, inr,
}
use orin_os.Prelude.Text.{le_value}
use orin_os.Multiboot.{Parsed, parsed, ◌>>=◌, slice, get_range, le_at, u16_at, u32_at}
use orin_os.Multiboot.Tags.{BootInfo, header_len}
use orin_os.Multiboot.Parse.{read_sized_tag, read_tag, walk, read_tags, read_sized, parse, new_info}

le_at-inside : (b : List ℕ) (off n v : ℕ) → le_at b off n ≡ some v → off + n ≤ length b
unfolding le_at get_range
le_at-inside b off n v e = by_range (leb (off + n) (length b)) refl e
  where
    by_range :
        (t : Bool)
        → leb (off + n) (length b) ≡ t
        → ◌≡◌ {A = Option ℕ}
            (elim (if t then some (take n (drop off b)) else none) [
              | none ↦ none
              | some s ↦ some (le_value s)
            ])
            (some v)
        → off + n ≤ length b
    by_range true p q = leb→le (off + n) (length b) p
    by_range false p q = absurd cc

module _ (bytes more : List ℕ) where
  get_range-append :
      (off n : ℕ) → off + n ≤ length bytes → get_range (bytes ++ more) off n ≡ get_range bytes off n
  unfolding get_range
  get_range-append off n h =
      rw
        (
          le→leb (off + n) (length (bytes ++ more)) (omega (arith, length-append {0} bytes more)),
          le→leb (off + n) (length bytes) h,
          take-drop-append n off bytes more h,
        )
        refl

  le_at-append :
      (off n : ℕ) → off + n ≤ length bytes → le_at (bytes ++ more) off n ≡ le_at bytes off n
  unfolding le_at
  le_at-append off n h =
      ap (λ (o : Option (List ℕ)). elim o [ none ↦ none | some s ↦ some (le_value s) ])
        (get_range-append off n h)

  u16_at-append : (off : ℕ) → off + 2 ≤ length bytes → u16_at (bytes ++ more) off ≡ u16_at bytes off
  unfolding u16_at
  u16_at-append off h = le_at-append off 2 h

  u32_at-append : (off : ℕ) → off + 4 ≤ length bytes → u32_at (bytes ++ more) off ≡ u32_at bytes off
  unfolding u32_at
  u32_at-append off h = le_at-append off 4 h

  slice-append :
      (start end : ℕ)
      → start ≤ end
      → end ≤ length bytes
      → slice (bytes ++ more) start end ≡ slice bytes start end
  slice-append start end lo hi =
      rw
        (
          le→leb start end lo,
          le→leb end (length (bytes ++ more)) (omega (arith, length-append {0} bytes more)),
          le→leb end (length bytes) hi,
          take-drop-append (end - start) start bytes more (omega arith),
        )
        refl

  module _ (total : ℕ) (inside : total ≤ length bytes) where
    read_sized_tag-append :
        (off : ℕ) (info : BootInfo) (saw : Bool) (ty size : ℕ)
        → read_sized_tag (bytes ++ more) total off info saw ty size
          ≡ read_sized_tag bytes total off info saw ty size
    unfolding read_sized_tag
    read_sized_tag-append off info saw ty size = elim (Bool-cases (ltb size header_len)) [
      | inl short ↦ rw short refl
      | inr long ↦ elim (Bool-cases (ltb total (off + size))) [
        | inl over ↦ rw over refl
        | inr fits ↦
            let lo = ltb→ge size header_len long in
            let hi = ltb→ge total (off + size) fits in
            rw (slice-append (off + header_len) (off + size) (omega arith) (omega arith)) refl
      ]
    ]

    read_tag-append :
        (off : ℕ) (info : BootInfo) (saw : Bool)
        → off + header_len ≤ total
        → read_tag (bytes ++ more) total off info saw ≡ read_tag bytes total off info saw
    unfolding read_tag
    read_tag-append off info saw room =
        let first = u16_at-append off (omega arith) in
        let second = u32_at-append (off + 4) (omega arith) in
        elim (Option-cases (u16_at bytes off)) [
          | inl e ↦ rw (first ∙ e, e, read_tag) refl
          | inr (ty, e) ↦ elim (Option-cases (u32_at bytes (off + 4))) [
            | inl e2 ↦ rw (first ∙ e, e, second ∙ e2, e2, read_tag) refl
            | inr (size, e2) ↦
                rw (first ∙ e, e, second ∙ e2, e2, read_tag)
                  (read_sized_tag-append off info saw ty size)
          ]
        ]

    walk-append :
        (fuel off : ℕ) (info : BootInfo) (saw : Bool)
        → walk fuel (bytes ++ more) total off info saw ≡ walk fuel bytes total off info saw
    unfolding walk
    walk-append zero off info saw = refl
    walk-append (suc fuel) off info saw = elim (Bool-cases (leb (off + header_len) total)) [
      | inr over ↦ rw (over, walk) refl
      | inl within ↦
          rw (within, walk, read_tag-append off info saw (leb→le (off + header_len) total within))
            (ap (λ k. read_tag bytes total off info saw >>= k)
              (fun_ext (onward (λ o i s. walk-append fuel o i s))))
    ]
      where
        onward :
            ((o : ℕ) (i : BootInfo) (s : Bool)
              → walk fuel (bytes ++ more) total o i s ≡ walk fuel bytes total o i s)
            → (next : Option ((BootInfo × Bool) × ℕ))
            → ◌≡◌ {A = Parsed (BootInfo × Bool)}
                (elim next [
                  | none ↦ parsed (info, saw)
                  | some ((i, s), o) ↦ walk fuel (bytes ++ more) total o i s
                ])
                (elim next [
                  | none ↦ parsed (info, saw)
                  | some ((i, s), o) ↦ walk fuel bytes total o i s
                ])
        onward again none = refl
        onward again (some ((i, s), o)) = again o i s

-- `parse` reads nothing behind the declared size: if that lies in the bytes, any bytes that follow
-- them, as in the larger slice that `read_from` passes, leave the result as it is.
pub parse-append :
    (bytes more : List ℕ) (total : ℕ)
    → u32_at bytes 0 ≡ some total
    → total ≤ length bytes
    → parse (bytes ++ more) ≡ parse bytes
unfolding parse read_sized read_tags
parse-append bytes more total e inside =
    let four = le_at-inside bytes 0 4 total (unfold u32_at in e) in
    rw
      (
        u32_at-append bytes more 0 four ∙ e,
        e,
        walk-append bytes more total inside (total + 1) header_len (new_info total) false,
      )
      (rw
        (
          ge→ltb (length (bytes ++ more)) total (omega (arith, length-append {0} bytes more)),
          ge→ltb (length bytes) total inside,
        )
        refl)
