-- ===== src/Multiboot/Total.antt =====
-- The walk over the tags ends, and `parse` returns on every byte string.
use orin_os.Prelude.{
  inl, inr, ℕ, zero, suc, ◌+◌, ◌-◌, ◌^◌, ◌<◌, ◌≤◌, ◌≡◌, refl, sym, ap, ◌∙◌, Bool, true, false, not,
  ◌||◌, List, Option, none, some, arith, length, drop, length-replicate, length-drop, length-take,
  le→leb, leb, ltb, ◌==◌, leb→le, ltb→ge, if◌then◌else◌, Bool-cases, Option-cases,
}
use orin_os.Prelude.Bits.Masks.{bit_and-eights}
use orin_os.Multiboot.{parsed, refused, ◌>>=◌, slice, u16_at, u32_at, tag_overrun, tag_undersize}
use orin_os.Multiboot.Containers.{new_vec}
use orin_os.Multiboot.Tags.{BootInfo, take_tag, header_len, tag_end}
use orin_os.Multiboot.Parse.{
  read_sized_tag, align_tag, read_tag, walk, finish, read_tags, read_sized, parse, new_info,
  placeholder_mmap,
}
use orin_os.Multiboot.Settles.{Settles, value, error, Settles-bind, ok_or-Settles}
use orin_os.Multiboot.{too_short, size_mismatch}
use orin_os.Prelude.{some-ne-none}
use orin_os.Multiboot.Bounds.{IsInfo, take_tag-Settles}

pub align_tag-le : (e : ℕ) → e < 2 ^ 63 → e ≤ align_tag e
unfolding align_tag
align_tag-le e h = omega (arith, bit_and-eights (e + 7) (omega arith))

slice-Settles :
    (b : List ℕ) (start end : ℕ)
    → start ≤ end
    → end ≤ length b
    → Settles (λ s. length s ≡ end - start) (slice b start end)
slice-Settles b start end lo hi =
    rw (le→leb start end lo, le→leb end (length b) hi)
      (value (length-take (end - start) (drop start b) (omega (arith, length-drop start b))))

-- What the walk goes on with.
abbrev Next : ℕ → ℕ → Option ((BootInfo × Bool) × ℕ) → Type 0
Next total off none = Unit
Next total off (some ((i, s), o)) = IsInfo total i × (off + header_len ≤ o)

module _ (bytes : List ℕ) (total off : ℕ) (info : BootInfo) (saw : Bool)
    (inside : total ≤ length bytes) (small : length bytes < 2 ^ 63) (h : IsInfo total info) where
  read_sized_tag-Settles :
      (ty size : ℕ) → Settles (Next total off) (read_sized_tag bytes total off info saw ty size)
  unfolding read_sized_tag
  read_sized_tag-Settles ty size =
      by_size (ty == tag_end) (ltb size header_len) (leb (2 ^ 64) (off + size))
        (ltb total (off + size)) refl refl
    where
      by_size :
          (e u o t : Bool)
          → ltb size header_len ≡ u
          → ltb total (off + size) ≡ t
          → Settles (Next total off) (
              if e
              then parsed none
              else if u
              then refused tag_undersize
              else if o
              then refused tag_overrun
              else if t
              then refused tag_overrun
              else (slice bytes (off + header_len) (off + size) >>= λ body.
                  take_tag (record info { tag_count = info.tag_count + 1 }) saw ty off body >>= λ r.
                  parsed (some (r, align_tag (off + size)))))
      by_size true u o t p q = value tt
      by_size false true o t p q = error
      by_size false false true t p q = error
      by_size false false false true p q = error
      by_size false false false false p q =
          let lo = ltb→ge size header_len p in
          let hi = ltb→ge total (off + size) q in
          Settles-bind
            (slice-Settles bytes (off + header_len) (off + size) (omega arith) (omega arith))
            λ body len.
              Settles-bind
                (take_tag-Settles total (record info { tag_count = info.tag_count + 1 }) saw ty off
                  body (omega (arith, len))
                  (record { vec = h.vec; rsdp = h.rsdp; sized = h.sized }))
                λ r hr. value (hr, omega (arith, align_tag-le (off + size) (omega arith)))

  read_tag-Settles : Settles (Next total off) (read_tag bytes total off info saw)
  unfolding read_tag
  read_tag-Settles = elim (Option-cases (u16_at bytes off)) [
    | inl e ↦ rw (e, read_tag) (value tt)
    | inr (ty, e) ↦ elim (Option-cases (u32_at bytes (off + 4))) [
      | inl e2 ↦ rw (e, e2, read_tag) (value tt)
      | inr (size, e2) ↦ rw (e, e2, read_tag) (read_sized_tag-Settles ty size)
    ]
  ]

walk-Settles :
    (fuel : ℕ) (bytes : List ℕ) (total off : ℕ) (info : BootInfo) (saw : Bool)
    → 0 < fuel
    → total + 1 ≤ off + fuel
    → total ≤ length bytes
    → length bytes < 2 ^ 63
    → IsInfo total info
    → Settles (λ (r : BootInfo × Bool). IsInfo total (r.0)) (walk fuel bytes total off info saw)
unfolding walk
walk-Settles zero bytes total off info saw pos enough inside small h = absurd (omega arith)
walk-Settles (suc fuel) bytes total off info saw pos enough inside small h =
    elim (Bool-cases (leb (off + header_len) total)) [
      | inr over ↦ rw (over, walk) (value h)
      | inl within ↦
          let room = leb→le (off + header_len) total within in
          rw (within, walk)
            (Settles-bind (read_tag-Settles bytes total off info saw inside small h) λ next.
              go
                (λ o i s far hi.
                  walk-Settles fuel bytes total o i s (omega arith) (omega arith) inside small hi)
                next)
    ]
  where
    go :
        ((o : ℕ) (i : BootInfo) (s : Bool)
          → off + header_len ≤ o
          → IsInfo total i
          → Settles (λ (r : BootInfo × Bool). IsInfo total (r.0)) (walk fuel bytes total o i s))
        → (next : Option ((BootInfo × Bool) × ℕ)) → Next total off next
        → Settles
            (λ (r : BootInfo × Bool). IsInfo total (r.0))
            (elim next [
              | none ↦ parsed (info, saw)
              | some ((i, s), o) ↦ walk fuel bytes total o i s
            ])
    go again none _ = value h
    go again (some ((i, s), o)) (hi, far) = again o i s far hi

-- What an accepted structure is known to satisfy.
pub record IsAccepted (bytes : List ℕ) (info : BootInfo) : Type 0 where
  pub sized : u32_at bytes 0 ≡ some info.total_size
  pub inside : info.total_size ≤ length bytes
  pub headed : header_len ≤ info.total_size
  pub regions : 0 < info.mmap.count
  pub regions_fit : info.mmap.count ≤ 64
  pub rsdp : (a : ℕ) → info.acpi_rsdp ≡ some a → a + 20 ≤ info.total_size

pub new_info-IsInfo : (total : ℕ) → IsInfo total (new_info total)
unfolding new_info new_vec
new_info-IsInfo total = record {
  vec = record { size = length-replicate 64 placeholder_mmap; fits = omega arith };
  rsdp = λ a q. absurd (some-ne-none (sym q));
  sized = refl;
}

module _ (bytes : List ℕ) (small : length bytes < 2 ^ 63) where
  finish-Settles :
      (total : ℕ) (r : BootInfo × Bool)
      → u32_at bytes 0 ≡ some total
      → header_len ≤ total
      → total ≤ length bytes
      → IsInfo total (r.0)
      → Settles (IsAccepted bytes) (finish r)
  unfolding finish
  finish-Settles total (info, saw) e lo hi h =
      elim (Bool-cases (not saw || (info.mmap.count == 0))) [
        | inl missing ↦ rw missing error
        | inr there ↦ rw there (
            value (record {
              sized = e ∙ ap some (sym h.sized);
              inside = omega (arith, h.sized);
              headed = omega (arith, h.sized);
              regions = some_regions saw there;
              regions_fit = h.vec.fits;
              rsdp = λ a q. omega (arith, h.rsdp a q, h.sized);
            }))
      ]
    where
      some_regions : (b : Bool) → (not b || (info.mmap.count == 0)) ≡ false → 0 < info.mmap.count
      some_regions b q = ground arith

  sized_ok :
      (total : ℕ)
      → u32_at bytes 0 ≡ some total
      → Settles (IsAccepted bytes) (read_sized bytes total)
  unfolding read_sized read_tags
  sized_ok total e = by_size (ltb total header_len) (ltb (length bytes) total) refl refl
    where
      by_size :
          (a b : Bool)
          → ltb total header_len ≡ a
          → ltb (length bytes) total ≡ b
          → Settles (IsAccepted bytes) (
              if a
              then refused too_short
              else if b
              then refused size_mismatch
              else read_tags bytes total)
      by_size true b p q = error
      by_size false true p q = error
      by_size false false p q =
          let lo = ltb→ge total header_len p in
          let hi = ltb→ge (length bytes) total q in
          Settles-bind
            (walk-Settles (total + 1) bytes total header_len (new_info total) false (omega arith)
              (omega arith) hi small (new_info-IsInfo total))
            λ r h. finish-Settles total r e lo hi h

  -- On any byte string of a length that a slice can have, parse ends without a panic, that of a
  -- copy into a string of 191 bytes included: it returns one of its errors, or information whose
  -- declared size is the first word and lies in the bytes, with 1 to 64 memory regions, and whose
  -- RSDP, if there is one, lies in the structure with 20 bytes.
  pub parse-Settles : Settles (IsAccepted bytes) (parse bytes)
  unfolding parse
  parse-Settles =
      Settles-bind (ok_or-Settles (u32_at bytes 0) too_short) λ total e. sized_ok total e
