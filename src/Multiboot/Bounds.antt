-- ===== src/Multiboot/Bounds.antt =====
-- The handling of one tag: no panic, the vector stays in its capacity, an RSDP in the structure.
use orin_os.Prelude.{
  ◌⊎◌, inl, inr, ℕ, zero, suc, ◌+◌, ◌<◌, ◌≤◌, ◌≡◌, refl, ◌∙◌, Bool, true, false, ◌&&◌, List, Option,
  none, some, arith, length, set, length-set, leb, ltb, ◌==◌, leb→le, if◌then◌else◌, Bool-cases,
  Option-cases, some-injective,
}
use orin_os.Multiboot.{parsed, refused, returned, ◌>>=◌, u32_at, bad_mmap_entry_size}
use orin_os.Multiboot.Containers.{Vec, push}
use orin_os.Multiboot.Tags.{
  BootInfo, read_entry, read_entries, parse_mmap, take_tag, take_rsdp, take_framebuffer,
  parse_framebuffer, header_len, read_str, tag_cmdline, tag_boot_loader_name, tag_mmap,
  tag_framebuffer, tag_acpi_old, tag_acpi_new, tag_load_base_addr,
}
use orin_os.Multiboot.Settles.{Settles, value, error, Settles-bind, returned-Settles, ok_or-Settles}
use orin_os.Multiboot.Strings.{read_str-IsStr}
use orin_os.Multiboot.{FramebufferInfo}
use orin_os.Multiboot.Tags.{parse_framebuffer}
use orin_os.Pmm.{MmapEntry}

-- A vector in its capacity.
pub record IsVec (v : Vec MmapEntry) : Type 0 where
  pub size : length v.items ≡ 64
  pub fits : v.count ≤ 64

push-cases :
    (v : Vec MmapEntry) (e : MmapEntry)
    → IsVec v
    → (push v e ≡ none) ⊎ ((v1 : Vec MmapEntry) × (push v e ≡ some v1) × IsVec v1)
unfolding push
push-cases v e h = elim (Bool-cases (leb 64 v.count)) [
  | inl full ↦ inl (rw full refl)
  | inr room ↦ inr (
    record { items = set v.items v.count e; count = v.count + 1 },
    rw room refl,
    record { size = length-set v.items v.count e ∙ h.size; fits = ground arith },
  )
]

read_entries-Settles :
    (fuel : ℕ) (body : List ℕ) (entry_size eoff : ℕ) (v : Vec MmapEntry)
    → 0 < fuel
    → length body + 1 ≤ eoff + fuel
    → 0 < entry_size
    → IsVec v
    → Settles IsVec (read_entries fuel body entry_size eoff v)
unfolding read_entries
read_entries-Settles zero body entry_size eoff v pos enough big h = absurd (omega arith)
read_entries-Settles (suc fuel) body entry_size eoff v pos enough big h =
    elim (Bool-cases (leb (eoff + 24) (length body))) [
      | inr over ↦ rw (over, read_entries) (value h)
      | inl within ↦
          let room = leb→le (eoff + 24) (length body) within in
          elim (Option-cases (read_entry body eoff)) [
            | inl e ↦ rw (within, e, read_entries) (value h)
            | inr (x, e) ↦ elim (push-cases v x h) [
              | inl full ↦ rw (within, e, full, read_entries) (value h)
              | inr (v1, q, h1) ↦
                  rw (within, e, q, read_entries)
                    (read_entries-Settles fuel body entry_size (eoff + entry_size) v1 (omega arith)
                      (omega arith) big h1)
            ]
          ]
    ]

-- What holds of the information at every step: the vector is in its capacity, and an RSDP lies, with
-- the 20 bytes of the shorter form, in the structure.
pub record IsInfo (total : ℕ) (info : BootInfo) : Type 0 where
  pub vec : IsVec info.mmap
  pub rsdp : (a : ℕ) → info.acpi_rsdp ≡ some a → a + 20 ≤ total
  pub sized : info.total_size ≡ total

with_mmap :
    (total : ℕ) (info : BootInfo) (v : Vec MmapEntry)
    → IsInfo total info
    → IsVec v
    → IsInfo total (record info { mmap = v })
with_mmap total info v h hv = record { vec = hv; rsdp = h.rsdp; sized = h.sized }

entries-Settles :
    (body : List ℕ) (entry_size : ℕ) (v : Vec MmapEntry)
    → IsVec v
    → Settles IsVec (
        if ltb entry_size 24
        then refused bad_mmap_entry_size
        else read_entries (length body + 1) body entry_size 8 v)
entries-Settles body entry_size v h = elim (Bool-cases (ltb entry_size 24)) [
  | inl small ↦ rw small error
  | inr big ↦ rw big (
      read_entries-Settles (length body + 1) body entry_size 8 v (omega arith) (omega arith)
        (ground arith) h)
]

parse_mmap-Settles :
    (total : ℕ) (body : List ℕ) (info : BootInfo)
    → IsInfo total info
    → Settles (IsInfo total) (parse_mmap body info)
unfolding parse_mmap
parse_mmap-Settles total body info h =
    Settles-bind (ok_or-Settles (u32_at body 0) bad_mmap_entry_size) λ entry_size _.
      Settles-bind (ok_or-Settles (u32_at body 4) bad_mmap_entry_size) λ _ _.
        Settles-bind (entries-Settles body entry_size info.mmap h.vec)
          λ v hv. value (with_mmap total info v h hv)

take_rsdp-IsInfo :
    (total : ℕ) (info : BootInfo) (off version : ℕ)
    → off + header_len + 20 ≤ total
    → IsInfo total info
    → IsInfo total (take_rsdp info off version)
unfolding take_rsdp
take_rsdp-IsInfo total info off version fits h = by_rsdp info.acpi_rsdp
  where
    by_rsdp :
        (o : Option ℕ)
        → IsInfo total (elim o [
          | some a ↦ info
          | none ↦ record info { acpi_rsdp = some (off + header_len); acpi_version = version }
        ])
    by_rsdp none = record {
      vec = h.vec;
      rsdp = λ a q. omega (arith, some-injective q);
      sized = h.sized;
    }
    by_rsdp (some a) = h

take_framebuffer-IsInfo :
    (total : ℕ) (info : BootInfo) (body : List ℕ)
    → IsInfo total info
    → IsInfo total (take_framebuffer info body)
unfolding take_framebuffer
take_framebuffer-IsInfo total info body h = by_fb info.framebuffer
  where
    by_fb :
        (o : Option FramebufferInfo)
        → IsInfo total (elim o [
          | some fb ↦ info
          | none ↦ record info { framebuffer = parse_framebuffer body }
        ])
    by_fb none = record { vec = h.vec; rsdp = h.rsdp; sized = h.sized }
    by_fb (some fb) = h

pub take_tag-Settles :
    (total : ℕ) (info : BootInfo) (saw : Bool) (ty off : ℕ) (body : List ℕ)
    → off + header_len + length body ≤ total
    → IsInfo total info
    → Settles (λ (r : BootInfo × Bool). IsInfo total (r.0)) (take_tag info saw ty off body)
unfolding take_tag
take_tag-Settles total info saw ty off body fits h =
    by_type (ty == tag_cmdline) (ty == tag_boot_loader_name) (ty == tag_mmap)
      ((ty == tag_framebuffer) && leb 24 (length body)) (ty == tag_acpi_old) (leb 20 (length body))
      (ty == tag_acpi_new) (leb 36 (length body)) (ty == tag_load_base_addr) refl refl
  where
    by_type :
        (c l m f o o20 n n36 b : Bool)
        → leb 20 (length body) ≡ o20
        → leb 36 (length body) ≡ n36
        → Settles
            (λ (r : BootInfo × Bool). IsInfo total (r.0))
            (if c
              then (returned (read_str body) >>= λ s.
                  parsed (record info { cmdline = some s }, saw))
              else if l
              then (returned (read_str body) >>= λ s.
                  parsed (record info { loader_name = some s }, saw))
              else if m
              then (parse_mmap body info >>= λ i. parsed (i, true))
              else if f
              then parsed (take_framebuffer info body, saw)
              else if o && o20
              then parsed (take_rsdp info off 1, saw)
              else if n && n36
              then parsed (take_rsdp info off 2, saw)
              else if b
              then parsed (record info { load_base_addr = u32_at body 0 }, saw)
              else parsed (info, saw))
    by_type true l m f o o20 n n36 b p q =
        Settles-bind (returned-Settles (read_str body) (read_str-IsStr body))
          λ s is. value (record { vec = h.vec; rsdp = h.rsdp; sized = h.sized })
    by_type false true m f o o20 n n36 b p q =
        Settles-bind (returned-Settles (read_str body) (read_str-IsStr body))
          λ s is. value (record { vec = h.vec; rsdp = h.rsdp; sized = h.sized })
    by_type false false true f o o20 n n36 b p q =
        Settles-bind (parse_mmap-Settles total body info h) λ i hi. value hi
    by_type false false false true o o20 n n36 b p q =
        value (take_framebuffer-IsInfo total info body h)
    by_type false false false false true true n n36 b p q =
        value (take_rsdp-IsInfo total info off 1 (ground arith) h)
    by_type false false false false true false true true b p q =
        value (take_rsdp-IsInfo total info off 2 (ground arith) h)
    by_type false false false false true false true false true p q =
        value (record { vec = h.vec; rsdp = h.rsdp; sized = h.sized })
    by_type false false false false true false true false false p q = value h
    by_type false false false false true false false n36 true p q =
        value (record { vec = h.vec; rsdp = h.rsdp; sized = h.sized })
    by_type false false false false true false false n36 false p q = value h
    by_type false false false false false o20 true true b p q =
        value (take_rsdp-IsInfo total info off 2 (ground arith) h)
    by_type false false false false false o20 true false true p q =
        value (record { vec = h.vec; rsdp = h.rsdp; sized = h.sized })
    by_type false false false false false o20 true false false p q = value h
    by_type false false false false false o20 false n36 true p q =
        value (record { vec = h.vec; rsdp = h.rsdp; sized = h.sized })
    by_type false false false false false o20 false n36 false p q = value h
