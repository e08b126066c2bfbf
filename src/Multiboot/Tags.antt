-- ===== src/Multiboot/Tags.antt =====
-- The tags of the information structure of kernel/src/multiboot/info.rs, and what `parse` does with
-- each. Log lines are left out. The counter of tags stays below the size of the structure, so its sum
-- is not checked.
use orin_os.Prelude.{
  ℕ, zero, suc, ◌+◌, ◌-◌, ◌*◌, ◌^◌, min, max, Bool, true, false, ◌&&◌, List, [], ◌∷◌, Option, none,
  some, Outcome, out_of_fuel, length, get_elem?, ltb, leb, ◌==◌, if◌then◌else◌,
}
use orin_os.Prelude.Text.{chars_from}
use orin_os.Multiboot.{
  Parsed, parsed, refused, crashed, returned, bad_mmap_entry_size, ◌>>=◌, ok_or, u32_at, u64_at,
  FramebufferInfo,
}
use orin_os.Multiboot.Containers.{Str, Vec, new_str, push_str, push}
use orin_os.Pmm.{MmapEntry}

pub record BootInfo : Type 0 where
  pub total_size : ℕ
  pub cmdline : Option Str
  pub loader_name : Option Str
  pub mmap : Vec MmapEntry
  pub framebuffer : Option FramebufferInfo
  pub acpi_rsdp : Option ℕ
  pub acpi_version : ℕ
  pub load_base_addr : Option ℕ
  pub tag_count : ℕ
  pub phys_addr : ℕ

-- `tag::END` and its neighbours, each by its number.
abbrev pub tag_end : ℕ
tag_end = 0

abbrev pub tag_cmdline : ℕ
tag_cmdline = 1

abbrev pub tag_boot_loader_name : ℕ
tag_boot_loader_name = 2

abbrev pub tag_mmap : ℕ
tag_mmap = 6

abbrev pub tag_framebuffer : ℕ
tag_framebuffer = 8

abbrev pub tag_acpi_old : ℕ
tag_acpi_old = 13

abbrev pub tag_acpi_new : ℕ
tag_acpi_new = 14

abbrev pub tag_load_base_addr : ℕ
tag_load_base_addr = 20

abbrev pub header_len : ℕ
header_len = 8

abbrev non_utf8 : List ℕ
non_utf8 = 60 ∷ 110 ∷ 111 ∷ 110 ∷ 45 ∷ 117 ∷ 116 ∷ 102 ∷ 56 ∷ 62 ∷ []

unfoldable pub bytes_to_str : List ℕ → List ℕ
bytes_to_str b = elim (chars_from b) [ none ↦ non_utf8 | some cs ↦ b ]

unfoldable pub trim_nul : List ℕ → List ℕ
trim_nul [] = []
trim_nul (b ∷ bs) = elim b [ zero ↦ [] | suc n ↦ suc n ∷ trim_nul bs ]

unfoldable pub read_str : List ℕ → Outcome Str
read_str body = push_str new_str (trim_nul (bytes_to_str body))

-- One entry, at `eoff`.
unfoldable pub read_entry : List ℕ → ℕ → Option MmapEntry
read_entry body eoff = elim (u64_at body eoff) [
  | none ↦ none
  | some base ↦ elim (u64_at body (eoff + 8)) [
    | none ↦ none
    | some len ↦ elim (u32_at body (eoff + 16)) [
      | none ↦ none
      | some ty ↦ some (record { base = base; length = len; mem_type = ty })
    ]
  ]
]

-- The loop of `parse_mmap`; it stops at the end of the body, and when the vector is full.
unfoldable pub read_entries : ℕ → List ℕ → ℕ → ℕ → Vec MmapEntry → Parsed (Vec MmapEntry)
read_entries zero body entry_size eoff v = crashed out_of_fuel
read_entries (suc fuel) body entry_size eoff v = elim (leb (eoff + 24) (length body)) [
  | false ↦ parsed v
  | true ↦ elim (read_entry body eoff) [
    | none ↦ parsed v
    | some e ↦ elim (push v e) [
      | none ↦ parsed v
      | some v1 ↦ read_entries fuel body entry_size (eoff + entry_size) v1
    ]
  ]
]

unfoldable pub parse_mmap : List ℕ → BootInfo → Parsed BootInfo
parse_mmap body info = do
  entry_size ← ok_or (u32_at body 0) bad_mmap_entry_size
  _ ← ok_or (u32_at body 4) bad_mmap_entry_size
  v ←
      (if ltb entry_size 24
        then refused bad_mmap_entry_size
        else read_entries (length body + 1) body entry_size 8 info.mmap)
  parsed (record info { mmap = v })

unfoldable pub parse_framebuffer : List ℕ → Option FramebufferInfo
parse_framebuffer body = elim (u64_at body 0) [
  | none ↦ none
  | some address ↦ elim (u32_at body 8) [
    | none ↦ none
    | some pitch ↦ elim (u32_at body 12) [
      | none ↦ none
      | some width ↦ elim (u32_at body 16) [
        | none ↦ none
        | some height ↦ elim (get_elem? body 20) [
          | none ↦ none
          | some bpp ↦ elim (get_elem? body 21) [
            | none ↦ none
            | some fb_type ↦ some (record {
              address = address;
              pitch = pitch;
              width = width;
              height = height;
              bpp = bpp;
              fb_type = fb_type;
              size = min (pitch * max height 1) (2 ^ 64 - 1);
            })
          ]
        ]
      ]
    ]
  ]
]

-- An RSDP that is not there yet, at the offset of the tag's body.
unfoldable pub take_rsdp : BootInfo → ℕ → ℕ → BootInfo
take_rsdp info off version = elim info.acpi_rsdp [
  | some a ↦ info
  | none ↦ record info { acpi_rsdp = some (off + header_len); acpi_version = version }
]

unfoldable pub take_framebuffer : BootInfo → List ℕ → BootInfo
take_framebuffer info body = elim info.framebuffer [
  | some fb ↦ info
  | none ↦ record info { framebuffer = parse_framebuffer body }
]

-- The match on the type of a tag, with `saw_mmap`.
unfoldable pub take_tag : BootInfo → Bool → ℕ → ℕ → List ℕ → Parsed (BootInfo × Bool)
take_tag info saw ty off body =
    if ty == tag_cmdline
    then (returned (read_str body) >>= λ s. parsed (record info { cmdline = some s }, saw))
    else if ty == tag_boot_loader_name
    then (returned (read_str body) >>= λ s. parsed (record info { loader_name = some s }, saw))
    else if ty == tag_mmap
    then (parse_mmap body info >>= λ i. parsed (i, true))
    else if (ty == tag_framebuffer) && leb 24 (length body)
    then parsed (take_framebuffer info body, saw)
    else if (ty == tag_acpi_old) && leb 20 (length body)
    then parsed (take_rsdp info off 1, saw)
    else if (ty == tag_acpi_new) && leb 36 (length body)
    then parsed (take_rsdp info off 2, saw)
    else if ty == tag_load_base_addr
    then parsed (record info { load_base_addr = u32_at body 0 }, saw)
    else parsed (info, saw)
