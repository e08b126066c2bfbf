-- ===== src/Multiboot/Parse.antt =====
-- `parse` and `read_from` of kernel/src/multiboot/info.rs. The walk runs on fuel: each tag moves the
-- offset on by at least its header, so the size of the structure is enough.
use orin_os.Prelude.{
  ℕ, zero, suc, ◌+◌, ◌-◌, ◌*◌, ◌^◌, min, Bool, true, false, not, ◌||◌, List, [], ◌∷◌, Option, none,
  some, out_of_fuel, length, bit_and, ltb, leb, ◌==◌, if◌then◌else◌,
}
use orin_os.Prelude.Text.{le_value}
use orin_os.Multiboot.{
  Parsed, parsed, refused, crashed, too_short, size_mismatch, tag_overrun, tag_undersize,
  no_memory_map, ◌>>=◌, ok_or, slice, u16_at, u32_at,
}
use orin_os.Multiboot.Containers.{new_vec}
use orin_os.Multiboot.Tags.{BootInfo, tag_end, header_len, take_tag}
use orin_os.Pmm.{MmapEntry}

unfoldable pub placeholder_mmap : MmapEntry
placeholder_mmap = record { base = 0; length = 0; mem_type = 0 }

unfoldable pub new_info : ℕ → BootInfo
new_info total = record {
  total_size = total;
  cmdline = none;
  loader_name = none;
  mmap = new_vec placeholder_mmap;
  framebuffer = none;
  acpi_rsdp = none;
  acpi_version = 0;
  load_base_addr = none;
  tag_count = 0;
  phys_addr = 0;
}

-- `(end + (tag::ALIGN - 1)) & !(tag::ALIGN - 1)`
unfoldable pub align_tag : ℕ → ℕ
align_tag e = bit_and (e + 7) (2 ^ 64 - 1 - 7)

-- What the loop goes on with: the information, whether a memory map was seen, and the next offset.
-- `none` is a `break`. First for a tag whose type and size are read.
unfoldable pub read_sized_tag :
    List ℕ → ℕ → ℕ → BootInfo → Bool → ℕ → ℕ → Parsed (Option ((BootInfo × Bool) × ℕ))
read_sized_tag bytes total off info saw ty size =
    if ty == tag_end
    then parsed none
    else if ltb size header_len
    then refused tag_undersize
    else if leb (2 ^ 64) (off + size)
    then refused tag_overrun
    else if ltb total (off + size)
    then refused tag_overrun
    else (do
      body ← slice bytes (off + header_len) (off + size)
      r ← take_tag (record info { tag_count = info.tag_count + 1 }) saw ty off body
      parsed (some (r, align_tag (off + size))))

unfoldable pub read_tag : List ℕ → ℕ → ℕ → BootInfo → Bool → Parsed (Option ((BootInfo × Bool) × ℕ))
read_tag bytes total off info saw = elim (u16_at bytes off) [
  | none ↦ parsed none
  | some ty ↦ elim (u32_at bytes (off + 4)) [
    | none ↦ parsed none
    | some size ↦ read_sized_tag bytes total off info saw ty size
  ]
]

unfoldable pub walk : ℕ → List ℕ → ℕ → ℕ → BootInfo → Bool → Parsed (BootInfo × Bool)
walk zero bytes total off info saw = crashed out_of_fuel
walk (suc fuel) bytes total off info saw = elim (leb (off + header_len) total) [
  | false ↦ parsed (info, saw)
  | true ↦ read_tag bytes total off info saw >>= λ next. elim next [
    | none ↦ parsed (info, saw)
    | some ((i, s), o) ↦ walk fuel bytes total o i s
  ]
]

unfoldable pub finish : BootInfo × Bool → Parsed BootInfo
finish (info, saw) =
    if not saw || (info.mmap.count == 0) then refused no_memory_map else parsed info

-- `parse` behind the checks of the size, and with them.
unfoldable pub read_tags : List ℕ → ℕ → Parsed BootInfo
read_tags bytes total =
    walk (total + 1) bytes total header_len (new_info total) false >>= λ r. finish r

unfoldable pub read_sized : List ℕ → ℕ → Parsed BootInfo
read_sized bytes total =
    if ltb total header_len
    then refused too_short
    else if ltb (length bytes) total
    then refused size_mismatch
    else read_tags bytes total

unfoldable pub parse : List ℕ → Parsed BootInfo
parse bytes = ok_or (u32_at bytes 0) too_short >>= read_sized bytes

abbrev pub boot_mapped_bytes : ℕ
boot_mapped_bytes = 2 ^ 31

-- `n` bytes of memory from the address `a` on.
unfoldable pub bytes_at : (ℕ → ℕ) → ℕ → ℕ → List ℕ
bytes_at mem a zero = []
bytes_at mem a (suc n) = mem a ∷ bytes_at mem (a + 1) n

-- `mem` is physical memory, byte by byte, as the boot alias shows it.
unfoldable pub read_from : (ℕ → ℕ) → ℕ → Parsed BootInfo
read_from mem phys =
    if (phys == 0) || leb boot_mapped_bytes phys
    then refused too_short
    else (let total = le_value (bytes_at mem phys 4) in
        let span = min (total + 4096) (64 * 1024) in
        if ltb total header_len then refused too_short else (do
          info ← parse (bytes_at mem phys span)
          parsed (record info {
            phys_addr = phys;
            acpi_rsdp = elim info.acpi_rsdp [ none ↦ none | some off ↦ some (phys + off) ];
          })))
