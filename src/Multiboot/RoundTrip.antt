-- ===== src/Multiboot/RoundTrip.antt =====
-- A memory map that is written out as a tag's body is read back by `parse_mmap`.
use orin_os.Prelude.{
  ℕ, zero, suc, ◌+◌, ◌≤◌, ◌<◌, ◌≡◌, refl, sym, ap, ap₂, ◌∙◌, List, [], ◌∷◌, ◌++◌, some, arith,
  length, length-append, set, take-set, length-set, le→leb, lt→leb,
}
use orin_os.Prelude.Text.{le_bytes, length-le_bytes}
use mathlib.Core.List.{append_assoc, append-nil}
use orin_os.Multiboot.{parsed, le_at, u32_at}
use orin_os.Multiboot.Containers.{Vec, push, as_slice}
use orin_os.Multiboot.Tags.{BootInfo, read_entries, parse_mmap}
use orin_os.Multiboot.Bounds.{IsVec}
use orin_os.Pmm.{MmapEntry}
use orin_os.Multiboot.Encode.{
  encode_entry, encode_entries, encode_mmap, AreEntries, le_at-le_bytes, length-encode_entry,
  read_entry-encode_entry,
}

push-as_slice :
    (v : Vec MmapEntry) (e : MmapEntry)
    → IsVec v
    → v.count < 64
    → (v1 : Vec MmapEntry) × (push v e ≡ some v1)
      × (IsVec v1 × (v1.count ≡ v.count + 1) × (as_slice v1 ≡ as_slice v ++ e ∷ []))
unfolding push as_slice
push-as_slice v e h room = (
  record { items = set v.items v.count e; count = v.count + 1 },
  rw (lt→leb 64 v.count room) refl,
  (
    record { size = length-set v.items v.count e ∙ h.size; fits = omega arith },
    refl,
    (let s : v.count + 1 ≡ suc v.count = omega arith in
        rw s (take-set v.items v.count e (omega (arith, h.size)))),
  ),
)

-- What `read_entries` makes of entries that are written behind `pre`.
Reads : List MmapEntry → List ℕ → ℕ → Vec MmapEntry → Type 0
Reads es pre fuel v =
    (v1 : Vec MmapEntry) × (read_entries fuel (pre ++ encode_entries es) 24 (length pre) v
      ≡ parsed v1)
    × (IsVec v1 × (v1.count ≡ v.count + length es) × (as_slice v1 ≡ as_slice v ++ es))

read_entries-encode_entries :
    (es : List MmapEntry) (pre : List ℕ) (fuel : ℕ) (v : Vec MmapEntry)
    → AreEntries es
    → IsVec v
    → v.count + length es ≤ 64
    → length es < fuel
    → Reads es pre fuel v
unfolding read_entries Reads encode_entries
read_entries-encode_entries es pre zero v ok_entries h room enough = absurd (omega arith)
read_entries-encode_entries [] pre (suc fuel) v ok_entries h room enough = (
  v,
  rw
      (
        lt→leb (length pre + 24) (length (pre ++ []))
            (omega (arith, ap (λ (t : List ℕ). length t) (append-nil pre))),
        read_entries,
      )
      refl,
  (h, omega arith, sym (append-nil (as_slice v))),
)
read_entries-encode_entries (e ∷ es) pre (suc fuel) v (ok_entry, ok_entries) h room enough =
    let p = push-as_slice v e h (omega arith) in
    let r =
      read_entries-encode_entries es (pre ++ encode_entry e) fuel (p.0) ok_entries p.2.0
        (omega (arith, p.2.1)) (omega arith) in
    (
      r.0,
      rw
          (
            le→leb (length pre + 24) (length (pre ++ (encode_entry e ++ encode_entries es))) (
                omega (
                  arith,
                  length-append {0} pre (encode_entry e ++ encode_entries es),
                  length-append {0} (encode_entry e) (encode_entries es),
                  length-encode_entry e,
                )),
            read_entry-encode_entry pre (encode_entries es) e ok_entry,
            p.1,
            read_entries,
          )
          (rw (← append_assoc pre (encode_entry e) (encode_entries es), step) r.1),
      (
        r.2.0,
        omega (arith, r.2.1, p.2.1),
        (r.2.2
            ∙ ap (λ (t : List MmapEntry). t ++ es) p.2.2
            ∙ append_assoc (as_slice v) (e ∷ []) es),
      ),
    )
  where
    step : length pre + 24 ≡ length (pre ++ encode_entry e)
    step = omega (arith, length-append {0} pre (encode_entry e), length-encode_entry e)

length-encode_entries : (es : List MmapEntry) → length es ≤ length (encode_entries es)
unfolding encode_entries
length-encode_entries [] = omega arith
length-encode_entries (e ∷ es) = omega (
  arith,
  length-append {0} (encode_entry e) (encode_entries es),
  length-encode_entry e,
  length-encode_entries es,
)

-- `parse_mmap` reads a written memory map back: entries whose fields are in their machine types, as many
-- as the vector has places left, are appended in their order, and nothing else changes.
pub parse_mmap-encode_mmap :
    (es : List MmapEntry) (info : BootInfo)
    → AreEntries es
    → IsVec info.mmap
    → info.mmap.count + length es ≤ 64
    → (v : Vec MmapEntry) × (parse_mmap (encode_mmap es) info ≡ parsed (record info { mmap = v }))
      × (as_slice v ≡ as_slice info.mmap ++ es)
unfolding parse_mmap encode_mmap Reads u32_at
parse_mmap-encode_mmap es info ok_entries h room =
    let r = read_entries-encode_entries es front (length body + 1) info.mmap ok_entries h room (
      omega (
        arith,
        length-encode_entries es,
        length-append {0} (le_bytes 4 24) (le_bytes 4 0 ++ encode_entries es),
        length-append {0} (le_bytes 4 0) (encode_entries es),
      )) in
    (r.0, rw (size_read, version_read, moved (r.0) r.1) refl, r.2.2)
  where
    front : List ℕ
    front = le_bytes 4 24 ++ le_bytes 4 0

    body : List ℕ
    body = le_bytes 4 24 ++ (le_bytes 4 0 ++ encode_entries es)

    size_read : le_at body 0 4 ≡ some 24
    size_read = le_at-le_bytes [] (le_bytes 4 0 ++ encode_entries es) 4 24 0 refl (omega arith)

    version_read : le_at body 4 4 ≡ some 0
    version_read =
        le_at-le_bytes (le_bytes 4 24) (encode_entries es) 4 0 4
          (omega (arith, length-le_bytes 4 24)) (omega arith)

    moved :
        (v1 : Vec MmapEntry)
        → read_entries (length body + 1) (front ++ encode_entries es) 24 (length front) info.mmap
          ≡ parsed v1
        → read_entries (length body + 1) body 24 8 info.mmap ≡ parsed v1
    moved v1 q =
        ap₂ (λ (b : List ℕ) (o : ℕ). read_entries (length body + 1) b 24 o info.mmap)
          (sym (append_assoc (le_bytes 4 24) (le_bytes 4 0) (encode_entries es)))
          (omega (
            arith,
            length-append {0} (le_bytes 4 24) (le_bytes 4 0),
            length-le_bytes 4 24,
            length-le_bytes 4 0,
          ))
        ∙ q
