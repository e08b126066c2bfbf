-- ===== src/Tests/Vmm.antt =====
-- Page-table entries: the frame of the screen buffer at 0xB8000, and its address in the kernel half.
use orin_os.Prelude.{ℕ, ◌+◌, ◌≡◌, refl, true, [], some, ok, for_range, if◌then◌else◌, ◌==◌}
use orin_os.Pmm.{new}
use orin_os.Vmm.{indices, is_present, is_wx, entry_addr}
use orin_os.Vmm.Entries.{WritableXorExecutable}
use orin_os.Vmm.Walk.{Vmm, translate, translate_pdpt, translate_pd, in_large, table_at}
use orin_os.Vmm.Audit.{
  count_wx_violations, count_pml4_entry, count_pdpt_entry, count_pd_entry, count_pdpt, count_pd,
}
use orin_os.Vmm.Audit.Violations.{count_wx_violations_sound}

-- Three tables, at pages 1 to 3, that map the second megabyte pair by one large page; its flags are
-- `flags`.
abbrev tables : ℕ → ℕ → ℕ
tables flags a =
    if a == 0x1000
    then 0x2003
    else if a == 0x2000
    then 0x3003
    else if a == 0x3008
    then 0x200000 + flags
    else 0

abbrev machine : ℕ → Vmm
machine flags = record {
  pmm = new;
  mem = tables flags;
  allocated = 0;
  frames = [];
  root = 0x1000;
  nx = true;
}

counted : count_wx_violations true (machine 0x8000000000000083) ≡ ok 0
unfolding count_wx_violations table_at for_range count_pml4_entry count_pdpt_entry count_pd_entry
    count_pdpt count_pd is_present is_wx entry_addr
counted = refl

translated :
    translate true (machine 0x8000000000000083) 0x234567 ≡ ok (some (0x234567, 0x8000000000200083))
unfolding translate table_at translate_pdpt translate_pd in_large is_present entry_addr indices
translated = refl

count_wx_violations_sound_example : WritableXorExecutable 0x8000000000200083
count_wx_violations_sound_example =
    count_wx_violations_sound true (machine 0x8000000000000083) 0x234567 0x234567 0x8000000000200083
      refl counted translated
