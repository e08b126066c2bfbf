-- ===== src/Tests/Cpu.antt =====
-- A processor under the emulator QEMU: its names, its leaves and a generator that fails.
use orin_os.Prelude.{ℕ, ◌^◌, ◌<◌, ◌≡◌, refl, Bool, true, false, arith, ◌==◌, if◌then◌else◌}
use orin_os.Prelude.Loops.{Gives}
use orin_os.Cpu.{Cpuid, CpuidResult, no_result, detect}
use orin_os.Cpu.Leaves.{SameLeaves, detect-SameLeaves}
use orin_os.Cpu.Detected.{Is32, Detected, detect-Detected}

abbrev basic : CpuidResult
basic = record { eax = 0x16; ebx = 0x756E6547; ecx = 0x6C65746E; edx = 0x49656E69 }

abbrev signature : CpuidResult
signature = record { eax = 0x306C3; ebx = 0; ecx = 0xC0000000; edx = 0x4000210 }

abbrev clock : CpuidResult
clock = record { eax = 2; ebx = 176; ecx = 24000000; edx = 0 }

abbrev emulator : CpuidResult
emulator = record { eax = 0x40000001; ebx = 0x54474354; ecx = 0x43544743; edx = 0x47435447 }

abbrev qemu : Cpuid
qemu leaf subleaf =
    if leaf == 0
    then basic
    else if leaf == 1
    then signature
    else if leaf == 0x15
    then clock
    else if leaf == 0x40000000
    then emulator
    else no_result

-- The same, with a result for a leaf above the highest one.
abbrev qemu_plus : Cpuid
qemu_plus leaf subleaf = if leaf == 0x17 then clock else qemu leaf subleaf

choose : (b : Bool) (r s : CpuidResult) → Is32 r → Is32 s → Is32 (if b then r else s)
choose true r s h k = h
choose false r s h k = k

in_32 :
    (a b c d : ℕ)
    → a < 2 ^ 32
    → b < 2 ^ 32
    → c < 2 ^ 32
    → d < 2 ^ 32
    → Is32 (record { eax = a; ebx = b; ecx = c; edx = d })
in_32 a b c d h i j k = record { eax_in = h; ebx_in = i; ecx_in = j; edx_in = k }

qemu-Is32 : (leaf : ℕ) → Is32 (qemu leaf 0)
qemu-Is32 leaf =
    choose (leaf == 0) basic
      (if leaf == 1
        then signature
        else if leaf == 0x15
        then clock
        else if leaf == 0x40000000
        then emulator
        else no_result)
      (in_32 0x16 0x756E6547 0x6C65746E 0x49656E69 (omega arith) (omega arith) (omega arith)
        (omega arith))
      (choose (leaf == 1) signature
        (if leaf == 0x15 then clock else if leaf == 0x40000000 then emulator else no_result)
        (in_32 0x306C3 0 0xC0000000 0x4000210 (omega arith) (omega arith) (omega arith)
          (omega arith))
        (choose (leaf == 0x15) clock (if leaf == 0x40000000 then emulator else no_result)
          (in_32 2 176 24000000 0 (omega arith) (omega arith) (omega arith) (omega arith))
          (choose (leaf == 0x40000000) emulator no_result
            (in_32 0x40000001 0x54474354 0x43544743 0x47435447 (omega arith) (omega arith)
              (omega arith) (omega arith))
            (in_32 0 0 0 0 (omega arith) (omega arith) (omega arith) (omega arith)))))

detect-Detected_example : Gives (Detected qemu) (detect qemu)
detect-Detected_example = detect-Detected qemu qemu-Is32

other_leaf : (l : ℕ) → (l == 0x17) ≡ false → qemu_plus l 0 ≡ qemu l 0
other_leaf l e = rw e refl

plus-SameLeaves : SameLeaves qemu qemu_plus
plus-SameLeaves = record {
  basic = refl;
  extended = refl;
  basic_leaf = λ l h. other_leaf l (ground arith);
  extended_leaf = λ l lo hi. other_leaf l (ground arith);
  hypervisor = λ e. refl;
}

detect-SameLeaves_example : detect qemu_plus ≡ detect qemu
detect-SameLeaves_example = detect-SameLeaves qemu qemu_plus plus-SameLeaves
