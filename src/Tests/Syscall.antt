-- ===== src/Tests/Syscall.antt =====
-- The selectors of the kernel's descriptor table, out of the IA32_STAR made for them.
use orin_os.Prelude.{ℕ, ◌≡◌, refl, arith}
use orin_os.Syscall.{star_value}
use orin_os.Syscall.Selectors.{syscall_cs, sysret_cs, sysret_ss, star_value-selects}

abbrev star : ℕ
star = star_value 0x08 0x23

for_kernel : star ≡ 0x0013000800000000
unfolding star_value
for_kernel = refl

star_value-selects_example :
    (syscall_cs star ≡ 0x08) × (sysret_cs star ≡ 0x23) × (sysret_ss star ≡ 0x1B)
star_value-selects_example = star_value-selects 0x08 0x23 (omega arith) (omega arith) refl refl
