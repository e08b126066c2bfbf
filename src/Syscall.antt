-- ===== src/Syscall.antt =====
-- The call interface that kernel/src/syscall/mod.rs reserves: the errors with their negated codes
-- in rax, the one answer of dispatch, and the value of IA32_STAR.
pub mod Selectors
use orin_os.Prelude.{ℕ, ◌+◌, ◌-◌, ◌*◌, ◌%◌, ◌^◌, bit_and, bit_or, List, ◌⊎◌, inr}

pub data Errno : Type 0 where
  no_error perm no_ent io bad_f again no_mem access busy exist no_dev not_dir is_dir inval : Errno
  file_too_big no_space pipe cap_missing signature_bad call_unknown nosys : Errno

-- `self as i32`
unfoldable pub errno_code : Errno → ℕ
errno_code no_error = 0
errno_code perm = 1
errno_code no_ent = 2
errno_code io = 5
errno_code bad_f = 9
errno_code again = 11
errno_code no_mem = 12
errno_code access = 13
errno_code busy = 16
errno_code exist = 17
errno_code no_dev = 19
errno_code not_dir = 20
errno_code is_dir = 21
errno_code inval = 22
errno_code file_too_big = 27
errno_code no_space = 28
errno_code pipe = 32
errno_code cap_missing = 4000
errno_code signature_bad = 4001
errno_code call_unknown = 4002
errno_code nosys = 4003

-- The i64 as the 64 bits that rax holds.
unfoldable pub as_negated : Errno → ℕ
as_negated e = (2 ^ 64 - errno_code e) % 2 ^ 64

-- The value of a call, or its error.
unfoldable pub dispatch : ℕ → List ℕ → ℕ ⊎ Errno
dispatch nr args = inr nosys

unfoldable pub star_value : ℕ → ℕ → ℕ
star_value kernel_cs user_cs_after_sysret =
    let sysret_base = (user_cs_after_sysret + 2 ^ 16 - 16) % 2 ^ 16 in
    bit_or (bit_and sysret_base 0xFFFF * 2 ^ 48 % 2 ^ 64)
      (bit_and kernel_cs 0xFFFF * 2 ^ 32 % 2 ^ 64)
