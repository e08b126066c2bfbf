-- ===== src/Multiboot/Params.antt =====
-- The parameters of the command line in kernel/src/multiboot/info.rs. A str is its bytes.
use orin_os.Prelude.{
  ℕ, ◌+◌, ◌-◌, ◌*◌, ◌^◌, Bool, true, false, not, ◌&&◌, ◌||◌, List, [], ◌∷◌, ◌++◌, Option, none,
  some, Outcome, ok, ◌>>=◌, ltb, leb, ◌==◌, if◌then◌else◌,
}
use orin_os.Log.{Level, Target, parse_level, parse_target, same_text}
use orin_os.Multiboot.Containers.{Str, new_str, push_str}

pub data PanicAction : Type 0 where
  halt reboot triple : PanicAction

pub record BootParams : Type 0 where
  pub log : Option Level
  pub console : Option Target
  pub selftest : Bool
  pub panic_action : PanicAction
  pub single : Bool
  pub mem_limit_mib : Option ℕ
  pub nx : Bool
  pub unknown : Str

-- `BootParams::default()`
unfoldable pub default_params : BootParams
default_params = record {
  log = none;
  console = none;
  selftest = true;
  panic_action = halt;
  single = false;
  mem_limit_mib = none;
  nx = true;
  unknown = new_str;
}

abbrev pub prefix_text : List ℕ
prefix_text = 111 ∷ 114 ∷ 105 ∷ 110 ∷ 46 ∷ []  -- orin.

abbrev pub log_text : List ℕ
log_text = 108 ∷ 111 ∷ 103 ∷ []  -- log

abbrev pub console_text : List ℕ
console_text = 99 ∷ 111 ∷ 110 ∷ 115 ∷ 111 ∷ 108 ∷ 101 ∷ []  -- console

abbrev pub selftest_text : List ℕ
selftest_text = 115 ∷ 101 ∷ 108 ∷ 102 ∷ 116 ∷ 101 ∷ 115 ∷ 116 ∷ []  -- selftest

abbrev pub panic_text : List ℕ
panic_text = 112 ∷ 97 ∷ 110 ∷ 105 ∷ 99 ∷ []  -- panic

abbrev pub single_text : List ℕ
single_text = 115 ∷ 105 ∷ 110 ∷ 103 ∷ 108 ∷ 101 ∷ []  -- single

abbrev pub memlimit_text : List ℕ
memlimit_text = 109 ∷ 101 ∷ 109 ∷ 108 ∷ 105 ∷ 109 ∷ 105 ∷ 116 ∷ []  -- memlimit

abbrev pub nx_text : List ℕ
nx_text = 110 ∷ 120 ∷ []  -- nx

abbrev pub off_text : List ℕ
off_text = 111 ∷ 102 ∷ 102 ∷ []  -- off

abbrev pub reboot_text : List ℕ
reboot_text = 114 ∷ 101 ∷ 98 ∷ 111 ∷ 111 ∷ 116 ∷ []  -- reboot

abbrev pub triple_text : List ℕ
triple_text = 116 ∷ 114 ∷ 105 ∷ 112 ∷ 108 ∷ 101 ∷ []  -- triple

-- `split_ascii_whitespace`: space, tab, line feed, form feed and carriage return end a word.
unfoldable pub is_space : ℕ → Bool
is_space b = (b == 32) || (b == 9) || (b == 10) || (b == 12) || (b == 13)

unfoldable pub close : List ℕ → List (List ℕ)
close [] = []
close (b ∷ bs) = (b ∷ bs) ∷ []

-- From inside the word `cur` on.
unfoldable pub words_from : List ℕ → List ℕ → List (List ℕ)
words_from cur [] = close cur
words_from cur (b ∷ bs) = elim (is_space b) [
  | true ↦ close cur ++ words_from [] bs
  | false ↦ words_from (cur ++ b ∷ []) bs
]

-- `strip_prefix`
unfoldable pub strip_prefix : List ℕ → List ℕ → Option (List ℕ)
strip_prefix [] s = some s
strip_prefix (p ∷ ps) [] = none
strip_prefix (p ∷ ps) (b ∷ bs) = elim (p == b) [ true ↦ strip_prefix ps bs | false ↦ none ]

-- `split_once('=')`, or the whole with an empty value.
unfoldable pub split_value : List ℕ → List ℕ × List ℕ
split_value [] = ([], [])
split_value (b ∷ bs) = elim (b == 61) [
  | true ↦ ([], bs)
  | false ↦ let (key, val) = split_value bs in (b ∷ key, val)
]

-- `parse::<u64>()`: an optional plus sign and digits, below 2^64.
unfoldable pub parse_digits : ℕ → List ℕ → Option ℕ
parse_digits acc [] = some acc
parse_digits acc (b ∷ bs) = elim (leb 48 b && leb b 57 && ltb (acc * 10 + (b - 48)) (2 ^ 64)) [
  | true ↦ parse_digits (acc * 10 + (b - 48)) bs
  | false ↦ none
]

unfoldable pub parse_number : List ℕ → Option ℕ
parse_number [] = none
parse_number (b ∷ []) = if b == 43 then none else parse_digits 0 (b ∷ [])
parse_number (b ∷ c ∷ bs) = if b == 43 then parse_digits 0 (c ∷ bs) else parse_digits 0 (b ∷ c ∷ bs)

unfoldable pub append_unknown : Str → List ℕ → Outcome Str
append_unknown buf tok =
    (if not (buf.len == 0) then push_str buf (32 ∷ []) else ok buf) >>= λ b. push_str b tok

unfoldable pub with_unknown : BootParams → List ℕ → Outcome BootParams
with_unknown p tok = append_unknown p.unknown tok >>= λ u. ok (record p { unknown = u })

unfoldable pub panic_action_of : List ℕ → PanicAction
panic_action_of val =
    if same_text val reboot_text then reboot else if same_text val triple_text then triple else halt

-- The match on the key.
unfoldable pub take_param : BootParams → List ℕ → List ℕ → List ℕ → Outcome BootParams
take_param p tok key val =
    if same_text key log_text
    then (elim (parse_level val) [
      | some l ↦ ok (record p { log = some l })
      | none ↦ with_unknown p tok
    ])
    else if same_text key console_text
    then (elim (parse_target val) [
      | some t ↦ ok (record p { console = some t })
      | none ↦ with_unknown p tok
    ])
    else if same_text key selftest_text
    then ok (record p { selftest = not (same_text val off_text) })
    else if same_text key panic_text
    then ok (record p { panic_action = panic_action_of val })
    else if same_text key single_text
    then ok (record p { single = true })
    else if same_text key memlimit_text
    then (elim (parse_number val) [
      | some v ↦ ok (record p { mem_limit_mib = some v })
      | none ↦ with_unknown p tok
    ])
    else if same_text key nx_text
    then ok (record p { nx = not (same_text val off_text) })
    else with_unknown p tok

-- The body of the loop, and the loop.
unfoldable pub take_word : BootParams → List ℕ → Outcome BootParams
take_word p tok = elim (strip_prefix prefix_text tok) [
  | none ↦ ok p
  | some rest ↦ take_param p tok (split_value rest).0 (split_value rest).1
]

unfoldable pub take_words : BootParams → List (List ℕ) → Outcome BootParams
take_words p [] = ok p
take_words p (tok ∷ toks) = take_word p tok >>= λ q. take_words q toks

unfoldable pub parse_params : List ℕ → Outcome BootParams
parse_params cmdline = take_words default_params (words_from [] cmdline)
