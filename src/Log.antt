-- ===== src/Log.antt =====
-- Levels and targets of kernel/src/log.rs, and the filter of kernel/src/console/log.rs. What the
-- consoles print is left out: a record that passes is handed on with its target.
pub mod Filter
use orin_os.Prelude.{
  ℕ, ◌+◌, Bool, true, false, not, ◌&&◌, ◌||◌, List, [], ◌∷◌, Option, none, some, Outcome, ok,
  checked, ◌>>=◌, ltb, ◌==◌, if◌then◌else◌,
}

pub data Level : Type 0 where
  trace debug info warn error critical panicking : Level

-- The discriminants, by which levels are compared.
unfoldable pub level_number : Level → ℕ
level_number trace = 0
level_number debug = 1
level_number info = 2
level_number warn = 3
level_number error = 4
level_number critical = 5
level_number panicking = 6

pub data Target : Type 0 where
  serial vga both : Target

-- Equality of byte strings.
unfoldable pub same_text : List ℕ → List ℕ → Bool
same_text [] [] = true
same_text [] (y ∷ ys) = false
same_text (x ∷ xs) [] = false
same_text (x ∷ xs) (y ∷ ys) = (x == y) && same_text xs ys

abbrev pub trace_text : List ℕ
trace_text = 116 ∷ 114 ∷ 97 ∷ 99 ∷ 101 ∷ []  -- trace

abbrev pub debug_text : List ℕ
debug_text = 100 ∷ 101 ∷ 98 ∷ 117 ∷ 103 ∷ []  -- debug

abbrev pub info_text : List ℕ
info_text = 105 ∷ 110 ∷ 102 ∷ 111 ∷ []  -- info

abbrev pub warn_text : List ℕ
warn_text = 119 ∷ 97 ∷ 114 ∷ 110 ∷ []  -- warn

abbrev pub error_text : List ℕ
error_text = 101 ∷ 114 ∷ 114 ∷ 111 ∷ 114 ∷ []  -- error

abbrev pub critical_text : List ℕ
critical_text = 99 ∷ 114 ∷ 105 ∷ 116 ∷ 105 ∷ 99 ∷ 97 ∷ 108 ∷ []  -- critical

abbrev pub crit_text : List ℕ
crit_text = 99 ∷ 114 ∷ 105 ∷ 116 ∷ []  -- crit

abbrev pub serial_text : List ℕ
serial_text = 115 ∷ 101 ∷ 114 ∷ 105 ∷ 97 ∷ 108 ∷ []  -- serial

abbrev pub vga_text : List ℕ
vga_text = 118 ∷ 103 ∷ 97 ∷ []  -- vga

abbrev pub both_text : List ℕ
both_text = 98 ∷ 111 ∷ 116 ∷ 104 ∷ []  -- both

-- `Level::parse`
unfoldable pub parse_level : List ℕ → Option Level
parse_level s =
    if same_text s trace_text
    then some trace
    else if same_text s debug_text
    then some debug
    else if same_text s info_text
    then some info
    else if same_text s warn_text
    then some warn
    else if same_text s error_text
    then some error
    else if same_text s critical_text || same_text s crit_text
    then some critical
    else none

-- `Target::parse`
unfoldable pub parse_target : List ℕ → Option Target
parse_target s =
    if same_text s serial_text
    then some serial
    else if same_text s vga_text
    then some vga
    else if same_text s both_text
    then some both
    else none

pub record LogConfig : Type 0 where
  pub level : Level
  pub target : Target
  pub show_location : Bool
  pub emitted : ℕ
  pub filtered : ℕ

unfoldable pub configure : LogConfig → Option Level → Option Target → LogConfig
configure c level target = record c {
  level = elim level [ none ↦ c.level | some l ↦ l ];
  target = elim target [ none ↦ c.target | some t ↦ t ];
}

abbrev pub is_panic : Level → Bool
is_panic l = level_number l == 6

-- `log` up to its output: the configuration behind it, and the target and the location flag with which
-- the record is printed, if it passes.
unfoldable pub log : LogConfig → Level → Outcome (LogConfig × Option (Target × Bool))
log c level =
    if ltb (level_number level) (level_number c.level) && not (is_panic level)
    then (checked (c.filtered + 1) >>= λ n. ok (record c { filtered = n }, none))
    else (checked (c.emitted + 1) >>= λ n.
        ok (record c { emitted = n }, some (c.target, c.show_location)))
