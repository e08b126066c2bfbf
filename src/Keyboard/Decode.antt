-- ===== src/Keyboard/Decode.antt =====
-- The decoder of kernel/src/drivers/keyboard.rs: `translate`, from one scancode byte and the state
-- of the driver to at most one key event. The lock around the state is left out, since one function
-- takes it at a time; `tick` is the reading of `pit::ticks_since_boot`.
pub mod Laws
pub mod Total
pub mod Sequences
use orin_os.Prelude.{
  ℕ, ◌+◌, Bool, true, false, not, ◌||◌, Option, none, some, Outcome, ok, out_of_bounds, or_panic,
  ◌>>=◌, checked, get_elem?, bit_and, bit_or, leb, ◌==◌, if◌then◌else◌,
}
use orin_os.Keyboard.Keys.{
  KeyCode, unknown, pause, is_no_key, Modifier, shift, control, alt, modifier, scancode_base,
  lookup_e0, char_for,
}

pub record KeyEvent : Type 0 where
  pub code : KeyCode
  pub pressed : Bool
  pub shift_held : Bool
  pub ctrl_held : Bool
  pub alt_held : Bool
  pub tick : ℕ
  pub ch : Option ℕ

pub data Presence : Type 0 where
  not_probed controller keyboard absent : Presence

pub record State : Type 0 where
  pub presence : Presence
  pub shift_down : Bool
  pub ctrl_down : Bool
  pub alt_down : Bool
  pub extended : Bool
  pub pause_prefix : Bool
  pub events : ℕ
  pub unknown_scancodes : ℕ
  pub command_byte : ℕ

unfoldable pub initial : State
initial = record {
  presence = not_probed;
  shift_down = false;
  ctrl_down = false;
  alt_down = false;
  extended = false;
  pause_prefix = false;
  events = 0;
  unknown_scancodes = 0;
  command_byte = 0;
}

unfoldable pub reset_state_for_test : State → State
reset_state_for_test st = record st {
  shift_down = false;
  ctrl_down = false;
  alt_down = false;
  extended = false;
  pause_prefix = false;
}

-- The event of a key, with the modifiers of the state.
unfoldable pub event : State → ℕ → KeyCode → Bool → Option ℕ → KeyEvent
event st tick code pressed ch = record {
  code = code;
  pressed = pressed;
  shift_held = st.shift_down;
  ctrl_held = st.ctrl_down;
  alt_held = st.alt_down;
  tick = tick;
  ch = ch;
}

-- The match on the key that sets a modifier.
unfoldable pub set_modifier : State → Option Modifier → Bool → State
set_modifier st none down = st
set_modifier st (some shift) down = record st { shift_down = down }
set_modifier st (some control) down = record st { ctrl_down = down }
set_modifier st (some alt) down = record st { alt_down = down }

-- The end of `translate`, for a key that was found.
unfoldable pub deliver : State → ℕ → Bool → KeyCode → Outcome (State × Option KeyEvent)
deliver st tick released code =
    let st1 = set_modifier st (modifier code) (not released) in
    if is_no_key code then ok (st1, none) else (do
      n ← checked (st1.events + 1)
      ok (
        record st1 { events = n },
        some (event st1 tick code (not released) (char_for code st1.shift_down)),
      ))

-- A code behind the prefix E0; the state has `extended` cleared.
unfoldable pub deliver_extended : State → ℕ → Bool → ℕ → Outcome (State × Option KeyEvent)
deliver_extended st tick released idx =
    if (idx == 0x2A) || (idx == 0xAA)
    then ok (st, none)
    else (let code = lookup_e0 idx in
        if is_no_key code
        then (do
          n ← checked (st.unknown_scancodes + 1)
          ok (
            record st { unknown_scancodes = n },
            some (event st tick (unknown (bit_or idx 0x80)) (not released) none),
          ))
        else deliver st tick released code)

-- A byte that is no prefix and does not follow E1.
unfoldable pub translate_code : State → ℕ → ℕ → Outcome (State × Option KeyEvent)
translate_code st tick byte =
    let released = not (bit_and byte 0x80 == 0) in
    let idx = bit_and byte 0x7F in
    if leb 0x60 idx
    then (do n ← checked (st.unknown_scancodes + 1); ok (record st { unknown_scancodes = n }, none))
    else if st.extended
    then deliver_extended (record st { extended = false }) tick released idx
    else (or_panic (get_elem? scancode_base idx) out_of_bounds >>= deliver st tick released)

unfoldable pub translate : State → ℕ → ℕ → Outcome (State × Option KeyEvent)
translate st tick byte =
    if byte == 0xE0
    then ok (record st { extended = true }, none)
    else if byte == 0xE1
    then ok (record st { pause_prefix = true }, none)
    else if st.pause_prefix
    then ok (record st { pause_prefix = false }, some (event st tick pause true none))
    else translate_code st tick byte
