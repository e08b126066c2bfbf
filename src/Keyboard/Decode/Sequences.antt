-- ===== src/Keyboard/Decode/Sequences.antt =====
-- Byte sequences of keys: press and release, PrintScreen and Pause.
use orin_os.Prelude.{
  arith, ℕ, ◌+◌, ◌^◌, ◌<◌, ◌≡◌, refl, true, false, List, [], ◌∷◌, none, some, Outcome, ok, ◌>>=◌,
  checked-ok,
}
use orin_os.Keyboard.Keys.{
  pause, num_lock, control_right, scancode_base, print_screen, modifier, lookup_e0, lookup_in,
  scancode_e0_map, char_for, chars_of,
}
use orin_os.Keyboard.Decode.{
  KeyEvent, State, event, set_modifier, deliver, deliver_extended, translate_code, translate,
}

-- `translate` on bytes one after the other, at the times of `clock`, with the events it gives.
unfoldable pub translate_all : State → (ℕ → ℕ) → List ℕ → Outcome (State × List KeyEvent)
translate_all st clock [] = ok (st, [])
translate_all st clock (byte ∷ bytes) = do
  (st1, ev) ← translate st (clock 0) byte
  (st2, evs) ← translate_all st1 (λ n. clock (n + 1)) bytes
  ok (st2, elim ev [ none ↦ evs | some e ↦ e ∷ evs ])

-- A state in which no prefix is pending.
abbrev pub between_keys : State → State
between_keys st = record st { extended = false; pause_prefix = false }

-- From any state without a pending prefix, the bytes that PrintScreen sends on press, E0 2A E0 37,
-- give one event, PrintScreen pressed, and leave every modifier as it was.
pub print_screen_keeps_shift :
    (st : State) (clock : ℕ → ℕ)
    → st.events + 1 < 2 ^ 64
    → translate_all (between_keys st) clock (0xE0 ∷ 0x2A ∷ 0xE0 ∷ 0x37 ∷ [])
      ≡ ok (
        record (between_keys st) { events = st.events + 1 },
        event st (clock 3) print_screen true none ∷ [],
      )
unfolding translate_all translate translate_code deliver deliver_extended set_modifier modifier
    lookup_e0 lookup_in scancode_e0_map char_for chars_of event
print_screen_keeps_shift st clock room = rw (checked-ok (st.events + 1) room) refl

-- Likewise on release, E0 B7 E0 AA: one event, PrintScreen released, and no modifier changes.
pub print_screen_release_keeps_shift :
    (st : State) (clock : ℕ → ℕ)
    → st.events + 1 < 2 ^ 64
    → translate_all (between_keys st) clock (0xE0 ∷ 0xB7 ∷ 0xE0 ∷ 0xAA ∷ [])
      ≡ ok (
        record (between_keys st) { events = st.events + 1 },
        event st (clock 1) print_screen false none ∷ [],
      )
unfolding translate_all translate translate_code deliver deliver_extended set_modifier modifier
    lookup_e0 lookup_in scancode_e0_map char_for chars_of event
print_screen_release_keeps_shift st clock room = rw (checked-ok (st.events + 1) room) refl

-- From any state without a pending prefix, the bytes that Pause sends, 0xE1 0x1D 0x45 0xE1 0x9D 0xC5,
-- give four events: Pause, NumLock pressed, Pause again and NumLock released.
pub pause_gives_four_events :
    (st : State) (clock : ℕ → ℕ)
    → st.events + 2 < 2 ^ 64
    → translate_all (between_keys st) clock (0xE1 ∷ 0x1D ∷ 0x45 ∷ 0xE1 ∷ 0x9D ∷ 0xC5 ∷ [])
      ≡ ok (
        record (between_keys st) { events = st.events + 1 + 1 },
        event st (clock 1) pause true none
            ∷ event st (clock 2) num_lock true none
            ∷ event st (clock 4) pause true none
            ∷ event st (clock 5) num_lock false none
            ∷ [],
      )
unfolding translate_all translate translate_code deliver deliver_extended set_modifier modifier
    scancode_base char_for chars_of event
pause_gives_four_events st clock room =
    rw (checked-ok (st.events + 1) (omega arith))
      (rw (checked-ok (st.events + 1 + 1) (omega arith)) refl)

-- From any state without a pending prefix, a prefix E0 before a code that the tables do not cover is
-- still pending behind it: the left Control key that is pressed next, 1D, is taken for the right one.
pub prefix_outlives_unknown :
    (st : State) (clock : ℕ → ℕ)
    → st.events + 1 < 2 ^ 64
    → st.unknown_scancodes + 1 < 2 ^ 64
    → translate_all (between_keys st) clock (0xE0 ∷ 0x60 ∷ 0x1D ∷ [])
      ≡ ok (
        record (between_keys st) {
          ctrl_down = true;
          events = st.events + 1;
          unknown_scancodes = st.unknown_scancodes + 1;
        },
        event (record st { ctrl_down = true }) (clock 2) control_right true none ∷ [],
      )
unfolding translate_all translate translate_code deliver deliver_extended set_modifier modifier
    lookup_e0 lookup_in scancode_e0_map char_for chars_of event
prefix_outlives_unknown st clock room room_unknown =
    rw (checked-ok (st.unknown_scancodes + 1) room_unknown)
      (rw (checked-ok (st.events + 1) room) refl)
