-- ===== src/Keyboard/Decode/Laws.antt =====
-- What every return of `translate` has in common, and the delivery of a key that was found.
use orin_os.Prelude.{
  ℕ, ◌+◌, ◌^◌, ◌<◌, ◌≤◌, ◌≡◌, refl, sym, ap, Bool, true, false, not, Option, none, some, Outcome,
  ok, checked-ok, arith, some-ne-none,
}
use orin_os.Keyboard.Keys.{
  KeyCode, no_key, is_no_key, Modifier, shift, control, alt, modifier, char_for,
}
use orin_os.Keyboard.Decode.{KeyEvent, State, event, set_modifier, deliver}

pub record IsEventOf (st : State) (tick : ℕ) (e : KeyEvent) : Type 0 where
  pub same_shift : e.shift_held ≡ st.shift_down
  pub same_ctrl : e.ctrl_held ≡ st.ctrl_down
  pub same_alt : e.alt_held ≡ st.alt_down
  pub stamped : e.tick ≡ tick

pub record SameModifiers (st st1 : State) : Type 0 where
  pub same_shift : st1.shift_down ≡ st.shift_down
  pub same_ctrl : st1.ctrl_down ≡ st.ctrl_down
  pub same_alt : st1.alt_down ≡ st.alt_down

-- A byte leaves the controller's fields alone and counts at most once. An event carries the
-- modifiers of the state after it; a byte without an event changes no modifier.
pub record Decoded (st : State) (tick : ℕ) (st1 : State) (ev : Option KeyEvent) : Type 0 where
  pub same_presence : st1.presence ≡ st.presence
  pub same_command : st1.command_byte ≡ st.command_byte
  pub counted : st1.events + st1.unknown_scancodes ≤ st.events + st.unknown_scancodes + 1
  pub reported : (e : KeyEvent) → ev ≡ some e → IsEventOf st1 tick e
  pub silent : ev ≡ none → SameModifiers st st1

unfoldable pub Translates : State → ℕ → Outcome (State × Option KeyEvent) → Type 0
Translates st tick run =
    (st1 : State) × (ev : Option KeyEvent) × (run ≡ ok (st1, ev)) × Decoded st tick st1 ev

pub same : (st : State) → SameModifiers st st
same st = record { same_shift = refl; same_ctrl = refl; same_alt = refl }

some-injective : {a b : KeyEvent} → some a ≡ some b → a ≡ b
some-injective h = cc

pub event-IsEventOf :
    (st : State) (tick : ℕ) (code : KeyCode) (pressed : Bool) (ch : Option ℕ) (e : KeyEvent)
    → some (event st tick code pressed ch) ≡ some e
    → IsEventOf st tick e
unfolding event
event-IsEventOf st tick code pressed ch e h =
    let back = some-injective h in
    record {
      same_shift = sym (ap (λ (k : KeyEvent). k.shift_held) back);
      same_ctrl = sym (ap (λ (k : KeyEvent). k.ctrl_held) back);
      same_alt = sym (ap (λ (k : KeyEvent). k.alt_held) back);
      stamped = sym (ap (λ (k : KeyEvent). k.tick) back);
    }

no_key-modifier : (code : KeyCode) → is_no_key code ≡ true → modifier code ≡ none
unfolding modifier
no_key-modifier no_key h = refl
no_key-modifier _ h = absurd cc

-- A modifier key changes nothing but the modifiers.
record OnlyModifiers (st st1 : State) : Type 0 where
  same_presence : st1.presence ≡ st.presence
  same_command : st1.command_byte ≡ st.command_byte
  same_events : st1.events ≡ st.events
  same_unknown : st1.unknown_scancodes ≡ st.unknown_scancodes

set_modifier-OnlyModifiers :
    (st : State) (m : Option Modifier) (down : Bool) → OnlyModifiers st (set_modifier st m down)
unfolding set_modifier
set_modifier-OnlyModifiers st none down = record {
  same_presence = refl;
  same_command = refl;
  same_events = refl;
  same_unknown = refl;
}
set_modifier-OnlyModifiers st (some shift) down = record {
  same_presence = refl;
  same_command = refl;
  same_events = refl;
  same_unknown = refl;
}
set_modifier-OnlyModifiers st (some control) down = record {
  same_presence = refl;
  same_command = refl;
  same_events = refl;
  same_unknown = refl;
}
set_modifier-OnlyModifiers st (some alt) down = record {
  same_presence = refl;
  same_command = refl;
  same_events = refl;
  same_unknown = refl;
}

pub deliver-Translates :
    (st : State) (tick : ℕ) (released : Bool) (code : KeyCode)
    → st.events + 1 < 2 ^ 64
    → Translates st tick (deliver st tick released code)
unfolding deliver Translates
deliver-Translates st tick released code room = by_key (is_no_key code) refl
  where
    st1 : State
    st1 = set_modifier st (modifier code) (not released)

    only : OnlyModifiers st st1
    only = set_modifier-OnlyModifiers st (modifier code) (not released)

    by_key : (b : Bool) → is_no_key code ≡ b → Translates st tick (deliver st tick released code)
    by_key true h = (
      st1,
      none,
      rw h refl,
      record {
        same_presence = only.same_presence;
        same_command = only.same_command;
        counted = omega (arith, only.same_events, only.same_unknown);
        reported = λ e q. absurd (some-ne-none (sym q));
        silent = λ _. unfold set_modifier in rw (no_key-modifier code h) (same st);
      },
    )
    by_key false h = (
      record st1 { events = st1.events + 1 },
      some (event st1 tick code (not released) (char_for code st1.shift_down)),
      (rw h (rw (checked-ok (st1.events + 1) (omega (arith, only.same_events))) refl)),
      record {
        same_presence = only.same_presence;
        same_command = only.same_command;
        counted = omega (arith, only.same_events, only.same_unknown);
        reported = λ e q.
            let r =
              event-IsEventOf st1 tick code (not released) (char_for code st1.shift_down) e q in
            record {
              same_shift = r.same_shift;
              same_ctrl = r.same_ctrl;
              same_alt = r.same_alt;
              stamped = r.stamped;
            };
        silent = λ q. absurd (some-ne-none q);
      },
    )
