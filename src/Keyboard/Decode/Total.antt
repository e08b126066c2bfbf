-- ===== src/Keyboard/Decode/Total.antt =====
-- `translate` returns on every byte.
use orin_os.Prelude.{
  ℕ, ◌+◌, ◌^◌, ◌<◌, ◌≡◌, refl, sym, Bool, true, false, not, ◌||◌, Option, none, some, Outcome, ok,
  or_panic, out_of_bounds, ◌>>=◌, checked-ok, arith, bit_and, bit_or, leb, ◌==◌, if◌then◌else◌,
  get_elem?, get_elem?-eq-get_or, get_or, length, some-ne-none,
}
use orin_os.Keyboard.Keys.{no_key, unknown, pause, is_no_key, scancode_base, lookup_e0}
use orin_os.Keyboard.Decode.{
  KeyEvent, State, event, deliver, deliver_extended, translate_code, translate,
}
use orin_os.Keyboard.Decode.Laws.{
  IsEventOf, Decoded, Translates, same, event-IsEventOf, deliver-Translates,
}

-- `extended` is no part of what a `Decoded` compares.
widen :
    (st : State) (tick : ℕ) (run : Outcome (State × Option KeyEvent))
    → Translates (record st { extended = false }) tick run
    → Translates st tick run
unfolding Translates
widen st tick run h = (
  h.0,
  h.1,
  h.2,
  record {
    same_presence = h.3.same_presence;
    same_command = h.3.same_command;
    counted = h.3.counted;
    reported = h.3.reported;
    silent = λ q.
        let m = h.3.silent q in
        record { same_shift = m.same_shift; same_ctrl = m.same_ctrl; same_alt = m.same_alt };
  },
)

-- A state that counted an unknown code, with an event or without.
counted-Decoded :
    (st : State) (tick : ℕ) (ev : Option KeyEvent)
    → ((e : KeyEvent) → ev ≡ some e → IsEventOf st tick e)
    → Decoded st tick (record st { unknown_scancodes = st.unknown_scancodes + 1 }) ev
counted-Decoded st tick ev h = record {
  same_presence = refl;
  same_command = refl;
  counted = omega arith;
  reported = λ e q.
      let r = h e q in
      record {
        same_shift = r.same_shift;
        same_ctrl = r.same_ctrl;
        same_alt = r.same_alt;
        stamped = r.stamped;
      };
  silent = λ _. record { same_shift = refl; same_ctrl = refl; same_alt = refl };
}

deliver_extended-Translates :
    (st : State) (tick : ℕ) (released : Bool) (idx : ℕ)
    → st.events + 1 < 2 ^ 64
    → st.unknown_scancodes + 1 < 2 ^ 64
    → Translates st tick (deliver_extended st tick released idx)
unfolding deliver_extended Translates
deliver_extended-Translates st tick released idx room room_unknown =
    swallowed ((idx == 0x2A) || (idx == 0xAA)) refl
  where
    found :
        (b : Bool)
        → ((idx == 0x2A) || (idx == 0xAA)) ≡ false
        → is_no_key (lookup_e0 idx) ≡ b
        → Translates st tick (deliver_extended st tick released idx)
    found true g h = (
      record st { unknown_scancodes = st.unknown_scancodes + 1 },
      some (event st tick (unknown (bit_or idx 0x80)) (not released) none),
      rw g (rw h (rw (checked-ok (st.unknown_scancodes + 1) room_unknown) refl)),
      counted-Decoded st tick (some (event st tick (unknown (bit_or idx 0x80)) (not released) none))
          (event-IsEventOf st tick (unknown (bit_or idx 0x80)) (not released) none),
    )
    found false g h = rw g (rw h (deliver-Translates st tick released (lookup_e0 idx) room))

    swallowed :
        (b : Bool)
        → ((idx == 0x2A) || (idx == 0xAA)) ≡ b
        → Translates st tick (deliver_extended st tick released idx)
    swallowed true h = (
      st,
      none,
      rw h refl,
      record {
        same_presence = refl;
        same_command = refl;
        counted = omega arith;
        reported = λ e q. absurd (some-ne-none (sym q));
        silent = λ _. same st;
      },
    )
    swallowed false h = found (is_no_key (lookup_e0 idx)) h refl

scancode_base_size : length scancode_base ≡ 0x60
unfolding scancode_base
scancode_base_size = refl

translate_code-Translates :
    (st : State) (tick byte : ℕ)
    → st.events + 1 < 2 ^ 64
    → st.unknown_scancodes + 1 < 2 ^ 64
    → Translates st tick (translate_code st tick byte)
unfolding translate_code Translates
translate_code-Translates st tick byte room room_unknown = known (leb 0x60 idx) refl
  where
    idx : ℕ
    idx = bit_and byte 0x7F

    released : Bool
    released = not (bit_and byte 0x80 == 0)

    plain :
        (b : Bool)
        → leb 0x60 idx ≡ false
        → Translates st tick (
            if b
            then deliver_extended (record st { extended = false }) tick released idx
            else (or_panic (get_elem? scancode_base idx) out_of_bounds
                >>= deliver st tick released))
    plain true g =
        widen st tick (deliver_extended (record st { extended = false }) tick released idx) (
          deliver_extended-Translates (record st { extended = false }) tick released idx room
            room_unknown)
    plain false g =
        let lt : idx < 0x60 = ground arith in
        rw (get_elem?-eq-get_or scancode_base idx no_key (omega (arith, scancode_base_size, lt)))
          (deliver-Translates st tick released (get_or scancode_base idx no_key) room)

    known : (b : Bool) → leb 0x60 idx ≡ b → Translates st tick (translate_code st tick byte)
    known true h = (
      record st { unknown_scancodes = st.unknown_scancodes + 1 },
      none,
      rw h (rw (checked-ok (st.unknown_scancodes + 1) room_unknown) refl),
      counted-Decoded st tick none (λ e q. absurd (some-ne-none (sym q))),
    )
    known false h = rw h (plain st.extended h)

-- With room in its two counters, `translate` returns on every byte, so no code is out of the tables'
-- bounds. It keeps presence and command byte and counts the byte at most once. An event carries the
-- time and the modifiers of the state after it; a byte that gives no event changes no modifier.
pub translate-Translates :
    (st : State) (tick byte : ℕ)
    → st.events + 1 < 2 ^ 64
    → st.unknown_scancodes + 1 < 2 ^ 64
    → (st1 : State) × (ev : Option KeyEvent) × (translate st tick byte ≡ ok (st1, ev))
      × Decoded st tick st1 ev
unfolding translate Translates
translate-Translates st tick byte room room_unknown =
    by_prefix (byte == 0xE0) (byte == 0xE1) st.pause_prefix
  where
    by_prefix :
        (e0 e1 p : Bool)
        → Translates st tick (
            if e0
            then ok (record st { extended = true }, none)
            else if e1
            then ok (record st { pause_prefix = true }, none)
            else if p
            then ok (record st { pause_prefix = false }, some (event st tick pause true none))
            else translate_code st tick byte)
    by_prefix true e1 p = (
      record st { extended = true },
      none,
      refl,
      record {
        same_presence = refl;
        same_command = refl;
        counted = omega arith;
        reported = λ e q. absurd (some-ne-none (sym q));
        silent = λ _. record { same_shift = refl; same_ctrl = refl; same_alt = refl };
      },
    )
    by_prefix false true p = (
      record st { pause_prefix = true },
      none,
      refl,
      record {
        same_presence = refl;
        same_command = refl;
        counted = omega arith;
        reported = λ e q. absurd (some-ne-none (sym q));
        silent = λ _. record { same_shift = refl; same_ctrl = refl; same_alt = refl };
      },
    )
    by_prefix false false true = (
      record st { pause_prefix = false },
      some (event st tick pause true none),
      refl,
      record {
        same_presence = refl;
        same_command = refl;
        counted = omega arith;
        reported = λ e q.
            let r = event-IsEventOf st tick pause true none e q in
            record {
              same_shift = r.same_shift;
              same_ctrl = r.same_ctrl;
              same_alt = r.same_alt;
              stamped = r.stamped;
            };
        silent = λ q. absurd (some-ne-none q);
      },
    )
    by_prefix false false false = translate_code-Translates st tick byte room room_unknown
