-- ===== src/Keyboard/Controller/SetUp.antt =====
-- A whole `init` on a controller that is ready for commands, and the `shutdown` after it.
use orin_os.Prelude.{ℕ, ◌<◌, ◌≡◌, ◌≢◌, true, false, ◌⊎◌, ◌∷◌, Option, some}
use orin_os.Prelude.Bits.{bit}
use orin_os.Prelude.Ports.{Trace, Device}
use orin_os.Interrupts.Delay.{spin_delay_us}
use orin_os.Keyboard.Decode.{State, Presence, absent}
use orin_os.Keyboard.Controller.{
  port_data, port_status, cmd_self_test, cmd_disable_port_1, cmd_read_command_byte, cmd_test_port_1,
  cmd_write_command_byte, controller_cmd, read_response, flush_output, shutdown,
}
use orin_os.Keyboard.Controller.Script.{sent, script, first_answer, second_answer}

-- A command byte with the interrupt of port 1 on and the translation as given, else as the firmware
-- had it.
pub record CommandByte (saved translate b : ℕ) : Type 0 where
  pub interrupt : bit b 0 ≡ 1
  pub translation : bit b 6 ≡ translate
  pub others : (i : ℕ) → i < 8 → i ≢ 0 → i ≢ 6 → bit b i ≡ bit saved i

-- Where `init` writes the command byte: behind the answer to the port test. The last answer there is
-- that of the port test, and the one before it the command byte.
abbrev pub behind_self_test : Device → Trace → Trace × Option ℕ
behind_self_test device t =
    read_response device
      (spin_delay_us device 100 (controller_cmd device cmd_self_test (flush_output device t)).0)

abbrev pub command_byte_read : Device → Trace → Trace × Option ℕ
command_byte_read device u =
    read_response device
      (controller_cmd device cmd_read_command_byte
        (flush_output device (controller_cmd device cmd_disable_port_1 u).0)).0

abbrev pub behind_port_test : Device → Trace → Trace × Option ℕ
behind_port_test device u =
    read_response device (controller_cmd device cmd_test_port_1 (command_byte_read device u).0).0

-- The device has acknowledged the request for scancode set 1 and the number of the set.
abbrev pub Acknowledged : Device → ℕ → Trace → Type 0
Acknowledged device off asked =
    ((first_answer device off asked).1 ≡ some 0xFA)
    × ((second_answer device off asked).1 ≡ some 0xFA)

-- What an `init` that finds a controller has sent, and what a `shutdown` would send then.
pub record SetUp (device : Device) (t asked t1 : Trace) (st1 : State) : Type 0 where
  pub off : ℕ
  pub on : ℕ
  pub off_byte : CommandByte st1.command_byte 0 off
  pub on_byte : CommandByte st1.command_byte 1 on
  pub acknowledged : Acknowledged device off asked → sent t1 ≡ script off on true (sent t)
  pub translated : (Acknowledged device off asked → ⊥) → sent t1 ≡ script off on false (sent t)
  pub restored :
      sent (shutdown device t1 st1)
      ≡ (port_data, st1.command_byte) ∷ (port_status, cmd_write_command_byte) ∷ sent t1

-- The two ends of an `init`.
abbrev pub Ends : Device → Trace → Trace × State × Presence → Type 0
Ends device t r =
    ((r.2 ≡ absent)
      × (sent r.0 ≡ (port_status, cmd_self_test) ∷ sent t)
      × (sent (shutdown device r.0 r.1) ≡ sent r.0))
    ⊎ SetUp device t (behind_port_test device (behind_self_test device t).0).0 r.0 r.1
