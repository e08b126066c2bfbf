-- ===== src/Tests/Controller.antt =====
-- The keyboard's ports: a controller that passes its tests and a device that acknowledges.
use orin_os.Prelude.{
  ℕ, ◌≡◌, refl, [], ◌∷◌, List, ok, ◌<◌, arith, length, not, replicate, get_or, ◌==◌, if◌then◌else◌,
}
use orin_os.Prelude.Ports.{reads, writes, Trace, Device, Adds, poll_until, inb, outb}
use orin_os.Keyboard.Ring.{Ring, pending}
use orin_os.Keyboard.Ring.Queue.{IsRing, contents, read}
use orin_os.Keyboard.Ring.Service.{Event, arrives, takes, run, takes_in, run_delivers}
use orin_os.Keyboard.Decode.{initial, keyboard}
use orin_os.Keyboard.Controller.{
  init, interrupt_handler, is_clear, set_up, configure, read_response, wait_output_full,
  wait_input_empty, flush_output, flush, is_answer, unwrap_or, send, controller_cmd, device_cmd,
  device_cmd_write, new_command_byte,
}
use orin_os.Interrupts.Delay.{spin_delay_us, delay_ticks}
use orin_os.Keyboard.Controller.Polite.{polite}
use orin_os.Keyboard.Controller.Probe.{init-Adds, init_accesses}
use orin_os.Keyboard.Controller.Handler.{Handled, interrupt_handler-Handled}

-- The answer on the data port to the byte that the controller or the device got last.
answer : Trace → ℕ
answer [] = 0x1E
answer (reads port v ∷ t) = answer t
answer (writes port b ∷ t) =
    let before = answer t in
    if port == 0x60
    then 0xFA
    else if not (port == 0x64)
    then before
    else if b == 0xAA
    then 0x55
    else if b == 0xAB
    then 0x00
    else 0x45

pc : Device
unfolding answer
pc t port = if port == 0x64 then 0x21 else if port == 0x61 then 0x20 else answer t

init-Adds_example : Adds polite init_accesses [] (init pc [] initial).0
init-Adds_example = init-Adds pc [] initial

-- Two bytes wait.
waiting : Ring
waiting = record { cells = 30 ∷ 158 ∷ replicate 254 0; head = 2; tail = 0; dropped = 0 }

waiting-IsRing : IsRing waiting
unfolding waiting replicate
waiting-IsRing = record { size = refl; head_in = omega arith; tail_in = omega arith }

interrupt_handler-Handled_example :
    (t1 : Trace) × (r1 : Ring) × (interrupt_handler pc [] waiting ≡ ok (t1, r1))
    × Handled pc [] waiting t1 r1
interrupt_handler-Handled_example = interrupt_handler-Handled pc [] waiting waiting-IsRing

schedule : List Event
schedule = takes ∷ arrives 48 ∷ takes ∷ []

two_waiting : length (contents waiting) ≡ 2
unfolding contents waiting read pending
two_waiting = refl

asked_twice : takes_in schedule ≡ 2
unfolding takes_in schedule
asked_twice = refl

run_delivers_example :
    (q : Ring) × (out : List ℕ) × (run waiting schedule ≡ ok (q, out))
    × (1 < length out)
    × (get_or out 1 0 ≡ get_or (contents waiting) 1 0)
run_delivers_example =
    run_delivers waiting schedule 1 waiting-IsRing (omega (arith, two_waiting))
      (omega (arith, asked_twice))

-- The keyboard is found, and its first byte after that lands in the ring.
found_lem : (init pc [] initial).2 ≡ keyboard
unfolding pc answer init initial set_up configure read_response wait_output_full wait_input_empty
    poll_until flush_output flush is_clear is_answer unwrap_or send controller_cmd device_cmd
    device_cmd_write new_command_byte spin_delay_us delay_ticks inb outb
found_lem = refl
