-- ===== src/Keyboard/Controller/Probe.antt =====
-- The probing and the shutdown as a whole: bounded for any device, and polite.
use orin_os.Prelude.{ℕ, ◌+◌, ◌*◌, not, arith, if_cases}
use orin_os.Prelude.Ports.{Trace, Device, Adds, added_more}
use orin_os.Interrupts.Delay.{spin_delay_us}
use orin_os.Keyboard.Decode.{State, Presence, absent}
use orin_os.Keyboard.Controller.{
  poll_limit, cmd_self_test, cmd_disable_port_1, cmd_read_command_byte, cmd_test_port_1,
  cmd_enable_port_1, controller_cmd, read_response, flush_output, flush_rounds, set_up, init,
  is_answer,
}
use orin_os.Keyboard.Controller.Polite.{
  polite, ◌▸◌, controller_cmd-Adds, read_response-Adds, configure-Adds, flush-Adds, delay-Adds,
}

-- The accesses that `init` makes at most.
abbrev pub init_accesses : ℕ
init_accesses = 52000221

module _ (device : Device) where
  pub flush_output-Adds : (t : Trace) → Adds polite 66 t (flush_output device t)
  unfolding flush_output
  flush_output-Adds t = flush-Adds device flush_rounds t

  set_up-Adds :
      (t : Trace) (st : State) → Adds polite (14 * (poll_limit + 1) + 132) t (set_up device t st).0
  unfolding set_up
  set_up-Adds t st = added_more polite (14 * (poll_limit + 1) + 132) (omega arith) (
      controller_cmd-Adds device cmd_disable_port_1 t
      ▸ flush_output-Adds _
      ▸ controller_cmd-Adds device cmd_read_command_byte _
      ▸ read_response-Adds device _
      ▸ controller_cmd-Adds device cmd_test_port_1 _
      ▸ read_response-Adds device _
      ▸ configure-Adds device _ _
      ▸ controller_cmd-Adds device cmd_enable_port_1 _
      ▸ flush_output-Adds _)

  -- Whatever the devices answer, init of the keyboard makes at most 52,000,221 port accesses, so
  -- no loop of it runs on. It writes to the ports 0x60 and 0x64 only right after a status with the
  -- input buffer empty, and reads 0x60 only right after a status with the output buffer full, if
  -- the accesses before it did.
  pub init-Adds : (t : Trace) (st : State) → Adds polite init_accesses t (init device t st).0
  unfolding init
  init-Adds t st =
      let command = controller_cmd device cmd_self_test (flush_output device t) in
      let test = read_response device (spin_delay_us device 100 command.0) in
      let sent : Adds polite (66 + (poll_limit + 1)) t command.0 =
        flush_output-Adds t ▸ controller_cmd-Adds device cmd_self_test _ in
      let tested = sent ▸ delay-Adds device 100 command.0 ▸ read_response-Adds device _ in
      let P : Trace × State × Presence → Type 0 = λ r. Adds polite init_accesses t r.0 in
      let gone = record st { presence = absent } in
      if_cases P (not command.1) (command.0, gone, absent) _
        (λ _. added_more polite init_accesses (omega arith) sent)
        (λ _.
          if_cases P (is_answer test.1 0x55) (set_up device test.0 st) (test.0, gone, absent)
            (λ _. added_more polite init_accesses (omega arith) (tested ▸ set_up-Adds test.0 st))
            (λ _. added_more polite init_accesses (omega arith) tested))
