-- ===== src/Keyboard/Controller/Polite.antt =====
-- The protocol of the 8042 ports: no byte is written to either port unless the status that was read
-- right before it had the input buffer empty, and none is read from the data port unless it had the
-- output buffer full. And the number of accesses that the routines make.
use orin_os.Prelude.{
  ℕ, zero, suc, ◌+◌, ◌*◌, ◌%◌, ◌≡◌, refl, Bool, true, false, not, bit_or, ◌&&◌, ◌||◌, [], ◌∷◌,
  Option, none, some, arith, ◌==◌, if◌then◌else◌, if_cases,
}
use orin_os.Prelude.Ports.{
  Access, reads, writes, Trace, Device, inb, outb, Adds, none_added, one_added, both_added,
  added_more, inb-Adds, poll_until-Adds, EndsWith, poll_until-EndsWith,
}
use orin_os.Interrupts.Delay.{
  spin_delay_us, gate_port, pit_command, pit_channel2_data, delay_rounds,
}
use orin_os.Keyboard.Controller.{
  port_data, port_status, st_out_buffer_full, st_in_buffer_full, is_clear, poll_limit,
  cmd_write_command_byte, cb_translate, dev_set_scancode_set, wait_input_empty, wait_output_full,
  send, controller_cmd, device_cmd, device_cmd_write, read_response, flush, configure, is_answer,
}

-- Whether the newest access is a read of the status port that `test` holds of.
unfoldable pub status_was : (ℕ → Bool) → Trace → Bool
status_was test (reads port s ∷ t) = (port == port_status) && test s
status_was test _ = false

unfoldable pub allowed : Access → Trace → Bool
allowed (reads port v) t =
    if port == port_data then status_was (λ s. not (is_clear st_out_buffer_full s)) t else true
allowed (writes port v) t =
    if (port == port_data) || (port == port_status)
    then status_was (is_clear st_in_buffer_full) t
    else true

unfoldable pub polite : Trace → Bool
polite [] = true
polite (a ∷ t) = allowed a t && polite t

polite_more : (a : Access) (t : Trace) → allowed a t ≡ true → polite (a ∷ t) ≡ polite t
unfolding polite
polite_more a t e = rw e refl

-- The ports other than the data port are free to read.
free_read :
    (port : ℕ)
    → (port == port_data) ≡ false
    → (v : ℕ) (t : Trace) → polite (reads port v ∷ t) ≡ polite t
free_read port e v t = polite_more (reads port v) t (unfold allowed in rw e refl)

free_write :
    (port : ℕ)
    → ((port == port_data) || (port == port_status)) ≡ false
    → (v : ℕ) (t : Trace) → polite (writes port v ∷ t) ≡ polite t
free_write port e v t = polite_more (writes port v) t (unfold allowed in rw e refl)

status_read : (test : ℕ → Bool) (t : Trace) → EndsWith port_status test t → status_was test t ≡ true
unfolding status_was
status_read test t (v, before, e, h) = rw e h

infixl 4 ◌▸◌
pub ◌▸◌ :
    {m n : ℕ} {t t1 t2 : Trace}
    → Adds polite m t t1
    → Adds polite n t1 t2
    → Adds polite (m + n) t t2
h ▸ k = both_added polite h k

module _ (device : Device) where
  wait_input_empty-Adds : (t : Trace) → Adds polite poll_limit t (wait_input_empty device t).0
  unfolding wait_input_empty
  wait_input_empty-Adds =
      poll_until-Adds polite device port_status (free_read port_status refl)
        (is_clear st_in_buffer_full) poll_limit

  wait_output_full-Adds : (t : Trace) → Adds polite poll_limit t (wait_output_full device t).0
  unfolding wait_output_full
  wait_output_full-Adds =
      poll_until-Adds polite device port_status (free_read port_status refl)
        (λ s. not (is_clear st_out_buffer_full s)) poll_limit

  write_ready :
      (port b : ℕ) (t : Trace)
      → EndsWith port_status (is_clear st_in_buffer_full) t
      → Adds polite 1 t (writes port b ∷ t)
  write_ready port b t e = one_added polite (writes port b) t (
      polite_more (writes port b) t (
        unfold allowed in
        if_cases (λ (r : Bool). r ≡ true) ((port == port_data) || (port == port_status))
          (status_was (is_clear st_in_buffer_full) t) true
          (λ _. status_read (is_clear st_in_buffer_full) t e) (λ _. refl)))

  read_ready :
      (t : Trace)
      → EndsWith port_status (λ s. not (is_clear st_out_buffer_full s)) t
      → Adds polite 1 t (inb device port_data t).0
  unfolding inb
  read_ready t e =
      let v = device t port_data % 256 in
      one_added polite (reads port_data v) t (
        polite_more (reads port_data v) t
          (unfold allowed in status_read (λ s. not (is_clear st_out_buffer_full s)) t e))

  send-Adds : (port b : ℕ) (t : Trace) → Adds polite (poll_limit + 1) t (send device port b t).0
  unfolding send outb wait_input_empty
  send-Adds port b t =
      let wait = wait_input_empty device t in
      if_cases (λ (r : Trace × Bool). Adds polite (poll_limit + 1) t r.0) wait.1
        (writes port b ∷ wait.0, true) (wait.0, false)
        (λ e. both_added polite (wait_input_empty-Adds t) (
          write_ready port b wait.0
            (poll_until-EndsWith device port_status (is_clear st_in_buffer_full) poll_limit t e)))
        (λ _. added_more polite (poll_limit + 1) (omega arith) (wait_input_empty-Adds t))

  pub read_response-Adds : (t : Trace) → Adds polite (poll_limit + 1) t (read_response device t).0
  unfolding read_response wait_output_full
  read_response-Adds t =
      let wait = wait_output_full device t in
      let read = inb device port_data wait.0 in
      if_cases (λ (r : Trace × Option ℕ). Adds polite (poll_limit + 1) t r.0) wait.1
        (read.0, some read.1) (wait.0, none)
        (λ e. both_added polite (wait_output_full-Adds t) (
          read_ready wait.0 (
            poll_until-EndsWith device port_status (λ s. not (is_clear st_out_buffer_full s))
              poll_limit t e)))
        (λ _. added_more polite (poll_limit + 1) (omega arith) (wait_output_full-Adds t))

  pub flush-Adds : (rounds : ℕ) (t : Trace) → Adds polite (2 * rounds) t (flush device rounds t)
  unfolding flush
  flush-Adds zero t = none_added polite 0 t
  flush-Adds (suc rounds) t =
      let status = inb device port_status t in
      let first : Adds polite 1 t status.0 =
        inb-Adds polite device port_status (free_read port_status refl) t in
      if_cases (λ (r : Trace). Adds polite (2 * suc rounds) t r)
        (is_clear st_out_buffer_full status.1) status.0
        (flush device rounds (inb device port_data status.0).0)
        (λ _. added_more polite (2 * suc rounds) (omega arith) first)
        (λ e. added_more polite (2 * suc rounds) (omega arith) (
          first
          ▸ read_ready status.0 (unfold inb in (status.1, t, refl, rw e refl))
          ▸ flush-Adds rounds (inb device port_data status.0).0))

  free_outb :
      (port b : ℕ)
      → ((port == port_data) || (port == port_status)) ≡ false
      → (t : Trace) → Adds polite 1 t (outb port b t)
  unfolding outb
  free_outb port b e t = one_added polite (writes port b) t (free_write port e b t)

  pub delay-Adds :
      (micros : ℕ) (t : Trace) → Adds polite (delay_rounds + 6) t (spin_delay_us device micros t)
  unfolding spin_delay_us
  delay-Adds micros t = added_more polite (delay_rounds + 6) (omega arith) (
      inb-Adds polite device gate_port (free_read gate_port refl) t
      ▸ free_outb gate_port _ refl _
      ▸ free_outb pit_command _ refl _
      ▸ free_outb pit_channel2_data _ refl _
      ▸ free_outb pit_channel2_data _ refl _
      ▸ poll_until-Adds polite device gate_port (free_read gate_port refl) _ delay_rounds _
      ▸ free_outb gate_port _ refl _)

  pub controller_cmd-Adds :
      (b : ℕ) (t : Trace) → Adds polite (poll_limit + 1) t (controller_cmd device b t).0
  unfolding controller_cmd
  controller_cmd-Adds b t = send-Adds port_status b t

  pub device_cmd-Adds :
      (b : ℕ) (t : Trace) → Adds polite (poll_limit + 1) t (device_cmd device b t).0
  unfolding device_cmd
  device_cmd-Adds b t = send-Adds port_data b t

  pub configure-Adds :
      (new_byte : ℕ) (t : Trace)
      → Adds polite (8 * (poll_limit + 1)) t (configure device new_byte t)
  unfolding configure device_cmd_write
  configure-Adds new_byte t =
      let t2 = (device_cmd device new_byte (controller_cmd device cmd_write_command_byte t).0).0 in
      let ack = read_response device (device_cmd device dev_set_scancode_set t2).0 in
      let ack2 = read_response device (device_cmd device 0x01 ack.0).0 in
      let upto : Adds polite (6 * (poll_limit + 1)) t ack2.0 =
        controller_cmd-Adds cmd_write_command_byte t
        ▸ device_cmd-Adds new_byte _
        ▸ device_cmd-Adds dev_set_scancode_set t2
        ▸ read_response-Adds _
        ▸ device_cmd-Adds 0x01 ack.0
        ▸ read_response-Adds _ in
      if_cases (Adds polite (8 * (poll_limit + 1)) t)
        (is_answer ack.1 0xFA && is_answer ack2.1 0xFA) ack2.0
        (device_cmd device (bit_or new_byte cb_translate)
          (controller_cmd device cmd_write_command_byte ack2.0).0).0
        (λ _. added_more polite (8 * (poll_limit + 1)) (omega arith) upto)
        (λ _. upto ▸ controller_cmd-Adds cmd_write_command_byte ack2.0 ▸ device_cmd-Adds _ _)
