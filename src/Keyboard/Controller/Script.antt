-- ===== src/Keyboard/Controller/Script.antt =====
-- The commands that `init` and `shutdown` give a controller that is ready for each of them.
use orin_os.Prelude.{
  ℕ, zero, suc, ◌%◌, ◌≡◌, refl, Bool, true, false, ◌&&◌, ◌||◌, List, [], ◌∷◌, Option, none, some,
  bit_or, ◌==◌, ==_iff, ap, inl, inr, Bool-cases, if◌then◌else◌, if_cases,
}
use orin_os.Prelude.Ports.{reads, writes, Trace, Device, inb, outb, poll_until}
use orin_os.Interrupts.Delay.{spin_delay_us, gate_port, delay_rounds}
use orin_os.Keyboard.Controller.{
  port_data, port_status, st_in_buffer_full, is_clear, poll_limit, cb_translate, cmd_self_test,
  cmd_disable_port_1, cmd_read_command_byte, cmd_test_port_1, cmd_enable_port_1,
  cmd_write_command_byte, dev_set_scancode_set, wait_input_empty, wait_output_full, send,
  controller_cmd, device_cmd, device_cmd_write, read_response, flush, configure, is_answer,
}

-- The bytes written to the two ports of the controller, each with its port, newest first.
unfoldable pub sent : Trace → List (ℕ × ℕ)
sent [] = []
sent (reads port v ∷ t) = sent t
sent (writes port v ∷ t) =
    let before = sent t in
    if (port == port_data) || (port == port_status) then (port, v) ∷ before else before

-- A controller that has its input buffer empty whenever it is asked.
abbrev pub IsReady : Device → Type 0
IsReady device = (t : Trace) → is_clear st_in_buffer_full (device t port_status % 256) ≡ true

-- The commands of an `init` that finds a controller: `off` is the command byte without translation,
-- `on` the one with it, which a device that does not acknowledge scancode set 1 gets.
unfoldable pub script : ℕ → ℕ → Bool → List (ℕ × ℕ) → List (ℕ × ℕ)
script off on acked before =
    let common =
      (port_data, 0x01)
      ∷ (port_data, dev_set_scancode_set)
      ∷ (port_data, off)
      ∷ (port_status, cmd_write_command_byte)
      ∷ (port_status, cmd_test_port_1)
      ∷ (port_status, cmd_read_command_byte)
      ∷ (port_status, cmd_disable_port_1)
      ∷ (port_status, cmd_self_test)
      ∷ before in
    (port_status, cmd_enable_port_1)
    ∷ (if acked then common else (port_data, on) ∷ (port_status, cmd_write_command_byte) ∷ common)

module _ (device : Device) (off : ℕ) (t : Trace) where
  -- The two answers to the request for scancode set 1, which follows the command byte `off`.
  abbrev pub first_answer : Trace × Option ℕ
  first_answer =
      read_response device
        (device_cmd device dev_set_scancode_set
          (device_cmd_write device off (controller_cmd device cmd_write_command_byte t).0).0).0

  abbrev pub second_answer : Trace × Option ℕ
  second_answer = read_response device (device_cmd_write device 0x01 first_answer.0).0

-- `is_answer` holds of that one answer.
is_answer-some : (a : Option ℕ) (b : ℕ) → is_answer a b ≡ true → a ≡ some b
unfolding is_answer
is_answer-some none b e = absurd cc
is_answer-some (some a) b e = ap some ((==_iff a b).0 e)

some-is_answer : (a : Option ℕ) (b : ℕ) → a ≡ some b → is_answer a b ≡ true
unfolding is_answer
some-is_answer a b e = rw e ((==_iff b b).1 refl)

pub both_answers :
    (a c : Option ℕ) (b : ℕ) → a ≡ some b → c ≡ some b → (is_answer a b && is_answer c b) ≡ true
both_answers a c b e q = rw (some-is_answer a b e, some-is_answer c b q) refl

pub not_both :
    (a c : Option ℕ) (b : ℕ)
    → (a ≡ some b → c ≡ some b → ⊥)
    → (is_answer a b && is_answer c b) ≡ false
not_both a c b h = elim (Bool-cases (is_answer a b)) [
  | inr n ↦ rw n refl
  | inl e ↦ elim (Bool-cases (is_answer c b)) [
    | inr n ↦ rw (e, n) refl
    | inl q ↦ absurd (h (is_answer-some a b e) (is_answer-some c b q))
  ]
]

sent-if :
    (b : Bool) (x y : Trace) {u v : List (ℕ × ℕ)}
    → sent x ≡ u
    → sent y ≡ v
    → sent (if b then x else y) ≡ (if b then u else v)
sent-if true x y e q = e
sent-if false x y e q = q

module _ (device : Device) where
  sent-poll :
      (port : ℕ) (done : ℕ → Bool) (rounds : ℕ) (t : Trace)
      → sent (poll_until device port done rounds t).0 ≡ sent t
  unfolding poll_until inb sent
  sent-poll port done zero t = refl
  sent-poll port done (suc rounds) t =
      let v = device t port % 256 in
      if_cases (λ (r : Trace × Bool). sent r.0 ≡ sent t) (done v) (reads port v ∷ t, true)
        (poll_until device port done rounds (reads port v ∷ t)) (λ _. refl)
        (λ _. sent-poll port done rounds (reads port v ∷ t))

  pub sent-read_response : (t : Trace) → sent (read_response device t).0 ≡ sent t
  unfolding read_response wait_output_full inb sent
  sent-read_response t =
      let wait = wait_output_full device t in
      let v = device wait.0 port_data % 256 in
      if_cases (λ (r : Trace × Option ℕ). sent r.0 ≡ sent t) wait.1
        (reads port_data v ∷ wait.0, some v) (wait.0, none)
        (λ _. sent-poll port_status _ poll_limit t) (λ _. sent-poll port_status _ poll_limit t)

  pub sent-flush : (rounds : ℕ) (t : Trace) → sent (flush device rounds t) ≡ sent t
  unfolding flush inb sent
  sent-flush zero t = refl
  sent-flush (suc rounds) t =
      let seen = reads port_status (device t port_status % 256) ∷ t in
      let byte = reads port_data (device seen port_data % 256) ∷ seen in
      if_cases (λ (r : Trace). sent r ≡ sent t) _ seen (flush device rounds byte) (λ _. refl)
        (λ _. sent-flush rounds byte)

  pub sent-delay : (micros : ℕ) (t : Trace) → sent (spin_delay_us device micros t) ≡ sent t
  unfolding spin_delay_us inb outb sent
  sent-delay micros t = sent-poll gate_port _ delay_rounds _

  module _ (ready : IsReady device) where
    ready_at_once :
        (rounds : ℕ) (t : Trace)
        → poll_until device port_status (is_clear st_in_buffer_full) (suc rounds) t
          ≡ (reads port_status (device t port_status % 256) ∷ t, true)
    unfolding poll_until inb
    ready_at_once rounds t = rw (ready t) refl

    sent-send :
        (port b : ℕ)
        → ((port == port_data) || (port == port_status)) ≡ true
        → (t : Trace)
        → (sent (send device port b t).0 ≡ (port, b) ∷ sent t) × ((send device port b t).1 ≡ true)
    unfolding send wait_input_empty outb
    sent-send port b e t = rw (ready_at_once 1999999 t) (unfold sent in (rw e refl, refl))

    pub sent-controller_cmd :
        (b : ℕ) (t : Trace) → sent (controller_cmd device b t).0 ≡ (port_status, b) ∷ sent t
    unfolding controller_cmd
    sent-controller_cmd b t = (sent-send port_status b refl t).0

    pub sent-device_cmd :
        (b : ℕ) (t : Trace) → sent (device_cmd device b t).0 ≡ (port_data, b) ∷ sent t
    unfolding device_cmd
    sent-device_cmd b t = (sent-send port_data b refl t).0

    pub accepted : (b : ℕ) (t : Trace) → (controller_cmd device b t).1 ≡ true
    unfolding controller_cmd
    accepted b t = (sent-send port_status b refl t).1

    pub sent-configure :
        (off : ℕ) (t : Trace)
        → let core =
            (port_data, 0x01)
            ∷ (port_data, dev_set_scancode_set)
            ∷ (port_data, off)
            ∷ (port_status, cmd_write_command_byte)
            ∷ sent t in
          sent (configure device off t) ≡ (
            if is_answer (first_answer device off t).1 0xFA
              && is_answer (second_answer device off t).1 0xFA
            then core
            else (port_data, bit_or off cb_translate)
              ∷ (port_status, cmd_write_command_byte)
              ∷ core)
    unfolding configure device_cmd_write
    sent-configure off t =
        let t2 = (device_cmd device off (controller_cmd device cmd_write_command_byte t).0).0 in
        let ack = read_response device (device_cmd device dev_set_scancode_set t2).0 in
        let ack2 = read_response device (device_cmd device 0x01 ack.0).0 in
        let core : sent ack2.0
            ≡ (port_data, 0x01)
              ∷ (port_data, dev_set_scancode_set)
              ∷ (port_data, off)
              ∷ (port_status, cmd_write_command_byte)
              ∷ sent t =
          simp (sent-read_response, sent-device_cmd, sent-controller_cmd) in
        sent-if (is_answer ack.1 0xFA && is_answer ack2.1 0xFA) ack2.0 _ core
          (simp (sent-device_cmd, sent-controller_cmd, core))
