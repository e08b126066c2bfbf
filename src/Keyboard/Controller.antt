-- ===== src/Keyboard/Controller.antt =====
-- The hardware side of kernel/src/drivers/keyboard.rs: the exchange with the 8042 controller over
-- the ports 0x60 and 0x64, for any device that answers there, the probing of it, the handler of its
-- interrupt and the restoring of its command byte. Records of the log are left out.
pub mod Polite
pub mod Probe
pub mod Handler
pub mod Script
pub mod SetUp
use orin_os.Prelude.{
  ℕ, zero, suc, ◌+◌, ◌-◌, ◌^◌, Bool, true, false, not, ◌&&◌, Option, none, some, Outcome, ok, ◌>>=◌,
  bit_and, bit_or, ◌==◌, if◌then◌else◌,
}
use orin_os.Prelude.Ports.{Trace, Device, inb, outb, poll_until}
use orin_os.Interrupts.Delay.{spin_delay_us}
use orin_os.Keyboard.Ring.{Ring, ring_push}
use orin_os.Keyboard.Decode.{State, Presence, controller, keyboard, absent}

abbrev pub port_data : ℕ
port_data = 0x60

abbrev pub port_status : ℕ
port_status = 0x64

-- Bits of the status register.
abbrev pub st_out_buffer_full : ℕ
st_out_buffer_full = 2 ^ 0

abbrev pub st_in_buffer_full : ℕ
st_in_buffer_full = 2 ^ 1

abbrev pub st_from_device : ℕ
st_from_device = 2 ^ 5

abbrev pub st_timeout : ℕ
st_timeout = 2 ^ 6

abbrev pub st_parity : ℕ
st_parity = 2 ^ 7

-- Commands of the controller, and one of the device.
abbrev pub cmd_read_command_byte : ℕ
cmd_read_command_byte = 0x20

abbrev pub cmd_write_command_byte : ℕ
cmd_write_command_byte = 0x60

abbrev pub cmd_self_test : ℕ
cmd_self_test = 0xAA

abbrev pub cmd_test_port_1 : ℕ
cmd_test_port_1 = 0xAB

abbrev pub cmd_disable_port_1 : ℕ
cmd_disable_port_1 = 0xAD

abbrev pub cmd_enable_port_1 : ℕ
cmd_enable_port_1 = 0xAE

abbrev pub dev_set_scancode_set : ℕ
dev_set_scancode_set = 0xF0

-- Bits of the command byte.
abbrev pub cb_irq1_enable : ℕ
cb_irq1_enable = 2 ^ 0

abbrev pub cb_translate : ℕ
cb_translate = 2 ^ 6

abbrev pub poll_limit : ℕ
poll_limit = 2000000

-- `status & bit == 0`
unfoldable pub is_clear : ℕ → ℕ → Bool
is_clear b status = bit_and status b == 0

unfoldable pub wait_input_empty : Device → Trace → Trace × Bool
wait_input_empty device = poll_until device port_status (is_clear st_in_buffer_full) poll_limit

unfoldable pub wait_output_full : Device → Trace → Trace × Bool
wait_output_full device =
    poll_until device port_status (λ s. not (is_clear st_out_buffer_full s)) poll_limit

-- A byte to a port once the input buffer is empty; the two routines below differ in the port.
unfoldable pub send : Device → ℕ → ℕ → Trace → Trace × Bool
send device port b t =
    let wait = wait_input_empty device t in
    if wait.1 then (outb port b wait.0, true) else (wait.0, false)

unfoldable pub controller_cmd : Device → ℕ → Trace → Trace × Bool
controller_cmd device = send device port_status

unfoldable pub device_cmd : Device → ℕ → Trace → Trace × Bool
device_cmd device = send device port_data

unfoldable pub device_cmd_write : Device → ℕ → Trace → Trace × Bool
device_cmd_write device = device_cmd device

unfoldable pub read_response : Device → Trace → Trace × Option ℕ
read_response device t =
    let wait = wait_output_full device t in
    if wait.1
    then (let read = inb device port_data wait.0 in (read.0, some read.1))
    else (wait.0, none)

-- The loop of `flush_output`, with the rounds that are left before its guard breaks it off.
unfoldable pub flush : Device → ℕ → Trace → Trace
flush device zero t = t
flush device (suc rounds) t =
    let status = inb device port_status t in
    let rest = flush device rounds (inb device port_data status.0).0 in
    if is_clear st_out_buffer_full status.1 then status.0 else rest

abbrev pub flush_rounds : ℕ
flush_rounds = 33

unfoldable pub flush_output : Device → Trace → Trace
flush_output device = flush device flush_rounds

-- `== Some(b)`
unfoldable pub is_answer : Option ℕ → ℕ → Bool
is_answer none b = false
is_answer (some a) b = a == b

unfoldable pub unwrap_or : Option ℕ → ℕ → ℕ
unwrap_or none b = b
unwrap_or (some a) b = a

-- The part of `init` that tries for scancode set 1, from the write of the command byte to the
-- enabling of the port.
unfoldable pub configure : Device → ℕ → Trace → Trace
configure device new_byte t =
    let t1 = (controller_cmd device cmd_write_command_byte t).0 in
    let t2 = (device_cmd_write device new_byte t1).0 in
    let t3 = (device_cmd device dev_set_scancode_set t2).0 in
    let ack = read_response device t3 in
    let t4 = (device_cmd_write device 0x01 ack.0).0 in
    let ack2 = read_response device t4 in
    if is_answer ack.1 0xFA && is_answer ack2.1 0xFA
    then ack2.0
    else (device_cmd_write device (bit_or new_byte cb_translate)
        (controller_cmd device cmd_write_command_byte ack2.0).0).0

-- `(cmd_byte | CB_IRQ1_ENABLE) & !CB_TRANSLATE`
unfoldable pub new_command_byte : ℕ → ℕ
new_command_byte cmd_byte = bit_and (bit_or cmd_byte cb_irq1_enable) (2 ^ 8 - 1 - cb_translate)

-- `init` from the disabling of the port on, when the self-test has passed.
unfoldable pub set_up : Device → Trace → State → Trace × State × Presence
set_up device t st =
    let t1 = flush_output device (controller_cmd device cmd_disable_port_1 t).0 in
    let cmd = read_response device (controller_cmd device cmd_read_command_byte t1).0 in
    let cmd_byte = unwrap_or cmd.1 0 in
    let test = read_response device (controller_cmd device cmd_test_port_1 cmd.0).0 in
    let t2 = configure device (new_command_byte cmd_byte) test.0 in
    let t3 = flush_output device (controller_cmd device cmd_enable_port_1 t2).0 in
    let presence = if is_answer test.1 0x00 then keyboard else controller in
    (t3, record st { presence = presence; command_byte = cmd_byte }, presence)

unfoldable pub init : Device → Trace → State → Trace × State × Presence
init device t st =
    let command = controller_cmd device cmd_self_test (flush_output device t) in
    let test = read_response device (spin_delay_us device 100 command.0) in
    if not command.1
    then (command.0, record st { presence = absent }, absent)
    else if is_answer test.1 0x55
    then set_up device test.0 st
    else (test.0, record st { presence = absent }, absent)

-- `interrupt_handler` behind its tests of the error bits.
unfoldable pub take_byte : Device → ℕ → Trace → Ring → Outcome (Trace × Ring)
take_byte device status t r =
    let byte = inb device port_data t in
    if is_clear st_out_buffer_full status
    then ok (t, r)
    else if is_clear st_from_device status
    then ok (byte.0, r)
    else (ring_push r byte.1 >>= λ q. ok (byte.0, q))

unfoldable pub interrupt_handler : Device → Trace → Ring → Outcome (Trace × Ring)
interrupt_handler device t r =
    let status = inb device port_status t in
    if not (is_clear st_timeout status.1)
    then ok (flush_output device status.0, r)
    else if not (is_clear st_parity status.1)
    then ok ((inb device port_data status.0).0, r)
    else take_byte device status.1 status.0 r

unfoldable pub is_absent : Presence → Bool
is_absent absent = true
is_absent _ = false

unfoldable pub shutdown : Device → Trace → State → Trace
shutdown device t st =
    if is_absent st.presence
    then t
    else (device_cmd_write device st.command_byte
        (controller_cmd device cmd_write_command_byte t).0).0
