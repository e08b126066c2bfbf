-- ===== src/Interrupts/Delay.antt =====
-- `spin_delay_us` of kernel/src/interrupts/pit.rs: a count-down of channel 2, polled at port 0x61.
-- The product in u64 cannot overflow, since the delay is a u32.
use orin_os.Prelude.{ℕ, ◌-◌, ◌*◌, ◌/◌, ◌^◌, min, max, not, bit_and, bit_or, ◌==◌}
use orin_os.Prelude.Ports.{Trace, Device, inb, outb, poll_until}
use orin_os.Interrupts.Pit.{pit_input_hz}

abbrev pub pit_channel2_data : ℕ
pit_channel2_data = 0x42

abbrev pub pit_command : ℕ
pit_command = 0x43

abbrev pub gate_port : ℕ
gate_port = 0x61

-- The loop breaks off when its guard has passed 20,000,000.
abbrev pub delay_rounds : ℕ
delay_rounds = 20000001

unfoldable pub delay_ticks : ℕ → ℕ
delay_ticks micros = min (max (micros * pit_input_hz / 1000000) 1) 0xFFFF

unfoldable pub spin_delay_us : Device → ℕ → Trace → Trace
spin_delay_us device micros t =
    let saved = inb device gate_port t in
    let gate = bit_and (bit_or saved.1 0x01) (2 ^ 8 - 1 - 0x02) in
    let ticks = delay_ticks micros in
    let started = outb pit_channel2_data (ticks / 2 ^ 8) (
      outb pit_channel2_data (bit_and ticks 0xFF)
        (outb pit_command 0xB0 (outb gate_port gate saved.0))) in
    outb gate_port saved.1
      (poll_until device gate_port (λ s. not (bit_and s (2 ^ 5) == 0)) delay_rounds started).0
