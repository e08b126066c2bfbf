-- ===== src/Interrupts/Pit.antt =====
-- The clock of kernel/src/interrupts/pit.rs: `TICKS` and `ENABLED`. The products in u128 cannot
-- overflow, since a tick count is below 2^64.
use orin_os.Prelude.{ℕ, ◌+◌, ◌*◌, ◌/◌, ◌%◌, ◌^◌, ◌≤◌, ◌<◌, ◌≡◌, Bool, true, arith, if◌then◌else◌}

pub record Clock : Type 0 where
  pub enabled : Bool
  pub ticks : ℕ

abbrev pub pit_input_hz : ℕ
pit_input_hz = 1193182

abbrev pub tick_hz : ℕ
tick_hz = 1000

abbrev pub divisor : ℕ
divisor = pit_input_hz / tick_hz

unfoldable pub tick : Clock → Clock
tick c = if c.enabled then record c { ticks = (c.ticks + 1) % 2 ^ 64 } else c

unfoldable pub micros_since_boot : Clock → ℕ
micros_since_boot c = if c.enabled then c.ticks * 1000000 * divisor / pit_input_hz % 2 ^ 64 else 0

unfoldable pub millis_since_boot : Clock → ℕ
millis_since_boot c = micros_since_boot c / 1000

unfoldable pub seconds_since_boot : Clock → ℕ
seconds_since_boot c = micros_since_boot c / 1000000

pub record Uptime : Type 0 where
  pub days : ℕ
  pub hours : ℕ
  pub minutes : ℕ
  pub seconds : ℕ

unfoldable pub uptime_string : Clock → Uptime
uptime_string c =
    let total = micros_since_boot c / 1000000 in
    record {
      days = total / 86400 % 2 ^ 32;
      hours = total % 86400 / 3600 % 2 ^ 8;
      minutes = total % 3600 / 60 % 2 ^ 8;
      seconds = total % 60 % 2 ^ 8;
    }

-- What the parts of an uptime promise.
pub record SplitsTime (total : ℕ) (u : Uptime) : Type 0 where
  pub hours_in : u.hours < 24
  pub minutes_in : u.minutes < 60
  pub seconds_in : u.seconds < 60
  pub sum : u.days * 86400 + u.hours * 3600 + u.minutes * 60 + u.seconds ≡ total

micros-lt : (c : Clock) → micros_since_boot c < 2 ^ 64
unfolding micros_since_boot
micros-lt c = ground arith

-- The parts of the uptime are in range and add up to `seconds_since_boot`, for every clock: no
-- conversion to a narrower type loses anything.
pub uptime_string-SplitsTime : (c : Clock) → SplitsTime (seconds_since_boot c) (uptime_string c)
unfolding uptime_string seconds_since_boot
uptime_string-SplitsTime c =
    let small = micros-lt c in
    record {
      hours_in = omega arith;
      minutes_in = omega arith;
      seconds_in = omega arith;
      sum = omega arith;
    }

-- While a clock that runs has counted fewer than 2^54 - 1 ticks, its microseconds are those of the
-- programmed rate, rounded down: n ticks take 1193000000 n / 1193182 microseconds; the next tick adds
-- 999 or 1000.
pub micros_since_boot-exact :
    (n : ℕ)
    → n + 1 < 2 ^ 54
    → (micros_since_boot (record { enabled = true; ticks = n }) ≡ n * 1193000000 / 1193182)
      × (micros_since_boot (record { enabled = true; ticks = n }) + 999
          ≤ micros_since_boot (tick (record { enabled = true; ticks = n })))
      × (micros_since_boot (tick (record { enabled = true; ticks = n }))
          ≤ micros_since_boot (record { enabled = true; ticks = n }) + 1000)
unfolding micros_since_boot tick
micros_since_boot-exact n h = (omega arith, omega arith, omega arith)
