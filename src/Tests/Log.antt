-- ===== src/Tests/Log.antt =====
-- A configuration that shows warnings and what is above them, on both consoles.
use orin_os.Prelude.{List, [], ◌∷◌, false, arith}
use orin_os.Prelude.Loops.{Gives}
use orin_os.Log.{Level, debug, warn, panicking, both, LogConfig}
use orin_os.Log.Filter.{Logged, log_all, log_all-Logged}

abbrev warnings : LogConfig
warnings = record { level = warn; target = both; show_location = false; emitted = 3; filtered = 5 }

abbrev calls : List Level
calls = debug ∷ warn ∷ panicking ∷ []

log_all-Logged_example : Gives (Logged warnings calls) (log_all warnings calls)
log_all-Logged_example = log_all-Logged warnings calls (omega arith) (omega arith)
