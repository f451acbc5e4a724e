-- ===== src/Throttle.antt =====
-- `ServerLogCallback` (src/connector.cpp): the engine's log lines go to the event log, at a limited
-- rate.
pub mod Laws
use mod_security_iis.Prelude.{ℕ, ◌+◌, ◌-◌, ◌%◌, ◌^◌, Bool, true, false, leb, if◌then◌else◌}

pub record Throttle : Type 0 where
  pub log_window_start : ℕ
  pub log_count : ℕ

abbrev pub max_logs_per_second : ℕ
max_logs_per_second = 100

-- The globals as the process starts.
abbrev pub initial : Throttle
initial = record { log_window_start = 0; log_count = 0 }

-- `now - g_logWindowStart`, a ULONGLONG.
abbrev pub elapsed : ℕ → ℕ → ℕ
elapsed now start = (now + 2 ^ 64 - start) % 2 ^ 64

unfoldable pub open_window : ℕ → Throttle → Throttle
open_window now s =
    if leb 1000 (elapsed now s.log_window_start)
    then record { log_window_start = now; log_count = 0 }
    else s

-- One line at the tick count `now`: the new state, and whether the line was written.
unfoldable pub server_log_callback : Throttle → ℕ → Throttle × Bool
server_log_callback s now =
    let s' = open_window now s in
    if leb max_logs_per_second s'.log_count
    then (s', false)
    else (record s' { log_count = s'.log_count + 1 }, true)
