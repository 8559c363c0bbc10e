-- ===== src/Watchdog.antt =====
-- modules/runtime-learning-engine/watchdog-monitor.ts: `WatchdogMonitorImpl`. The time is an
-- argument, a timer is whether it is set, and the rollback callback is run by the caller when
-- `check_epoch_timeout` says so. The disk is in the state: what the file holds and whether it takes
-- writes.
pub mod Timeout
use frida_desktop.Prelude.{
  ℕ, ◌+◌, ◌-◌, ◌/◌, Bool, true, false, Option, none, some, List, [], ◌∷◌, ◌++◌, ltb, length,
  slice_last, if◌then◌else◌,
}
use frida_desktop.Types.{WatchdogEvent, WatchdogState, stable, failsafe}

-- The reading of an event file: it is missing, cannot be parsed, or holds events.
pub data EventFile : Type 0 where
  missing unreadable : EventFile
  stored : List WatchdogEvent → EventFile

pub record Watchdog : Type 0 where
  pub monitoring : Bool
  pub heartbeat_timer : Bool
  pub epoch_timer : Bool
  pub heartbeat_count : ℕ
  pub current_epoch : ℕ
  pub trap_count : ℕ
  pub current_state : WatchdogState
  pub rollback_callback : Bool
  pub last_heartbeat_time : ℕ
  pub epoch_timeout : ℕ
  pub file : EventFile
  pub disk_ok : Bool

unfoldable pub new_watchdog : ℕ → Watchdog
new_watchdog epoch_timeout = record {
  monitoring = false;
  heartbeat_timer = false;
  epoch_timer = false;
  heartbeat_count = 0;
  current_epoch = 0;
  trap_count = 0;
  current_state = stable;
  rollback_callback = false;
  last_heartbeat_time = 0;
  epoch_timeout = epoch_timeout;
  file = missing;
  disk_ok = true;
}

abbrev pub max_events : ℕ
max_events = 1000

unfoldable pub push_event : WatchdogEvent → List WatchdogEvent → List WatchdogEvent
push_event e es =
    let grown = es ++ e ∷ [] in
    if ltb max_events (length grown) then slice_last max_events grown else grown

-- A file that cannot be parsed is not overwritten.
unfoldable pub file_with : WatchdogEvent → EventFile → EventFile
unfolding push_event
file_with e missing = stored (push_event e [])
file_with e unreadable = unreadable
file_with e (stored es) = stored (push_event e es)

unfoldable pub record_event : WatchdogEvent → Watchdog → Watchdog
record_event e s = if s.disk_ok then record s { file = file_with e s.file } else s

unfoldable pub start_watchdog : ℕ → Watchdog → Watchdog
start_watchdog now s = if s.monitoring then s else record s {
  monitoring = true;
  heartbeat_count = 0;
  current_epoch = now / 1000;
  trap_count = 0;
  last_heartbeat_time = now;
  heartbeat_timer = true;
  epoch_timer = true;
}

unfoldable pub stop_watchdog : Watchdog → Watchdog
stop_watchdog s =
    if s.monitoring
    then record s { heartbeat_timer = false; epoch_timer = false; monitoring = false }
    else s

abbrev pub beat_event : ℕ → Watchdog → WatchdogEvent
beat_event now s = record {
  timestamp = now;
  heartbeat_count = s.heartbeat_count;
  epoch = s.current_epoch;
  state = s.current_state;
  trap_count = s.trap_count;
  rollback_triggered = none;
  reason = none;
}

unfoldable pub heartbeat : ℕ → Watchdog → Watchdog
heartbeat now s =
    let s' = record s { heartbeat_count = s.heartbeat_count + 1; last_heartbeat_time = now } in
    record_event (beat_event now s') s'

-- The reason of a timeout event is the age of the last heartbeat.
abbrev pub timeout_event : ℕ → Watchdog → WatchdogEvent
timeout_event now s = record (beat_event now s) {
  rollback_triggered = some true;
  reason = some (now - s.last_heartbeat_time);
}

-- A timeout: it is logged with the state and the traps already changed, and a new epoch begins.
unfoldable pub trip : ℕ → Watchdog → Watchdog × Bool
trip now s =
    let tripped = record s { current_state = failsafe; trap_count = s.trap_count + 1 } in
    let logged = record_event (timeout_event now tripped) tripped in
    (
      record logged { current_epoch = s.current_epoch + 1; last_heartbeat_time = now },
      s.rollback_callback,
    )

-- The new state, and whether the rollback callback is called. A clock that was set back gives a
-- negative age, which is no timeout; truncated subtraction gives 0, which is none either.
unfoldable pub check_epoch_timeout : ℕ → Watchdog → Watchdog × Bool
check_epoch_timeout now s =
    if s.monitoring
    then (if ltb s.epoch_timeout (now - s.last_heartbeat_time) then trip now s else (s, false))
    else (s, false)

unfoldable pub set_state : WatchdogState → Watchdog → Watchdog
set_state state s = record s { current_state = state }

unfoldable pub increment_trap_count : Watchdog → Watchdog
increment_trap_count s = record s { trap_count = s.trap_count + 1 }

unfoldable pub set_rollback_callback : Watchdog → Watchdog
set_rollback_callback s = record s { rollback_callback = true }
