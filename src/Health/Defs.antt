-- ===== src/Health/Defs.antt =====
-- `HealthCheckEndpoint` of modules/runtime-learning-engine/health-check-endpoint.ts. Latencies and times are
-- whole milliseconds, megabytes and rates are doubles. What is measured outside of the engine is the
-- interface `Surroundings`; the time is an argument.
use frida_desktop.Prelude.{
  ℕ, ◌+◌, ◌-◌, ◌*◌, ◌/◌, String, includes, Bool, true, false, not, ◌&&◌, ◌||◌, Option, none, some,
  List, [], ◌∷◌, ◌++◌, ltb, leb, ◌==◌, if◌then◌else◌, filter, length, drop,
}
use frida_desktop.Prelude.Dict
use frida_desktop.Prelude.Dict.{Dict}
use frida_desktop.Floats.{Floats}
use frida_desktop.Types.{WatchdogState, failsafe}
use frida_desktop.Engine.Defs.{Engine}

pub data HealthStatus : Type 0 where
  healthy degraded critical : HealthStatus

pub data MemorySource : Type 0 where
  target_runtime host_process_only unknown_source : MemorySource

-- A line of audit.log: blank, no JSON, or an entry with its time and its result in lower case.
pub data AuditLine : Type 0 where
  blank malformed : AuditLine
  entry : ℕ → String → AuditLine

-- `target` is what the provider answers, none without one and where it throws; `host` the heap of the
-- process in megabytes; `sizes` the size in bytes of each tracked file, none where it is not there,
-- and none of all where a size cannot be read; `audit` the lines of the log, none where it is not
-- there or cannot be read. `round` is `Math.round`.
pub record Surroundings (N : Type 0) : Type 0 where
  pub target : Option N
  pub host : Option N
  pub sizes : Option (List (Option ℕ))
  pub audit : Option (List AuditLine)
  pub finite : N → Bool
  pub round : N → N

-- The map `metrics` by the kind of its keys.
pub record Endpoint : Type 0 where
  pub start_time : ℕ
  pub latencies : Dict (List ℕ)
  pub recent : Dict (List ℕ)
  pub fixes_successful : ℕ
  pub fixes_attempted : ℕ

-- What the endpoint reads of `getStats` and `isRunning`.
pub record EngineStats : Type 0 where
  pub running : Bool
  pub recent_bugs_count : ℕ
  pub pending_rollbacks : ℕ
  pub patterns_count : ℕ
  pub fixes_applied : ℕ
  pub rollbacks_triggered : ℕ
  pub rollback_failures : ℕ
  pub last_heartbeat : ℕ
  pub watchdog_state : WatchdogState

-- -1 megabytes is none.
pub record MemoryObservation (N : Type 0) : Type 0 where
  pub target_mb : Option N
  pub host_process_mb : Option N
  pub source : MemorySource

pub record HealthCheckResponse (N : Type 0) : Type 0 where
  pub status : HealthStatus
  pub complete : Bool
  pub timestamp : ℕ
  pub engine_running : Bool
  pub uptime_ms : ℕ
  pub bugs_captured : ℕ
  pub patterns_detected : ℕ
  pub fixes_applied : ℕ
  pub rollbacks_triggered : ℕ
  pub success_rate : N
  pub critical_violations : ℕ
  pub warning_violations : ℕ
  pub last_heartbeat : ℕ
  pub watchdog_state : WatchdogState
  pub memory : MemoryObservation N
  pub storage_used_mb : N
  pub errors_last_hour : ℕ
  pub evidence_gaps : List String

pub record MetricsSnapshot (N : Type 0) : Type 0 where
  pub timestamp : ℕ
  pub bug_capture_rate : ℕ
  pub pattern_detection_rate : ℕ
  pub fix_success_rate : N
  pub rollback_rate : ℕ
  pub bug_capture_ms : ℕ
  pub pattern_detection_ms : ℕ
  pub fix_application_ms : ℕ
  pub rollback_ms : ℕ
  pub bug_capture_ok : Bool
  pub pattern_detection_ok : Bool
  pub fix_application_ok : Bool
  pub rollback_ok : Bool
  pub success_rate_ok : Bool

unfoldable pub get_stats : {N M : Type 0} → Engine N M → EngineStats
get_stats s = record {
  running = s.running;
  recent_bugs_count = length s.recent_bugs;
  pending_rollbacks = length s.pending_rollbacks;
  patterns_count = s.counters.patterns_detected;
  fixes_applied = s.counters.fixes_applied;
  rollbacks_triggered = s.counters.rollbacks_triggered;
  rollback_failures = s.counters.rollback_failures;
  last_heartbeat = s.watchdog.last_heartbeat_time;
  watchdog_state = s.watchdog.current_state;
}

abbrev pub list_or_empty : Option (List ℕ) → List ℕ
list_or_empty none = []
list_or_empty (some xs) = xs

-- A push, and a shift of the first over the limit.
unfoldable pub push_limited : ℕ → ℕ → List ℕ → List ℕ
push_limited limit x xs =
    let grown = xs ++ x ∷ [] in if ltb limit (length grown) then drop 1 grown else grown

unfoldable pub record_latency : String → ℕ → Endpoint → Endpoint
unfolding push_limited
record_latency kind ms s = record s {
  latencies =
      Dict.set kind (push_limited 100 ms (list_or_empty (Dict.get kind s.latencies))) s.latencies;
}

unfoldable pub record_event : String → ℕ → Endpoint → Endpoint
unfolding push_limited
record_event kind now s = record s {
  recent = Dict.set kind (push_limited 1000 now (list_or_empty (Dict.get kind s.recent))) s.recent;
}

unfoldable pub record_success : Endpoint → Endpoint
record_success s = record s {
  fixes_successful = s.fixes_successful + 1;
  fixes_attempted = s.fixes_attempted + 1;
}

unfoldable pub record_failure : Endpoint → Endpoint
record_failure s = record s { fixes_attempted = s.fixes_attempted + 1 }

abbrev pub sum : List ℕ → ℕ
sum [] = 0
sum (x ∷ xs) = x + sum xs

-- `Math.round` of the mean, halves up.
abbrev pub mean : List ℕ → ℕ
mean [] = 0
mean (x ∷ xs) = (sum (x ∷ xs) * 2 + length (x ∷ xs)) / (length (x ∷ xs) * 2)

unfoldable pub get_average_latency : String → Endpoint → ℕ
get_average_latency kind s = mean (list_or_empty (Dict.get kind s.latencies))

-- `event.timestamp > Date.now() - 60000`
unfoldable pub calculate_event_rate : ℕ → String → Endpoint → ℕ
calculate_event_rate now kind s =
    length (filter (λ t. ltb now (t + 60000)) (list_or_empty (Dict.get kind s.recent)))

abbrev is_error : ℕ → AuditLine → Bool
is_error now blank = false
is_error now malformed = true
is_error now (entry t result) =
    leb now (t + 3600000) && (includes "fail" result || includes "error" result)

abbrev errors_in : ℕ → Option (List AuditLine) → ℕ
errors_in now none = 0
errors_in now (some ls) = length (filter (is_error now) ls)

abbrev pub total_size : List (Option ℕ) → ℕ
total_size [] = 0
total_size (none ∷ xs) = total_size xs
total_size (some n ∷ xs) = n + total_size xs

abbrev is_target : MemorySource → Bool
is_target target_runtime = true
is_target _ = false

abbrev pub is_failsafe : WatchdogState → Bool
is_failsafe failsafe = true
is_failsafe _ = false

-- One where it holds.
abbrev pub one_if : Bool → ℕ
one_if true = 1
one_if false = 0

unfoldable pub status_of : ℕ → ℕ → HealthStatus
status_of criticals warnings =
    if ltb 0 criticals then critical else if ltb 0 warnings then degraded else healthy

module _ {N : Type 0} (f : Floats N) (w : Surroundings N) where
  unfoldable pub success_rate : Endpoint → N
  success_rate s =
      if s.fixes_attempted == 0
      then f.of_nat 100
      else w.round
          (f.mul (f.div (f.of_nat s.fixes_successful) (f.of_nat s.fixes_attempted)) (f.of_nat 100))

  abbrev pub hundredths : N → N
  hundredths x = f.div (w.round (f.mul x (f.of_nat 100))) (f.of_nat 100)

  abbrev pub storage_of : Option (List (Option ℕ)) → N
  storage_of none = f.of_nat 0
  storage_of (some sizes) =
      hundredths (f.div (f.div (f.of_nat (total_size sizes)) (f.of_nat 1024)) (f.of_nat 1024))

  unfoldable pub calculate_storage_usage : N
  calculate_storage_usage = storage_of w.sizes

  unfoldable pub count_errors_last_hour : ℕ → ℕ
  count_errors_last_hour now = errors_in now w.audit

  abbrev pub rounded : Option N → Option N
  rounded none = none
  rounded (some x) = some (hundredths x)

  abbrev pub from_host : Option N → MemoryObservation N
  from_host none = record { target_mb = none; host_process_mb = none; source = unknown_source }
  from_host (some x) = record {
    target_mb = none;
    host_process_mb = some x;
    source = host_process_only;
  }

  abbrev pub from_target : Option N → MemoryObservation N
  from_target none = from_host (rounded w.host)
  from_target (some x) =
      if w.finite x && f.le (f.of_nat 0) x
      then record {
        target_mb = some (hundredths x);
        host_process_mb = rounded w.host;
        source = target_runtime;
      }
      else from_host (rounded w.host)

  unfoldable pub get_memory_observation : MemoryObservation N
  get_memory_observation = from_target w.target

  abbrev pub exceeds : ℕ → Option N → Bool
  exceeds limit none = false
  exceeds limit (some x) = f.lt (f.of_nat limit) x

  abbrev pub rate_below : ℕ → Endpoint → Bool
  rate_below limit s = ltb 0 s.fixes_attempted && f.lt (success_rate s) (f.of_nat limit)

  -- The violations that are critical, and the warnings: of a pair, a warning is no critical one.
  unfoldable pub count_criticals : ℕ → EngineStats → Endpoint → ℕ
  unfolding success_rate get_average_latency calculate_storage_usage get_memory_observation
  count_criticals now e s =
      one_if (ltb 100 (get_average_latency "bug_capture" s))
      + one_if (rate_below 80 s)
      + one_if (exceeds 300 get_memory_observation.target_mb)
      + one_if (f.lt (f.of_nat 900) calculate_storage_usage)
      + one_if (is_failsafe e.watchdog_state)

  unfoldable pub count_warnings : ℕ → EngineStats → Endpoint → ℕ
  unfolding success_rate get_average_latency get_memory_observation count_errors_last_hour
  count_warnings now e s =
      one_if (
        not (ltb 100 (get_average_latency "bug_capture" s))
        && ltb 80 (get_average_latency "bug_capture" s))
      + one_if (not (rate_below 80 s) && rate_below 90 s)
      + one_if (
          not (exceeds 300 get_memory_observation.target_mb)
          && exceeds 250 get_memory_observation.target_mb)
      + one_if (ltb 20 (count_errors_last_hour now))
      + one_if (not e.running)

  abbrev when : Bool → String → List String
  when true x = x ∷ []
  when false x = []

  abbrev gaps : EngineStats → List String
  gaps e =
      when (e.last_heartbeat == 0) "last_heartbeat=TOKEN_VAZIO"
      ++ when (not (is_target get_memory_observation.source)) "target_memory_usage_mb=TOKEN_VAZIO"

  unfoldable pub get_health_status : ℕ → EngineStats → Endpoint → HealthCheckResponse N
  unfolding count_criticals count_warnings status_of
  get_health_status now e s = record {
    status = status_of (count_criticals now e s) (count_warnings now e s);
    complete = not (ltb 0 (length (gaps e)));
    timestamp = now;
    engine_running = e.running;
    uptime_ms = now - s.start_time;
    bugs_captured = e.recent_bugs_count;
    patterns_detected = e.patterns_count;
    fixes_applied = e.fixes_applied;
    rollbacks_triggered = e.rollbacks_triggered;
    success_rate = success_rate s;
    critical_violations = count_criticals now e s;
    warning_violations = count_warnings now e s;
    last_heartbeat = e.last_heartbeat;
    watchdog_state = e.watchdog_state;
    memory = get_memory_observation;
    storage_used_mb = calculate_storage_usage;
    errors_last_hour = count_errors_last_hour now;
    evidence_gaps = gaps e;
  }

  unfoldable pub get_metrics_snapshot : ℕ → Endpoint → MetricsSnapshot N
  unfolding success_rate get_average_latency calculate_event_rate
  get_metrics_snapshot now s = record {
    timestamp = now;
    bug_capture_rate = calculate_event_rate now "bug_capture" s;
    pattern_detection_rate = calculate_event_rate now "pattern_detection" s;
    fix_success_rate = success_rate s;
    rollback_rate = calculate_event_rate now "rollback" s;
    bug_capture_ms = get_average_latency "bug_capture" s;
    pattern_detection_ms = get_average_latency "pattern_detection" s;
    fix_application_ms = get_average_latency "fix_application" s;
    rollback_ms = get_average_latency "rollback" s;
    bug_capture_ok = leb (get_average_latency "bug_capture" s) 100;
    pattern_detection_ok = leb (get_average_latency "pattern_detection" s) 500;
    fix_application_ok = leb (get_average_latency "fix_application" s) 1000;
    rollback_ok = leb (get_average_latency "rollback" s) 500;
    success_rate_ok = s.fixes_attempted == 0 || f.le (f.of_nat 80) (success_rate s);
  }
