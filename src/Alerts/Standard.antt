-- ===== src/Alerts/Standard.antt =====
-- The metrics and the rules that `AlertManager` starts with, alert-manager.ts.
use frida_desktop.Prelude.{
  ℕ, String, str_append, str_eq, Bool, false, ◌||◌, Option, none, some, List, [], ◌∷◌,
  if◌then◌else◌,
}
use frida_desktop.Floats.{Floats}
use frida_desktop.Alerts.Manager.{Rule, AlertManager, critical, warning}

pub record Metrics (N : Type 0) : Type 0 where
  pub bug_capture_latency_ms : Option N
  pub pattern_detection_latency_ms : Option N
  pub fix_application_latency_ms : Option N
  pub fix_success_rate : Option N
  pub memory_usage_mb : Option N
  pub storage_usage_mb : Option N
  pub watchdog_state : Option String
  pub errors_last_hour : Option N
  pub rollback_success_rate : Option N

abbrev is_failsafe : Option String → Bool
is_failsafe none = false
is_failsafe (some s) = str_eq s "FAILSAFE"

module _ {N : Type 0} (f : Floats N) (print : Option N → String) where
  -- `x || n`: 0, NaN and what is not there are falsy.
  unfoldable pub number_or : Option N → ℕ → N
  number_or none n = f.of_nat n
  number_or (some x) n = if f.lt (f.of_nat 0) x || f.lt x (f.of_nat 0) then x else f.of_nat n

  abbrev exceeds : Option N → ℕ → Bool
  exceeds x n = f.lt (f.of_nat n) (number_or x 0)

  abbrev falls_below : Option N → ℕ → Bool
  falls_below x n = f.lt (number_or x 100) (f.of_nat n)

  abbrev saying : String → Option N → String → String
  saying before x after = str_append before (str_append (print x) after)

  unfoldable pub standard_rules : List (Rule (Metrics N))
  unfolding number_or
  standard_rules =
      record {
        id = "sla_bug_capture_latency";
        name = "Bug Capture Latency SLA Violation";
        condition = λ m. exceeds m.bug_capture_latency_ms 100;
        severity = critical;
        message =
            λ m. saying "Bug capture latency " m.bug_capture_latency_ms "ms exceeds 100ms SLA";
        debounce_seconds = 60;
      }
      ∷ record {
        id = "sla_pattern_detection_latency";
        name = "Pattern Detection Latency SLA Violation";
        condition = λ m. exceeds m.pattern_detection_latency_ms 500;
        severity = warning;
        message = λ m.
            saying "Pattern detection latency " m.pattern_detection_latency_ms
              "ms exceeds 500ms SLA";
        debounce_seconds = 60;
      }
      ∷ record {
        id = "sla_fix_application_latency";
        name = "Fix Application Latency SLA Violation";
        condition = λ m. exceeds m.fix_application_latency_ms 1000;
        severity = warning;
        message = λ m.
            saying "Fix application latency " m.fix_application_latency_ms "ms exceeds 1000ms SLA";
        debounce_seconds = 60;
      }
      ∷ record {
        id = "sla_fix_success_rate";
        name = "Fix Success Rate SLA Violation";
        condition = λ m. falls_below m.fix_success_rate 80;
        severity = critical;
        message = λ m. saying "Fix success rate " m.fix_success_rate "% below 80% SLA";
        debounce_seconds = 300;
      }
      ∷ record {
        id = "high_memory_usage";
        name = "High Memory Usage Warning";
        condition = λ m. exceeds m.memory_usage_mb 500;
        severity = warning;
        message = λ m. saying "Memory usage " m.memory_usage_mb "MB exceeds 500MB threshold";
        debounce_seconds = 120;
      }
      ∷ record {
        id = "high_storage_usage";
        name = "High Storage Usage Critical";
        condition = λ m. exceeds m.storage_usage_mb 900;
        severity = critical;
        message = λ m. saying "Storage usage " m.storage_usage_mb "MB exceeds 900MB threshold";
        debounce_seconds = 300;
      }
      ∷ record {
        id = "watchdog_failsafe";
        name = "Watchdog FAILSAFE Mode";
        condition = λ m. is_failsafe m.watchdog_state;
        severity = critical;
        message = λ m. "Watchdog is in FAILSAFE mode - engine may be in degraded state";
        debounce_seconds = 0;
      }
      ∷ record {
        id = "high_error_rate";
        name = "High Error Rate";
        condition = λ m. exceeds m.errors_last_hour 20;
        severity = warning;
        message = λ m. saying "" m.errors_last_hour " errors detected in the last hour";
        debounce_seconds = 300;
      }
      ∷ record {
        id = "rollback_failure";
        name = "Rollback Failure Detected";
        condition = λ m. falls_below m.rollback_success_rate 95;
        severity = critical;
        message = λ m.
            saying "Rollback success rate " m.rollback_success_rate
              "% is below acceptable threshold";
        debounce_seconds = 60;
      }
      ∷ []

  -- The constructor.
  unfoldable pub new_alert_manager : AlertManager (Metrics N)
  unfolding standard_rules
  new_alert_manager = record { alerts = []; rules = standard_rules; last_alert_time = [] }
