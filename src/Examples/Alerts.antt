-- ===== src/Examples/Alerts.antt =====
-- Alerts of the standard rules, with hundredths as numbers.
use frida_desktop.Prelude.{ℕ, String, ◌≡◌, refl, true, false, none, some, Option, [], ◌∷◌, arith}
use frida_desktop.Prelude.Dict
use frida_desktop.Utils.{hex}
use frida_desktop.Alerts.Manager.{Rule, AlertManager, warning, evaluate_rules}
use frida_desktop.Alerts.Standard.{Metrics, new_alert_manager}
use frida_desktop.Alerts.Debounce.{evaluated, resolved_at, run, raises, evaluate_rules_debounced}
use frida_desktop.Alerts.Missed.{evaluate_rules_zero_rate}
use frida_desktop.Examples.Data.{hundredths, hundredths-FloatLaws}

abbrev pub show : ℕ → String
show = hex 4

-- A rule that always holds, once in 60 seconds.
abbrev busy : Rule ℕ
busy = record {
  id = "busy";
  name = "Busy";
  condition = λ c. true;
  severity = warning;
  message = λ c. "busy";
  debounce_seconds = 60;
}

abbrev manager : AlertManager ℕ
manager = record { alerts = []; rules = busy ∷ []; last_alert_time = [] }

raised : raises "busy" (evaluate_rules show 100000 1 manager).0 ≡ true
unfolding evaluate_rules Dict.get
raised = refl

evaluate_rules_debounced_example :
    raises "busy"
      (evaluate_rules show 150000 2 (
        run show
          (evaluated 120000 3 ∷ resolved_at 130000 "busy_86a0" ∷ [])
          (evaluate_rules show 100000 1 manager).1)).0
    ≡ false
evaluate_rules_debounced_example =
    evaluate_rules_debounced show "busy" 60 100000 150000 1 2
      (evaluated 120000 3 ∷ resolved_at 130000 "busy_86a0" ∷ []) manager ((λ h. omega arith), tt)
      raised (omega arith, (tt, tt)) (omega arith) (omega arith)

abbrev pub text_of : Option ℕ → String
text_of none = "undefined"
text_of (some n) = show n

-- Every rollback failed.
abbrev failing : Metrics ℕ
failing = record {
  bug_capture_latency_ms = some 100;
  pattern_detection_latency_ms = none;
  fix_application_latency_ms = none;
  fix_success_rate = some 0;
  memory_usage_mb = none;
  storage_usage_mb = none;
  watchdog_state = some "FAILSAFE";
  errors_last_hour = none;
  rollback_success_rate = some 0;
}

evaluate_rules_zero_rate_example :
    raises "rollback_failure"
      (evaluate_rules show 100000 failing (new_alert_manager hundredths text_of)).0
    ≡ false
evaluate_rules_zero_rate_example =
    evaluate_rules_zero_rate hundredths hundredths-FloatLaws text_of show 100000 failing 0 refl refl
      refl
