-- ===== src/Alerts/Defaults.antt =====
-- The rules that `AlertRulesEngine` registers when it is made, alert-rules-3-2.ts.
use frida_desktop.Prelude.{true, some, none, List, [], ◌∷◌}
use frida_desktop.Floats.{Floats}
use frida_desktop.Alerts.Rules.{
  AlertRule, AlertRulesEngine, register_rule, above, below, equal_to, critical_alert, warning_alert,
}

module _ {N : Type 0} (f : Floats N) where
  unfoldable pub default_rules : List (AlertRule N)
  default_rules =
      record {
        id = "sla_bug_capture_critical";
        name = "Bug Capture Latency Critical";
        description = "Bug capture latency exceeds 100ms (critical threshold)";
        metric = "frida_bug_capture_latency_ms";
        threshold = f.of_nat 100;
        operator = above;
        severity = critical_alert;
        enabled = true;
        duration_seconds = some 30;
      }
      ∷ record {
        id = "sla_bug_capture_warning";
        name = "Bug Capture Latency Warning";
        description = "Bug capture latency exceeds 80ms (warning threshold)";
        metric = "frida_bug_capture_latency_ms";
        threshold = f.of_nat 80;
        operator = above;
        severity = warning_alert;
        enabled = true;
        duration_seconds = some 30;
      }
      ∷ record {
        id = "sla_pattern_detection_critical";
        name = "Pattern Detection Latency Critical";
        description = "Pattern detection exceeds 500ms (critical threshold)";
        metric = "frida_pattern_detection_latency_ms";
        threshold = f.of_nat 500;
        operator = above;
        severity = critical_alert;
        enabled = true;
        duration_seconds = some 60;
      }
      ∷ record {
        id = "sla_pattern_detection_warning";
        name = "Pattern Detection Latency Warning";
        description = "Pattern detection exceeds 400ms (warning threshold)";
        metric = "frida_pattern_detection_latency_ms";
        threshold = f.of_nat 400;
        operator = above;
        severity = warning_alert;
        enabled = true;
        duration_seconds = some 60;
      }
      ∷ record {
        id = "sla_fix_application_critical";
        name = "Fix Application Latency Critical";
        description = "Fix application exceeds 1000ms (critical threshold)";
        metric = "frida_fix_application_latency_ms";
        threshold = f.of_nat 1000;
        operator = above;
        severity = critical_alert;
        enabled = true;
        duration_seconds = some 60;
      }
      ∷ record {
        id = "sla_fix_application_warning";
        name = "Fix Application Latency Warning";
        description = "Fix application exceeds 800ms (warning threshold)";
        metric = "frida_fix_application_latency_ms";
        threshold = f.of_nat 800;
        operator = above;
        severity = warning_alert;
        enabled = true;
        duration_seconds = some 60;
      }
      ∷ record {
        id = "sla_success_rate_critical";
        name = "Success Rate Critical";
        description = "Fix success rate drops below 80%";
        metric = "frida_success_rate";
        threshold = f.of_nat 80;
        operator = below;
        severity = critical_alert;
        enabled = true;
        duration_seconds = some 120;
      }
      ∷ record {
        id = "sla_success_rate_warning";
        name = "Success Rate Warning";
        description = "Fix success rate drops below 90%";
        metric = "frida_success_rate";
        threshold = f.of_nat 90;
        operator = below;
        severity = warning_alert;
        enabled = true;
        duration_seconds = some 120;
      }
      ∷ record {
        id = "resource_memory_critical";
        name = "Memory Usage Critical";
        description = "Memory usage exceeds 300MB";
        metric = "frida_memory_usage_mb";
        threshold = f.of_nat 300;
        operator = above;
        severity = critical_alert;
        enabled = true;
        duration_seconds = some 60;
      }
      ∷ record {
        id = "resource_memory_warning";
        name = "Memory Usage Warning";
        description = "Memory usage exceeds 250MB";
        metric = "frida_memory_usage_mb";
        threshold = f.of_nat 250;
        operator = above;
        severity = warning_alert;
        enabled = true;
        duration_seconds = some 60;
      }
      ∷ record {
        id = "resource_disk_critical";
        name = "Disk Space Critical";
        description = "Free disk space drops below 50MB";
        metric = "frida_disk_free_mb";
        threshold = f.of_nat 50;
        operator = below;
        severity = critical_alert;
        enabled = true;
        duration_seconds = some 30;
      }
      ∷ record {
        id = "resource_disk_warning";
        name = "Disk Space Warning";
        description = "Free disk space drops below 100MB";
        metric = "frida_disk_free_mb";
        threshold = f.of_nat 100;
        operator = below;
        severity = warning_alert;
        enabled = true;
        duration_seconds = some 30;
      }
      ∷ record {
        id = "watchdog_failsafe_critical";
        name = "Watchdog Failsafe Activated";
        description = "Watchdog has entered FAILSAFE mode (read-only)";
        metric = "frida_watchdog_state";
        threshold = f.of_nat 4;
        operator = equal_to;
        severity = critical_alert;
        enabled = true;
        duration_seconds = none;
      }
      ∷ record {
        id = "sla_violations_warning";
        name = "SLA Violations Detected";
        description = "One or more SLA violations detected";
        metric = "frida_sla_total_violations";
        threshold = f.of_nat 0;
        operator = above;
        severity = warning_alert;
        enabled = true;
        duration_seconds = some 60;
      }
      ∷ []

  unfoldable pub register_all : List (AlertRule N) → AlertRulesEngine N → AlertRulesEngine N
  unfolding register_rule
  register_all [] s = s
  register_all (r ∷ rs) s = register_all rs (register_rule r s)

  -- The constructor.
  unfoldable pub new_alert_rules : AlertRulesEngine N
  unfolding default_rules register_all
  new_alert_rules = register_all default_rules (record { rules = []; alert_history = [] })
