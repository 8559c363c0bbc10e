-- ===== src/Observe/Defs.antt =====
-- `refreshObservability` of modules/runtime-learning-engine/index.ts over the parts that it calls: the
-- safety mesh, the health endpoint, the collector of metrics, the alert manager and the alert rules.
use frida_desktop.Prelude.{
  ℕ, ◌+◌, ◌-◌, String, Bool, Option, none, some, List, [], ◌∷◌, ltb, if◌then◌else◌, length,
}
use frida_desktop.Floats.{Floats}
use frida_desktop.Types.{WatchdogState, stable, observe, dump, failsafe}
use frida_desktop.Engine.Defs.{Engine}
use frida_desktop.Safety.Report.{Machine}
use frida_desktop.Safety.Mesh.{snapshot, evaluate_operational_metrics}
use frida_desktop.Health.Defs.{
  Surroundings, Endpoint, HealthCheckResponse, MetricsSnapshot, get_stats, get_health_status,
  get_metrics_snapshot,
}
use frida_desktop.Exporter.Collector.{Collector, record_system_metrics, percent, state_number}
use frida_desktop.Alerts.Manager.{Alert, AlertManager, AlertsFile, evaluate_rules, save_alerts}
use frida_desktop.Alerts.Standard.{Metrics}
use frida_desktop.Alerts.Rules.{AlertRulesEngine}

-- What the engine reports to. `alerts_file` is alerts.json.
pub record Observers (N : Type 0) : Type 0 where
  pub endpoint : Endpoint
  pub collector : Collector N
  pub manager : AlertManager (Metrics N)
  pub rules : AlertRulesEngine N
  pub alerts_file : AlertsFile (Metrics N)
  pub disk_ok : Bool

abbrev pub state_text : WatchdogState → String
state_text stable = "STABLE"
state_text observe = "OBSERVE"
state_text dump = "DUMP"
state_text failsafe = "FAILSAFE"

-- -1 where the memory is not observed.
abbrev or_sentinel : {N : Type 0} → Floats N → Option N → N
or_sentinel f none = f.sub (f.of_nat 0) (f.of_nat 1)
or_sentinel f (some x) = x

module _ {N M : Type 0} (f : Floats N) (w : Surroundings N) (machine : Machine N) (storage : String)
    (show : ℕ → String) (print : N → String) where
  -- There are no more failed rollbacks than triggered ones.
  unfoldable pub rollback_success_rate : Engine N M → N
  rollback_success_rate s =
      let attempts = s.counters.rollbacks_triggered in
      percent f w.finite (attempts - s.counters.rollback_failures) attempts

  unfoldable pub normalized_metrics :
      HealthCheckResponse N → MetricsSnapshot N → Engine N M → Metrics N
  unfolding rollback_success_rate
  normalized_metrics h m s = record {
    bug_capture_latency_ms = some (f.of_nat m.bug_capture_ms);
    pattern_detection_latency_ms = some (f.of_nat m.pattern_detection_ms);
    fix_application_latency_ms = some (f.of_nat m.fix_application_ms);
    fix_success_rate = some m.fix_success_rate;
    memory_usage_mb = some (or_sentinel f h.memory.target_mb);
    storage_usage_mb = some h.storage_used_mb;
    watchdog_state = some (state_text s.watchdog.current_state);
    errors_last_hour = some (f.of_nat h.errors_last_hour);
    rollback_success_rate = some (rollback_success_rate s);
  }

  unfoldable pub operational_metrics :
      HealthCheckResponse N → MetricsSnapshot N → Option N → Engine N M → List (String × Option N)
  operational_metrics h m free s =
      ("frida_bug_capture_latency_ms", some (f.of_nat m.bug_capture_ms))
      ∷ ("frida_pattern_detection_latency_ms", some (f.of_nat m.pattern_detection_ms))
      ∷ ("frida_fix_application_latency_ms", some (f.of_nat m.fix_application_ms))
      ∷ ("frida_success_rate", some m.fix_success_rate)
      ∷ ("frida_memory_usage_mb", some (or_sentinel f h.memory.target_mb))
      ∷ ("frida_disk_free_mb", free)
      ∷ ("frida_watchdog_state", some (f.of_nat (state_number s.watchdog.current_state)))
      ∷ (
        "frida_sla_total_violations",
        some (f.of_nat (h.critical_violations + h.warning_violations)),
      )
      ∷ []

  unfoldable pub refresh_observability :
      ℕ → Engine N M → Observers N → List (Alert (Metrics N)) × Observers N
  unfolding normalized_metrics operational_metrics
  refresh_observability now s o =
      let safety = snapshot f machine storage now s.running (state_text s.watchdog.current_state) in
      let h = get_health_status f w now (get_stats s) o.endpoint in
      let m = get_metrics_snapshot f w now o.endpoint in
      let uptime = w.round (f.div (f.of_nat (now - o.collector.start_time)) (f.of_nat 1000)) in
      let (alerts, manager) = evaluate_rules show now (normalized_metrics h m s) o.manager in
      let (found, rules) =
        evaluate_operational_metrics f print w.finite now
          (operational_metrics h m safety.disk.free_mb s) o.rules in
      (
        alerts,
        record o {
          collector =
              record_system_metrics f w.finite uptime (or_sentinel f h.memory.target_mb)
                h.storage_used_mb (some s.watchdog.current_state) none o.collector;
          manager = manager;
          rules = rules;
          alerts_file =
              if ltb 0 (length alerts)
              then save_alerts o.disk_ok manager o.alerts_file
              else o.alerts_file;
        },
      )
