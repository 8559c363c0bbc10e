-- ===== src/Exporter/Collector.antt =====
-- `MetricsCollector` of metrics-exporter.ts.
use frida_desktop.Prelude.{
  ℕ, ◌+◌, String, Bool, true, false, ◌&&◌, Option, none, some, ◌==◌, if◌then◌else◌,
}
use frida_desktop.Floats.{Floats}
use frida_desktop.Types.{WatchdogState, stable, observe, dump, failsafe}
use frida_desktop.Exporter.Defs.{
  Exporter, initialize_metrics, record_counter, record_gauge, record_histogram,
}

pub record Collector (N : Type 0) : Type 0 where
  pub exporter : Exporter N
  pub start_time : ℕ
  pub fixes_applied : ℕ
  pub fixes_failed : ℕ
  pub rollbacks_triggered : ℕ
  pub rollbacks_succeeded : ℕ

abbrev pub state_number : WatchdogState → ℕ
state_number stable = 1
state_number observe = 2
state_number dump = 3
state_number failsafe = 4

module _ {N : Type 0} (f : Floats N) (finite : N → Bool) where
  -- The constructor.
  unfoldable pub new_collector : ℕ → Collector N
  unfolding initialize_metrics
  new_collector now = record {
    exporter = initialize_metrics;
    start_time = now;
    fixes_applied = 0;
    fixes_failed = 0;
    rollbacks_triggered = 0;
    rollbacks_succeeded = 0;
  }

  abbrev count : String → Exporter N → Exporter N
  count name s = record_counter f finite name (f.of_nat 1) none s

  unfoldable record_sla_violation : String → Exporter N → Exporter N
  unfolding record_counter
  record_sla_violation name s = count "frida_sla_total_violations" (count name s)

  -- A latency above its limit is a violation.
  abbrev judge : ℕ → String → N → Exporter N → Exporter N
  judge limit name latency s =
      if f.lt (f.of_nat limit) latency then record_sla_violation name s else s

  -- A part of a whole in percent.
  abbrev pub percent : ℕ → ℕ → N
  percent part whole =
      if whole == 0
      then f.of_nat 100
      else f.mul (f.div (f.of_nat part) (f.of_nat whole)) (f.of_nat 100)

  unfoldable record_bug_capture : N → Collector N → Collector N
  unfolding record_counter record_histogram record_sla_violation
  record_bug_capture latency s = record s {
    exporter = judge 100 "frida_sla_bug_capture_violations" latency (
        record_histogram f finite "frida_bug_capture_latency_ms" latency none
          (count "frida_bugs_captured_total" s.exporter));
  }

  unfoldable record_pattern_detection : N → N → Collector N → Collector N
  unfolding record_counter record_histogram record_gauge record_sla_violation
  record_pattern_detection latency confidence s = record s {
    exporter = judge 500 "frida_sla_pattern_detection_violations" latency (
        record_gauge f finite "frida_pattern_confidence_avg" confidence none (
          record_histogram f finite "frida_pattern_detection_latency_ms" latency none
            (count "frida_patterns_detected_total" s.exporter)));
  }

  abbrev count_fix : Bool → Collector N → Collector N
  count_fix true s = record s {
    fixes_applied = s.fixes_applied + 1;
    exporter = count "frida_fixes_applied_total" s.exporter;
  }
  count_fix false s = record s {
    fixes_failed = s.fixes_failed + 1;
    exporter = count "frida_fixes_failed_total" s.exporter;
  }

  abbrev note_fix : N → Collector N → Collector N
  note_fix latency s =
      let rate = percent s.fixes_applied (s.fixes_applied + s.fixes_failed) in
      record s {
        exporter = judge 1000 "frida_sla_fix_application_violations" latency (
            record_gauge f finite "frida_success_rate" rate none (
              record_gauge f finite "frida_fix_success_rate" rate none (
                record_histogram f finite "frida_fix_application_latency_ms" latency none
                  s.exporter)));
      }

  unfoldable record_fix_application : Bool → N → Collector N → Collector N
  unfolding record_counter record_histogram record_gauge record_sla_violation
  record_fix_application success latency s = note_fix latency (count_fix success s)

  abbrev note_rollback : N → Collector N → Collector N
  note_rollback latency s = record s {
    exporter =
        record_gauge f finite "frida_rollback_success_rate"
          (percent s.rollbacks_succeeded s.rollbacks_triggered) none
          (judge 500 "frida_sla_rollback_violations" latency (
            record_histogram f finite "frida_rollback_latency_ms" latency none
              (count "frida_rollbacks_triggered_total" s.exporter)));
  }

  unfoldable record_rollback : Bool → N → Collector N → Collector N
  unfolding record_counter record_histogram record_gauge record_sla_violation
  record_rollback success latency s = note_rollback latency (record s {
    rollbacks_triggered = s.rollbacks_triggered + 1;
    rollbacks_succeeded = if success then s.rollbacks_succeeded + 1 else s.rollbacks_succeeded;
  })

  -- A negative or infinite number is no measurement, and neither is what is not there.
  abbrev measured : String → Option N → Exporter N → Exporter N
  measured name none s = s
  measured name (some v) s =
      if finite v && f.le (f.of_nat 0) v then record_gauge f finite name v none s else s

  abbrev measured_state : Option WatchdogState → Exporter N → Exporter N
  measured_state none s = s
  measured_state (some w) s =
      record_gauge f finite "frida_watchdog_state" (f.of_nat (state_number w)) none s

  -- `uptime` is the time since the start in seconds, rounded; no state is a text that is none.
  unfoldable pub record_system_metrics :
      N → N → N → Option WatchdogState → Option N → Collector N → Collector N
  unfolding record_gauge
  record_system_metrics uptime memory storage state free s = record s {
    exporter = measured_state state (
        measured "frida_disk_free_mb" free (
          measured "frida_storage_usage_mb" (some storage) (
            measured "frida_memory_usage_mb" (some memory)
              (record_gauge f finite "frida_engine_uptime_seconds" uptime none s.exporter))));
  }

  unfoldable record_error : Collector N → Collector N
  unfolding record_counter
  record_error s = record s { exporter = count "frida_errors_total" s.exporter }
