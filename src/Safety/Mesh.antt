-- ===== src/Safety/Mesh.antt =====
-- `RuntimeSafetyMesh` of modules/runtime-learning-engine/runtime-safety-mesh.ts, and `getDiskMetrics`
-- of disk-exhaustion-handler.ts, which it asks.
use frida_desktop.Prelude.{
  ℕ, zero, suc, String, str_eq, Bool, not, Option, none, some, ◌⊎◌, inl, inr, List, [], ◌∷◌, ◌++◌,
  ltb, ◌==◌, if◌then◌else◌, length,
}
use frida_desktop.Floats.{Floats}
use frida_desktop.Disk.Defs.{PressureLevel, healthy, warning, exhausted}
use frida_desktop.Safety.Memory.{MemoryMetrics, get_memory_metrics, is_healthy}
use frida_desktop.Safety.Corruption.{Detection, detect_invalid_json}
use frida_desktop.Alerts.Rules.{AlertCondition, AlertRulesEngine, evaluate_metric}
use frida_desktop.Safety.Report.{
  operational, failed, token_vazio, Stats, Machine, DiskMetrics, DiskObservation,
  CorruptionObservation, Snapshot, critical_file_names, nonzero_or, given_or, evidence_of,
  read_failure, get_integration_registry,
}

module _ {N : Type 0} (f : Floats N) where
  unfoldable pub disk_level : N → PressureLevel
  disk_level free =
      if f.lt free (f.of_nat 50)
      then exhausted
      else if f.lt free (f.of_nat 200)
      then warning
      else healthy

  unfoldable pub get_disk_metrics : ℕ → N → DiskMetrics N
  unfolding disk_level
  get_disk_metrics evicted free = record {
    disk_free_mb = free;
    disk_total_mb = 1024;
    usage_percent = f.mul (f.div (f.sub (f.of_nat 1024) free) (f.of_nat 1024)) (f.of_nat 100);
    level = disk_level free;
    eviction_triggered = not (is_healthy (disk_level free));
    items_evicted = evicted;
    recovery_possible = f.lt (f.of_nat 10) free;
  }

  -- Bytes as megabytes.
  unfoldable pub megabytes : N → N
  megabytes bytes = f.div (f.div bytes (f.of_nat 1024)) (f.of_nat 1024)

  unfoldable pub unknown_disk : DiskObservation N
  unknown_disk = record { evidence = token_vazio; free_mb = none; total_mb = none; level = none }

  module _ (w : Machine N) where
    unfoldable pub memory_of_usage : Option (ℕ × ℕ) → MemoryMetrics N
    unfolding megabytes get_memory_metrics
    memory_of_usage none = get_memory_metrics f (f.of_nat 0) (f.of_nat 0)
    memory_of_usage (some (used, total)) =
        get_memory_metrics f (megabytes (f.of_nat used)) (megabytes (f.of_nat total))

    unfoldable pub observe_memory : MemoryMetrics N
    unfolding memory_of_usage
    observe_memory = memory_of_usage w.memory_usage

    -- The loop of at most eight parents.
    unfoldable pub nearest_existing : ℕ → String → Option String
    nearest_existing zero path = none
    nearest_existing (suc n) path =
        let rest = nearest_existing n (w.dirname path) in
        if w.exists path then some path else if str_eq (w.dirname path) path then none else rest

    abbrev or_cwd : Option String → Option String
    or_cwd none = if w.exists w.cwd then some w.cwd else none
    or_cwd (some path) = some path

    unfoldable pub resolve_observable_path : String → Option String
    unfolding nearest_existing
    resolve_observable_path path = or_cwd (nearest_existing 8 path)

    -- `Math.round(x * 100) / 100`
    abbrev hundredths_of : N → N
    hundredths_of x = f.div (w.round (f.mul x (f.of_nat 100))) (f.of_nat 100)

    unfoldable pub free_megabytes : Stats → N
    unfolding megabytes
    free_megabytes x = megabytes (
        f.mul (f.of_nat (given_or x.bavail (given_or x.bfree 0)))
          (f.of_nat (nonzero_or x.bsize (nonzero_or x.frsize 0))))

    abbrev total_megabytes : ℕ → ℕ → Option N
    total_megabytes blocks size =
        if ltb 0 blocks
        then some (hundredths_of (megabytes (f.mul (f.of_nat blocks) (f.of_nat size))))
        else none

    unfoldable pub disk_of_stats : Option Stats → DiskObservation N
    unfolding unknown_disk free_megabytes get_disk_metrics
    disk_of_stats none = unknown_disk
    disk_of_stats (some x) =
        let size = nonzero_or x.bsize (nonzero_or x.frsize 0) in
        if size == 0 then unknown_disk else record {
          evidence = evidence_of (get_disk_metrics 0 (free_megabytes x)).level;
          free_mb = some (hundredths_of (free_megabytes x));
          total_mb = total_megabytes (nonzero_or x.blocks 0) size;
          level = some (get_disk_metrics 0 (free_megabytes x)).level;
        }

    unfoldable pub disk_at : Option String → DiskObservation N
    unfolding disk_of_stats unknown_disk
    disk_at none = unknown_disk
    disk_at (some path) = disk_of_stats (w.statfs path)

    unfoldable pub observe_disk : String → DiskObservation N
    unfolding disk_at resolve_observable_path unknown_disk
    observe_disk storage =
        if w.has_statfs then disk_at (resolve_observable_path storage) else unknown_disk

    unfoldable pub findings_of : String → String ⊎ String → List Detection
    unfolding read_failure
    findings_of name (inl e) = read_failure name e ∷ []
    findings_of name (inr content) =
        let d = detect_invalid_json w.parse_error content in
        if d.detected then record d { file_name = name } ∷ [] else []

    -- The loop over the candidates: how many exist, and what is wrong with them.
    unfoldable pub inspect_files : String → List String → ℕ × List Detection
    unfolding findings_of
    inspect_files storage [] = (0, [])
    inspect_files storage (name ∷ names) =
        let (checked, found) = inspect_files storage names in
        if w.exists (w.join storage name)
        then (suc checked, findings_of name (w.read (w.join storage name)) ++ found)
        else (checked, found)

    unfoldable pub corruption_of : ℕ × List Detection → CorruptionObservation
    corruption_of (zero, found) = record {
      evidence = token_vazio;
      checked_files = 0;
      corrupt_files = 0;
      findings = [];
    }
    corruption_of (suc n, found) = record {
      evidence = if ltb 0 (length found) then failed else operational;
      checked_files = suc n;
      corrupt_files = length found;
      findings = found;
    }

    unfoldable pub inspect_critical_files : String → CorruptionObservation
    unfolding inspect_files corruption_of
    inspect_critical_files storage = corruption_of (inspect_files storage critical_file_names)

    unfoldable pub snapshot : String → ℕ → Bool → String → Snapshot N
    unfolding observe_memory observe_disk inspect_critical_files get_integration_registry
    snapshot storage now running state = record {
      timestamp = now;
      engine_running = running;
      watchdog_state = state;
      memory = observe_memory;
      disk = observe_disk storage;
      corruption = inspect_critical_files storage;
      components = get_integration_registry w.has_statfs;
    }

  -- `finite` is `Number.isFinite`, and a metric that is no number is none.
  module _ (print : N → String) (finite : N → Bool) where
    unfoldable pub evaluate_alert_metric :
        ℕ → String → N → AlertRulesEngine N → List (AlertCondition N) × AlertRulesEngine N
    unfolding evaluate_metric
    evaluate_alert_metric now metric value s =
        if finite value then evaluate_metric f print now metric value s else ([], s)

    abbrev evaluate_given :
        ℕ → String → Option N → AlertRulesEngine N → List (AlertCondition N) × AlertRulesEngine N
    evaluate_given now metric none s = ([], s)
    evaluate_given now metric (some value) s = evaluate_alert_metric now metric value s

    unfoldable pub evaluate_operational_metrics :
        ℕ
        → List (String × Option N)
        → AlertRulesEngine N
        → List (AlertCondition N) × AlertRulesEngine N
    unfolding evaluate_alert_metric
    evaluate_operational_metrics now [] s = ([], s)
    evaluate_operational_metrics now ((metric, value) ∷ ms) s =
        let (found, s') = evaluate_given now metric value s in
        let (rest, t) = evaluate_operational_metrics now ms s' in (found ++ rest, t)
