-- ===== src/Safety/Report.antt =====
-- What `RuntimeSafetyMesh` of modules/runtime-learning-engine/runtime-safety-mesh.ts reports, and what it
-- asks: Node is the interface `Machine`.
use frida_desktop.Prelude.{
  ℕ, zero, suc, String, str_append, Bool, true, false, Option, none, some, ◌⊎◌, List, [], ◌∷◌,
  if◌then◌else◌,
}
use frida_desktop.Types.{critical}
use frida_desktop.Disk.Defs.{PressureLevel, healthy, warning, exhausted}
use frida_desktop.Safety.Memory.{MemoryMetrics}
use frida_desktop.Safety.Corruption.{Detection, invalid_json}

pub data Evidence : Type 0 where
  operational degraded failed token_vazio test_harness_only : Evidence

-- What `statfsSync` answers; a field that is missing is none.
pub record Stats : Type 0 where
  pub bsize : Option ℕ
  pub frsize : Option ℕ
  pub bavail : Option ℕ
  pub bfree : Option ℕ
  pub blocks : Option ℕ

-- `none` of `memory_usage` and `statfs` is an exception, and so is a text on the left of `read`; `has_statfs` says whether Node has
-- the function; `parse_error` is the message of `JSON.parse`.
pub record Machine (N : Type 0) : Type 0 where
  pub memory_usage : Option (ℕ × ℕ)
  pub has_statfs : Bool
  pub statfs : String → Option Stats
  pub exists : String → Bool
  pub read : String → String ⊎ String
  pub parse_error : String → Option String
  pub join : String → String → String
  pub dirname : String → String
  pub cwd : String
  pub round : N → N

pub record DiskMetrics (N : Type 0) : Type 0 where
  pub disk_free_mb : N
  pub disk_total_mb : ℕ
  pub usage_percent : N
  pub level : PressureLevel
  pub eviction_triggered : Bool
  pub items_evicted : ℕ
  pub recovery_possible : Bool

-- `none` for a size is null, and for the level 'unknown'.
pub record DiskObservation (N : Type 0) : Type 0 where
  pub evidence : Evidence
  pub free_mb : Option N
  pub total_mb : Option N
  pub level : Option PressureLevel

pub record CorruptionObservation : Type 0 where
  pub evidence : Evidence
  pub checked_files : ℕ
  pub corrupt_files : ℕ
  pub findings : List Detection

pub record Component : Type 0 where
  pub component : String
  pub role : String
  pub evidence : Evidence
  pub note : String

-- `device_runtime_verified`, `physical_device_smoke` and `claim_allowed` are constants.
pub record Snapshot (N : Type 0) : Type 0 where
  pub timestamp : ℕ
  pub engine_running : Bool
  pub watchdog_state : String
  pub memory : MemoryMetrics N
  pub disk : DiskObservation N
  pub corruption : CorruptionObservation
  pub components : List Component

abbrev pub critical_file_names : List String
critical_file_names =
    "bug-history.json" ∷ "rollback-journal.json" ∷ "watchdog-events.json" ∷ "provenance.json"
    ∷ "receipts.json" ∷ "metrics.json" ∷ []

-- `a || b || 0` and `a ?? b ?? 0` of numbers.
abbrev pub nonzero_or : Option ℕ → ℕ → ℕ
nonzero_or none n = n
nonzero_or (some zero) n = n
nonzero_or (some (suc m)) n = suc m

abbrev pub given_or : Option ℕ → ℕ → ℕ
given_or none n = n
given_or (some m) n = m

abbrev pub evidence_of : PressureLevel → Evidence
evidence_of exhausted = failed
evidence_of warning = degraded
evidence_of healthy = operational

unfoldable pub read_failure : String → String → Detection
read_failure name e = record {
  file_name = name;
  corruption_type = invalid_json;
  severity = critical;
  detected = true;
  error_message = str_append "Read failure: " e;
  recovery_possible = false;
}

unfoldable pub get_integration_registry : Bool → List Component
get_integration_registry has_statfs =
    record {
      component = "RuntimeLearningEngine";
      role = "orchestrator";
      evidence = operational;
      note = "core lifecycle owner";
    }
    ∷ record {
      component = "HealthCheckEndpoint";
      role = "engine-bound health observer";
      evidence = operational;
      note = "primary health surface; file-only health-check.ts remains compatibility surface";
    }
    ∷ record {
      component = "AlertManager";
      role = "alert persistence and notification queue";
      evidence = operational;
      note = "receives normalized runtime metrics";
    }
    ∷ record {
      component = "AlertRulesEngine";
      role = "SLA threshold source";
      evidence = operational;
      note = "single threshold evaluator for Phase 3.2 rules";
    }
    ∷ record {
      component = "MemoryPressureHandler";
      role = "real process memory observer";
      evidence = operational;
      note = "driven by process.memoryUsage()";
    }
    ∷ record {
      component = "DiskExhaustionHandler";
      role = "filesystem pressure classifier";
      evidence = if has_statfs then operational else token_vazio;
      note = "classification is driven by observed statfs free bytes when available";
    }
    ∷ record {
      component = "CorruptionRecoveryHandler";
      role = "read-only corruption detector";
      evidence = operational;
      note = "automatic destructive recovery is deliberately disabled";
    }
    ∷ record {
      component = "ConcurrentBugCaptureHandler";
      role = "concurrency test harness";
      evidence = test_harness_only;
      note = "contains simulated lock/delay logic and is not promoted to the live hot path";
    }
    ∷ record {
      component = "AndroidPhysicalRuntime";
      role = "device execution evidence";
      evidence = token_vazio;
      note = "requires a physical-device receipt; CI is not physical proof";
    }
    ∷ []
