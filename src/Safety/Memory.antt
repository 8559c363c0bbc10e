-- ===== src/Safety/Memory.antt =====
-- `MemoryPressureHandler` of modules/runtime-learning-engine/memory-pressure-handler.ts. Megabytes are
-- doubles.
use frida_desktop.Prelude.{
  ℕ, String, Bool, true, false, not, ◌&&◌, List, [], ◌∷◌, map, filter, if◌then◌else◌,
}
use frida_desktop.Floats.{Floats}
use frida_desktop.Disk.Defs.{PressureLevel, healthy, warning, exhausted}

pub data Mode : Type 0 where
  normal reduced minimal emergency : Mode

pub record Features : Type 0 where
  pub bug_capture : Bool
  pub pattern_detection : Bool
  pub fix_application : Bool
  pub rollback : Bool
  pub audit_logging : Bool
  pub metrics_collection : Bool

pub record DegradationMode : Type 0 where
  pub mode : Mode
  pub features_enabled : Features
  pub bug_history_max : ℕ
  pub pattern_history_max : ℕ

-- `this.modes`
unfoldable mode_of : Mode → DegradationMode
mode_of normal = record {
  mode = normal;
  features_enabled = record {
    bug_capture = true;
    pattern_detection = true;
    fix_application = true;
    rollback = true;
    audit_logging = true;
    metrics_collection = true;
  };
  bug_history_max = 512;
  pattern_history_max = 256;
}
mode_of reduced = record {
  mode = reduced;
  features_enabled = record {
    bug_capture = true;
    pattern_detection = true;
    fix_application = true;
    rollback = true;
    audit_logging = true;
    metrics_collection = false;
  };
  bug_history_max = 256;
  pattern_history_max = 128;
}
mode_of minimal = record {
  mode = minimal;
  features_enabled = record {
    bug_capture = true;
    pattern_detection = false;
    fix_application = false;
    rollback = true;
    audit_logging = true;
    metrics_collection = false;
  };
  bug_history_max = 128;
  pattern_history_max = 0;
}
mode_of emergency = record {
  mode = emergency;
  features_enabled = record {
    bug_capture = true;
    pattern_detection = false;
    fix_application = false;
    rollback = false;
    audit_logging = false;
    metrics_collection = false;
  };
  bug_history_max = 32;
  pattern_history_max = 0;
}

unfoldable pub get_operating_mode : PressureLevel → DegradationMode
unfolding mode_of
get_operating_mode warning = mode_of reduced
get_operating_mode exhausted = mode_of minimal
get_operating_mode healthy = mode_of normal

unfoldable get_all_modes : List DegradationMode
unfolding mode_of
get_all_modes = mode_of normal ∷ mode_of reduced ∷ mode_of minimal ∷ mode_of emergency ∷ []

-- `Object.entries(mode.features_enabled)`
unfoldable feature_entries : Features → List (String × Bool)
feature_entries x =
    ("bug_capture", x.bug_capture)
    ∷ ("pattern_detection", x.pattern_detection)
    ∷ ("fix_application", x.fix_application)
    ∷ ("rollback", x.rollback)
    ∷ ("audit_logging", x.audit_logging)
    ∷ ("metrics_collection", x.metrics_collection)
    ∷ []

unfoldable pub features_off : DegradationMode → List String
unfolding feature_entries
features_off m = map (λ e. e.0) (filter (λ e. not e.1) (feature_entries m.features_enabled))

abbrev is_emergency : Mode → Bool
is_emergency emergency = true
is_emergency _ = false

unfoldable validate_data_preservation : DegradationMode → Bool
validate_data_preservation m =
    if not m.features_enabled.bug_capture
    then false
    else if not m.features_enabled.audit_logging && not (is_emergency m.mode)
    then false
    else true

unfoldable impact_of : Features → List (String × Bool × String)
impact_of x =
    ("bug_capture", not x.bug_capture, "No new bugs will be captured")
    ∷ (
      "pattern_detection",
      not x.pattern_detection,
      "No patterns will be detected, no automatic fixes",
    )
    ∷ ("fix_application", not x.fix_application, "No automatic fixes will be applied")
    ∷ ("rollback", not x.rollback, "Rollback capability limited (safety risk)")
    ∷ ("audit_logging", not x.audit_logging, "Limited audit trail for debugging")
    ∷ ("metrics_collection", not x.metrics_collection, "No performance metrics collected")
    ∷ []

unfoldable analyze_feature_impact : DegradationMode → List (String × Bool × String)
analyze_feature_impact m = impact_of m.features_enabled

pub record MemoryMetrics (N : Type 0) : Type 0 where
  pub heap_used_mb : N
  pub heap_total_mb : N
  pub pressure_level : PressureLevel
  pub degradation_active : Bool
  pub features_disabled : List String
  pub expected_latency_increase : ℕ
  pub recovery_possible : Bool

abbrev pub is_healthy : PressureLevel → Bool
is_healthy healthy = true
is_healthy _ = false

abbrev latency_of : PressureLevel → ℕ
latency_of exhausted = 50
latency_of warning = 20
latency_of healthy = 0

module _ {N : Type 0} (f : Floats N) where
  unfoldable pub memory_level : N → PressureLevel
  memory_level used =
      if f.le (f.of_nat 350) used
      then exhausted
      else if f.le (f.of_nat 250) used
      then warning
      else if f.lt (f.of_nat 150) used
      then warning
      else healthy

  unfoldable pub metrics_at : N → N → PressureLevel → MemoryMetrics N
  unfolding get_operating_mode features_off
  metrics_at used total level = record {
    heap_used_mb = used;
    heap_total_mb = total;
    pressure_level = level;
    degradation_active = not (is_healthy level);
    features_disabled = features_off (get_operating_mode level);
    expected_latency_increase = latency_of level;
    recovery_possible = f.lt used (f.mul total (f.div (f.of_nat 9) (f.of_nat 10)));
  }

  unfoldable pub get_memory_metrics : N → N → MemoryMetrics N
  unfolding memory_level metrics_at
  get_memory_metrics used total = metrics_at used total (memory_level used)

  unfoldable get_degradation_mode : N → DegradationMode
  get_degradation_mode used =
      get_operating_mode (get_memory_metrics used (f.of_nat 512)).pressure_level
