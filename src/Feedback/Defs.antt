-- ===== src/Feedback/Defs.antt =====
-- `FeedbackCollector` of modules/runtime-learning-engine/feedback-collector.ts. The time is an argument.
use frida_desktop.Prelude.{
  ℕ, ◌+◌, ◌*◌, String, str_eq, Bool, ◌&&◌, Option, none, some, List, [], ◌∷◌, ◌++◌, ltb, leb,
  if◌then◌else◌, filter, length,
}
use frida_desktop.Prelude.Dict
use frida_desktop.Prelude.Dict.{Dict}
use frida_desktop.Floats.{Floats}

pub record FixMetrics (N : Type 0) : Type 0 where
  pub pattern_id : String
  pub fix_id : String
  pub applied_at : ℕ
  pub success : Bool
  pub test_passed : Bool
  pub rolled_back : Bool
  pub duration_ms : N
  pub performance_impact : N
  pub regression_detected : Bool
  pub error : Option String

pub record PatternMetrics (N : Type 0) : Type 0 where
  pub pattern_id : String
  pub occurrences : ℕ
  pub fixes_attempted : ℕ
  pub fixes_succeeded : ℕ
  pub success_rate : N
  pub average_fix_time : N
  pub last_seen : ℕ

pub record EngineMetrics (N : Type 0) : Type 0 where
  pub timestamp : ℕ
  pub total_bugs_captured : ℕ
  pub total_patterns_detected : ℕ
  pub total_fixes_applied : ℕ
  pub total_rollbacks : ℕ
  pub overall_success_rate : N
  pub average_fix_latency : N
  pub memory_usage_mb : ℕ
  pub regression_rate : N

pub record FeedbackSummary (N : Type 0) : Type 0 where
  pub total_fixes : ℕ
  pub success_rate : N
  pub rollback_rate : N
  pub regression_rate : N
  pub patterns_tracked : ℕ
  pub average_fix_time : N

-- The file metrics.json: not there, no JSON, or the metrics.
pub data MetricsFile (N : Type 0) : Type 0 where
  absent unreadable : MetricsFile N
  saved : List (FixMetrics N) → List (PatternMetrics N) → MetricsFile N

pub record FeedbackCollector (N : Type 0) : Type 0 where
  pub fix_metrics : List (FixMetrics N)
  pub pattern_metrics : Dict (PatternMetrics N)
  pub file : MetricsFile N
  pub disk_ok : Bool

module _ {N : Type 0} where
  abbrev set_each : List (PatternMetrics N) → Dict (PatternMetrics N) → Dict (PatternMetrics N)
  set_each [] d = d
  set_each (m ∷ ms) d = set_each ms (Dict.set m.pattern_id m d)

  abbrev load_metrics : MetricsFile N → FeedbackCollector N → FeedbackCollector N
  load_metrics (saved fixes patterns) s = record s {
    fix_metrics = fixes;
    pattern_metrics = set_each patterns s.pattern_metrics;
  }
  load_metrics _ s = s

  -- The constructor, which loads the metrics.
  unfoldable pub new_feedback_collector : Bool → MetricsFile N → FeedbackCollector N
  new_feedback_collector disk_ok file =
      load_metrics file
        (record { fix_metrics = []; pattern_metrics = []; file = file; disk_ok = disk_ok })

  unfoldable pub save_metrics : FeedbackCollector N → FeedbackCollector N
  unfolding Dict.values
  save_metrics s = record s {
    file = if s.disk_ok then saved s.fix_metrics (Dict.values s.pattern_metrics) else s.file;
  }

  abbrev pub succeeded : FixMetrics N → Bool
  succeeded m = m.success && m.test_passed

  unfoldable pub get_pattern_metrics : String → FeedbackCollector N → Option (PatternMetrics N)
  unfolding Dict.get
  get_pattern_metrics id s = Dict.get id s.pattern_metrics

  abbrev pub get_fixes_for_pattern : String → List (FixMetrics N) → List (FixMetrics N)
  get_fixes_for_pattern id ms = filter (λ m. str_eq m.pattern_id id) ms

module _ {N : Type 0} (f : Floats N) where
  -- A part of a whole in percent, and 0 of nothing.
  abbrev pub rate : ℕ → ℕ → N
  rate part whole =
      if ltb 0 whole
      then f.mul (f.div (f.of_nat part) (f.of_nat whole)) (f.of_nat 100)
      else f.of_nat 0

  abbrev sum_of : (FixMetrics N → N) → N → List (FixMetrics N) → N
  sum_of g acc [] = acc
  sum_of g acc (m ∷ ms) = sum_of g (f.add acc (g m)) ms

  abbrev mean_of : (FixMetrics N → N) → List (FixMetrics N) → N
  mean_of g ms =
      if ltb 0 (length ms)
      then f.div (sum_of g (f.of_nat 0) ms) (f.of_nat (length ms))
      else f.of_nat 0

  abbrev pub or_new : ℕ → String → Option (PatternMetrics N) → PatternMetrics N
  or_new now id (some m) = m
  or_new now id none = record {
    pattern_id = id;
    occurrences = 0;
    fixes_attempted = 0;
    fixes_succeeded = 0;
    success_rate = f.of_nat 0;
    average_fix_time = f.of_nat 0;
    last_seen = now;
  }

  abbrev pub count_attempt : ℕ → FixMetrics N → PatternMetrics N → PatternMetrics N
  count_attempt now x m =
      let attempted = m.fixes_attempted + 1 in
      let good = if succeeded x then m.fixes_succeeded + 1 else m.fixes_succeeded in
      record m {
        fixes_attempted = attempted;
        fixes_succeeded = good;
        success_rate = rate good attempted;
        average_fix_time = f.div (f.add m.average_fix_time x.duration_ms) (f.of_nat 2);
        last_seen = now;
      }

  -- The attempt is given as the metric that the method makes of its arguments.
  unfoldable pub record_fix_attempt : ℕ → FixMetrics N → FeedbackCollector N → FeedbackCollector N
  unfolding save_metrics
  record_fix_attempt now y s =
      let x = record y { applied_at = now } in
      let m = or_new now x.pattern_id (get_pattern_metrics x.pattern_id s) in
      save_metrics (record s {
        fix_metrics = s.fix_metrics ++ x ∷ [];
        pattern_metrics = Dict.set x.pattern_id (count_attempt now x m) s.pattern_metrics;
      })

  unfoldable pub calculate_success_rate_for_pattern : String → FeedbackCollector N → N
  calculate_success_rate_for_pattern id s =
      let ms = get_fixes_for_pattern id s.fix_metrics in
      rate (length (filter succeeded ms)) (length ms)

  unfoldable pub calculate_average_fix_time_for_pattern : String → FeedbackCollector N → N
  calculate_average_fix_time_for_pattern id s =
      mean_of (λ m. m.duration_ms) (get_fixes_for_pattern id s.fix_metrics)

  unfoldable pub get_engine_metrics : ℕ → FeedbackCollector N → EngineMetrics N
  get_engine_metrics now s =
      let ms = s.fix_metrics in
      record {
        timestamp = now;
        total_bugs_captured = 0;
        total_patterns_detected = length s.pattern_metrics;
        total_fixes_applied = length ms;
        total_rollbacks = length (filter (λ m. m.rolled_back) ms);
        overall_success_rate = rate (length (filter succeeded ms)) (length ms);
        average_fix_latency = mean_of (λ m. m.duration_ms) ms;
        memory_usage_mb = 0;
        regression_rate = rate (length (filter (λ m. m.regression_detected) ms)) (length ms);
      }

  abbrev keys_where : (PatternMetrics N → Bool) → Dict (PatternMetrics N) → List String
  keys_where p [] = []
  keys_where p ((k, m) ∷ d) = let rest = keys_where p d in if p m then k ∷ rest else rest

  unfoldable pub identify_problematic_patterns : FeedbackCollector N → List String
  identify_problematic_patterns s =
      keys_where (λ m. f.lt m.success_rate (f.of_nat 50) && leb 3 m.fixes_attempted)
        s.pattern_metrics

  unfoldable pub identify_successful_patterns : FeedbackCollector N → List String
  identify_successful_patterns s =
      keys_where (λ m. f.lt (f.of_nat 90) m.success_rate && leb 3 m.fixes_attempted)
        s.pattern_metrics

  unfoldable pub get_recent_performance_impact : ℕ → ℕ → FeedbackCollector N → N
  get_recent_performance_impact now minutes s =
      mean_of (λ m. m.performance_impact)
        (filter (λ m. ltb now (m.applied_at + minutes * 60 * 1000)) s.fix_metrics)

  unfoldable pub get_summary : FeedbackCollector N → FeedbackSummary N
  get_summary s =
      let ms = s.fix_metrics in
      record {
        total_fixes = length ms;
        success_rate = rate (length (filter succeeded ms)) (length ms);
        rollback_rate = rate (length (filter (λ m. m.rolled_back) ms)) (length ms);
        regression_rate = rate (length (filter (λ m. m.regression_detected) ms)) (length ms);
        patterns_tracked = length s.pattern_metrics;
        average_fix_time = mean_of (λ m. m.duration_ms) ms;
      }
