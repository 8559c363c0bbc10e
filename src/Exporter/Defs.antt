-- ===== src/Exporter/Defs.antt =====
-- `MetricsExporter` of modules/runtime-learning-engine/metrics-exporter.ts. The engine gives labels
-- nowhere, and a sample keeps them as their JSON text; `finite` is `Number.isFinite`.
use frida_desktop.Prelude.{
  ℕ, String, str_append, str_eq, Bool, true, false, Option, none, some, List, [], ◌∷◌, ◌++◌, ltb,
  ◌==◌, if◌then◌else◌, filter, length, slice_last,
}
use frida_desktop.Prelude.Dict
use frida_desktop.Prelude.Dict.{Dict}
use frida_desktop.Floats.{Floats}

pub data MetricType : Type 0 where
  gauge counter histogram : MetricType

pub record Sample (N : Type 0) : Type 0 where
  pub labels : Option String
  pub value : N

pub record PrometheusMetric (N : Type 0) : Type 0 where
  pub name : String
  pub help : String
  pub kind : MetricType
  pub metrics : List (Sample N)

abbrev pub Exporter : Type 0 → Type 0
Exporter N = Dict (PrometheusMetric N)

abbrev pub is_histogram : MetricType → Bool
is_histogram histogram = true
is_histogram _ = false

abbrev type_text : MetricType → String
type_text gauge = "gauge"
type_text counter = "counter"
type_text histogram = "histogram"

-- The key that `findLabeledMetric` compares.
abbrev label_key : Option String → String
label_key none = "__default__"
label_key (some s) = s

-- `MAX_HISTOGRAM_SAMPLES`
abbrev pub max_histogram_samples : ℕ
max_histogram_samples = 1000

abbrev buckets : List ℕ
buckets = 5 ∷ 10 ∷ 25 ∷ 50 ∷ 100 ∷ 250 ∷ 500 ∷ 1000 ∷ 2500 ∷ 5000 ∷ []

module _ {N : Type 0} where
  unfoldable register_metric : String → String → MetricType → Exporter N → Exporter N
  register_metric name help kind s =
      Dict.set name (record { name = name; help = help; kind = kind; metrics = [] }) s

  unfoldable pub initialize_metrics : Exporter N
  unfolding register_metric
  initialize_metrics =
      register_each
        (("frida_bugs_captured_total", "Total bugs captured", counter)
          ∷ ("frida_bug_capture_latency_ms", "Bug capture latency in milliseconds", histogram)
          ∷ ("frida_patterns_detected_total", "Total patterns detected", counter)
          ∷ ("frida_pattern_detection_latency_ms", "Pattern detection latency", histogram)
          ∷ ("frida_pattern_confidence_avg", "Average pattern confidence", gauge)
          ∷ ("frida_fixes_applied_total", "Total fixes applied", counter)
          ∷ ("frida_fixes_failed_total", "Total fix failures", counter)
          ∷ ("frida_fix_application_latency_ms", "Fix application latency", histogram)
          ∷ ("frida_fix_success_rate", "Fix success rate (0-100)", gauge)
          ∷ ("frida_success_rate", "Canonical fix success rate alias (0-100)", gauge)
          ∷ ("frida_rollbacks_triggered_total", "Total rollbacks triggered", counter)
          ∷ ("frida_rollback_latency_ms", "Rollback completion latency", histogram)
          ∷ ("frida_rollback_success_rate", "Rollback success rate (0-100)", gauge)
          ∷ ("frida_sla_bug_capture_violations", "Bug capture SLA violations", counter)
          ∷ ("frida_sla_pattern_detection_violations", "Pattern detection SLA violations", counter)
          ∷ ("frida_sla_fix_application_violations", "Fix application SLA violations", counter)
          ∷ ("frida_sla_rollback_violations", "Rollback SLA violations", counter)
          ∷ ("frida_sla_total_violations", "Total observed SLA violations", counter)
          ∷ ("frida_engine_uptime_seconds", "Engine uptime in seconds", gauge)
          ∷ (
            "frida_memory_usage_mb",
            "Observed target runtime memory usage in MB; omitted when not observed", gauge,
          )
          ∷ ("frida_storage_usage_mb", "Observed tracked storage usage in MB", gauge)
          ∷ ("frida_disk_free_mb", "Observed free filesystem space in MB", gauge)
          ∷ (
            "frida_watchdog_state", "Watchdog state (1=STABLE, 2=OBSERVE, 3=DUMP, 4=FAILSAFE)",
            gauge,
          )
          ∷ ("frida_watchdog_heartbeat_missed", "Missed watchdog heartbeats", counter)
          ∷ ("frida_errors_total", "Total errors", counter)
          ∷ ("frida_errors_last_hour", "Errors in last hour", gauge)
          ∷ [])
        []
    where
      register_each : List (String × String × MetricType) → Exporter N → Exporter N
      register_each [] s = s
      register_each ((name, help, kind) ∷ ms) s =
          register_each ms (register_metric name help kind s)

  unfoldable clear_each : Exporter N → Exporter N
  clear_each [] = []
  clear_each ((k, m) ∷ ms) = (k, record m { metrics = [] }) ∷ clear_each ms

  -- The first sample with these labels is changed, or a new one added.
  unfoldable change_sample : (N → N) → Option String → N → List (Sample N) → List (Sample N)
  change_sample g labels v [] = record { labels = labels; value = v } ∷ []
  change_sample g labels v (x ∷ xs) =
      if str_eq (label_key x.labels) (label_key labels)
      then record x { value = g x.value } ∷ xs
      else x ∷ change_sample g labels v xs

  -- A metric that is not registered changes nothing.
  abbrev pub store :
      String → List (Sample N) → Option (PrometheusMetric N) → Exporter N → Exporter N
  store name xs none s = s
  store name xs (some m) s = Dict.set name (record m { metrics = xs }) s

  abbrev samples_of : Option (PrometheusMetric N) → List (Sample N)
  samples_of none = []
  samples_of (some m) = m.metrics

  unfoldable pub keep_samples : List (Sample N) → List (Sample N)
  keep_samples xs =
      if ltb max_histogram_samples (length xs) then slice_last max_histogram_samples xs else xs

module _ {N : Type 0} (f : Floats N) (finite : N → Bool) where
  unfoldable pub record_counter : String → N → Option String → Exporter N → Exporter N
  unfolding change_sample
  record_counter name n labels s =
      let m = Dict.get name s in
      store name (change_sample (λ v. f.add v n) labels n (samples_of m)) m s

  unfoldable pub record_gauge : String → N → Option String → Exporter N → Exporter N
  unfolding change_sample
  record_gauge name v labels s =
      let m = Dict.get name s in
      if finite v then store name (change_sample (λ w. v) labels v (samples_of m)) m s else s

  abbrev pub add_sample :
      String → N → Option String → Option (PrometheusMetric N) → Exporter N → Exporter N
  add_sample name v labels none s = s
  add_sample name v labels (some m) s =
      if is_histogram m.kind
      then Dict.set name
          (record m {
            metrics = keep_samples (m.metrics ++ record { labels = labels; value = v } ∷ []);
          })
          s
      else s

  unfoldable pub record_histogram : String → N → Option String → Exporter N → Exporter N
  unfolding keep_samples
  record_histogram name v labels s =
      if finite v then add_sample name v labels (Dict.get name s) s else s

  abbrev sum : List (Sample N) → N
  sum xs = add_each xs (f.of_nat 0)
    where
      add_each : List (Sample N) → N → N
      add_each [] n = n
      add_each (x ∷ xs) n = add_each xs (f.add n x.value)

  unfoldable pub bucket_count : ℕ → List (Sample N) → ℕ
  bucket_count bucket xs = length (filter (λ x. f.le x.value (f.of_nat bucket)) xs)

  module _ (print : N → String) (show : ℕ → String) (format_labels : String → String) where
    abbrev line : List String → String
    line [] = "\n"
    line (x ∷ xs) = str_append x (line xs)

    abbrev bucket_lines : String → List ℕ → List (Sample N) → String
    bucket_lines name [] xs = ""
    bucket_lines name (b ∷ bs) xs =
        str_append (line (name ∷ "_bucket{le=\"" ∷ show b ∷ "\"} " ∷ show (bucket_count b xs) ∷ []))
          (bucket_lines name bs xs)

    unfoldable export_histogram : PrometheusMetric N → String
    unfolding bucket_count
    export_histogram m = str_append (bucket_lines m.name buckets m.metrics) (
        str_append (line (m.name ∷ "_bucket{le=\"+Inf\"} " ∷ show (length m.metrics) ∷ [])) (
          str_append (line (m.name ∷ "_sum " ∷ print (sum m.metrics) ∷ []))
            (line (m.name ∷ "_count " ∷ show (length m.metrics) ∷ []))))

    abbrev label_text : Option String → String
    label_text none = ""
    label_text (some s) = format_labels s

    abbrev sample_lines : String → List (Sample N) → String
    sample_lines name [] = ""
    sample_lines name (x ∷ xs) =
        str_append (line (name ∷ label_text x.labels ∷ " " ∷ print x.value ∷ []))
          (sample_lines name xs)

    unfoldable export_metric : PrometheusMetric N → String
    unfolding export_histogram
    export_metric m =
        if length m.metrics == 0
        then ""
        else str_append (line ("# HELP " ∷ m.name ∷ " " ∷ m.help ∷ [])) (
            str_append (line ("# TYPE " ∷ m.name ∷ " " ∷ type_text m.kind ∷ [])) (
              str_append
                (if is_histogram m.kind then export_histogram m else sample_lines m.name m.metrics)
                "\n"))

    unfoldable export_prometheus : List (PrometheusMetric N) → String
    unfolding export_metric
    export_prometheus [] = ""
    export_prometheus (m ∷ ms) = str_append (export_metric m) (export_prometheus ms)
