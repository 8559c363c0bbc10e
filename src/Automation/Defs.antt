-- ===== src/Automation/Defs.antt =====
-- `RollbackAutomation` of modules/runtime-learning-engine/rollback-automation.ts. The time is an
-- argument. `Number` of a text, `Number.isFinite` and the text of a number are parameters.
use frida_desktop.Prelude.{
  ℕ, ◌+◌, ◌-◌, String, str_append, Bool, true, false, not, ◌&&◌, Option, none, some, List, [], ◌∷◌,
  ◌++◌, max, ltb, if◌then◌else◌, filter, length,
}
use frida_desktop.Prelude.Dict
use frida_desktop.Prelude.Dict.{Dict}
use frida_desktop.Floats.{Floats, feq}

pub data Comparison : Type 0 where
  less greater equal different : Comparison

pub data TriggerSeverity : Type 0 where
  critical warning : TriggerSeverity

pub record RollbackTrigger (N : Type 0) : Type 0 where
  pub id : String
  pub metric : String
  pub threshold : N
  pub comparison : Comparison
  pub severity : TriggerSeverity
  pub enabled : Bool

-- `triggeringMetrics` and `triggeringValues` of an event stay empty.
pub record RollbackEvent : Type 0 where
  pub timestamp : ℕ
  pub event_id : String
  pub triggered : Bool
  pub rollback_executed : Bool
  pub rollback_duration : ℕ
  pub rollback_success : Bool
  pub reason : String
  pub recovery_time : Option ℕ

pub record Statistics (N : Type 0) : Type 0 where
  pub total_checks : ℕ
  pub triggers_detected : ℕ
  pub rollbacks_executed : ℕ
  pub successful_rollbacks : ℕ
  pub failed_rollbacks : ℕ
  pub average_rollback_time : N
  pub mttc : N

pub record RollbackHistory (N : Type 0) : Type 0 where
  pub deployment_id : String
  pub start_time : ℕ
  pub triggers : List (RollbackTrigger N)
  pub events : List RollbackEvent
  pub statistics : Statistics N

-- `monitors` is the number of intervals that are set; `file` is the history that was saved last.
pub record Automation (N : Type 0) : Type 0 where
  pub history : RollbackHistory N
  pub monitors : ℕ
  pub file : Option (RollbackHistory N)
  pub disk_ok : Bool

-- A metric is a number or a text.
pub data MetricValue (N : Type 0) : Type 0 where
  number : N → MetricValue N
  text : String → MetricValue N

pub record Check : Type 0 where
  pub triggered : Bool
  pub triggering_metrics : List String
  pub severity : TriggerSeverity

module _ {N : Type 0} (f : Floats N) where
  abbrev trigger : String → String → ℕ → Comparison → TriggerSeverity → RollbackTrigger N
  trigger id metric threshold comparison severity = record {
    id = id;
    metric = metric;
    threshold = f.of_nat threshold;
    comparison = comparison;
    severity = severity;
    enabled = true;
  }

  unfoldable default_rollback_triggers : List (RollbackTrigger N)
  default_rollback_triggers =
      trigger "success_rate_critical" "fix_success_rate" 70 less critical
      ∷ trigger "error_rate_critical" "errors_per_hour" 50 greater critical
      ∷ trigger "memory_growth_warning" "memory_growth_mb_per_min" 10 greater warning
      ∷ trigger "rollback_success_rate_critical" "rollback_success_rate" 80 less critical
      ∷ trigger "corruption_detected_critical" "corruption_count" 0 different critical
      ∷ trigger "watchdog_failsafe" "watchdog_state" 4 equal critical
      ∷ trigger "storage_critical" "storage_used_mb" 900 greater critical
      ∷ trigger "bug_capture_latency_sla" "bug_capture_latency_ms" 200 greater warning
      ∷ []

  -- The constructor; no triggers are the default ones.
  unfoldable pub new_automation :
      Bool → ℕ → String → Option (List (RollbackTrigger N)) → Automation N
  unfolding default_rollback_triggers
  new_automation disk_ok now id triggers = record {
    history = record {
      deployment_id = id;
      start_time = now;
      triggers = elim triggers [ none ↦ default_rollback_triggers | some ts ↦ ts ];
      events = [];
      statistics = record {
        total_checks = 0;
        triggers_detected = 0;
        rollbacks_executed = 0;
        successful_rollbacks = 0;
        failed_rollbacks = 0;
        average_rollback_time = f.of_nat 0;
        mttc = f.of_nat 0;
      };
    };
    monitors = 0;
    file = none;
    disk_ok = disk_ok;
  }

  unfoldable condition_met : N → N → Comparison → Bool
  condition_met x y less = f.lt x y
  condition_met x y greater = f.lt y x
  condition_met x y equal = feq f x y
  condition_met x y different = not (feq f x y)

  abbrev add_successes : List RollbackEvent → ℕ
  add_successes [] = 0
  add_successes (e ∷ es) = e.rollback_duration + add_successes es

  abbrev recovery_of : Option ℕ → ℕ
  recovery_of none = 0
  recovery_of (some t) = t

  abbrev add_recoveries : List RollbackEvent → ℕ
  add_recoveries [] = 0
  add_recoveries (e ∷ es) = recovery_of e.recovery_time + add_recoveries es

  abbrev pub with_means : List RollbackEvent → Statistics N → Statistics N
  with_means [] s = s
  with_means (e ∷ es) s = record s {
    average_rollback_time = f.div (f.of_nat (add_successes (e ∷ es))) (f.of_nat (length (e ∷ es)));
    mttc = f.div (f.of_nat (add_recoveries (e ∷ es))) (f.of_nat (length (e ∷ es)));
  }

  unfoldable pub update_statistics : RollbackHistory N → RollbackHistory N
  update_statistics h = record h {
    statistics = with_means (filter (λ e. e.rollback_success) h.events) h.statistics;
  }

  module _ (to_number : String → N) (finite : N → Bool) (print : ℕ → String) where
    abbrev value_of : MetricValue N → N
    value_of (number x) = x
    value_of (text s) = to_number s

    abbrev met_by : RollbackTrigger N → Option (MetricValue N) → Bool
    met_by t none = false
    met_by t (some v) = finite (value_of v) && condition_met (value_of v) t.threshold t.comparison

    -- The trigger is enabled, and its metric is there, finite and meets it.
    unfoldable is_active : Dict (MetricValue N) → RollbackTrigger N → Bool
    unfolding condition_met
    is_active metrics t = t.enabled && met_by t (Dict.get t.metric metrics)

    abbrev worse : TriggerSeverity → TriggerSeverity → TriggerSeverity
    worse critical v = critical
    worse warning v = v

    abbrev worst : List (RollbackTrigger N) → TriggerSeverity
    worst [] = warning
    worst (t ∷ ts) = worse t.severity (worst ts)

    abbrev ids : List (RollbackTrigger N) → List String
    ids [] = []
    ids (t ∷ ts) = t.id ∷ ids ts

    unfoldable pub check_triggers : Dict (MetricValue N) → Automation N → Check
    unfolding is_active
    check_triggers metrics s =
        let found = filter (is_active metrics) s.history.triggers in
        record {
          triggered = ltb 0 (length found);
          triggering_metrics = ids found;
          severity = worst found;
        }

    -- `failure` is the message of what the three steps throw, if they do; the ones that the class
    -- brings do not. `recovery` is what `verifyRecovery` answers.
    unfoldable pub event_of : ℕ → ℕ → String → Option String → ℕ → ℕ → RollbackEvent
    event_of began now reason none recovery events = record {
      timestamp = began;
      event_id =
          str_append "rollback-" (str_append (print began) (str_append "-" (print (events + 1))));
      triggered = true;
      rollback_executed = true;
      rollback_duration = max 1 (now - began);
      rollback_success = true;
      reason = reason;
      recovery_time = some recovery;
    }
    event_of began now reason (some e) recovery events = record {
      timestamp = began;
      event_id =
          str_append "rollback-" (str_append (print began) (str_append "-" (print (events + 1))));
      triggered = true;
      rollback_executed = true;
      rollback_duration = max 1 (now - began);
      rollback_success = false;
      reason = str_append reason (str_append " (Rollback failed: " (str_append e ")"));
      recovery_time = none;
    }

    abbrev pub count_outcome : Option String → Statistics N → Statistics N
    count_outcome none s = record s {
      rollbacks_executed = s.rollbacks_executed + 1;
      successful_rollbacks = s.successful_rollbacks + 1;
    }
    count_outcome (some e) s = record s {
      rollbacks_executed = s.rollbacks_executed + 1;
      failed_rollbacks = s.failed_rollbacks + 1;
    }

    -- Where the history cannot be written, the call throws after the event is counted.
    unfoldable pub execute_automatic_rollback :
        ℕ → ℕ → String → Option String → ℕ → Automation N → Option RollbackEvent × Automation N
    unfolding event_of update_statistics
    execute_automatic_rollback began now reason failure recovery s =
        let e = event_of began now reason failure recovery (length s.history.events) in
        let h = update_statistics (record s.history {
          events = s.history.events ++ e ∷ [];
          statistics = count_outcome failure s.history.statistics;
        }) in
        if s.disk_ok
        then (some e, record s { history = h; file = some h })
        else (none, record s { history = h })

    abbrev join_ids : List String → String
    join_ids [] = ""
    join_ids (x ∷ []) = x
    join_ids (x ∷ y ∷ ys) = str_append x (str_append ", " (join_ids (y ∷ ys)))

    abbrev pub counted : Bool → Automation N → Automation N
    counted detected s = record s {
      history = record s.history {
        statistics = record s.history.statistics {
          total_checks = s.history.statistics.total_checks + 1;
          triggers_detected =
              if detected
              then s.history.statistics.triggers_detected + 1
              else s.history.statistics.triggers_detected;
        };
      };
    }

    abbrev pub react : ℕ → ℕ → Option String → ℕ → Check → Automation N → Automation N
    react began now failure recovery c s =
        if c.triggered
        then elim c.severity [
          | warning ↦ counted true s
          | critical ↦
              (execute_automatic_rollback began now
                (str_append "Critical triggers: " (join_ids c.triggering_metrics)) failure recovery
                (record (counted true s) { monitors = s.monitors - 1 })).1
        ]
        else counted false s

    -- A tick of an interval, which is cleared before a rollback; no metrics where the provider throws. An
    -- exception of the rollback is caught.
    unfoldable pub monitor_tick :
        ℕ → ℕ → Option (Dict (MetricValue N)) → Option String → ℕ → Automation N → Automation N
    unfolding check_triggers execute_automatic_rollback
    monitor_tick began now none failure recovery s = s
    monitor_tick began now (some metrics) failure recovery s =
        if ltb 0 s.monitors
        then react began now failure recovery (check_triggers metrics s) s
        else s

  -- Each call sets an interval of its own.
  unfoldable pub start_monitoring : Automation N → Automation N
  start_monitoring s = record s { monitors = s.monitors + 1 }
