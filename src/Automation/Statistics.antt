-- ===== src/Automation/Statistics.antt =====
-- The statistics of `RollbackAutomation` over sequences of its calls.
use mathlib.Core.Path.{subst}
use frida_desktop.Prelude.{
  ℕ, ◌+◌, ◌≤◌, String, ◌≡◌, refl, sym, Bool, true, false, Option, none, some, List, [], ◌∷◌, ◌++◌,
  if◌then◌else◌, ltb, Bool-cases, inl, inr, filter, length, length-append, arith,
}
use frida_desktop.Prelude.Dict.{Dict}
use frida_desktop.Floats.{Floats}
use frida_desktop.Automation.Defs.{
  Automation, Statistics, RollbackEvent, RollbackTrigger, MetricValue, TriggerSeverity, critical,
  warning, new_automation, with_means, update_statistics, event_of, count_outcome,
  execute_automatic_rollback, counted, react, monitor_tick, start_monitoring, check_triggers,
}

-- What the statistics count.
pub record Counts : Type 0 where
  pub checks : ℕ
  pub detected : ℕ
  pub executed : ℕ
  pub succeeded : ℕ
  pub failed : ℕ

abbrev pub counts_of : {N : Type 0} → Statistics N → Counts
counts_of s = record {
  checks = s.total_checks;
  detected = s.triggers_detected;
  executed = s.rollbacks_executed;
  succeeded = s.successful_rollbacks;
  failed = s.failed_rollbacks;
}

abbrev pub successes : List RollbackEvent → ℕ
successes es = length (filter (λ e. e.rollback_success) es)

-- Every event is counted once, as a success or a failure, and what is detected was checked.
pub record IsCounted (c : Counts) (es : List RollbackEvent) : Type 0 where
  pub all : c.executed ≡ length es
  pub good : c.succeeded ≡ successes es
  pub split : c.succeeded + c.failed ≡ c.executed
  pub seen : c.detected ≤ c.checks

-- A call: a rollback, a tick of the interval, or the start of the monitoring.
pub data Call (N : Type 0) : Type 0 where
  rolled_back : ℕ → ℕ → String → Option String → ℕ → Call N
  ticked : ℕ → ℕ → Option (Dict (MetricValue N)) → Option String → ℕ → Call N
  monitored : Call N

successes-append : (es ds : List RollbackEvent) → successes (es ++ ds) ≡ successes es + successes ds
successes-append [] ds = omega arith
successes-append (e ∷ es) ds = ground (arith, successes-append es ds)

module _ {N : Type 0} (f : Floats N) (to_number : String → N) (finite : N → Bool)
    (print : ℕ → String) where
  unfoldable pub step : Call N → Automation N → Automation N
  step (rolled_back began now reason failure recovery) s =
      (execute_automatic_rollback f to_number finite print began now reason failure recovery s).1
  step (ticked began now metrics failure recovery) s =
      monitor_tick f to_number finite print began now metrics failure recovery s
  step monitored s = start_monitoring f s

  unfoldable pub run : List (Call N) → Automation N → Automation N
  unfolding step
  run [] s = s
  run (x ∷ xs) s = run xs (step x s)

  abbrev Counted : Automation N → Type 0
  Counted s = IsCounted (counts_of s.history.statistics) s.history.events

  counts-with_means :
      (es : List RollbackEvent) (s : Statistics N) → counts_of (with_means f es s) ≡ counts_of s
  counts-with_means [] s = refl
  counts-with_means (e ∷ es) s = refl

  outcome-IsCounted :
      (began now : ℕ) (reason : String) (failure : Option String) (recovery : ℕ) (s : Statistics N)
      (es : List RollbackEvent)
      → IsCounted (counts_of s) es
      → IsCounted (counts_of (count_outcome f to_number finite print failure s)) (
          es
          ++ event_of f to_number finite print began now reason failure recovery (length es) ∷ [])
  unfolding event_of
  outcome-IsCounted began now reason none recovery s es h =
      let e = event_of f to_number finite print began now reason none recovery (length es) in
      record {
        all = omega (arith, length-append es (e ∷ []), h.all);
        good = omega (arith, successes-append es (e ∷ []), h.good);
        split = omega (arith, h.split);
        seen = h.seen;
      }
  outcome-IsCounted began now reason (some m) recovery s es h =
      let e = event_of f to_number finite print began now reason (some m) recovery (length es) in
      record {
        all = omega (arith, length-append es (e ∷ []), h.all);
        good = omega (arith, successes-append es (e ∷ []), h.good);
        split = omega (arith, h.split);
        seen = h.seen;
      }

  rollback-Counted :
      (began now : ℕ) (reason : String) (failure : Option String) (recovery : ℕ) (s : Automation N)
      → Counted s
      → Counted
          (execute_automatic_rollback f to_number finite print began now reason failure recovery
            s).1
  unfolding execute_automatic_rollback update_statistics
  rollback-Counted began now reason failure recovery s h =
      let e =
        event_of f to_number finite print began now reason failure recovery
          (length s.history.events) in
      let after =
        subst (λ c. IsCounted c (s.history.events ++ e ∷ []))
          (sym (
            counts-with_means _
              (count_outcome f to_number finite print failure s.history.statistics)))
          (outcome-IsCounted began now reason failure recovery s.history.statistics s.history.events
            h) in
      elim (Bool-cases s.disk_ok) [ inl ok ↦ simp ok after | inr bad ↦ simp bad after ]

  counted-Counted :
      (b : Bool) (s : Automation N) → Counted s → Counted (counted f to_number finite print b s)
  counted-Counted true s h = record {
    all = h.all;
    good = h.good;
    split = h.split;
    seen = omega (arith, h.seen);
  }
  counted-Counted false s h = record {
    all = h.all;
    good = h.good;
    split = h.split;
    seen = omega (arith, h.seen);
  }

  react-Counted :
      (began now : ℕ) (failure : Option String) (recovery : ℕ) (b : Bool) (ids : List String)
      (v : TriggerSeverity) (s : Automation N)
      → Counted s
      → Counted (
          react f to_number finite print began now failure recovery
            (record { triggered = b; triggering_metrics = ids; severity = v })
            s)
  react-Counted began now failure recovery false ids v s h = counted-Counted false s h
  react-Counted began now failure recovery true ids warning s h = counted-Counted true s h
  react-Counted began now failure recovery true ids critical s h =
      rollback-Counted began now _ failure recovery _ (counted-Counted true s h)

  either-Counted :
      (b : Bool) (s t : Automation N) → Counted s → Counted t → Counted (if b then s else t)
  either-Counted true s t h k = h
  either-Counted false s t h k = k

  step-Counted : (x : Call N) (s : Automation N) → Counted s → Counted (step x s)
  unfolding step monitor_tick start_monitoring
  step-Counted (rolled_back began now reason failure recovery) s h =
      rollback-Counted began now reason failure recovery s h
  step-Counted (ticked began now none failure recovery) s h = h
  step-Counted (ticked began now (some m) failure recovery) s h =
      let c = check_triggers f to_number finite print m s in
      either-Counted (ltb 0 s.monitors) _ s
        (react-Counted began now failure recovery c.triggered c.triggering_metrics c.severity s h) h
  step-Counted monitored s h = h

  run-Counted : (xs : List (Call N)) (s : Automation N) → Counted s → Counted (run xs s)
  unfolding run
  run-Counted [] s h = h
  run-Counted (x ∷ xs) s h = run-Counted xs (step x s) (step-Counted x s h)

  -- After any rollbacks, ticks and starts of the monitoring of a new automation, the rollbacks that
  -- are counted as executed are the events, the ones counted as successful are the events that are,
  -- the successful and the failed ones are all of them, and no more checks detected something than
  -- there were.
  pub automation_run-IsCounted :
      (xs : List (Call N)) (disk_ok : Bool) (now : ℕ) (id : String)
      (triggers : Option (List (RollbackTrigger N)))
      → let s = run xs (new_automation f disk_ok now id triggers) in
        IsCounted (counts_of s.history.statistics) s.history.events
  unfolding new_automation
  automation_run-IsCounted xs disk_ok now id triggers =
      run-Counted xs (new_automation f disk_ok now id triggers)
        (record { all = refl; good = refl; split = refl; seen = omega arith })
