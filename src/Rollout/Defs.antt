-- ===== src/Rollout/Defs.antt =====
-- `RolloutManager`. The two files are in the state, with whether each takes writes; a file that is not
-- there holds none. The time is an argument, and the id of a rollout is made from it.
use frida_desktop.Prelude.{
  ℕ, ◌-◌, ◌*◌, String, Bool, true, false, not, ◌&&◌, ◌||◌, Option, none, some, List, [], ◌∷◌, ◌++◌,
  ltb, if◌then◌else◌, str_eq, any, slice_last,
}
use frida_desktop.Prelude.Dict.{Dict}
use frida_desktop.Floats.{Floats}

pub data RolloutStage : Type 0 where
  canary beta stable rollback : RolloutStage

pub data RolloutStatus : Type 0 where
  in_progress completed rolled_back : RolloutStatus

pub record Rollout (N : Type 0) : Type 0 where
  pub rollout_id : ℕ
  pub version : String
  pub stage : RolloutStage
  pub traffic_percentage : ℕ
  pub start_time : ℕ
  pub end_time : Option ℕ
  pub success_rate : N
  pub error_rate : N
  pub status : RolloutStatus
  pub affected_users : ℕ
  pub errors : List String

pub record RolloutMetrics : Type 0 where
  pub timestamp : ℕ
  pub rollout_id : ℕ
  pub requests_processed : ℕ
  pub requests_failed : ℕ
  pub errors : Dict ℕ

pub record RolloutManager (N : Type 0) : Type 0 where
  pub current_rollout : Option (Rollout N)
  pub metrics : List RolloutMetrics
  pub rollout_file : Option (Rollout N)
  pub metrics_file : List RolloutMetrics
  pub rollout_writable : Bool
  pub metrics_writable : Bool

abbrev pub is_in_progress : RolloutStatus → Bool
is_in_progress in_progress = true
is_in_progress _ = false

abbrev pub is_canary : RolloutStage → Bool
is_canary canary = true
is_canary _ = false

abbrev pub is_beta : RolloutStage → Bool
is_beta beta = true
is_beta _ = false

abbrev pub can_follow : RolloutStatus → Bool × String
can_follow in_progress = (false, "Active rollout in progress")
can_follow completed = (true, "Previous rollout completed successfully")
can_follow rolled_back = (false, "Previous rollout was rolled back, waiting before retry")

module _ {N : Type 0} where
  abbrev save_metrics_file : RolloutManager N → RolloutManager N
  save_metrics_file s =
      if s.metrics_writable then record s { metrics_file = slice_last 1000 s.metrics } else s

  abbrev save_files : Option (Rollout N) → RolloutManager N → RolloutManager N
  save_files none s = save_metrics_file s
  save_files (some r) s =
      if s.rollout_writable then save_metrics_file (record s { rollout_file = some r }) else s

  -- The rollout's file is written only where there is a rollout, and before the metrics; a write that
  -- throws ends the saving, and the memory stays as it is.
  unfoldable pub save_rollout_data : RolloutManager N → RolloutManager N
  save_rollout_data s = save_files s.current_rollout s

  -- The constructor, over the files of an earlier process.
  unfoldable pub load_rollout_data :
      Bool → Bool → Option (Rollout N) → List RolloutMetrics → RolloutManager N
  load_rollout_data rollout_writable metrics_writable rollout metrics = record {
    current_rollout = rollout;
    metrics = metrics;
    rollout_file = rollout;
    metrics_file = metrics;
    rollout_writable = rollout_writable;
    metrics_writable = metrics_writable;
  }

  unfoldable pub rolled_back_at : ℕ → Rollout N → Rollout N
  rolled_back_at now r = record r {
    status = rolled_back;
    stage = rollback;
    end_time = some now;
    traffic_percentage = 0;
  }

  abbrev pub replace : Rollout N → RolloutManager N → RolloutManager N
  replace r s = save_rollout_data (record s { current_rollout = some r })

  abbrev pub roll_back :
      ℕ → Option (Rollout N) → RolloutManager N → Option (Rollout N × RolloutManager N)
  roll_back now none s = none
  roll_back now (some r) s = some (rolled_back_at now r, replace (rolled_back_at now r) s)

  -- `none` is an exception.
  unfoldable pub rollback_rollout : ℕ → RolloutManager N → Option (Rollout N × RolloutManager N)
  rollback_rollout now s = roll_back now s.current_rollout s

  -- The three tests of the stage.
  unfoldable pub next_stage : ℕ → Rollout N → Rollout N
  next_stage now r =
      if is_canary r.stage && ltb r.traffic_percentage 25
      then record r { stage = beta; traffic_percentage = 25; start_time = now }
      else if is_beta r.stage && ltb r.traffic_percentage 50
      then record r { stage = beta; traffic_percentage = 50; start_time = now }
      else if ltb r.traffic_percentage 100
      then record r {
        stage = stable;
        traffic_percentage = 100;
        status = completed;
        end_time = some now;
      }
      else r

  abbrev pub can_deploy_after : Option (Rollout N) → Bool × String
  can_deploy_after none = (true, "No active rollout")
  can_deploy_after (some r) = can_follow r.status

  -- The reason of a refusal names the version in the code.
  unfoldable pub can_deploy_version : RolloutManager N → Bool × String
  can_deploy_version s = can_deploy_after s.current_rollout

  unfoldable pub get_recent_metrics : ℕ → RolloutManager N → List RolloutMetrics
  get_recent_metrics limit s = slice_last limit s.metrics

abbrev pub metric_of : {N : Type 0} → ℕ → ℕ → ℕ → Dict ℕ → Rollout N → RolloutMetrics
metric_of now processed failed errors r = record {
  timestamp = now;
  rollout_id = r.rollout_id;
  requests_processed = processed;
  requests_failed = failed;
  errors = errors;
}

-- The loop over the errors: one that was counted more than five times is listed once.
unfoldable pub list_errors : Dict ℕ → List String → List String
list_errors [] listed = listed
list_errors ((error, count) ∷ m) listed =
    list_errors m
      (if ltb 5 count && not (any (str_eq error) listed) then listed ++ error ∷ [] else listed)

module _ {N : Type 0} (f : Floats N) where
  unfoldable pub start_canary_rollout : ℕ → String → RolloutManager N → Rollout N × RolloutManager N
  start_canary_rollout now version s =
      let r : Rollout N = record {
        rollout_id = now;
        version = version;
        stage = canary;
        traffic_percentage = 5;
        start_time = now;
        end_time = none;
        success_rate = f.of_nat 100;
        error_rate = f.of_nat 0;
        status = in_progress;
        affected_users = 0;
        errors = [];
      } in
      (r, replace r s)

  -- `errorRate > 5 || successRate < 95`
  unfoldable pub is_failing : Rollout N → Bool
  is_failing r = f.lt (f.of_nat 5) r.error_rate || f.lt r.success_rate (f.of_nat 95)

  abbrev pub stage_duration_ms : ℕ
  stage_duration_ms = 5 * 60 * 1000

  abbrev pub progress_from :
      ℕ → Rollout N → RolloutManager N → Option (Rollout N) × RolloutManager N
  progress_from now r s =
      if ltb (now - r.start_time) stage_duration_ms
      then (some r, s)
      else if is_failing r
      then (some (rolled_back_at now r), replace (rolled_back_at now r) s)
      else (some (next_stage now r), replace (next_stage now r) s)

  abbrev pub progress_current :
      ℕ → Option (Rollout N) → RolloutManager N → Option (Rollout N) × RolloutManager N
  progress_current now none s = (none, s)
  progress_current now (some r) s =
      if is_in_progress r.status then progress_from now r s else (none, s)

  unfoldable pub progress_rollout : ℕ → RolloutManager N → Option (Rollout N) × RolloutManager N
  progress_rollout now s = progress_current now s.current_rollout s

  abbrev pub percent : N → ℕ → N
  percent part whole = f.mul (f.div part (f.of_nat whole)) (f.of_nat 100)

  unfoldable pub with_metric : ℕ → ℕ → Dict ℕ → Rollout N → Rollout N
  unfolding list_errors
  with_metric processed failed errors r = record r {
    success_rate =
        if ltb 0 processed
        then percent (f.sub (f.of_nat processed) (f.of_nat failed)) processed
        else f.of_nat 100;
    error_rate = if ltb 0 processed then percent (f.of_nat failed) processed else f.of_nat 0;
    errors = list_errors errors r.errors;
  }

  abbrev pub measure : ℕ → ℕ → ℕ → Dict ℕ → Option (Rollout N) → RolloutManager N → RolloutManager N
  measure now processed failed errors none s = s
  measure now processed failed errors (some r) s =
      replace (with_metric processed failed errors r)
        (record s { metrics = s.metrics ++ metric_of now processed failed errors r ∷ [] })

  unfoldable pub record_metric : ℕ → ℕ → ℕ → Dict ℕ → RolloutManager N → RolloutManager N
  record_metric now processed failed errors s =
      measure now processed failed errors s.current_rollout s
