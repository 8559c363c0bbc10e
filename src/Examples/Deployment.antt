-- ===== src/Examples/Deployment.antt =====
-- A rollout over its first stages, and a canary deployment.
use frida_desktop.Prelude.{
  ℕ, ◌⊎◌, any, true, List, ◌-◌, ◌≤◌, ◌<◌, ◌≡◌, refl, false, none, some, [], ◌∷◌, arith,
}
use frida_desktop.Rollout.Defs.{
  Rollout, RolloutManager, in_progress, canary, load_rollout_data, progress_rollout, is_failing,
  next_stage, save_rollout_data,
}
use frida_desktop.Rollout.Stages.{
  Call, progressed, measured, restarted, disk, refuses, run, IsKept, progress_rollout_raises,
  traffic_of,
}
use frida_desktop.Rollout.Saved.{IsSaved, rollout_run-IsKept}
use frida_desktop.Canary.Defs.{
  StageMetrics, healthy, decide, default_stage, proceed, new_canary, advance_to_next_stage,
}
use frida_desktop.Canary.Trace
use frida_desktop.Examples.Data.{hundredths}

abbrev first_stage : Rollout ℕ
first_stage = record {
  rollout_id = 1000;
  version = "1.2";
  stage = canary;
  traffic_percentage = 5;
  start_time = 1000;
  end_time = none;
  success_rate = 10000;
  error_rate = 0;
  status = in_progress;
  affected_users = 0;
  errors = [];
}

abbrev rolling : RolloutManager ℕ
rolling = load_rollout_data true true (some first_stage) []

rolling-IsKept : IsKept hundredths rolling
unfolding load_rollout_data
rolling-IsKept = record { placed = refl; stored = refl }

rolling-IsSaved : IsSaved hundredths rolling
unfolding load_rollout_data
rolling-IsSaved = record { writable = refl; on_file = refl }

-- The rollout's file refuses the second stage, and the restart goes back to the first.
abbrev calls : List Call
calls =
    measured 2000 100 1 []
    ∷ disk false true
    ∷ progressed 400000
    ∷ restarted
    ∷ disk true true
    ∷ progressed 800000
    ∷ []

rollout_run-IsKept_example :
    IsKept hundredths (run hundredths calls rolling)
    × (IsSaved hundredths (run hundredths calls rolling) ⊎ (any refuses calls ≡ true))
rollout_run-IsKept_example =
    rollout_run-IsKept hundredths calls rolling rolling-IsKept rolling-IsSaved

is_current : rolling.current_rollout ≡ some first_stage
unfolding load_rollout_data
is_current = refl

rises : 5 < traffic_of hundredths (progress_rollout hundredths 400000 rolling).1.current_rollout
unfolding progress_rollout load_rollout_data is_failing next_stage save_rollout_data
rises = omega arith

progress_rollout_raises_example :
    (in_progress ≡ in_progress)
    × (300000 ≤ 400000 - 1000)
    × (is_failing hundredths first_stage ≡ false)
    × (traffic_of hundredths (progress_rollout hundredths 400000 rolling).1.current_rollout ≡ 25)
progress_rollout_raises_example =
    progress_rollout_raises hundredths 400000 rolling first_stage rolling-IsKept is_current rises

abbrev excellent : StageMetrics ℕ
excellent = record {
  success_rate = 9900;
  error_rate = 100;
  error_count = 1;
  memory_growth_mb_per_min = 0;
  average_bug_capture_latency = 4500;
  average_fix_latency = 60000;
  health_status = healthy;
  last_update = 5;
}

-- The source's own usage: start, evaluate, advance where the decision is to proceed.
proceeds : decide hundredths (default_stage hundredths 1 5 60 70 50 10) excellent ≡ proceed
unfolding decide
proceeds = refl

canary_run_stuck_example :
    let s =
      Trace.run hundredths
        (Trace.started ∷ Trace.evaluated 5 excellent ∷ Trace.advanced 6 ∷ [])
        (new_canary hundredths 1 "1.2.3" (default_stage hundredths 1 5 60 70 50 10 ∷ [])) in
    (s.current_stage ≡ 0)
    × (advance_to_next_stage 7 s ≡ some (false, s))
    × (Trace.is_plan_completed s.status ≡ false)
canary_run_stuck_example =
    Trace.canary_run_stuck hundredths
      (Trace.started ∷ Trace.evaluated 5 excellent ∷ Trace.advanced 6 ∷ []) 1 7 "1.2.3"
      (default_stage hundredths 1 5 60 70 50 10) []
