-- ===== src/Canary/Defs.antt =====
-- `CanaryDeploymentOrchestrator`. The plan's file is a copy of the plan, so only the plan is in the
-- state; a deployment without a stage makes the calls throw, which is `none`. The times are
-- arguments. Texts that are only shown are left out.
use frida_desktop.Prelude.{
  ℕ, zero, suc, ◌+◌, ◌*◌, String, Bool, true, false, ◌&&◌, Option, none, some, List, [], ◌∷◌, ◌++◌,
  map, ltb, if◌then◌else◌, length, get_elem?,
}
use frida_desktop.Floats.{Floats}

pub record CanaryStage (N : Type 0) : Type 0 where
  pub stage : ℕ
  pub traffic_percentage : ℕ
  pub monitoring_duration_minutes : ℕ
  pub success_rate_min : N
  pub error_rate_max : N
  pub memory_growth_max : N

pub data StageStatus : Type 0 where
  pending in_progress completed rolled_back failed : StageStatus

pub data HealthStatus : Type 0 where
  healthy degraded critical : HealthStatus

pub record StageMetrics (N : Type 0) : Type 0 where
  pub success_rate : N
  pub error_rate : N
  pub error_count : ℕ
  pub memory_growth_mb_per_min : N
  pub average_bug_capture_latency : N
  pub average_fix_latency : N
  pub health_status : HealthStatus
  pub last_update : ℕ

pub data Decision : Type 0 where
  proceed monitor halt rollback : Decision

pub record DeploymentDecision (N : Type 0) : Type 0 where
  pub timestamp : ℕ
  pub decision : Decision
  pub metrics : StageMetrics N

pub record StageDeployment (N : Type 0) : Type 0 where
  pub stage_number : ℕ
  pub traffic_percentage : ℕ
  pub start_time : ℕ
  pub expected_duration_ms : ℕ
  pub status : StageStatus
  pub metrics : StageMetrics N
  pub decisions : List (DeploymentDecision N)

-- Those of a plan have its name before them, apart from those of a stage.
pub data PlanStatus : Type 0 where
  planning plan_in_progress plan_completed plan_rolled_back : PlanStatus

pub record Canary (N : Type 0) : Type 0 where
  pub start_time : ℕ
  pub version : String
  pub deployments : List (StageDeployment N)
  pub current_stage : ℕ
  pub status : PlanStatus
  pub stages : List (CanaryStage N)

abbrev pub is_completed : StageStatus → Bool
is_completed completed = true
is_completed _ = false

abbrev pub is_healthy : HealthStatus → Bool
is_healthy healthy = true
is_healthy _ = false

-- An assignment to a field of the element at an index.
abbrev pub update_at {ℓ} : {A : Type ℓ} → ℕ → (A → A) → List A → List A
update_at i g [] = []
update_at zero g (x ∷ xs) = g x ∷ xs
update_at (suc i) g (x ∷ xs) = x ∷ update_at i g xs

module _ {N : Type 0} where
  unfoldable pub start_canary_deployment : Canary N → Canary N
  start_canary_deployment s = record s { status = plan_in_progress; current_stage = 0 }

  abbrev pub begin_stage : ℕ → StageDeployment N → StageDeployment N
  begin_stage now d = record d { status = in_progress; start_time = now }

  abbrev pub advance_from : ℕ → StageDeployment N → Canary N → Bool × Canary N
  advance_from now d s =
      if is_completed d.status
      then (if ltb (s.current_stage + 1) (length s.deployments)
          then (
            true,
            record s {
              current_stage = s.current_stage + 1;
              deployments = update_at (s.current_stage + 1) (begin_stage now) s.deployments;
            },
          )
          else (false, record s { status = plan_completed }))
      else (false, s)

  abbrev pub advance_stage : ℕ → Option (StageDeployment N) → Canary N → Option (Bool × Canary N)
  advance_stage now none s = none
  advance_stage now (some d) s = some (advance_from now d s)

  unfoldable pub advance_to_next_stage : ℕ → Canary N → Option (Bool × Canary N)
  advance_to_next_stage now s = advance_stage now (get_elem? s.deployments s.current_stage) s

  abbrev pub undo_stage : Option (StageDeployment N) → Canary N → Option (Canary N)
  undo_stage none s = none
  undo_stage (some d) s = some (record s {
    status = plan_rolled_back;
    deployments = update_at s.current_stage (λ d. record d { status = rolled_back }) s.deployments;
  })

  unfoldable pub rollback_deployment : Canary N → Option (Canary N)
  rollback_deployment s = undo_stage (get_elem? s.deployments s.current_stage) s

module _ {N : Type 0} (f : Floats N) where
  abbrev pub no_metrics : StageMetrics N
  no_metrics = record {
    success_rate = f.of_nat 0;
    error_rate = f.of_nat 0;
    error_count = 0;
    memory_growth_mb_per_min = f.of_nat 0;
    average_bug_capture_latency = f.of_nat 0;
    average_fix_latency = f.of_nat 0;
    health_status = healthy;
    last_update = 0;
  }

  unfoldable pub stage_deployment : CanaryStage N → StageDeployment N
  stage_deployment c = record {
    stage_number = c.stage;
    traffic_percentage = c.traffic_percentage;
    start_time = 0;
    expected_duration_ms = c.monitoring_duration_minutes * 60 * 1000;
    status = pending;
    metrics = no_metrics;
    decisions = [];
  }

  unfoldable pub new_canary : ℕ → String → List (CanaryStage N) → Canary N
  new_canary now version stages = record {
    start_time = now;
    version = version;
    deployments = map stage_deployment stages;
    current_stage = 0;
    status = planning;
    stages = stages;
  }

  abbrev pub default_stage : ℕ → ℕ → ℕ → ℕ → ℕ → ℕ → CanaryStage N
  default_stage stage traffic minutes success errors growth = record {
    stage = stage;
    traffic_percentage = traffic;
    monitoring_duration_minutes = minutes;
    success_rate_min = f.of_nat success;
    error_rate_max = f.of_nat errors;
    memory_growth_max = f.of_nat growth;
  }

  unfoldable pub default_canary_stages : List (CanaryStage N)
  default_canary_stages =
      default_stage 1 5 60 70 50 10
      ∷ default_stage 2 25 120 75 100 8
      ∷ default_stage 3 50 240 80 150 5
      ∷ default_stage 4 100 1440 85 200 3
      ∷ []

  -- The chain of tests of `evaluateStageMetrics`.
  unfoldable pub decide : CanaryStage N → StageMetrics N → Decision
  decide c m =
      if f.lt m.success_rate c.success_rate_min
      then rollback
      else if f.lt c.error_rate_max m.error_rate
      then rollback
      else if f.lt c.memory_growth_max m.memory_growth_mb_per_min
      then halt
      else if f.le (f.add c.success_rate_min (f.of_nat 5)) m.success_rate
          && f.lt m.error_rate (f.mul c.error_rate_max (f.div (f.of_nat 7) (f.of_nat 10)))
          && is_healthy m.health_status
      then proceed
      else monitor

  abbrev pub note_decision : ℕ → Decision → StageMetrics N → StageDeployment N → StageDeployment N
  note_decision now decision m d = record d {
    decisions = d.decisions ++ record { timestamp = now; decision = decision; metrics = m } ∷ [];
    metrics = m;
  }

  abbrev pub evaluate_stage :
      ℕ → StageMetrics N → Option (CanaryStage N) → Canary N → Option (Decision × Canary N)
  evaluate_stage now m none s = none
  evaluate_stage now m (some c) s = some (
    decide c m,
    record s {
      deployments = update_at s.current_stage (note_decision now (decide c m) m) s.deployments;
    },
  )

  unfoldable pub evaluate_stage_metrics :
      ℕ → StageMetrics N → Canary N → Option (Decision × Canary N)
  unfolding decide
  evaluate_stage_metrics now m s = evaluate_stage now m (get_elem? s.stages s.current_stage) s
