-- ===== src/Canary/Trace.antt =====
-- The calls of `CanaryDeploymentOrchestrator` in sequence.
use mathlib.Core.Path.{subst}
use frida_desktop.Prelude.{
  ℕ, String, ◌≡◌, refl, sym, ap, ◌∙◌, Bool, true, false, Option, none, some, List, [], ◌∷◌,
  get_elem?, map,
}
use frida_desktop.Floats.{Floats}
use frida_desktop.Canary.Defs.{
  Canary, CanaryStage, StageMetrics, StageDeployment, PlanStatus, plan_completed, rolled_back,
  is_completed, start_canary_deployment, advance_to_next_stage, advance_stage, rollback_deployment,
  undo_stage, new_canary, stage_deployment, evaluate_stage_metrics, evaluate_stage, update_at,
  note_decision, decide,
}

pub data Call (N : Type 0) : Type 0 where
  started aborted : Call N
  advanced : ℕ → Call N
  evaluated : ℕ → StageMetrics N → Call N

abbrev pub is_plan_completed : PlanStatus → Bool
is_plan_completed plan_completed = true
is_plan_completed _ = false

-- A call that throws leaves the state as it was.
abbrev pub after {ℓ} : {A S : Type ℓ} → Option (A × S) → S → S
after none s = s
after (some (a, s')) s = s'

abbrev pub or_same {ℓ} : {S : Type ℓ} → Option S → S → S
or_same none s = s
or_same (some s') s = s'

module _ {N : Type 0} (f : Floats N) where
  unfoldable pub step : Call N → Canary N → Canary N
  step started s = start_canary_deployment s
  step aborted s = or_same (rollback_deployment s) s
  step (advanced now) s = after (advance_to_next_stage now s) s
  step (evaluated now m) s = after (evaluate_stage_metrics f now m s) s

  unfoldable pub run : List (Call N) → Canary N → Canary N
  unfolding step
  run [] s = s
  run (x ∷ xs) s = run xs (step x s)

  -- The first stage is the current one, and neither it nor the plan is completed.
  record IsFirst (s : Canary N) : Type 0 where
    first : StageDeployment N
    others : List (StageDeployment N)
    deployed : s.deployments ≡ first ∷ others
    at_first : s.current_stage ≡ 0
    unfinished : is_completed first.status ≡ false
    open_plan : is_plan_completed s.status ≡ false

  current : (s : Canary N) (h : IsFirst s) → get_elem? s.deployments s.current_stage ≡ some h.first
  current s h = ap (get_elem? s.deployments) h.at_first ∙ ap (λ ds. get_elem? ds 0) h.deployed

  updated :
      (g : StageDeployment N → StageDeployment N) (s : Canary N) (h : IsFirst s)
      → update_at s.current_stage g s.deployments ≡ g h.first ∷ h.others
  updated g s h = ap (λ i. update_at i g s.deployments) h.at_first ∙ ap (update_at 0 g) h.deployed

  advance_stays :
      (now : ℕ) (s : Canary N) → IsFirst s → advance_to_next_stage now s ≡ some (false, s)
  unfolding advance_to_next_stage
  advance_stays now s h = ap (λ o. advance_stage now o s) (current s h) ∙ simp h.unfinished refl

  undo_stage-IsFirst : (s : Canary N) → IsFirst s → IsFirst (or_same (rollback_deployment s) s)
  unfolding rollback_deployment
  undo_stage-IsFirst s h =
      subst (λ o. IsFirst (or_same (undo_stage o s) s)) (sym (current s h))
        (record {
          first = record (h.first) { status = rolled_back };
          others = h.others;
          deployed = updated (λ d. record d { status = rolled_back }) s h;
          at_first = h.at_first;
          unfinished = refl;
          open_plan = refl;
        })

  evaluate_stage-IsFirst :
      (now : ℕ) (m : StageMetrics N) (o : Option (CanaryStage N)) (s : Canary N)
      → IsFirst s
      → IsFirst (after (evaluate_stage f now m o s) s)
  evaluate_stage-IsFirst now m none s h = h
  evaluate_stage-IsFirst now m (some c) s h = record {
    first = note_decision f now (decide f c m) m h.first;
    others = h.others;
    deployed = updated (note_decision f now (decide f c m) m) s h;
    at_first = h.at_first;
    unfinished = h.unfinished;
    open_plan = h.open_plan;
  }

  step-IsFirst : (x : Call N) (s : Canary N) → IsFirst s → IsFirst (step x s)
  unfolding step start_canary_deployment evaluate_stage_metrics
  step-IsFirst started s h = record {
    first = h.first;
    others = h.others;
    deployed = h.deployed;
    at_first = refl;
    unfinished = h.unfinished;
    open_plan = refl;
  }
  step-IsFirst aborted s h = undo_stage-IsFirst s h
  step-IsFirst (advanced now) s h = subst (λ o. IsFirst (after o s)) (sym (advance_stays now s h)) h
  step-IsFirst (evaluated now m) s h =
      evaluate_stage-IsFirst now m (get_elem? s.stages s.current_stage) s h

  run-IsFirst : (xs : List (Call N)) (s : Canary N) → IsFirst s → IsFirst (run xs s)
  unfolding run
  run-IsFirst [] s h = h
  run-IsFirst (x ∷ xs) s h = run-IsFirst xs (step x s) (step-IsFirst x s h)

  new_canary-IsFirst :
      (now : ℕ) (version : String) (c : CanaryStage N) (cs : List (CanaryStage N))
      → IsFirst (new_canary f now version (c ∷ cs))
  unfolding new_canary stage_deployment
  new_canary-IsFirst now version c cs = record {
    first = stage_deployment f c;
    others = map (stage_deployment f) cs;
    deployed = refl;
    at_first = refl;
    unfinished = refl;
    open_plan = refl;
  }

  -- A new deployment never leaves its first stage by the orchestrator's own calls: after any
  -- sequence of starting, evaluating, advancing and rolling back, the current stage is the first,
  -- advancing answers false and changes nothing, and the plan is not completed.
  pub canary_run_stuck :
      (xs : List (Call N)) (now later : ℕ) (version : String) (c : CanaryStage N)
      (cs : List (CanaryStage N))
      → let s = run xs (new_canary f now version (c ∷ cs)) in
        (s.current_stage ≡ 0)
        × (advance_to_next_stage later s ≡ some (false, s))
        × (is_plan_completed s.status ≡ false)
  canary_run_stuck xs now later version c cs =
      let h =
        run-IsFirst xs (new_canary f now version (c ∷ cs)) (new_canary-IsFirst now version c cs) in
      (h.at_first, advance_stays later _ h, h.open_plan)
