-- ===== src/Rollout/Saved.antt =====
-- The rollout's file over the calls of rollout-manager.ts, with writes that fail.
use frida_desktop.Prelude.{
  ℕ, ◌-◌, ◌≡◌, ◌⊎◌, refl, sym, any, true, false, Option, none, some, List, [], ◌∷◌, ◌++◌, ltb,
  Bool-cases, inl, inr,
}
use mathlib.Core.Bool.{false≢true}
use frida_desktop.Prelude.Dict.{Dict}
use frida_desktop.Floats.{Floats}
use frida_desktop.Rollout.Defs.{
  Rollout, RolloutManager, load_rollout_data, save_rollout_data, rollback_rollout, rolled_back_at,
  next_stage, start_canary_rollout, progress_rollout, progress_from, is_failing, record_metric,
  with_metric, stage_duration_ms, is_in_progress, replace, roll_back, progress_current, measure,
  metric_of,
}
use frida_desktop.Rollout.Stages.{
  Call, began, progressed, aborted, measured, restarted, disk, refuses, run_rollback, step, run,
  IsKept, run-IsKept,
}

module _ {N : Type 0} (f : Floats N) where
  -- The rollout's file takes writes, and it holds the rollout.
  pub record IsSaved (s : RolloutManager N) : Type 0 where
    pub writable : s.rollout_writable ≡ true
    pub on_file : s.rollout_file ≡ s.current_rollout

  replace-IsSaved :
      (r : Rollout N) (s : RolloutManager N) → s.rollout_writable ≡ true → IsSaved (replace r s)
  unfolding save_rollout_data
  replace-IsSaved r s e = elim (Bool-cases s.metrics_writable) [
    | inl m ↦ simp (e, m) (record { writable = refl; on_file = refl })
    | inr m ↦ simp (e, m) (record { writable = refl; on_file = refl })
  ]

  progress_from-IsSaved :
      (now : ℕ) (r : Rollout N) (s : RolloutManager N)
      → IsSaved s
      → IsSaved (progress_from f now r s).1
  progress_from-IsSaved now r s h =
      elim (Bool-cases (ltb (now - r.start_time) (stage_duration_ms f))) [
        | inl soon ↦ simp soon h
        | inr late ↦ elim (Bool-cases (is_failing f r)) [
          | inl bad ↦ simp (late, bad) (replace-IsSaved (rolled_back_at now r) s h.writable)
          | inr good ↦ simp (late, good) (replace-IsSaved (next_stage now r) s h.writable)
        ]
      ]

  progress_current-IsSaved :
      (now : ℕ) (o : Option (Rollout N)) (s : RolloutManager N)
      → IsSaved s
      → IsSaved (progress_current f now o s).1
  progress_current-IsSaved now none s h = h
  progress_current-IsSaved now (some r) s h = elim (Bool-cases (is_in_progress r.status)) [
    | inl on ↦ simp on (progress_from-IsSaved now r s h)
    | inr off ↦ simp off h
  ]

  roll_back-IsSaved :
      (now : ℕ) (o : Option (Rollout N)) (s : RolloutManager N)
      → IsSaved s
      → IsSaved (run_rollback (roll_back now o s) s)
  roll_back-IsSaved now none s h = h
  roll_back-IsSaved now (some r) s h = replace-IsSaved (rolled_back_at now r) s h.writable

  measure-IsSaved :
      (now processed failed : ℕ) (errors : Dict ℕ) (o : Option (Rollout N)) (s : RolloutManager N)
      → IsSaved s
      → IsSaved (measure f now processed failed errors o s)
  measure-IsSaved now processed failed errors none s h = h
  measure-IsSaved now processed failed errors (some r) s h =
      replace-IsSaved (with_metric f processed failed errors r)
        (record s { metrics = s.metrics ++ metric_of now processed failed errors r ∷ [] })
        h.writable

  step-IsSaved :
      (x : Call) (s : RolloutManager N) → refuses x ≡ false → IsSaved s → IsSaved (step f x s)
  unfolding step start_canary_rollout load_rollout_data progress_rollout rollback_rollout
      record_metric
  step-IsSaved (began now version) s ok h = replace-IsSaved _ s h.writable
  step-IsSaved (progressed now) s ok h = progress_current-IsSaved now s.current_rollout s h
  step-IsSaved (aborted now) s ok h = roll_back-IsSaved now s.current_rollout s h
  step-IsSaved (measured now processed failed errors) s ok h =
      measure-IsSaved now processed failed errors s.current_rollout s h
  step-IsSaved restarted s ok h = record { writable = h.writable; on_file = refl }
  step-IsSaved (disk true metrics_ok) s ok h = record { writable = refl; on_file = h.on_file }
  step-IsSaved (disk false metrics_ok) s ok h = absurd (false≢true (sym ok))

  run-IsSaved :
      (xs : List Call) (s : RolloutManager N)
      → IsSaved s
      → IsSaved (run f xs s) ⊎ (any refuses xs ≡ true)
  unfolding run
  run-IsSaved [] s h = inl h
  run-IsSaved (x ∷ xs) s h = elim (Bool-cases (refuses x)) [
    | inl e ↦ inr (simp e refl)
    | inr e ↦ elim (run-IsSaved xs (step f x s) (step-IsSaved x s e h)) [
      | inl saved ↦ inl saved
      | inr later ↦ inr (simp (e, later) refl)
    ]
  ]

  -- Through any sequence of calls, restarts and failing writes, from a manager that is kept so, the
  -- rollout in memory and the one on file have the traffic and the status of their stage (canary 5,
  -- beta 25 or 50, all in progress; stable 100 and completed; rollback 0 and rolled back), and where the
  -- rollout's file took writes and held the rollout, it does so after, or else refused writes at some time.
  pub rollout_run-IsKept :
      (xs : List Call) (s : RolloutManager N)
      → IsKept f s
      → IsSaved s
      → IsKept f (run f xs s) × (IsSaved (run f xs s) ⊎ (any refuses xs ≡ true))
  rollout_run-IsKept xs s h saved = (run-IsKept f xs s h, run-IsSaved xs s saved)
