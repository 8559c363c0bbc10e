-- ===== src/Rollout/Stages.antt =====
-- The stages of a rollout over the calls of rollout-manager.ts.
use frida_desktop.Prelude.{
  ℕ, ◌-◌, ◌≤◌, ◌<◌, String, ◌≡◌, not, ◌++◌, refl, sym, ap, ◌∙◌, Bool, true, false, ◌||◌, Option,
  none, some, List, [], ◌∷◌, ltb, ◌==◌, if◌then◌else◌, arith, Bool-cases, inl, inr,
}
use mathlib.Core.Path.{subst}
use mathlib.Core.Bool.{false≢true}
use frida_desktop.Prelude.Dict.{Dict}
use frida_desktop.Floats.{Floats}
use frida_desktop.Rollout.Defs.{
  RolloutStage, canary, beta, stable, rollback, RolloutStatus, in_progress, completed, rolled_back,
  Rollout, RolloutManager, load_rollout_data, save_rollout_data, rollback_rollout, rolled_back_at,
  next_stage, start_canary_rollout, progress_rollout, progress_from, is_failing, record_metric,
  with_metric, can_deploy_version, stage_duration_ms, is_in_progress, replace, roll_back,
  progress_current, measure, metric_of, can_deploy_after, can_follow,
}

-- A call, at its time. `restarted` is a new process over the files, and `disk` says which of the two
-- files, the rollout's and the metrics', take writes from there on.
pub data Call : Type 0 where
  began : ℕ → String → Call
  progressed aborted : ℕ → Call
  measured : ℕ → ℕ → ℕ → Dict ℕ → Call
  restarted : Call
  disk : Bool → Bool → Call

-- The rollout's file takes no writes from there on.
abbrev pub refuses : Call → Bool
refuses (disk ok metrics_ok) = not ok
refuses _ = false

-- The traffic and the status that a stage can have.
abbrev pub is_position : RolloutStage → ℕ → RolloutStatus → Bool
is_position canary t in_progress = t == 5
is_position beta t in_progress = t == 25 || t == 50
is_position stable t completed = t == 100
is_position rollback t rolled_back = t == 0
is_position _ t _ = false

abbrev pub IsPlaced : {N : Type 0} → Rollout N → Type 0
IsPlaced r = is_position r.stage r.traffic_percentage r.status ≡ true

abbrev pub AllPlaced : {N : Type 0} → Option (Rollout N) → Type 0
AllPlaced none = Unit
AllPlaced (some r) = IsPlaced r

-- The traffic after a stage that went well.
abbrev pub next_traffic : ℕ → ℕ
next_traffic t = if t == 5 then 25 else if t == 25 then 50 else 100

abbrev pub run_rollback :
    {N : Type 0} → Option (Rollout N × RolloutManager N) → RolloutManager N → RolloutManager N
run_rollback none s = s
run_rollback (some (r, s')) s = s'

module _ {N : Type 0} (f : Floats N) where
  unfoldable pub step : Call → RolloutManager N → RolloutManager N
  step (began now version) s = (start_canary_rollout f now version s).1
  step (progressed now) s = (progress_rollout f now s).1
  step (aborted now) s = run_rollback (rollback_rollout now s) s
  step (measured now processed failed errors) s = record_metric f now processed failed errors s
  step restarted s =
      load_rollout_data s.rollout_writable s.metrics_writable s.rollout_file s.metrics_file
  step (disk ok metrics_ok) s = record s { rollout_writable = ok; metrics_writable = metrics_ok }

  unfoldable pub run : List Call → RolloutManager N → RolloutManager N
  unfolding step
  run [] s = s
  run (x ∷ xs) s = run xs (step x s)

  -- The rollout in memory and the one on file are in places of their stages.
  pub record IsKept (s : RolloutManager N) : Type 0 where
    pub placed : AllPlaced s.current_rollout
    pub stored : AllPlaced s.rollout_file

  replace-IsKept :
      (r : Rollout N) (s : RolloutManager N) → IsPlaced r → IsKept s → IsKept (replace r s)
  unfolding save_rollout_data
  replace-IsKept r s h kept = elim (Bool-cases s.rollout_writable) [
    | inl e ↦ elim (Bool-cases s.metrics_writable) [
      | inl m ↦ simp (e, m) (record { placed = h; stored = h })
      | inr m ↦ simp (e, m) (record { placed = h; stored = h })
    ]
    | inr e ↦ simp e (record { placed = h; stored = kept.stored })
  ]

  replace-current : (r : Rollout N) (s : RolloutManager N) → (replace r s).current_rollout ≡ some r
  unfolding save_rollout_data
  replace-current r s = elim (Bool-cases s.rollout_writable) [
    | inl e ↦ elim (Bool-cases s.metrics_writable) [
      | inl m ↦ simp (e, m) refl
      | inr m ↦ simp (e, m) refl
    ]
    | inr e ↦ simp e refl
  ]

  next_stage-IsPlaced : (now : ℕ) (r : Rollout N) → IsPlaced r → IsPlaced (next_stage now r)
  unfolding next_stage
  next_stage-IsPlaced now r h = at r.stage r.status h
    where
      at :
          (a : RolloutStage) (b : RolloutStatus)
          → is_position a r.traffic_percentage b ≡ true
          → IsPlaced (next_stage now (record r { stage = a; status = b }))
      at canary in_progress k = ground (arith, k)
      at beta in_progress k = ground (arith, k)
      at stable completed k = ground (arith, k)
      at rollback rolled_back k = ground (arith, k)
      at a b k = absurd (false≢true k)

  progress_from-IsKept :
      (now : ℕ) (r : Rollout N) (s : RolloutManager N)
      → IsPlaced r
      → IsKept s
      → IsKept (progress_from f now r s).1
  unfolding rolled_back_at
  progress_from-IsKept now r s p h =
      elim (Bool-cases (ltb (now - r.start_time) (stage_duration_ms f))) [
        | inl soon ↦ simp soon h
        | inr late ↦ elim (Bool-cases (is_failing f r)) [
          | inl bad ↦ simp (late, bad) (replace-IsKept (rolled_back_at now r) s refl h)
          | inr good ↦
              simp (late, good)
                (replace-IsKept (next_stage now r) s (next_stage-IsPlaced now r p) h)
        ]
      ]

  progress_current-IsKept :
      (now : ℕ) (o : Option (Rollout N)) (s : RolloutManager N)
      → AllPlaced o
      → IsKept s
      → IsKept (progress_current f now o s).1
  progress_current-IsKept now none s p h = h
  progress_current-IsKept now (some r) s p h = elim (Bool-cases (is_in_progress r.status)) [
    | inl on ↦ simp on (progress_from-IsKept now r s p h)
    | inr off ↦ simp off h
  ]

  roll_back-IsKept :
      (now : ℕ) (o : Option (Rollout N)) (s : RolloutManager N)
      → IsKept s
      → IsKept (run_rollback (roll_back now o s) s)
  unfolding rolled_back_at
  roll_back-IsKept now none s h = h
  roll_back-IsKept now (some r) s h = replace-IsKept (rolled_back_at now r) s refl h

  measure-IsKept :
      (now processed failed : ℕ) (errors : Dict ℕ) (o : Option (Rollout N)) (s : RolloutManager N)
      → AllPlaced o
      → IsKept s
      → IsKept (measure f now processed failed errors o s)
  unfolding with_metric save_rollout_data
  measure-IsKept now processed failed errors none s p h = h
  measure-IsKept now processed failed errors (some r) s p h =
      replace-IsKept (with_metric f processed failed errors r)
        (record s { metrics = s.metrics ++ metric_of now processed failed errors r ∷ [] }) p
        (record { placed = h.placed; stored = h.stored })

  step-IsKept : (x : Call) (s : RolloutManager N) → IsKept s → IsKept (step x s)
  unfolding step start_canary_rollout load_rollout_data progress_rollout rollback_rollout
      record_metric
  step-IsKept (began now version) s h = replace-IsKept _ s refl h
  step-IsKept (progressed now) s h = progress_current-IsKept now s.current_rollout s h.placed h
  step-IsKept (aborted now) s h = roll_back-IsKept now s.current_rollout s h
  step-IsKept (measured now processed failed errors) s h =
      measure-IsKept now processed failed errors s.current_rollout s h.placed h
  step-IsKept restarted s h = record { placed = h.stored; stored = h.stored }
  step-IsKept (disk ok metrics_ok) s h = record { placed = h.placed; stored = h.stored }

  pub run-IsKept : (xs : List Call) (s : RolloutManager N) → IsKept s → IsKept (run xs s)
  unfolding run
  run-IsKept [] s h = h
  run-IsKept (x ∷ xs) s h = run-IsKept xs (step x s) (step-IsKept x s h)

  -- A kept rollout permits a new deployment exactly where all of the traffic has it.
  can_deploy_version-IsKept :
      (s : RolloutManager N) (r : Rollout N)
      → IsKept s
      → s.current_rollout ≡ some r
      → (can_deploy_version s).0 ≡ (r.traffic_percentage == 100)
  unfolding can_deploy_version
  can_deploy_version-IsKept s r h e =
      ap (λ o. (can_deploy_after o).0) e
      ∙ at r.stage r.status r.traffic_percentage (subst AllPlaced e h.placed)
    where
      at :
          (a : RolloutStage) (b : RolloutStatus) (t : ℕ)
          → is_position a t b ≡ true
          → (can_follow b).0 ≡ (t == 100)
      at canary in_progress t k = ground (arith, k)
      at beta in_progress t k = ground (arith, k)
      at stable completed t k = ground (arith, k)
      at rollback rolled_back t k = ground (arith, k)
      at a b t k = absurd (false≢true k)

  next_stage_raises :
      (now : ℕ) (r : Rollout N)
      → IsPlaced r
      → r.traffic_percentage < (next_stage now r).traffic_percentage
      → (next_stage now r).traffic_percentage ≡ next_traffic r.traffic_percentage
  unfolding next_stage
  next_stage_raises now r h = at r.stage r.status h
    where
      at :
          (a : RolloutStage) (b : RolloutStatus)
          → is_position a r.traffic_percentage b ≡ true
          → let q = record r { stage = a; status = b } in
            r.traffic_percentage < (next_stage now q).traffic_percentage
            → (next_stage now q).traffic_percentage ≡ next_traffic r.traffic_percentage
      at canary in_progress k up = ground (arith, k)
      at beta in_progress k up = ground (arith, k)
      at stable completed k up = ground (arith, k)
      at rollback rolled_back k up = ground (arith, k, up)
      at a b k up = absurd (false≢true k)

  abbrev pub traffic_of : Option (Rollout N) → ℕ
  traffic_of none = 0
  traffic_of (some r) = r.traffic_percentage

  -- What a rise of the traffic from `r` to that of `o` takes.
  abbrev Raises : ℕ → Rollout N → Option (Rollout N) → Type 0
  Raises now r o =
      r.traffic_percentage < traffic_of o
      → (r.status ≡ in_progress)
        × (300000 ≤ now - r.start_time)
        × (is_failing f r ≡ false)
        × (traffic_of o ≡ next_traffic r.traffic_percentage)

  is_in_progress-eq : (b : RolloutStatus) → is_in_progress b ≡ true → b ≡ in_progress
  is_in_progress-eq in_progress h = refl
  is_in_progress-eq completed h = absurd (false≢true h)
  is_in_progress-eq rolled_back h = absurd (false≢true h)

  progress_from-Raises :
      (now : ℕ) (r : Rollout N) (s : RolloutManager N)
      → IsPlaced r
      → traffic_of s.current_rollout ≡ r.traffic_percentage
      → r.status ≡ in_progress
      → Raises now r (progress_from f now r s).1.current_rollout
  unfolding rolled_back_at
  progress_from-Raises now r s p same on =
      elim (Bool-cases (ltb (now - r.start_time) (stage_duration_ms f))) [
        | inl soon ↦ simp soon (λ up. absurd (omega (arith, same, up)))
        | inr late ↦ elim (Bool-cases (is_failing f r)) [
          | inl bad ↦
              simp (late, bad, replace-current (rolled_back_at now r) s)
                (λ up. absurd (omega (arith, up)))
          | inr good ↦
              simp (late, good, replace-current (next_stage now r) s)
                (λ up. (on, ground (arith, late), refl, next_stage_raises now r p up))
        ]
      ]

  progress_current-Raises :
      (now : ℕ) (r : Rollout N) (s : RolloutManager N)
      → IsPlaced r
      → traffic_of s.current_rollout ≡ r.traffic_percentage
      → Raises now r (progress_current f now (some r) s).1.current_rollout
  progress_current-Raises now r s p same = elim (Bool-cases (is_in_progress r.status)) [
    | inl on ↦ simp on (progress_from-Raises now r s p same (is_in_progress-eq r.status on))
    | inr off ↦ simp off (λ up. absurd (omega (arith, same, up)))
  ]

  -- Where a call of `progressRollout` raises the traffic of a kept rollout, the rollout is in
  -- progress, its stage has lasted five minutes, its rates are not failing, and the traffic goes
  -- to the next of 5, 25, 50 and 100.
  pub progress_rollout_raises :
      (now : ℕ) (s : RolloutManager N) (r : Rollout N)
      → IsKept s
      → s.current_rollout ≡ some r
      → r.traffic_percentage < traffic_of (progress_rollout f now s).1.current_rollout
      → (r.status ≡ in_progress)
        × (300000 ≤ now - r.start_time)
        × (is_failing f r ≡ false)
        × (traffic_of (progress_rollout f now s).1.current_rollout
            ≡ next_traffic r.traffic_percentage)
  unfolding progress_rollout
  progress_rollout_raises now s r h e =
      subst (λ o. Raises now r (progress_current f now o s).1.current_rollout) (sym e)
        (progress_current-Raises now r s (subst AllPlaced e h.placed) (ap traffic_of e))
