-- ===== src/Engine/Invariant.antt =====
-- Runs of modules/runtime-learning-engine/index.ts over the events that reach the engine.
use frida_desktop.Prelude.{
  ℕ, ◌-◌, ◌≤◌, ◌<◌, Bool, true, false, ◌&&◌, Option, none, some, List, [], ◌∷◌, ◌++◌, length,
  length-drop, length-slice_last, arith, inl, inr, Bool-cases, every, ◌==◌,
}
use frida_desktop.Types.{BugEvent, BugPattern, FixEvent, TestResult}
use frida_desktop.Watchdog.{check_epoch_timeout}
use frida_desktop.Patterns.Defs.{should_apply_fix}
use frida_desktop.Fixer.Methods.{apply_fix}
use frida_desktop.Prelude.Dict
use frida_desktop.Engine.Defs.{
  Env, Engine, Counters, keep_recent, settle_rollback, execute_rollback, keep_pending, tests_failed,
  tests_passed, after_tests, after_fix, apply_fix_with_rollback, consider, consider_all,
  process_patterns, process_bug_event, capture_bug, retry, retry_all, watchdog_callback, tick,
  to_failsafe, trap, is_failed, test_passed, mutation_blocked, undo_fix, note, fix_noted,
}
use frida_desktop.Engine.Lifecycle.{
  StartReport, start, stop, proceed, adopt_history, load_history_and_detect_patterns,
}

pub data Event : Type 0 where
  started : StartReport → ℕ → Event
  captured : ℕ → BugEvent → Event
  ticked : ℕ → Event
  stopped : Bool → Event

module _ {N M : Type 0} (env : Env N M) where
  unfoldable pub step : Event → Engine N M → Engine N M
  step (started r now) s = start env r now s
  step (captured now e) s = capture_bug env now e s
  step (ticked now) s = tick env now s
  step (stopped ok) s = stop env ok s

  unfoldable pub run : List Event → Engine N M → Engine N M
  unfolding step
  run [] s = s
  run (x ∷ xs) s = run xs (step x s)

  abbrev pub Bounds : List BugEvent → Counters → Type 0
  Bounds recent c =
      (length recent ≤ env.bug_capacity) × (c.rollback_failures ≤ c.rollbacks_triggered)

  -- The recent bugs are within the capacity, and no more rollbacks failed than were triggered.
  abbrev pub Sound : Engine N M → Type 0
  Sound s = Bounds s.recent_bugs s.counters

  settle-Sound :
      (ok : Bool) (e : FixEvent) (s : Engine N M)
      → length s.recent_bugs ≤ env.bug_capacity
      → s.counters.rollback_failures < s.counters.rollbacks_triggered
      → Sound (settle_rollback env ok e s).2
  unfolding settle_rollback
  settle-Sound true e s a b = (a, omega arith)
  settle-Sound false e s a b = (a, omega arith)

  execute_rollback-Sound :
      (e : FixEvent) (s : Engine N M) → Sound s → Sound (execute_rollback env e s).2
  unfolding execute_rollback
  execute_rollback-Sound e s h =
      settle-Sound (undo_fix env e.fix_id s.devices).0 e _ h.0 (omega arith)

  keep_pending-Sound :
      (ok : Bool) (e : FixEvent) (s : Engine N M) → Sound s → Sound (keep_pending env ok e s)
  unfolding trap
  keep_pending-Sound true e s h = h
  keep_pending-Sound false e s h = h

  tests_failed-Sound : (e : FixEvent) (s : Engine N M) → Sound s → Sound (tests_failed env e s)
  unfolding tests_failed
  tests_failed-Sound e s h = keep_pending-Sound _ _ _ (
      execute_rollback-Sound (record e { rollback_reason = some "post_fix_test_failure" })
        (note (fix_noted false) s) h)

  after_tests-Sound :
      (e : FixEvent) (o : Option (List TestResult)) (s : Engine N M)
      → Sound s
      → Sound (after_tests env e o s)
  unfolding tests_passed trap
  after_tests-Sound e none s h = h
  after_tests-Sound e (some rs) s h = elim (Bool-cases (every test_passed rs)) [
    | inl good ↦ simp good h
    | inr bad ↦ simp bad (tests_failed-Sound (record e { test_results = rs }) s h)
  ]

  after_fix-Sound : (e : FixEvent) (s : Engine N M) → Sound s → Sound (after_fix env e s)
  unfolding to_failsafe
  after_fix-Sound e s h = elim (Bool-cases (is_failed e.status)) [
    | inl bad ↦ simp bad h
    | inr made ↦ simp made (after_tests-Sound e (env.run_tests e) s h)
  ]

  apply_fix_with_rollback-Sound :
      (now : ℕ) (p : BugPattern N) (s : Engine N M)
      → Sound s
      → Sound (apply_fix_with_rollback env now p s)
  unfolding apply_fix_with_rollback
  apply_fix_with_rollback-Sound now p s h =
      after_fix-Sound (apply_fix env.java p (env.fresh_fix p) now s.devices.fixer).0 _ h

  consider-Sound :
      (now : ℕ) (p : BugPattern N) (s : Engine N M) → Sound s → Sound (consider env now p s)
  unfolding consider to_failsafe
  consider-Sound now p s h = elim (Bool-cases (should_apply_fix env.floats env.detector p)) [
    | inr idle ↦ simp idle h
    | inl due ↦ elim (Bool-cases (mutation_blocked (env.safety p))) [
      | inl shut ↦ simp (due, shut) h
      | inr free ↦ simp (due, free) (apply_fix_with_rollback-Sound now p s h)
    ]
  ]

  consider_all-Sound :
      (now : ℕ) (ps : List (BugPattern N)) (s : Engine N M)
      → Sound s
      → Sound (consider_all env now ps s)
  unfolding consider_all
  consider_all-Sound now [] s h = h
  consider_all-Sound now (p ∷ ps) s h =
      consider_all-Sound now ps (consider env now p s) (consider-Sound now p s h)

  length-keep_recent : (n : ℕ) (e : BugEvent) (es : List BugEvent) → length (keep_recent n e es) ≤ n
  unfolding keep_recent
  length-keep_recent n e es = ground (arith, length-drop (length (es ++ e ∷ []) - n) (es ++ e ∷ []))

  capture_bug-Sound :
      (now : ℕ) (e : BugEvent) (s : Engine N M) → Sound s → Sound (capture_bug env now e s)
  unfolding capture_bug process_bug_event process_patterns
  capture_bug-Sound now e s h = elim (Bool-cases s.running) [
    | inr idle ↦ simp idle h
    | inl on ↦
        simp on
          (consider_all-Sound now _ _ (length-keep_recent env.bug_capacity e s.recent_bugs, h.1))
  ]

  retry-Sound : (e : FixEvent) (s : Engine N M) → Sound s → Sound (retry env e s)
  unfolding to_failsafe
  retry-Sound e s h = elim (Bool-cases (execute_rollback env e (to_failsafe s)).0) [
    | inl ok ↦ simp ok (execute_rollback-Sound e (to_failsafe s) h)
    | inr no_good ↦ simp no_good (execute_rollback-Sound e (to_failsafe s) h)
  ]

  retry_all-Sound : (es : List FixEvent) (s : Engine N M) → Sound s → Sound (retry_all env es s)
  unfolding retry_all
  retry_all-Sound [] s h = h
  retry_all-Sound (e ∷ es) s h = retry_all-Sound es (retry env e s) (retry-Sound e s h)

  tick-Sound : (now : ℕ) (s : Engine N M) → Sound s → Sound (tick env now s)
  unfolding tick watchdog_callback
  tick-Sound now s h = elim (Bool-cases (check_epoch_timeout now s.watchdog).1) [
    | inl called ↦ simp called (retry_all-Sound (Dict.values s.pending_rollbacks) _ h)
    | inr quiet ↦ simp quiet h
  ]

  adopt_history-Sound :
      0 < env.bug_capacity
      → (es : List BugEvent) (s : Engine N M) → Sound s
      → Sound (adopt_history env es s)
  unfolding adopt_history
  adopt_history-Sound pos es s h = elim (Bool-cases (length es == 0)) [
    | inl e ↦ simp e h
    | inr e ↦ simp e (omega (arith, length-slice_last env.bug_capacity es pos), h.1)
  ]

  start-Sound :
      0 < env.bug_capacity
      → (r : StartReport) (now : ℕ) (s : Engine N M) → Sound s
      → Sound (start env r now s)
  unfolding start load_history_and_detect_patterns
  start-Sound pos r now s h = elim (Bool-cases s.running) [
    | inl on ↦ simp on h
    | inr idle ↦ elim (Bool-cases (proceed env r && r.capture_started)) [
      | inl ok ↦ simp (idle, ok) (adopt_history-Sound pos _ _ h)
      | inr bad ↦ simp (idle, bad) h
    ]
  ]

  step-Sound : 0 < env.bug_capacity → (x : Event) (s : Engine N M) → Sound s → Sound (step x s)
  unfolding step stop
  step-Sound pos (started r now) s h = start-Sound pos r now s h
  step-Sound pos (captured now e) s h = capture_bug-Sound now e s h
  step-Sound pos (ticked now) s h = tick-Sound now s h
  step-Sound pos (stopped ok) s h = elim (Bool-cases (s.running && ok)) [
    | inl e ↦ simp e h
    | inr e ↦ simp e h
  ]

  -- For a nonzero capacity, whatever starts, captured bugs, watchdog ticks and stops follow on a
  -- state that is sound, the recent bugs stay within the capacity, and the failed rollbacks are
  -- never more than the triggered ones.
  pub run-Sound :
      0 < env.bug_capacity → (xs : List Event) (s : Engine N M) → Sound s → Sound (run xs s)
  unfolding run
  run-Sound pos [] s h = h
  run-Sound pos (x ∷ xs) s h = run-Sound pos xs (step x s) (step-Sound pos x s h)
