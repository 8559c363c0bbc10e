-- ===== src/Engine/Defs.antt =====
-- `RuntimeLearningEngine` of index.ts: the state, and the handlers from a captured bug to the fix
-- and its rollback. A handler takes place at one time. What the engine asks of the test suite, of
-- the safety mesh and of the generator of ids is an interface, `Env`, and what it tells the metrics
-- and the health endpoint is a log.
use frida_desktop.Prelude.{
  ℕ, ◌+◌, ◌-◌, String, Bool, true, false, not, ◌||◌, Option, none, some, List, [], ◌∷◌, ◌++◌, ltb,
  if◌then◌else◌, str_eq, length, drop, filter, every,
}
use frida_desktop.Prelude.Dict
use frida_desktop.Prelude.Dict.{Dict}
use frida_desktop.Types.{
  BugEvent, BugPattern, FixEvent, FixStatus, TestResult, TestState, RollbackJournal, stable,
  observe, failsafe,
}
use frida_desktop.Floats.{Floats}
use frida_desktop.Fixer.Methods.{Java, Fixer, apply_fix, can_rollback_fix, rollback_fix}
use frida_desktop.Rollback.Defs.{FridaMemory, RollbackEngine, Rolled, rollback}
use frida_desktop.Watchdog.{Watchdog, set_state, increment_trap_count, check_epoch_timeout}
use frida_desktop.Store.Defs.{BugStore, Summary, append_event}
use frida_desktop.Patterns.Defs.{PatternDetector, detect_patterns, should_apply_fix}

-- What the mutation gate reads of `getSafetySnapshot()`.
pub record Safety : Type 0 where
  pub fixes_disabled : Bool
  pub disk_failed : Bool
  pub corruption_failed : Bool

-- `run_tests` is none where `runAfterFix` throws; `safety` is the snapshot taken when the pattern
-- is considered.
pub record Env (N M : Type 0) : Type 0 where
  pub floats : Floats N
  pub java : Java
  pub frida : FridaMemory M
  pub summarize : Summary → String
  pub detector : PatternDetector floats
  pub bug_capacity : ℕ
  pub run_tests : FixEvent → Option (List TestResult)
  pub safety : BugPattern N → Safety
  pub fresh_pattern : String → String
  pub fresh_fix : BugPattern N → String

-- What a fix changes and a rollback restores.
pub record Devices (M : Type 0) : Type 0 where
  pub fixer : Fixer
  pub rollback_engine : RollbackEngine
  pub memory : M

pub record Counters : Type 0 where
  pub patterns_detected : ℕ
  pub fixes_applied : ℕ
  pub rollbacks_triggered : ℕ
  pub rollback_failures : ℕ

-- A call of the metrics collector and the health endpoint.
pub data Note (N : Type 0) : Type 0 where
  bug_capture_noted refreshed : Note N
  detection_noted : N → Note N
  fix_noted : Bool → Note N
  rollback_noted : Bool → Note N

pub record Engine (N M : Type 0) : Type 0 where
  pub running : Bool
  pub devices : Devices M
  pub watchdog : Watchdog
  pub bug_store : BugStore N
  pub recent_bugs : List BugEvent
  pub pending_rollbacks : Dict FixEvent
  pub counters : Counters
  pub log : List (Note N)

abbrev pub test_passed : TestResult → Bool
test_passed r = elim r.state [ TestState.fail ↦ false | _ ↦ true ]

abbrev pub is_failed : FixStatus → Bool
is_failed FixStatus.failed = true
is_failed _ = false

unfoldable pub mutation_blocked : Safety → Bool
mutation_blocked x = x.fixes_disabled || x.disk_failed || x.corruption_failed

unfoldable pub keep_recent : ℕ → BugEvent → List BugEvent → List BugEvent
keep_recent capacity e es =
    let grown = es ++ e ∷ [] in
    if ltb capacity (length grown) then drop (length grown - capacity) grown else grown

module _ {N M : Type 0} where
  abbrev pub note : Note N → Engine N M → Engine N M
  note n s = record s { log = s.log ++ n ∷ [] }

  unfoldable pub to_failsafe : Engine N M → Engine N M
  to_failsafe s = record s { watchdog = set_state failsafe s.watchdog }

  -- `setState('FAILSAFE')` and `incrementTrapCount()`.
  unfoldable pub trap : Engine N M → Engine N M
  trap s = record s { watchdog = increment_trap_count (set_state failsafe s.watchdog) }

  module _ (env : Env N M) where
    -- `none` stands for a rollback out of fuel, and counts as one that is not verified.
    abbrev pub with_rolled : Option (Rolled env.frida) → Devices M → Bool × Devices M
    with_rolled none d = (false, d)
    with_rolled (some r) d = (r.success, record d { rollback_engine = r.engine; memory = r.memory })

    -- The loop over the journals, left at the first that is verified.
    unfoldable pub roll_journals : List RollbackJournal → Devices M → Bool × Devices M
    roll_journals [] d = (false, d)
    roll_journals (j ∷ js) d =
        let (ok, d') = with_rolled (rollback env.frida j d.rollback_engine d.memory) d in
        let rest = roll_journals js d' in if ok then (true, d') else rest

    unfoldable pub restore_hooks : String → Devices M → Bool × Devices M
    restore_hooks fix_id d =
        if can_rollback_fix fix_id d.fixer
        then (let (ok, fixer) = rollback_fix env.java fix_id d.fixer in
            (ok, record d { fixer = fixer }))
        else (false, d)

    abbrev pub journals_of : String → Devices M → List RollbackJournal
    journals_of fix_id d =
        filter (λ j. str_eq j.fix_id fix_id) (Dict.values d.rollback_engine.journals)

    -- The hooks first, and the journals of the fix where that is not verified.
    unfoldable pub undo_fix : String → Devices M → Bool × Devices M
    undo_fix fix_id d =
        let (ok, d') = restore_hooks fix_id d in
        if ok then (true, d') else roll_journals (journals_of fix_id d') d'

    unfoldable pub settle_rollback : Bool → FixEvent → Engine N M → Bool × FixEvent × Engine N M
    settle_rollback true e s = (
      true,
      record e { rollback_verified = some true; status = FixStatus.rolled_back },
      note (rollback_noted true) (record s {
        pending_rollbacks = Dict.delete e.fix_id s.pending_rollbacks;
        watchdog = set_state stable s.watchdog;
      }),
    )
    settle_rollback false e s = (
      false,
      record e { rollback_verified = some false },
      note (rollback_noted false) (record s {
        counters = record s.counters { rollback_failures = s.counters.rollback_failures + 1 };
      }),
    )

    unfoldable pub execute_rollback : FixEvent → Engine N M → Bool × FixEvent × Engine N M
    unfolding settle_rollback
    execute_rollback e s =
        let (ok, d) = undo_fix e.fix_id s.devices in
        settle_rollback ok e (record s {
          devices = d;
          counters = record s.counters { rollbacks_triggered = s.counters.rollbacks_triggered + 1 };
        })

    -- A fix whose rollback is not verified is kept for the watchdog.
    abbrev pub keep_pending : Bool → FixEvent → Engine N M → Engine N M
    keep_pending true e s = s
    keep_pending false e s =
        trap (record s { pending_rollbacks = Dict.set e.fix_id e s.pending_rollbacks })

    unfoldable pub tests_failed : FixEvent → Engine N M → Engine N M
    unfolding trap
    tests_failed e s =
        let (verified, e', s') =
          execute_rollback (record e { rollback_reason = some "post_fix_test_failure" })
            (note (fix_noted false) s) in
        keep_pending verified e' s'

    unfoldable pub tests_passed : Engine N M → Engine N M
    tests_passed s = note (fix_noted true) (record s {
      counters = record s.counters { fixes_applied = s.counters.fixes_applied + 1 };
      watchdog = set_state stable s.watchdog;
    })

    abbrev pub after_tests : FixEvent → Option (List TestResult) → Engine N M → Engine N M
    after_tests e none s = trap s
    after_tests e (some results) s =
        if every test_passed results
        then tests_passed s
        else tests_failed (record e { test_results = results }) s

    abbrev pub after_fix : FixEvent → Engine N M → Engine N M
    after_fix e s =
        if is_failed e.status
        then to_failsafe (note (fix_noted false) s)
        else after_tests e (env.run_tests e) s

    -- With the `finally` clause.
    unfoldable pub apply_fix_with_rollback : ℕ → BugPattern N → Engine N M → Engine N M
    unfolding to_failsafe tests_passed
    apply_fix_with_rollback now p s =
        let (e, fixer) = apply_fix env.java p (env.fresh_fix p) now s.devices.fixer in
        note refreshed (
          after_fix e (record s {
            devices = record s.devices { fixer = fixer };
            watchdog = set_state observe s.watchdog;
          }))

    -- The body of the loop over the patterns.
    unfoldable pub consider : ℕ → BugPattern N → Engine N M → Engine N M
    unfolding mutation_blocked
    consider now p s =
        if not (should_apply_fix env.floats env.detector p)
        then s
        else if mutation_blocked (env.safety p)
        then to_failsafe s
        else apply_fix_with_rollback now p s

    unfoldable pub consider_all : ℕ → List (BugPattern N) → Engine N M → Engine N M
    consider_all now [] s = s
    consider_all now (p ∷ ps) s = consider_all now ps (consider now p s)

    -- `Math.max(...confidences)`, or 0 where there are none.
    unfoldable pub best_confidence : List (BugPattern N) → N
    best_confidence [] = env.floats.of_nat 0
    best_confidence (p ∷ []) = p.confidence
    best_confidence (p ∷ q ∷ ps) = env.floats.fmax p.confidence (best_confidence (q ∷ ps))

    unfoldable pub process_patterns : ℕ → List (BugPattern N) → Engine N M → Engine N M
    process_patterns now ps s = consider_all now ps (
        note (detection_noted (best_confidence ps)) (record s {
          counters = record s.counters {
            patterns_detected = s.counters.patterns_detected + length ps;
          };
        }))

    unfoldable pub process_bug_event : ℕ → Engine N M → Engine N M
    process_bug_event now s =
        process_patterns now
          (detect_patterns env.floats env.detector env.fresh_pattern s.recent_bugs) s

    -- The event with its defaults filled in is the argument.
    unfoldable pub capture_bug : ℕ → BugEvent → Engine N M → Engine N M
    capture_bug now e s =
        if s.running
        then note refreshed (
            process_bug_event now (
              note bug_capture_noted (record s {
                bug_store = append_event env.summarize now e s.bug_store;
                recent_bugs = keep_recent env.bug_capacity e s.recent_bugs;
              })))
        else s

    -- The loop of the watchdog's callback. A pending event that stays is the one that was mutated.
    abbrev pub retry : FixEvent → Engine N M → Engine N M
    retry e s =
        let (verified, e', s') = execute_rollback e (to_failsafe s) in
        if verified
        then s'
        else record s' { pending_rollbacks = Dict.set e'.fix_id e' s'.pending_rollbacks }

    unfoldable pub retry_all : List FixEvent → Engine N M → Engine N M
    retry_all [] s = s
    retry_all (e ∷ es) s = retry_all es (retry e s)

    unfoldable pub watchdog_callback : Engine N M → Engine N M
    watchdog_callback s = note refreshed (retry_all (Dict.values s.pending_rollbacks) s)

    -- A tick of the watchdog's epoch timer.
    unfoldable pub tick : ℕ → Engine N M → Engine N M
    tick now s =
        let (watchdog, called) = check_epoch_timeout now s.watchdog in
        let s' = record s { watchdog = watchdog } in if called then watchdog_callback s' else s'
