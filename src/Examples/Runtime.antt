-- ===== src/Examples/Runtime.antt =====
-- The engine over the example app and region.
use frida_desktop.Prelude.{
  String, ℕ, ◌≡◌, refl, true, false, none, some, List, [], ◌∷◌, ◌⊎◌, arith, str_append,
}
use frida_desktop.Prelude.Dict
use frida_desktop.Types.{
  FixEvent, FixStatus, TestResult, TestState, stable, monkey_patch_from_journal, hook_restore,
}
use frida_desktop.Fixer.Methods.{rollback_fix, can_rollback_fix}
use frida_desktop.Fixer.Restored.{IsPutBack}
use frida_desktop.Fixer.Hooks.{foreign, run_restores}
use frida_desktop.Fixer.Faults.{one_patch}
use frida_desktop.Watchdog.{new_watchdog, set_rollback_callback}
use frida_desktop.Store.Defs.{HistoryFile}
use frida_desktop.Patterns.Defs.{detect_patterns}
use frida_desktop.Engine.Defs.{
  Env, Engine, Devices, Safety, mutation_blocked, undo_fix, capture_bug, keep_recent,
  watchdog_callback, restore_hooks, roll_journals,
}
use frida_desktop.Engine.Verdict.{ReadBack, undo_fix-verified}
use frida_desktop.Engine.Settled.{Settled}
use frida_desktop.Engine.Gate.{IsHeldBack, capture_bug-IsHeldBack}
use frida_desktop.Engine.Invariant.{captured, ticked, stopped, run, Sound, run-Sound}
use frida_desktop.Engine.Pending.{FailsThenSucceeds, watchdog_callback_masks}
use frida_desktop.Examples.Data.{
  hundredths, app, one_region, clean_engine, clean_fixer, clean_hooks, pattern_of, crash_at,
  summary_text, run_overload,
}

abbrev failing_test : TestResult
failing_test = record {
  test_name = "smoke";
  state = TestState.fail;
  duration_ms = 1;
  error_message = none;
}

abbrev pub env_with : Safety → Env ℕ (List ℕ)
env_with safety = record {
  floats = hundredths;
  java = app;
  frida = one_region;
  summarize = summary_text;
  detector = record { confidence_threshold = 30; min_occurrences = 2 };
  bug_capacity = 2;
  run_tests = λ e. some (failing_test ∷ []);
  safety = λ p. safety;
  fresh_pattern = str_append "pattern_";
  fresh_fix = λ p. "a";
}

abbrev env : Env ℕ (List ℕ)
env = env_with (record { fixes_disabled = false; disk_failed = false; corruption_failed = false })

abbrev shut_env : Env ℕ (List ℕ)
shut_env =
    env_with (record { fixes_disabled = false; disk_failed = true; corruption_failed = false })

abbrev devices : Devices (List ℕ)
devices = record { fixer = clean_fixer; rollback_engine = clean_engine; memory = 1 ∷ 2 ∷ [] }

abbrev pub engine : Engine ℕ (List ℕ)
engine = record {
  running = true;
  devices = devices;
  watchdog = set_rollback_callback (new_watchdog 5000);
  bug_store = record {
    cached = none;
    initialized = false;
    max_events = 2;
    file = HistoryFile.absent;
    quarantined = [];
    disk_ok = true;
    read_ok = true;
  };
  recent_bugs = [];
  pending_rollbacks = [];
  counters = record {
    patterns_detected = 0;
    fixes_applied = 0;
    rollbacks_triggered = 0;
    rollback_failures = 0;
  };
  log = [];
}

capture_bug-IsHeldBack_example :
    IsHeldBack shut_env
      (detect_patterns hundredths shut_env.detector
        (str_append "pattern_")
        (keep_recent 2 (crash_at 9) []))
      engine
      (capture_bug shut_env 9 (crash_at 9) engine)
capture_bug-IsHeldBack_example =
    capture_bug-IsHeldBack shut_env (λ p. unfold mutation_blocked in refl) 9 (crash_at 9) engine
      refl

run-Sound_example :
    Sound env (run env (captured 9 (crash_at 9) ∷ ticked 9000 ∷ stopped true ∷ []) engine)
run-Sound_example =
    run-Sound env (omega arith) (captured 9 (crash_at 9) ∷ ticked 9000 ∷ stopped true ∷ []) engine
      (omega arith, omega arith)

-- The fix "b" of the method `run` is in force.
abbrev patched_devices : Devices (List ℕ)
patched_devices = record devices {
  fixer = record {
    patches = ("b", one_patch (pattern_of "run") "b" 9 run_overload (foreign 7)) ∷ [];
    hooks = clean_hooks;
  };
}

undoes : (undo_fix env "b" patched_devices).0 ≡ true
unfolding undo_fix restore_hooks can_rollback_fix rollback_fix Dict.get run_restores
undoes = refl

undo_fix-verified_example :
    IsPutBack "b" patched_devices.fixer (undo_fix env "b" patched_devices).1.fixer
    ⊎ ReadBack env "b"
        (Dict.values patched_devices.rollback_engine.journals)
        (undo_fix env "b" patched_devices).1.memory
undo_fix-verified_example = undo_fix-verified env "b" patched_devices undoes

abbrev fix_of : String → FixEvent
fix_of id = record {
  fix_id = id;
  pattern_id = "p";
  timestamp = 9;
  strategy = monkey_patch_from_journal;
  status = FixStatus.applied;
  test_results = [];
  rollback_reason = none;
  rollback_capability = some hook_restore;
  rollback_verified = some false;
}

-- Of the two fixes that are pending, the fixer knows only the second.
abbrev waiting : Engine ℕ (List ℕ)
waiting = record engine {
  devices = patched_devices;
  pending_rollbacks = ("a", fix_of "a") ∷ ("b", fix_of "b") ∷ [];
}

fails_then_succeeds : FailsThenSucceeds env waiting (fix_of "a") (fix_of "b")
unfolding undo_fix restore_hooks roll_journals can_rollback_fix rollback_fix Dict.get Dict.values
    run_restores
fails_then_succeeds = record { queued = refl; apart = refl; fails = refl; succeeds = refl }

watchdog_callback_masks_example :
    ((watchdog_callback env waiting).watchdog.current_state ≡ stable)
    × (Dict.get "a" (watchdog_callback env waiting).pending_rollbacks
        ≡ some (record (fix_of "a") { rollback_verified = some false }))
watchdog_callback_masks_example =
    watchdog_callback_masks env waiting (fix_of "a") (fix_of "b") fails_then_succeeds
