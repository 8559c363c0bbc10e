-- ===== src/Examples/Memory.antt =====
-- Journals of the example region, and the watchdog's timers.
use frida_desktop.Prelude.{◌+◌, ◌≤◌, ◌<◌, ◌≡◌, refl, true, false, none, some, [], ◌∷◌, arith}
use frida_desktop.Prelude.Dict
use frida_desktop.Types.{RollbackJournal, failsafe}
use frida_desktop.Rollback.Defs.{
  RollbackEngine, Rolled, rollback, journal_before, checksum, attempts_of, persist_journal,
  remember,
}
use frida_desktop.Rollback.Verified.{Verdict, rollback_ends, rollback-journal_before}
use frida_desktop.Watchdog.{Watchdog, new_watchdog, start_watchdog, check_epoch_timeout}
use frida_desktop.Watchdog.Timeout.{check_epoch_timeout_trips}
use frida_desktop.Examples.Data.{one_region, clean_engine}

abbrev journal : RollbackJournal
journal = record {
  journal_id = "j";
  timestamp = 5;
  fix_id = "a";
  original_bytes = 1 ∷ 2 ∷ [];
  target_address = 64;
  size = 2;
  checksum_before = checksum one_region (1 ∷ 2 ∷ []);
  checksum_after = none;
  verification_passed = none;
}

abbrev journalled : RollbackEngine
journalled = persist_journal journal (remember journal clean_engine)

attempt_left : attempts_of one_region journal journalled < journalled.max_rollback_attempts
unfolding attempts_of persist_journal Dict.get
attempt_left = omega arith

rollback_ends_example :
    (r : Rolled one_region) × (rollback one_region journal journalled (9 ∷ 9 ∷ []) ≡ some r)
    × Verdict one_region journal journalled r
    × (attempts_of one_region journal journalled ≤ attempts_of one_region journal r.engine)
    × (attempts_of one_region journal r.engine ≤ journalled.max_rollback_attempts)
rollback_ends_example =
    rollback_ends one_region journal journalled (9 ∷ 9 ∷ []) (omega (arith, attempt_left))

made :
    journal_before one_region 64 2 "a" "j" 5 (1 ∷ 2 ∷ []) clean_engine ≡ some (journal, journalled)
unfolding journal_before
made = refl

rollback-journal_before_example :
    (r : Rolled one_region) × (rollback one_region journal journalled (9 ∷ 9 ∷ []) ≡ some r)
    × (r.success ≡ true)
    × (some r.memory ≡ some (1 ∷ 2 ∷ []))
    × (attempts_of one_region journal r.engine ≡ attempts_of one_region journal journalled + 1)
rollback-journal_before_example =
    rollback-journal_before one_region 64 2 "a" "j" 5 (1 ∷ 2 ∷ []) (9 ∷ 9 ∷ []) clean_engine made
      refl refl refl attempt_left

abbrev watching : Watchdog
watching = start_watchdog 1000 (new_watchdog 5000)

is_watching :
    (watching.monitoring ≡ true)
    × (watching.epoch_timeout ≡ 5000)
    × (watching.last_heartbeat_time ≡ 1000)
unfolding start_watchdog new_watchdog
is_watching = (refl, refl, refl)

check_epoch_timeout_trips_example :
    let (s', called) = check_epoch_timeout 7000 watching in
    (called ≡ watching.rollback_callback)
    × (s'.current_state ≡ failsafe)
    × (s'.trap_count ≡ watching.trap_count + 1)
    × (s'.current_epoch ≡ watching.current_epoch + 1)
    × (check_epoch_timeout 12000 s' ≡ (s', false))
check_epoch_timeout_trips_example =
    check_epoch_timeout_trips 7000 12000 watching is_watching.0 (omega (arith, is_watching))
      (omega (arith, is_watching))
