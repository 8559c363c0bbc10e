-- ===== src/Types.antt =====
-- The shared data of modules/runtime-learning-engine/types.ts. A JavaScript number that counts or
-- tells the time is a natural number, and the confidence of a pattern has the type `N` of floats.
use frida_desktop.Prelude.{ℕ, String, Bool, Option, List}

pub data BugType : Type 0 where
  crash anr memory_leak deadlock : BugType

pub data FixStrategy : Type 0 where
  try_catch_with_fallback monkey_patch_from_journal component_restart : FixStrategy

pub data EventStatus : Type 0 where
  new captured pattern_detected fix_applied fix_rolled_back resolved : EventStatus

pub data TestState : Type 0 where
  pass fail skipped : TestState

pub data WatchdogState : Type 0 where
  stable observe dump failsafe : WatchdogState

pub data Severity : Type 0 where
  critical high medium low info warning : Severity

pub data RollbackCapability : Type 0 where
  hook_restore memory_journal non_reversible token_vazio : RollbackCapability

pub data Actionability : Type 0 where
  auto_fix_eligible observation_only : Actionability

pub record BugEvent : Type 0 where
  pub id : String
  pub timestamp : ℕ
  pub bug_type : BugType
  pub class : String
  pub method : String
  pub exception_type : Option String
  pub stack_hash : String
  pub severity : Severity
  pub actionability : Option Actionability
  pub status : EventStatus
  pub thread_id : Option ℕ
  pub process_id : Option ℕ

pub record BugPattern (N : Type 0) : Type 0 where
  pub pattern_id : String
  pub bug_type : BugType
  pub class : String
  pub method : String
  pub exception_type : Option String
  pub occurrences : ℕ
  pub confidence : N
  pub actionability : Option Actionability
  pub last_seen : ℕ
  pub suggested_fix : String
  pub fix_strategy : FixStrategy

pub record TestResult : Type 0 where
  pub test_name : String
  pub state : TestState
  pub duration_ms : ℕ
  pub error_message : Option String

pub data FixStatus : Type 0 where
  applied rolled_back failed : FixStatus

pub record FixEvent : Type 0 where
  pub fix_id : String
  pub pattern_id : String
  pub timestamp : ℕ
  pub strategy : FixStrategy
  pub status : FixStatus
  pub test_results : List TestResult
  pub rollback_reason : Option String
  pub rollback_capability : Option RollbackCapability
  pub rollback_verified : Option Bool

pub record WatchdogEvent : Type 0 where
  pub timestamp : ℕ
  pub heartbeat_count : ℕ
  pub epoch : ℕ
  pub state : WatchdogState
  pub trap_count : ℕ
  pub rollback_triggered : Option Bool
  pub reason : Option ℕ

-- Bytes are numbers. `checksum_before` is never absent, and "" where it is empty.
pub record RollbackJournal : Type 0 where
  pub journal_id : String
  pub timestamp : ℕ
  pub fix_id : String
  pub original_bytes : List ℕ
  pub target_address : ℕ
  pub size : ℕ
  pub checksum_before : String
  pub checksum_after : Option String
  pub verification_passed : Option Bool

-- The patterns, fixes and watchdog events of the file are only counted by the program.
pub record BugHistoryStore (N : Type 0) : Type 0 where
  pub schema : ℕ
  pub events : List BugEvent
  pub patterns : List (BugPattern N)
  pub fix_events : List FixEvent
  pub watchdog_events : List WatchdogEvent
  pub integrity_hash : String
  pub last_updated : ℕ

pub record LearningEngineConfig (N : Type 0) : Type 0 where
  pub storage_path : String
  pub bug_capacity : ℕ
  pub confidence_threshold : N
  pub min_occurrences_before_fix : ℕ
  pub heartbeat_interval_ms : ℕ
  pub epoch_timeout_ms : ℕ
  pub journal_size : ℕ
  pub max_rollback_attempts : ℕ
