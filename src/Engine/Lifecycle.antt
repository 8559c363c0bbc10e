-- ===== src/Engine/Lifecycle.antt =====
-- `constructor`, `start`, `stop` and `loadHistoryAndDetectPatterns` of the engine. The outcomes of
-- the compatibility check and of the capture hooks are arguments.
use frida_desktop.Prelude.{
  ℕ, ◌+◌, Bool, true, false, ◌&&◌, Option, none, some, List, [], ◌==◌, if◌then◌else◌, length,
  slice_last,
}
use frida_desktop.Types.{BugEvent, LearningEngineConfig}
use frida_desktop.Floats.{Floats}
use frida_desktop.Fixer.Hooks.{Hooks}
use frida_desktop.Rollback.Defs.{JournalFile}
use frida_desktop.Watchdog.{new_watchdog, set_rollback_callback, start_watchdog, stop_watchdog}
use frida_desktop.Store.Defs.{HistoryFile, load_history}
use frida_desktop.Patterns.Defs.{PatternDetector, new_detector, detect_patterns}
use frida_desktop.Engine.Defs.{Env, Engine, refreshed, note}

-- `compatible` is none where the check throws.
pub record StartReport : Type 0 where
  pub compatible : Option Bool
  pub capture_started : Bool

-- What the constructor passes to the pattern detector.
unfoldable pub detector_of :
    {N : Type 0} (f : Floats N) → LearningEngineConfig N → PatternDetector f
detector_of f c = new_detector f (some c.confidence_threshold) (some c.min_occurrences_before_fix)

-- The hooks, the memory and the two files are found on the device.
unfoldable pub new_engine :
    {N M : Type 0} → LearningEngineConfig N → Hooks → M → HistoryFile N → JournalFile → Engine N M
new_engine c hooks memory history journals = record {
  running = false;
  devices = record {
    fixer = record { patches = []; hooks = hooks };
    rollback_engine = record {
      journals = [];
      rollback_attempts = [];
      max_journal_size = c.journal_size;
      max_rollback_attempts = c.max_rollback_attempts;
      file = journals;
      disk_ok = true;
    };
    memory = memory;
  };
  watchdog = set_rollback_callback (new_watchdog c.epoch_timeout_ms);
  bug_store = record {
    cached = none;
    initialized = false;
    max_events = c.bug_capacity;
    file = history;
    quarantined = [];
    disk_ok = true;
    read_ok = true;
  };
  recent_bugs = [];
  pending_rollbacks = [];
  counters = record {
    patterns_detected = 0;
    fixes_applied = 0;
    rollbacks_triggered = 0;
    rollback_failures = 0;
  };
  log = [];
}

module _ {N M : Type 0} (env : Env N M) where
  unfoldable pub adopt_history : List BugEvent → Engine N M → Engine N M
  adopt_history events s = if length events == 0 then s else record s {
    recent_bugs = slice_last env.bug_capacity events;
    counters = record s.counters {
      patterns_detected =
          s.counters.patterns_detected
          + length (detect_patterns env.floats env.detector env.fresh_pattern events);
    };
  }

  -- The updated confidences are only printed.
  unfoldable pub load_history_and_detect_patterns : ℕ → Engine N M → Engine N M
  unfolding adopt_history
  load_history_and_detect_patterns now s =
      let (store, bug_store) = load_history env.summarize now s.bug_store in
      adopt_history store.events (record s { bug_store = bug_store })

  abbrev pub proceed : StartReport → Bool
  proceed r = elim r.compatible [ none ↦ false | some ok ↦ ok ]

  unfoldable pub start : StartReport → ℕ → Engine N M → Engine N M
  start r now s =
      if s.running
      then s
      else if proceed r && r.capture_started
      then note refreshed (
          load_history_and_detect_patterns now
            (record s { running = true; watchdog = start_watchdog now s.watchdog }))
      else s

  -- `capture_stopped` says that `stopCapture` returned; the other calls catch their exceptions.
  unfoldable pub stop : Bool → Engine N M → Engine N M
  stop capture_stopped s =
      if s.running && capture_stopped
      then record s { watchdog = stop_watchdog s.watchdog; running = false }
      else s
