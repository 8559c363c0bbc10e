-- ===== src/Store/Defs.antt =====
-- `BugStoreImpl`. The content of the history file is what `JSON.parse` makes of it; `summarize` is
-- the JSON text of the summary that is hashed. A file system that fails does so on writes
-- (`disk_ok`) and on reads (`read_ok`). The times are arguments.
use frida_desktop.Prelude.{
  ℕ, String, Bool, true, Option, none, some, List, [], ◌∷◌, ◌++◌, reverse, ltb, if◌then◌else◌,
  str_eq, length, drop, slice_last, last?,
}
use frida_desktop.Types.{BugEvent, BugHistoryStore}
use frida_desktop.Utils.{calculate_fnv1a64}

pub data HistoryFile (N : Type 0) : Type 0 where
  absent invalid : HistoryFile N
  parsed : BugHistoryStore N → HistoryFile N

-- What `calculateStoreHash` puts into `toHash`.
pub record Summary : Type 0 where
  pub schema : ℕ
  pub events_count : ℕ
  pub patterns_count : ℕ
  pub fix_events_count : ℕ
  pub watchdog_events_count : ℕ
  pub last_event_id : String

-- `cached` is the field `store`, `quarantined` holds the files that were set aside.
pub record BugStore (N : Type 0) : Type 0 where
  pub cached : Option (BugHistoryStore N)
  pub initialized : Bool
  pub max_events : ℕ
  pub file : HistoryFile N
  pub quarantined : List (HistoryFile N)
  pub disk_ok : Bool
  pub read_ok : Bool

-- A push, and a shift of the oldest where the buffer is over its bound.
unfoldable pub push_bounded : ℕ → BugEvent → List BugEvent → List BugEvent
push_bounded max_events e es =
    let grown = es ++ e ∷ [] in if ltb max_events (length grown) then drop 1 grown else grown

abbrev pub id_of_last : Option BugEvent → String
id_of_last none = "none"
id_of_last (some e) = e.id

module _ {N : Type 0} where
  unfoldable pub create_empty_store : ℕ → BugHistoryStore N
  create_empty_store now = record {
    schema = 1;
    events = [];
    patterns = [];
    fix_events = [];
    watchdog_events = [];
    integrity_hash = "";
    last_updated = now;
  }

  unfoldable pub summary : BugHistoryStore N → Summary
  summary store = record {
    schema = store.schema;
    events_count = length store.events;
    patterns_count = length store.patterns;
    fix_events_count = length store.fix_events;
    watchdog_events_count = length store.watchdog_events;
    last_event_id = id_of_last (last? store.events);
  }

  abbrev pub set_aside : HistoryFile N → BugStore N → BugStore N
  set_aside absent s = s
  set_aside f s = record s { file = absent; quarantined = s.quarantined ++ f ∷ [] }

  -- The file is renamed, where it is there and the disk takes it.
  unfoldable pub quarantine_existing_history : BugStore N → BugStore N
  quarantine_existing_history s = if s.disk_ok then set_aside s.file s else s

  module _ (summarize : Summary → String) where
    unfoldable pub calculate_store_hash : BugHistoryStore N → String
    unfolding summary
    calculate_store_hash store = calculate_fnv1a64 (summarize (summary store))

    unfoldable pub verify_integrity : BugHistoryStore N → Bool
    verify_integrity store = str_eq store.integrity_hash (calculate_store_hash store)

    abbrev pub install : BugHistoryStore N → BugStore N → BugHistoryStore N × BugStore N
    install store s = (store, record s { cached = some store; initialized = true })

    unfoldable pub read_history : ℕ → HistoryFile N → BugStore N → BugHistoryStore N × BugStore N
    unfolding quarantine_existing_history create_empty_store
    read_history now absent s = install (create_empty_store now) s
    read_history now invalid s = install (create_empty_store now) (quarantine_existing_history s)
    read_history now (parsed store) s =
        if verify_integrity store
        then install store s
        else install (create_empty_store now) (quarantine_existing_history s)

    -- A read that throws sets the file aside too.
    abbrev pub load_from_disk : ℕ → BugStore N → BugHistoryStore N × BugStore N
    load_from_disk now s =
        if s.read_ok
        then read_history now s.file s
        else install (create_empty_store now) (quarantine_existing_history s)

    -- The test `this.store && this.initialized`.
    abbrev pub cached_or_loaded :
        ℕ → Option (BugHistoryStore N) → BugStore N → BugHistoryStore N × BugStore N
    cached_or_loaded now none s = load_from_disk now s
    cached_or_loaded now (some store) s = if s.initialized then (store, s) else load_from_disk now s

    unfoldable pub load_history : ℕ → BugStore N → BugHistoryStore N × BugStore N
    unfolding read_history
    load_history now s = cached_or_loaded now s.cached s

    abbrev pub stamped : ℕ → BugHistoryStore N → BugHistoryStore N
    stamped now store =
        let dated = record store { last_updated = now } in
        record dated { integrity_hash = calculate_store_hash dated }

    -- The argument is the caller's object: it is stamped also where the write fails.
    unfoldable pub save_history :
        ℕ → BugHistoryStore N → BugStore N → BugHistoryStore N × BugStore N
    save_history now store s =
        let store' = stamped now store in
        (store', if s.disk_ok then record s { file = parsed store'; cached = some store' } else s)

    -- `loadHistory` answers the cached object, so the push and the stamp are seen there also where
    -- the file was not written.
    unfoldable pub append_event : ℕ → BugEvent → BugStore N → BugStore N
    append_event now e s =
        let (store, s') = load_history now s in
        let pushed = record store { events = push_bounded s.max_events e store.events } in
        let (store', s'') = save_history now pushed s' in record s'' { cached = some store' }

    unfoldable pub get_recent_bugs : ℕ → ℕ → BugStore N → List BugEvent × BugStore N
    get_recent_bugs now limit s =
        let (store, s') = load_history now s in (reverse (slice_last limit store.events), s')
