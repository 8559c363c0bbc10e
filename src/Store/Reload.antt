-- ===== src/Store/Reload.antt =====
-- The history file of modules/runtime-learning-engine/bug-store.ts: `saveHistory` and `loadHistory`.
use frida_desktop.Prelude.{
  ℕ, String, ◌≡◌, refl, true, false, Option, none, some, [], ◌∷◌, ◌++◌, arith, Bool-cases, inl, inr,
  eq_refl, ap, sym, ◌∙◌, str_eq,
}
use frida_desktop.Types.{BugEvent, BugHistoryStore}
use frida_desktop.Store.Defs.{
  BugStore, Summary, HistoryFile, absent, invalid, parsed, create_empty_store, load_history,
  load_from_disk, cached_or_loaded, install, set_aside, append_event, save_history,
  verify_integrity, calculate_store_hash, stamped, read_history, quarantine_existing_history,
  push_bounded,
}

module _ {N : Type 0} (summarize : Summary → String) where
  -- A new process over the same disk.
  abbrev pub reopen : BugStore N → BugStore N
  reopen s = record s { cached = none; initialized = false }

  stamped-verify_integrity :
      (now : ℕ) (h : BugHistoryStore N)
      → verify_integrity summarize (stamped summarize now h) ≡ true
  unfolding verify_integrity calculate_store_hash
  stamped-verify_integrity now h = simp eq_refl

  -- Loading changes nothing of what the disk can do.
  record SameDisk (s t : BugStore N) : Type 0 where
    writes : t.disk_ok ≡ s.disk_ok
    reads : t.read_ok ≡ s.read_ok

  quarantine-SameDisk : (s : BugStore N) → SameDisk s (quarantine_existing_history s)
  unfolding quarantine_existing_history
  quarantine-SameDisk s = ground arith

  read_history-SameDisk :
      (now : ℕ) (f : HistoryFile N) (s : BugStore N) → SameDisk s (read_history summarize now f s).1
  unfolding read_history
  read_history-SameDisk now absent s = record { writes = refl; reads = refl }
  read_history-SameDisk now invalid s = ground (arith, quarantine-SameDisk s)
  read_history-SameDisk now (parsed h) s = ground (arith, quarantine-SameDisk s)

  load_from_disk-SameDisk :
      (now : ℕ) (s : BugStore N) → SameDisk s (load_from_disk summarize now s).1
  load_from_disk-SameDisk now s =
      ground (arith, read_history-SameDisk now s.file s, quarantine-SameDisk s)

  load_history-SameDisk : (now : ℕ) (s : BugStore N) → SameDisk s (load_history summarize now s).1
  unfolding load_history
  load_history-SameDisk now s = at s.cached
    where
      at : (c : Option (BugHistoryStore N)) → SameDisk s (cached_or_loaded summarize now c s).1
      at none = load_from_disk-SameDisk now s
      at (some h) = elim (Bool-cases s.initialized) [
        | inl ready ↦ simp ready (record { writes = refl; reads = refl })
        | inr new ↦ simp new (load_from_disk-SameDisk now s)
      ]

  load_stamped :
      (now later : ℕ) (h : BugHistoryStore N) (s : BugStore N)
      → s.read_ok ≡ true
      → s.file ≡ parsed (stamped summarize now h)
      → (load_history summarize later (reopen s)).0 ≡ stamped summarize now h
        × ((load_history summarize later (reopen s)).1.quarantined ≡ s.quarantined)
  unfolding load_history
  load_stamped now later h s reads here =
      let direct : load_from_disk summarize later (reopen s)
          ≡ read_history summarize later s.file (reopen s) =
        simp reads in
      let taken : load_from_disk summarize later (reopen s)
          ≡ install summarize (stamped summarize now h) (reopen s) =
        direct
        ∙ ap (λ f. read_history summarize later f (reopen s)) here
        ∙ simp (stamped-verify_integrity now h) in
      rw taken (refl, refl)

  append_event_written :
      (now : ℕ) (e : BugEvent) (s : BugStore N)
      → s.disk_ok ≡ true
      → let (h, s') = load_history summarize now s in
        let st =
          stamped summarize now (record h { events = push_bounded s.max_events e h.events }) in
        append_event summarize now e s ≡ record s' { file = parsed st; cached = some st }
  unfolding append_event save_history
  append_event_written now e s writes = simp ((load_history-SameDisk now s).writes ∙ writes)

  -- If the disk takes writes and can be read, then after an append a new process loads the very
  -- history that was in memory, and sets nothing aside.
  pub load_history-append_event :
      (now later : ℕ) (e : BugEvent) (s : BugStore N)
      → s.disk_ok ≡ true
      → s.read_ok ≡ true
      → let s' = append_event summarize now e s in
        let (loaded, s'') = load_history summarize later (reopen s') in
        (s'.cached ≡ some loaded) × (s''.quarantined ≡ s'.quarantined)
  load_history-append_event now later e s writes reads =
      let (h, s') = load_history summarize now s in
      let pushed = record h { events = push_bounded s.max_events e h.events } in
      let st = stamped summarize now pushed in
      let after : BugStore N = record s' { file = parsed st; cached = some st } in
      let back =
        load_stamped now later pushed after ((load_history-SameDisk now s).reads ∙ reads) refl in
      rw (append_event_written now e s writes) (ap some (sym back.0), back.1)

  -- A history file whose hash is not that of its content is not used: the history starts empty, and
  -- where the disk takes writes the file is kept aside with its content, and no longer in its place.
  pub load_history_corrupt :
      (now : ℕ) (h : BugHistoryStore N) (s : BugStore N)
      → s.cached ≡ none
      → s.read_ok ≡ true
      → s.disk_ok ≡ true
      → s.file ≡ parsed h
      → str_eq h.integrity_hash (calculate_store_hash summarize h) ≡ false
      → let (loaded, s') = load_history summarize now s in
        (loaded ≡ create_empty_store now)
        × (s'.file ≡ absent)
        × (s'.quarantined ≡ s.quarantined ++ parsed h ∷ [])
  load_history_corrupt now h s cold reads writes here differs =
      let direct : load_history summarize now s ≡ read_history summarize now s.file s =
        unfold load_history in ap (λ c. cached_or_loaded summarize now c s) cold ∙ simp reads in
      let chosen : quarantine_existing_history s ≡ set_aside s.file s =
        unfold quarantine_existing_history in simp writes in
      let aside : quarantine_existing_history s
          ≡ record s { file = absent; quarantined = s.quarantined ++ parsed h ∷ [] } =
        chosen ∙ ap (λ f. set_aside f s) here in
      let bad : verify_integrity summarize h ≡ false = unfold verify_integrity in differs in
      rw (direct ∙ ap (λ f. read_history summarize now f s) here)
        (unfold read_history in simp bad (rw aside (refl, refl, refl)))
