-- ===== src/Safety/Gate.antt =====
-- What the mesh observes and the mutation gate of index.ts, composed: when the gate is closed.
use frida_desktop.Prelude.{
  ℕ, suc, zero, String, str_eq, ◌≡◌, refl, ap, ◌∙◌, Bool, true, false, ◌||◌, Option, none, some,
  ◌⊎◌, inl, inr, List, [], ◌∷◌, ◌++◌, any, ltb, ◌==◌, length, Bool-cases, if◌then◌else◌, arith,
}
use frida_desktop.Types.{BugEvent, BugPattern}
use frida_desktop.Floats.{Floats}
use frida_desktop.Disk.Defs.{PressureLevel, healthy, warning, exhausted}
use frida_desktop.Patterns.Defs.{detect_patterns}
use frida_desktop.Engine.Defs.{Env, Engine, Safety, mutation_blocked, capture_bug, keep_recent}
use frida_desktop.Engine.Gate.{IsHeldBack, capture_bug-IsHeldBack}
use frida_desktop.Safety.Memory.{
  memory_level, metrics_at, get_memory_metrics, get_operating_mode, features_off,
}
use frida_desktop.Safety.Corruption.{Detection, detect_invalid_json, json_finding}
use frida_desktop.Safety.Report.{
  Machine, Stats, Evidence, failed, Snapshot, nonzero_or, evidence_of, critical_file_names,
}
use frida_desktop.Safety.Mesh.{
  snapshot, observe_memory, memory_of_usage, observe_disk, disk_at, disk_of_stats, get_disk_metrics,
  disk_level, unknown_disk, free_megabytes, megabytes, inspect_critical_files, inspect_files,
  corruption_of, findings_of, resolve_observable_path,
}

abbrev is_failed_evidence : Evidence → Bool
is_failed_evidence failed = true
is_failed_evidence _ = false

-- What `processBugEvent` reads of the snapshot.
unfoldable pub safety_of : {N : Type 0} → Snapshot N → Safety
safety_of x = record {
  fixes_disabled = any (λ s. str_eq s "fix_application") x.memory.features_disabled;
  disk_failed = is_failed_evidence x.disk.evidence;
  corruption_failed = is_failed_evidence x.corruption.evidence;
}

module _ {N : Type 0} (f : Floats N) (w : Machine N) where
  -- The heap in use in megabytes, and 0 where it cannot be asked for.
  abbrev pub heap_used : Option (ℕ × ℕ) → N
  heap_used none = f.of_nat 0
  heap_used (some (used, total)) = megabytes f (f.of_nat used)

  abbrev stats_low : Option Stats → Bool
  stats_low none = false
  stats_low (some x) =
      if nonzero_or x.bsize (nonzero_or x.frsize 0) == 0
      then false
      else f.lt (free_megabytes f w x) (f.of_nat 50)

  abbrev path_low : Option String → Bool
  path_low none = false
  path_low (some path) = stats_low (w.statfs path)

  -- The disk answers, and less than 50 megabytes are free.
  abbrev pub disk_low : String → Bool
  disk_low storage = if w.has_statfs then path_low (resolve_observable_path f w storage) else false

  abbrev unparsed : Option String → Bool
  unparsed none = false
  unparsed (some e) = true

  abbrev bad_content : String ⊎ String → Bool
  bad_content (inl e) = true
  bad_content (inr content) = unparsed (w.parse_error content)

  -- The file is there, and cannot be read or is no JSON.
  abbrev pub is_corrupt : String → String → Bool
  is_corrupt storage name =
      if w.exists (w.join storage name) then bad_content (w.read (w.join storage name)) else false

  level_off : PressureLevel → Bool
  level_off exhausted = true
  level_off _ = false

  metrics_off :
      (used total : N) (l : PressureLevel)
      → any (λ s. str_eq s "fix_application") (metrics_at f used total l).features_disabled
        ≡ level_off l
  unfolding metrics_at get_operating_mode features_off level_off
  metrics_off used total healthy = refl
  metrics_off used total warning = refl
  metrics_off used total exhausted = refl

  level_off-memory_level : (used : N) → level_off (memory_level f used) ≡ f.le (f.of_nat 350) used
  unfolding level_off memory_level
  level_off-memory_level used = ground arith

  memory_gate :
      (o : Option (ℕ × ℕ))
      → any (λ s. str_eq s "fix_application") (memory_of_usage f w o).features_disabled
        ≡ f.le (f.of_nat 350) (heap_used o)
  unfolding memory_of_usage get_memory_metrics
  memory_gate none =
      metrics_off (f.of_nat 0) (f.of_nat 0) (memory_level f (f.of_nat 0))
      ∙ level_off-memory_level (f.of_nat 0)
  memory_gate (some (used, total)) =
      let heap = megabytes f (f.of_nat used) in
      metrics_off heap (megabytes f (f.of_nat total)) (memory_level f heap)
      ∙ level_off-memory_level heap

  level_failed : (x : N) → is_failed_evidence (evidence_of (disk_level f x)) ≡ f.lt x (f.of_nat 50)
  unfolding disk_level
  level_failed x = ground arith

  stats_gate : (o : Option Stats) → is_failed_evidence (disk_of_stats f w o).evidence ≡ stats_low o
  unfolding disk_of_stats unknown_disk get_disk_metrics
  stats_gate none = refl
  stats_gate (some x) = elim (Bool-cases (nonzero_or x.bsize (nonzero_or x.frsize 0) == 0)) [
    | inl e ↦ simp e refl
    | inr e ↦ simp e (level_failed (free_megabytes f w x))
  ]

  path_gate : (o : Option String) → is_failed_evidence (disk_at f w o).evidence ≡ path_low o
  unfolding disk_at unknown_disk
  path_gate none = refl
  path_gate (some path) = stats_gate (w.statfs path)

  disk_gate :
      (storage : String) → is_failed_evidence (observe_disk f w storage).evidence ≡ disk_low storage
  unfolding observe_disk unknown_disk
  disk_gate storage = elim (Bool-cases w.has_statfs) [
    | inl e ↦ simp e (path_gate (resolve_observable_path f w storage))
    | inr e ↦ simp e refl
  ]

  parsed_found :
      (name content : String) (o : Option String)
      → ltb 0 (
          length (
            if (json_finding w.parse_error content o).detected
            then record (json_finding w.parse_error content o) { file_name = name } ∷ []
            else []))
        ≡ unparsed o
  unfolding json_finding
  parsed_found name content none = refl
  parsed_found name content (some e) = refl

  findings_found :
      (name : String) (r : String ⊎ String)
      → ltb 0 (length (findings_of f w name r)) ≡ bad_content r
  unfolding findings_of detect_invalid_json
  findings_found name (inl e) = refl
  findings_found name (inr content) = parsed_found name content (w.parse_error content)

  found-append :
      {A : Type 0} (xs ys : List A)
      → ltb 0 (length (xs ++ ys)) ≡ (ltb 0 (length xs) || ltb 0 (length ys))
  found-append [] ys = refl
  found-append (x ∷ xs) ys = ground (arith, found-append xs ys)

  inspect_found :
      (storage : String) (names : List String)
      → ltb 0 (length (inspect_files f w storage names).1) ≡ any (is_corrupt storage) names
  unfolding inspect_files
  inspect_found storage [] = refl
  inspect_found storage (name ∷ names) = elim (Bool-cases (w.exists (w.join storage name))) [
    | inl e ↦ simp e (
        found-append (findings_of f w name (w.read (w.join storage name)))
          (inspect_files f w storage names).1
        ∙ ap (λ b. b || ltb 0 (length (inspect_files f w storage names).1))
            (findings_found name (w.read (w.join storage name)))
        ∙ ap (λ b. bad_content (w.read (w.join storage name)) || b) (inspect_found storage names))
    | inr e ↦ simp e (inspect_found storage names)
  ]

  inspect_none :
      (storage : String) (names : List String)
      → (inspect_files f w storage names).0 ≡ 0
      → (inspect_files f w storage names).1 ≡ []
  unfolding inspect_files
  inspect_none storage [] h = refl
  inspect_none storage (name ∷ names) h = ground (arith, inspect_none storage names)

  corruption_gate :
      (r : ℕ × List Detection)
      → (r.0 ≡ 0 → r.1 ≡ [])
      → is_failed_evidence (corruption_of f w r).evidence ≡ ltb 0 (length r.1)
  unfolding corruption_of
  corruption_gate (zero, found) h = simp (h refl) refl
  corruption_gate (suc n, found) h = ground arith

  -- The gate of the engine over a snapshot of the mesh is closed exactly where the heap in use is
  -- at least 350 megabytes, the disk answers that less than 50 megabytes are free, or one of the six
  -- files is there and cannot be read or parsed. A disk or a heap that cannot be asked does not
  -- close it.
  pub mutation_blocked-snapshot :
      (storage : String) (now : ℕ) (running : Bool) (state : String)
      → mutation_blocked (safety_of (snapshot f w storage now running state)) ≡ (
          f.le (f.of_nat 350) (heap_used w.memory_usage)
          || disk_low storage
          || any (is_corrupt storage) critical_file_names)
  unfolding mutation_blocked safety_of snapshot observe_memory inspect_critical_files
  mutation_blocked-snapshot storage now running state =
      let r = inspect_files f w storage critical_file_names in
      rw
        (
          memory_gate w.memory_usage,
          disk_gate storage,
          corruption_gate r (inspect_none storage critical_file_names),
          inspect_found storage critical_file_names,
        )
        refl

-- Under an engine that takes its snapshots from the mesh, while the heap in use is at least 350
-- megabytes, less than 50 megabytes are known to be free or a critical file is corrupt, capturing
-- a bug on a running engine changes no hook, no memory, no pending rollback and neither counter, and
-- the watchdog is in FAILSAFE exactly where the detector wanted a fix, or in the state that it was
-- in.
pub capture_bug-unsafe :
    {N M : Type 0} (env : Env N M) (w : Machine N) (storage : String) (time : BugPattern N → ℕ)
    (running : BugPattern N → Bool) (state : BugPattern N → String)
    → ((p : BugPattern N)
        → env.safety p ≡ safety_of (snapshot env.floats w storage (time p) (running p) (state p)))
    → (env.floats.le (env.floats.of_nat 350) (heap_used env.floats w w.memory_usage)
        || disk_low env.floats w storage
        || any (is_corrupt env.floats w storage) critical_file_names)
      ≡ true
    → (now : ℕ) (e : BugEvent) (s : Engine N M) → s.running ≡ true
    → IsHeldBack env
        (detect_patterns env.floats env.detector env.fresh_pattern
          (keep_recent env.bug_capacity e s.recent_bugs))
        s
        (capture_bug env now e s)
capture_bug-unsafe env w storage time running state observed unsafe now e s up =
    capture_bug-IsHeldBack env
      (λ p.
        ap mutation_blocked (observed p)
        ∙ mutation_blocked-snapshot env.floats w storage (time p) (running p) (state p)
        ∙ unsafe)
      now e s up
