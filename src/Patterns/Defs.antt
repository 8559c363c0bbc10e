-- ===== src/Patterns/Defs.antt =====
-- `PatternDetectorImpl` with `detectBugCluster` and `calculateConfidence`. The generated id of a
-- pattern is given by the key of its cluster, and the time is an argument. A span or an age that
-- would be negative is 0, which the code treats alike.
use frida_desktop.Prelude.{
  ℕ, ◌-◌, ◌*◌, String, str_append, Bool, true, false, ◌&&◌, ◌||◌, Option, none, some, List, [], ◌∷◌,
  ◌++◌, ltb, leb, ◌==◌, if◌then◌else◌, str_eq, length, any,
}
use frida_desktop.Prelude.Dict
use frida_desktop.Prelude.Dict.{Dict}
use frida_desktop.Floats.{Floats}
use frida_desktop.Types.{
  BugType, crash, anr, memory_leak, deadlock, BugEvent, BugPattern, FixStrategy,
  try_catch_with_fallback, monkey_patch_from_journal, component_restart, Actionability,
  auto_fix_eligible, observation_only,
}

unfoldable pub bug_type_name : BugType → String
bug_type_name crash = "crash"
bug_type_name anr = "anr"
bug_type_name memory_leak = "memory_leak"
bug_type_name deadlock = "deadlock"

-- `${bug.bug_type}_${bug.class}_${bug.method}`
unfoldable pub cluster_key : BugEvent → String
cluster_key e =
    str_append (bug_type_name e.bug_type)
      (str_append "_" (str_append e.class (str_append "_" e.method)))

abbrev pub or_empty {ℓ} : {A : Type ℓ} → Option (List A) → List A
or_empty none = []
or_empty (some xs) = xs

-- The body of the loop: an event joins the cluster of its key, at the end.
unfoldable pub add_to_cluster : BugEvent → Dict (List BugEvent) → Dict (List BugEvent)
add_to_cluster e m = Dict.set (cluster_key e) (or_empty (Dict.get (cluster_key e) m) ++ e ∷ []) m

unfoldable pub cluster_loop : Dict (List BugEvent) → List BugEvent → Dict (List BugEvent)
cluster_loop m [] = m
cluster_loop m (e ∷ es) = cluster_loop (add_to_cluster e m) es

unfoldable pub detect_bug_cluster : List BugEvent → Dict (List BugEvent)
detect_bug_cluster es = cluster_loop [] es

unfoldable pub select_strategy : BugType → ℕ → FixStrategy
select_strategy crash n = if ltb 5 n then monkey_patch_from_journal else try_catch_with_fallback
select_strategy anr n = component_restart
select_strategy memory_leak n = monkey_patch_from_journal
select_strategy deadlock n = try_catch_with_fallback

-- `event.exception_type || 'unknown'`
abbrev pub or_unknown : Option String → String
or_unknown none = "unknown"
or_unknown (some s) = if str_eq s "" then "unknown" else s

unfoldable pub generate_fix_suggestion : BugEvent → String
generate_fix_suggestion e = str_append "Fix for " (
    str_append (or_unknown e.exception_type)
      (str_append " in " (str_append e.class (str_append "." e.method))))

abbrev pub is_observation : Option Actionability → Bool
is_observation (some observation_only) = true
is_observation _ = false

abbrev pub last_timestamp : BugEvent → List BugEvent → ℕ
last_timestamp e [] = e.timestamp
last_timestamp e (d ∷ ds) = last_timestamp d ds

module _ {N : Type 0} (f : Floats N) where
  unfoldable pub calculate_confidence : ℕ → ℕ → N
  calculate_confidence occurrences time_span =
      let frequency =
        f.div (f.of_nat occurrences)
          (f.fmax (f.of_nat 1) (f.div (f.of_nat time_span) (f.of_nat 60000))) in
      let base = f.fmin (f.of_nat 1) (f.div (f.of_nat (occurrences - 1)) (f.of_nat 10)) in
      let boost = f.fmin (f.div (f.of_nat 2) (f.of_nat 10)) (f.div frequency (f.of_nat 10)) in
      f.fmin (f.of_nat 1) (f.add base boost)

  pub record PatternDetector : Type 0 where
    pub confidence_threshold : N
    pub min_occurrences : ℕ

  -- A number is truthy unless it is 0 or NaN.
  abbrev pub truthy : N → Bool
  truthy x = f.lt x (f.of_nat 0) || f.lt (f.of_nat 0) x

  unfoldable pub new_detector : Option N → Option ℕ → PatternDetector
  new_detector threshold occurrences = record {
    confidence_threshold = elim threshold [
      | none ↦ f.div (f.of_nat 75) (f.of_nat 100)
      | some t ↦ if truthy t then t else f.div (f.of_nat 75) (f.of_nat 100)
    ];
    min_occurrences = elim occurrences [ none ↦ 3 | some n ↦ if n == 0 then 3 else n ];
  }

  -- A cluster is never empty: its first event and the others.
  unfoldable pub analyze_cluster :
      PatternDetector → (String → String) → BugEvent → List BugEvent → Option (BugPattern N)
  analyze_cluster d fresh e es =
      let n = length (e ∷ es) in
      let last_seen = last_timestamp e es in
      let confidence = calculate_confidence n (last_seen - e.timestamp) in
      if f.lt confidence d.confidence_threshold
      then none
      else some (record {
        pattern_id = fresh (cluster_key e);
        bug_type = e.bug_type;
        class = e.class;
        method = e.method;
        exception_type = e.exception_type;
        occurrences = n;
        confidence = confidence;
        actionability = some (
            if any (λ d. is_observation d.actionability) (e ∷ es)
            then observation_only
            else auto_fix_eligible);
        last_seen = last_seen;
        suggested_fix = generate_fix_suggestion e;
        fix_strategy = select_strategy e.bug_type n;
      })

  -- `pattern && pattern.confidence >= threshold`, and the push.
  abbrev pub keep_confident :
      PatternDetector → Option (BugPattern N) → List (BugPattern N) → List (BugPattern N)
  keep_confident d none ps = ps
  keep_confident d (some p) ps = if f.le d.confidence_threshold p.confidence then p ∷ ps else ps

  abbrev pub keep_cluster :
      PatternDetector
      → (String → String)
      → List BugEvent
      → List (BugPattern N)
      → List (BugPattern N)
  keep_cluster d fresh [] ps = ps
  keep_cluster d fresh (e ∷ es) ps =
      if ltb (length (e ∷ es)) d.min_occurrences
      then ps
      else keep_confident d (analyze_cluster d fresh e es) ps

  -- The loop over the clusters, in the order of the map.
  unfoldable pub select_patterns :
      PatternDetector → (String → String) → Dict (List BugEvent) → List (BugPattern N)
  select_patterns d fresh [] = []
  select_patterns d fresh ((k, cluster) ∷ m) =
      keep_cluster d fresh cluster (select_patterns d fresh m)

  -- `patterns.sort((a, b) => b.confidence - a.confidence)`, which is stable.
  unfoldable pub insert_pattern : BugPattern N → List (BugPattern N) → List (BugPattern N)
  insert_pattern p [] = p ∷ []
  insert_pattern p (q ∷ qs) =
      if f.lt p.confidence q.confidence then q ∷ insert_pattern p qs else p ∷ q ∷ qs

  unfoldable pub sort_patterns : List (BugPattern N) → List (BugPattern N)
  unfolding insert_pattern
  sort_patterns [] = []
  sort_patterns (p ∷ ps) = insert_pattern p (sort_patterns ps)

  unfoldable pub detect_patterns :
      PatternDetector → (String → String) → List BugEvent → List (BugPattern N)
  detect_patterns d fresh events =
      if ltb (length events) d.min_occurrences
      then []
      else sort_patterns (select_patterns d fresh (detect_bug_cluster events))

  abbrev one_day_ms : ℕ
  one_day_ms = 24 * 60 * 60 * 1000

  unfoldable pub calculate_recency_boost : ℕ → ℕ → N
  calculate_recency_boost now last_seen =
      let age = now - last_seen in
      if ltb age one_day_ms
      then f.of_nat 1
      else if ltb age (7 * one_day_ms)
      then f.div (f.of_nat 7) (f.of_nat 10)
      else if ltb age (30 * one_day_ms)
      then f.div (f.of_nat 3) (f.of_nat 10)
      else f.of_nat 0

  unfoldable pub update_confidence : ℕ → BugPattern N → N
  unfolding calculate_recency_boost
  update_confidence now p = f.fmin (f.of_nat 1) (
      f.add p.confidence
        (f.mul (calculate_recency_boost now p.last_seen) (f.div (f.of_nat 1) (f.of_nat 10))))

  -- `pattern.actionability ?? 'AUTO_FIX_ELIGIBLE'`
  abbrev pub is_eligible : Option Actionability → Bool
  is_eligible (some observation_only) = false
  is_eligible _ = true

  unfoldable pub should_apply_fix : PatternDetector → BugPattern N → Bool
  should_apply_fix d p =
      is_eligible p.actionability
      && f.le d.confidence_threshold p.confidence
      && leb d.min_occurrences p.occurrences
