-- ===== src/Patterns/Detection.antt =====
-- `detectPatterns` and `shouldApplyFix` of modules/runtime-learning-engine/pattern-detector.ts.
use frida_desktop.Prelude.{
  ◌-◌, ◌≤◌, String, ◌≡◌, refl, true, false, List, [], ◌∷◌, ◌⊎◌, inl, inr, Bool-cases, All, any,
  length, ltb, if◌then◌else◌, arith,
}
use frida_desktop.Prelude.Dict.{Dict}
use frida_desktop.Types.{BugEvent, BugPattern}
use frida_desktop.Floats.{Floats, FloatLaws}
use frida_desktop.Patterns.Defs.{
  PatternDetector, analyze_cluster, keep_cluster, select_patterns, insert_pattern, sort_patterns,
  detect_patterns, detect_bug_cluster, should_apply_fix, is_observation, calculate_confidence,
  last_timestamp,
}

abbrev pub IsCluster : List BugEvent → Dict (List BugEvent) → Type 0
IsCluster c [] = ⊥
IsCluster c ((k, x) ∷ m) = (c ≡ x) ⊎ IsCluster c m

module _ {N : Type 0} (f : Floats N) where
  -- What a pattern is worth: it comes from a cluster that is large and sure enough, and it is
  -- fixed if and only if no event of that cluster is for observation only.
  pub record IsSupported (d : PatternDetector f) (m : Dict (List BugEvent)) (p : BugPattern N)
      : Type 0 where
    pub cluster : List BugEvent
    pub stands_in : IsCluster cluster m
    pub counted : p.occurrences ≡ length cluster
    pub enough : d.min_occurrences ≤ p.occurrences
    pub confident : f.le d.confidence_threshold p.confidence ≡ true
    pub eligible :
        should_apply_fix f d p
        ≡ (if any (λ e. is_observation e.actionability) cluster then false else true)

  -- The confidences descend.
  abbrev pub Descends : List (BugPattern N) → Type 0
  Descends [] = Unit
  Descends (p ∷ []) = Unit
  Descends (p ∷ q ∷ ps) = (f.lt p.confidence q.confidence ≡ false) × Descends (q ∷ ps)

  -- What the head of a descending list may be.
  abbrev Below : BugPattern N → List (BugPattern N) → Type 0
  Below q [] = Unit
  Below q (p ∷ ps) = f.lt q.confidence p.confidence ≡ false

  Descends-cons :
      (q : BugPattern N) (ps : List (BugPattern N)) → Below q ps → Descends ps → Descends (q ∷ ps)
  Descends-cons q [] b h = tt
  Descends-cons q (p ∷ ps) b h = (b, h)

  Descends-uncons :
      (q : BugPattern N) (ps : List (BugPattern N)) → Descends (q ∷ ps) → Below q ps × Descends ps
  Descends-uncons q [] h = (tt, tt)
  Descends-uncons q (p ∷ ps) h = h

  module _ (laws : FloatLaws f) where
    insert_pattern-Below :
        (p q : BugPattern N) (ps : List (BugPattern N))
        → f.lt p.confidence q.confidence ≡ true
        → Below q ps
        → Below q (insert_pattern f p ps)
    unfolding insert_pattern
    insert_pattern-Below p q [] e b = laws.lt_asym _ _ e
    insert_pattern-Below p q (r ∷ ps) e b = elim (Bool-cases (f.lt p.confidence r.confidence)) [
      | inl e' ↦ simp e' b
      | inr e' ↦ simp e' (laws.lt_asym _ _ e)
    ]

    insert_pattern-Descends :
        (p : BugPattern N) (ps : List (BugPattern N))
        → Descends ps
        → Descends (insert_pattern f p ps)
    unfolding insert_pattern
    insert_pattern-Descends p [] h = h
    insert_pattern-Descends p (q ∷ ps) h =
        let (b, rest) = Descends-uncons q ps h in
        elim (Bool-cases (f.lt p.confidence q.confidence)) [
          | inl e ↦ simp e (
              Descends-cons q (insert_pattern f p ps) (insert_pattern-Below p q ps e b)
                (insert_pattern-Descends p ps rest))
          | inr e ↦ simp e (refl, h)
        ]

    sort_patterns-Descends : (ps : List (BugPattern N)) → Descends (sort_patterns f ps)
    unfolding sort_patterns
    sort_patterns-Descends [] = tt
    sort_patterns-Descends (p ∷ ps) =
        insert_pattern-Descends p (sort_patterns f ps) (sort_patterns-Descends ps)

  insert_pattern-All :
      (P : BugPattern N → Type 0) (p : BugPattern N) (ps : List (BugPattern N))
      → P p
      → All P ps
      → All P (insert_pattern f p ps)
  unfolding insert_pattern
  insert_pattern-All P p [] h hs = (h, hs)
  insert_pattern-All P p (q ∷ ps) h hs = elim (Bool-cases (f.lt p.confidence q.confidence)) [
    | inl e ↦ simp e (hs.0, insert_pattern-All P p ps h hs.1)
    | inr e ↦ simp e (h, hs)
  ]

  sort_patterns-All :
      (P : BugPattern N → Type 0) (ps : List (BugPattern N)) → All P ps → All P (sort_patterns f ps)
  unfolding sort_patterns
  sort_patterns-All P [] h = h
  sort_patterns-All P (p ∷ ps) h =
      insert_pattern-All P p (sort_patterns f ps) h.0 (sort_patterns-All P ps h.1)

  All-weaken :
      (P Q : BugPattern N → Type 0) (ps : List (BugPattern N))
      → ((p : BugPattern N) → P p → Q p)
      → All P ps
      → All Q ps
  All-weaken P Q [] w h = h
  All-weaken P Q (p ∷ ps) w h = (w p h.0, All-weaken P Q ps w h.1)

  keep_cluster-All :
      (d : PatternDetector f) (fresh : String → String) (k : String) (c : List BugEvent)
      (m : Dict (List BugEvent)) (ps : List (BugPattern N))
      → All (IsSupported d ((k, c) ∷ m)) ps
      → All (IsSupported d ((k, c) ∷ m)) (keep_cluster f d fresh c ps)
  unfolding analyze_cluster should_apply_fix
  keep_cluster-All d fresh k [] m ps h = h
  keep_cluster-All d fresh k (e ∷ es) m ps h =
      let confidence =
        calculate_confidence f (length (e ∷ es)) (last_timestamp e es - e.timestamp) in
      elim (Bool-cases (ltb (length (e ∷ es)) d.min_occurrences)) [
        | inl small ↦ simp small h
        | inr big ↦ elim (Bool-cases (f.lt confidence d.confidence_threshold)) [
          | inl low ↦ simp (big, low) h
          | inr high ↦ elim (Bool-cases (f.le d.confidence_threshold confidence)) [
            | inr unsure ↦ simp (big, high, unsure) h
            | inl sure ↦
                simp (big, high, sure)
                  (
                    record {
                      cluster = e ∷ es;
                      stands_in = inl refl;
                      counted = refl;
                      enough = ground arith;
                      confident = sure;
                      eligible =
                          elim (Bool-cases (any (λ e. is_observation e.actionability) (e ∷ es))) [
                            | inl seen ↦ simp seen refl
                            | inr none_seen ↦ simp (none_seen, sure) (ground arith)
                          ];
                    },
                    h,
                  )
          ]
        ]
      ]

  select_patterns-All :
      (d : PatternDetector f) (fresh : String → String) (m : Dict (List BugEvent))
      → All (IsSupported d m) (select_patterns f d fresh m)
  unfolding select_patterns
  select_patterns-All d fresh [] = tt
  select_patterns-All d fresh ((k, c) ∷ m) =
      keep_cluster-All d fresh k c m (select_patterns f d fresh m) (
        All-weaken (IsSupported d m) (IsSupported d ((k, c) ∷ m)) (select_patterns f d fresh m)
          (λ p h. record {
            cluster = h.cluster;
            stands_in = inr h.stands_in;
            counted = h.counted;
            enough = h.enough;
            confident = h.confident;
            eligible = h.eligible;
          })
          (select_patterns-All d fresh m))

  -- `detectPatterns` answers patterns of clusters that meet both thresholds, each of which is due
  -- for a fix exactly where its cluster has no event for observation only, in descending order of
  -- confidence.
  pub detect_patterns-IsSupported :
      FloatLaws f
      → (d : PatternDetector f) (fresh : String → String) (es : List BugEvent)
      → All (IsSupported d (detect_bug_cluster es)) (detect_patterns f d fresh es)
        × Descends (detect_patterns f d fresh es)
  unfolding detect_patterns
  detect_patterns-IsSupported laws d fresh es =
      elim (Bool-cases (ltb (length es) d.min_occurrences)) [
        | inl few ↦ simp few (tt, tt)
        | inr many ↦ simp many (
          sort_patterns-All (IsSupported d (detect_bug_cluster es))
              (select_patterns f d fresh (detect_bug_cluster es))
              (select_patterns-All d fresh (detect_bug_cluster es)),
          sort_patterns-Descends laws (select_patterns f d fresh (detect_bug_cluster es)),
        )
      ]
