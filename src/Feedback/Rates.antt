-- ===== src/Feedback/Rates.antt =====
-- The rates that are kept, against those that are counted again, over sequences of attempts.
use mathlib.Core.Path.{subst}
use frida_desktop.Prelude.{
  ℕ, ◌+◌, String, str_eq, eq_iff, ◌≡◌, refl, ap, ◌∙◌, Bool, Option, none, some, List, [], ◌∷◌, ◌++◌,
  filter, length, length-append, if◌then◌else◌, Bool-cases, inl, inr, arith,
}
use frida_desktop.Prelude.Dict
use frida_desktop.Prelude.Dict.{dict_laws}
use frida_desktop.Floats.{Floats}
use frida_desktop.Feedback.Defs.{
  FixMetrics, PatternMetrics, FeedbackCollector, absent, new_feedback_collector, save_metrics,
  record_fix_attempt, rate, succeeded, get_pattern_metrics, get_fixes_for_pattern,
  calculate_success_rate_for_pattern, or_new, count_attempt,
}

filter-append :
    {A : Type 0} (p : A → Bool) (xs : List A) (x : A)
    → filter p (xs ++ x ∷ []) ≡ (if p x then filter p xs ++ x ∷ [] else filter p xs)
filter-append p [] x = refl
filter-append p (y ∷ ys) x = elim (Bool-cases (p y)) [
  | inl e ↦ ground (arith, e, filter-append p ys x)
  | inr e ↦ ground (arith, e, filter-append p ys x)
]

count_filter-append :
    {A : Type 0} (p : A → Bool) (xs : List A) (x : A)
    → (if p x then length (filter p xs) + 1 else length (filter p xs))
      ≡ length (filter p (xs ++ x ∷ []))
count_filter-append p [] x = ground arith
count_filter-append p (y ∷ ys) x = ground (arith, count_filter-append p ys x)

module _ {N : Type 0} (f : Floats N) where
  -- What is kept of a pattern tells of these attempts.
  abbrev Tells : Option (PatternMetrics N) → List (FixMetrics N) → Type 0
  Tells none ms = length ms ≡ 0
  Tells (some m) ms =
      (m.fixes_attempted ≡ length ms)
      × (m.fixes_succeeded ≡ length (filter succeeded ms))
      × (m.success_rate ≡ rate f m.fixes_succeeded m.fixes_attempted)

  or_new-Tells :
      (now : ℕ) (id : String) (x : FixMetrics N) (o : Option (PatternMetrics N))
      (ms : List (FixMetrics N))
      → Tells o ms
      → Tells (some (count_attempt f now x (or_new f now id o))) (ms ++ x ∷ [])
  or_new-Tells now id x none [] h = (refl, count_filter-append succeeded [] x, refl)
  or_new-Tells now id x none (y ∷ ys) h = absurd (omega (arith, h))
  or_new-Tells now id x (some m) ms h = (
    omega (arith, h.0, length-append ms (x ∷ [])),
    ap (λ n. if succeeded x then n + 1 else n) h.1 ∙ count_filter-append succeeded ms x,
    refl,
  )

  abbrev pub shown : Option (PatternMetrics N) → N
  shown none = f.of_nat 0
  shown (some m) = m.success_rate

  -- The metrics of each pattern tell of its attempts.
  abbrev Kept : FeedbackCollector N → Type 0
  Kept s = (id : String) → Tells (get_pattern_metrics id s) (get_fixes_for_pattern id s.fix_metrics)

  record_fix_attempt-Kept :
      (now : ℕ) (x : FixMetrics N) (s : FeedbackCollector N)
      → Kept s
      → Kept (record_fix_attempt f now x s)
  unfolding record_fix_attempt save_metrics get_pattern_metrics
  record_fix_attempt-Kept now y s kept id =
      let x : FixMetrics N = record y { applied_at = now } in
      let k = x.pattern_id in
      let m = count_attempt f now x (or_new f now k (get_pattern_metrics k s)) in
      let found = Dict.get-set k id m s.pattern_metrics in
      let fixes = filter-append (λ z. str_eq z.pattern_id id) s.fix_metrics x in
      elim (Bool-cases (str_eq k id))
        as (λ _.
          Tells (Dict.get id (Dict.set k m s.pattern_metrics))
            (get_fixes_for_pattern id (s.fix_metrics ++ x ∷ []))) [
              | inl e ↦
                  simp (found, fixes, e)
                    (subst (λ j. Tells (some m) (get_fixes_for_pattern j s.fix_metrics ++ x ∷ []))
                      ((eq_iff k id).0 e)
                      (or_new-Tells now k x (get_pattern_metrics k s)
                        (get_fixes_for_pattern k s.fix_metrics) (kept k)))
              | inr e ↦ simp (found, fixes, e) (kept id)
            ]

  unfoldable pub run : List (ℕ × FixMetrics N) → FeedbackCollector N → FeedbackCollector N
  run [] s = s
  run ((now, x) ∷ xs) s = run xs (record_fix_attempt f now x s)

  run-Kept : (xs : List (ℕ × FixMetrics N)) (s : FeedbackCollector N) → Kept s → Kept (run xs s)
  unfolding run
  run-Kept [] s kept = kept
  run-Kept ((now, x) ∷ xs) s kept =
      run-Kept xs (record_fix_attempt f now x s) (record_fix_attempt-Kept now x s kept)

  Tells-rate :
      (o : Option (PatternMetrics N)) (ms : List (FixMetrics N))
      → Tells o ms
      → shown o ≡ rate f (length (filter succeeded ms)) (length ms)
  Tells-rate none [] h = refl
  Tells-rate none (y ∷ ys) h = absurd (omega (arith, h))
  Tells-rate (some m) ms h =
      h.2
      ∙ ap (λ n. rate f n m.fixes_attempted) h.1
      ∙ ap (λ n. rate f (length (filter succeeded ms)) n) h.0

  -- After any recorded attempts of a new collector without a file, the success rate that is kept of a
  -- pattern, 0 where there is none, is the one that is calculated from its attempts.
  pub feedback_run-rate :
      (xs : List (ℕ × FixMetrics N)) (disk_ok : Bool) (id : String)
      → let s = run xs (new_feedback_collector disk_ok absent) in
        shown (get_pattern_metrics id s) ≡ calculate_success_rate_for_pattern f id s
  unfolding calculate_success_rate_for_pattern
  feedback_run-rate xs disk_ok id =
      let s = run xs (new_feedback_collector disk_ok absent) in
      Tells-rate (get_pattern_metrics id s) (get_fixes_for_pattern id s.fix_metrics) (
        run-Kept xs (new_feedback_collector disk_ok absent)
          (unfold new_feedback_collector get_pattern_metrics Dict.get in λ j. refl) id)
