-- ===== src/Observe/Failsafe.antt =====
-- The alert of an engine in FAILSAFE.
use mathlib.Core.Path.{subst}
use frida_desktop.Prelude.{
  ℕ, ◌≤◌, String, str_eq, eq_iff, any, ◌==◌, ◌≡◌, refl, sym, ap, ◌∙◌, Bool, true, false, ◌&&◌, ◌||◌,
  Option, some, List, [], ◌∷◌, Bool-cases, inl, inr, arith,
}
use frida_desktop.Floats.{Floats}
use frida_desktop.Types.{failsafe}
use frida_desktop.Engine.Defs.{Engine}
use frida_desktop.Safety.Report.{Machine}
use frida_desktop.Health.Defs.{Surroundings}
use frida_desktop.Alerts.Manager.{
  Rule, AlertManager, evaluate_rules, evaluate_each, can_alert, alert_of, raise, last_time,
}
use frida_desktop.Alerts.Standard.{Metrics, standard_rules}
use frida_desktop.Alerts.Debounce.{raises, last-raise}
use frida_desktop.Observe.Defs.{Observers, refresh_observability, normalized_metrics, state_text}

or_right : (a b : Bool) → b ≡ true → (a || b) ≡ true
or_right a b h = ground (arith, h)

or_other : (a b : Bool) → a ≡ false → (a || b) ≡ true → b ≡ true
or_other a b h k = ground (arith, h, k)

module _ {C : Type 0} (print : ℕ → String) where
  can_alert-free :
      (now : ℕ) (r : Rule C) (s : AlertManager C)
      → r.debounce_seconds ≡ 0
      → last_time r.id s ≤ now
      → can_alert now r s ≡ true
  unfolding can_alert
  can_alert-free now r s free before = ground (arith, free, before)

  -- A rule of this id that holds and waits for nothing.
  abbrev is_due : String → C → Rule C → Bool
  is_due i c r = str_eq r.id i && r.condition c && r.debounce_seconds == 0

  raised_now :
      (i : String) (now : ℕ) (c : C) (r : Rule C) (s : AlertManager C)
      → is_due i c r ≡ true
      → last_time i s ≤ now
      → (r.condition c && can_alert now r s) ≡ true
  raised_now i now c r s due before =
      let id : r.id ≡ i = (eq_iff r.id i).0 (ground (arith, due)) in
      let holds : r.condition c ≡ true = ground (arith, due) in
      let free : r.debounce_seconds ≡ 0 = ground (arith, due) in
      simp (holds, can_alert-free now r s free (subst (λ j. last_time j s ≤ now) (sym id) before))
        refl

  -- Where some rule of this id is due and was not raised at a time to come, it is raised.
  each_due :
      (i : String) (now : ℕ) (c : C) (rs : List (Rule C)) (s : AlertManager C)
      → any (is_due i c) rs ≡ true
      → last_time i s ≤ now
      → raises i (evaluate_each print now c rs s).0 ≡ true
  unfolding evaluate_each alert_of
  each_due i now c [] s h before = ground (arith, h)
  each_due i now c (p ∷ rs) s h before = elim (Bool-cases (is_due i c p)) [
    | inl d ↦
        let same : str_eq p.id i ≡ true = ground (arith, d) in
        simp (raised_now i now c p s d before, same) refl
    | inr n ↦
        let later = or_other (is_due i c p) (any (is_due i c) rs) n h in
        elim (Bool-cases (p.condition c && can_alert now p s)) [
          | inl e ↦ simp e (
              or_right (str_eq p.id i) _ (
                each_due i now c rs (raise print now c p s) later
                  (ground (arith, before, last-raise print i now c p s))))
          | inr e ↦ simp e (each_due i now c rs s later before)
        ]
  ]

failsafe_raised :
    {N : Type 0} (f : Floats N) (text : Option N → String) (show : ℕ → String) (now : ℕ)
    (c : Metrics N) (s : AlertManager (Metrics N))
    → c.watchdog_state ≡ some "FAILSAFE"
    → s.rules ≡ standard_rules f text
    → last_time "watchdog_failsafe" s ≤ now
    → raises "watchdog_failsafe" (evaluate_rules show now c s).0 ≡ true
unfolding evaluate_rules standard_rules
failsafe_raised f text show now c s state rules before =
    ap (λ rs. raises "watchdog_failsafe" (evaluate_each show now c rs s).0) rules
    ∙ each_due show "watchdog_failsafe" now c (standard_rules f text) s (rw state refl) before

-- A refresh of an engine in FAILSAFE raises the alert `watchdog_failsafe` each time, whatever was
-- raised before, where the manager has its standard rules and no alert of that rule is of a time to
-- come.
pub refresh_observability-failsafe :
    {N M : Type 0} (f : Floats N) (w : Surroundings N) (machine : Machine N) (storage : String)
    (show : ℕ → String) (print : N → String) (text : Option N → String) (now : ℕ) (s : Engine N M)
    (o : Observers N)
    → s.watchdog.current_state ≡ failsafe
    → o.manager.rules ≡ standard_rules f text
    → last_time "watchdog_failsafe" o.manager ≤ now
    → raises "watchdog_failsafe" (refresh_observability f w machine storage show print now s o).0
      ≡ true
unfolding refresh_observability normalized_metrics
refresh_observability-failsafe f w machine storage show print text now s o state rules before =
    failsafe_raised f text show now _ o.manager (ap (λ x. some (state_text x)) state) rules before
