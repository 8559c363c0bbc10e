-- ===== src/Alerts/Debounce.antt =====
-- The debounce of `AlertManager` over sequences of its calls.
use mathlib.Core.Path.{subst}
use frida_desktop.Prelude.{
  ℕ, ◌+◌, ◌*◌, ◌≤◌, ◌<◌, String, str_eq, eq_iff, ◌≡◌, refl, sym, ap, ◌∙◌, Bool, true, false, ◌&&◌,
  Option, none, some, List, [], ◌∷◌, any, All, leb, leb→le, if◌then◌else◌, arith, inl, inr,
  Bool-cases,
}
use frida_desktop.Prelude.Dict.{get, set, get-set}
use frida_desktop.Alerts.Manager.{
  Alert, Rule, AlertManager, AlertsFile, absent, unreadable, saved, evaluate_rules, evaluate_each,
  raise, alert_of, can_alert, last_time, resolve_alert, resolve, load_alerts, load_each, add_alert,
}

pub data Call (C : Type 0) : Type 0 where
  evaluated : ℕ → C → Call C
  added : Alert C → Call C
  resolved_at : ℕ → String → Call C
  loaded : AlertsFile C → Call C

and_right : (a b : Bool) → (a && b) ≡ true → b ≡ true
and_right a b h = ground arith

-- A call is an evaluation no earlier than `t`, or no evaluation.
abbrev IsSince : {C : Type 0} → ℕ → Call C → Type 0
IsSince t (evaluated now c) = t ≤ now
IsSince t _ = Unit

-- Some of the alerts is of the rule `i`.
abbrev pub raises : {C : Type 0} → String → List (Alert C) → Bool
raises i alerts = any (λ a. str_eq a.kind i) alerts

-- The rules of this id wait for at least `d` seconds.
abbrev pub Waits : {C : Type 0} → String → ℕ → Rule C → Type 0
Waits i d r = r.id ≡ i → d ≤ r.debounce_seconds

module _ {C : Type 0} (print : ℕ → String) where
  unfoldable pub step : Call C → AlertManager C → AlertManager C
  step (evaluated now c) s = (evaluate_rules print now c s).1
  step (added a) s = add_alert a s
  step (resolved_at now id) s = resolve_alert now id s
  step (loaded file) s = load_alerts file s

  unfoldable pub run : List (Call C) → AlertManager C → AlertManager C
  unfolding step
  run [] s = s
  run (x ∷ xs) s = run xs (step x s)

  pub last-raise :
      (i : String) (now : ℕ) (c : C) (r : Rule C) (s : AlertManager C)
      → last_time i (raise print now c r s) ≡ (if str_eq r.id i then now else last_time i s)
  unfolding last_time
  last-raise i now c r s = ground (arith, get-set r.id i now s.last_alert_time)

  each_since :
      (i : String) (t now : ℕ) (c : C) (rs : List (Rule C)) (s : AlertManager C)
      → t ≤ now
      → t ≤ last_time i s
      → t ≤ last_time i (evaluate_each print now c rs s).1
  unfolding evaluate_each
  each_since i t now c [] s h k = k
  each_since i t now c (r ∷ rs) s h k = elim (Bool-cases (r.condition c && can_alert now r s)) [
    | inl e ↦
        simp e (
          each_since i t now c rs (raise print now c r s) h
            (ground (arith, last-raise i now c r s)))
    | inr e ↦ simp e (each_since i t now c rs s h k)
  ]

  each_rules :
      (now : ℕ) (c : C) (rs : List (Rule C)) (s : AlertManager C)
      → (evaluate_each print now c rs s).1.rules ≡ s.rules
  unfolding evaluate_each
  each_rules now c [] s = refl
  each_rules now c (r ∷ rs) s = elim (Bool-cases (r.condition c && can_alert now r s)) [
    | inl e ↦ simp e (each_rules now c rs (raise print now c r s))
    | inr e ↦ simp e (each_rules now c rs s)
  ]

  -- What an evaluation raises is noted as raised then.
  each_noted :
      (i : String) (now : ℕ) (c : C) (rs : List (Rule C)) (s : AlertManager C)
      → raises i (evaluate_each print now c rs s).0 ≡ true
      → now ≤ last_time i (evaluate_each print now c rs s).1
  unfolding evaluate_each alert_of
  each_noted i now c [] s = λ h. ground arith
  each_noted i now c (r ∷ rs) s =
      let ok = each_noted i now c rs in
      elim (Bool-cases (r.condition c && can_alert now r s)) [
        | inl e ↦ simp e (elim (Bool-cases (str_eq r.id i)) [
          | inl p ↦ λ h.
              each_since i now now c rs (raise print now c r s) (omega arith)
                (ground (arith, last-raise i now c r s))
          | inr p ↦ simp p (ok (raise print now c r s))
        ])
        | inr e ↦ simp e (λ h. ok s h)
      ]

  can_alert-wait :
      (i : String) (now : ℕ) (r : Rule C) (s : AlertManager C)
      → r.id ≡ i
      → can_alert now r s ≡ true
      → last_time i s + r.debounce_seconds * 1000 ≤ now
  unfolding can_alert
  can_alert-wait i now r s p h =
      leb→le (last_time i s + r.debounce_seconds * 1000) now
        (ap (λ j. leb (last_time j s + r.debounce_seconds * 1000) now) (sym p) ∙ h)

  each_quiet :
      (i : String) (t d now : ℕ) (c : C) (rs : List (Rule C)) (s : AlertManager C)
      → All (Waits i d) rs
      → t ≤ now
      → now < t + d * 1000
      → t ≤ last_time i s
      → raises i (evaluate_each print now c rs s).0 ≡ false
  unfolding evaluate_each alert_of
  each_quiet i t d now c [] s w h k l = refl
  each_quiet i t d now c (r ∷ rs) s w h k l =
      elim (Bool-cases (r.condition c && can_alert now r s)) [
        | inl e ↦ simp e (elim (Bool-cases (str_eq r.id i)) [
          | inl p ↦ ground (
            arith,
            can_alert-wait i now r s ((eq_iff r.id i).0 p)
                (and_right (r.condition c) (can_alert now r s) e),
            w.0 ((eq_iff r.id i).0 p),
          )
          | inr p ↦ simp p (
              each_quiet i t d now c rs (raise print now c r s) w.1 h k
                (ground (arith, last-raise i now c r s)))
        ])
        | inr e ↦ simp e (each_quiet i t d now c rs s w.1 h k l)
      ]

  load_each-last :
      (i : String) (alerts : List (Alert C)) (s : AlertManager C)
      → (last_time i (load_each alerts s) ≡ last_time i s) × ((load_each alerts s).rules ≡ s.rules)
  unfolding load_each last_time
  load_each-last i [] s = (refl, refl)
  load_each-last i (a ∷ alerts) s =
      load_each-last i alerts (record s { alerts = set a.id a s.alerts })

  resolve-last :
      (i : String) (now : ℕ) (o : Option (Alert C)) (s : AlertManager C)
      → (last_time i (resolve now o s) ≡ last_time i s) × ((resolve now o s).rules ≡ s.rules)
  unfolding last_time
  resolve-last i now none s = (refl, refl)
  resolve-last i now (some a) s = (refl, refl)

  step_since :
      (i : String) (t : ℕ) (x : Call C) (s : AlertManager C)
      → IsSince t x
      → t ≤ last_time i s
      → (t ≤ last_time i (step x s)) × ((step x s).rules ≡ s.rules)
  unfolding step evaluate_rules add_alert resolve_alert load_alerts last_time
  step_since i t (evaluated now c) s h k =
      (each_since i t now c s.rules s h k, each_rules now c s.rules s)
  step_since i t (added a) s h k = (k, refl)
  step_since i t (resolved_at now id) s h k =
      let r = resolve-last i now (get id s.alerts) s in (omega (arith, r.0, k), r.1)
  step_since i t (loaded absent) s h k = (k, refl)
  step_since i t (loaded unreadable) s h k = (k, refl)
  step_since i t (loaded (saved alerts)) s h k =
      let r = load_each-last i alerts s in (omega (arith, r.0, k), r.1)

  run_since :
      (i : String) (t : ℕ) (xs : List (Call C)) (s : AlertManager C)
      → All (IsSince t) xs
      → t ≤ last_time i s
      → (t ≤ last_time i (run xs s)) × ((run xs s).rules ≡ s.rules)
  unfolding run
  run_since i t [] s h k = (k, refl)
  run_since i t (x ∷ xs) s h k =
      let now = step_since i t x s h.0 k in
      let later = run_since i t xs (step x s) h.1 now.0 in (later.0, later.1 ∙ now.1)

  -- Two alerts of one rule are at least its debounce apart: where every rule of the id `i` waits
  -- for `d` seconds or more and an evaluation at the time `t` raises an alert of `i`, then after any
  -- alerts added, resolved or loaded and any evaluations not before `t`, an evaluation less than
  -- `d` seconds after `t` raises none of `i`.
  pub evaluate_rules_debounced :
      (i : String) (d t later : ℕ) (c c' : C) (xs : List (Call C)) (s : AlertManager C)
      → All (Waits i d) s.rules
      → raises i (evaluate_rules print t c s).0 ≡ true
      → All (IsSince t) xs
      → t ≤ later
      → later < t + d * 1000
      → raises i (evaluate_rules print later c' (run xs (evaluate_rules print t c s).1)).0 ≡ false
  unfolding evaluate_rules
  evaluate_rules_debounced i d t later c c' xs s w h since k l =
      let s' = (evaluate_each print t c s.rules s).1 in
      let after = run_since i t xs s' since (each_noted i t c s.rules s h) in
      each_quiet i t d later c' (run xs s').rules (run xs s')
        (subst (All (Waits i d)) (sym (after.1 ∙ each_rules t c s.rules s)) w) k l after.0
