-- ===== src/Alerts/Missed.antt =====
-- A success rate of zero in the rules of `AlertManager`.
use frida_desktop.Prelude.{
  ℕ, ◌≤◌, inl, inr, String, str_eq, ◌≡◌, refl, false, ◌&&◌, Option, some, List, [], ◌∷◌, All,
  Bool-cases, arith,
}
use frida_desktop.Floats.{Floats, FloatLaws}
use frida_desktop.Alerts.Manager.{
  Rule, AlertManager, evaluate_rules, evaluate_each, can_alert, alert_of, raise,
}
use frida_desktop.Alerts.Standard.{Metrics, number_or, standard_rules, new_alert_manager}
use frida_desktop.Alerts.Debounce.{raises}

module _ {C : Type 0} (print : ℕ → String) where
  -- A rule of this id does not hold of the metrics.
  abbrev Unmet : String → C → Rule C → Type 0
  Unmet i c r = (str_eq r.id i && r.condition c) ≡ false

  each-Unmet :
      (i : String) (now : ℕ) (c : C) (rs : List (Rule C)) (s : AlertManager C)
      → All (Unmet i c) rs
      → raises i (evaluate_each print now c rs s).0 ≡ false
  unfolding evaluate_each alert_of
  each-Unmet i now c [] s h = refl
  each-Unmet i now c (r ∷ rs) s h = elim (Bool-cases (r.condition c && can_alert now r s)) [
    | inl e ↦ simp e (ground (arith, h.0, e, each-Unmet i now c rs (raise print now c r s) h.1))
    | inr e ↦ simp e (each-Unmet i now c rs s h.1)
  ]

module _ {N : Type 0} (f : Floats N) (laws : FloatLaws f) (show : Option N → String) where
  full_enough :
      (x : N) (n : ℕ)
      → f.lt (f.of_nat 0) x ≡ false
      → f.lt x (f.of_nat 0) ≡ false
      → n ≤ 100
      → f.lt (number_or f show (some x) 100) (f.of_nat n) ≡ false
  unfolding number_or
  full_enough x n h k l =
      simp (h, k) (laws.not_lt_of_le (f.of_nat n) (f.of_nat 100) (laws.of_nat_mono n 100 l))

  -- A success rate of zero raises no alert: from a new manager, metrics whose rate of successful
  -- rollbacks is neither above nor below zero raise no alert `rollback_failure`, whatever else they
  -- hold.
  pub evaluate_rules_zero_rate :
      (print : ℕ → String) (now : ℕ) (c : Metrics N) (x : N)
      → c.rollback_success_rate ≡ some x
      → f.lt (f.of_nat 0) x ≡ false
      → f.lt x (f.of_nat 0) ≡ false
      → raises "rollback_failure" (evaluate_rules print now c (new_alert_manager f show)).0 ≡ false
  unfolding evaluate_rules new_alert_manager standard_rules
  evaluate_rules_zero_rate print now c x e h k =
      each-Unmet print "rollback_failure" now c (standard_rules f show) (new_alert_manager f show) (
        refl,
        (
          refl,
          (
            refl,
            (refl, (refl, (refl, (refl, (refl, (rw e (full_enough x 95 h k (omega arith)), tt)))))),
          ),
        ),
      )
