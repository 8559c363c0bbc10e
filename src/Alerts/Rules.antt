-- ===== src/Alerts/Rules.antt =====
-- `AlertRulesEngine` of modules/runtime-learning-engine/alert-rules-3-2.ts. The time is an argument,
-- and so is the printing of a number.
use frida_desktop.Prelude.{
  ℕ, String, str_append, str_eq, Bool, true, false, ◌&&◌, Option, List, [], ◌∷◌, ◌++◌,
  if◌then◌else◌, filter, slice_last,
}
use frida_desktop.Prelude.Dict
use frida_desktop.Prelude.Dict.{Dict}
use frida_desktop.Floats.{Floats, feq}

pub data Operator : Type 0 where
  above below at_least at_most equal_to : Operator

pub data AlertSeverity : Type 0 where
  critical_alert warning_alert : AlertSeverity

pub record AlertRule (N : Type 0) : Type 0 where
  pub id : String
  pub name : String
  pub description : String
  pub metric : String
  pub threshold : N
  pub operator : Operator
  pub severity : AlertSeverity
  pub enabled : Bool
  pub duration_seconds : Option ℕ

pub record AlertCondition (N : Type 0) : Type 0 where
  pub rule_id : String
  pub triggered : Bool
  pub current_value : N
  pub threshold : N
  pub timestamp : ℕ
  pub message : String

pub record AlertRulesEngine (N : Type 0) : Type 0 where
  pub rules : Dict (AlertRule N)
  pub alert_history : List (AlertCondition N)

abbrev same_severity : AlertSeverity → AlertSeverity → Bool
same_severity critical_alert critical_alert = true
same_severity warning_alert warning_alert = true
same_severity _ _ = false

module _ {N : Type 0} where
  unfoldable pub register_rule : AlertRule N → AlertRulesEngine N → AlertRulesEngine N
  register_rule r s = record s { rules = Dict.set r.id r s.rules }

  unfoldable get_all_rules : AlertRulesEngine N → List (AlertRule N)
  get_all_rules s = Dict.values s.rules

  unfoldable get_rules_by_severity : AlertSeverity → AlertRulesEngine N → List (AlertRule N)
  get_rules_by_severity v s = filter (λ r. same_severity r.severity v) (Dict.values s.rules)

  unfoldable get_alert_history : ℕ → AlertRulesEngine N → List (AlertCondition N)
  get_alert_history limit s = slice_last limit s.alert_history

  unfoldable clear_alert_history : AlertRulesEngine N → AlertRulesEngine N
  clear_alert_history s = record s { alert_history = [] }

module _ {N : Type 0} (f : Floats N) (print : N → String) where
  unfoldable check_condition : N → N → Operator → Bool
  check_condition x y above = f.lt y x
  check_condition x y below = f.lt x y
  check_condition x y at_least = f.le y x
  check_condition x y at_most = f.le x y
  check_condition x y equal_to = feq f x y

  -- The rule is enabled, is for the metric, and holds.
  unfoldable pub fires : String → N → AlertRule N → Bool
  unfolding check_condition
  fires metric value r =
      r.enabled && str_eq r.metric metric && check_condition value r.threshold r.operator

  unfoldable condition_of : ℕ → N → AlertRule N → AlertCondition N
  condition_of now value r = record {
    rule_id = r.id;
    triggered = true;
    current_value = value;
    threshold = r.threshold;
    timestamp = now;
    message = str_append r.name (
        str_append ": " (
          str_append r.description (
            str_append " (value: " (
              str_append (print value)
                (str_append ", threshold: " (str_append (print r.threshold) ")"))))));
  }

  -- The loop over the rules.
  unfoldable triggered_by : ℕ → String → N → List (AlertRule N) → List (AlertCondition N)
  unfolding condition_of fires
  triggered_by now metric value [] = []
  triggered_by now metric value (r ∷ rs) =
      let rest = triggered_by now metric value rs in
      if fires metric value r then condition_of now value r ∷ rest else rest

  unfoldable pub evaluate_metric :
      ℕ → String → N → AlertRulesEngine N → List (AlertCondition N) × AlertRulesEngine N
  unfolding triggered_by
  evaluate_metric now metric value s =
      let found = triggered_by now metric value (Dict.values s.rules) in
      (found, record s { alert_history = s.alert_history ++ found })
