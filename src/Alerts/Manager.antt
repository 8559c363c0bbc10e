-- ===== src/Alerts/Manager.antt =====
-- `AlertManager` of modules/runtime-learning-engine/alert-manager.ts. The time is an argument; the text
-- of a number is a parameter.
use frida_desktop.Prelude.{
  ℕ, ◌+◌, ◌*◌, String, str_append, Bool, true, false, not, ◌&&◌, Option, none, some, List, [], ◌∷◌,
  ◌++◌, leb, if◌then◌else◌, filter, length,
}
use frida_desktop.Prelude.Dict
use frida_desktop.Prelude.Dict.{Dict}

pub data AlertLevel : Type 0 where
  critical warning info : AlertLevel

-- `C` is the type of the metrics that an alert keeps as its context.
pub record Alert (C : Type 0) : Type 0 where
  pub id : String
  pub timestamp : ℕ
  pub severity : AlertLevel
  pub kind : String
  pub message : String
  pub context : C
  pub resolved : Bool
  pub resolved_at : Option ℕ

-- No debounce is 0 seconds.
pub record Rule (C : Type 0) : Type 0 where
  pub id : String
  pub name : String
  pub condition : C → Bool
  pub severity : AlertLevel
  pub message : C → String
  pub debounce_seconds : ℕ

pub record AlertManager (C : Type 0) : Type 0 where
  pub alerts : Dict (Alert C)
  pub rules : List (Rule C)
  pub last_alert_time : Dict ℕ

-- The file alerts.json: not there, not readable as alerts, or a list of them.
pub data AlertsFile (C : Type 0) : Type 0 where
  absent unreadable : AlertsFile C
  saved : List (Alert C) → AlertsFile C

abbrev is_critical_alert : AlertLevel → Bool
is_critical_alert critical = true
is_critical_alert _ = false

abbrev is_warning_alert : AlertLevel → Bool
is_warning_alert warning = true
is_warning_alert _ = false

abbrev is_info_alert : AlertLevel → Bool
is_info_alert info = true
is_info_alert _ = false

pub record Summary : Type 0 where
  pub total : ℕ
  pub critical_count : ℕ
  pub warning_count : ℕ
  pub info_count : ℕ

-- `this.lastAlertTime.get(id) || 0`
abbrev time_or_zero : Option ℕ → ℕ
time_or_zero none = 0
time_or_zero (some t) = t

module _ {C : Type 0} where
  unfoldable add_rule : Rule C → AlertManager C → AlertManager C
  add_rule r s = record s { rules = s.rules ++ r ∷ [] }

  unfoldable pub add_alert : Alert C → AlertManager C → AlertManager C
  add_alert a s = record s { alerts = Dict.set a.id a s.alerts }

  unfoldable pub last_time : String → AlertManager C → ℕ
  last_time id s = time_or_zero (Dict.get id s.last_alert_time)

  -- `Date.now() - lastAlertTime >= debounceMs`
  unfoldable pub can_alert : ℕ → Rule C → AlertManager C → Bool
  unfolding last_time
  can_alert now r s = leb (last_time r.id s + r.debounce_seconds * 1000) now

  abbrev pub resolve : ℕ → Option (Alert C) → AlertManager C → AlertManager C
  resolve now none s = s
  resolve now (some a) s = record s {
    alerts = Dict.set a.id (record a { resolved = true; resolved_at = some now }) s.alerts;
  }

  unfoldable pub resolve_alert : ℕ → String → AlertManager C → AlertManager C
  resolve_alert now id s = resolve now (Dict.get id s.alerts) s

  unfoldable get_active_alerts : AlertManager C → List (Alert C)
  get_active_alerts s = filter (λ a. not a.resolved) (Dict.values s.alerts)

  unfoldable get_critical_alerts : AlertManager C → List (Alert C)
  unfolding get_active_alerts
  get_critical_alerts s = filter (λ a. is_critical_alert a.severity) (get_active_alerts s)

  unfoldable get_warning_alerts : AlertManager C → List (Alert C)
  unfolding get_active_alerts
  get_warning_alerts s = filter (λ a. is_warning_alert a.severity) (get_active_alerts s)

  unfoldable get_alert_summary : AlertManager C → Summary
  get_alert_summary s =
      let alerts = Dict.values s.alerts in
      record {
        total = length alerts;
        critical_count =
            length (filter (λ a. is_critical_alert a.severity && not a.resolved) alerts);
        warning_count = length (filter (λ a. is_warning_alert a.severity && not a.resolved) alerts);
        info_count = length (filter (λ a. is_info_alert a.severity && not a.resolved) alerts);
      }

  -- `disk_ok` says whether the directory can be made and the file written.
  unfoldable pub save_alerts : Bool → AlertManager C → AlertsFile C → AlertsFile C
  save_alerts disk_ok s file = if disk_ok then saved (Dict.values s.alerts) else file

  unfoldable pub load_each : List (Alert C) → AlertManager C → AlertManager C
  load_each [] s = s
  load_each (a ∷ rest) s = load_each rest (record s { alerts = Dict.set a.id a s.alerts })

  unfoldable pub load_alerts : AlertsFile C → AlertManager C → AlertManager C
  unfolding load_each
  load_alerts absent s = s
  load_alerts unreadable s = s
  load_alerts (saved alerts) s = load_each alerts s

  module _ (print : ℕ → String) where
    unfoldable pub alert_of : ℕ → C → Rule C → Alert C
    alert_of now c r = record {
      id = str_append r.id (str_append "_" (print now));
      timestamp = now;
      severity = r.severity;
      kind = r.id;
      message = r.message c;
      context = c;
      resolved = false;
      resolved_at = none;
    }

    abbrev pub raise : ℕ → C → Rule C → AlertManager C → AlertManager C
    raise now c r s = record s {
      alerts = Dict.set (alert_of now c r).id (alert_of now c r) s.alerts;
      last_alert_time = Dict.set r.id now s.last_alert_time;
    }

    -- The loop over the rules. Its calls take place at one time.
    unfoldable pub evaluate_each :
        ℕ → C → List (Rule C) → AlertManager C → List (Alert C) × AlertManager C
    unfolding can_alert alert_of
    evaluate_each now c [] s = ([], s)
    evaluate_each now c (r ∷ rs) s =
        let due = r.condition c && can_alert now r s in
        let (rest, t) = evaluate_each now c rs (if due then raise now c r s else s) in
        (if due then alert_of now c r ∷ rest else rest, t)

    unfoldable pub evaluate_rules : ℕ → C → AlertManager C → List (Alert C) × AlertManager C
    unfolding evaluate_each
    evaluate_rules now c s = evaluate_each now c s.rules s

pub data Destination : Type 0 where
  slack pagerduty email : Destination

pub data QueueState : Type 0 where
  local_file_persisted queue_persistence_failed : QueueState

-- The other fields of the receipt are constants: nothing is delivered.
pub record NotificationReceipt : Type 0 where
  pub alert_id : String
  pub destination : Destination
  pub queued_at : ℕ
  pub queue_state : QueueState
  pub receipt_path : String

module _ {C : Type 0} (join : String → String → String) where
  -- The receipt, and what is written with it: the alert.
  unfoldable send_alert_notification :
      Bool
      → String
      → ℕ
      → Destination
      → Alert C
      → NotificationReceipt × Option (NotificationReceipt × Alert C)
  send_alert_notification disk_ok storage now to a =
      let path = join storage (str_append "notification_" (str_append a.id ".json")) in
      let receipt : NotificationReceipt = record {
        alert_id = a.id;
        destination = to;
        queued_at = now;
        queue_state = local_file_persisted;
        receipt_path = path;
      } in
      if disk_ok
      then (receipt, some (receipt, a))
      else (record receipt { queue_state = queue_persistence_failed }, none)

abbrev upper : AlertLevel → String
upper critical = "CRITICAL"
upper warning = "WARNING"
upper info = "INFO"

abbrev emoji : AlertLevel → String
emoji critical = "🚨"
emoji warning = "⚠\u{fe0f}"
emoji info = "ℹ\u{fe0f}"

unfoldable format_alert_for_slack : {C : Type 0} → Alert C → String
format_alert_for_slack a =
    str_append (emoji a.severity)
      (str_append " *" (str_append (upper a.severity) (str_append "*: " a.message)))

-- `iso` prints a time, and `json` a context.
unfoldable format_alert_for_email : {C : Type 0} → (ℕ → String) → (C → String) → Alert C → String
format_alert_for_email iso json a = str_append "[" (
    str_append (upper a.severity) (
      str_append "] " (
        str_append a.message (
          str_append "\nTime: "
            (str_append (iso a.timestamp) (str_append "\nContext: " (json a.context)))))))
