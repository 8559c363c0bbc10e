-- ===== src/Examples/Observe.antt =====
-- A refresh of the example engine in FAILSAFE.
use frida_desktop.Prelude.{ℕ, ◌≡◌, ◌≤◌, refl, true, List, [], ◌∷◌, arith}
use frida_desktop.Prelude.Dict
use frida_desktop.Types.{failsafe}
use frida_desktop.Utils.{hex}
use frida_desktop.Engine.Defs.{Engine}
use frida_desktop.Exporter.Collector.{new_collector}
use frida_desktop.Alerts.Manager.{AlertManager, AlertsFile, last_time}
use frida_desktop.Alerts.Standard.{standard_rules, Metrics}
use frida_desktop.Alerts.Debounce.{raises}
use frida_desktop.Alerts.Defaults.{new_alert_rules}
use frida_desktop.Observe.Defs.{Observers, refresh_observability}
use frida_desktop.Observe.Failsafe.{refresh_observability-failsafe}
use frida_desktop.Examples.Data.{hundredths}
use frida_desktop.Examples.Runtime.{engine}
use frida_desktop.Examples.Safety.{machine}
use frida_desktop.Examples.Health.{around, new_endpoint}
use frida_desktop.Examples.Alerts.{text_of, show}

abbrev halted : Engine ℕ (List ℕ)
halted = record engine { watchdog = record engine.watchdog { current_state = failsafe } }

abbrev manager : AlertManager (Metrics ℕ)
manager = record {
  alerts = [];
  rules = standard_rules hundredths text_of;
  last_alert_time = ("watchdog_failsafe", 40) ∷ [];
}

abbrev observers : Observers ℕ
observers = record {
  endpoint = new_endpoint;
  collector = new_collector hundredths (λ x. true) 3;
  manager = manager;
  rules = new_alert_rules hundredths;
  alerts_file = AlertsFile.absent;
  disk_ok = true;
}

raised_before : last_time "watchdog_failsafe" manager ≤ 41
unfolding last_time Dict.get
raised_before = omega arith

refresh_observability-failsafe_example :
    raises "watchdog_failsafe"
      (refresh_observability hundredths around machine "/data" show (hex 4) 41 halted observers).0
    ≡ true
refresh_observability-failsafe_example =
    refresh_observability-failsafe hundredths around machine "/data" show (hex 4) text_of 41 halted
      observers refl refl raised_before
