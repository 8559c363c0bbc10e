-- ===== src/Examples/Health.antt =====
-- A new endpoint of an engine in FAILSAFE.
use frida_desktop.Prelude.{ℕ, ◌≡◌, ◌⊎◌, ◌↔◌, refl, true, none, some, [], ◌∷◌, arith}
use frida_desktop.Prelude.Dict
use frida_desktop.Types.{failsafe}
use frida_desktop.Health.Defs.{
  Surroundings, Endpoint, EngineStats, critical, get_health_status, list_or_empty,
}
use frida_desktop.Health.Status.{
  IsSlow, FailsOften, UsesMemory, UsesStorage, get_health_status-critical,
}
use frida_desktop.Health.Limits.{
  IsLimited, latency, event, success, failure, record_all, record_all-IsLimited,
}
use frida_desktop.Examples.Data.{hundredths}

abbrev pub around : Surroundings ℕ
around = record {
  target = none;
  host = some 4000;
  sizes = some (none ∷ some 2048 ∷ []);
  audit = none;
  finite = λ x. true;
  round = λ x. x;
}

abbrev pub new_endpoint : Endpoint
new_endpoint = record {
  start_time = 3;
  latencies = [];
  recent = [];
  fixes_successful = 0;
  fixes_attempted = 0;
}

abbrev stats : EngineStats
stats = record {
  running = true;
  recent_bugs_count = 1;
  pending_rollbacks = 1;
  patterns_count = 1;
  fixes_applied = 0;
  rollbacks_triggered = 1;
  rollback_failures = 1;
  last_heartbeat = 5;
  watchdog_state = failsafe;
}

get_health_status-critical_example :
    ((get_health_status hundredths around 9 stats new_endpoint).status ≡ critical) ↔ (
      (((IsSlow (list_or_empty (Dict.get "bug_capture" new_endpoint.latencies))
            ⊎ FailsOften hundredths around new_endpoint)
          ⊎ UsesMemory hundredths around around.target)
        ⊎ UsesStorage hundredths around around.sizes)
      ⊎ (stats.watchdog_state ≡ failsafe))
get_health_status-critical_example =
    get_health_status-critical hundredths around 9 stats new_endpoint refl

record_all-IsLimited_example : IsLimited (
    record_all (latency "bug_capture" 7 ∷ event "rollback" 9 ∷ success ∷ failure ∷ []) new_endpoint)
record_all-IsLimited_example =
    record_all-IsLimited (latency "bug_capture" 7 ∷ event "rollback" 9 ∷ success ∷ failure ∷ [])
      new_endpoint (record { latencies = tt; recent = tt; attempts = omega arith })
