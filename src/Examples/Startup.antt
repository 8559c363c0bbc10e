-- ===== src/Examples/Startup.antt =====
-- A device with Android 12 of which one hook is missing.
use frida_desktop.Prelude.{
  ℕ, ◌≡◌, ◌↔◌, ◌⊎◌, refl, inr, arith, str_eq, true, false, none, some, List, [], ◌∷◌, if◌then◌else◌,
}
use frida_desktop.Utils.{hex}
use frida_desktop.Engine.Defs.{Env}
use frida_desktop.Engine.Lifecycle.{start}
use frida_desktop.Compat.Defs.{
  Environment, CompatibilityChecker, frida_version, found, no_method, check_compatibility,
  can_proceed_with_deployment, get_frida_version,
}
use frida_desktop.Compat.Limits.{VersionFits, LevelFits, HooksFit, start-check_compatibility}
use frida_desktop.Examples.Data.{hundredths}
use frida_desktop.Examples.Runtime.{env_with, engine}

abbrev environment : Environment ℕ
environment = record {
  frida = frida_version "16.1";
  has_java = true;
  sdk = some 31;
  codename = some "REL";
  hook = λ class method. if str_eq method "gc" then no_method else found;
  number_parts = λ s. some 1600 ∷ some 100 ∷ [];
  latency = λ s. 2;
  print = hex 2;
}

abbrev checker : CompatibilityChecker
checker = record { last_report = none; file = none; disk_ok = true }

abbrev open_env : Env ℕ (List ℕ)
open_env =
    env_with (record { fixes_disabled = false; disk_failed = false; corruption_failed = false })

start-check_compatibility_example :
    ((start open_env
        (record {
          compatible =
              some (
                can_proceed_with_deployment (check_compatibility hundredths environment 4 checker));
          capture_started = true;
        })
        4
        (record engine { running = false })).running
      ≡ true)
    ↔ (((VersionFits hundredths (environment.number_parts (get_frida_version environment.frida))
            × ((true ≡ false) ⊎ LevelFits (some 31)))
          × ((true ≡ false) ⊎ HooksFit environment.hook))
        × (true ≡ true))
start-check_compatibility_example =
    start-check_compatibility open_env environment true 4 checker
      (record engine { running = false }) refl

-- The environment meets what is asked.
environment_meets :
    ((VersionFits hundredths (environment.number_parts "16.1") × LevelFits environment.sdk)
      × HooksFit environment.hook)
environment_meets = (((omega arith, (tt, (tt, tt)), refl), inr (omega arith)), omega arith)
