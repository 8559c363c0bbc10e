-- ===== src/Examples/Releases.antt =====
-- A rollback of a deployment, and an upgrade.
use frida_desktop.Prelude.{
  ℕ, ◌≡◌, refl, Option, none, some, String, str_eq, true, List, [], ◌∷◌, if◌then◌else◌,
}
use frida_desktop.Utils.{hex}
use frida_desktop.Automation.Defs.{new_automation, number}
use frida_desktop.Automation.Statistics.{
  Call, rolled_back, ticked, monitored, run, IsCounted, counts_of, automation_run-IsCounted,
}
use frida_desktop.Versions.Defs.{
  Versioning, feature, absent, record_upgrade, version_string, parse_version,
}
use frida_desktop.Versions.Changelog.{IsUpgraded, record_upgrade-IsUpgraded}
use frida_desktop.Examples.Data.{hundredths}

abbrev calls : List (Call ℕ)
calls =
    monitored
    ∷ ticked 5 6 (some (("corruption_count", number 300) ∷ [])) none 1
    ∷ rolled_back 7 9 "by hand" (some "no route") 1
    ∷ []

automation_run-IsCounted_example :
    let s =
      run hundredths
        (λ t. 0)
        (λ x. true)
        (hex 4)
        calls
        (new_automation hundredths true 1 "d" none) in
    IsCounted (counts_of s.history.statistics) s.history.events
automation_run-IsCounted_example =
    automation_run-IsCounted hundredths (λ t. 0) (λ x. true) (hex 4) calls true 1 "d" none

abbrev versioning : Versioning
versioning = record {
  metadata = record {
    current = record { major = 1; minor = 0; patch = 0 };
    schema_version = 1;
    changelog = [];
    last_upgraded = 0;
  };
  file = absent;
  quarantined = [];
  disk_ok = true;
}

-- Reads the one text that is needed.
abbrev read_parts : String → List (Option ℕ)
read_parts s = if str_eq s "1.1.0" then some 1 ∷ some 1 ∷ some 0 ∷ [] else none ∷ []

read_back :
    parse_version
      (hex 1)
      read_parts
      (version_string (hex 1) read_parts (record { major = 1; minor = 1; patch = 0 }))
    ≡ record { major = 1; minor = 1; patch = 0 }
unfolding parse_version version_string hex
read_back = refl

record_upgrade-IsUpgraded_example :
    IsUpgraded
      (hex 1)
      read_parts
      versioning.metadata
      (record_upgrade
        (hex 1)
        read_parts
        9
        feature
        "Title"
        "What it does"
        none
        none
        versioning).1.metadata
record_upgrade-IsUpgraded_example =
    record_upgrade-IsUpgraded (hex 1) read_parts 9 feature "Title" "What it does" none none
      versioning read_back tt
