-- ===== src/Examples/Patterns.antt =====
-- Patterns in a burst of crashes.
use frida_desktop.Prelude.{◌≡◌, List, [], ◌∷◌, All, filter, str_append}
use frida_desktop.Types.{BugEvent}
use frida_desktop.Patterns.Defs.{PatternDetector, detect_patterns, detect_bug_cluster}
use frida_desktop.Patterns.Clusters.{cluster_of, has_key, detect_bug_cluster-partition}
use frida_desktop.Patterns.Detection.{IsSupported, Descends, detect_patterns-IsSupported}
use frida_desktop.Examples.Data.{hundredths, hundredths-FloatLaws, crash_at}

abbrev burst : List BugEvent
burst = crash_at 1 ∷ crash_at 2 ∷ crash_at 3 ∷ crash_at 4 ∷ []

abbrev detector : PatternDetector hundredths
detector = record { confidence_threshold = 30; min_occurrences = 3 }

detect_bug_cluster-partition_example :
    cluster_of "crash_Main_run" (detect_bug_cluster burst) ≡ filter (has_key "crash_Main_run") burst
detect_bug_cluster-partition_example = detect_bug_cluster-partition "crash_Main_run" burst

detect_patterns-IsSupported_example :
    All
      (IsSupported hundredths detector (detect_bug_cluster burst))
      (detect_patterns hundredths detector (str_append "id_") burst)
    × Descends hundredths (detect_patterns hundredths detector (str_append "id_") burst)
detect_patterns-IsSupported_example =
    detect_patterns-IsSupported hundredths hundredths-FloatLaws detector (str_append "id_") burst
