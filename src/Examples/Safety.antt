-- ===== src/Examples/Safety.antt =====
-- A process with 400 megabytes of heap.
use frida_desktop.Prelude.{
  ℕ, str_append, ◌≡◌, refl, true, false, none, some, inr, List, [], any, ◌||◌,
}
use frida_desktop.Engine.Defs.{Env, capture_bug, mutation_blocked, keep_recent}
use frida_desktop.Engine.Gate.{IsHeldBack}
use frida_desktop.Patterns.Defs.{detect_patterns}
use frida_desktop.Safety.Report.{Machine, critical_file_names}
use frida_desktop.Safety.Mesh.{snapshot, megabytes}
use frida_desktop.Safety.Gate.{
  safety_of, heap_used, disk_low, is_corrupt, mutation_blocked-snapshot, capture_bug-unsafe,
}
use frida_desktop.Examples.Data.{hundredths, crash_at}
use frida_desktop.Examples.Runtime.{env_with, engine}

abbrev pub machine : Machine ℕ
machine = record {
  memory_usage = some (419430400, 536870912);
  has_statfs = false;
  statfs = λ path. none;
  exists = λ path. false;
  read = λ path. inr "{}";
  parse_error = λ content. none;
  join = λ a b. str_append a (str_append "/" b);
  dirname = λ path. path;
  cwd = "/";
  round = λ x. x;
}

mutation_blocked-snapshot_example :
    mutation_blocked (safety_of (snapshot hundredths machine "/data" 7 true "STABLE")) ≡ (
      hundredths.le (hundredths.of_nat 350) (heap_used hundredths machine machine.memory_usage)
      || disk_low hundredths machine "/data"
      || any (is_corrupt hundredths machine "/data") critical_file_names)
mutation_blocked-snapshot_example =
    mutation_blocked-snapshot hundredths machine "/data" 7 true "STABLE"

abbrev full_env : Env ℕ (List ℕ)
full_env = env_with (safety_of (snapshot hundredths machine "/data" 7 true "STABLE"))

heap_full :
    (hundredths.le (hundredths.of_nat 350) (heap_used hundredths machine machine.memory_usage)
      || disk_low hundredths machine "/data"
      || any (is_corrupt hundredths machine "/data") critical_file_names)
    ≡ true
unfolding megabytes
heap_full = refl

capture_bug-unsafe_example :
    IsHeldBack full_env
      (detect_patterns hundredths full_env.detector
        (str_append "pattern_")
        (keep_recent 2 (crash_at 9) []))
      engine
      (capture_bug full_env 9 (crash_at 9) engine)
capture_bug-unsafe_example =
    capture_bug-unsafe full_env machine "/data" (λ p. 7) (λ p. true) (λ p. "STABLE") (λ p. refl)
      heap_full 9 (crash_at 9) engine refl
