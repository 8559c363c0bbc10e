-- ===== src/Examples/Testing.antt =====
-- A device whose bytes wrap around, and the engine with the test suite over it.
use frida_desktop.Prelude.{
  ℕ, ◌-◌, ◌<◌, ◌≡◌, refl, ap, false, none, some, ◌⊎◌, inr, String, List, ltb, ◌==◌, if◌then◌else◌,
  arith,
}
use frida_desktop.Utils.{hex}
use frida_desktop.Engine.Defs.{Env, capture_bug}
use frida_desktop.Testing.Defs.{Device, JavaByte, plus, minus, run_after_fix}
use frida_desktop.Testing.Bytes.{Bytes, capture_bug_never_fixes}
use frida_desktop.Examples.Data.{crash_at}
use frida_desktop.Examples.Runtime.{env_with, engine}

abbrev wrap : ℕ → JavaByte
wrap n = if ltb n 128 then plus n else minus (256 - n)

abbrev device : Device (ℕ → ℕ)
device = record {
  exec_ended = none;
  allocate = inr (λ i. 0);
  put = λ i n m. inr (λ j. if i == j then n else m j);
  get = λ i m. inr (wrap (m i));
  executions = inr 2;
  classes = none;
  value_of_null = none;
  timing = λ i. inr 1;
  duration = λ name. 3;
  print = hex 4;
  print_mean = λ sum count. hex 4 sum;
}

abbrev number_of : String ⊎ JavaByte → ℕ
number_of (inr (plus n)) = n
number_of _ = 0

wrapped : (n : ℕ) → number_of (inr (wrap n)) < 128
wrapped n = ground arith

device_bytes : Bytes device
device_bytes i m n h = omega (arith, ap number_of h, wrapped (m i))

abbrev tested_env : Env ℕ (List ℕ)
tested_env =
    record (env_with
      (record { fixes_disabled = false; disk_failed = false; corruption_failed = false })) {
        run_tests = λ e. some (run_after_fix device e);
      }

capture_bug_never_fixes_example :
    (capture_bug tested_env 9 (crash_at 9) engine).counters.fixes_applied ≡ 0
capture_bug_never_fixes_example =
    capture_bug_never_fixes tested_env device device_bytes (λ e. refl) 9 (crash_at 9) engine
