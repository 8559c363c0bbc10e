-- ===== src/Examples/Hooks.antt =====
-- Fixes of the example app, taken back and not.
use mathlib.Core.Path.{subst}
use frida_desktop.Prelude.{ap, ◌≡◌, refl, true, false, none, [], ◌∷◌, ◌==◌}
use frida_desktop.Prelude.Dict
use frida_desktop.Types.{FixStatus, component_restart, FixStrategy}
use frida_desktop.Fixer.Hooks.{patch, hook_overloads, hook_overload}
use frida_desktop.Fixer.Methods.{
  apply_fix, rollback_fix, can_rollback_fix, monkey_patch_internal, run_strategy, register, Java,
}
use frida_desktop.Fixer.Restore.{IsTakenBack, rollback_fix-apply_fix}
use frida_desktop.Fixer.Faults.{IsPatched, Patches, failed_patch_keeps_hook, stale_hook}
use frida_desktop.Examples.Data.{
  app, app_with, clean_fixer, pattern_of, run_overload, other_overload, main_class, run_method,
  load_method,
}

abbrev NotRestart : FixStrategy → Type 0
NotRestart component_restart = ⊥
NotRestart _ = Unit

applies : (apply_fix app (pattern_of "run") "a" 9 clean_fixer).0.status ≡ FixStatus.applied
unfolding apply_fix run_strategy monkey_patch_internal register hook_overloads hook_overload
applies = refl

rollback_fix-apply_fix_example :
    IsTakenBack "a" clean_fixer
      (rollback_fix app "a" (apply_fix app (pattern_of "run") "a" 9 clean_fixer).1)
rollback_fix-apply_fix_example =
    rollback_fix-apply_fix app "a" 9 (pattern_of "run") clean_fixer (λ i. refl)
      (λ e. subst NotRestart e tt) applies

run-Patches :
    (java : Java)
    → java.use_class ≡ app.use_class
    → Patches java (pattern_of "run") (run_overload ∷ [])
run-Patches java same = record {
  cls = main_class;
  method = run_method;
  class_found = ap (λ f. f "Main") same;
  method_found = refl;
  overloads = refl;
  strategy = refl;
}

abbrev faulty : Java
faulty = app_with (λ i. i == 8)

failed_patch_keeps_hook_example :
    ((apply_fix faulty (pattern_of "load") "a" 9 clean_fixer).0.status ≡ FixStatus.failed)
    × (can_rollback_fix "a" (apply_fix faulty (pattern_of "load") "a" 9 clean_fixer).1 ≡ false)
    × IsPatched ((apply_fix faulty (pattern_of "load") "a" 9 clean_fixer).1.hooks 7)
failed_patch_keeps_hook_example =
    failed_patch_keeps_hook faulty (pattern_of "load") run_overload (other_overload ∷ [])
      (record {
        cls = main_class;
        method = load_method;
        class_found = refl;
        method_found = refl;
        overloads = refl;
        strategy = refl;
      })
      "a" 9 clean_fixer refl refl (unfold Dict.get in refl)

stale_hook_example :
    let applied =
      (apply_fix app
        (pattern_of "run")
        "b"
        9
        (apply_fix app (pattern_of "run") "a" 9 clean_fixer).1).1 in
    let after = (rollback_fix app "b" (rollback_fix app "a" applied).1).1 in
    (after.hooks 7 ≡ patch true run_overload)
    × (Dict.get "a" after.patches ≡ none)
    × (Dict.get "b" after.patches ≡ none)
stale_hook_example =
    stale_hook app (pattern_of "run") (pattern_of "run") run_overload (run-Patches app refl)
      (run-Patches app refl) "a" "b" 9 clean_fixer (λ i. refl) refl
