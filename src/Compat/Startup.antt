-- ===== src/Compat/Startup.antt =====
-- The compatibility check and the start of the engine in index.ts, composed.
use frida_desktop.Prelude.{
  ℕ, ◌≡◌, refl, ap, ◌∙◌, Bool, true, false, not, ◌&&◌, ◌||◌, ◌==◌, some, ltb, length, if◌then◌else◌,
  Bool-cases, inl, inr, List,
}
use frida_desktop.Types.{BugEvent}
use frida_desktop.Engine.Defs.{Env, Engine}
use frida_desktop.Engine.Lifecycle.{start, load_history_and_detect_patterns, adopt_history}
use frida_desktop.Compat.Defs.{
  Environment, CompatibilityChecker, SelinuxMode, OverallStatus, partial, compatible, is_enforcing,
  check_compatibility, report_of, overall_status_of, may_proceed, can_proceed_with_deployment,
  frida_ok, api_ok, failed_hooks, errors, get_selinux_mode,
}

verdict :
    (frida api : Bool) (failing errors : ℕ) (mode : SelinuxMode)
    → may_proceed (overall_status_of frida api failing errors mode)
      ≡ (frida && api && not (ltb 2 failing))
unfolding overall_status_of
verdict true true failing errors mode = elim (Bool-cases (ltb 2 failing)) [
  | inl e ↦ simp e refl
  | inr e ↦
      simp e
        (either (ltb 0 errors || ltb 0 failing || is_enforcing mode) partial compatible refl refl)
]
  where
    either :
        (b : Bool) (x y : OverallStatus)
        → may_proceed x ≡ true
        → may_proceed y ≡ true
        → may_proceed (if b then x else y) ≡ true
    either true x y h k = h
    either false x y h k = k
verdict true false failing errors mode = refl
verdict false api failing errors mode = refl

module _ {N M : Type 0} (env : Env N M) (w : Environment N) where
  adopt-running :
      (events : List BugEvent) (s : Engine N M) → (adopt_history env events s).running ≡ s.running
  unfolding adopt_history
  adopt-running events s = elim (Bool-cases (length events == 0)) [
    | inl e ↦ simp e refl
    | inr e ↦ simp e refl
  ]

  started :
      (b captures : Bool) (now : ℕ) (s : Engine N M)
      → s.running ≡ false
      → (start env (record { compatible = some b; capture_started = captures }) now s).running
        ≡ (b && captures)
  unfolding start load_history_and_detect_patterns
  started false captures now s idle = simp idle refl
  started true false now s idle = simp idle refl
  started true true now s idle = simp idle (adopt-running _ _)

  pub start-verdict :
      (captures : Bool) (now : ℕ) (c : CompatibilityChecker) (s : Engine N M)
      → s.running ≡ false
      → (start env
          (record {
            compatible =
                some (can_proceed_with_deployment (check_compatibility env.floats w now c));
            capture_started = captures;
          })
          now
          s).running
        ≡ ((frida_ok env.floats w
              && api_ok env.floats w
              && not (ltb 2 (length (failed_hooks env.floats w))))
            && captures)
  unfolding check_compatibility can_proceed_with_deployment report_of
  start-verdict captures now c s idle =
      started _ captures now s idle
      ∙ ap (λ b. b && captures)
          (verdict (frida_ok env.floats w) (api_ok env.floats w)
            (length (failed_hooks env.floats w)) (length (errors env.floats w))
            (get_selinux_mode env.floats w))
