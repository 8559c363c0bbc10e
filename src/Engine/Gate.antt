-- ===== src/Engine/Gate.antt =====
-- The mutation gate of `processBugEvent` in index.ts.
use frida_desktop.Prelude.{
  ℕ, ◌≡◌, refl, ◌∙◌, Bool, true, false, List, [], ◌∷◌, inl, inr, Bool-cases, any, if◌then◌else◌,
}
use frida_desktop.Types.{BugEvent, BugPattern, failsafe}
use frida_desktop.Watchdog.{set_state}
use frida_desktop.Patterns.Defs.{should_apply_fix, detect_patterns}
use frida_desktop.Engine.Defs.{
  Env, Engine, mutation_blocked, consider, consider_all, process_patterns, process_bug_event,
  capture_bug, to_failsafe, keep_recent,
}

if_same : {A : Type 0} (b : Bool) (x : A) → (if b then x else x) ≡ x
if_same true x = refl
if_same false x = refl

module _ {N M : Type 0} (env : Env N M) where
  -- Whether the detector wants some pattern fixed.
  abbrev pub some_due : List (BugPattern N) → Bool
  some_due ps = any (should_apply_fix env.floats env.detector) ps

  -- Nothing was fixed and nothing rolled back, and the state says whether something was due.
  pub record IsHeldBack (ps : List (BugPattern N)) (s t : Engine N M) : Type 0 where
    pub devices : t.devices ≡ s.devices
    pub pending : t.pending_rollbacks ≡ s.pending_rollbacks
    pub fixes_applied : t.counters.fixes_applied ≡ s.counters.fixes_applied
    pub triggered : t.counters.rollbacks_triggered ≡ s.counters.rollbacks_triggered
    pub state :
        t.watchdog.current_state ≡ (if some_due ps then failsafe else s.watchdog.current_state)

  module _ (closed : (p : BugPattern N) → mutation_blocked (env.safety p) ≡ true) where
    consider_all-IsHeldBack :
        (now : ℕ) (ps : List (BugPattern N)) (s : Engine N M)
        → IsHeldBack ps s (consider_all env now ps s)
    unfolding consider_all consider to_failsafe set_state
    consider_all-IsHeldBack now [] s = record {
      devices = refl;
      pending = refl;
      fixes_applied = refl;
      triggered = refl;
      state = refl;
    }
    consider_all-IsHeldBack now (p ∷ ps) s =
        elim (Bool-cases (should_apply_fix env.floats env.detector p)) [
          | inl due ↦
              simp (due, closed p)
                (let rest = consider_all-IsHeldBack now ps (to_failsafe s) in
                  record {
                    devices = rest.devices;
                    pending = rest.pending;
                    fixes_applied = rest.fixes_applied;
                    triggered = rest.triggered;
                    state = simp due (rest.state ∙ if_same (some_due ps) failsafe);
                  })
          | inr idle ↦ simp idle (
              let rest = consider_all-IsHeldBack now ps s in
              record {
                devices = rest.devices;
                pending = rest.pending;
                fixes_applied = rest.fixes_applied;
                triggered = rest.triggered;
                state = simp idle rest.state;
              })
        ]

    -- While the safety mesh reports a blocked state for every pattern, capturing a bug on a running
    -- engine changes no hook, no memory, no pending rollback and neither the count of fixes nor that
    -- of rollbacks, and the watchdog is in FAILSAFE exactly where the detector wanted a fix, or
    -- in the state that it was in.
    pub capture_bug-IsHeldBack :
        (now : ℕ) (e : BugEvent) (s : Engine N M)
        → s.running ≡ true
        → IsHeldBack
            (detect_patterns env.floats env.detector env.fresh_pattern
              (keep_recent env.bug_capacity e s.recent_bugs))
            s
            (capture_bug env now e s)
    unfolding capture_bug process_bug_event process_patterns
    capture_bug-IsHeldBack now e s running = simp running (
        let rest =
          consider_all-IsHeldBack now
            (detect_patterns env.floats env.detector env.fresh_pattern
              (keep_recent env.bug_capacity e s.recent_bugs))
            _ in
        record {
          devices = rest.devices;
          pending = rest.pending;
          fixes_applied = rest.fixes_applied;
          triggered = rest.triggered;
          state = rest.state;
        })
