-- ===== src/Engine/Settled.antt =====
-- The outcomes of `applyFixWithRollback` of index.ts.
use frida_desktop.Prelude.{ℕ, ◌+◌, String, ◌≡◌, false, some, ◌⊎◌}
use frida_desktop.Prelude.Dict
use frida_desktop.Prelude.Dict.{Dict}
use frida_desktop.Types.{FixEvent, WatchdogState, stable, failsafe}
use frida_desktop.Engine.Defs.{Engine, Counters}

-- What of the engine tells the outcomes apart, beside the state of the watchdog.
pub record Ledger : Type 0 where
  pub traps : ℕ
  pub counters : Counters
  pub pending : Dict FixEvent

abbrev pub ledger : {N M : Type 0} → Engine N M → Ledger
ledger s = record {
  traps = s.watchdog.trap_count;
  counters = s.counters;
  pending = s.pending_rollbacks;
}

-- The fix stands: its tests passed or were skipped.
pub record Stands (s : Ledger) (state : WatchdogState) (t : Ledger) : Type 0 where
  pub in_state : state ≡ stable
  pub fixes_applied : t.counters.fixes_applied ≡ s.counters.fixes_applied + 1
  pub triggered : t.counters.rollbacks_triggered ≡ s.counters.rollbacks_triggered
  pub pending : t.pending ≡ s.pending

-- The fix was taken back, verified.
pub record TakenBack (id : String) (s : Ledger) (state : WatchdogState) (t : Ledger) : Type 0 where
  pub in_state : state ≡ stable
  pub fixes_applied : t.counters.fixes_applied ≡ s.counters.fixes_applied
  pub triggered : t.counters.rollbacks_triggered ≡ s.counters.rollbacks_triggered + 1
  pub failures : t.counters.rollback_failures ≡ s.counters.rollback_failures
  pub pending : t.pending ≡ Dict.delete id s.pending

-- The rollback is not verified: it is kept, trapped, and the engine fails safe.
pub record IsStuck (id : String) (s : Ledger) (state : WatchdogState) (t : Ledger) : Type 0 where
  pub in_state : state ≡ failsafe
  pub trapped : t.traps ≡ s.traps + 1
  pub failures : t.counters.rollback_failures ≡ s.counters.rollback_failures + 1
  pub triggered : t.counters.rollbacks_triggered ≡ s.counters.rollbacks_triggered + 1
  pub kept :
      (e : FixEvent) × (t.pending ≡ Dict.set id e s.pending) × (e.rollback_verified ≡ some false)

-- No fix was made, or its tests could not be run.
pub record IsRefused (s : Ledger) (state : WatchdogState) (t : Ledger) : Type 0 where
  pub in_state : state ≡ failsafe
  pub counters : t.counters ≡ s.counters
  pub pending : t.pending ≡ s.pending

abbrev pub Settled : String → Ledger → WatchdogState → Ledger → Type 0
Settled id s w t = Stands s w t ⊎ TakenBack id s w t ⊎ IsStuck id s w t ⊎ IsRefused s w t
