-- ===== src/Engine/Pending.antt =====
-- The watchdog's callback of index.ts over several pending rollbacks.
use frida_desktop.Prelude.{◌≡◌, refl, true, false, some, [], ◌∷◌, str_eq, eq_refl}
use frida_desktop.Prelude.Dict
use frida_desktop.Prelude.Dict.{dict_laws}
use frida_desktop.Types.{FixEvent, stable}
use frida_desktop.Watchdog.{set_state}
use frida_desktop.Engine.Defs.{
  Env, Engine, undo_fix, execute_rollback, settle_rollback, to_failsafe, retry_all,
  watchdog_callback,
}

module _ {N M : Type 0} (env : Env N M) (s : Engine N M) (a b : FixEvent) where
  -- Two rollbacks are pending; the first fails again and the second succeeds.
  pub record FailsThenSucceeds : Type 0 where
    pub queued : Dict.values s.pending_rollbacks ≡ a ∷ b ∷ []
    pub apart : str_eq b.fix_id a.fix_id ≡ false
    pub fails : (undo_fix env a.fix_id s.devices).0 ≡ false
    pub succeeds : (undo_fix env b.fix_id (undo_fix env a.fix_id s.devices).1).0 ≡ true

  -- After a callback whose first rollback stays unverified and whose second is verified, the
  -- watchdog is in STABLE although the first is still pending.
  pub watchdog_callback_masks :
      FailsThenSucceeds
      → ((watchdog_callback env s).watchdog.current_state ≡ stable)
        × (Dict.get a.fix_id (watchdog_callback env s).pending_rollbacks
            ≡ some (record a { rollback_verified = some false }))
  unfolding watchdog_callback retry_all execute_rollback settle_rollback to_failsafe set_state
  watchdog_callback_masks h =
      simp (h.queued, h.fails, h.succeeds) (refl, simp (dict_laws, h.apart, eq_refl) refl)
