-- ===== src/Fixer/Restore.antt =====
-- `applyFix` and then `rollbackFix` of modules/runtime-learning-engine/auto-fixer.ts.
use mathlib.Core.Path.{fun_ext}
use frida_desktop.Prelude.{
  ℕ, String, ◌≡◌, ◌≢◌, refl, Bool, true, false, ◌||◌, none, some, List, [], ◌∷◌, reverse, arith,
  inl, inr, Bool-cases, Option-cases, if◌then◌else◌, str_eq, eq_refl, str_append, length, any, sym,
  ap, ◌⊎◌, ◌∙◌, ◌==◌,
}
use frida_desktop.Prelude.Dict
use frida_desktop.Prelude.Dict.{dict_laws}
use frida_desktop.Types.{
  BugPattern, FixStrategy, FixStatus, component_restart, try_catch_with_fallback,
  monkey_patch_from_journal, hook_restore,
}
use frida_desktop.Fixer.Hooks.{
  Hooks, Install, Undoes, hook_overloads, hook_overloads-Undoes, run_restores, never, wrap, patch,
}
use frida_desktop.Fixer.Methods.{
  Java, JavaClass, Fixer, ActivePatch, method_name, overloads_of, try_catch_fallback_internal,
  monkey_patch_internal, hook_methods, begin, register, apply_fix, rollback_fix, rollback_patch,
  run_strategy, is_null_pointer, patchable, is_reversible,
}

hook_methods-Undoes :
    (throws : ℕ → Bool) (start : Hooks) (cls : JavaClass) (ds seen : List String) (s : Install)
    → Undoes start s
    → Undoes start (hook_methods throws cls ds seen s)
unfolding hook_methods
hook_methods-Undoes throws start cls [] seen s u = u
hook_methods-Undoes throws start cls (d ∷ ds) seen s u =
    let name = method_name d in
    elim (Bool-cases (str_eq name "" || any (str_eq name) seen)) [
      | inl skip ↦ rw skip (hook_methods-Undoes throws start cls ds seen s u)
      | inr hook ↦ rw hook (
          hook_methods-Undoes throws start cls ds (name ∷ seen)
            (hook_overloads throws wrap (overloads_of (cls.member name)) s)
            (hook_overloads-Undoes throws start wrap (overloads_of (cls.member name)) s u))
    ]

begin-Undoes : (hooks : Hooks) → Undoes hooks (begin hooks)
unfolding run_restores
begin-Undoes hooks = record { back = refl }

-- What a rollback under `fix_id` leaves of a state that came from `st`.
pub record IsTakenBack (fix_id : String) (st : Fixer) (r : Bool × Fixer) : Type 0 where
  pub verified : r.0 ≡ true
  pub hooks_back : r.1.hooks ≡ st.hooks
  pub forgotten :
      (j : String)
      → Dict.get j r.1.patches ≡ (if str_eq fix_id j then none else Dict.get j st.patches)

module _ (java : Java) (fix_id : String) (st : Fixer) where
  pub rollback_fix_at :
      (p : ActivePatch)
      → Dict.get fix_id st.patches ≡ some p
      → rollback_fix java fix_id st ≡ rollback_patch java.throws fix_id p st
  unfolding rollback_fix
  rollback_fix_at p found = rw (found, rollback_fix)

  -- All closures of a registered patch return.
  pub rollback_fix_success :
      (p : ActivePatch) (hooks : Hooks)
      → Dict.get fix_id st.patches ≡ some p
      → is_reversible p ≡ true
      → run_restores java.throws (reverse p.restore) true st.hooks ≡ (true, hooks)
      → rollback_fix java fix_id st
        ≡ (true, record { patches = Dict.delete fix_id st.patches; hooks = hooks })
  rollback_fix_success p hooks found able run =
      rollback_fix_at p found ∙ (unfold rollback_patch in simp (able, run))

module _ (java : Java) (calm : java.throws ≡ never) (fix_id : String) (strategy : FixStrategy)
    (target : String) (now : ℕ) (s : Install) (st : Fixer) (u : Undoes st.hooks s) where
  abbrev registered : ActivePatch
  registered = record {
    fix_id = fix_id;
    strategy = strategy;
    target = target;
    rollback_capability = hook_restore;
    restore = s.restore;
    created_at = now;
  }

  register_success :
      (register fix_id strategy target now s st).0 ≡ true
      → (length s.restore == 0 ≡ false)
        × (register fix_id strategy target now s st
            ≡ (true, record { patches = Dict.set fix_id registered st.patches; hooks = s.hooks }))
  unfolding register
  register_success done = elim (Bool-cases (s.thrown || length s.restore == 0)) [
    | inl dead ↦ absurd (ground (arith, dead))
    | inr live ↦ (ground (arith, live), simp live)
  ]

  register-IsTakenBack :
      (register fix_id strategy target now s st).0 ≡ true
      → IsTakenBack fix_id st
          (rollback_fix java fix_id (register fix_id strategy target now s st).1)
  register-IsTakenBack done =
      let (some_hook, shape) = register_success done in
      let after : Fixer = record {
        patches = Dict.set fix_id registered st.patches;
        hooks = s.hooks;
      } in
      rw shape (
        rw
          (rollback_fix_success java fix_id after registered st.hooks (simp (Dict.get-set, eq_refl))
            (simp some_hook) (rw calm (u.back)))
          (record {
            verified = refl;
            hooks_back = refl;
            forgotten = λ j. simp dict_laws (ground arith);
          }))

abbrev IsReversible : FixStrategy → Type 0
IsReversible component_restart = ⊥
IsReversible _ = Unit

-- A reversible strategy refuses at once, or registers an installation that its closures undo.
abbrev IsPatching : String → ℕ → FixStrategy → Fixer → Bool × Fixer → Type 0
IsPatching fix_id now strategy st r =
    (r ≡ (false, st))
    ⊎ ((target : String) × (s : Install) × Undoes st.hooks s
        × (r ≡ register fix_id strategy target now s st))

module _ {N : Type 0} (java : Java) (fix_id : String) (now : ℕ) (pattern : BugPattern N)
    (st : Fixer) where
  try_catch_patches :
      IsPatching fix_id now pattern.fix_strategy st
        (run_strategy java try_catch_with_fallback pattern fix_id now st)
  unfolding run_strategy
  try_catch_patches = elim (Option-cases (java.use_class pattern.class)) [
    | inl missing ↦ inl (rw (missing, try_catch_fallback_internal))
    | inr (cls, here) ↦ inr (
      pattern.class,
      hook_methods java.throws cls cls.methods [] (begin st.hooks),
      hook_methods-Undoes java.throws st.hooks cls cls.methods [] (begin st.hooks)
          (begin-Undoes st.hooks),
      rw (here, try_catch_fallback_internal),
    )
  ]

  monkey_patch_patches :
      IsPatching fix_id now pattern.fix_strategy st
        (run_strategy java monkey_patch_from_journal pattern fix_id now st)
  unfolding run_strategy
  monkey_patch_patches = elim (Option-cases (java.use_class pattern.class)) [
    | inl missing ↦ inl (rw (missing, monkey_patch_internal))
    | inr (cls, here) ↦ elim (Option-cases (cls.member pattern.method)) [
      | inl missing ↦ inl (rw (here, monkey_patch_internal) (rw (missing, monkey_patch_internal)))
      | inr (m, there) ↦
          let body = patch (is_null_pointer pattern.exception_type) in
          inr (
            str_append pattern.class (str_append "." pattern.method),
            hook_overloads java.throws body (patchable m) (begin st.hooks),
            hook_overloads-Undoes java.throws st.hooks body (patchable m) (begin st.hooks)
                (begin-Undoes st.hooks),
            rw (here, monkey_patch_internal) (rw (there, monkey_patch_internal)),
          )
    ]
  ]

  run_strategy_patches :
      (strategy : FixStrategy)
      → IsReversible strategy
      → IsPatching fix_id now pattern.fix_strategy st
          (run_strategy java strategy pattern fix_id now st)
  run_strategy_patches try_catch_with_fallback h = try_catch_patches
  run_strategy_patches monkey_patch_from_journal h = monkey_patch_patches
  run_strategy_patches component_restart h = absurd h

  run_strategy-IsTakenBack :
      (strategy : FixStrategy)
      → java.throws ≡ never
      → IsReversible strategy
      → (run_strategy java strategy pattern fix_id now st).0 ≡ true
      → IsTakenBack fix_id st
          (rollback_fix java fix_id (run_strategy java strategy pattern fix_id now st).1)
  run_strategy-IsTakenBack strategy calm able done = elim (run_strategy_patches strategy able) [
    | inl refused ↦ absurd (cc)
    | inr (target, s, u, eq) ↦ rw eq (
        register-IsTakenBack java calm fix_id pattern.fix_strategy target now s st u
          (sym (ap (λ r. r.0) eq) ∙ done))
  ]

  -- If no assignment throws and a fix by hooks was applied, then rolling the fix back succeeds,
  -- every hooked implementation is what it was before the fix (also where two names share an
  -- overload), the fix is no longer registered, and the other fixes are.
  pub rollback_fix-apply_fix :
      (calm : (i : ℕ) → java.throws i ≡ false)
      → pattern.fix_strategy ≢ component_restart
      → (apply_fix java pattern fix_id now st).0.status ≡ FixStatus.applied
      → IsTakenBack fix_id st (rollback_fix java fix_id (apply_fix java pattern fix_id now st).1)
  unfolding apply_fix
  rollback_fix-apply_fix calm able done =
      run_strategy-IsTakenBack pattern.fix_strategy (fun_ext calm)
        (reversible pattern.fix_strategy able) (ground (arith, done))
    where
      reversible : (f : FixStrategy) → f ≢ component_restart → IsReversible f
      reversible component_restart h = h refl
      reversible try_catch_with_fallback h = tt
      reversible monkey_patch_from_journal h = tt
