-- ===== src/Fixer/Faults.antt =====
-- Partial patches, and two fixes of one method, in modules/runtime-learning-engine/auto-fixer.ts.
use frida_desktop.Prelude.{
  ℕ, String, ◌≡◌, refl, Bool, true, false, none, some, List, [], ◌∷◌, arith, inl, inr, Bool-cases,
  str_eq, eq_refl, eq_iff, str_append, any, ap, ◌∙◌, ◌==◌, ==_iff,
}
use frida_desktop.Prelude.Dict
use frida_desktop.Prelude.Dict.{dict_laws}
use frida_desktop.Types.{BugPattern, FixStatus, monkey_patch_from_journal, hook_restore}
use frida_desktop.Fixer.Hooks.{
  Implementation, patched, Install, Overload, hook_overload, hook_overloads, run_restores, patch,
  assign,
}
use frida_desktop.Fixer.Methods.{
  Java, JavaClass, JavaMethod, Fixer, ActivePatch, begin, register, apply_fix, rollback_fix,
  run_strategy, is_null_pointer, patchable, can_rollback_fix, monkey_patch_internal,
}
use frida_desktop.Fixer.Restore.{rollback_fix_success}

abbrev pub IsPatched : Implementation → Type 0
IsPatched (patched i n a r) = Unit
IsPatched _ = ⊥

module _ (throws : ℕ → Bool) (null_pointer : Bool) (i : ℕ) where
  hook_overload-IsPatched :
      (o : Overload) (s : Install)
      → IsPatched (s.hooks i)
      → IsPatched ((hook_overload throws (patch null_pointer) o s).hooks i)
  unfolding hook_overload patch
  hook_overload-IsPatched o s h = elim (Bool-cases s.thrown) [
    | inl t ↦ simp t h
    | inr f ↦ elim (Bool-cases (throws o.id)) [
      | inl t ↦ simp (f, t) h
      | inr g ↦ elim (Bool-cases (o.id == i)) [
        | inl e ↦ simp (f, g, e) tt
        | inr e ↦ simp (f, g, e) h
      ]
    ]
  ]

  hook_overloads-IsPatched :
      (os : List Overload) (s : Install)
      → IsPatched (s.hooks i)
      → IsPatched ((hook_overloads throws (patch null_pointer) os s).hooks i)
  unfolding hook_overloads
  hook_overloads-IsPatched [] s h = h
  hook_overloads-IsPatched (o ∷ os) s h =
      hook_overloads-IsPatched os (hook_overload throws (patch null_pointer) o s)
        (hook_overload-IsPatched o s h)

module _ (throws : ℕ → Bool) (body : Overload → Implementation) where
  stays_thrown :
      (os : List Overload) (s : Install)
      → s.thrown ≡ true
      → (hook_overloads throws body os s).thrown ≡ true
  unfolding hook_overloads hook_overload
  stays_thrown [] s t = t
  stays_thrown (o ∷ os) s t = stays_thrown os (hook_overload throws body o s) (ground (arith, t))

  hook_overloads_thrown :
      (os : List Overload) (s : Install)
      → any (λ o. throws o.id) os ≡ true
      → (hook_overloads throws body os s).thrown ≡ true
  unfolding hook_overloads hook_overload
  hook_overloads_thrown (o ∷ os) s h = elim (Bool-cases (throws o.id)) [
    | inl t ↦ stays_thrown os (hook_overload throws body o s) (ground (arith, t))
    | inr f ↦ hook_overloads_thrown os (hook_overload throws body o s) (ground (arith, h, f))
  ]
  hook_overloads_thrown [] s h = cc

-- A class whose patched method has the overloads `os`.
pub record Patches {N : Type 0} (java : Java) (pattern : BugPattern N) (os : List Overload)
    : Type 0 where
  pub cls : JavaClass
  pub method : JavaMethod
  pub class_found : java.use_class pattern.class ≡ some cls
  pub method_found : cls.member pattern.method ≡ some method
  pub overloads : patchable method ≡ os
  pub strategy : pattern.fix_strategy ≡ monkey_patch_from_journal

abbrev pub body_of : {N : Type 0} → BugPattern N → Overload → Implementation
body_of pattern = patch (is_null_pointer pattern.exception_type)

module _ {N : Type 0} (java : Java) (pattern : BugPattern N) (os : List Overload)
    (pre : Patches java pattern os) (fix_id : String) (now : ℕ) (st : Fixer) where
  monkey_patch_at :
      run_strategy java pattern.fix_strategy pattern fix_id now st
      ≡ register fix_id pattern.fix_strategy
          (str_append pattern.class (str_append "." pattern.method))
          now
          (hook_overloads java.throws (body_of pattern) os (begin st.hooks))
          st
  unfolding run_strategy
  monkey_patch_at =
      ap (λ f. run_strategy java f pattern fix_id now st) pre.strategy
      ∙ rw (pre.class_found, monkey_patch_internal)
          (rw (pre.method_found, monkey_patch_internal)
            (ap
              (λ os'.
                register fix_id pattern.fix_strategy
                  (str_append pattern.class (str_append "." pattern.method)) now
                  (hook_overloads java.throws (body_of pattern) os' (begin st.hooks)) st)
              pre.overloads))

-- A patch, under a new id, of a method whose first overload takes the hook and of which a later one
-- throws is reported as failed and cannot be rolled back under that id, but the first overload keeps
-- a patched implementation.
pub failed_patch_keeps_hook :
    {N : Type 0} (java : Java) (pattern : BugPattern N) (o : Overload) (os : List Overload)
    (pre : Patches java pattern (o ∷ os)) (fix_id : String) (now : ℕ) (st : Fixer)
    → java.throws o.id ≡ false
    → any (λ o. java.throws o.id) os ≡ true
    → Dict.get fix_id st.patches ≡ none
    → ((apply_fix java pattern fix_id now st).0.status ≡ FixStatus.failed)
      × (can_rollback_fix fix_id (apply_fix java pattern fix_id now st).1 ≡ false)
      × IsPatched ((apply_fix java pattern fix_id now st).1.hooks o.id)
unfolding apply_fix can_rollback_fix
failed_patch_keeps_hook java pattern o os pre fix_id now st takes fails fresh =
    let s = hook_overload java.throws (body_of pattern) o (begin st.hooks) in
    let s' = hook_overloads java.throws (body_of pattern) os s in
    let after : Fixer = record { patches = st.patches; hooks = s'.hooks } in
    let shape : run_strategy java pattern.fix_strategy pattern fix_id now st ≡ (false, after) =
      monkey_patch_at java pattern (o ∷ os) pre fix_id now st
      ∙ (unfold register hook_overloads in
          simp (hook_overloads_thrown java.throws (body_of pattern) os s fails)) in
    rw shape (
      refl,
      rw (fresh, can_rollback_fix),
      hook_overloads-IsPatched java.throws (is_null_pointer pattern.exception_type) o.id os s
          (unfold hook_overload patch in simp (takes, (==_iff o.id o.id).1 refl) tt),
    )

-- The patch that a fix of a method with one overload registers: its only closure writes back `old`.
abbrev pub one_patch :
    {N : Type 0} → BugPattern N → String → ℕ → Overload → Implementation → ActivePatch
one_patch pattern fix_id now o old = record {
  fix_id = fix_id;
  strategy = pattern.fix_strategy;
  target = str_append pattern.class (str_append "." pattern.method);
  rollback_capability = hook_restore;
  restore = (o.id, old) ∷ [];
  created_at = now;
}

module _ (java : Java) (o : Overload) (calm : (i : ℕ) → java.throws i ≡ false) where
  apply_one :
      {N : Type 0} (pattern : BugPattern N) (pre : Patches java pattern (o ∷ [])) (a : String)
      (now : ℕ) (st : Fixer)
      → (apply_fix java pattern a now st).1 ≡ record {
        patches = Dict.set a (one_patch pattern a now o (st.hooks o.id)) st.patches;
        hooks = assign o.id (body_of pattern o) st.hooks;
      }
  unfolding apply_fix
  apply_one pattern pre a now st =
      ap (λ r. r.1) (monkey_patch_at java pattern (o ∷ []) pre a now st)
      ∙ (unfold register hook_overloads hook_overload in simp (calm o.id))

  rollback_one :
      (a : String) (p : ActivePatch) (old : Implementation) (st : Fixer)
      → Dict.get a st.patches ≡ some p
      → p.rollback_capability ≡ hook_restore
      → p.restore ≡ (o.id, old) ∷ []
      → (rollback_fix java a st).1
        ≡ record { patches = Dict.delete a st.patches; hooks = assign o.id old st.hooks }
  rollback_one a p old st found able only =
      ap (λ r. r.1)
        (rollback_fix_success java a st p (assign o.id old st.hooks) found (simp (able, only))
          (rw only (unfold run_restores in simp (calm o.id))))

-- If no assignment throws, two fixes of a method with one overload, rolled back in the order in
-- which they were applied, are both forgotten, but the overload is left with the first fix's patched
-- implementation and not with what it had before.
pub stale_hook :
    {N : Type 0} (java : Java) (pattern other : BugPattern N) (o : Overload)
    (pre : Patches java pattern (o ∷ [])) (pre' : Patches java other (o ∷ [])) (a b : String)
    (now : ℕ) (st : Fixer) (calm : (i : ℕ) → java.throws i ≡ false)
    → str_eq a b ≡ false
    → let applied = (apply_fix java other b now (apply_fix java pattern a now st).1).1 in
      let after = (rollback_fix java b (rollback_fix java a applied).1).1 in
      (after.hooks o.id ≡ patch (is_null_pointer pattern.exception_type) o)
      × (Dict.get a after.patches ≡ none)
      × (Dict.get b after.patches ≡ none)
stale_hook java pattern other o pre pre' a b now st calm differ =
    let old = st.hooks o.id in
    let p = one_patch pattern a now o old in
    let one : Fixer = record {
      patches = Dict.set a p st.patches;
      hooks = assign o.id (body_of pattern o) st.hooks;
    } in
    let q = one_patch other b now o (one.hooks o.id) in
    let two : Fixer = record {
      patches = Dict.set b q one.patches;
      hooks = assign o.id (body_of other o) one.hooks;
    } in
    let three : Fixer = record {
      patches = Dict.delete a two.patches;
      hooks = assign o.id old two.hooks;
    } in
    let differ' : str_eq b a ≡ false = ground (arith, eq_iff a b, eq_iff b a, differ) in
    rw (apply_one java o calm pattern pre a now st) (
      rw (apply_one java o calm other pre' b now one) (
        rw (rollback_one java o calm a p old two (simp (dict_laws, eq_refl, differ')) refl refl) (
          rw
            (rollback_one java o calm b q (one.hooks o.id) three (simp (dict_laws, eq_refl, differ))
              refl refl)
            (
              simp ((==_iff o.id o.id).1 refl),
              simp (dict_laws, eq_refl, differ'),
              simp (dict_laws, eq_refl),
            ))))
