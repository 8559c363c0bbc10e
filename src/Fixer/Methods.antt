-- ===== src/Fixer/Methods.antt =====
-- `AutoFixerImpl` of auto-fixer.ts: applying a fix, taking it back, removing it. The time and the
-- generated id are arguments.
use Prim.Native.Char.{code}
use text.Mathlib.Text.{find?}
use frida_desktop.Prelude.{
  ℕ, String, Bool, true, false, not, ◌&&◌, ◌||◌, Option, none, some, List, [], ◌∷◌, reverse, ◌==◌,
  if◌then◌else◌, str_eq, str_append, length, any,
}
use frida_desktop.Prelude.Dict
use frida_desktop.Prelude.Dict.{Dict}
use frida_desktop.Types.{
  BugPattern, FixStrategy, try_catch_with_fallback, monkey_patch_from_journal, component_restart,
  FixEvent, FixStatus, RollbackCapability, hook_restore, non_reversible, token_vazio,
}
use frida_desktop.Fixer.Hooks.{
  Overload, Hooks, Saved, Install, assign, wrap, patch, hook_overloads, run_restores,
}

pub record JavaMethod : Type 0 where
  pub itself : Overload
  pub overloads : List Overload

-- A class as Frida's `Java.use` gives it: `$methods` (empty if it is no array) and its members.
pub record JavaClass : Type 0 where
  pub methods : List String
  pub member : String → Option JavaMethod

-- The Java bridge. `use_class` is none where `Java.use` throws, `throws i` says that assigning
-- the implementation of cell i throws, and `activity_manager` that the calls of a restart return.
pub record Java : Type 0 where
  pub use_class : String → Option JavaClass
  pub throws : ℕ → Bool
  pub activity_manager : Bool

pub record ActivePatch : Type 0 where
  pub fix_id : String
  pub strategy : FixStrategy
  pub target : String
  pub rollback_capability : RollbackCapability
  pub restore : List Saved
  pub created_at : ℕ

pub record Fixer : Type 0 where
  pub patches : Dict ActivePatch
  pub hooks : Hooks

-- `descriptor.split('-')[0]`
unfoldable pub method_name : String → String
method_name String.[] = String.[]
method_name (String.◌∷◌ c s) = if code c == b'-' then String.[] else String.◌∷◌ c (method_name s)

abbrev pub overloads_of : Option JavaMethod → List Overload
overloads_of none = []
overloads_of (some m) = m.overloads

-- The loop over `$methods`: a name that is empty or was seen is passed over.
unfoldable pub hook_methods : (ℕ → Bool) → JavaClass → List String → List String → Install → Install
unfolding method_name
hook_methods throws cls [] seen s = s
hook_methods throws cls (d ∷ ds) seen s =
    let name = method_name d in
    let skip = str_eq name "" || any (str_eq name) seen in
    hook_methods throws cls ds (if skip then seen else name ∷ seen)
      (if skip then s else hook_overloads throws wrap (overloads_of (cls.member name)) s)

abbrev pub begin : Hooks → Install
begin hooks = record { hooks = hooks; restore = []; thrown = false }

-- What both patches end with. On an exception the cells stay as they are and nothing is registered.
unfoldable pub register : String → FixStrategy → String → ℕ → Install → Fixer → Bool × Fixer
register fix_id strategy target now s st =
    let left = record st { hooks = s.hooks } in
    if s.thrown || length s.restore == 0 then (false, left) else (
      true,
      record left {
        patches =
            Dict.set fix_id
              (record {
                fix_id = fix_id;
                strategy = strategy;
                target = target;
                rollback_capability = hook_restore;
                restore = s.restore;
                created_at = now;
              })
              st.patches;
      },
    )

-- The result says whether the call returned; false is an exception.
unfoldable pub try_catch_fallback_internal :
    Java → String → String → FixStrategy → ℕ → Fixer → Bool × Fixer
unfolding register
try_catch_fallback_internal java target fix_id strategy now st = elim (java.use_class target) [
  | none ↦ (false, st)
  | some cls ↦
      register fix_id strategy target now
        (hook_methods java.throws cls cls.methods [] (begin st.hooks)) st
]

-- `method.overloads?.length ? method.overloads : [method]`
abbrev pub patchable : JavaMethod → List Overload
patchable m = if length m.overloads == 0 then m.itself ∷ [] else m.overloads

abbrev pub is_null_pointer : Option String → Bool
is_null_pointer none = false
is_null_pointer (some e) = str_eq e "NullPointerException"

unfoldable pub monkey_patch_internal :
    {N : Type 0} → Java → BugPattern N → String → ℕ → Fixer → Bool × Fixer
unfolding register
monkey_patch_internal java pattern fix_id now st = elim (java.use_class pattern.class) [
  | none ↦ (false, st)
  | some cls ↦ elim (cls.member pattern.method) [
    | none ↦ (false, st)
    | some m ↦
        register fix_id pattern.fix_strategy
          (str_append pattern.class (str_append "." pattern.method)) now
          (hook_overloads java.throws (patch (is_null_pointer pattern.exception_type)) (patchable m)
            (begin st.hooks))
          st
  ]
]

abbrev pub is_some {ℓ} : {A : Type ℓ} → Option A → Bool
is_some none = false
is_some (some a) = true

abbrev pub includes : String → String → Bool
includes s t = is_some (find? s t)

-- Whether the restart was requested; only activities and services can be.
unfoldable pub restart_component : Java → String → Bool
restart_component java class_name =
    java.activity_manager && (includes class_name "Activity" || includes class_name "Service")

unfoldable pub restart_fix : {N : Type 0} → Java → BugPattern N → String → ℕ → Fixer → Bool × Fixer
unfolding restart_component
restart_fix java pattern fix_id now st =
    if restart_component java pattern.class
    then (
      true,
      record st {
        patches =
            Dict.set fix_id
              (record {
                fix_id = fix_id;
                strategy = pattern.fix_strategy;
                target = pattern.class;
                rollback_capability = non_reversible;
                restore = [];
                created_at = now;
              })
              st.patches;
      },
    )
    else (false, st)

-- The `switch` of `applyFix`.
unfoldable pub run_strategy :
    {N : Type 0} → Java → FixStrategy → BugPattern N → String → ℕ → Fixer → Bool × Fixer
unfolding try_catch_fallback_internal monkey_patch_internal restart_fix
run_strategy java try_catch_with_fallback pattern fix_id now st =
    try_catch_fallback_internal java pattern.class fix_id pattern.fix_strategy now st
run_strategy java monkey_patch_from_journal pattern fix_id now st =
    monkey_patch_internal java pattern fix_id now st
run_strategy java component_restart pattern fix_id now st = restart_fix java pattern fix_id now st

abbrev pub capability_of : FixStrategy → RollbackCapability
capability_of component_restart = non_reversible
capability_of _ = hook_restore

unfoldable pub apply_fix :
    {N : Type 0} → Java → BugPattern N → String → ℕ → Fixer → FixEvent × Fixer
unfolding run_strategy
apply_fix java pattern fix_id now st =
    let (done, st') = run_strategy java pattern.fix_strategy pattern fix_id now st in
    (
      record {
        fix_id = fix_id;
        pattern_id = pattern.pattern_id;
        timestamp = now;
        strategy = pattern.fix_strategy;
        status = if done then FixStatus.applied else FixStatus.failed;
        test_results = [];
        rollback_reason = none;
        rollback_capability =
            some (if done then capability_of pattern.fix_strategy else token_vazio);
        rollback_verified = some false;
      },
      st',
    )

abbrev pub is_hook_restore : RollbackCapability → Bool
is_hook_restore hook_restore = true
is_hook_restore _ = false

abbrev pub is_reversible : ActivePatch → Bool
is_reversible p = is_hook_restore p.rollback_capability && not (length p.restore == 0)

unfoldable pub can_rollback_fix : String → Fixer → Bool
can_rollback_fix fix_id st = elim (Dict.get fix_id st.patches) [
  | none ↦ false
  | some p ↦ is_reversible p
]

-- The patch is forgotten only where every closure returned.
unfoldable pub rollback_patch : (ℕ → Bool) → String → ActivePatch → Fixer → Bool × Fixer
rollback_patch throws fix_id p st =
    if is_reversible p
    then (let (success, hooks) = run_restores throws (reverse p.restore) true st.hooks in
        (
          success,
          record st {
            hooks = hooks;
            patches = if success then Dict.delete fix_id st.patches else st.patches;
          },
        ))
    else (false, st)

unfoldable pub rollback_fix : Java → String → Fixer → Bool × Fixer
unfolding rollback_patch
rollback_fix java fix_id st = elim (Dict.get fix_id st.patches) [
  | none ↦ (false, st)
  | some p ↦ rollback_patch java.throws fix_id p st
]

-- The loop of `removePatch`: an exception leaves the loop, and the method.
unfoldable pub restore_or_throw : (ℕ → Bool) → List Saved → Hooks → Bool × Hooks
restore_or_throw throws [] hooks = (true, hooks)
restore_or_throw throws ((i, previous) ∷ rest) hooks =
    let after = restore_or_throw throws rest (assign i previous hooks) in
    if throws i then (false, hooks) else after

unfoldable pub remove_patch : Java → String → Fixer → Bool × Fixer
unfolding restore_or_throw
remove_patch java patch_id st = elim (Dict.get patch_id st.patches) [
  | none ↦ (true, st)
  | some p ↦
      let (success, hooks) =
        restore_or_throw java.throws
          (if is_hook_restore p.rollback_capability then reverse p.restore else []) st.hooks in
      (
        success,
        record {
          hooks = hooks;
          patches = if success then Dict.delete patch_id st.patches else st.patches;
        },
      )
]
