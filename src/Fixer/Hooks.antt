-- ===== src/Fixer/Hooks.antt =====
-- The hooks that a fix installs: auto-fixer.ts, the loops over overloads. `overload.implementation`
-- is a cell of the process, named by a number; two names of one overload share the cell. What
-- Frida reports (the overloads, which assignments throw) is given by the caller.
use mathlib.Core.Path.{fun_ext, subst, sym}
use mathlib.Core.List.{reverse-append}
use frida_desktop.Prelude.{
  ℕ, String, ◌≡◌, Bool, true, false, not, ◌&&◌, Option, none, some, List, [], ◌∷◌, ◌++◌, map,
  reverse, arith, ◌==◌, ==_iff, Bool-cases, inl, inr, if◌then◌else◌, str_eq,
}

-- What a type of Frida shows of itself.
pub record JavaType : Type 0 where
  pub class_name : Option String
  pub type_name : Option String
  pub name : Option String
  pub shown : String

-- `a || b`: a missing or an empty text gives way.
abbrev pub or_text : Option String → String → String
or_text none t = t
or_text (some s) t = if str_eq s "" then t else s

unfoldable pub get_frida_type_name : Option JavaType → String
get_frida_type_name none = "unknown"
get_frida_type_name (some t) = or_text t.class_name (or_text t.type_name (or_text t.name t.shown))

pub record Overload : Type 0 where
  pub id : ℕ
  pub argument_types : List (Option JavaType)
  pub return_type : Option JavaType

-- `null`, one of another program, `wrapped` and `patchedMethod` of this one.
pub data Implementation : Type 0 where
  absent : Implementation
  foreign : ℕ → Implementation
  wrapped : ℕ → String → Implementation
  patched : ℕ → Bool → List String → String → Implementation

abbrev pub Hooks : Type 0
Hooks = ℕ → Implementation

abbrev pub assign : ℕ → Implementation → Hooks → Hooks
assign i f hooks j = if i == j then f else hooks j

-- A restore closure: the cell and `previousImplementation`.
abbrev pub Saved : Type 0
Saved = ℕ × Implementation

-- `thrown` says that an assignment threw, which skips the rest of the loop.
pub record Install : Type 0 where
  pub hooks : Hooks
  pub restore : List Saved
  pub thrown : Bool

unfoldable pub wrap : Overload → Implementation
unfolding get_frida_type_name
wrap o = wrapped o.id (get_frida_type_name o.return_type)

unfoldable pub patch : Bool → Overload → Implementation
unfolding get_frida_type_name
patch null_pointer o =
    patched o.id null_pointer (map get_frida_type_name o.argument_types)
      (get_frida_type_name o.return_type)

module _ (throws : ℕ → Bool) where
  -- The body of the loop over the overloads.
  unfoldable pub hook_overload : (Overload → Implementation) → Overload → Install → Install
  hook_overload body o s =
      if s.thrown then s else if throws o.id then record s { thrown = true } else record s {
        hooks = assign o.id (body o) s.hooks;
        restore = s.restore ++ (o.id, s.hooks o.id) ∷ [];
      }

  unfoldable pub hook_overloads : (Overload → Implementation) → List Overload → Install → Install
  hook_overloads body [] s = s
  hook_overloads body (o ∷ os) s = hook_overloads body os (hook_overload body o s)

  -- The loop of `rollbackFix`, over the reversed closures: an error is noted, and the loop goes on.
  unfoldable pub run_restores : List Saved → Bool → Hooks → Bool × Hooks
  run_restores [] success hooks = (success, hooks)
  run_restores ((i, previous) ∷ rest) success hooks =
      run_restores rest (success && not (throws i))
        (if throws i then hooks else assign i previous hooks)

-- Writing the old value back into a cell that was written gives the old cells.
assign_back :
    (i : ℕ) (f : Implementation) (hooks : Hooks) → assign i (hooks i) (assign i f hooks) ≡ hooks
assign_back i f hooks = fun_ext (λ j. at j)
  where
    at : (j : ℕ) → assign i (hooks i) (assign i f hooks) j ≡ hooks j
    at j = ground (arith, ==_iff i j)

abbrev pub never : ℕ → Bool
never i = false

-- The closures that an installation holds lead back to the cells that it started from.
pub record Undoes (start : Hooks) (s : Install) : Type 0 where
  pub back : run_restores never (reverse s.restore) true s.hooks ≡ (true, start)

module _ (throws : ℕ → Bool) (start : Hooks) (body : Overload → Implementation) where
  pub hook_overload-Undoes :
      (o : Overload) (s : Install) → Undoes start s → Undoes start (hook_overload throws body o s)
  unfolding hook_overload
  hook_overload-Undoes o s u = elim (Bool-cases s.thrown) [
    | inl skipped ↦ simp skipped u
    | inr runs ↦ elim (Bool-cases (throws o.id)) [
      | inl fails ↦ simp (runs, fails) (record { back = u.back })
      | inr works ↦
          simp (runs, works)
            (record {
              back = rw (reverse-append s.restore ((o.id, s.hooks o.id) ∷ [])) (
                  unfold run_restores in
                  subst (λ h. run_restores never (reverse s.restore) true h ≡ (true, start))
                    (sym (assign_back o.id (body o) s.hooks)) u.back);
            })
    ]
  ]

  pub hook_overloads-Undoes :
      (os : List Overload) (s : Install)
      → Undoes start s
      → Undoes start (hook_overloads throws body os s)
  unfolding hook_overloads
  hook_overloads-Undoes [] s u = u
  hook_overloads-Undoes (o ∷ os) s u =
      hook_overloads-Undoes os (hook_overload throws body o s) (hook_overload-Undoes o s u)
