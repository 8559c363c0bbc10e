-- ===== src/Compat/Limits.antt =====
-- The limits that the environment has to meet for the engine to start.
use mathlib.Core.Bool.{false≢true}
use frida_desktop.Prelude.{
  ℕ, zero, suc, ◌+◌, ◌≤◌, String, ◌≡◌, ◌⊎◌, ◌↔◌, inl, inr, refl, sym, ap, ◌∙◌, Bool, true, false,
  not, ◌&&◌, Option, none, some, List, [], ◌∷◌, All, ltb, leb, ◌==◌, length, filter, map,
  str_append, arith, Bool-cases,
}
use frida_desktop.Floats.{Floats}
use frida_desktop.Engine.Defs.{Env, Engine}
use frida_desktop.Engine.Lifecycle.{start}
use frida_desktop.Compat.Defs.{
  Environment, CompatibilityChecker, HookValidation, HookAnswer, no_class, no_method, found, throws,
  check_compatibility, can_proceed_with_deployment, get_frida_version, is_frida_version_compatible,
  get_android_api_level, validate_hooks, test_hook, frida_ok, api_ok, failed_hooks, is_some, hooks,
  major_ok, level_from, judge_hook,
}
use frida_desktop.Compat.Startup.{start-verdict}

abbrev pub IsKnown : {A : Type 0} → Option A → Type 0
IsKnown none = ⊥
IsKnown (some x) = Unit

-- The level of the API that is read: 29 stands in for one that is missing or 0.
abbrev pub LevelFits : Option ℕ → Type 0
LevelFits none = Unit
LevelFits (some n) = (n ≡ 0) ⊎ (29 ≤ n)

-- One for a hook that cannot be set.
abbrev pub missing : HookAnswer → ℕ
missing found = 0
missing no_class = 1
missing no_method = 1
missing (throws e) = 1

abbrev pub HooksFit : (String → String → HookAnswer) → Type 0
HooksFit hook =
    missing (hook "java.lang.Throwable" "printStackTrace")
      + missing (hook "android.app.ActivityManager" "appNotResponding")
      + missing (hook "java.lang.Runtime" "gc")
      + missing (hook "java.lang.Thread" "start")
    ≤ 2

no_gaps-IsKnown :
    {A : Type 0} (xs : List (Option A))
    → ((0 == length (filter (λ q. not (is_some q)) xs)) ≡ true) ↔ All IsKnown xs
no_gaps-IsKnown [] = (λ h. tt, λ h. refl)
no_gaps-IsKnown (none ∷ xs) = (λ h. absurd (ground (arith, h)), λ h. absurd h.0)
no_gaps-IsKnown (some x ∷ xs) =
    (λ h. (tt, (no_gaps-IsKnown xs).0 h), λ h. (no_gaps-IsKnown xs).1 h.1)

module _ {N : Type 0} (f : Floats N) where
  -- The first part is at least 14.
  abbrev pub MajorFits : List (Option N) → Type 0
  MajorFits [] = ⊥
  MajorFits (none ∷ ps) = ⊥
  MajorFits (some major ∷ ps) = f.le (f.of_nat 14) major ≡ true

  -- The version has two parts or more, all of them numbers.
  abbrev pub VersionFits : List (Option N) → Type 0
  VersionFits ps = (2 ≤ length ps) × All IsKnown ps × MajorFits ps

  module _ (w : Environment N) where
    major_ok-VersionFits : (ps : List (Option N)) → (major_ok f w ps ≡ true) ↔ VersionFits ps
    major_ok-VersionFits [] = (λ h. absurd (false≢true h), λ h. absurd h.2)
    major_ok-VersionFits (none ∷ ps) = (λ h. absurd (false≢true h), λ h. absurd h.2)
    major_ok-VersionFits (some major ∷ []) =
        (λ h. absurd (false≢true h), λ h. absurd (omega (arith, h.0)))
    major_ok-VersionFits (some major ∷ p ∷ ps) =
        elim (Bool-cases (0 == length (filter (λ q. not (is_some q)) (p ∷ ps)))) [
          | inl e ↦ simp e (λ h. (omega arith, (tt, (no_gaps-IsKnown (p ∷ ps)).0 e), h), λ h. h.2)
          | inr e ↦ simp e (
            λ h. absurd (false≢true h),
            λ h. absurd (false≢true (sym e ∙ (no_gaps-IsKnown (p ∷ ps)).1 h.1.1)),
          )
        ]

    level_from-LevelFits :
        (o : Option ℕ) → (leb 29 (level_from w.print w.codename o).0 ≡ true) ↔ LevelFits o
    level_from-LevelFits none = (λ h. tt, λ h. refl)
    level_from-LevelFits (some zero) = (λ h. inl refl, λ h. refl)
    level_from-LevelFits (some (suc n)) = (λ h. inr (ground (arith, h)), λ h. ground (arith, h))

    api_ok-LevelFits : (api_ok f w ≡ true) ↔ ((w.has_java ≡ false) ⊎ LevelFits w.sdk)
    unfolding get_android_api_level
    api_ok-LevelFits = elim (Bool-cases w.has_java) [
      | inl e ↦ simp e (
        λ h. inr ((level_from-LevelFits w.sdk).0 h),
        λ h. elim h [
          | inl x ↦ absurd (false≢true (sym x))
          | inr y ↦ (level_from-LevelFits w.sdk).1 y
        ],
      )
      | inr e ↦ simp e (λ h. inl refl, λ h. refl)
    ]

    judge_hook-missing :
        (name class method : String) (a : HookAnswer) (rest : List HookValidation)
        → length (filter (λ h. not h.available) (judge_hook f w name class method a ∷ rest))
          ≡ missing a + length (filter (λ h. not h.available) rest)
    judge_hook-missing name class method found rest = omega arith
    judge_hook-missing name class method no_class rest = omega arith
    judge_hook-missing name class method no_method rest = omega arith
    judge_hook-missing name class method (throws e) rest = omega arith

    abbrev total_missing : List (String × String) → ℕ
    total_missing [] = 0
    total_missing (h ∷ hs) = missing (w.hook h.0 h.1) + total_missing hs

    tested_missing :
        (hs : List (String × String))
        → w.has_java ≡ true
        → length (filter (λ h. not h.available) (map (test_hook f w) hs)) ≡ total_missing hs
    unfolding test_hook
    tested_missing [] e = refl
    tested_missing ((class, method) ∷ hs) e =
        let rest = map (test_hook f w) hs in
        simp e (
          judge_hook-missing (str_append class (str_append "." method)) class method
            (w.hook class method) rest
          ∙ ap (λ n. missing (w.hook class method) + n) (tested_missing hs e))

    failed_hooks-missing : w.has_java ≡ true → length (failed_hooks f w) ≡ total_missing hooks
    unfolding validate_hooks
    failed_hooks-missing e = tested_missing hooks e

    no_java-failed_hooks : w.has_java ≡ false → length (failed_hooks f w) ≡ 0
    unfolding validate_hooks test_hook
    no_java-failed_hooks e = simp e refl

    failed_hooks-HooksFit :
        (not (ltb 2 (length (failed_hooks f w))) ≡ true) ↔ ((w.has_java ≡ false) ⊎ HooksFit w.hook)
    failed_hooks-HooksFit = elim (Bool-cases w.has_java) [
      | inl e ↦
          let counted = failed_hooks-missing e in
          (
            λ h. inr (ground (arith, counted, h)),
            λ h. elim h [
              | inl x ↦ absurd (false≢true (sym x ∙ e))
              | inr few ↦ ground (arith, counted, few)
            ],
          )
      | inr e ↦ let counted = no_java-failed_hooks e in (λ h. inl e, λ h. ground (arith, counted))
    ]

    frida_ok-VersionFits :
        (frida_ok f w ≡ true) ↔ VersionFits (w.number_parts (get_frida_version w.frida))
    unfolding is_frida_version_compatible
    frida_ok-VersionFits = major_ok-VersionFits (w.number_parts (get_frida_version w.frida))

and_iff :
    {P Q : Type 0} (a b : Bool) → (a ≡ true) ↔ P → (b ≡ true) ↔ Q → ((a && b) ≡ true) ↔ (P × Q)
and_iff true b p q = (λ h. (p.0 refl, q.0 h), λ h. q.1 h.1)
and_iff false b p q = (λ h. absurd (false≢true h), λ h. absurd (false≢true (p.1 h.0)))

-- An engine that is not running starts, after the compatibility check of its environment, exactly
-- where the version that `getFridaVersion` answers has two parts or more, all of them numbers, with the
-- first at least 14; there is no Java, or the level of the API is missing, 0 or at least 29; there is
-- no Java, or at most two of the four hooks cannot be set; and the capture starts.
pub start-check_compatibility :
    {N M : Type 0} (env : Env N M) (w : Environment N) (captures : Bool) (now : ℕ)
    (c : CompatibilityChecker) (s : Engine N M)
    → s.running ≡ false
    → ((start env
          (record {
            compatible =
                some (can_proceed_with_deployment (check_compatibility env.floats w now c));
            capture_started = captures;
          })
          now
          s).running
        ≡ true)
      ↔ (((VersionFits env.floats (w.number_parts (get_frida_version w.frida))
              × ((w.has_java ≡ false) ⊎ LevelFits w.sdk))
            × ((w.has_java ≡ false) ⊎ HooksFit w.hook))
          × (captures ≡ true))
start-check_compatibility env w captures now c s idle =
    let f = env.floats in
    let same = start-verdict env w captures now c s idle in
    let meets =
      and_iff (frida_ok f w && api_ok f w && not (ltb 2 (length (failed_hooks f w)))) captures
        (and_iff (frida_ok f w && api_ok f w) (not (ltb 2 (length (failed_hooks f w))))
          (and_iff (frida_ok f w) (api_ok f w) (frida_ok-VersionFits f w) (api_ok-LevelFits f w))
          (failed_hooks-HooksFit f w))
        ((λ h. h), (λ h. h)) in
    ((λ h. meets.0 (sym same ∙ h)), (λ h. same ∙ meets.1 h))
