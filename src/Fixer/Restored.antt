-- ===== src/Fixer/Restored.antt =====
-- What a verified rollback of `rollbackFix` in auto-fixer.ts has done to the hooks.
use mathlib.Core.Bool.{false≢true}
use mathlib.Core.Path.{subst}
use mathlib.Core.List.{reverse-cons}
use frida_desktop.Prelude.{
  ℕ, ◌<◌, String, eq_refl, ◌≡◌, refl, sym, ap, ◌∙◌, Bool, true, false, some, none, List, [], ◌∷◌,
  ◌++◌, reverse, length, ◌==◌, if◌then◌else◌, arith, Bool-cases, Option-cases, inl, inr,
}
use frida_desktop.Prelude.Dict
use frida_desktop.Prelude.Dict.{dict_laws}
use frida_desktop.Fixer.Hooks.{Hooks, Saved, Implementation, assign, run_restores}
use frida_desktop.Fixer.Methods.{
  Java, Fixer, ActivePatch, is_reversible, rollback_patch, rollback_fix,
}
use frida_desktop.Fixer.Restore.{rollback_fix_at}

-- What a cell had before it was hooked first, and `d` where it was not hooked.
abbrev pub original : ℕ → List Saved → Implementation → Implementation
original i [] d = d
original i ((k, previous) ∷ rest) d = if k == i then previous else original i rest d

-- What a cell has after the closures ran in this order.
abbrev latest : ℕ → List Saved → Implementation → Implementation
latest i [] d = d
latest i ((k, previous) ∷ rest) d = latest i rest (if k == i then previous else d)

latest-append :
    (i k : ℕ) (previous d : Implementation) (xs : List Saved)
    → latest i (xs ++ (k, previous) ∷ []) d ≡ (if k == i then previous else latest i xs d)
latest-append i k previous d [] = refl
latest-append i k previous d ((j, x) ∷ xs) = latest-append i k previous (if j == i then x else d) xs

latest-reverse :
    (i : ℕ) (d : Implementation) (xs : List Saved) → latest i (reverse xs) d ≡ original i xs d
latest-reverse i d [] = refl
latest-reverse i d ((k, x) ∷ xs) =
    ap (λ ys. latest i ys d) (reverse-cons (k, x) xs)
    ∙ latest-append i k x d (reverse xs)
    ∙ ap (λ y. if k == i then x else y) (latest-reverse i d xs)

module _ (throws : ℕ → Bool) where
  failed_stays : (xs : List Saved) (hooks : Hooks) → (run_restores throws xs false hooks).0 ≡ false
  unfolding run_restores
  failed_stays [] hooks = refl
  failed_stays ((k, x) ∷ xs) hooks = failed_stays xs (if throws k then hooks else assign k x hooks)

  run_restores-latest :
      (xs : List Saved) (hooks : Hooks)
      → (run_restores throws xs true hooks).0 ≡ true
      → (i : ℕ) → (run_restores throws xs true hooks).1 i ≡ latest i xs (hooks i)
  unfolding run_restores
  run_restores-latest [] hooks = λ ok i. refl
  run_restores-latest ((k, x) ∷ xs) hooks = elim (Bool-cases (throws k)) [
    | inl e ↦ simp e (λ ok i. absurd (false≢true (sym (failed_stays xs hooks) ∙ ok)))
    | inr e ↦ simp e (λ ok i. run_restores-latest xs (assign k x hooks) ok i)
  ]

-- The fix has a patch of one hook or more; each hook has what it had before the patch, all others are
-- as they were, and the patch is forgotten.
pub record IsPutBack (fix_id : String) (before after : Fixer) : Type 0 where
  pub active : ActivePatch
  pub registered : Dict.get fix_id before.patches ≡ some active
  pub hooked : 0 < length active.restore
  pub put_back : (i : ℕ) → after.hooks i ≡ original i active.restore (before.hooks i)
  pub forgotten : Dict.get fix_id after.patches ≡ none

module _ (java : Java) (fix_id : String) (st : Fixer) where
  rollback_patch-IsPutBack :
      (p : ActivePatch)
      → Dict.get fix_id st.patches ≡ some p
      → (rollback_patch java.throws fix_id p st).0 ≡ true
      → IsPutBack fix_id st (rollback_patch java.throws fix_id p st).1
  unfolding rollback_patch
  rollback_patch-IsPutBack p found = elim (Bool-cases (is_reversible p)) [
    | inl able ↦ simp able (λ ok. record {
      active = p;
      registered = found;
      hooked = ground (arith, able);
      put_back = λ i.
          run_restores-latest java.throws (reverse p.restore) st.hooks ok i
          ∙ latest-reverse i (st.hooks i) p.restore;
      forgotten = simp (ok, Dict.get-delete fix_id fix_id st.patches, eq_refl fix_id) refl;
    })
    | inr unable ↦ simp unable (λ ok. absurd (false≢true ok))
  ]

  rollback_fix_without :
      Dict.get fix_id st.patches ≡ none → rollback_fix java fix_id st ≡ (false, st)
  unfolding rollback_fix
  rollback_fix_without e = rw (e, rollback_fix) refl

  pub rollback_fix-IsPutBack :
      (rollback_fix java fix_id st).0 ≡ true → IsPutBack fix_id st (rollback_fix java fix_id st).1
  rollback_fix-IsPutBack = elim (Option-cases (Dict.get fix_id st.patches)) [
    | inl e ↦ λ ok. absurd (false≢true (sym (ap (λ r. r.0) (rollback_fix_without e)) ∙ ok))
    | inr (p, e) ↦
        subst (λ r. r.0 ≡ true → IsPutBack fix_id st r.1) (sym (rollback_fix_at java fix_id st p e))
          (rollback_patch-IsPutBack p e)
  ]
