-- ===== src/Engine/Verdict.antt =====
-- What `executeRollback` of index.ts means by a verified rollback.
use frida_desktop.Prelude.Dict
use frida_desktop.Prelude.{
  ℕ, some, Option-cases, str_eq, eq_iff, filter, false, arith, String, ◌≡◌, refl, sym, true, List,
  [], ◌∷◌, ◌⊎◌, inl, inr, Bool-cases,
}
use mathlib.Core.Bool.{false≢true}
use frida_desktop.Types.{RollbackJournal}
use frida_desktop.Fixer.Methods.{can_rollback_fix}
use frida_desktop.Fixer.Restored.{IsPutBack, rollback_fix-IsPutBack}
use frida_desktop.Rollback.Defs.{verify_rollback, checksum}
use frida_desktop.Rollback.Verified.{rollback-IsHonest}
use frida_desktop.Engine.Defs.{Env, Devices, roll_journals, restore_hooks, journals_of, undo_fix}

module _ {N M : Type 0} (env : Env N M) where
  -- The memory can be read where the journal says, and what is read has the journal's checksum, which
  -- is not empty.
  abbrev pub HasChecksum : RollbackJournal → M → Type 0
  HasChecksum j memory =
      (bytes : List ℕ) × (env.frida.read memory j.target_address j.size ≡ some bytes)
      × (checksum env.frida bytes ≡ j.checksum_before)
      × (str_eq j.checksum_before "" ≡ false)

  -- It does so for a journal of this fix among these.
  abbrev pub ReadBack : String → List RollbackJournal → M → Type 0
  ReadBack fix_id [] memory = ⊥
  ReadBack fix_id (j ∷ js) memory =
      ((j.fix_id ≡ fix_id) × HasChecksum j memory) ⊎ ReadBack fix_id js memory

  verify_rollback-HasChecksum :
      (j : RollbackJournal) (memory : M)
      → verify_rollback env.frida j memory ≡ true
      → HasChecksum j memory
  unfolding verify_rollback
  verify_rollback-HasChecksum j memory =
      elim (Option-cases (env.frida.read memory j.target_address j.size)) [
        | inl e ↦ simp e (λ h. absurd (ground (arith, h)))
        | inr (bytes, e) ↦ simp e (λ h.
            let equal : str_eq (checksum env.frida bytes) j.checksum_before ≡ true =
              ground (arith, h) in
            (
              bytes,
              refl,
              (eq_iff (checksum env.frida bytes) j.checksum_before).0 equal,
              ground (arith, h),
            ))
      ]

  -- Some journal of the list is read back.
  abbrev SomeReadBack : List RollbackJournal → M → Type 0
  SomeReadBack [] memory = ⊥
  SomeReadBack (j ∷ js) memory = HasChecksum j memory ⊎ SomeReadBack js memory

  filter-ReadBack :
      (fix_id : String) (js : List RollbackJournal) (memory : M)
      → SomeReadBack (filter (λ j. str_eq j.fix_id fix_id) js) memory
      → ReadBack fix_id js memory
  filter-ReadBack fix_id [] memory = λ h. absurd h
  filter-ReadBack fix_id (j ∷ js) memory = elim (Bool-cases (str_eq j.fix_id fix_id)) [
    | inl e ↦ simp e (λ h. elim h [
      | inl here ↦ inl ((eq_iff j.fix_id fix_id).0 e, here)
      | inr later ↦ inr (filter-ReadBack fix_id js memory later)
    ])
    | inr e ↦ simp e (λ h. inr (filter-ReadBack fix_id js memory h))
  ]

  roll_journals-SomeReadBack :
      (js : List RollbackJournal) (d : Devices M)
      → (roll_journals env js d).0 ≡ true
      → SomeReadBack js (roll_journals env js d).1.memory
  unfolding roll_journals
  roll_journals-SomeReadBack [] d = λ h. absurd (false≢true h)
  roll_journals-SomeReadBack (j ∷ js) d =
      let (r, eq, honest) = rollback-IsHonest env.frida j d.rollback_engine d.memory in
      simp eq (elim (Bool-cases r.success) [
        | inl e ↦ simp e (λ h. inl (verify_rollback-HasChecksum j r.memory (honest.read_back e)))
        | inr e ↦ simp e (λ h. inr (roll_journals-SomeReadBack js _ h))
      ])

  restore_hooks_keeps :
      (fix_id : String) (d : Devices M)
      → journals_of env fix_id (restore_hooks env fix_id d).1 ≡ journals_of env fix_id d
  unfolding restore_hooks
  restore_hooks_keeps fix_id d = elim (Bool-cases (can_rollback_fix fix_id d.fixer)) [
    | inl e ↦ simp e refl
    | inr e ↦ simp e refl
  ]

  restore_hooks-IsPutBack :
      (fix_id : String) (d : Devices M)
      → (restore_hooks env fix_id d).0 ≡ true
      → IsPutBack fix_id d.fixer (restore_hooks env fix_id d).1.fixer
  unfolding restore_hooks
  restore_hooks-IsPutBack fix_id d = elim (Bool-cases (can_rollback_fix fix_id d.fixer)) [
    | inl e ↦ simp e (rollback_fix-IsPutBack env.java fix_id d.fixer)
    | inr e ↦ simp e (λ h. absurd (false≢true h))
  ]

  -- Where a rollback counts as verified, either the fix had a patch of one hook or more, each hook has
  -- what it had before the patch, all others are as they were, and the patch is forgotten; or the
  -- memory, read again at the end, has the checksum of a journal of that fix that the engine kept, which
  -- is not empty.
  pub undo_fix-verified :
      (fix_id : String) (d : Devices M)
      → (undo_fix env fix_id d).0 ≡ true
      → IsPutBack fix_id d.fixer (undo_fix env fix_id d).1.fixer
        ⊎ ReadBack fix_id (Dict.values d.rollback_engine.journals) (undo_fix env fix_id d).1.memory
  unfolding undo_fix
  undo_fix-verified fix_id d = elim (Bool-cases (restore_hooks env fix_id d).0) [
    | inl e ↦ simp e (λ h. inl (restore_hooks-IsPutBack fix_id d e))
    | inr e ↦ simp e (λ h. inr (
        filter-ReadBack fix_id (Dict.values d.rollback_engine.journals) _
          (rw (sym (restore_hooks_keeps fix_id d)) (roll_journals-SomeReadBack _ _ h))))
  ]
