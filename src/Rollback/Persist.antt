-- ===== src/Rollback/Persist.antt =====
-- `persistJournal` and `commitFix` of modules/runtime-learning-engine/rollback-engine.ts.
use frida_desktop.Prelude.{
  ℕ, zero, suc, ◌≤◌, ◌<◌, String, ◌≡◌, ◌⊎◌, inl, inr, refl, Bool, true, false, ◌||◌, some, List, [],
  ◌∷◌, ◌++◌, arith, ltb, str_eq, eq_refl, length, drop, any, Bool-cases, length-append,
  length-slice_last, ◌==◌, ap, ◌∙◌,
}
use frida_desktop.Prelude.Dict
use frida_desktop.Types.{RollbackJournal}
use frida_desktop.Rollback.Defs.{
  RollbackEngine, JournalFile, missing, unreadable, stored, put_journal, trim_journals,
  persisted_file, persist_journal, remember, commit_fix, committed, mutate,
}

abbrev pub holds : String → List RollbackJournal → Bool
holds id js = any (λ k. str_eq k.journal_id id) js

put_journal-holds :
    (j : RollbackJournal) (js : List RollbackJournal) → holds j.journal_id (put_journal j js) ≡ true
unfolding put_journal
put_journal-holds j [] = simp eq_refl
put_journal-holds j (k ∷ ks) = elim (Bool-cases (str_eq k.journal_id j.journal_id)) [
  | inl e ↦ simp (e, eq_refl)
  | inr e ↦ simp (e, put_journal-holds j ks)
]

put_journal_grows :
    (j : RollbackJournal) (js : List RollbackJournal)
    → (length (put_journal j js) ≡ length js) ⊎ (put_journal j js ≡ js ++ j ∷ [])
unfolding put_journal
put_journal_grows j [] = inr refl
put_journal_grows j (k ∷ ks) = elim (Bool-cases (str_eq k.journal_id j.journal_id)) [
  | inl e ↦ inl (simp e)
  | inr e ↦ elim (put_journal_grows j ks) [ inl h ↦ inl (simp (e, h)) | inr h ↦ inr (simp (e, h)) ]
]

holds-drop :
    (n : ℕ) (j : RollbackJournal) (js : List RollbackJournal)
    → n ≤ length js
    → holds j.journal_id (drop n (js ++ j ∷ [])) ≡ true
holds-drop zero j [] h = simp eq_refl
holds-drop zero j (k ∷ ks) h = elim (Bool-cases (str_eq k.journal_id j.journal_id)) [
  | inl e ↦ simp e
  | inr e ↦ simp (e, holds-drop zero j ks (omega arith))
]
holds-drop (suc n) j [] h = absurd (omega arith)
holds-drop (suc n) j (k ∷ ks) h = holds-drop n j ks (omega arith)

trim_journals-holds :
    (n : ℕ) (j : RollbackJournal) (js : List RollbackJournal)
    → 0 < n
    → length js ≤ n
    → (length (trim_journals n (put_journal j js)) ≤ n)
      × (holds j.journal_id (trim_journals n (put_journal j js)) ≡ true)
unfolding trim_journals
trim_journals-holds n j js pos fits = elim (put_journal_grows j js) [
  | inl same ↦
      let small : ltb n (length (put_journal j js)) ≡ false = ground (arith, same) in
      simp small (omega (arith, same), put_journal-holds j js)
  | inr pushed ↦ rw pushed (elim (Bool-cases (ltb n (length (js ++ j ∷ [])))) [
    | inl full ↦ simp full (
      omega (arith, length-slice_last n (js ++ j ∷ []) pos),
      (let nonzero : (n == 0) ≡ false = ground arith in
          simp nonzero (holds-drop _ j js (omega (arith, length-append {0} js (j ∷ []))))),
    )
    | inr room ↦ simp room (ground (arith, room), rw (← pushed) (put_journal-holds j js))
  ])
]

-- The journals that a file holds; none where it is missing or cannot be read.
abbrev pub journals_in : JournalFile → List RollbackJournal
journals_in (stored js) = js
journals_in _ = []

-- If the disk takes writes, the file can be read or is missing, and it was within a bound of at
-- least one, then after `persistJournal` it is within the bound and holds a journal of that id.
persist_journal-holds :
    (j : RollbackJournal) (s : RollbackEngine)
    → s.disk_ok ≡ true
    → (s.file ≡ unreadable → ⊥)
    → 0 < s.max_journal_size
    → length (journals_in s.file) ≤ s.max_journal_size
    → (length (journals_in (persist_journal j s).file) ≤ s.max_journal_size)
      × (holds j.journal_id (journals_in (persist_journal j s).file) ≡ true)
unfolding persist_journal
persist_journal-holds j s ok readable pos fits = simp ok (at s.file readable fits)
  where
    at :
        (f : JournalFile)
        → (f ≡ unreadable → ⊥)
        → length (journals_in f) ≤ s.max_journal_size
        → (length (journals_in (persisted_file s.max_journal_size j f)) ≤ s.max_journal_size)
          × (holds j.journal_id (journals_in (persisted_file s.max_journal_size j f)) ≡ true)
    at missing r h = trim_journals-holds s.max_journal_size j [] pos h
    at unreadable r h = absurd (r refl)
    at (stored js) r h = trim_journals-holds s.max_journal_size j js pos h

persist_journals :
    (j : RollbackJournal) (s : RollbackEngine) (id : String)
    → Dict.get id (persist_journal j s).journals ≡ Dict.get id s.journals
unfolding persist_journal
persist_journals j s id = elim (Bool-cases s.disk_ok) [ inl e ↦ simp e | inr e ↦ simp e ]

mutate_held :
    (j k : RollbackJournal) (s : RollbackEngine)
    → Dict.get j.journal_id s.journals ≡ some k
    → mutate j s ≡ remember j s
unfolding mutate
mutate_held j k s held = rw (held, mutate)

-- Where the map holds the journal, the answer of `commitFix` is the verdict that the journal in the
-- map carries afterwards. It is true with two checksums that are there and differ, and false with a
-- first one that is missing or two that are the same.
commit_fix_verdict :
    (j k : RollbackJournal) (after : String) (s : RollbackEngine)
    → Dict.get j.journal_id s.journals ≡ some k
    → (j' : RollbackJournal) × (Dict.get j.journal_id (commit_fix j after s).1.journals ≡ some j')
      × (j'.verification_passed ≡ some (commit_fix j after s).0)
      × ((((commit_fix j after s).0 ≡ true)
            × (str_eq j.checksum_before "" ≡ false)
            × (str_eq j.checksum_before after ≡ false))
          ⊎ (((commit_fix j after s).0 ≡ false)
              × ((str_eq j.checksum_before "" || str_eq j.checksum_before after) ≡ true)))
unfolding commit_fix
commit_fix_verdict j k after s held =
    elim (Bool-cases (str_eq j.checksum_before "" || str_eq j.checksum_before after)) [
      | inl void ↦ (
        committed j after false,
        simp void (
            persist_journals (committed j after false) (mutate (committed j after false) s)
              j.journal_id
            ∙ ap (λ t. Dict.get j.journal_id t.journals)
                (mutate_held (committed j after false) k s held)
            ∙ kept false),
        simp void,
        inr (simp void (refl, refl)),
      )
      | inr good ↦ (
        committed j after true,
        simp good (
            persist_journals (committed j after true) (remember (committed j after true) s)
              j.journal_id
            ∙ kept true),
        simp good,
        inl (simp good refl, ground (arith, good), ground (arith, good)),
      )
    ]
  where
    kept :
        (v : Bool)
        → Dict.get j.journal_id (remember (committed j after v) s).journals
          ≡ some (committed j after v)
    kept v = simp (Dict.get-set, eq_refl)
