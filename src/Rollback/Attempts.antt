-- ===== src/Rollback/Attempts.antt =====
-- The attempts of `rollback` in modules/runtime-learning-engine/rollback-engine.ts, case by case.
use frida_desktop.Prelude.{
  ℕ, suc, ◌+◌, ◌<◌, ◌≡◌, refl, Bool, true, false, Option, some, arith, ltb, leb, eq_refl,
  Bool-cases, inl, inr, ltb→lt, leb→le, ◌≤◌, ◌⊎◌,
}
use frida_desktop.Prelude.Dict
use frida_desktop.Types.{RollbackJournal}
use frida_desktop.Rollback.Defs.{
  FridaMemory, RollbackEngine, Rolled, rollback_loop, attempts_of, verify_rollback, conclude,
  settle,
}

module _ {M : Type 0} (frida : FridaMemory M) where
  abbrev pub counted : RollbackJournal → RollbackEngine → RollbackEngine
  counted j s = record s {
    rollback_attempts = Dict.set j.journal_id (attempts_of frida j s + 1) s.rollback_attempts;
  }

  pub attempts_of-counted :
      (j : RollbackJournal) (s : RollbackEngine)
      → attempts_of frida j (counted j s) ≡ attempts_of frida j s + 1
  attempts_of-counted j s =
      unfold attempts_of in
      rw (Dict.get-set j.journal_id j.journal_id (attempts_of frida j s + 1) s.rollback_attempts)
        (rw (eq_refl j.journal_id) (refl))

  abbrev pub unchanged : RollbackJournal → RollbackEngine → M → Rolled frida
  unchanged j s m = record { success = false; journal = j; engine = s; memory = m }

  abbrev pub concluded : Bool → RollbackJournal → RollbackEngine → M → Rolled frida
  concluded verified j s m =
      let (j', s') = conclude frida verified j s in
      record { success = verified; journal = j'; engine = s'; memory = m }

  -- A round of the loop, by its outcome.
  module _ (fuel : ℕ) (j : RollbackJournal) (s : RollbackEngine) (m : M) where
    abbrev pub attempted : Bool × M
    attempted = frida.write m j.target_address j.size j.original_bytes

    pub rollback_loop_cases :
        (P : Option (Rolled frida) → Type 0)
        → ((s.max_rollback_attempts ≤ attempts_of frida j s) ⊎ (frida.write_available ≡ false)
            → P (some (unchanged j s m)))
        → (attempts_of frida j s < s.max_rollback_attempts
            → attempted.0 ≡ true
            → verify_rollback frida j attempted.1 ≡ true
            → P (some (concluded true j (counted j s) attempted.1)))
        → (attempts_of frida j s + 1 < s.max_rollback_attempts
            → P (rollback_loop frida fuel j (counted j s) attempted.1))
        → (attempts_of frida j s < s.max_rollback_attempts
            → s.max_rollback_attempts ≤ attempts_of frida j s + 1
            → P (some (concluded false j (counted j s) attempted.1)))
        → (attempts_of frida j s < s.max_rollback_attempts
            → s.max_rollback_attempts ≤ attempts_of frida j s + 1
            → P (some (unchanged j (counted j s) attempted.1)))
        → P (rollback_loop frida (suc fuel) j s m)
    unfolding rollback_loop
    rollback_loop_cases P refused verified retry unverified threw =
        elim (Bool-cases (leb s.max_rollback_attempts (attempts_of frida j s))) [
          | inl full ↦ rw full (refused (inl (leb→le _ _ full)))
          | inr room ↦
              let h : attempts_of frida j s < s.max_rollback_attempts = ground (arith, room) in
              elim (Bool-cases frida.write_available) [
                | inl able ↦ simp (room, able) (settled h)
                | inr blocked ↦ simp (room, blocked) (refused (inr blocked))
              ]
        ]
      where
        settled :
            attempts_of frida j s < s.max_rollback_attempts
            → P (
                settle frida attempted.0
                  (ltb (attempts_of frida j s + 1) s.max_rollback_attempts)
                  j
                  (counted j s)
                  attempted.1
                  (rollback_loop frida fuel j (counted j s) attempted.1))
        settled h = elim (Bool-cases attempted.0) [
          | inl back ↦ elim (Bool-cases (verify_rollback frida j attempted.1)) [
            | inl good ↦ simp (back, good) (verified h back good)
            | inr bad ↦
                elim (Bool-cases (ltb (attempts_of frida j s + 1) s.max_rollback_attempts)) [
                  | inl more ↦ simp (back, bad, more) (retry (ltb→lt _ _ more))
                  | inr last ↦ simp (back, bad, last) (unverified h (ground (arith, last)))
                ]
          ]
          | inr fault ↦
              elim (Bool-cases (ltb (attempts_of frida j s + 1) s.max_rollback_attempts)) [
                | inl more ↦ simp (fault, more) (retry (ltb→lt _ _ more))
                | inr last ↦ simp (fault, last) (threw h (ground (arith, last)))
              ]
        ]

    -- An attempt that writes and reads back ends the loop.
    pub rollback_loop_success :
        attempts_of frida j s < s.max_rollback_attempts
        → frida.write_available ≡ true
        → attempted.0 ≡ true
        → verify_rollback frida j attempted.1 ≡ true
        → rollback_loop frida (suc fuel) j s m ≡ some (concluded true j (counted j s) attempted.1)
    unfolding rollback_loop
    rollback_loop_success room able back good =
        let r : leb s.max_rollback_attempts (attempts_of frida j s) ≡ false = ground arith in
        simp (r, able, back, good)
