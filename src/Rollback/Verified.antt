-- ===== src/Rollback/Verified.antt =====
-- `rollback`, `verifyRollback` and `journalBefore` of modules/runtime-learning-engine/
-- rollback-engine.ts: the answers of a rollback.
use frida_desktop.Prelude.{
  ap, sym, ◌∙◌, eq_refl, eq_iff, String, str_append, str_eq, ℕ, zero, suc, ◌+◌, ◌≤◌, ◌<◌, ◌≡◌, refl,
  Bool, true, false, Option, some, arith, ◌⊎◌, Bool-cases, inl, inr,
}
use mathlib.Core.Path.{ap₂}
use mathlib.Core.Bool.{false≢true}
use text.Mathlib.TextLemmas.{append-eq-nil_iff}
use frida_desktop.Types.{RollbackJournal}
use frida_desktop.Utils.{calculate_fnv1a64, hex, fnv_loop, fnv_init}
use frida_desktop.Rollback.Defs.{
  FridaMemory, RollbackEngine, Rolled, rollback_loop, rollback, journal_before, checksum,
  attempts_of, verify_rollback, conclude, persist_journal, remember,
}
use frida_desktop.Rollback.Attempts.{
  counted, attempts_of-counted, unchanged, concluded, attempted, rollback_loop_cases,
  rollback_loop_success,
}

module _ {M : Type 0} (frida : FridaMemory M) where
  persist_keeps :
      (k j : RollbackJournal) (s : RollbackEngine)
      → (attempts_of frida k (persist_journal j s) ≡ attempts_of frida k s)
        × ((persist_journal j s).max_rollback_attempts ≡ s.max_rollback_attempts)
  unfolding persist_journal
  persist_keeps k j s = elim (Bool-cases s.disk_ok) [
    | inl ok ↦ simp ok (unfold attempts_of in (refl, refl))
    | inr bad ↦ simp bad (refl, refl)
  ]

  concluded_keeps :
      (v : Bool) (k j : RollbackJournal) (s : RollbackEngine)
      → (attempts_of frida k (conclude frida v j s).1 ≡ attempts_of frida k s)
        × ((conclude frida v j s).1.max_rollback_attempts ≡ s.max_rollback_attempts)
  unfolding conclude attempts_of
  concluded_keeps v k j s =
      persist_keeps k (record j { verification_passed = some v })
        (remember (record j { verification_passed = some v }) s)

  -- What a finished call says of the journal `j` and of the engine that it began with.
  pub record IsHonest (j : RollbackJournal) (s : RollbackEngine) (r : Rolled frida) : Type 0 where
    pub read_back : r.success ≡ true → verify_rollback frida j r.memory ≡ true
    pub bounded :
        attempts_of frida j s ≤ s.max_rollback_attempts
        → attempts_of frida j r.engine ≤ s.max_rollback_attempts
    pub counted_up : attempts_of frida j s ≤ attempts_of frida j r.engine
    pub exhausted :
        r.success ≡ false
        → frida.write_available ≡ true
        → s.max_rollback_attempts ≤ attempts_of frida j r.engine

  -- A call answers, and honestly.
  abbrev Answers : RollbackJournal → RollbackEngine → Option (Rolled frida) → Type 0
  Answers j s o = (r : Rolled frida) × (o ≡ some r) × IsHonest j s r

  rollback_loop-Answers :
      (fuel : ℕ) (j : RollbackJournal) (s : RollbackEngine) (m : M)
      → 0 < fuel
      → s.max_rollback_attempts < attempts_of frida j s + fuel
      → Answers j s (rollback_loop frida fuel j s m)
  rollback_loop-Answers zero j s m pos enough = absurd (omega arith)
  rollback_loop-Answers (suc fuel) j s m pos enough =
      rollback_loop_cases frida fuel j s m (Answers j s)
        (λ why. (
          unchanged frida j s m,
          refl,
          record {
            read_back = λ e. absurd (cc);
            bounded = λ h. h;
            counted_up = omega arith;
            exhausted = λ e able. elim why [ inl full ↦ full | inr blocked ↦ absurd (cc) ];
          },
        ))
        (λ room back good. (
          concluded frida true j (counted frida j s) _,
          refl,
          record {
            read_back = λ e. good;
            bounded = λ h. omega (arith, kept true, attempts_of-counted frida j s);
            counted_up = omega (arith, kept true, attempts_of-counted frida j s);
            exhausted = λ e able. absurd (cc);
          },
        ))
        (λ more.
          let (r, eq, h) =
            rollback_loop-Answers fuel j (counted frida j s) (attempted frida fuel j s m).1
              (omega arith) (omega (arith, attempts_of-counted frida j s)) in
          (
            r,
            eq,
            record {
              read_back = h.read_back;
              bounded = λ _. h.bounded (omega (arith, attempts_of-counted frida j s));
              counted_up = omega (arith, h.counted_up, attempts_of-counted frida j s);
              exhausted = h.exhausted;
            },
          ))
        (λ room last. (
          concluded frida false j (counted frida j s) _,
          refl,
          record {
            read_back = λ e. absurd (cc);
            bounded = λ h. omega (arith, kept false, attempts_of-counted frida j s);
            counted_up = omega (arith, kept false, attempts_of-counted frida j s);
            exhausted = λ e able. omega (arith, kept false, attempts_of-counted frida j s);
          },
        ))
        (λ room last. (
          unchanged frida j (counted frida j s) _,
          refl,
          record {
            read_back = λ e. absurd (cc);
            bounded = λ h. omega (arith, attempts_of-counted frida j s);
            counted_up = omega (arith, attempts_of-counted frida j s);
            exhausted = λ e able. omega (arith, attempts_of-counted frida j s);
          },
        ))
    where
      kept :
          (v : Bool)
          → attempts_of frida j (conclude frida v j (counted frida j s)).1
            ≡ attempts_of frida j (counted frida j s)
      kept v = (concluded_keeps v j j (counted frida j s)).0

  pub rollback-IsHonest :
      (j : RollbackJournal) (s : RollbackEngine) (m : M) → Answers j s (rollback frida j s m)
  unfolding rollback
  rollback-IsHonest j s m =
      rollback_loop-Answers (suc s.max_rollback_attempts) j s m (omega arith) (omega arith)

  -- How a call answers: with memory that was read back, or having used up the attempts, unless
  -- memory cannot be written.
  abbrev pub Verdict : RollbackJournal → RollbackEngine → Rolled frida → Type 0
  Verdict j s r =
      ((r.success ≡ true) × (verify_rollback frida j r.memory ≡ true))
      ⊎ ((r.success ≡ false)
          × ((frida.write_available ≡ false)
              ⊎ (s.max_rollback_attempts ≤ attempts_of frida j r.engine)))

  -- If the attempts made for a journal are within the bound, then `rollback` ends: with success,
  -- and then the memory, read again, has the checksum of the journal, or without, and then all
  -- attempts are used up or memory cannot be written. The attempts are no fewer than before and
  -- still within the bound.
  pub rollback_ends :
      (j : RollbackJournal) (s : RollbackEngine) (m : M)
      → attempts_of frida j s ≤ s.max_rollback_attempts
      → (r : Rolled frida) × (rollback frida j s m ≡ some r)
        × Verdict j s r
        × (attempts_of frida j s ≤ attempts_of frida j r.engine)
        × (attempts_of frida j r.engine ≤ s.max_rollback_attempts)
  rollback_ends j s m within =
      let (r, eq, h) = rollback-IsHonest j s m in
      (
        r,
        eq,
        elim (Bool-cases r.success) [
          | inl good ↦ inl (good, h.read_back good)
          | inr bad ↦ inr (
            bad,
            elim (Bool-cases frida.write_available) [
              | inl able ↦ inr (h.exhausted bad able)
              | inr blocked ↦ inl blocked
            ],
          )
        ],
        h.counted_up,
        h.bounded within,
      )

hash_ne_empty : (t : String) → str_eq (calculate_fnv1a64 t) "" ≡ false
unfolding calculate_fnv1a64
hash_ne_empty t = elim (Bool-cases (str_eq (str_append "0x" (hex 16 (fnv_loop fnv_init t))) "")) [
  | inl e ↦ absurd (false≢true ((eq_iff "0x" "").1 (append-eq-nil_iff.0 ((eq_iff _ _).0 e)).0))
  | inr e ↦ e
]

module _ {M : Type 0} (frida : FridaMemory M) where
  -- What a journal that was made says of the region.
  record IsJournalOf (address size : ℕ) (m : M) (j : RollbackJournal) : Type 0 where
    readable : frida.read_available ≡ true
    bytes_read : frida.read m address size ≡ some j.original_bytes
    at_address : j.target_address ≡ address
    of_size : j.size ≡ size
    summed : j.checksum_before ≡ checksum frida j.original_bytes

  journal_before_shape :
      (address size : ℕ) (fix_id journal_id : String) (now : ℕ) (m : M) (s : RollbackEngine)
      {j : RollbackJournal} {s' : RollbackEngine}
      → journal_before frida address size fix_id journal_id now m s ≡ some (j, s')
      → IsJournalOf address size m j
  unfolding journal_before
  journal_before_shape address size fix_id journal_id now m s made = ground arith

  reads_back :
      (address size : ℕ) (m m' : M) (j : RollbackJournal)
      → IsJournalOf address size m j
      → frida.read m' address size ≡ some j.original_bytes
      → verify_rollback frida j m' ≡ true
  unfolding verify_rollback
  reads_back address size m m' j h reads = ground (
    arith,
    hash_ne_empty (frida.base64 j.original_bytes),
    eq_refl (calculate_fnv1a64 (frida.base64 j.original_bytes)),
  )

  -- A fix that is taken back from its journal. If the journal of a region was made, writing the
  -- region later returns and the region then reads as what was written, and an attempt is left,
  -- then `rollback` succeeds at its first attempt, and the region reads as it did for the journal.
  pub rollback-journal_before :
      (address size : ℕ) (fix_id journal_id : String) (now : ℕ) (m m' : M) (s : RollbackEngine)
      {j : RollbackJournal} {s' : RollbackEngine}
      → journal_before frida address size fix_id journal_id now m s ≡ some (j, s')
      → frida.write_available ≡ true
      → (frida.write m' address size j.original_bytes).0 ≡ true
      → frida.read (frida.write m' address size j.original_bytes).1 address size
        ≡ some j.original_bytes
      → attempts_of frida j s' < s'.max_rollback_attempts
      → (r : Rolled frida) × (rollback frida j s' m' ≡ some r)
        × (r.success ≡ true)
        × (frida.read r.memory address size ≡ frida.read m address size)
        × (attempts_of frida j r.engine ≡ attempts_of frida j s' + 1)
  rollback-journal_before address size fix_id journal_id now m m' s {j} {s'} made able wrote reads
        room =
      let shape = journal_before_shape address size fix_id journal_id now m s made in
      let m'' = frida.write m' j.target_address j.size j.original_bytes in
      let same : m'' ≡ frida.write m' address size j.original_bytes =
        ap₂ (λ a n. frida.write m' a n j.original_bytes) shape.at_address shape.of_size in
      let good =
        reads_back address size m m''.1 j shape
          (ap (λ w. frida.read w.1 address size) same ∙ reads) in
      (
        concluded frida true j (counted frida j s') m''.1,
        unfold rollback in
            rollback_loop_success frida s'.max_rollback_attempts j s' m' room able
              (ap (λ w. w.0) same ∙ wrote) good,
        refl,
        ap (λ w. frida.read w.1 address size) same ∙ reads ∙ sym shape.bytes_read,
        (concluded_keeps frida true j j (counted frida j s')).0 ∙ attempts_of-counted frida j s',
      )
