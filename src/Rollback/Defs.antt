-- ===== src/Rollback/Defs.antt =====
-- `RollbackEngineImpl`. Frida's `Memory`, Node's base64 and the disk are parameters; the time and
-- the generated id are arguments. A journal that is handed in is one that the engine made, so the
-- map of journals and the caller share it.
use frida_desktop.Prelude.{
  ℕ, zero, suc, ◌+◌, String, Bool, true, false, not, ◌&&◌, ◌||◌, Option, none, some, List, [], ◌∷◌,
  ltb, leb, if◌then◌else◌, str_eq, length, slice_last,
}
use frida_desktop.Prelude.Dict
use frida_desktop.Prelude.Dict.{Dict}
use frida_desktop.Types.{RollbackJournal}
use frida_desktop.Utils.{calculate_fnv1a64}

-- `read` is none where the call answers null or throws. `write` is the sequence protect, write,
-- protect, and says whether all three returned.
pub record FridaMemory (M : Type 0) : Type 0 where
  pub read_available : Bool
  pub write_available : Bool
  pub read : M → ℕ → ℕ → Option (List ℕ)
  pub write : M → ℕ → ℕ → List ℕ → Bool × M
  pub base64 : List ℕ → String

-- The file of journals, and whether writing it succeeds.
pub data JournalFile : Type 0 where
  missing unreadable : JournalFile
  stored : List RollbackJournal → JournalFile

pub record RollbackEngine : Type 0 where
  pub journals : Dict RollbackJournal
  pub rollback_attempts : Dict ℕ
  pub max_journal_size : ℕ
  pub max_rollback_attempts : ℕ
  pub file : JournalFile
  pub disk_ok : Bool

-- `findIndex`, then the write at the index or the push.
unfoldable pub put_journal : RollbackJournal → List RollbackJournal → List RollbackJournal
put_journal j [] = j ∷ []
put_journal j (k ∷ ks) = if str_eq k.journal_id j.journal_id then j ∷ ks else k ∷ put_journal j ks

unfoldable pub trim_journals : ℕ → List RollbackJournal → List RollbackJournal
trim_journals n js = if ltb n (length js) then slice_last n js else js

unfoldable pub persisted_file : ℕ → RollbackJournal → JournalFile → JournalFile
unfolding put_journal trim_journals
persisted_file n j missing = stored (trim_journals n (put_journal j []))
persisted_file n j unreadable = unreadable
persisted_file n j (stored js) = stored (trim_journals n (put_journal j js))

unfoldable pub persist_journal : RollbackJournal → RollbackEngine → RollbackEngine
unfolding persisted_file
persist_journal j s =
    if s.disk_ok then record s { file = persisted_file s.max_journal_size j s.file } else s

abbrev pub remember : RollbackJournal → RollbackEngine → RollbackEngine
remember j s = record s { journals = Dict.set j.journal_id j s.journals }

-- An assignment to a field of a journal that the map holds.
unfoldable pub mutate : RollbackJournal → RollbackEngine → RollbackEngine
mutate j s = elim (Dict.get j.journal_id s.journals) [ none ↦ s | some k ↦ remember j s ]

abbrev pub or_zero : Option ℕ → ℕ
or_zero none = 0
or_zero (some n) = n

module _ {M : Type 0} (frida : FridaMemory M) where
  unfoldable pub checksum : List ℕ → String
  checksum bytes = calculate_fnv1a64 (frida.base64 bytes)

  -- `none` is an exception.
  unfoldable pub journal_before :
      ℕ → ℕ → String → String → ℕ → M → RollbackEngine → Option (RollbackJournal × RollbackEngine)
  unfolding checksum persist_journal
  journal_before address size fix_id journal_id now memory s =
      if frida.read_available
      then elim (frida.read memory address size) [
        | none ↦ none
        | some bytes ↦
            let j : RollbackJournal = record {
              journal_id = journal_id;
              timestamp = now;
              fix_id = fix_id;
              original_bytes = bytes;
              target_address = address;
              size = size;
              checksum_before = checksum bytes;
              checksum_after = none;
              verification_passed = none;
            } in
            some (j, persist_journal j (remember j s))
      ]
      else none

  unfoldable pub verify_rollback : RollbackJournal → M → Bool
  unfolding checksum
  verify_rollback j memory =
      frida.read_available && elim (frida.read memory j.target_address j.size) [
        | none ↦ false
        | some bytes ↦
            not (str_eq j.checksum_before "") && str_eq (checksum bytes) j.checksum_before
      ]

  unfoldable pub attempts_of : RollbackJournal → RollbackEngine → ℕ
  attempts_of j s = or_zero (Dict.get j.journal_id s.rollback_attempts)

  -- The end of an attempt that did not throw and is not retried.
  unfoldable pub conclude :
      Bool → RollbackJournal → RollbackEngine → RollbackJournal × RollbackEngine
  unfolding persist_journal
  conclude success j s =
      let j' = record j { verification_passed = some success } in
      (j', persist_journal j' (remember j' s))

  pub record Rolled : Type 0 where
    pub success : Bool
    pub journal : RollbackJournal
    pub engine : RollbackEngine
    pub memory : M

  -- An attempt by its outcome: `returned`, whether the writes returned, and `retry`, whether
  -- another attempt is left. `again` is the recursive call.
  abbrev pub settle :
      Bool → Bool → RollbackJournal → RollbackEngine → M → Option Rolled → Option Rolled
  settle returned retry j s memory again =
      let verified = returned && verify_rollback j memory in
      let done : Rolled =
        let (j', s') = conclude verified j s in
        record { success = verified; journal = j'; engine = s'; memory = memory } in
      let gave_up : Rolled = record { success = false; journal = j; engine = s; memory = memory } in
      if not verified && retry then again else if returned then some done else some gave_up

  -- `rollback` with fuel for its retries; `none` says that the fuel ran out.
  unfoldable pub rollback_loop : ℕ → RollbackJournal → RollbackEngine → M → Option Rolled
  rollback_loop zero j s memory = none
  rollback_loop (suc fuel) j s memory =
      let attempts = attempts_of j s in
      let refused : Rolled = record { success = false; journal = j; engine = s; memory = memory } in
      let s' = record s {
        rollback_attempts = Dict.set j.journal_id (attempts + 1) s.rollback_attempts;
      } in
      let (returned, memory') = frida.write memory j.target_address j.size j.original_bytes in
      let again = rollback_loop fuel j s' memory' in
      if leb s.max_rollback_attempts attempts
      then some refused
      else if not frida.write_available
      then some refused
      else settle returned (ltb (attempts + 1) s.max_rollback_attempts) j s' memory' again

  unfoldable pub rollback : RollbackJournal → RollbackEngine → M → Option Rolled
  unfolding rollback_loop
  rollback j s memory = rollback_loop (suc s.max_rollback_attempts) j s memory

-- The fields that `commitFix` assigns.
abbrev pub committed : RollbackJournal → String → Bool → RollbackJournal
committed j checksum_after passed = record j {
  checksum_after = some checksum_after;
  verification_passed = some passed;
}

unfoldable pub commit_fix : RollbackJournal → String → RollbackEngine → Bool × RollbackEngine
commit_fix j after s =
    if str_eq j.checksum_before "" || str_eq j.checksum_before after
    then (false, persist_journal (committed j after false) (mutate (committed j after false) s))
    else (true, persist_journal (committed j after true) (remember (committed j after true) s))
