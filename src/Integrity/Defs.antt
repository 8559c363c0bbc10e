-- ===== src/Integrity/Defs.antt =====
-- `IntegrityVerifier` of modules/runtime-learning-engine/integrity-verifier.ts. The time is an argument; `hash`
-- is SHA-256 in hexadecimal, and `parses` says whether JSON.parse takes a text.
use Prim.Native.Char.{code}
use Prim.Native.String.{String}
use frida_desktop.Prelude.{
  ℕ, str_eq, Bool, true, false, ◌&&◌, ◌||◌, Option, none, some, List, [], ◌∷◌, ◌++◌, leb, ◌==◌,
  if◌then◌else◌, filter, every, length, map, slice_last, last?,
}
use frida_desktop.Safety.Corruption.{text_length}

pub data CheckStatus : Type 0 where
  valid invalid missing : CheckStatus

-- Without `hash_algorithm`, which is always sha256.
pub record IntegrityCheck : Type 0 where
  pub timestamp : ℕ
  pub file : String
  pub hash : String
  pub size : ℕ
  pub status : CheckStatus
  pub error : Option String

pub record IntegrityReport : Type 0 where
  pub timestamp : ℕ
  pub total_checks : ℕ
  pub valid : ℕ
  pub invalid : ℕ
  pub missing : ℕ
  pub checks : List IntegrityCheck

-- A file of the storage: not there, not to be read for the error that is named, or its text.
pub data Content : Type 0 where
  absent : Content
  locked : String → Content
  text : String → Content

-- The file integrity-checks.json: not there, not to be read or no JSON, or the reports.
pub data ReportsFile : Type 0 where
  none_yet broken : ReportsFile
  saved : List IntegrityReport → ReportsFile

pub record Verifier : Type 0 where
  pub files : String → Content
  pub reports : ReportsFile
  pub disk_ok : Bool

pub record ChecksumComparison : Type 0 where
  pub matches : Bool
  pub actual : String
  pub error : Option String

abbrev files_to_monitor : List String
files_to_monitor =
    "bug-history.json" ∷ "rollback-journal.json" ∷ "watchdog-events.json" ∷ "audit.log"
    ∷ "provenance.json" ∷ "receipts.json" ∷ []

abbrev pub same_status : CheckStatus → CheckStatus → Bool
same_status valid valid = true
same_status invalid invalid = true
same_status missing missing = true
same_status _ _ = false

-- What `trim` takes away.
abbrev is_space : ℕ → Bool
is_space c =
    leb 9 c && leb c 13
    || c == 32
    || c == 160
    || c == 5760
    || leb 8192 c && leb c 8202
    || c == 8232
    || c == 8233
    || c == 8239
    || c == 8287
    || c == 12288
    || c == 65279

abbrev is_blank : String → Bool
is_blank String.[] = true
is_blank (String.◌∷◌ c s) = is_space (code c) && is_blank s

abbrev on_first : (String → String) → List String → List String
on_first g [] = g "" ∷ []
on_first g (l ∷ ls) = g l ∷ ls

-- `data.split('\n')`
abbrev lines : String → List String
lines String.[] = "" ∷ []
lines (String.◌∷◌ c s) =
    let rest = lines s in if code c == 10 then "" ∷ rest else on_first (λ l. String.◌∷◌ c l) rest

module _ (hash : String → String) (parses : String → Bool) where
  -- Only audit.log has the ending of a log among the files that are checked.
  abbrev validate_file_format : String → String → Bool
  validate_file_format name s =
      if str_eq name "audit.log" then every (λ l. is_blank l || parses l) (lines s) else parses s

  abbrev check_content : ℕ → String → Content → IntegrityCheck
  check_content now name absent = record {
    timestamp = now;
    file = name;
    hash = "";
    size = 0;
    status = missing;
    error = none;
  }
  check_content now name (locked e) = record {
    timestamp = now;
    file = name;
    hash = "";
    size = 0;
    status = invalid;
    error = some e;
  }
  check_content now name (text s) =
      let ok = validate_file_format name s in
      record {
        timestamp = now;
        file = name;
        hash = hash s;
        size = text_length s;
        status = if ok then valid else invalid;
        error = if ok then none else some "File format validation failed";
      }

abbrev pub with_status_of : CheckStatus → List IntegrityCheck → ℕ
with_status_of x cs = length (filter (λ c. same_status c.status x) cs)

abbrev pub report_on : ℕ → List IntegrityCheck → IntegrityReport
report_on now cs = record {
  timestamp = now;
  total_checks = length cs;
  valid = with_status_of valid cs;
  invalid = with_status_of invalid cs;
  missing = with_status_of missing cs;
  checks = cs;
}

abbrev pub existing_reports : ReportsFile → List IntegrityReport
existing_reports (saved rs) = rs
existing_reports _ = []

-- The last hundred reports are kept.
unfoldable pub save_report : IntegrityReport → Verifier → Verifier
save_report r s = record s {
  reports =
      if s.disk_ok
      then saved (slice_last 100 (existing_reports s.reports ++ r ∷ []))
      else s.reports;
}

unfoldable pub verify_integrity :
    (String → String) → (String → Bool) → ℕ → Verifier → IntegrityReport × Verifier
unfolding save_report
verify_integrity hash parses now s =
    let cs = map (λ n. check_content hash parses now n (s.files n)) files_to_monitor in
    (report_on now cs, save_report (report_on now cs) s)

unfoldable pub get_latest_report : Verifier → Option IntegrityReport
get_latest_report s = last? (existing_reports s.reports)

abbrev compare_content : (String → String) → String → Content → ChecksumComparison
compare_content hash expected absent = record {
  matches = false;
  actual = "";
  error = some "File not found";
}
compare_content hash expected (locked e) = record { matches = false; actual = ""; error = some e }
compare_content hash expected (text s) = record {
  matches = str_eq (hash s) expected;
  actual = hash s;
  error = none;
}

unfoldable pub compare_checksums :
    (String → String) → String → String → Verifier → ChecksumComparison
compare_checksums hash name expected s = compare_content hash expected (s.files name)

-- The checks of the second report that fail where those of the first at their place did not, which the
-- monitoring reports.
unfoldable pub new_invalid : List IntegrityCheck → List IntegrityCheck → List IntegrityCheck
new_invalid [] cs = []
new_invalid (b ∷ bs) [] = []
new_invalid (b ∷ bs) (c ∷ cs) =
    let rest = new_invalid bs cs in
    if same_status c.status invalid && same_status b.status valid then c ∷ rest else rest
