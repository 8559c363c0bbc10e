-- ===== src/Versions/Defs.antt =====
-- `Versioning` of modules/runtime-learning-engine/versioning.ts. The time is an argument. `show` is the
-- text of a number, and `parts` what splitting at the dots and `parseInt` make of a text, none for
-- NaN.
use frida_desktop.Prelude.{
  ℕ, ◌+◌, String, str_append, Bool, true, false, not, ◌&&◌, ◌||◌, Option, none, some, List, [], ◌∷◌,
  ◌++◌, ltb, ◌==◌, if◌then◌else◌, filter, reverse,
}

pub record Version : Type 0 where
  pub major : ℕ
  pub minor : ℕ
  pub patch : ℕ

pub data ChangeType : Type 0 where
  feature fix improvement breaking security : ChangeType

pub record ChangelogEntry : Type 0 where
  pub version : String
  pub timestamp : ℕ
  pub kind : ChangeType
  pub title : String
  pub description : String
  pub breaking_changes : Option (List String)
  pub migration_guide : Option String

pub record VersionMetadata : Type 0 where
  pub current : Version
  pub schema_version : ℕ
  pub changelog : List ChangelogEntry
  pub last_upgraded : ℕ

-- The metadata file: not there, no valid metadata, or metadata.
pub data MetadataFile : Type 0 where
  absent : MetadataFile
  invalid : String → MetadataFile
  saved : VersionMetadata → MetadataFile

-- `quarantined` are the texts that were set aside; `disk_ok` says whether the disk takes writes.
pub record Versioning : Type 0 where
  pub metadata : VersionMetadata
  pub file : MetadataFile
  pub quarantined : List String
  pub disk_ok : Bool

unfoldable default_metadata : ℕ → VersionMetadata
default_metadata now = record {
  current = record { major = 1; minor = 0; patch = 0 };
  schema_version = 1;
  changelog = [];
  last_upgraded = now;
}

unfoldable pub save_metadata : Versioning → Versioning
save_metadata s = if s.disk_ok then record s { file = saved s.metadata } else s

-- A rename that fails leaves the file.
unfoldable quarantine_invalid_metadata : String → Versioning → Versioning
quarantine_invalid_metadata content s =
    if s.disk_ok then record s { file = absent; quarantined = s.quarantined ++ content ∷ [] } else s

abbrev load_from : ℕ → MetadataFile → Versioning → Versioning
load_from now absent s = save_metadata (record s { metadata = default_metadata now })
load_from now (invalid content) s = record (quarantine_invalid_metadata content s) {
  metadata = default_metadata now;
}
load_from now (saved m) s = record s { metadata = m }

unfoldable load_metadata : ℕ → Versioning → Versioning
unfolding default_metadata save_metadata quarantine_invalid_metadata
load_metadata now s = load_from now s.file s

abbrev pub bump : ChangeType → Version → Version
bump breaking v = record { major = v.major + 1; minor = 0; patch = 0 }
bump feature v = record v { minor = v.minor + 1; patch = 0 }
bump _ v = record v { patch = v.patch + 1 }

abbrev is_breaking : ChangeType → Bool
is_breaking breaking = true
is_breaking _ = false

-- The test of `getChangelogSince`.
unfoldable pub is_newer : Version → Version → Bool
is_newer v w =
    ltb w.major v.major
    || (v.major == w.major && ltb w.minor v.minor)
    || (v.major == w.major && v.minor == w.minor && ltb w.patch v.patch)

unfoldable is_compatible : Version → VersionMetadata → Bool
is_compatible other m = m.current.major == other.major

unfoldable get_full_changelog : VersionMetadata → List ChangelogEntry
get_full_changelog m = reverse m.changelog

-- Whether the migration is accepted.
unfoldable migrate_schema : ℕ → ℕ → Versioning → Bool × Versioning
migrate_schema old new s =
    if old == new
    then (true, s)
    else if ltb new old
    then (false, s)
    else (true, save_metadata (record s { metadata = record s.metadata { schema_version = new } }))

module _ (show : ℕ → String) (parts : String → List (Option ℕ)) where
  unfoldable pub version_string : Version → String
  version_string v =
      str_append (show v.major)
        (str_append "." (str_append (show v.minor) (str_append "." (show v.patch))))

  abbrev part : List (Option ℕ) → ℕ
  part (some n ∷ ns) = n
  part _ = 0

  abbrev rest : List (Option ℕ) → List (Option ℕ)
  rest [] = []
  rest (n ∷ ns) = ns

  abbrev version_of : List (Option ℕ) → Version
  version_of ns = record { major = part ns; minor = part (rest ns); patch = part (rest (rest ns)) }

  unfoldable pub parse_version : String → Version
  parse_version s = version_of (parts s)

  unfoldable pub entry_of :
      ℕ
      → ChangeType
      → String
      → String
      → Option (List String)
      → Option String
      → Version
      → ChangelogEntry
  unfolding version_string
  entry_of now kind title description breaks guide v = record {
    version = version_string v;
    timestamp = now;
    kind = kind;
    title = title;
    description = description;
    breaking_changes = breaks;
    migration_guide = guide;
  }

  unfoldable pub record_upgrade :
      ℕ
      → ChangeType
      → String
      → String
      → Option (List String)
      → Option String
      → Versioning
      → Version × Versioning
  unfolding entry_of save_metadata
  record_upgrade now kind title description breaks guide s =
      let v = bump kind s.metadata.current in
      (
        v,
        save_metadata (record s {
          metadata = record s.metadata {
            current = v;
            changelog =
                s.metadata.changelog ++ entry_of now kind title description breaks guide v ∷ [];
            last_upgraded = now;
          };
        }),
      )

  unfoldable pub get_changelog_since : Version → VersionMetadata → List ChangelogEntry
  unfolding is_newer parse_version
  get_changelog_since v m = filter (λ e. is_newer (parse_version e.version) v) m.changelog

  abbrev given : Option (List String) → List String
  given none = []
  given (some xs) = xs

  abbrev all_breaking : List ChangelogEntry → List String
  all_breaking [] = []
  all_breaking (e ∷ es) = given e.breaking_changes ++ all_breaking es

  abbrev first_guide : List ChangelogEntry → Option String
  first_guide [] = none
  first_guide (e ∷ es) = e.migration_guide

  -- Whether it is safe, what breaks, and the first guide.
  unfoldable is_safe_upgrade :
      Version → Version → VersionMetadata → Bool × List String × Option String
  unfolding parse_version
  is_safe_upgrade from to m =
      let found =
        filter
          (λ e.
            ltb from.major (parse_version e.version).major
            && not (ltb to.major (parse_version e.version).major)
            && is_breaking e.kind)
          m.changelog in
      if ltb from.major to.major
      then (false, all_breaking found, first_guide found)
      else (true, [], none)
