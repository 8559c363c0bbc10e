-- ===== src/Versions/Changelog.antt =====
-- The upgrades of versioning.ts and what the changelog tells of them.
use mathlib.Core.Path.{subst}
use frida_desktop.Prelude.{
  ℕ, String, ◌≡◌, refl, sym, ap, ◌∙◌, true, false, Option, List, [], ◌∷◌, ◌++◌, All, All-append,
  filter, Bool-cases, inl, inr, arith,
}
use frida_desktop.Versions.Defs.{
  Version, ChangeType, feature, fix, improvement, breaking, security, ChangelogEntry,
  VersionMetadata, Versioning, bump, is_newer, version_string, parse_version, entry_of,
  record_upgrade, save_metadata, get_changelog_since,
}

bump_newer : (k : ChangeType) (v : Version) → is_newer (bump k v) v ≡ true
unfolding is_newer
bump_newer feature v = ground arith
bump_newer fix v = ground arith
bump_newer improvement v = ground arith
bump_newer breaking v = ground arith
bump_newer security v = ground arith

older_kept : (x v w : Version) → is_newer x v ≡ false → is_newer w v ≡ true → is_newer x w ≡ false
unfolding is_newer
older_kept x v w h k = ground arith

newer_irrefl : (v : Version) → is_newer v v ≡ false
unfolding is_newer
newer_irrefl v = ground arith

save-metadata : (s : Versioning) → (save_metadata s).metadata ≡ s.metadata
unfolding save_metadata
save-metadata s = elim (Bool-cases s.disk_ok) [ inl e ↦ simp e refl | inr e ↦ simp e refl ]

module _ (show : ℕ → String) (parts : String → List (Option ℕ)) where
  -- The entry is of a version that is not newer than `v`.
  abbrev IsUpTo : Version → ChangelogEntry → Type 0
  IsUpTo v e = is_newer (parse_version show parts e.version) v ≡ false

  kept-IsUpTo :
      (v w : Version) (es : List ChangelogEntry)
      → is_newer w v ≡ true
      → All (IsUpTo v) es
      → All (IsUpTo w) es
  kept-IsUpTo v w [] h k = tt
  kept-IsUpTo v w (e ∷ es) h k =
      (older_kept (parse_version show parts e.version) v w k.0 h, kept-IsUpTo v w es h k.1)

  since_last :
      (v : Version) (es : List ChangelogEntry) (e : ChangelogEntry)
      → All (IsUpTo v) es
      → is_newer (parse_version show parts e.version) v ≡ true
      → filter (λ x. is_newer (parse_version show parts x.version) v) (es ++ e ∷ []) ≡ e ∷ []
  since_last v [] e h k = simp k refl
  since_last v (d ∷ es) e h k = simp (h.0) (since_last v es e h.1 k)

  -- What an upgrade leaves: a newer version, of which the changelog since the old one holds the
  -- one new entry, and no entry is of a version newer than the current one.
  pub record IsUpgraded (old : VersionMetadata) (new : VersionMetadata) : Type 0 where
    pub newer : is_newer new.current old.current ≡ true
    pub since :
        (e : ChangelogEntry) × (get_changelog_since show parts old.current new ≡ e ∷ [])
        × (parse_version show parts e.version ≡ new.current)
    pub up_to : All (IsUpTo new.current) new.changelog

  -- Where the text of the new version is read back as that version and no entry of the changelog
  -- is newer than the current version, recording an upgrade of any kind makes the version newer,
  -- the changelog since the old version is the new entry alone, with the new version, and again no
  -- entry is newer than the current version.
  pub record_upgrade-IsUpgraded :
      (now : ℕ) (kind : ChangeType) (title description : String) (breaks : Option (List String))
      (guide : Option String) (s : Versioning)
      → parse_version show parts (version_string show parts (bump kind s.metadata.current))
        ≡ bump kind s.metadata.current
      → All (IsUpTo s.metadata.current) s.metadata.changelog
      → IsUpgraded s.metadata
          (record_upgrade show parts now kind title description breaks guide s).1.metadata
  unfolding record_upgrade get_changelog_since entry_of
  record_upgrade-IsUpgraded now kind title description breaks guide s read old =
      let v = s.metadata.current in
      let w = bump kind v in
      let e = entry_of show parts now kind title description breaks guide w in
      let newer = bump_newer kind v in
      let fresh : is_newer (parse_version show parts e.version) v ≡ true =
        ap (λ x. is_newer x v) read ∙ newer in
      subst (IsUpgraded s.metadata) (sym (save-metadata _)) (record {
        newer = newer;
        since = (e, since_last v s.metadata.changelog e old fresh, read);
        up_to =
            All-append (IsUpTo w) s.metadata.changelog (e ∷ [])
              (kept-IsUpTo v w s.metadata.changelog newer old)
              (ap (λ x. is_newer x w) read ∙ newer_irrefl w, tt);
      })
