-- ===== src/Connector/Registry.antt =====
-- server/internal/modules/connector/registry.go: Registry.
pub mod Laws
use record_hub.Base.{
  Text, text_eq, ℤ, int_eq, pos, inc64, Bool, true, false, not, ◌&&◌, ◌||◌, ◌==◌, ◌!=◌, List, ◌∷◌,
  Option, none, some, Result, ok, err, ◌>>=◌, ◌>>◌, reject_if, if◌then◌else◌,
}
use record_hub.Base.Map.{lookup, insert}
use record_hub.Connector.Names.{Error, Version, parse_version, version_before}
use record_hub.Connector.Manifest.{
  Status, status_eq, Key, key_eq, Manifest, normal_key, normal_manifest,
}

abbrev pub Registered : Type 0
Registered = List (Key × Manifest)

module _ (lower_unicode : Text → Text) where
  -- What is stored of a normal manifest.
  abbrev pub drafted : Manifest → Manifest
  drafted m = record m {
    status = Status.draft;
    revision = if m.revision == pos 0 then pos 1 else m.revision;
  }

  unfoldable pub register : Manifest → Registered → Result Error Registered
  register raw entries = do
    m ← normal_manifest lower_unicode raw
    elim (lookup m.key entries) [
      | some _ ↦ err Error.exists
      | none ↦ ok (insert m.key (drafted m) entries)
    ]

  -- `Find`
  unfoldable pub find : Key → Registered → Result Error Manifest
  find key entries = do
    k ← normal_key lower_unicode key
    elim (lookup k entries) [ none ↦ err Error.not_found | some m ↦ ok m ]

  -- A version outside the window; one that does not parse is the zero version.
  abbrev zero_version : Version
  zero_version = record { major = 0; minor = 0; patch = 0 }

  abbrev pub or_zero : Result Error Version → Version
  or_zero (ok v) = v
  or_zero (err e) = zero_version

  unfoldable pub in_window : Version → Manifest → Bool
  in_window v m =
      not (version_before v (or_zero (parse_version m.compatibility_min)))
      && not (version_before (or_zero (parse_version m.compatibility_max)) v)

  abbrev pub or_incompatible : Result Error Version → Result Error Version
  or_incompatible (ok v) = ok v
  or_incompatible (err e) = err Error.sdk_incompatible

  unfoldable pub resolve : Key → Text → Registered → Result Error Manifest
  unfolding in_window
  resolve key sdk entries = do
    m ← find key entries
    reject_if (m.status != Status.enabled) Error.unavailable
    client ← or_incompatible (parse_version sdk)
    reject_if (not (in_window client m)) Error.sdk_incompatible
    ok m

  abbrev pub moved : Status → Manifest → Manifest
  moved status m = record m { status = status; revision = inc64 m.revision }

  unfoldable pub transition : Key → Status → ℤ → Registered → Result Error (Manifest × Registered)
  transition key status expected entries = do
    reject_if (status != Status.enabled && status != Status.disabled && status != Status.deprecated)
        Error.invalid_manifest
    k ← normal_key lower_unicode key
    elim (lookup k entries) [
      | none ↦ err Error.not_found
      | some m ↦
          reject_if (m.revision != expected) Error.revision_conflict
          >> ok (moved status m, insert k (moved status m) entries)
    ]
