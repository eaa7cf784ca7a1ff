-- ===== src/Connector/Registry/Laws.antt =====
-- What Resolve answers, and that a transition is checked against the revision.
use record_hub.Base.{
  Text, text_eq, ℤ, int_eq, true, false, not, ◌==◌, ◌!=◌, ◌&&◌, some, Result, ok, err, reject_if,
  if◌then◌else◌, ◌≡◌, refl, sym, ◌↔◌, ◌⊎◌, inl, inr, ◌≤◌, ◌<◌, ℕ_discrete, nat_eq, inc64,
  Result-cases, arith, >>=-eq-ok, Option-cases,
}
use record_hub.Base.Map.{lookup, insert, lookup-insert}
use record_hub.Connector.Names.{Error, Version, parse_version, version_before}
use record_hub.Connector.Manifest.{Status, status_eq, Key, key_eq, Manifest, normal_key}
use record_hub.Connector.Registry.{
  Registered, find, or_zero, in_window, or_incompatible, resolve, moved, transition,
}

-- The one version is not above the other.
abbrev pub AtMost : Version → Version → Type 0
AtMost v w =
    (v.major < w.major)
    ⊎ ((v.major ≡ w.major) × ((v.minor < w.minor) ⊎ ((v.minor ≡ w.minor) × (v.patch ≤ w.patch))))

-- The version that a bound says; one that does not parse says 0.0.0.
abbrev pub Bounds : Text → Version → Type 0
Bounds text v =
    (parse_version text ≡ ok v)
    ⊎ (((e : Error) × (parse_version text ≡ err e))
        × (v ≡ record { major = 0; minor = 0; patch = 0 }))

-- The SDK version lies between the bounds of the manifest, which belong to it.
abbrev pub Fits : Manifest → Version → Type 0
Fits m v =
    (low high : Version) × Bounds m.compatibility_min low
    × Bounds m.compatibility_max high
    × AtMost low v
    × AtMost v high

before-AtMost : (v w : Version) → version_before v w ≡ false → AtMost w v
unfolding version_before
before-AtMost v w h = elim (ℕ_discrete v.major w.major) [
  | no apart ↦ inl (ground arith)
  | yes major ↦ elim (ℕ_discrete v.minor w.minor) [
    | no apart ↦ inr (ground arith, inl (ground arith))
    | yes minor ↦ inr (ground arith, inr (ground arith, ground arith))
  ]
]

AtMost-before : (v w : Version) → AtMost w v → version_before v w ≡ false
unfolding version_before
AtMost-before v w (inl above) = ground arith
AtMost-before v w (inr (major, inl above)) = ground arith
AtMost-before v w (inr (major, inr (minor, above))) = ground arith

module _ (lower_unicode : Text → Text) where
  or_zero-Bounds : (text : Text) → Bounds text (or_zero lower_unicode (parse_version text))
  or_zero-Bounds text = elim (Result-cases (parse_version text)) [
    | inl (v, reads) ↦ rw reads (inl refl)
    | inr (e, fails) ↦ rw fails (inr ((e, refl), refl))
  ]

  Bounds-or_zero :
      (text : Text) (v : Version) → Bounds text v → or_zero lower_unicode (parse_version text) ≡ v
  Bounds-or_zero text v (inl reads) = rw reads refl
  Bounds-or_zero text v (inr ((e, fails), zero)) = rw fails (sym zero)

  in_window-Fits : (v : Version) (m : Manifest) → (in_window lower_unicode v m ≡ true) ↔ Fits m v
  unfolding in_window
  in_window-Fits v m = (forward, backward)
    where
      low : Version
      low = or_zero lower_unicode (parse_version m.compatibility_min)

      high : Version
      high = or_zero lower_unicode (parse_version m.compatibility_max)

      forward : in_window lower_unicode v m ≡ true → Fits m v
      forward h = (
        low,
        high,
        or_zero-Bounds m.compatibility_min,
        or_zero-Bounds m.compatibility_max,
        before-AtMost v low (ground arith),
        before-AtMost high v (ground arith),
      )

      backward : Fits m v → in_window lower_unicode v m ≡ true
      backward (l, u, is_low, is_high, above, below) =
          rw
            (
              Bounds-or_zero m.compatibility_min l is_low,
              Bounds-or_zero m.compatibility_max u is_high,
            )
            (rw (AtMost-before v l above, AtMost-before u v below) refl)

  -- The key is well formed, the manifest is registered under its normal form and is enabled, and the
  -- SDK version parses and lies in the window.
  abbrev pub Resolves : Key → Text → Registered → Manifest → Type 0
  Resolves key sdk entries m =
      (k : Key) × (normal_key lower_unicode key ≡ ok k)
      × (lookup k entries ≡ some m)
      × (m.status ≡ Status.enabled)
      × ((v : Version) × (parse_version sdk ≡ ok v) × Fits m v)

  or_incompatible_lem :
      (x : Result Error Version) (v : Version) → or_incompatible lower_unicode x ≡ ok v → x ≡ ok v
  or_incompatible_lem (ok w) v h = h
  or_incompatible_lem (err e) v h = absurd (ground arith)

  find-ok :
      (key : Key) (entries : Registered) (m : Manifest)
      → find lower_unicode key entries ≡ ok m
      → (k : Key) × (normal_key lower_unicode key ≡ ok k) × (lookup k entries ≡ some m)
  unfolding find
  find-ok key entries m h =
      let (k, good, rest) = >>=-eq-ok (normal_key lower_unicode key) _ h in
      elim (Option-cases (lookup k entries)) [
        | inl nothing ↦ absurd (ground arith)
        | inr (n, there) ↦ (k, good, ground arith)
      ]

  resolve-Resolves :
      (key : Key) (sdk : Text) (entries : Registered) (m : Manifest)
      → resolve lower_unicode key sdk entries ≡ ok m
      → Resolves key sdk entries m
  unfolding resolve
  resolve-Resolves key sdk entries m h =
      let (n, found, h1) = >>=-eq-ok (find lower_unicode key entries) _ h in
      let (u, on, h2) = >>=-eq-ok (reject_if (n.status != Status.enabled) Error.unavailable) _ h1 in
      let (v, parsed, h3) = >>=-eq-ok (or_incompatible lower_unicode (parse_version sdk)) _ h2 in
      let (u', fits, h4) =
        >>=-eq-ok (reject_if (not (in_window lower_unicode v n)) Error.sdk_incompatible) _ h3 in
      let same : n ≡ m = cc in
      let (k, good, there) = find-ok key entries n found in
      (
        k,
        good,
        ground arith,
        ground arith,
        (
          v,
          or_incompatible_lem (parse_version sdk) v parsed,
          (in_window-Fits v m).0 (ground arith),
        ),
      )

  Resolves-resolve :
      (key : Key) (sdk : Text) (entries : Registered) (m : Manifest)
      → Resolves key sdk entries m
      → resolve lower_unicode key sdk entries ≡ ok m
  unfolding resolve find
  Resolves-resolve key sdk entries m (k, good, there, on, (v, parsed, between)) =
      let fits = (in_window-Fits v m).1 between in
      let found : find lower_unicode key entries ≡ ok m = ground (arith, good, there) in
      let version : or_incompatible lower_unicode (parse_version sdk) ≡ ok v = rw parsed refl in
      ground (arith, found, version, on, fits)

  -- Resolve answers with a manifest exactly if the key is well formed, the manifest is registered
  -- under its normal form and is enabled, and the SDK version parses and lies between the two bounds, themselves included, by major, minor and
  -- patch; a bound that does not parse counts as 0.0.0.
  pub resolve_exact :
      (key : Key) (sdk : Text) (entries : Registered) (m : Manifest)
      → (resolve lower_unicode key sdk entries ≡ ok m) ↔ Resolves key sdk entries m
  resolve_exact key sdk entries m =
      (resolve-Resolves key sdk entries m, Resolves-resolve key sdk entries m)

  -- A transition that succeeds goes to enabled, disabled or deprecated and found the manifest at the
  -- revision that was expected; it answers with that manifest with the new status and the next
  -- revision (int64), stores it, and leaves every other key as it was.
  pub transition_checked :
      (key : Key) (s : Status) (expected : ℤ) (entries entries' : Registered) (m : Manifest)
      → transition lower_unicode key s expected entries ≡ ok (m, entries')
      → (k : Key) × (was : Manifest) × (normal_key lower_unicode key ≡ ok k)
        × (lookup k entries ≡ some was)
        × (was.revision ≡ expected)
        × ((s ≡ Status.enabled) ⊎ (s ≡ Status.disabled) ⊎ (s ≡ Status.deprecated))
        × (m ≡ record was { status = s; revision = inc64 was.revision })
        × ((j : Key) → lookup j entries' ≡ (if k == j then some m else lookup j entries))
  unfolding transition
  transition_checked key s expected entries entries' m h =
      let (u, known, h1) =
        >>=-eq-ok
          (reject_if (s != Status.enabled && s != Status.disabled && s != Status.deprecated)
            Error.invalid_manifest)
          _ h in
      let (k, good, h2) = >>=-eq-ok (normal_key lower_unicode key) _ h1 in
      elim (Option-cases (lookup k entries)) [
        | inl nothing ↦ absurd (ground arith)
        | inr (was, there) ↦
            let (u', same, h3) =
              >>=-eq-ok (reject_if (was.revision != expected) Error.revision_conflict) _
                (rw there at h2) in
            let put : insert k (moved lower_unicode s was) entries ≡ entries' = cc in
            let new : moved lower_unicode s was ≡ m = cc in
            (
              k,
              was,
              good,
              there,
              ground arith,
              ground arith,
              sym new,
              λ j. ground (arith, put, new, lookup-insert k j (moved lower_unicode s was) entries),
            )
      ]
