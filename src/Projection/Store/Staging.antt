-- ===== src/Projection/Store/Staging.antt =====
-- Replay into a staging collection: the newest version of each record wins, in whatever order the
-- events come.
use record_hub.Base.{
  Text, text_eq, Bool, true, false, List, [], ◌∷◌, ◌==◌, Option, none, some, Bool-cases, ok-path,
  Result, ok, err, >>=-eq-ok, ◌>>=◌, if◌then◌else◌, ℤ, leb_ℤ, ◌≤ℤ◌, ◌≡◌, inl, inr, refl, sym, arith,
}
use mathlib.Core.Path.{subst}
use record_hub.Database.{Found-cases}
use record_hub.Records.Model.{Record}
use record_hub.Projection.Store.{
  Stores, ProjectionApply, ApplyError, RecordKey, record_key, record_key_eq, RecordKey-discrete,
  Collections, optional, validate_apply, put_record, staged, apply_staging,
}
use record_hub.Projection.Store.Effect.{Views, AreCollections, put_record-then}

-- The version that is stored is the given one or newer.
abbrev pub AtLeast : ℤ → Option Record → Type 0
AtLeast v o = (r : Record) × (o ≡ some r) × (v ≤ℤ r.record_version)

leb_ℤ-true : (a b : ℤ) → leb_ℤ a b ≡ true → a ≤ℤ b
leb_ℤ-true a b h = ground arith

leb_ℤ-false : (a b : ℤ) → leb_ℤ a b ≡ false → b ≤ℤ a
leb_ℤ-false a b h = ground arith

≤ℤ-trans : (a b c : ℤ) → a ≤ℤ b → b ≤ℤ c → a ≤ℤ c
≤ℤ-trans a b c h k = omega arith

≤ℤ-refl : (a : ℤ) → a ≤ℤ a
≤ℤ-refl a = omega arith

module _ {SI SR SP SC SA : Type 0} (db : Collections SI SR SP SC SA) (is_document : Text → Bool)
    (name : Text) where
  abbrev stored : Stores db → Result ApplyError (Stores db) → Stores db
  stored s (ok s') = s'
  stored s (err e) = s

  -- A replay, event by event; one that fails leaves the collection as it is.
  unfoldable pub replay : List ProjectionApply → Stores db → Stores db
  replay [] s = s
  replay (i ∷ inputs) s = replay inputs (stored s (apply_staging db is_document name i s))

  module _ (view : Views SI SR SP SC SA) (laws : AreCollections db view) where
    put_record-at :
        (i : ProjectionApply) (s s' : Stores db)
        → put_record db name i s ≡ ok s'
        → (k : RecordKey)
        → view.records s'.records k ≡ (
            if record_key name i.projection_record == k
            then some i.projection_record
            else view.records s.records k)
    put_record-at i s s' h k =
        let bound : (put_record db name i s >>= λ x. ok x) ≡ ok s' = rw h refl in
        let (t, at, e) = put_record-then db view laws (λ x. ok x) s' i s name bound in
        let same : record s { records = t } ≡ s' = cc in
        subst
          (λ x. view.records x.records k ≡ (
            if record_key name i.projection_record == k
            then some i.projection_record
            else view.records s.records k))
          same
          (laws.records.replace_lem (record_key name i.projection_record) i.projection_record
            s.records t at k)

    put_record-AtLeast :
        (i : ProjectionApply) (s s' : Stores db) (v : ℤ) (k : RecordKey)
        → put_record db name i s ≡ ok s'
        → ((r : Record)
            → view.records s.records (record_key name i.projection_record) ≡ some r
            → r.record_version ≤ℤ i.projection_record.record_version)
        → AtLeast v (view.records s.records k)
        → AtLeast v (view.records s'.records k)
    put_record-AtLeast i s s' v k h newer (r, there, above) =
        let key = record_key name i.projection_record in
        elim (RecordKey-discrete key k) [
          | yes here ↦ (
            i.projection_record,
            ground (arith, put_record-at i s s' h k),
            ≤ℤ-trans v r.record_version i.projection_record.record_version above
                (newer r (subst (λ j. view.records s.records j ≡ some r) (sym here) there)),
          )
          | no other ↦ (r, ground (arith, put_record-at i s s' h k), above)
        ]

    put_record-newest :
        (i : ProjectionApply) (s s' : Stores db)
        → put_record db name i s ≡ ok s'
        → AtLeast i.projection_record.record_version
            (view.records s'.records (record_key name i.projection_record))
    put_record-newest i s s' h = (
      i.projection_record,
      ground (arith, put_record-at i s s' h (record_key name i.projection_record)),
      ≤ℤ-refl i.projection_record.record_version,
    )

    -- A staged event leaves its version or a newer one, and makes no record older.
    abbrev Staged : ProjectionApply → Stores db → Stores db → Type 0
    Staged i s s' =
        AtLeast i.projection_record.record_version
          (view.records s'.records (record_key name i.projection_record))
        × ((v : ℤ) (k : RecordKey)
            → AtLeast v (view.records s.records k)
            → AtLeast v (view.records s'.records k))

    staged-Staged :
        (i : ProjectionApply) (s s' : Stores db) (o : Option Record)
        → view.records s.records (record_key name i.projection_record) ≡ o
        → staged db name i s o ≡ ok s'
        → Staged i s s'
    unfolding staged
    staged-Staged i s s' none at h = (
      put_record-newest i s s' h,
      λ v k above. put_record-AtLeast i s s' v k h (λ r there. absurd (ground arith)) above,
    )
    staged-Staged i s s' (some r) at h =
        elim (Bool-cases (leb_ℤ i.projection_record.record_version r.record_version)) [
          | inl older ↦
              let same : s ≡ s' = ok-path (ok s) refl (rw older at h) in
              subst (λ x. Staged i s x) same
                (
                  (r, at, leb_ℤ-true i.projection_record.record_version r.record_version older),
                  λ v k above. above,
                )
          | inr newer ↦
              let put : put_record db name i s ≡ ok s' = rw newer at h in
              (
                put_record-newest i s s' put,
                λ v k above.
                    put_record-AtLeast i s s' v k put
                      (λ r' there.
                        let same : r ≡ r' = cc in
                        subst (λ x. x.record_version ≤ℤ i.projection_record.record_version) same
                          (leb_ℤ-false i.projection_record.record_version r.record_version newer))
                      above,
              )
        ]

    staging-Staged :
        (i : ProjectionApply) (s s' : Stores db)
        → apply_staging db is_document name i s ≡ ok s'
        → Staged i s s'
    unfolding apply_staging
    staging-Staged i s s' h =
        let key = record_key name i.projection_record in
        let (u, valid, h1) = >>=-eq-ok (validate_apply is_document i) _ h in
        let (o, found_, h2) = >>=-eq-ok (optional (db.records.find_one key s.records)) _ h1 in
        staged-Staged i s s' o (load o found_) h2
      where
        load :
            (o : Option Record)
            → optional (db.records.find_one (record_key name i.projection_record) s.records) ≡ ok o
            → view.records s.records (record_key name i.projection_record) ≡ o
        load o h =
            let key = record_key name i.projection_record in
            elim (Found-cases (db.records.find_one key s.records)) [
              | inl (d, at) ↦ ground (arith, laws.records.found_lem key s.records d at)
              | inr (inl at) ↦ ground (arith, laws.records.absent_lem key s.records at)
              | inr (inr at) ↦ absurd (ground arith)
            ]

    stored-Keeps :
        (i : ProjectionApply) (s : Stores db) (r : Result ApplyError (Stores db)) (v : ℤ)
        (k : RecordKey)
        → apply_staging db is_document name i s ≡ r
        → AtLeast v (view.records s.records k)
        → AtLeast v (view.records (stored s r).records k)
    stored-Keeps i s (ok s') v k h above = (staging-Staged i s s' h).1 v k above
    stored-Keeps i s (err e) v k h above = above

    replay-Keeps :
        (inputs : List ProjectionApply) (s : Stores db) (v : ℤ) (k : RecordKey)
        → AtLeast v (view.records s.records k)
        → AtLeast v (view.records (replay inputs s).records k)
    unfolding replay
    replay-Keeps [] s v k above = above
    replay-Keeps (i ∷ inputs) s v k above =
        replay-Keeps inputs (stored s (apply_staging db is_document name i s)) v k
          (stored-Keeps i s (apply_staging db is_document name i s) v k refl above)

    -- After an event was staged, whatever events are replayed after it, and in whatever order, the
    -- staging collection has the record of the event in its version or a newer one.
    pub newest_staged :
        (i : ProjectionApply) (s s' : Stores db) (inputs : List ProjectionApply)
        → apply_staging db is_document name i s ≡ ok s'
        → AtLeast i.projection_record.record_version
            (view.records (replay inputs s').records (record_key name i.projection_record))
    newest_staged i s s' inputs h =
        replay-Keeps inputs s' i.projection_record.record_version
          (record_key name i.projection_record) (staging-Staged i s s' h).0
