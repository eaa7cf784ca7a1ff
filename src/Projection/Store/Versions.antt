-- ===== src/Projection/Store/Versions.antt =====
-- The versions that a run applies to an aggregate.
use record_hub.Base.{
  Text, Bool, List, [], ◌∷◌, ◌++◌, length, Option, some, ℤ, inc64, ◌≡◌, inl, inr, refl, ap, arith,
}
use mathlib.Core.Path.{subst}
use record_hub.Records.Feed.{RecordFeed}
use record_hub.Projection.Checkpoint.{
  CheckpointKey, CheckpointKey-discrete, checkpoint_key_eq, checkpoint_filter, current_version,
}
use record_hub.Projection.Store.{Stores, ProjectionApply, Collections}
use record_hub.Projection.Store.Effect.{Views, AreCollections, version, Applied}
use record_hub.Projection.Store.Runs.{
  StoreCall, advance, successors, versions_of, log_of, store_step, run_store, Stepped, step-Stepped,
}

-- The versions follow the first one by one, up to the last.
abbrev pub Follows : ℤ → List ℤ → ℤ → Type 0
Follows first vs last = (vs ≡ successors (length vs) first) × (last ≡ advance (length vs) first)

Follows-cons :
    (first v last : ℤ) (vs : List ℤ)
    → v ≡ inc64 first
    → Follows v vs last
    → Follows first (v ∷ vs) last
Follows-cons first v last vs next (each, end) =
    subst (λ f. (v ∷ vs ≡ f ∷ successors (length vs) f) × (last ≡ advance (length vs) f)) next
      (ap (λ r. v ∷ r) each, end)

module _ {SI SR SP SC SA : Type 0} (db : Collections SI SR SP SC SA) (is_document : Text → Bool)
    (sha256_hex : Text → Text) (view : Views SI SR SP SC SA) (laws : AreCollections db view) where
  Applied-Follows :
      (k : CheckpointKey) (i : ProjectionApply) (s s' : Stores db) (log : List ProjectionApply)
      (last : ℤ)
      → Applied db view laws i s s'
      → Follows (version db view laws s' k) (versions_of k log) last
      → Follows (version db view laws s k) (versions_of k (i ∷ log)) last
  Applied-Follows k i s s' log last done rest =
      elim (CheckpointKey-discrete (checkpoint_filter i.checkpoint) k) [
        | yes here ↦
            let v = i.checkpoint.source_version in
            let at : view.checkpoints s'.checkpoints k ≡ some i.checkpoint =
              ground (arith, done.checkpoint_set k) in
            let now : version db view laws s' k ≡ v = ap current_version at in
            let before : v ≡ inc64 (version db view laws s k) =
              subst (λ j. v ≡ inc64 (version db view laws s j)) here done.version_next in
            let split : v ∷ versions_of k log ≡ versions_of k (i ∷ log) = ground arith in
            subst (λ vs. Follows (version db view laws s k) vs last) split
              (Follows-cons (version db view laws s k) v last (versions_of k log) before
                (subst (λ f. Follows f (versions_of k log) last) now rest))
        | no other ↦
            let at : view.checkpoints s'.checkpoints k ≡ view.checkpoints s.checkpoints k =
              ground (arith, done.checkpoint_set k) in
            let now : version db view laws s' k ≡ version db view laws s k =
              ap current_version at in
            let split : versions_of k log ≡ versions_of k (i ∷ log) = ground arith in
            subst (λ vs. Follows (version db view laws s k) vs last) split
              (subst (λ f. Follows f (versions_of k log) last) now rest)
      ]

  Stepped-Follows :
      (k : CheckpointKey) (lg : List ProjectionApply) (s s' : Stores db)
      (log : List ProjectionApply) (last : ℤ)
      → Stepped db is_document sha256_hex view laws lg s s'
      → Follows (version db view laws s' k) (versions_of k log) last
      → Follows (version db view laws s k) (versions_of k (lg ++ log)) last
  Stepped-Follows k lg s s' log last (inl (none_, same)) rest =
      rw none_ (subst (λ f. Follows f (versions_of k log) last) (same.versions k) rest)
  Stepped-Follows k lg s s' log last (inr (i, one, done)) rest =
      rw one (Applied-Follows k i s s' log last done rest)

  -- In any sequence of calls of Apply and of the inbox, the versions that are applied to an
  -- aggregate are the successors of its checkpoint's version, one after the other, without a gap, a
  -- repetition or a step back; and the checkpoint ends at the last of them.
  pub versions_follow :
      (calls : List StoreCall) (s : Stores db) (feed : Option RecordFeed) (k : CheckpointKey)
      → let (log, s', feed') = run_store db is_document sha256_hex calls s feed in
        (versions_of k log ≡ successors (length (versions_of k log)) (version db view laws s k))
        × (version db view laws s' k
            ≡ advance (length (versions_of k log)) (version db view laws s k))
  unfolding run_store
  versions_follow [] s feed k = (refl, refl)
  versions_follow (call ∷ calls) s feed k =
      let (s1, feed1) = store_step db is_document sha256_hex call s feed in
      let (log, s2, feed2) = run_store db is_document sha256_hex calls s1 feed1 in
      Stepped-Follows k (log_of db is_document sha256_hex call s) s s1 log
        (version db view laws s2 k) (step-Stepped db is_document sha256_hex view laws call s feed)
        (versions_follow calls s1 feed1 k)
