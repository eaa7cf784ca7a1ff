-- ===== src/Projection/ReadPointer/Restore.antt =====
-- The checkpoints of a replay never move a checkpoint back.
use record_hub.Base.{
  true, ◌==◌, List, [], ◌∷◌, Option, none, some, ok-path, ok, >>=-eq-ok, if◌then◌else◌, Bool-cases,
  pos, ltb_ℤ, ◌≤ℤ◌, ◌≡◌, inl, inr, refl, sym, arith,
}
use mathlib.Core.Path.{subst}
use record_hub.Database.{Found, Inserted, Updated, IsCollection}
use record_hub.Projection.Checkpoint.{
  ProjectionCheckpoint, CheckpointKey, CheckpointKey-discrete, checkpoint_key_eq, checkpoint_filter,
  current_version, validate_checkpoint,
}
use record_hub.Projection.Store.{always}
use record_hub.Projection.ReadPointer.{
  Pointers, checked, inserted_or, updated_or, restored, restore_checkpoints,
}

checked-version : (c : ProjectionCheckpoint) → checked c ≡ ok tt → pos 0 ≤ℤ c.source_version
unfolding validate_checkpoint
checked-version c h = elim (Bool-cases (ltb_ℤ c.source_version (pos 0))) [
  | inl negative ↦ absurd (ground arith)
  | inr fine ↦ ground arith
]

module _ {SP SC : Type 0} (db : Pointers SP SC)
    (view : SC → CheckpointKey → Option ProjectionCheckpoint)
    (laws : IsCollection db.checkpoints view) where
  abbrev NotBack : SC → SC → Type 0
  NotBack s s' = (k : CheckpointKey) → current_version (view s k) ≤ℤ current_version (view s' k)

  -- A checkpoint is set whose version is the given one or newer.
  set-NotBack :
      (c : ProjectionCheckpoint) (s s' : SC)
      → current_version (view s (checkpoint_filter c)) ≤ℤ c.source_version
      → ((k : CheckpointKey) → view s' k ≡ (if checkpoint_filter c == k then some c else view s k))
      → NotBack s s'
  set-NotBack c s s' newer set k = elim (CheckpointKey-discrete (checkpoint_filter c) k) [
    | yes here ↦
        let at : view s' k ≡ some c = ground (arith, set k) in
        subst (λ o. current_version (view s k) ≤ℤ current_version o) (sym at)
          (subst (λ j. current_version (view s j) ≤ℤ c.source_version) here newer)
    | no other ↦
        let at : view s' k ≡ view s k = ground (arith, set k) in
        subst (λ o. current_version (view s k) ≤ℤ current_version o) (sym at) (omega arith)
  ]

  restored-NotBack :
      (c : ProjectionCheckpoint) (s s' : SC) (f : Found ProjectionCheckpoint)
      → pos 0 ≤ℤ c.source_version
      → db.checkpoints.find_one (checkpoint_filter c) s ≡ f
      → restored db c s f ≡ ok s'
      → NotBack s s'
  unfolding restored
  restored-NotBack c s s' Found.no_documents fine at h =
      let key = checkpoint_filter c in
      let none_ : view s key ≡ none = laws.absent_lem key s at in
      go (db.checkpoints.insert_one key c s) refl h none_
    where
      go :
          (r : Inserted SC)
          → db.checkpoints.insert_one (checkpoint_filter c) c s ≡ r
          → inserted_or r ≡ ok s'
          → view s (checkpoint_filter c) ≡ none
          → NotBack s s'
      go (Inserted.inserted t) at e nothing =
          subst (λ x. NotBack s x) (ok-path (ok t) refl e)
            (set-NotBack c s t (rw nothing fine) (laws.insert_lem (checkpoint_filter c) c s t at))
      go Inserted.duplicate_key at e nothing = absurd (cc)
      go Inserted.failed at e nothing = absurd (cc)
  restored-NotBack c s s' Found.failed fine at h = absurd (cc)
  restored-NotBack c s s' (Found.found old) fine at h =
      let key = checkpoint_filter c in
      let there : view s key ≡ some old = laws.found_lem key s old at in
      elim (Bool-cases (ltb_ℤ old.source_version c.source_version)) [
        | inl older ↦
            go older there (db.checkpoints.update_one key always (λ x. c) s) refl (rw older at h)
        | inr same ↦
            subst (λ x. NotBack s x) (ok-path (ok s) refl (rw same at h)) (λ k. omega arith)
      ]
    where
      go :
          ltb_ℤ old.source_version c.source_version ≡ true
          → view s (checkpoint_filter c) ≡ some old
          → (r : Updated SC) → db.checkpoints.update_one (checkpoint_filter c) always (λ x. c) s ≡ r
          → updated_or r ≡ ok s'
          → NotBack s s'
      go older there (Updated.updated n t) at e =
          subst (λ x. NotBack s x) (ok-path (ok t) refl e)
            (set-NotBack c s t (rw there (ground arith)) λ k.
              elim (CheckpointKey-discrete (checkpoint_filter c) k) [
                | yes here ↦
                    let old_there : view s k ≡ some old =
                      subst (λ j. view s j ≡ some old) here there in
                    ground (
                      arith,
                      old_there,
                      laws.update_lem (checkpoint_filter c) always (λ x. c) n s t at k,
                    )
                | no other ↦
                    ground (arith, laws.update_lem (checkpoint_filter c) always (λ x. c) n s t at k)
              ])
      go older there Updated.failed at e = absurd (cc)

  -- Restoring the checkpoints of a replay lowers the version of no checkpoint.
  pub restore_never_back :
      (checkpoints : List ProjectionCheckpoint) (s s' : SC)
      → restore_checkpoints db checkpoints s ≡ ok s'
      → (k : CheckpointKey) → current_version (view s k) ≤ℤ current_version (view s' k)
  unfolding restore_checkpoints
  restore_never_back [] s s' h k =
      subst (λ x. current_version (view s k) ≤ℤ current_version (view x k)) (ok-path (ok s) refl h)
        (omega arith)
  restore_never_back (c ∷ checkpoints) s s' h k =
      let (u, valid, h1) = >>=-eq-ok (checked c) _ h in
      let (t, done, h2) =
        >>=-eq-ok (restored db c s (db.checkpoints.find_one (checkpoint_filter c) s)) _ h1 in
      let first =
        restored-NotBack c s t (db.checkpoints.find_one (checkpoint_filter c) s)
          (checked-version c valid) refl done k in
      let later = restore_never_back checkpoints t s' h2 k in omega (arith, first, later)
