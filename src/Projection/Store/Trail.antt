-- ===== src/Projection/Store/Trail.antt =====
-- The audit trail and the events that were applied.
use record_hub.Base.{Text, Bool, List, [], ◌∷◌, ◌++◌, map, Option, ◌≡◌, inl, inr, sym, ap, ◌∙◌}
use mathlib.Core.List.{append_assoc, append-nil}
use record_hub.Audit
use record_hub.Records.Feed.{RecordFeed}
use record_hub.Projection.Store.{Stores, ProjectionApply, Collections}
use record_hub.Projection.Store.Effect.{Views, AreCollections}
use record_hub.Projection.Store.Runs.{
  StoreCall, log_of, store_step, run_store, Stepped, step-Stepped,
}

abbrev pub audits : List ProjectionApply → List Audit.Entry
audits log = map (λ i. i.audit) log

module _ {SI SR SP SC SA : Type 0} (db : Collections SI SR SP SC SA) (is_document : Text → Bool)
    (sha256_hex : Text → Text) (view : Views SI SR SP SC SA) (laws : AreCollections db view) where
  Stepped-Trail :
      (lg log : List ProjectionApply) (s s' : Stores db) (end : SA)
      → Stepped db is_document sha256_hex view laws lg s s'
      → view.entries end ≡ view.entries s'.audit ++ audits log
      → view.entries end ≡ view.entries s.audit ++ audits (lg ++ log)
  Stepped-Trail lg log s s' end (inl (nothing, same)) rest =
      rw nothing (rest ∙ ap (λ x. x ++ audits log) same.entries)
  Stepped-Trail lg log s s' end (inr (i, one, done)) rest = rw one (
      rest
      ∙ (ap (λ x. x ++ audits log) done.audited
          ∙ append_assoc (view.entries s.audit) (i.audit ∷ []) (audits log)))

  -- In any sequence of calls of Apply and of the inbox, the entries that are added to the audit
  -- trail are those of the events that were applied, one for each and in their order.
  pub trail_of_applied :
      (calls : List StoreCall) (s : Stores db) (feed : Option RecordFeed)
      → let (log, s', feed') = run_store db is_document sha256_hex calls s feed in
        view.entries s'.audit ≡ view.entries s.audit ++ map (λ i. i.audit) log
  unfolding run_store
  trail_of_applied [] s feed = sym (append-nil (view.entries s.audit))
  trail_of_applied (call ∷ calls) s feed =
      let (s1, feed1) = store_step db is_document sha256_hex call s feed in
      let (log, s2, feed2) = run_store db is_document sha256_hex calls s1 feed1 in
      Stepped-Trail (log_of db is_document sha256_hex call s) log s s1 s2.audit
        (step-Stepped db is_document sha256_hex view laws call s feed)
        (trail_of_applied calls s1 feed1)
