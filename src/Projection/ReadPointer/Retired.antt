-- ===== src/Projection/ReadPointer/Retired.antt =====
-- The unique index keeps one retired pointer for a table, so that it can be activated only twice.
use record_hub.Base.{
  Has, Text, text_eq, Text-discrete, List, [], ◌∷◌, Option, some, ok-path, ok, err, Result-cases,
  >>=-eq-ok, Time, ◌≡◌, ◌≢◌, ◌⊎◌, inl, inr, refl, sym, ◌∙◌,
}
use mathlib.Core.Path.{subst}
use record_hub.Records.Model.{ProjectionReadPointer}
use record_hub.Projection.Store.{PointerKey}
use record_hub.Projection.ReadPointer.{
  PointerError, active_status, retired_status, Pointers, Activation, pointer_key, new_pointer,
  trimmed, unique_from, activate_table, activate_tables, activate_many,
}
use record_hub.Projection.ReadPointer.Laws.{
  ArePointers, There, activate_table-active, activate_table-retired, activate_table-others,
  activate_table-full,
}
use record_hub.Projection.ReadPointer.Switch.{activate_many-active, activate_many-ok}

module _ {SP SC : Type 0} (db : Pointers SP SC)
    (view : SP → PointerKey → Option ProjectionReadPointer) (laws : ArePointers db view)
    (a : Activation) (now : Time) where
  -- A pointer with that status for a table stays there through the activation of others.
  table-keeps :
      (table other status : Text) (s s' : SP)
      → activate_table db a now table s ≡ ok s'
      → table ≢ other
      → There db view laws a now other status s
      → There db view laws a now other status s'
  table-keeps table other status s s' h differ (p, there) =
      (p, activate_table-others db view laws a now table other status s s' h differ ∙ there)

  -- A retired pointer stays.
  retired-keeps :
      (table other : Text) (s s' : SP)
      → activate_table db a now table s ≡ ok s'
      → There db view laws a now other active_status s
      → There db view laws a now other retired_status s
      → There db view laws a now other active_status s'
        × There db view laws a now other retired_status s'
  retired-keeps table other s s' h on off = elim (Text-discrete table other) [
    | yes same ↦
        let full : activate_table db a now table s ≡ err PointerError.database_failed =
          subst (λ x. activate_table db a now x s ≡ err PointerError.database_failed) (sym same)
            (activate_table-full db view laws a now other s on off) in
        absurd (cc)
    | no differ ↦ (
      table-keeps table other active_status s s' h differ on,
      table-keeps table other retired_status s s' h differ off,
    )
  ]

  full_tables :
      (tables : List Text) (table : Text) (s : SP)
      → Has table tables
      → There db view laws a now table active_status s
      → There db view laws a now table retired_status s
      → (e : PointerError) × (activate_tables db a now tables s ≡ err e)
  unfolding activate_tables
  full_tables [] table s has on off = absurd has
  full_tables (first ∷ tables) table s (inl here) on off =
      let full : activate_table db a now first s ≡ err PointerError.database_failed =
        subst (λ x. activate_table db a now x s ≡ err PointerError.database_failed) (sym here)
          (activate_table-full db view laws a now table s on off) in
      (PointerError.database_failed, rw full refl)
  full_tables (first ∷ tables) table s (inr later) on off =
      elim (Result-cases (activate_table db a now first s)) [
        | inl (t, done) ↦
            let (on', off') = retired-keeps first table s t done on off in
            let (e, failed) = full_tables tables table t later on' off' in (e, rw done failed)
        | inr (e, failed) ↦ (e, rw failed refl)
      ]

  tables-keep :
      (tables : List Text) (table : Text) (s s' : SP)
      → activate_tables db a now tables s ≡ ok s'
      → There db view laws a now table active_status s
      → There db view laws a now table retired_status s
      → There db view laws a now table retired_status s'
  unfolding activate_tables
  tables-keep [] table s s' h on off =
      subst (λ x. There db view laws a now table retired_status x) (ok-path (ok s) refl h) off
  tables-keep (first ∷ tables) table s s' h on off =
      let (t, done, rest) = >>=-eq-ok (activate_table db a now first s) _ h in
      let (on', off') = retired-keeps first table s t done on off in
      tables-keep tables table t s' rest on' off'

  -- An activation of a table that has an active pointer retires it.
  pub retires_tables :
      (tables : List Text) (table : Text) (s s' : SP)
      → activate_tables db a now tables s ≡ ok s'
      → Has table tables
      → There db view laws a now table active_status s
      → There db view laws a now table retired_status s'
  unfolding activate_tables
  retires_tables [] table s s' h has on = absurd has
  retires_tables (first ∷ tables) table s s' h has on =
      let (t, done, rest) = >>=-eq-ok (activate_table db a now first s) _ h in
      elim (Text-discrete first table) [
        | yes same ↦
            let done' : activate_table db a now table s ≡ ok t =
              subst (λ x. activate_table db a now x s ≡ ok t) same done in
            tables-keep tables table t s' rest
              (new_pointer a now table, activate_table-active db view laws a now table s t done')
              (activate_table-retired db view laws a now table s t done' on)
        | no differ ↦
            retires_tables tables table t s' rest (has_rest differ has)
              (table-keeps first table active_status s t done differ on)
      ]
    where
      has_rest : first ≢ table → (first ≡ table) ⊎ Has table tables → Has table tables
      has_rest differ (inl same) = absurd (differ same)
      has_rest differ (inr later) = later

module _ {SP SC : Type 0} (db : Pointers SP SC)
    (view : SP → PointerKey → Option ProjectionReadPointer) (laws : ArePointers db view) where
  -- The calls of the transaction, of a call with tables.
  activate_many-err :
      (raw : Activation) (now : Time) (table : Text) (s : SP × SC) (e : PointerError)
      → activate_tables db (trimmed raw) now (unique_from [] raw.table_ids) s.0 ≡ err e
      → Has table (unique_from [] raw.table_ids)
      → (e' : PointerError) × (activate_many db raw now s ≡ err e')
  activate_many-err raw now table s e failed has =
      elim (Result-cases (activate_many db raw now s)) [
        | inl (s', done) ↦
            let ran = activate_many-ok db view laws raw now table s s' done has in absurd (cc)
        | inr bad ↦ bad
      ]

  -- After two activations of a table that ended well, a third one always fails: retiring the active
  -- pointer breaks the unique index, which has a retired one already.
  pub third_activation_fails :
      (a1 a2 a3 : Activation) (n1 n2 n3 : Time) (table : Text) (s s1 s2 : SP × SC)
      → pointer_key (trimmed a2) ≡ pointer_key (trimmed a1)
      → pointer_key (trimmed a3) ≡ pointer_key (trimmed a1)
      → Has table (unique_from [] a1.table_ids)
      → Has table (unique_from [] a2.table_ids)
      → Has table (unique_from [] a3.table_ids)
      → activate_many db a1 n1 s ≡ ok s1
      → activate_many db a2 n2 s1 ≡ ok s2
      → (e : PointerError) × (activate_many db a3 n3 s2 ≡ err e)
  third_activation_fails a1 a2 a3 n1 n2 n3 table s s1 s2 k2 k3 h1 h2 h3 first second =
      let on1 = activate_many-active db view laws a1 n1 table s s1 first h1 in
      let on2 = activate_many-active db view laws a2 n2 table s1 s2 second h2 in
      let active1 : There db view laws (trimmed a2) n2 table active_status s1.0 = (
        new_pointer (trimmed a1) n1 table,
        subst (λ f. view s1.0 (f table active_status) ≡ some (new_pointer (trimmed a1) n1 table))
            (sym k2) on1,
      ) in
      let (old, off2) =
        retires_tables db view laws (trimmed a2) n2 (unique_from [] a2.table_ids) table s1.0 s2.0
          (activate_many-ok db view laws a2 n2 table s1 s2 second h2) h2 active1 in
      let (e, failed) =
        full_tables db view laws (trimmed a3) n3 (unique_from [] a3.table_ids) table s2.0 h3
          (
            new_pointer (trimmed a2) n2 table,
            subst
                (λ f. view s2.0 (f table active_status) ≡ some (new_pointer (trimmed a2) n2 table))
                (k2 ∙ sym k3) on2,
          )
          (old, subst (λ f. view s2.0 (f table retired_status) ≡ some old) (k2 ∙ sym k3) off2) in
      activate_many-err a3 n3 table s2 e failed h3
