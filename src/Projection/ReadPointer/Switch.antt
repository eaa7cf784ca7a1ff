-- ===== src/Projection/ReadPointer/Switch.antt =====
-- An activation switches its tables to the new collection.
use record_hub.Base.{
  Has, Text, text_eq, Text-discrete, is_empty, false, ◌||◌, List, [], ◌∷◌, Option, some, ok-path,
  ok, >>=-eq-ok, ◌>>=◌, pos, codes, Time, Bool-cases, ◌≡◌, inl, inr, refl, ◌∙◌, ap, contains, arith,
}
use mathlib.Core.Path.{subst}
use record_hub.Base.Trim.{trim_space}
use record_hub.Records.Model.{ProjectionReadPointer}
use record_hub.Projection.Store.{PointerKey}
use record_hub.Projection.ReadPointer.{
  active_status, Pointers, Activation, trimmed, is_nil, unique_from, pointer_key, new_pointer,
  activate_table, activate_tables, restore_checkpoints, activation, activate_many,
}
use record_hub.Projection.ReadPointer.Laws.{
  ArePointers, activate_table-active, activate_table-others,
}

Has-is_nil : (table : Text) (tables : List Text) → Has table tables → is_nil tables ≡ false
Has-is_nil table [] has = absurd has
Has-is_nil table (first ∷ tables) has = refl

-- A table that is named is not lost.
unique_from-Has :
    (seen tables : List Text) (name : Text)
    → Has name tables
    → is_empty (trim_space name) ≡ false
    → contains seen (trim_space name) ≡ false
    → Has (trim_space name) (unique_from seen tables)
unfolding unique_from
unique_from-Has seen [] name has named fresh = absurd has
unique_from-Has seen (table ∷ tables) name (inl here) named fresh =
    let taken : (is_empty (trim_space table) || contains seen (trim_space table)) ≡ false =
      rw here (ground arith) in
    rw taken (inl (ap trim_space here))
unique_from-Has seen (table ∷ tables) name (inr later) named fresh =
    elim (Bool-cases (is_empty (trim_space table) || contains seen (trim_space table))) [
      | inl skipped ↦ rw skipped (unique_from-Has seen tables name later named fresh)
      | inr kept ↦ elim (Text-discrete (trim_space table) (trim_space name)) [
        | yes same ↦ rw kept (inl same)
        | no other ↦
            rw kept (
              inr
                (unique_from-Has (trim_space table ∷ seen) tables name later named (ground arith)))
      ]
    ]

module _ {SP SC : Type 0} (db : Pointers SP SC)
    (view : SP → PointerKey → Option ProjectionReadPointer) (laws : ArePointers db view) where
  module _ (a : Activation) (now : Time) where
    activate_table-keeps :
        (table other : Text) (s s' : SP)
        → activate_table db a now table s ≡ ok s'
        → view s (pointer_key a other active_status) ≡ some (new_pointer a now other)
        → view s' (pointer_key a other active_status) ≡ some (new_pointer a now other)
    activate_table-keeps table other s s' h there = elim (Text-discrete table other) [
      | yes same ↦
          subst (λ x. view s' (pointer_key a x active_status) ≡ some (new_pointer a now x)) same
            (activate_table-active db view laws a now table s s' h)
      | no differ ↦
          activate_table-others db view laws a now table other active_status s s' h differ ∙ there
    ]

    activate_tables-keeps :
        (tables : List Text) (other : Text) (s s' : SP)
        → activate_tables db a now tables s ≡ ok s'
        → view s (pointer_key a other active_status) ≡ some (new_pointer a now other)
        → view s' (pointer_key a other active_status) ≡ some (new_pointer a now other)
    unfolding activate_tables
    activate_tables-keeps [] other s s' h there =
        subst (λ x. view x (pointer_key a other active_status) ≡ some (new_pointer a now other))
          (ok-path (ok s) refl h) there
    activate_tables-keeps (table ∷ tables) other s s' h there =
        let (t, first, rest) = >>=-eq-ok (activate_table db a now table s) _ h in
        activate_tables-keeps tables other t s' rest
          (activate_table-keeps table other s t first there)

    pub activate_tables-active :
        (tables : List Text) (table : Text) (s s' : SP)
        → activate_tables db a now tables s ≡ ok s'
        → Has table tables
        → view s' (pointer_key a table active_status) ≡ some (new_pointer a now table)
    unfolding activate_tables
    activate_tables-active [] table s s' h has = absurd has
    activate_tables-active (first ∷ tables) table s s' h (inl here) =
        let (t, done, rest) = >>=-eq-ok (activate_table db a now first s) _ h in
        subst (λ x. view s' (pointer_key a x active_status) ≡ some (new_pointer a now x)) here
          (activate_tables-keeps tables first t s' rest
            (activate_table-active db view laws a now first s t done))
    activate_tables-active (first ∷ tables) table s s' h (inr later) =
        let (t, done, rest) = >>=-eq-ok (activate_table db a now first s) _ h in
        activate_tables-active tables table t s' rest later

  -- A call with tables that ends well ran its transaction.
  pub activate_many-ok :
      (raw : Activation) (now : Time) (table : Text) (s s' : SP × SC)
      → activate_many db raw now s ≡ ok s'
      → Has table (unique_from [] raw.table_ids)
      → activate_tables db (trimmed raw) now (unique_from [] raw.table_ids) s.0 ≡ ok s'.0
  unfolding activate_many activation
  activate_many-ok raw now table s s' h has =
      let a = trimmed raw in
      let tables = unique_from [] raw.table_ids in
      elim (Bool-cases (
        is_empty a.tenant_id
        || is_empty a.workspace_id
        || is_empty a.operation_id
        || is_empty a.generation_id
        || is_empty a.collection_name)) [
          | inl missing ↦ absurd (ground (arith, missing))
          | inr given ↦
              let ran : (activate_tables db a now tables s.0 >>= λ p.
              restore_checkpoints db a.checkpoints s.1 >>= λ c. ok (p, c))
                  ≡ ok s' =
                rw given at rw (Has-is_nil table tables has) at h in
              let (p, pointers, rest) = >>=-eq-ok (activate_tables db a now tables s.0) _ ran in
              let (c, checkpoints, end) =
                >>=-eq-ok (restore_checkpoints db a.checkpoints s.1) _ rest in
              subst (λ x. activate_tables db a now tables s.0 ≡ ok x.0)
                (ok-path (ok (p, c)) refl end) pointers
        ]

  pub activate_many-active :
      (raw : Activation) (now : Time) (table : Text) (s s' : SP × SC)
      → activate_many db raw now s ≡ ok s'
      → Has table (unique_from [] raw.table_ids)
      → view s'.0 (pointer_key (trimmed raw) table active_status)
        ≡ some (new_pointer (trimmed raw) now table)
  activate_many-active raw now table s s' h has =
      activate_tables-active (trimmed raw) now (unique_from [] raw.table_ids) table s.0 s'.0
        (activate_many-ok raw now table s s' h has) has

  -- After an activation that ended well, each table that the call names, trimmed and not blank, has
  -- an active pointer to the new collection and generation: that of the call's tenant, workspace and
  -- operation, all trimmed, at the first revision and with the time of the call.
  pub activation_switches :
      (raw : Activation) (now : Time) (name : Text) (s s' : SP × SC)
      → activate_many db raw now s ≡ ok s'
      → Has name raw.table_ids
      → is_empty (trim_space name) ≡ false
      → view s'.0 (record {
        tenant_id = trim_space raw.tenant_id;
        workspace_id = trim_space raw.workspace_id;
        table_id = trim_space name;
        status = codes "ACTIVE";
      })
        ≡ some (record {
          tenant_id = trim_space raw.tenant_id;
          workspace_id = trim_space raw.workspace_id;
          table_id = trim_space name;
          generation_id = trim_space raw.generation_id;
          collection_name = trim_space raw.collection_name;
          operation_id = trim_space raw.operation_id;
          revision = pos 1;
          status = codes "ACTIVE";
          created_at = now;
          activated_at = now;
        })
  activation_switches raw now name s s' h has named =
      activate_many-active raw now (trim_space name) s s' h
        (unique_from-Has [] raw.table_ids name has named refl)
