-- ===== src/Projection/ReadPointer/Laws.antt =====
-- What an activation leaves in the collection of pointers.
use record_hub.Base.{
  Text, text_eq, Option, none, some, Option-cases, ok, err, Time, ◌≡◌, ◌≢◌, inl, inr, refl, arith,
}
use record_hub.Database.{Inserted, IsCollection}
use record_hub.Records.Model.{ProjectionReadPointer}
use record_hub.Projection.Store.{PointerKey, pointer_key_eq}
use record_hub.Projection.ReadPointer.{
  PointerError, active_status, retired_status, Pointers, Activation, pointer_key, new_pointer,
  inserted_or, activate_table,
}

-- The key of a pointer that takes another status.
abbrev pub with_status : PointerKey → Text → PointerKey
with_status k status = record k { status = status }

-- The documented effect of the update of the status: it fails if the unique index has the new key
-- already, else the pointer, if there is one, stands under the new key.
pub record ArePointers {SP SC : Type 0} (db : Pointers SP SC)
    (view : SP → PointerKey → Option ProjectionReadPointer) : Type 0 where
  pub collection : IsCollection db.collection view
  pub duplicate_lem :
      (k : PointerKey) (status : Text) (s : SP) (p q : ProjectionReadPointer)
      → view s k ≡ some p
      → view s (with_status k status) ≡ some q
      → k.status ≢ status
      → db.set_status k status s ≡ none
  pub moved_lem :
      (k : PointerKey) (status : Text) (s s' : SP) (p : ProjectionReadPointer)
      → db.set_status k status s ≡ some s'
      → view s k ≡ some p
      → view s' (with_status k status) ≡ some (record p { status = status })
  pub untouched_lem :
      (k : PointerKey) (status : Text) (s s' : SP)
      → db.set_status k status s ≡ some s'
      → (j : PointerKey) → j ≢ k
      → j ≢ with_status k status
      → view s' j ≡ view s j

module _ {SP SC : Type 0} (db : Pointers SP SC)
    (view : SP → PointerKey → Option ProjectionReadPointer) (laws : ArePointers db view)
    (a : Activation) (now : Time) where
  abbrev pub There : Text → Text → SP → Type 0
  There table status s =
      (p : ProjectionReadPointer) × (view s (pointer_key a table status) ≡ some p)

  -- An activation of one table that ends well: its two steps.
  activate_table-ok :
      (table : Text) (s s' : SP)
      → activate_table db a now table s ≡ ok s'
      → (t : SP) × (db.set_status (pointer_key a table active_status) retired_status s ≡ some t)
        × (db.collection.insert_one (pointer_key a table active_status) (new_pointer a now table) t
            ≡ Inserted.inserted s')
  unfolding activate_table
  activate_table-ok table s s' h =
      let key = pointer_key a table active_status in
      elim (Option-cases (db.set_status key retired_status s)) [
        | inl refused ↦ absurd (ground arith)
        | inr (t, moved) ↦ (
          t,
          moved,
          go t (rw moved at h) (db.collection.insert_one key (new_pointer a now table) t) refl,
        )
      ]
    where
      go :
          (t : SP)
          → inserted_or (
              db.collection.insert_one
                (pointer_key a table active_status)
                (new_pointer a now table)
                t)
            ≡ ok s'
          → (r : Inserted SP)
          → db.collection.insert_one (pointer_key a table active_status) (new_pointer a now table) t
            ≡ r
          → db.collection.insert_one (pointer_key a table active_status) (new_pointer a now table) t
            ≡ Inserted.inserted s'
      go t e (Inserted.inserted x) at = ground arith
      go t e Inserted.duplicate_key at = absurd (ground arith)
      go t e Inserted.failed at = absurd (ground arith)

  -- After it, the table has the new pointer as its active one.
  pub activate_table-active :
      (table : Text) (s s' : SP)
      → activate_table db a now table s ≡ ok s'
      → view s' (pointer_key a table active_status) ≡ some (new_pointer a now table)
  activate_table-active table s s' h =
      let key = pointer_key a table active_status in
      let (t, moved, put) = activate_table-ok table s s' h in
      ground (arith, laws.collection.insert_lem key (new_pointer a now table) t s' put key)

  -- If it had an active pointer before, it has a retired one.
  pub activate_table-retired :
      (table : Text) (s s' : SP)
      → activate_table db a now table s ≡ ok s'
      → There table active_status s
      → There table retired_status s'
  activate_table-retired table s s' h (p, there) =
      let key = pointer_key a table active_status in
      let (t, moved, put) = activate_table-ok table s s' h in
      let at = laws.moved_lem key retired_status s t p moved there in
      (
        record p { status = retired_status },
        ground (
          arith,
          laws.collection.insert_lem key (new_pointer a now table) t s' put
              (with_status key retired_status),
        ),
      )

  -- The pointers of other tables stay.
  pub activate_table-others :
      (table other status : Text) (s s' : SP)
      → activate_table db a now table s ≡ ok s'
      → table ≢ other
      → view s' (pointer_key a other status) ≡ view s (pointer_key a other status)
  activate_table-others table other status s s' h differ =
      let key = pointer_key a table active_status in
      let (t, moved, put) = activate_table-ok table s s' h in
      let kept =
        laws.untouched_lem key retired_status s t moved (pointer_key a other status) (ground arith)
          (ground arith) in
      ground (
        arith,
        laws.collection.insert_lem key (new_pointer a now table) t s' put
            (pointer_key a other status),
      )

  -- With an active and a retired pointer, it fails.
  pub activate_table-full :
      (table : Text) (s : SP)
      → There table active_status s
      → There table retired_status s
      → activate_table db a now table s ≡ err PointerError.database_failed
  unfolding activate_table
  activate_table-full table s (p, there) (q, old) =
      let key = pointer_key a table active_status in
      let refused = laws.duplicate_lem key retired_status s p q there old (ground arith) in
      rw refused refl
