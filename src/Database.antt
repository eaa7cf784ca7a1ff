-- ===== src/Database.antt =====
-- What server/internal/modules uses of a collection of the Mongo driver, which is a parameter of
-- every model over it: the operations, by the key that a unique index of the collection is over,
-- and their documented effect on the documents, where a call may also fail.
pub mod Maps
use record_hub.Base.{
  ℕ, Bool, Eq, ◌==◌, if◌then◌else◌, Option, none, some, ◌≡◌, ◌≢◌, ◌⊎◌, inl, inr, refl,
}

-- `FindOne`: a document, mongo.ErrNoDocuments, or another error.
pub data Found (D : Type 0) : Type 0 where
  found : D → Found D
  no_documents failed : Found D

pub Found-cases :
    {D : Type 0} (f : Found D)
    → ((d : D) × (f ≡ Found.found d)) ⊎ ((f ≡ Found.no_documents) ⊎ (f ≡ Found.failed))
Found-cases (Found.found d) = inl (d, refl)
Found-cases Found.no_documents = inr (inl refl)
Found-cases Found.failed = inr (inr refl)

-- `InsertOne`: the collection after it, a duplicate key error, or another error.
pub data Inserted (S : Type 0) : Type 0 where
  inserted : S → Inserted S
  duplicate_key failed : Inserted S

-- `UpdateOne`: the ModifiedCount and the collection after it, or an error.
pub data Updated (S : Type 0) : Type 0 where
  updated : ℕ → S → Updated S
  failed : Updated S

pub record Collection (K D S : Type 0) : Type 0 where
  pub find_one : K → S → Found D
  pub insert_one : K → D → S → Inserted S
  -- With a test that the filter makes besides the key, and what `$set` makes of the document.
  pub update_one : K → (D → Bool) → (D → D) → S → Updated S
  -- With `SetUpsert(true)`.
  pub replace_one : K → D → S → Option S

abbrev pub update_if : {D : Type 0} → (D → Bool) → (D → D) → Option D → Option D
update_if matches change none = none
update_if matches change (some d) = if matches d then some (change d) else some d

-- The documented effects, on the document under each key.
pub record IsCollection {K D S : Type 0} ⦃e : Eq K⦄ (c : Collection K D S) (view : S → K → Option D)
    : Type 0 where
  pub found_lem : (k : K) (s : S) (d : D) → c.find_one k s ≡ Found.found d → view s k ≡ some d
  pub absent_lem : (k : K) (s : S) → c.find_one k s ≡ Found.no_documents → view s k ≡ none
  pub fresh_lem :
      (k : K) (d : D) (s s' : S) → c.insert_one k d s ≡ Inserted.inserted s' → view s k ≡ none
  pub insert_lem :
      (k : K) (d : D) (s s' : S)
      → c.insert_one k d s ≡ Inserted.inserted s'
      → (j : K) → view s' j ≡ (if k == j then some d else view s j)
  pub update_lem :
      (k : K) (matches : D → Bool) (change : D → D) (n : ℕ) (s s' : S)
      → c.update_one k matches change s ≡ Updated.updated n s'
      → (j : K) → view s' j ≡ (if k == j then update_if matches change (view s j) else view s j)
  pub unmodified_lem :
      (k : K) (matches : D → Bool) (change : D → D) (n : ℕ) (s s' : S)
      → c.update_one k matches change s ≡ Updated.updated n s'
      → n ≢ 1
      → (j : K) → view s' j ≡ view s j
  pub replace_lem :
      (k : K) (d : D) (s s' : S)
      → c.replace_one k d s ≡ some s'
      → (j : K) → view s' j ≡ (if k == j then some d else view s j)
