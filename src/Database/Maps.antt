-- ===== src/Database/Maps.antt =====
-- A collection that never fails, as an association list: it has the documented effects.
use record_hub.Base.{
  ℕ, Bool, Bool-cases, Eq, ◌==◌, if◌then◌else◌, List, Option, none, some, ◌≡◌, refl, arith, inl,
  inr,
}
use record_hub.Base.Map.{lookup, insert, lookup-insert}
use record_hub.Database.{Found, Inserted, Updated, Collection, update_if, IsCollection}

abbrev found_of : {D : Type 0} → Option D → Found D
found_of none = Found.no_documents
found_of (some d) = Found.found d

module _ {K D : Type 0} ⦃e : Eq K⦄ where
  abbrev inserted_of : K → D → List (K × D) → Option D → Inserted (List (K × D))
  inserted_of k d s none = Inserted.inserted (insert k d s)
  inserted_of k d s (some old) = Inserted.duplicate_key

  abbrev updated_of : K → (D → Bool) → (D → D) → List (K × D) → Option D → Updated (List (K × D))
  updated_of k matches change s none = Updated.updated 0 s
  updated_of k matches change s (some d) =
      if matches d then Updated.updated 1 (insert k (change d) s) else Updated.updated 0 s

  unfoldable pub map_collection : Collection K D (List (K × D))
  map_collection = record {
    find_one = λ k s. found_of (lookup k s);
    insert_one = λ k d s. inserted_of k d s (lookup k s);
    update_one = λ k matches change s. updated_of k matches change s (lookup k s);
    replace_one = λ k d s. some (insert k d s);
  }

  abbrev pub map_view : List (K × D) → K → Option D
  map_view s k = lookup k s

  updated_of_lem :
      (k : K) (matches : D → Bool) (change : D → D) (n : ℕ) (s s' : List (K × D)) (old : Option D)
      → lookup k s ≡ old
      → updated_of k matches change s old ≡ Updated.updated n s'
      → (j : K)
      → lookup j s' ≡ (if k == j then update_if matches change (lookup j s) else lookup j s)
  updated_of_lem k matches change n s s' none at h j = elim (e.dec k j) [
    | yes same ↦ ground arith
    | no other ↦ ground arith
  ]
  updated_of_lem k matches change n s s' (some d) at h j = elim (Bool-cases (matches d)) [
    | inl matched ↦ ground (arith, lookup-insert k j (change d) s)
    | inr unmatched ↦ ground arith
  ]

  pub map_collection-IsCollection : IsCollection map_collection map_view
  unfolding map_collection
  map_collection-IsCollection = record {
    found_lem = λ k s d h. ground arith;
    absent_lem = λ k s h. ground arith;
    fresh_lem = λ k d s s' h. ground arith;
    insert_lem = λ k d s s' h j. ground (arith, lookup-insert k j d s);
    update_lem =
        λ k matches change n s s' h j. updated_of_lem k matches change n s s' (lookup k s) refl h j;
    unmodified_lem = λ k matches change n s s' h few j. ground arith;
    replace_lem = λ k d s s' h j. ground (arith, lookup-insert k j d s);
  }
