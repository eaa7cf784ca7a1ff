-- ===== src/Schema/Compatibility/Sound.antt =====
-- A candidate that is reported as compatible accepts what the published schema accepts.
use record_hub.Base.{
  Text, text_eq, Text-discrete, codes, Bool, true, Eq, [], Option, some, ◌≡◌, ◌⊎◌, inl, inr, refl,
  sym, arith,
}
use mathlib.Core.Path.{subst}
use record_hub.Base.Map.{lookup}
use record_hub.Schema.Compatibility.{
  Schema, Properties, schema, no_properties, with_property, with_boolean, child_path, Property,
  property_at, compare_types, compare_enum, compare_other_constraints, required_added,
  compare_schema, compare_properties,
}
use record_hub.Schema.Compatibility.Accepts.{
  Instances, names_property, Accepts, AcceptsAll, WellFormed, AllFound,
}
use record_hub.Schema.Compatibility.Keywords.{
  append_nil, compare_types-ok, compare_enum-ok, required_added-ok,
  compare_other_constraints-lookup,
}
use record_hub.Schema.Compatibility.Lookups.{
  compared_at, present_at, found-WellFormed, found-no_boolean,
}

Property-cases :
    {J : Type 0} (p : Property J)
    → (p ≡ Property.absent)
      ⊎ (((s : Schema J) × (p ≡ Property.is_schema s)) ⊎ ((b : Bool) × (p ≡ Property.is_boolean b)))
Property-cases Property.absent = inl refl
Property-cases (Property.is_schema s) = inr (inl (s, refl))
Property-cases (Property.is_boolean b) = inr (inr (b, refl))

named_absent :
    {J : Type 0} (props : Properties J) (name : Text)
    → property_at name props ≡ Property.absent
    → names_property props name ≡ true
    → ⊥
named_absent props name nothing named = ground arith

-- The laws of JSON Schema that the comparison relies on: an integer is a number; the other keywords
-- accept no less where more properties are named; and, of the schemas of the hub, that they forbid
-- additional properties: an object that they accept has only fields that are named.
pub record JsonSchema {J I : Type 0} (world : Instances J I) : Type 0 where
  pub integer_number :
      (i : I) → world.has_type i (codes "integer") ≡ true → world.has_type i (codes "number") ≡ true
  pub more_names :
      (names names' : Text → Bool) (others : Text → Option J) (i : I)
      → ((n : Text) → names n ≡ true → names' n ≡ true)
      → world.holds names others i ≡ true
      → world.holds names' others i ≡ true
  pub closed :
      (names : Text → Bool) (others : Text → Option J) (i : I)
      → world.holds names others i ≡ true
      → (n : Text) (j : I) → world.field_of i n ≡ some j
      → names n ≡ true

module _ {J I : Type 0} ⦃e : Eq J⦄ (world : Instances J I) (laws : JsonSchema world) where
  accepted_at :
      (props : Properties J) (name : Text) (s : Schema J) (i j : I)
      → AcceptsAll world props i
      → property_at name props ≡ Property.is_schema s
      → world.field_of i name ≡ some j
      → Accepts world s j
  unfolding Accepts property_at
  accepted_at no_properties name s i j good at there = absurd (ground arith)
  accepted_at (with_property other t rest) name s i j (here, more) at there =
      elim (Text-discrete other name) [
        | yes same ↦
            let t_s : t ≡ s = ground arith in
            let at_other : world.field_of i other ≡ some j =
              subst (λ n. world.field_of i n ≡ some j) (sym same) there in
            subst (λ x. Accepts world x j) t_s (here j at_other)
        | no differ ↦ accepted_at rest name s i j more (ground arith) there
      ]
  accepted_at (with_boolean other b rest) name s i j (here, more) at there =
      elim (Text-discrete other name) [
        | yes same ↦ absurd (ground arith)
        | no differ ↦ accepted_at rest name s i j more (ground arith) there
      ]

  mutual
    unfolding Accepts WellFormed compare_schema

    sound_schema :
        (new old : Schema J) (path : Text) (i : I)
        → WellFormed old
        → WellFormed new
        → compare_schema path old new ≡ []
        → Accepts world old i
        → Accepts world new i
    sound_schema (schema types' enum' required' others' props')
          (schema types enum required others props) path i fine fine' h
          (typed, listed, there, other, all_props) =
        let (h1, r1) = append_nil (compare_types path types types') _ h in
        let (h2, r2) = append_nil (compare_enum path enum enum') _ r1 in
        let (h3, r3) = append_nil (compare_other_constraints path others others') _ r2 in
        let (h4, h5) = append_nil (required_added path required required') _ r3 in
        let same : (λ key. lookup key others) ≡ (λ key. lookup key others') =
          λ t key. compare_other_constraints-lookup path others others' key h3 t in
        (
          compare_types-ok world laws.integer_number path types types' i h1 typed,
          compare_enum-ok world path enum enum' i h2 listed,
          required_added-ok world path required required' i h4 there,
          subst (λ f. world.holds (names_property props') f i ≡ true) same
              (laws.more_names (names_property props) (names_property props')
                (λ key. lookup key others) i (λ n. present_at path props props' n h5) other),
          sound_properties props' props' props path i fine' fine h5 all_props
              (laws.closed (names_property props) (λ key. lookup key others) i other),
        )

    sound_properties :
        (rest whole old : Properties J) (path : Text) (i : I)
        → AllFound whole rest
        → AllFound old old
        → compare_properties path old whole ≡ []
        → AcceptsAll world old i
        → ((n : Text) (j : I) → world.field_of i n ≡ some j → names_property old n ≡ true)
        → AcceptsAll world rest i
    sound_properties no_properties whole old path i fine' fine h good closed = tt
    sound_properties (with_property name s' rest) whole old path i (at', fine_s', more) fine h good
          closed =
        (
          λ j there. elim (Property-cases (property_at name old)) [
            | inl nothing ↦ absurd (named_absent old name nothing (closed name j there))
            | inr (inl (s, at)) ↦
                sound_schema s' s (child_path path name) j (found-WellFormed old old name s fine at)
                  fine_s' (compared_at path old whole name s s' h at at')
                  (accepted_at old name s i j good at there)
            | inr (inr (b, at)) ↦ absurd (found-no_boolean old old name b fine at)
          ],
          sound_properties rest whole old path i more fine h good closed,
        )
    sound_properties (with_boolean name b rest) whole old path i fine' fine h good closed =
        absurd fine'
