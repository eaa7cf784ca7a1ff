-- ===== src/Schema/Compatibility/Accepts.antt =====
-- What a schema accepts, in the words of JSON Schema: the meaning of the keywords that the
-- comparison reads. What an instance is, and the meaning of the other keywords, are parameters.
use record_hub.Base.{
  Text, text_eq, contains, any, all, Bool, true, false, Eq, List, [], ◌∷◌, Option, none, some, ◌≡◌,
  ◌⊎◌,
}
use record_hub.Base.Map.{lookup}
use record_hub.Schema.Compatibility.{
  Schema, Properties, schema, no_properties, with_property, with_boolean, Property, property_at,
}

-- Instances: their types, their value, the field of an object, and whether the other keywords hold,
-- which may read the names of the properties, as `additionalProperties` does.
pub record Instances (J I : Type 0) : Type 0 where
  pub has_type : I → Text → Bool
  pub value_of : I → J
  pub field_of : I → Text → Option I
  pub holds : (Text → Bool) → (Text → Option J) → I → Bool

abbrev pub is_there : {A : Type 0} → Option A → Bool
is_there none = false
is_there (some a) = true

abbrev pub is_present : {J : Type 0} → Property J → Bool
is_present Property.absent = false
is_present _ = true

abbrev pub names_property : {J : Type 0} → Properties J → Text → Bool
names_property props name = is_present (property_at name props)

module _ {J I : Type 0} ⦃e : Eq J⦄ (world : Instances J I) where
  abbrev pub type_ok : List Text → I → Bool
  type_ok [] i = true
  type_ok (t ∷ types) i = any (world.has_type i) (t ∷ types)

  abbrev pub enum_ok : Option (List J) → I → Bool
  enum_ok none i = true
  enum_ok (some values) i = contains values (world.value_of i)

  abbrev pub required_ok : List Text → I → Bool
  required_ok names i = all (λ name. is_there (world.field_of i name)) names

  unfoldable mutual
    pub Accepts : Schema J → I → Type 0
    Accepts (schema types enum required others props) i =
        (type_ok types i ≡ true)
        × (enum_ok enum i ≡ true)
        × (required_ok required i ≡ true)
        × (world.holds (names_property props) (λ key. lookup key others) i ≡ true)
        × AcceptsAll props i

    pub AcceptsAll : Properties J → I → Type 0
    AcceptsAll no_properties i = Unit
    AcceptsAll (with_property name s rest) i =
        ((j : I) → world.field_of i name ≡ some j → Accepts s j) × AcceptsAll rest i
    AcceptsAll (with_boolean name b rest) i =
        ((b ≡ true) ⊎ (world.field_of i name ≡ none)) × AcceptsAll rest i

-- A schema whose properties, at every level, have different names and are schemas.
unfoldable mutual
  pub WellFormed : {J : Type 0} → Schema J → Type 0
  WellFormed (schema types enum required others props) = AllFound props props

  pub AllFound : {J : Type 0} → Properties J → Properties J → Type 0
  AllFound whole no_properties = Unit
  AllFound whole (with_property name s rest) =
      (property_at name whole ≡ Property.is_schema s) × WellFormed s × AllFound whole rest
  AllFound whole (with_boolean name b rest) = ⊥
