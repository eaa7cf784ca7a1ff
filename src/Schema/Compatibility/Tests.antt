-- ===== src/Schema/Compatibility/Tests.antt =====
-- Flat objects of strings as instances, and a candidate with one more optional property.
use record_hub.Base.{
  Text, text_eq, codes, any, all, contains, Bool, true, false, Bool-cases, ◌==◌, List, [], ◌∷◌,
  Option, none, some, ◌⊎◌,
}
use record_hub.Base.Map.{lookup}
use record_hub.Schema.Compatibility.{
  Schema, Properties, schema, no_properties, with_property, Property,
}
use record_hub.Schema.Compatibility.Accepts.{Instances, Accepts}

data Instance : Type 0 where
  leaf : Text → Instance
  object : List (Text × Text) → Instance

abbrev type_of : Instance → Text
type_of (leaf s) = codes "string"
type_of (object fields) = codes "object"

abbrev value_of : Instance → Text
value_of (leaf s) = s
value_of (object fields) = []

abbrev leaf_of : Option Text → Option Instance
leaf_of none = none
leaf_of (some s) = some (leaf s)

abbrev field_of : Instance → Text → Option Instance
field_of (leaf s) name = none
field_of (object fields) name = leaf_of (lookup name fields)

abbrev named : (Text → Bool) → List (Text × Text) → Bool
named names fields = all (λ (key, value). names key) fields

abbrev only_named : (Text → Bool) → (Text → Option Text) → Instance → Bool
only_named names others (leaf s) = true
only_named names others (object fields) = named names fields

abbrev world : Instances Text Instance
world = record {
  has_type = λ i t. type_of i == t;
  value_of = value_of;
  field_of = field_of;
  holds = only_named;
}

abbrev text_schema : Schema Text
text_schema = schema (codes "string" ∷ []) none [] [] no_properties

abbrev published : Schema Text
published =
    schema (codes "object" ∷ []) none (codes "name" ∷ []) []
      (with_property (codes "name") text_schema no_properties)

abbrev candidate : Schema Text
candidate = schema (codes "object" ∷ []) none (codes "name" ∷ []) [] (
    with_property (codes "name") text_schema
      (with_property (codes "description") text_schema no_properties))

abbrev sample : Instance
sample = object ((codes "name", codes "Ada") ∷ [])
