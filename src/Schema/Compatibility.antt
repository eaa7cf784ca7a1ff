-- ===== src/Schema/Compatibility.antt =====
-- server/internal/modules/schema/compatibility.go. A schema stands in the form that its decoded and
-- compiled document has: a set of types, perhaps an enumeration, the required names, the other
-- keywords with their values, and properties, each a schema or a boolean. The values of JSON with
-- reflect.DeepEqual are a parameter. A change has no message, and the changes are not sorted.
pub mod Accepts
pub mod Keywords
pub mod Lookups
pub mod Sound
mod Tests
use record_hub.Base.{
  nat_eq, Text, text_eq, codes, contains, Bool, true, false, not, ◌&&◌, ◌||◌, ◌==◌, Eq, List, [],
  ◌∷◌, ◌++◌, map, filter, Option, none, some, if◌then◌else◌,
}
use record_hub.Base.Map.{lookup}

mutual
  pub data Schema (J : Type 0) : Type 0 where
    schema : List Text → Option (List J) → List Text → List (Text × J) → Properties J → Schema J

  pub data Properties (J : Type 0) : Type 0 where
    no_properties : Properties J
    with_property : Text → Schema J → Properties J → Properties J
    with_boolean : Text → Bool → Properties J → Properties J

pub record CompatibilityChange : Type 0 where
  pub path : Text
  pub kind : Text

-- `strings.TrimSuffix(s, ".")`
unfoldable pub trim_dot : Text → Text
trim_dot [] = []
trim_dot (c ∷ []) = if c == b'.' then [] else c ∷ []
trim_dot (c ∷ d ∷ s) = c ∷ trim_dot (d ∷ s)

-- `childPath`
abbrev pub child_path : Text → Text → Text
child_path parent child = trim_dot parent ++ codes ".properties." ++ child

-- The change of a kind at a path, if the test says so.
abbrev pub change_if : Bool → Text → Text → List CompatibilityChange
change_if true path kind = record { path = path; kind = kind } ∷ []
change_if false path kind = []

abbrev pub accepts_type : List Text → Text → Bool
accepts_type new old = contains new old || (old == codes "integer" && contains new (codes "number"))

unfoldable pub narrowed_types : Text → List Text → List Text → List CompatibilityChange
narrowed_types path [] new = []
narrowed_types path (old ∷ others) new =
    change_if (not (accepts_type new old)) path (codes "type-narrowed")
    ++ narrowed_types path others new

-- `compareTypes`
unfoldable pub compare_types : Text → List Text → List Text → List CompatibilityChange
unfolding narrowed_types
compare_types path [] [] = []
compare_types path [] (new ∷ more) = change_if true path (codes "type-narrowed")
compare_types path (old ∷ others) [] = []
compare_types path (old ∷ others) (new ∷ more) = narrowed_types path (old ∷ others) (new ∷ more)

unfoldable pub required_added : Text → List Text → List Text → List CompatibilityChange
required_added path old [] = []
required_added path old (name ∷ names) =
    change_if (not (contains old name)) (child_path path name) (codes "required-added")
    ++ required_added path old names

abbrev pub is_nil : List CompatibilityChange → Bool
is_nil [] = true
is_nil (change ∷ changes) = false

-- What a schema has for the name of a property.
pub data Property (J : Type 0) : Type 0 where
  absent : Property J
  is_schema : Schema J → Property J
  is_boolean : Bool → Property J

unfoldable pub property_at : {J : Type 0} → Text → Properties J → Property J
property_at name no_properties = Property.absent
property_at name (with_property other s rest) =
    let later = property_at name rest in if other == name then Property.is_schema s else later
property_at name (with_boolean other b rest) =
    let later = property_at name rest in if other == name then Property.is_boolean b else later

-- What a published property comes to, by what the candidate has under its name.
abbrev pub property_changes :
    {J : Type 0}
    → Text
    → (Schema J → List CompatibilityChange)
    → Property J
    → List CompatibilityChange
property_changes path compare Property.absent = change_if true path (codes "property-removed")
property_changes path compare (Property.is_schema s) = compare s
property_changes path compare (Property.is_boolean b) = []

module _ {J : Type 0} ⦃e : Eq J⦄ where
  unfoldable pub narrowed_enum : Text → List J → List J → List CompatibilityChange
  narrowed_enum path [] new = []
  narrowed_enum path (old ∷ others) new =
      change_if (not (contains new old)) path (codes "enum-narrowed")
      ++ narrowed_enum path others new

  -- `compareEnum`
  unfoldable pub compare_enum : Text → Option (List J) → Option (List J) → List CompatibilityChange
  unfolding narrowed_enum
  compare_enum path none none = []
  compare_enum path none (some new) = change_if true path (codes "enum-narrowed")
  compare_enum path (some old) none = []
  compare_enum path (some old) (some new) = narrowed_enum path old new

  -- `reflect.DeepEqual(oldSchema[key], newSchema[key])`
  abbrev pub same_value : Option J → Option J → Bool
  same_value none none = true
  same_value (some a) (some b) = a == b
  same_value none (some b) = false
  same_value (some a) none = false

  unfoldable pub changed_constraints :
      Text → List Text → List (Text × J) → List (Text × J) → List CompatibilityChange
  changed_constraints path [] old new = []
  changed_constraints path (key ∷ keys) old new =
      change_if (not (same_value (lookup key old) (lookup key new))) path
        (codes "constraint-changed")
      ++ changed_constraints path keys old new

  abbrev pub keys_of : List (Text × J) → List Text
  keys_of entries = map (λ (key, value). key) entries

  -- `compareOtherConstraints`: the keys of either schema, each once.
  unfoldable pub compare_other_constraints :
      Text → List (Text × J) → List (Text × J) → List CompatibilityChange
  unfolding changed_constraints
  compare_other_constraints path old new =
      changed_constraints path
        (keys_of old ++ filter (λ key. not (contains (keys_of old) key)) (keys_of new)) old new

  unfoldable mutual
    -- `compareSchema`
    pub compare_schema : Text → Schema J → Schema J → List CompatibilityChange
    compare_schema path (schema types enum required others props)
          (schema types' enum' required' others' props') =
        compare_types path types types'
        ++ (compare_enum path enum enum'
            ++ (compare_other_constraints path others others'
                ++ (required_added path required required'
                    ++ compare_properties path props props')))

    -- The loop over the published properties.
    pub compare_properties : Text → Properties J → Properties J → List CompatibilityChange
    compare_properties path no_properties new = []
    compare_properties path (with_property name s rest) new =
        property_changes (child_path path name) (λ s'. compare_schema (child_path path name) s s')
          (property_at name new)
        ++ compare_properties path rest new
    compare_properties path (with_boolean name b rest) new =
        property_changes (child_path path name) (λ s. []) (property_at name new)
        ++ compare_properties path rest new

  -- `CheckBackwardCompatibility`, of schemas that compile.
  unfoldable pub check_backward_compatibility :
      Schema J → Schema J → Bool × List CompatibilityChange
  check_backward_compatibility published candidate =
      let changes = compare_schema (codes "$") published candidate in (is_nil changes, changes)
