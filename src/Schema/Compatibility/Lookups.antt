-- ===== src/Schema/Compatibility/Lookups.antt =====
-- What no reported change says of the properties under a name.
use record_hub.Base.{Text, text_eq, Text-discrete, Bool, true, Eq, List, [], ◌≡◌, refl, arith}
use mathlib.Core.Path.{subst}
use record_hub.Schema.Compatibility.{
  Schema, Properties, no_properties, with_property, with_boolean, CompatibilityChange, child_path,
  Property, property_at, property_changes, compare_schema, compare_properties,
}
use record_hub.Schema.Compatibility.Accepts.{is_present, names_property, WellFormed, AllFound}
use record_hub.Schema.Compatibility.Keywords.{append_nil}

-- What the comparison of the properties says of one name, when it reports nothing.
module _ {J : Type 0} ⦃e : Eq J⦄ where
  pub compared_at :
      (path : Text) (props new : Properties J) (name : Text) (s s' : Schema J)
      → compare_properties path props new ≡ []
      → property_at name props ≡ Property.is_schema s
      → property_at name new ≡ Property.is_schema s'
      → compare_schema (child_path path name) s s' ≡ []
  unfolding compare_schema property_at
  compared_at path no_properties new name s s' h at at' = absurd (ground arith)
  compared_at path (with_property other t rest) new name s s' h at at' =
      let changes : Text → Property J → List CompatibilityChange = λ n q.
        property_changes (child_path path n) (λ x. compare_schema (child_path path n) t x) q in
      let (first, later) = append_nil (changes other (property_at other new)) _ h in
      elim (Text-discrete other name) [
        | yes same ↦
            let here : changes name (property_at name new) ≡ [] =
              subst (λ n. changes n (property_at n new) ≡ []) same first in
            let there : changes name (Property.is_schema s') ≡ [] =
              subst (λ q. changes name q ≡ []) at' here in
            let t_s : t ≡ s = ground arith in
            subst (λ x. compare_schema (child_path path name) x s' ≡ []) t_s there
        | no differ ↦ compared_at path rest new name s s' later (ground arith) at'
      ]
  compared_at path (with_boolean other b rest) new name s s' h at at' =
      let (first, later) =
        append_nil (property_changes (child_path path other) (λ x. []) (property_at other new)) _
          h in
      elim (Text-discrete other name) [
        | yes same ↦ absurd (ground arith)
        | no differ ↦ compared_at path rest new name s s' later (ground arith) at'
      ]

  changes-present :
      (path : Text) (compare : Schema J → List CompatibilityChange) (q : Property J)
      → property_changes path compare q ≡ []
      → is_present q ≡ true
  changes-present path compare Property.absent h = absurd (ground arith)
  changes-present path compare (Property.is_schema s) h = refl
  changes-present path compare (Property.is_boolean b) h = refl

  pub present_at :
      (path : Text) (props new : Properties J) (name : Text)
      → compare_properties path props new ≡ []
      → names_property props name ≡ true
      → names_property new name ≡ true
  unfolding compare_schema property_at
  present_at path no_properties new name h there = absurd (ground arith)
  present_at path (with_property other t rest) new name h there =
      let compare : Schema J → List CompatibilityChange =
        λ x. compare_schema (child_path path other) t x in
      let (first, later) =
        append_nil (property_changes (child_path path other) compare (property_at other new)) _ h in
      elim (Text-discrete other name) [
        | yes same ↦
            subst (λ n. names_property new n ≡ true) same
              (changes-present (child_path path other) compare (property_at other new) first)
        | no differ ↦ present_at path rest new name later (ground arith)
      ]
  present_at path (with_boolean other b rest) new name h there =
      let (first, later) =
        append_nil (property_changes (child_path path other) (λ x. []) (property_at other new)) _
          h in
      elim (Text-discrete other name) [
        | yes same ↦
            subst (λ n. names_property new n ≡ true) same
              (changes-present (child_path path other) (λ x. []) (property_at other new) first)
        | no differ ↦ present_at path rest new name later (ground arith)
      ]

-- What a well formed schema has under a name.
module _ {J : Type 0} where
  pub found-WellFormed :
      (whole props : Properties J) (name : Text) (s : Schema J)
      → AllFound whole props
      → property_at name props ≡ Property.is_schema s
      → WellFormed s
  unfolding WellFormed property_at
  found-WellFormed whole no_properties name s good at = absurd (ground arith)
  found-WellFormed whole (with_property other t rest) name s (here, fine, more) at =
      elim (Text-discrete other name) [
        | yes same ↦ let t_s : t ≡ s = ground arith in subst (λ x. WellFormed x) t_s fine
        | no differ ↦ found-WellFormed whole rest name s more (ground arith)
      ]
  found-WellFormed whole (with_boolean other b rest) name s good at = absurd good

  pub found-no_boolean :
      (whole props : Properties J) (name : Text) (b : Bool)
      → AllFound whole props
      → property_at name props ≡ Property.is_boolean b
      → ⊥
  unfolding WellFormed property_at
  found-no_boolean whole no_properties name b good at = ground arith
  found-no_boolean whole (with_property other t rest) name b (here, fine, more) at =
      elim (Text-discrete other name) [
        | yes same ↦ ground arith
        | no differ ↦ found-no_boolean whole rest name b more (ground arith)
      ]
  found-no_boolean whole (with_boolean other c rest) name b good at = good
