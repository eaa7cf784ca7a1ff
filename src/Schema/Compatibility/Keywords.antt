-- ===== src/Schema/Compatibility/Keywords.antt =====
-- No change of a keyword is reported only if the keyword accepts what it did.
use record_hub.Base.{
  Text, text_eq, Text-discrete, codes, contains, any, all, filter, Bool, true, false, not, ◌||◌, Eq,
  List, [], ◌∷◌, ◌++◌, Option, none, some, Bool-cases, ◌≡◌, inl, inr, refl, sym, ap, ◌∙◌, arith,
}
use mathlib.Core.Path.{subst}
use record_hub.Base.Map.{lookup}
use record_hub.Schema.Compatibility.{
  change_if, accepts_type, narrowed_types, compare_types, required_added, narrowed_enum,
  compare_enum, same_value, changed_constraints, keys_of, compare_other_constraints, child_path,
}
use record_hub.Schema.Compatibility.Accepts.{Instances, type_ok, enum_ok, required_ok, is_there}

pub append_nil :
    {A : Type 0} (front back : List A) → front ++ back ≡ [] → (front ≡ []) × (back ≡ [])
append_nil [] back h = (refl, h)
append_nil (x ∷ front) back h = absurd (ground arith)

change_if-nil : (b : Bool) (path kind : Text) → change_if (not b) path kind ≡ [] → b ≡ true
change_if-nil true path kind h = refl
change_if-nil false path kind h = absurd (ground arith)

pub contains-any :
    (p : Text → Bool) (xs : List Text) (a : Text)
    → contains xs a ≡ true
    → p a ≡ true
    → any p xs ≡ true
contains-any p [] a h holds = absurd (ground arith)
contains-any p (x ∷ xs) a h holds = ground (arith, contains-any p xs a)

pub contains-all :
    (p : Text → Bool) (xs : List Text) (a : Text)
    → contains xs a ≡ true
    → all p xs ≡ true
    → p a ≡ true
contains-all p [] a h holds = absurd (ground arith)
contains-all p (x ∷ xs) a h holds = ground (arith, contains-all p xs a)

contains-append :
    (xs ys : List Text) (key : Text)
    → contains (xs ++ ys) key ≡ (contains xs key || contains ys key)
contains-append [] ys key = refl
contains-append (x ∷ xs) ys key = ground (arith, contains-append xs ys key)

contains-filter :
    (p : Text → Bool) (xs : List Text) (key : Text)
    → contains xs key ≡ true
    → p key ≡ true
    → contains (filter p xs) key ≡ true
contains-filter p [] key h good = absurd (ground arith)
contains-filter p (x ∷ xs) key h good = elim (Text-discrete x key) [
  | yes same ↦
      (let good_x : p x ≡ true = subst (λ k. p k ≡ true) (sym same) good in ground (arith, good_x))
  | no other ↦ (let rest = contains-filter p xs key (ground arith) good in ground (arith, rest))
]

-- The law of JSON Schema that every integer is a number.
module _ {J I : Type 0} ⦃e : Eq J⦄ (world : Instances J I)
    (integer_number : (i : I)
      → world.has_type i (codes "integer") ≡ true
      → world.has_type i (codes "number") ≡ true) where
  accepts_type-any :
      (new : List Text) (old : Text) (i : I)
      → accepts_type new old ≡ true
      → world.has_type i old ≡ true
      → any (world.has_type i) new ≡ true
  accepts_type-any new old i h typed = elim (Bool-cases (contains new old)) [
    | inl direct ↦ contains-any (world.has_type i) new old direct typed
    | inr wider ↦ elim (Text-discrete old (codes "integer")) [
      | yes whole ↦
          contains-any (world.has_type i) new (codes "number") (ground arith)
            (integer_number i (subst (λ t. world.has_type i t ≡ true) whole typed))
      | no other ↦ absurd (ground arith)
    ]
  ]

  narrowed_types-any :
      (path : Text) (olds new : List Text) (i : I)
      → narrowed_types path olds new ≡ []
      → any (world.has_type i) olds ≡ true
      → any (world.has_type i) new ≡ true
  unfolding narrowed_types
  narrowed_types-any path [] new i h typed = absurd (ground arith)
  narrowed_types-any path (old ∷ olds) new i h typed =
      let (first, rest) =
        append_nil (change_if (not (accepts_type new old)) path (codes "type-narrowed")) _ h in
      elim (Bool-cases (world.has_type i old)) [
        | inl here ↦
            accepts_type-any new old i
              (change_if-nil (accepts_type new old) path (codes "type-narrowed") first) here
        | inr later ↦ narrowed_types-any path olds new i rest (ground arith)
      ]

  pub compare_types-ok :
      (path : Text) (old new : List Text) (i : I)
      → compare_types path old new ≡ []
      → type_ok world old i ≡ true
      → type_ok world new i ≡ true
  unfolding compare_types
  compare_types-ok path [] [] i h typed = refl
  compare_types-ok path [] (t ∷ new) i h typed = absurd (ground arith)
  compare_types-ok path (t ∷ old) [] i h typed = refl
  compare_types-ok path (t ∷ old) (t' ∷ new) i h typed =
      narrowed_types-any path (t ∷ old) (t' ∷ new) i h typed

module _ {J I : Type 0} ⦃e : Eq J⦄ (world : Instances J I) where
  narrowed_enum-contains :
      (path : Text) (olds new : List J) (v : J)
      → narrowed_enum path olds new ≡ []
      → contains olds v ≡ true
      → contains new v ≡ true
  unfolding narrowed_enum
  narrowed_enum-contains path [] new v h has = absurd (ground arith)
  narrowed_enum-contains path (old ∷ olds) new v h has =
      let (first, rest) =
        append_nil (change_if (not (contains new old)) path (codes "enum-narrowed")) _ h in
      let kept = change_if-nil (contains new old) path (codes "enum-narrowed") first in
      elim (e.dec old v) [
        | yes same ↦ subst (λ x. contains new x ≡ true) same kept
        | no other ↦ narrowed_enum-contains path olds new v rest (ground arith)
      ]

  pub compare_enum-ok :
      (path : Text) (old new : Option (List J)) (i : I)
      → compare_enum path old new ≡ []
      → enum_ok world old i ≡ true
      → enum_ok world new i ≡ true
  unfolding compare_enum
  compare_enum-ok path none none i h has = refl
  compare_enum-ok path none (some new) i h has = absurd (ground arith)
  compare_enum-ok path (some old) none i h has = refl
  compare_enum-ok path (some old) (some new) i h has =
      narrowed_enum-contains path old new (world.value_of i) h has

  pub required_added-ok :
      (path : Text) (old new : List Text) (i : I)
      → required_added path old new ≡ []
      → required_ok world old i ≡ true
      → required_ok world new i ≡ true
  unfolding required_added
  required_added-ok path old [] i h there = refl
  required_added-ok path old (name ∷ names) i h there =
      let (first, rest) =
        append_nil
          (change_if (not (contains old name)) (child_path path name) (codes "required-added")) _
          h in
      let kept =
        change_if-nil (contains old name) (child_path path name) (codes "required-added") first in
      let here = contains-all (λ n. is_there (world.field_of i n)) old name kept there in
      let later = required_added-ok path old names i rest there in ground (arith, here, later)

module _ {J : Type 0} ⦃e : Eq J⦄ where
  same_value-path : (a b : Option J) → same_value a b ≡ true → a ≡ b
  same_value-path none none h = refl
  same_value-path (some a) (some b) h = elim (e.dec a b) [
    | yes same ↦ ap some same
    | no other ↦ absurd (ground arith)
  ]
  same_value-path none (some b) h = absurd (ground arith)
  same_value-path (some a) none h = absurd (ground arith)

  changed_constraints-lookup :
      (path : Text) (keys : List Text) (old new : List (Text × J)) (key : Text)
      → changed_constraints path keys old new ≡ []
      → contains keys key ≡ true
      → lookup key old ≡ lookup key new
  unfolding changed_constraints
  changed_constraints-lookup path [] old new key h has = absurd (ground arith)
  changed_constraints-lookup path (k ∷ keys) old new key h has =
      let (first, rest) =
        append_nil
          (change_if (not (same_value (lookup k old) (lookup k new))) path
            (codes "constraint-changed"))
          _ h in
      elim (Text-discrete k key) [
        | yes same ↦
            subst (λ x. lookup x old ≡ lookup x new) same
              (same_value-path (lookup k old) (lookup k new) (
                change_if-nil (same_value (lookup k old) (lookup k new)) path
                  (codes "constraint-changed") first))
        | no other ↦ changed_constraints-lookup path keys old new key rest (ground arith)
      ]

  lookup-none :
      (entries : List (Text × J)) (key : Text)
      → contains (keys_of entries) key ≡ false
      → lookup key entries ≡ none
  unfolding lookup
  lookup-none [] key h = refl
  lookup-none ((k, v) ∷ entries) key h = ground (arith, lookup-none entries key)

  -- No change of another keyword: they have the same values.
  pub compare_other_constraints-lookup :
      (path : Text) (old new : List (Text × J)) (key : Text)
      → compare_other_constraints path old new ≡ []
      → lookup key old ≡ lookup key new
  unfolding compare_other_constraints
  compare_other_constraints-lookup path old new key h =
      let more = filter (λ k. not (contains (keys_of old) k)) (keys_of new) in
      elim (Bool-cases (contains (keys_of old) key)) [
        | inl here ↦
            changed_constraints-lookup path (keys_of old ++ more) old new key h
              (contains-append (keys_of old) more key ∙ rw here refl)
        | inr apart ↦ elim (Bool-cases (contains (keys_of new) key)) [
          | inl there ↦ changed_constraints-lookup path (keys_of old ++ more) old new key h (
              contains-append (keys_of old) more key
              ∙ rw apart (
                  contains-filter (λ k. not (contains (keys_of old) k)) (keys_of new) key there
                    (rw apart refl)))
          | inr nowhere ↦ lookup-none old key apart ∙ sym (lookup-none new key nowhere)
        ]
      ]
