-- ===== src/Binding/Reference/Laws.antt =====
-- A reference that was read prints as the text that it was read from.
use record_hub.Base.{
  ℕ, nat_eq, ℕ_discrete, Text, split, any, Bool-cases, List, [], ◌∷◌, ◌++◌, some, ◌≡◌, inl, inr,
  refl, sym, ap, ◌∙◌, arith,
}
use mathlib.Core.Path.{subst}
use record_hub.Base.Trim.{trim_space}
use record_hub.Binding.Reference.{RecordRef, ref_text, of_parts, bad_part, parse_record_ref}

-- strings.Join with a separator of one byte.
abbrev join : ℕ → List Text → Text
join sep [] = []
join sep (part ∷ []) = part
join sep (part ∷ next ∷ parts) = part ++ (sep ∷ join sep (next ∷ parts))

-- A split has a first part.
split-first :
    (sep : ℕ) (s : Text) → (part : Text) × (parts : List Text) × (split sep s ≡ part ∷ parts)
unfolding split
split-first sep [] = ([], [], refl)
split-first sep (c ∷ s) =
    let (part, parts, at) = split-first sep s in
    elim (ℕ_discrete c sep) [
      | yes same ↦ ([], part ∷ parts, ground (arith, at))
      | no other ↦ (c ∷ part, parts, ground (arith, at))
    ]

join-head :
    (sep c : ℕ) (part : Text) (parts : List Text)
    → join sep ((c ∷ part) ∷ parts) ≡ c ∷ join sep (part ∷ parts)
join-head sep c part [] = refl
join-head sep c part (next ∷ parts) = refl

join-split : (sep : ℕ) (s : Text) → join sep (split sep s) ≡ s
unfolding split
join-split sep [] = refl
join-split sep (c ∷ s) =
    let (part, parts, at) = split-first sep s in
    let rest : join sep (part ∷ parts) ≡ s = subst (λ x. join sep x ≡ s) at (join-split sep s) in
    elim (ℕ_discrete c sep) [
      | yes same ↦
          let cut : split sep (c ∷ s) ≡ [] ∷ part ∷ parts = ground (arith, at) in
          subst (λ x. join sep x ≡ c ∷ s) (sym cut)
            (subst (λ k. join sep ([] ∷ part ∷ parts) ≡ k ∷ s) (sym same) (ap (λ x. sep ∷ x) rest))
      | no other ↦
          let cut : split sep (c ∷ s) ≡ (c ∷ part) ∷ parts = ground (arith, at) in
          subst (λ x. join sep x ≡ c ∷ s) (sym cut)
            (join-head sep c part parts ∙ ap (λ x. c ∷ x) rest)
    ]

of_parts-text :
    (parts : List Text) (r : RecordRef) → of_parts parts ≡ some r → ref_text r ≡ join b':' parts
unfolding of_parts ref_text
of_parts-text [] r h = absurd (ground arith)
of_parts-text (a ∷ []) r h = absurd (ground arith)
of_parts-text (a ∷ b ∷ []) r h = absurd (ground arith)
of_parts-text (a ∷ b ∷ c ∷ []) r h = elim (Bool-cases (any bad_part (a ∷ b ∷ c ∷ []))) [
  | inl bad ↦ absurd (ground arith)
  | inr fine ↦
      let made : record { system = a; type = b; id = c } ≡ r = ground arith in
      subst (λ x. ref_text x ≡ a ++ (b':' ∷ (b ++ (b':' ∷ c)))) made refl
]
of_parts-text (a ∷ b ∷ c ∷ d ∷ parts) r h = absurd (ground arith)

-- A reference that is parsed from a text prints as that text without the spaces around it.
pub ref_text-parse_record_ref :
    (raw : Text) (r : RecordRef) → parse_record_ref raw ≡ some r → ref_text r ≡ trim_space raw
unfolding parse_record_ref
ref_text-parse_record_ref raw r h =
    of_parts-text (split b':' (trim_space raw)) r h ∙ join-split b':' (trim_space raw)
