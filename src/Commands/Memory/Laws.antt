-- ===== src/Commands/Memory/Laws.antt =====
-- The memory store keeps its contract.
use record_hub.Base.{
  Text, Text-discrete, text_eq, int_eq, [], ◌∷◌, none, some, ◌==◌, if◌then◌else◌, ◌≡◌, refl, arith,
}
use record_hub.Base.Map.{lookup, insert, lookup-insert}
use record_hub.Commands.Model.{Operation}
use record_hub.Commands.Store.{Receipt, receipt_eq, receipt_of, own_key}
use record_hub.Commands.Memory.{Values, scan}

-- Every operation stands under its own key, no key is used twice, and no receipt is.
abbrev pub IsValid : Values → Type 0
IsValid [] = Unit
IsValid ((k, o) ∷ m) =
    (k ≡ own_key o) × (lookup k m ≡ none) × (scan (receipt_of o) m ≡ none) × IsValid m

pub lookup-own_key :
    (k : Text) (m : Values) (o : Operation) → IsValid m → lookup k m ≡ some o → k ≡ own_key o
unfolding lookup
lookup-own_key k [] o v h = cc
lookup-own_key k ((j, p) ∷ m) o v h = ground (arith, lookup-own_key k m o v.3)

pub scan-receipt : (q : Receipt) (m : Values) (o : Operation) → scan q m ≡ some o → receipt_of o ≡ q
unfolding scan
scan-receipt q [] o h = cc
scan-receipt q ((j, p) ∷ m) o h = ground (arith, scan-receipt q m o)

-- What is found by a receipt stands under its own key.
pub scan-lookup :
    (q : Receipt) (m : Values) (o : Operation)
    → IsValid m
    → scan q m ≡ some o
    → lookup (own_key o) m ≡ some o
unfolding scan lookup
scan-lookup q [] o v h = cc
scan-lookup q ((j, p) ∷ m) o v h = ground (arith, scan-lookup q m o v.3)

-- An operation under a key is found by its receipt.
pub lookup-scan :
    (k : Text) (m : Values) (o : Operation)
    → IsValid m
    → lookup k m ≡ some o
    → scan (receipt_of o) m ≡ some o
unfolding scan lookup
lookup-scan k [] o v h = cc
lookup-scan k ((j, p) ∷ m) o v h = ground (arith, lookup-scan k m o v.3)

-- Whoever has the receipt of `o` stands where `o` goes.
abbrev pub IsFree : Operation → Values → Type 0
IsFree o m = (c : Operation) → scan (receipt_of o) m ≡ some c → own_key c ≡ own_key o

-- Whoever stands where `o` goes has its receipt.
abbrev pub IsSamePlace : Operation → Values → Type 0
IsSamePlace o m = (c : Operation) → lookup (own_key o) m ≡ some c → receipt_of c ≡ receipt_of o

module _ (o : Operation) where
  pub scan-insert :
      (q : Receipt) (m : Values)
      → IsValid m
      → IsFree o m
      → IsSamePlace o m
      → scan q (insert (own_key o) o m) ≡ (if receipt_of o == q then some o else scan q m)
  unfolding scan insert lookup
  scan-insert q [] v free place = refl
  scan-insert q ((j, p) ∷ m) v free place = elim (Text-discrete j (own_key o)) [
    | yes here ↦ ground (arith, place p)
    | no there ↦
        let rest =
          scan-insert q m v.3 (λ c e. free c (ground arith)) (λ c e. place c (ground arith)) in
        ground (arith, free p, rest)
  ]

  pub insert-IsValid :
      (m : Values) → IsValid m → IsFree o m → IsSamePlace o m → IsValid (insert (own_key o) o m)
  unfolding scan insert lookup
  insert-IsValid [] v free place = (refl, refl, refl, tt)
  insert-IsValid ((j, p) ∷ m) v free place = elim (Text-discrete j (own_key o)) [
    | yes here ↦ ground (arith, place p)
    | no there ↦
        let free' : IsFree o m = λ c e. free c (ground (arith, free p)) in
        let place' : IsSamePlace o m = λ c e. place c (ground arith) in
        let rest = insert-IsValid m v.3 free' place' in
        ground (
          arith,
          rest,
          free p,
          lookup-insert (own_key o) j o m,
          scan-insert (receipt_of p) m v.3 free' place',
        )
  ]
