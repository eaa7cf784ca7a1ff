-- ===== src/Binding/Reference.antt =====
-- server/internal/modules/binding/model.go: RecordRef, the reference system:type:id.
pub mod Laws
mod Tests
use record_hub.Base.{
  Text, codes, contains_any, split, Bool, ◌||◌, List, [], ◌∷◌, ◌++◌, Option, none, some, any,
  if◌then◌else◌,
}
use record_hub.Base.Trim.{trim_space, is_blank}

pub record RecordRef : Type 0 where
  pub system : Text
  pub type : Text
  pub id : Text

-- `RecordRef.String`
unfoldable pub ref_text : RecordRef → Text
ref_text r = r.system ++ (b':' ∷ (r.type ++ (b':' ∷ r.id)))

unfoldable pub bad_part : Text → Bool
bad_part part = is_blank part || contains_any part (codes " \t\r\n")

-- The reference that three parts make.
pub of_parts : List Text → Option RecordRef
of_parts (a ∷ b ∷ c ∷ []) =
    if any bad_part (a ∷ b ∷ c ∷ []) then none else some (record { system = a; type = b; id = c })
of_parts _ = none

-- `ParseRecordRef`, whose one error is ErrInvalidRecordReference.
unfoldable pub parse_record_ref : Text → Option RecordRef
unfolding of_parts
parse_record_ref raw = of_parts (split b':' (trim_space raw))
