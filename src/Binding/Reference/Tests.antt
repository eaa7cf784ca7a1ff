-- ===== src/Binding/Reference/Tests.antt =====
-- A reference with spaces around it.
use record_hub.Base.{Text, codes, Option, some, ◌≡◌, refl}
use record_hub.Base.Trim.{trim_space}
use record_hub.Binding.Reference.{RecordRef, ref_text, parse_record_ref}
use record_hub.Binding.Reference.Laws.{ref_text-parse_record_ref}

abbrev raw : Text
raw = codes " bids:bid:7\n"

abbrev ref : RecordRef
ref = record { system = codes "bids"; type = codes "bid"; id = codes "7" }

raw_parsed : parse_record_ref raw ≡ some ref
unfolding parse_record_ref record_hub.Base.split trim_space record_hub.Base.ℕ_discrete
    record_hub.Binding.Reference.bad_part record_hub.Base.Trim.is_blank
raw_parsed = refl

ref_text-parse_record_ref_example : ref_text ref ≡ trim_space raw
ref_text-parse_record_ref_example = ref_text-parse_record_ref raw ref raw_parsed
