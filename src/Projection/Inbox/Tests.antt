-- ===== src/Projection/Inbox/Tests.antt =====
-- The inbox over a collection that never fails.
use record_hub.Base.{
  Text, codes, Bool, true, false, List, [], ◌∷◌, ◌==◌, text_eq, Option, none, some, Result, ok, err,
  if◌then◌else◌, pos, ◌≡◌, ◌≢◌, ◌⊎◌, refl, arith,
}
use record_hub.Database.{Collection}
use record_hub.Database.Maps.{map_collection, map_view, map_collection-IsCollection}
use record_hub.Projection.Inbox.{
  InboxError, InboxStatus, InboxEvent, InboxClaim, InboxClaimResult, EventKey, event_key_eq,
  event_key, claimed_event, normalize_claim, claim,
}
use record_hub.Projection.Inbox.Once.{
  Call, claim_call, applied_call, rejected_call, run, run_keeps_settled, claimed_once,
}

abbrev plain : Text → Text
plain s = s

abbrev events : Collection EventKey InboxEvent (List (EventKey × InboxEvent))
events = map_collection

abbrev a_claim : InboxClaim
a_claim = record {
  event_id = codes "e1";
  consumer = codes "bids";
  subject = codes "bids.closed";
  tenant_id = codes "t";
  workspace_id = codes "w";
  payload = codes "{}";
  received_at = pos 7;
}

abbrev other_claim : InboxClaim
other_claim = record a_claim { payload = codes "[]" }

abbrev event : InboxEvent
event = claimed_event plain a_claim

abbrev other_event : InboxEvent
other_event = claimed_event plain other_claim

abbrev key : EventKey
key = record { event_id = codes "e1"; consumer = codes "bids" }

abbrev empty : List (EventKey × InboxEvent)
empty = []

a_claim_valid : normalize_claim plain a_claim ≡ ok event
unfolding normalize_claim record_hub.Base.Trim.trim_space record_hub.Base.ℕ_discrete
    record_hub.Base.ℤ-discrete record_hub.Base.Trim.is_blank
    record_hub.Projection.Inbox.InboxStatus-discrete
a_claim_valid = refl

other_claim_valid : normalize_claim plain other_claim ≡ ok other_event
unfolding normalize_claim record_hub.Base.Trim.trim_space record_hub.Base.ℕ_discrete
    record_hub.Base.ℤ-discrete record_hub.Base.Trim.is_blank
    record_hub.Projection.Inbox.InboxStatus-discrete
other_claim_valid = refl

keys_same : event_key other_event ≡ event_key event
keys_same = refl

a_claim_ok : (claim events plain a_claim empty).0 ≡ ok (record { event = event; duplicate = false })
unfolding claim normalize_claim record_hub.Base.Trim.trim_space record_hub.Base.ℕ_discrete
    record_hub.Base.ℤ-discrete record_hub.Base.Trim.is_blank
    record_hub.Projection.Inbox.InboxStatus-discrete map_collection record_hub.Base.Map.lookup
a_claim_ok = refl

abbrev later : List Call
later = applied_call key (pos 9) ∷ rejected_call key (codes "no") (pos 10) ∷ []

claimed_once_example :
    let s' = run events plain later (claim events plain a_claim empty).1 in
    ((claim events plain other_claim s').1 ≡ s')
    × ((d : InboxEvent) × (map_view s' (event_key other_event) ≡ some d)
        × (((claim events plain other_claim s').0 ≡ (
              if event.payload_hash == other_event.payload_hash
              then ok (record { event = d; duplicate = true })
              else err InboxError.payload_conflict))
            ⊎ ((claim events plain other_claim s').0 ≡ err InboxError.database_failed)))
claimed_once_example =
    claimed_once events plain map_view map_collection-IsCollection a_claim other_claim event
      other_event (record { event = event; duplicate = false }) empty later a_claim_valid
      other_claim_valid keys_same a_claim_ok

abbrev settled : InboxEvent
settled = record event { status = InboxStatus.applied; applied_at = some (pos 9) }

abbrev stored : List (EventKey × InboxEvent)
stored = (key, settled) ∷ []

settled_there : map_view stored key ≡ some settled
unfolding record_hub.Base.Map.lookup record_hub.Projection.Inbox.EventKey-discrete
    record_hub.Base.Text-discrete
settled_there = refl

settled_closed : settled.status ≢ InboxStatus.processing
settled_closed = ground arith

run_keeps_settled_example :
    map_view (run events plain (claim_call a_claim ∷ later) stored) key ≡ some settled
run_keeps_settled_example =
    run_keeps_settled events plain map_view map_collection-IsCollection (claim_call a_claim ∷ later)
      stored key settled settled_there settled_closed
