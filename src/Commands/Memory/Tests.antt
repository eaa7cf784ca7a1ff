-- ===== src/Commands/Memory/Tests.antt =====
-- The memory store on two operations.
use record_hub.Base.{codes, List, [], ◌∷◌, none, ok, err, pos, ◌≡◌, refl, arith, text_eq}
use record_hub.Base.Map.{lookup}
use record_hub.Commands.Model.{Error, Status, Operation}
use record_hub.Commands.Memory.{Values, scan, find_by_idempotency, save_cas}
use record_hub.Commands.Memory.Laws.{IsValid}
use record_hub.Commands.Memory.Order.{SameMap, find_by_idempotency_order, save_cas_once}
use record_hub.Commands.Store.{receipt_of}

abbrev one : Operation
one = record {
  id = codes "op1";
  tenant_id = codes "t";
  workspace_id = codes "w";
  policy_id = codes "pay";
  owner_system = codes "bids";
  resource_type = codes "bid";
  action = codes "close";
  purpose = codes "settle";
  resource_ref = codes "bids:bid:7";
  expected_version = none;
  payload_hash = codes "h";
  payload = codes "{}";
  idempotency_key = codes "k1";
  request_id = codes "r1";
  status = Status.accepted;
  revision = pos 1;
  safe_error = [];
  result_event_id = [];
  result_hash = [];
  result_version = none;
  created_by = record { issuer = codes "iss"; subject = codes "robot" };
  created_at = pos 5;
  updated_at = pos 5;
}

abbrev two : Operation
two = record one { id = codes "op2"; idempotency_key = codes "k2" }

abbrev one_way : Values
one_way = (codes "t\0w\0op1", one) ∷ (codes "t\0w\0op2", two) ∷ []

abbrev other_way : Values
other_way = (codes "t\0w\0op2", two) ∷ (codes "t\0w\0op1", one) ∷ []

one_way-IsValid : IsValid one_way
unfolding lookup scan record_hub.Base.Text-discrete record_hub.Commands.Store.Receipt-discrete
one_way-IsValid = (refl, refl, refl, (refl, refl, refl, tt))

other_way-IsValid : IsValid other_way
unfolding lookup scan record_hub.Base.Text-discrete record_hub.Commands.Store.Receipt-discrete
other_way-IsValid = (refl, refl, refl, (refl, refl, refl, tt))

ways-SameMap : SameMap one_way other_way
unfolding lookup
ways-SameMap k = ground arith

find_by_idempotency_order_example :
    find_by_idempotency (receipt_of two) one_way ≡ find_by_idempotency (receipt_of two) other_way
find_by_idempotency_order_example =
    find_by_idempotency_order (receipt_of two) one_way other_way one_way-IsValid other_way-IsValid
      ways-SameMap

abbrev moved : Operation
moved = record one { status = Status.dispatched; revision = pos 2 }

abbrev failed : Operation
failed = record one { status = Status.failed; revision = pos 2 }

abbrev after_save : Values
after_save = (codes "t\0w\0op1", moved) ∷ (codes "t\0w\0op2", two) ∷ []

save_runs : save_cas moved (pos 1) one_way ≡ ok (moved, after_save)
unfolding save_cas lookup record_hub.Base.Text-discrete record_hub.Base.ℤ-discrete
    record_hub.Base.Map.insert
save_runs = refl

save_cas_once_example : save_cas failed (pos 1) after_save ≡ err Error.idempotency
save_cas_once_example =
    save_cas_once moved moved failed (pos 1) one_way after_save save_runs (ground arith) refl
