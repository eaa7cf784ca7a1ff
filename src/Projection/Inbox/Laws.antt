-- ===== src/Projection/Inbox/Laws.antt =====
-- An event is claimed once, and what has left PROCESSING stays as it is.
use record_hub.Base.{
  ℕ, Text, text_eq, Bool, true, false, ◌==◌, Option, none, some, if◌then◌else◌, Result, ok, err,
  ◌≡◌, ◌≢◌, refl, arith,
}
use record_hub.Database.{Inserted, Updated, Collection, IsCollection, update_if}
use record_hub.Projection.Inbox.{
  InboxError, InboxStatus, inbox_status_eq, InboxStatus-discrete, InboxEvent, InboxClaim, EventKey,
  EventKey-discrete, event_key_eq, event_key, normalize_claim, is_processing, after_insert,
  claim_normalized, marked, claim,
}

-- What every call keeps of a stored event: it stays stored with its payload, and once it is not
-- PROCESSING it is not changed.
pub record Keeps (before after : Option InboxEvent) : Type 0 where
  pub settled :
      (e : InboxEvent) → before ≡ some e → e.status ≢ InboxStatus.processing → after ≡ some e
  pub stays :
      (e : InboxEvent)
      → before ≡ some e
      → (e' : InboxEvent) × (after ≡ some e') × (e'.payload_hash ≡ e.payload_hash)

pub Keeps-same : (a b : Option InboxEvent) → b ≡ a → Keeps a b
Keeps-same a b same = record {
  settled = λ e there done. ground arith;
  stays = λ e there. (e, ground arith, refl);
}

pub Keeps-trans : (a b c : Option InboxEvent) → Keeps a b → Keeps b c → Keeps a c
Keeps-trans a b c p q = record {
  settled = λ e there done. q.settled e (p.settled e there done) done;
  stays = λ e there.
      let (e', there', same) = p.stays e there in
      let (e'', there'', same') = q.stays e' there' in (e'', there'', ground arith);
}

pub Keeps-fresh : (a b : Option InboxEvent) → a ≡ none → Keeps a b
Keeps-fresh a b nothing = record {
  settled = λ e there done. absurd (ground arith);
  stays = λ e there. absurd (ground arith);
}

-- A change of PROCESSING events that keeps the payload.
Keeps-update :
    (change : InboxEvent → InboxEvent) (hit : Bool) (a b : Option InboxEvent)
    → ((e : InboxEvent) → (change e).payload_hash ≡ e.payload_hash)
    → b ≡ (if hit then update_if is_processing change a else a)
    → Keeps a b
Keeps-update change false a b same h = Keeps-same a b h
Keeps-update change true none b same h = Keeps-same none b h
Keeps-update change true (some d) b same h = record {
  settled = λ e there done. ground arith;
  stays = λ e there. elim (InboxStatus-discrete d.status InboxStatus.processing) [
    | yes open_ ↦ (change d, ground arith, ground (arith, same d))
    | no closed ↦ (d, ground arith, ground arith)
  ];
}

module _ {S : Type 0} (inbox : Collection EventKey InboxEvent S)
    (view : S → EventKey → Option InboxEvent) (laws : IsCollection inbox view) where
  abbrev pub KeepsAll : S → S → Type 0
  KeepsAll s s' = (k : EventKey) → Keeps (view s k) (view s' k)

  pub KeepsAll-same : (s : S) → KeepsAll s s
  KeepsAll-same s k = Keeps-same (view s k) (view s k) refl

  pub KeepsAll-trans : (s t u : S) → KeepsAll s t → KeepsAll t u → KeepsAll s u
  KeepsAll-trans s t u p q k = Keeps-trans (view s k) (view t k) (view u k) (p k) (q k)

  pub update-Keeps :
      (key : EventKey) (change : InboxEvent → InboxEvent) (n : ℕ) (s s' : S)
      → ((e : InboxEvent) → (change e).payload_hash ≡ e.payload_hash)
      → inbox.update_one key is_processing change s ≡ Updated.updated n s'
      → KeepsAll s s'
  update-Keeps key change n s s' same h k =
      Keeps-update change (key == k) (view s k) (view s' k) same
        (laws.update_lem key is_processing change n s s' h k)

  insert-Keeps :
      (key : EventKey) (e : InboxEvent) (s s' : S)
      → inbox.insert_one key e s ≡ Inserted.inserted s'
      → KeepsAll s s'
  insert-Keeps key e s s' h k = elim (EventKey-discrete key k) [
    | yes here ↦ Keeps-fresh (view s k) (view s' k) (ground (arith, laws.fresh_lem key e s s' h))
    | no other ↦ Keeps-same (view s k) (view s' k) (ground (arith, laws.insert_lem key e s s' h k))
  ]

  after_insert-Keeps :
      (e : InboxEvent) (s : S) (r : Inserted S)
      → inbox.insert_one (event_key e) e s ≡ r
      → KeepsAll s (after_insert inbox e s r).1
  unfolding after_insert
  after_insert-Keeps e s (Inserted.inserted s') h = insert-Keeps (event_key e) e s s' h
  after_insert-Keeps e s Inserted.duplicate_key h = KeepsAll-same s
  after_insert-Keeps e s Inserted.failed h = KeepsAll-same s

  claim_normalized-Keeps :
      (s : S) (r : Result InboxError InboxEvent) → KeepsAll s (claim_normalized inbox s r).1
  unfolding claim_normalized
  claim_normalized-Keeps s (err e) = KeepsAll-same s
  claim_normalized-Keeps s (ok e) = after_insert-Keeps e s (inbox.insert_one (event_key e) e s) refl

  pub marked-Keeps :
      (key : EventKey) (want : InboxStatus) (change : InboxEvent → InboxEvent) (s : S)
      (r : Updated S)
      → ((e : InboxEvent) → (change e).payload_hash ≡ e.payload_hash)
      → inbox.update_one key is_processing change s ≡ r
      → KeepsAll s (marked inbox key want s r).1
  unfolding marked
  marked-Keeps key want change s (Updated.updated n s') same h =
      update-Keeps key change n s s' same h
  marked-Keeps key want change s Updated.failed same h = KeepsAll-same s

  pub claim-Keeps :
      (sha256_hex : Text → Text) (c : InboxClaim) (s : S)
      → KeepsAll s (claim inbox sha256_hex c s).1
  unfolding claim
  claim-Keeps sha256_hex c s = claim_normalized-Keeps s (normalize_claim sha256_hex c)
