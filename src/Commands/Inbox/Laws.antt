-- ===== src/Commands/Inbox/Laws.antt =====
-- The inbox runs its owner at most once for an operation, and answers again with what it committed.
use record_hub.Base.{
  Text, Text-discrete, text_eq, Bool, true, false, none, some, ok, int_eq, ◌≡◌, ◌⊎◌, inl, inr,
  arith, Option-cases, >>=-eq-ok,
}
use record_hub.Base.Map.{lookup, insert, lookup-insert}
use record_hub.Commands.Model.{Envelope, ResultEnvelope, validate_result}
use record_hub.Commands.Inbox.{
  InboxStatus, inbox_status_eq, InboxStatus-discrete, InboxEntry, Entries, inbox_key_values,
  inbox_key, new_entry, claim, same_event, committed_with, commit,
}

-- A committed entry has its result.
abbrev pub HasResult : InboxEntry → Type 0
HasResult c = c.status ≡ InboxStatus.committed → (r : ResultEnvelope) × (c.result ≡ some r)

abbrev pub HasResults : Entries → Type 0
HasResults entries = (k : Text) (c : InboxEntry) → lookup k entries ≡ some c → HasResult c

abbrev pub own_inbox_key : InboxEntry → Text
own_inbox_key c = inbox_key_values c.tenant_id c.workspace_id c.owner_system c.operation_id

-- What a claim that succeeds did: it found a committed entry, or it put a new one.
abbrev pub Claimed : Envelope → Entries → InboxEntry → Bool → Entries → Type 0
Claimed e entries c replayed entries' =
    ((replayed ≡ true)
      × (entries' ≡ entries)
      × (lookup (inbox_key e) entries ≡ some c)
      × (c.status ≡ InboxStatus.committed)
      × (c.payload_hash ≡ e.payload_hash)
      × (c.owner_system ≡ e.owner_system)
      × (c.action ≡ e.action))
    ⊎ ((replayed ≡ false)
        × (lookup (inbox_key e) entries ≡ none)
        × (c ≡ new_entry e)
        × (entries' ≡ insert (inbox_key e) (new_entry e) entries))

pub claim-Claimed :
    (e : Envelope) (entries entries' : Entries) (c : InboxEntry) (replayed : Bool)
    → claim e entries ≡ ok (c, replayed, entries')
    → Claimed e entries c replayed entries'
unfolding claim
claim-Claimed e entries entries' c replayed h = elim (Option-cases (lookup (inbox_key e) entries)) [
  | inl nothing ↦ inr (ground arith)
  | inr (there, e) ↦ inl (ground arith)
]

-- What a commit that succeeds did: the entry was committed with the event, or it is now.
abbrev pub Committed : InboxEntry → ResultEnvelope → Entries → Entries → Type 0
Committed c r entries entries' =
    (current : InboxEntry) × (lookup (own_inbox_key c) entries ≡ some current)
    × (((current.status ≡ InboxStatus.committed)
          × (same_event current.result r ≡ true)
          × (entries' ≡ entries))
        ⊎ ((current.status ≡ InboxStatus.claimed)
            × (entries' ≡ insert (own_inbox_key c) (committed_with r current) entries)))

pub commit-Committed :
    (c saved : InboxEntry) (r : ResultEnvelope) (entries entries' : Entries)
    → commit c r entries ≡ ok (saved, entries')
    → Committed c r entries entries'
unfolding commit
commit-Committed c saved r entries entries' h =
    let (u, valid, rest) = >>=-eq-ok (validate_result r) _ h in
    elim (Option-cases (lookup (own_inbox_key c) entries)) [
      | inl nothing ↦ absurd (ground arith)
      | inr (current, there) ↦ elim (InboxStatus-discrete current.status InboxStatus.committed) [
        | yes before ↦ (current, there, inl (ground arith))
        | no open_ ↦ (current, there, inr (ground arith))
      ]
    ]

-- What stays when entries are added and claimed ones are committed.
pub record Keeps (k : Text) (entries entries' : Entries) : Type 0 where
  pub ends :
      (c : InboxEntry)
      → lookup k entries ≡ some c
      → c.status ≡ InboxStatus.committed
      → lookup k entries' ≡ some c
  pub stays :
      (c : InboxEntry) → lookup k entries ≡ some c → (d : InboxEntry) × (lookup k entries' ≡ some d)

pub claim-Keeps :
    (e : Envelope) (entries entries' : Entries) (c : InboxEntry) (replayed : Bool) (k : Text)
    → Claimed e entries c replayed entries'
    → Keeps k entries entries'
claim-Keeps e entries entries' c replayed k (inl h) = record {
  ends = λ d there done. ground arith;
  stays = λ d there. (d, ground arith);
}
claim-Keeps e entries entries' c replayed k (inr h) = record {
  ends = λ d there done. ground (arith, lookup-insert (inbox_key e) k (new_entry e) entries);
  stays = λ d there. (d, ground (arith, lookup-insert (inbox_key e) k (new_entry e) entries));
}

pub commit-Keeps :
    (c : InboxEntry) (r : ResultEnvelope) (entries entries' : Entries) (k : Text)
    → Committed c r entries entries'
    → Keeps k entries entries'
commit-Keeps c r entries entries' k (current, at, inl h) = record {
  ends = λ d there done. ground arith;
  stays = λ d there. (d, ground arith);
}
commit-Keeps c r entries entries' k (current, at, inr h) = record {
  ends = λ d there done.
      ground (arith, lookup-insert (own_inbox_key c) k (committed_with r current) entries);
  stays = λ d there. elim (Text-discrete (own_inbox_key c) k) [
    | yes here ↦ (
      committed_with r current,
      ground (arith, lookup-insert (own_inbox_key c) k (committed_with r current) entries),
    )
    | no other ↦
        (d, ground (arith, lookup-insert (own_inbox_key c) k (committed_with r current) entries))
  ];
}

pub claim-HasResults :
    (e : Envelope) (entries entries' : Entries) (c : InboxEntry) (replayed : Bool)
    → HasResults entries
    → Claimed e entries c replayed entries'
    → HasResults entries'
claim-HasResults e entries entries' c replayed has (inl h) k d there done =
    has k d (ground arith) done
claim-HasResults e entries entries' c replayed has (inr h) k d there done =
    elim (Text-discrete (inbox_key e) k) [
      | yes here ↦ absurd (ground (arith, lookup-insert (inbox_key e) k (new_entry e) entries))
      | no other ↦
          has k d (ground (arith, lookup-insert (inbox_key e) k (new_entry e) entries)) done
    ]

pub commit-HasResults :
    (c : InboxEntry) (r : ResultEnvelope) (entries entries' : Entries)
    → HasResults entries
    → Committed c r entries entries'
    → HasResults entries'
commit-HasResults c r entries entries' has (current, at, inl h) k d there done =
    has k d (ground arith) done
commit-HasResults c r entries entries' has (current, at, inr h) k d there done =
    elim (Text-discrete (own_inbox_key c) k) [
      | yes here ↦
          (r, ground (arith, lookup-insert (own_inbox_key c) k (committed_with r current) entries))
      | no other ↦
          has k d
            (ground (arith, lookup-insert (own_inbox_key c) k (committed_with r current) entries))
            done
    ]
