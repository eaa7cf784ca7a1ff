-- ===== src/Identity/Rotation.antt =====
-- server/internal/modules/identity/rotation.go: PrincipalRotationService over its map of rotations
-- and MemoryRotationAudit. A method runs under one mutex, so it is one step from state to state;
-- `service.now()` is the argument `now`.
pub mod Laws
pub mod Traces
pub mod Final
pub mod Audit
pub mod Handover
use record_hub.Base.{
  ℕ, ◌+◌, Text, Text-discrete, text_eq, codes, is_empty, contains_any, Bool, true, false, not, ◌&&◌,
  ◌||◌, Eq, ◌==◌, ◌!=◌, nat_eq, Option, none, some, List, [], ◌∷◌, ◌++◌, Result, ok, err, ◌>>=◌,
  ◌>>◌, reject_if, if◌then◌else◌, ℤ, pos, int_eq, ltb_ℤ, inc64, Time, length, drop, take, all, any,
  leb, contains,
}
use record_hub.Base.Map.{lookup, insert}
use record_hub.Base.Trim.{is_blank, trim_space}
use record_hub.Base.Decimal.{decimal_ℤ}

pub data PrincipalState : Type 0 where
  active candidate draining revoked : PrincipalState

unfoldable pub PrincipalState-discrete : Discrete PrincipalState
PrincipalState-discrete = hlevel

instance abbrev pub principal_state_eq : Eq PrincipalState
principal_state_eq = record { dec = PrincipalState-discrete }

abbrev pub state_text : PrincipalState → Text
state_text PrincipalState.active = codes "ACTIVE"
state_text PrincipalState.candidate = codes "CANDIDATE"
state_text PrincipalState.draining = codes "DRAINING"
state_text PrincipalState.revoked = codes "REVOKED"

pub data Error : Type 0 where
  not_found conflict invalid_scope invalid_input invalid_state in_flight audit unknown_owner : Error

pub record WorkloadScope : Type 0 where
  pub tenant_id : Text
  pub workspace_id : Text
  pub owner_system : Text
  pub resource_type : Text

pub record AuditEntry : Type 0 where
  pub event_id : Text
  pub owner : Text
  pub old_principal_hash : Text
  pub new_principal_hash : Text
  pub state : Text
  pub actor : Text
  pub reason : Text
  pub occurred_at : Time

pub record Rotation : Type 0 where
  pub owner : Text
  pub scope : WorkloadScope
  pub audience : Text
  pub old_principal_hash : Text
  pub new_principal_hash : Text
  pub old_state : PrincipalState
  pub new_state : PrincipalState
  pub dual_accepted : Bool
  pub in_flight : ℤ
  pub revision : ℤ
  pub updated_at : Time

pub record CreateRequest : Type 0 where
  pub owner : Text
  pub scope : WorkloadScope
  pub audience : Text
  pub old_principal_hash : Text
  pub new_principal_hash : Text
  pub actor : Text
  pub reason : Text

-- MemoryRotationAudit: the entries, and whether SetError has set an error.
pub record MemoryAudit : Type 0 where
  pub entries : List AuditEntry
  pub failing : Bool

-- The service; `audit` is nil where no writer was given.
pub record Service : Type 0 where
  pub values : List (Text × Rotation)
  pub audit : Option MemoryAudit

abbrev pub workload_owners : List Text
workload_owners = codes "approver" ∷ codes "fluxion" ∷ codes "bids" ∷ codes "settlement" ∷ []

-- One round of the loop in `validScope`.
exact_name : Text → Bool
exact_name value = not (is_blank value || contains_any (trim_space value) (codes "*?"))

unfoldable pub valid_scope : WorkloadScope → Bool
unfolding exact_name
valid_scope scope =
    exact_name scope.tenant_id
    && exact_name scope.workspace_id
    && exact_name scope.owner_system
    && exact_name scope.resource_type
    && contains workload_owners scope.owner_system

-- What hex.DecodeString accepts, at an even length.
is_hex_digit : ℕ → Bool
is_hex_digit c =
    (leb b'0' c && leb c b'9') || (leb b'a' c && leb c b'f') || (leb b'A' c && leb c b'F')

unfoldable pub valid_principal_hash : Text → Bool
unfolding is_hex_digit
valid_principal_hash value =
    let v = trim_space value in
    length v == 71 && take 7 v == codes "sha256:" && all is_hex_digit (drop 7 v)

unfoldable pub validate_create : CreateRequest → Result Error (Unit {0})
validate_create r = do
  reject_if (not (contains workload_owners (trim_space r.owner))) Error.unknown_owner
  reject_if (not (valid_scope r.scope)) Error.invalid_scope
  reject_if
      (is_blank r.audience
        || not (valid_principal_hash r.old_principal_hash)
        || not (valid_principal_hash r.new_principal_hash)
        || r.old_principal_hash == r.new_principal_hash
        || is_blank r.actor
        || is_blank r.reason)
      Error.invalid_input

unfoldable pub audit_entry : Rotation → Text → Text → Text → AuditEntry
audit_entry rotation action actor reason = record {
  event_id = rotation.owner ++ codes "-" ++ decimal_ℤ rotation.revision;
  owner = rotation.owner;
  old_principal_hash = rotation.old_principal_hash;
  new_principal_hash = rotation.new_principal_hash;
  state =
      action
      ++ codes ":"
      ++ state_text rotation.old_state
      ++ codes ":"
      ++ state_text rotation.new_state;
  actor = actor;
  reason = reason;
  occurred_at = rotation.updated_at;
}

-- `auditLocked` with MemoryRotationAudit.AppendRotation: the writer after the append.
unfoldable pub audit_locked :
    Option MemoryAudit → Rotation → Text → Text → Text → Result Error MemoryAudit
unfolding audit_entry
audit_locked none rotation action actor reason = err Error.audit
audit_locked (some writer) rotation action actor reason =
    if is_blank actor || is_blank reason
    then err Error.invalid_input
    else if writer.failing
    then err Error.audit
    else ok (record writer {
      entries = writer.entries ++ audit_entry rotation action actor reason ∷ [];
    })

-- Stores a rotation once its audit entry is written.
pub commit : Service → Text → Rotation → Text → Text → Text → Result Error (Rotation × Service)
unfolding audit_locked
commit service owner rotation action actor reason = do
  writer ← audit_locked service.audit rotation action actor reason
  ok (rotation, record { values = insert owner rotation service.values; audit = some writer })

abbrev pub initial : CreateRequest → Time → Rotation
initial r now = record {
  owner = r.owner;
  scope = r.scope;
  audience = r.audience;
  old_principal_hash = r.old_principal_hash;
  new_principal_hash = r.new_principal_hash;
  old_state = PrincipalState.active;
  new_state = PrincipalState.candidate;
  dual_accepted = false;
  in_flight = pos 0;
  revision = pos 1;
  updated_at = now;
}

unfoldable pub create_candidate : Time → CreateRequest → Service → Result Error (Rotation × Service)
unfolding commit
create_candidate now r service = do
  validate_create r
  elim (lookup r.owner service.values) [
    | some _ ↦ err Error.conflict
    | none ↦ commit service r.owner (initial r now) (codes "CREATE_CANDIDATE") r.actor r.reason
  ]

-- What a transition's closure does to the copy of the rotation, or why it refuses.
abbrev pub Mutation : Type 0
Mutation = Rotation → Result Error Rotation

abbrev pub stamped : Time → Rotation → Rotation
stamped now r = record r { revision = inc64 r.revision; updated_at = now }

pub transition :
    Time → Text → Text → Text → Text → Mutation → Service → Result Error (Rotation × Service)
unfolding commit
transition now owner action actor reason mutate service = do
  reject_if (is_blank owner || is_blank actor || is_blank reason) Error.invalid_input
  elim (lookup owner service.values) [
    | none ↦ err Error.not_found
    | some rotation ↦ mutate rotation >>= λ updated.
        commit service owner (stamped now updated) action actor reason
  ]

unfoldable pub to_dual_accept : Mutation
to_dual_accept r =
    if r.old_state != PrincipalState.active || r.new_state != PrincipalState.candidate
    then err Error.invalid_state
    else ok (record r { dual_accepted = true })

unfoldable pub to_drain : Mutation
to_drain r =
    if not r.dual_accepted
      || r.old_state != PrincipalState.active
      || r.new_state != PrincipalState.candidate
    then err Error.invalid_state
    else ok (record r { old_state = PrincipalState.draining })

unfoldable pub to_revoke : Mutation
to_revoke r =
    if r.old_state != PrincipalState.draining || r.new_state != PrincipalState.candidate
    then err Error.invalid_state
    else if r.in_flight != pos 0
    then err Error.in_flight
    else ok (record r { old_state = PrincipalState.revoked; new_state = PrincipalState.active })

unfoldable pub to_emergency : Mutation
to_emergency r =
    if r.old_state == PrincipalState.revoked
    then err Error.invalid_state
    else ok (record r { old_state = PrincipalState.revoked })

unfoldable pub dual_accept : Time → Text → Text → Text → Service → Result Error (Rotation × Service)
unfolding transition to_dual_accept
dual_accept now owner actor reason =
    transition now owner (codes "DUAL_ACCEPT") actor reason to_dual_accept

unfoldable pub drain_old : Time → Text → Text → Text → Service → Result Error (Rotation × Service)
unfolding transition to_drain
drain_old now owner actor reason = transition now owner (codes "DRAIN_OLD") actor reason to_drain

unfoldable pub revoke_old : Time → Text → Text → Text → Service → Result Error (Rotation × Service)
unfolding transition to_revoke
revoke_old now owner actor reason = transition now owner (codes "REVOKE_OLD") actor reason to_revoke

unfoldable pub emergency_revoke :
    Time → Text → Text → Text → Service → Result Error (Rotation × Service)
unfolding transition to_emergency
emergency_revoke now owner actor reason =
    transition now owner (codes "EMERGENCY_REVOKE") actor reason to_emergency

unfoldable pub set_in_flight : Time → Text → ℤ → Service → Result Error (Rotation × Service)
set_in_flight now owner count service =
    if ltb_ℤ count (pos 0) then err Error.invalid_input else elim (lookup owner service.values) [
      | none ↦ err Error.not_found
      | some rotation ↦
          let updated = stamped now (record rotation { in_flight = count }) in
          ok (updated, record service { values = insert owner updated service.values })
    ]

unfoldable pub get : Text → Service → Result Error Rotation
get owner service = elim (lookup owner service.values) [
  | none ↦ err Error.not_found
  | some rotation ↦ ok rotation
]
