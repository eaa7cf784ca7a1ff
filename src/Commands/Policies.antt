-- ===== src/Commands/Policies.antt =====
-- server/internal/modules/commands/service.go: StaticPolicyRegistry.
use record_hub.Base.{Text, text_eq, List, [], ◌∷◌, Option, none, some, Result, ok, err, ◌>>=◌, ◌>>◌}
use record_hub.Base.Map.{lookup, insert}
use record_hub.Base.Trim.{trim_space}
use record_hub.Commands.Model.{Error, Policy, validate_policy, default_limit}
use record_hub.Commands.Store.{scope_key}

abbrev pub Policies : Type 0
Policies = List (Text × Policy)

abbrev pub policy_key : Policy → Text
policy_key p = scope_key p.tenant_id p.workspace_id p.id

-- The policy as the registry keeps it: with the limit filled in.
abbrev pub completed : Policy → Policy
completed p = record p { max_payload = default_limit p.max_payload }

-- One round of the loop in `NewStaticPolicyRegistry`.
register : Policy → Policies → Result Error Policies
register p registry = do
  validate_policy p
  elim (lookup (policy_key p) registry) [
    | some _ ↦ err Error.invalid_request
    | none ↦ ok (insert (policy_key p) (completed p) registry)
  ]

register_all : List Policy → Policies → Result Error Policies
unfolding register
register_all [] registry = ok registry
register_all (p ∷ ps) registry = register p registry >>= λ r. register_all ps r

-- `NewStaticPolicyRegistry`
unfoldable pub new_registry : List Policy → Result Error Policies
unfolding register_all
new_registry policies = register_all policies []

or_not_found : Option Policy → Result Error Policy
or_not_found none = err Error.policy_not_found
or_not_found (some p) = ok p

-- `StaticPolicyRegistry.Find` of a registry that is not nil.
unfoldable pub find_policy : Policies → Text → Text → Text → Result Error Policy
unfolding or_not_found
find_policy registry tenant workspace id =
    or_not_found
      (lookup (scope_key (trim_space tenant) (trim_space workspace) (trim_space id)) registry)
