-- ===== src/Capability/Gate.antt =====
-- `action_request_digest` and `authorize_model_action` of ai_workflow/capability_gate.py. `sha` stands
-- for the SHA-256 of the JSON text of a payload, and `fold` for Unicode's case foldings past ASCII.
use Prim.Native.Nat.{Ordering}
use Prim.Native.String
use ai_workflow_control_plan.Common.{
  Bool, true, false, not, ◌&&◌, ◌||◌, Option, none, some, List, [], ◌∷◌, String, Char, str_eq, ltb,
  if◌then◌else◌, strip, is_blank, contains, length, Result, err, ok, ◌>>=◌, required,
}
use ai_workflow_control_plan.Value.{Value, object}
use ai_workflow_control_plan.Models.{ContextItem}
use ai_workflow_control_plan.Capability.Types.{
  Capability, tool_execution, provider_selection, repository_activation, network_access,
  secret_access, safety_lane_change, skip_verification, DenialReason, unknown_evidence,
  invalid_request, tool_not_allowlisted, control_plane_owned, operator_owned,
  trusted_runtime_grant_required, verification_required, privileged_parameter,
  repository_scope_violation, repository_scope_required, parameter_budget_exceeded, Reason, denial,
  preauthorized_scoped_tool, ModelActionRequest, ModelCapabilityPolicy, AuthorizationDecision,
}
use ai_workflow_control_plan.Capability.Canonical.{
  CanonicalError, parameter_budget, value_error, canonical_value,
}
use ai_workflow_control_plan.Capability.Parameters.{Walk, deny, go, validate_tool_parameters}

-- One step of `sorted(set(...))`: by code points, each text once.
unfoldable pub insert_text : String → List String → List String
insert_text x [] = x ∷ []
insert_text x (y ∷ ys) =
    let further = insert_text x ys in
    elim (String.compare x y) [
      | Ordering.lt ↦ x ∷ y ∷ ys
      | Ordering.eq ↦ y ∷ ys
      | Ordering.gt ↦ y ∷ further
    ]

-- `sorted(set(texts))`
unfoldable pub sorted_set : List String → List String
unfolding insert_text
sorted_set [] = []
sorted_set (x ∷ xs) = insert_text x (sorted_set xs)

-- The payload of a digest; its schema is the constant "model-action-v2".
pub record Payload : Type 0 where
  pub capability : Capability
  pub tool_name : Option String
  pub provider_id : Option String
  pub repository_id : Option String
  pub network_host : Option String
  pub secret_name : Option String
  pub requested_lane : Option String
  pub parameters : Value
  pub cited_evidence_ids : List String

-- The payload for a request and the canonical copy of its parameters.
abbrev pub payload : ModelActionRequest → Value → Payload
payload request parameters = record {
  capability = request.capability;
  tool_name = request.tool_name;
  provider_id = request.provider_id;
  repository_id = request.repository_id;
  network_host = request.network_host;
  secret_name = request.secret_name;
  requested_lane = request.requested_lane;
  parameters = parameters;
  cited_evidence_ids = sorted_set request.cited_evidence_ids;
}

-- `action_request_digest`. `sha` is the digest of the payload's JSON text; `none` is the `ValueError` of a
-- payload whose text cannot be written or encoded.
unfoldable pub action_request_digest :
    (Payload → Option String) → ModelActionRequest → Result CanonicalError String
action_request_digest sha request = canonical_value (object request.parameters) 0 0 >>= λ r.
    required (sha (payload request r.0)) value_error

-- `_evidence_ids`
unfoldable pub evidence_ids : List ContextItem → List String
evidence_ids [] = []
evidence_ids (item ∷ items) =
    let rest = evidence_ids items in
    elim item.evidence [ some envelope ↦ envelope.evidence_id ∷ rest | none ↦ rest ]

-- No cited identity is missing from the known ones.
unfoldable pub all_known : List String → List String → Bool
all_known known [] = true
all_known known (id ∷ ids) = contains known id && all_known known ids

-- `str(request.tool_name or "").strip()`
abbrev pub tool_text : Option String → String
tool_text none = ""
tool_text (some name) = strip name

-- `value is not None and str(value).strip()`
abbrev pub is_given : Option String → Bool
is_given none = false
is_given (some s) = not (is_blank s)

abbrev pub Verdict : Type 0
Verdict = Bool × Reason

abbrev pub denied : DenialReason → Verdict
denied reason = (false, denial reason)

-- The set of repositories after `request.repository_id`, or `none` for a scope violation.
unfoldable pub repository_refs : ModelCapabilityPolicy → Option String → Option (List String)
repository_refs policy none = some []
repository_refs policy (some id) =
    if is_blank id || not (contains policy.active_repository_ids (strip id))
    then none
    else some (strip id ∷ [])

-- The last tests of a tool request, on what the walk over its parameters left.
unfoldable pub scope_verdict : ModelCapabilityPolicy → List String → Walk → Verdict
scope_verdict policy refs (deny reason) = denied reason
scope_verdict policy refs (go count []) = elim refs [
  | [] ↦
      if ltb 1 (length policy.active_repository_ids)
      then denied repository_scope_required
      else (true, preauthorized_scoped_tool)
  | _ ↦ (true, preauthorized_scoped_tool)
]
scope_verdict policy refs (go count (id ∷ ids)) = (true, preauthorized_scoped_tool)

-- `any(...)` over the four fields that a tool request must leave blank.
unfoldable pub has_privileged_field : ModelActionRequest → Bool
has_privileged_field request =
    is_given request.provider_id
    || is_given request.network_host
    || is_given request.secret_name
    || is_given request.requested_lane

module _ (fold : Char → String) (policy : ModelCapabilityPolicy) where
  -- The branch `request.capability == Capability.TOOL_EXECUTION`.
  unfoldable pub tool_verdict : ModelActionRequest → Verdict
  tool_verdict request =
      if str_eq (tool_text request.tool_name) ""
      then denied invalid_request
      else if not (contains policy.allowed_tools (tool_text request.tool_name))
      then denied tool_not_allowlisted
      else if has_privileged_field request
      then denied privileged_parameter
      else elim (repository_refs policy request.repository_id) [
        | none ↦ denied repository_scope_violation
        | some refs ↦
            scope_verdict policy refs (validate_tool_parameters fold policy request.parameters)
      ]

  -- The branches on the capability.
  unfoldable pub capability_verdict : Capability → ModelActionRequest → Verdict
  capability_verdict tool_execution request = tool_verdict request
  capability_verdict provider_selection request = denied control_plane_owned
  capability_verdict repository_activation request = denied operator_owned
  capability_verdict network_access request = denied trusted_runtime_grant_required
  capability_verdict secret_access request = denied trusted_runtime_grant_required
  capability_verdict safety_lane_change request = denied control_plane_owned
  capability_verdict skip_verification request = denied verification_required

  -- `_decision`
  abbrev decision : ModelActionRequest → Verdict → String → AuthorizationDecision
  decision request verdict digest = record {
    allowed = verdict.0;
    reason = verdict.1;
    capability = request.capability;
    request_digest = digest;
    policy_schema = policy.schema;
    task_digest = policy.task_digest;
  }

  -- `"sha256:" + ("0" * 64)`
  abbrev pub zero_digest : String
  zero_digest = "sha256:0000000000000000000000000000000000000000000000000000000000000000"

  unfoldable pub authorize_model_action :
      (Payload → Option String) → ModelActionRequest → List ContextItem → AuthorizationDecision
  authorize_model_action sha request evidence = elim (action_request_digest sha request) [
    | err parameter_budget ↦ decision request (denied parameter_budget_exceeded) zero_digest
    | err value_error ↦ decision request (denied invalid_request) zero_digest
    | ok digest ↦
        if all_known (evidence_ids evidence) request.cited_evidence_ids
        then decision request (capability_verdict request.capability request) digest
        else decision request (denied unknown_evidence) digest
  ]
