-- ===== src/Capability/Description.antt =====
-- What the gate of ai_workflow/capability_gate.py allows, said without its order of tests.
use ai_workflow_control_plan.Common.{
  suc, ◌≤◌, ◌≡◌, ◌≢◌, ◌⊎◌, false, Option, none, some, List, [], ◌∷◌, ◌++◌, String, Char, strip,
  is_blank, In, All, length,
}
use ai_workflow_control_plan.Value.{size_fields}
use ai_workflow_control_plan.Models.{ContextItem}
use ai_workflow_control_plan.Capability.Types.{
  tool_execution, ModelActionRequest, ModelCapabilityPolicy,
}
use ai_workflow_control_plan.Capability.Encodable.{EncodableFields}
use ai_workflow_control_plan.Capability.Walks.{BodyFields, inside_fields}
use ai_workflow_control_plan.Capability.Gate.{evidence_ids, tool_text, is_given}

-- The repository that a request names outside its parameters.
abbrev pub given_repository : Option String → List String
given_repository none = []
given_repository (some id) = strip id ∷ []

-- A repository that a request names is active.
abbrev pub RepositoryActive : ModelCapabilityPolicy → Option String → Type 0
RepositoryActive policy none = Unit
RepositoryActive policy (some id) =
    (is_blank id ≡ false) × In (strip id) policy.active_repository_ids

-- The request itself, without its parameters and its citations.
pub record ToolPermitted (policy : ModelCapabilityPolicy) (request : ModelActionRequest)
    : Type 0 where
  pub named : tool_text request.tool_name ≢ ""
  pub allowed : In (tool_text request.tool_name) policy.allowed_tools
  pub no_provider : is_given request.provider_id ≡ false
  pub no_host : is_given request.network_host ≡ false
  pub no_secret : is_given request.secret_name ≡ false
  pub no_lane : is_given request.requested_lane ≡ false
  pub repository : RepositoryActive policy request.repository_id

-- What a permitted action looks like: it runs an allowed tool, cites evidence that the system knows,
-- names no provider, host, secret or lane, and its parameters are bounded, serialisable and in scope.
pub record Permitted (fold : Char → String) (policy : ModelCapabilityPolicy)
    (request : ModelActionRequest) (evidence : List ContextItem) : Type 0 where
  pub is_tool : request.capability ≡ tool_execution
  pub cited : All (λ id. In id (evidence_ids evidence)) request.cited_evidence_ids
  pub tool : ToolPermitted policy request
  pub bounded : suc (size_fields request.parameters) ≤ 256
  pub encodable : EncodableFields request.parameters 1
  pub scoped : BodyFields fold policy request.parameters 1
  pub selected :
      (length policy.active_repository_ids ≤ 1)
      ⊎ (given_repository request.repository_id ++ inside_fields fold policy request.parameters
          ≢ [])
