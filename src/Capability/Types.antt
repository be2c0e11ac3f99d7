-- ===== src/Capability/Types.antt =====
-- The enumerations and dataclasses of ai_workflow/capability_gate.py.
use ai_workflow_control_plan.Common.{ℕ, Bool, Option, List, String}
use ai_workflow_control_plan.Value.{Fields}

-- `Capability`
pub data Capability : Type 0 where
  tool_execution provider_selection repository_activation network_access secret_access : Capability
  safety_lane_change skip_verification : Capability

-- `DenialReason`
pub data DenialReason : Type 0 where
  unknown_evidence invalid_request tool_not_allowlisted control_plane_owned : DenialReason
  operator_owned trusted_runtime_grant_required verification_required : DenialReason
  capability_not_granted privileged_parameter repository_scope_violation : DenialReason
  repository_scope_required path_scope_violation graph_depth_exceeded : DenialReason
  parameter_budget_exceeded : DenialReason

-- The `reason` of a decision: a denial, or "preauthorized_scoped_tool".
pub data Reason : Type 0 where
  denial : DenialReason → Reason
  preauthorized_scoped_tool : Reason

-- `ModelActionRequest`
pub record ModelActionRequest : Type 0 where
  pub capability : Capability
  pub tool_name : Option String
  pub provider_id : Option String
  pub repository_id : Option String
  pub network_host : Option String
  pub secret_name : Option String
  pub requested_lane : Option String
  pub parameters : Fields
  pub cited_evidence_ids : List String

-- `ModelCapabilityPolicy`. `denied_by_default` is a constant that no decision reads.
pub record ModelCapabilityPolicy : Type 0 where
  pub schema : String
  pub lane : String
  pub risk : String
  pub allowed_tools : List String
  pub active_repository_ids : List String
  pub verification_passes : ℕ
  pub max_graph_depth : ℕ
  pub task_digest : Option String

-- `AuthorizationDecision`
pub record AuthorizationDecision : Type 0 where
  pub allowed : Bool
  pub reason : Reason
  pub capability : Capability
  pub request_digest : String
  pub policy_schema : String
  pub task_digest : Option String

-- `_MAX_PARAMETER_DEPTH`, `_MAX_PARAMETER_NODES`, `_MAX_PARAMETER_STRING_CHARS`
abbrev pub max_parameter_depth : ℕ
max_parameter_depth = 6

abbrev pub max_parameter_nodes : ℕ
max_parameter_nodes = 256

abbrev pub max_parameter_string_chars : ℕ
max_parameter_string_chars = 4096
