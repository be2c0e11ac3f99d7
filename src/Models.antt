-- ===== src/Models.antt =====
-- ai_workflow/models.py and ai_workflow/providers.py: the values that the control plane passes
-- around. The `reasons` and the diagnostic `confidence` of a route are left out: nothing reads them.
use ai_workflow_control_plan.Common.{Bool, Option, String}

-- `Lane`
pub data Lane : Type 0 where
  answer small full : Lane

-- `Risk`
pub data Risk : Type 0 where
  low medium high : Risk

-- `Lane.value`
abbrev pub lane_value : Lane → String
lane_value answer = "answer"
lane_value small = "small"
lane_value full = "full"

-- `Risk.value`
abbrev pub risk_value : Risk → String
risk_value low = "low"
risk_value medium = "medium"
risk_value high = "high"

-- `RouteDecision`
pub record RouteDecision : Type 0 where
  pub lane : Lane
  pub risk : Risk
  pub structural_context : Bool

-- `ProviderStatus`
pub record ProviderStatus : Type 0 where
  pub superpowers : Bool
  pub code_review_graph : Bool

-- The part of `EvidenceEnvelope` that the gate reads.
pub record EvidenceEnvelope : Type 0 where
  pub evidence_id : String
  pub repository_id : String

-- `ContextItem`: a retrieved text with its source, and the evidence that the system assigned.
pub record ContextItem : Type 0 where
  pub source : String
  pub text : String
  pub stale : Bool
  pub evidence : Option EvidenceEnvelope
