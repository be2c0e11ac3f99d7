-- ===== src/Orchestration.antt =====
-- ai_workflow/orchestration.py: the bounded contract of agents, skills, graph calls and passes.
pub mod Bounds
pub mod Growth
mod Tests
use ai_workflow_control_plan.Common.{
  ℕ, ◌+◌, ◌-◌, ◌*◌, min, max, Bool, true, false, not, ◌&&◌, ◌||◌, Option, none, some, List, [], ◌∷◌,
  ◌++◌, String, str_eq, leb, if◌then◌else◌, int_of, take,
}
use ai_workflow_control_plan.Common.Int.{ℤ, pos, pos_part}
use ai_workflow_control_plan.Models.{
  Lane, answer, small, full, Risk, low, medium, high, RouteDecision, ProviderStatus,
}

-- The five entries of `execution.orchestration_budget`; a missing one is `none`.
pub record BudgetConfig : Type 0 where
  pub max_agent_slots : Option ℤ
  pub max_crg_calls : Option ℤ
  pub max_graph_depth : Option ℤ
  pub review_passes : Option ℤ
  pub verification_passes : Option ℤ

-- `ComplexityVector`
pub record ComplexityVector : Type 0 where
  pub lane_weight : ℕ
  pub risk_weight : ℕ
  pub changed_file_count : ℕ
  pub workspace_root_count : ℕ
  pub structural_intent : Bool
  pub evidence_gap : Bool

-- `OrchestrationBudget`
pub record OrchestrationBudget : Type 0 where
  pub max_agent_slots : ℕ
  pub max_crg_calls : ℕ
  pub max_graph_depth : ℕ
  pub review_passes : ℕ
  pub verification_passes : ℕ

-- `OrchestrationContract`
pub record OrchestrationContract : Type 0 where
  pub complexity_vector : ComplexityVector
  pub complexity_score : ℕ
  pub superpowers_skills : List String
  pub crg_plan : List String
  pub agent_slots : ℕ
  pub review_passes : ℕ
  pub verification_passes : ℕ
  pub graph_depth : ℕ
  pub budget : OrchestrationBudget
  pub native_fallback : Bool

-- What the contract reads of the retrieval diagnostics, with the defaults of a missing entry put in.
pub record Diagnostics : Type 0 where
  pub retrieval_intent : String
  pub sufficient : Bool
  pub selective_enabled : Bool
  pub selective_accept : Bool

lane_weight : Lane → ℕ
lane_weight answer = 0
lane_weight small = 1
lane_weight full = 2

unfoldable pub risk_weight : Risk → ℕ
risk_weight low = 0
risk_weight medium = 1
risk_weight high = 2

-- `max(least, int(raw.get(name, default)))`
setting : ℕ → ℕ → Option ℤ → ℕ
setting least default none = max least default
setting least default (some z) = max least (pos_part z)

pub budget : BudgetConfig → OrchestrationBudget
unfolding setting
budget raw = record {
  max_agent_slots = setting 1 4 raw.max_agent_slots;
  max_crg_calls = setting 0 6 raw.max_crg_calls;
  max_graph_depth = setting 1 3 raw.max_graph_depth;
  review_passes = setting 1 2 raw.review_passes;
  verification_passes = setting 1 2 raw.verification_passes;
}

complexity : RouteDecision → Diagnostics → ℕ → ℕ → ComplexityVector
unfolding lane_weight risk_weight
complexity decision diagnostics changed_files workspace_count = record {
  lane_weight = lane_weight decision.lane;
  risk_weight = risk_weight decision.risk;
  changed_file_count = changed_files;
  workspace_root_count = max 1 workspace_count;
  structural_intent =
      str_eq diagnostics.retrieval_intent "structural" || decision.structural_context;
  evidence_gap = not (
      diagnostics.sufficient
      && (diagnostics.selective_accept || not diagnostics.selective_enabled));
}

-- Two points where the flag is set.
two_if : Bool → ℕ
two_if b = if b then 2 else 0

score : ComplexityVector → ℕ
unfolding two_if
score c =
    c.lane_weight * 2
    + c.risk_weight * 2
    + min 4 c.changed_file_count
    + min 2 (c.workspace_root_count - 1)
    + two_if c.structural_intent
    + two_if c.evidence_gap

-- `decision.risk == Risk.HIGH`
is_high : Risk → Bool
is_high high = true
is_high _ = false

-- The local variables of the branches on the lane.
record Effort : Type 0 where
  slots : ℕ
  skills : List String
  review : ℕ
  verification : ℕ

effort : Lane → Risk → ComplexityVector → ℕ → OrchestrationBudget → Bool → Effort
unfolding is_high
effort answer risk c points limits superpowers = record {
  slots = 1;
  skills = [];
  review = 1;
  verification = 1;
}
effort small risk c points limits superpowers = record {
  slots = 1;
  skills =
      if superpowers then "test-driven-development" ∷ "verification-before-completion" ∷ [] else [];
  review = 1;
  verification = 1;
}
effort full risk c points limits superpowers = record {
  slots = min limits.max_agent_slots (2 + int_of (leb 8 points) + int_of (leb 12 points));
  skills =
      if superpowers
      then "writing-plans" ∷ "subagent-driven-development" ∷ "requesting-code-review"
        ∷ "verification-before-completion" ∷ []
      else [];
  review = min limits.review_passes (1 + int_of (is_high risk || leb 10 points));
  verification = min limits.verification_passes (1 + int_of (is_high risk || c.evidence_gap));
}

-- `decision.lane != Lane.ANSWER`
is_work : Lane → Bool
is_work answer = false
is_work _ = true

-- The graph calls before they are cut to the budget.
crg_calls : ComplexityVector → List String
crg_calls c =
    "get_minimal_context_tool"
    ∷ ((if c.structural_intent || leb 2 c.changed_file_count
          then "get_impact_radius_tool" ∷ []
          else [])
        ++ ((if c.structural_intent then "query_graph_tool" ∷ [] else [])
            ++ ("get_review_context_tool" ∷ [])))

crg_plan : Lane → ComplexityVector → OrchestrationBudget → Bool → List String
unfolding is_work crg_calls
crg_plan lane c limits graph =
    if graph && is_work lane then take limits.max_crg_calls (crg_calls c) else []

unfoldable pub build_orchestration_contract :
    RouteDecision → Diagnostics → ℕ → ℕ → ProviderStatus → BudgetConfig → OrchestrationContract
unfolding is_work score complexity effort crg_plan budget
build_orchestration_contract decision diagnostics changed_files workspace_count providers config =
    let c = complexity decision diagnostics changed_files workspace_count in
    let points = score c in
    let limits = budget config in
    let e = effort decision.lane decision.risk c points limits providers.superpowers in
    record {
      complexity_vector = c;
      complexity_score = points;
      superpowers_skills = e.skills;
      crg_plan = crg_plan decision.lane c limits providers.code_review_graph;
      agent_slots = min e.slots limits.max_agent_slots;
      review_passes = min e.review limits.review_passes;
      verification_passes = min e.verification limits.verification_passes;
      graph_depth = min (1 + int_of (leb 8 points) + int_of (leb 12 points)) limits.max_graph_depth;
      budget = limits;
      native_fallback = is_work decision.lane && not providers.superpowers;
    }
