-- ===== src/Orchestration/Bounds.antt =====
-- Bounds on the contract of ai_workflow/orchestration.py, and how it grows with risk and scope.
use ai_workflow_control_plan.Common.{
  ℕ, ◌≤◌, ◌≡◌, refl, Bool, false, List, [], ◌∷◌, String, arith, All, length, In,
}
use ai_workflow_control_plan.Models.{Lane, answer, RouteDecision, ProviderStatus}
use ai_workflow_control_plan.Orchestration.{
  BudgetConfig, Diagnostics, ComplexityVector, OrchestrationBudget, OrchestrationContract, budget,
  complexity, crg_plan, is_work, build_orchestration_contract,
}

-- The tools that a contract can name.
abbrev pub known_tools : List String
known_tools =
    "get_minimal_context_tool" ∷ "get_impact_radius_tool" ∷ "query_graph_tool"
    ∷ "get_review_context_tool" ∷ []

module _ (lane : Lane) (c : ComplexityVector) (limits : OrchestrationBudget) (graph : Bool) where
  crg_plan_of_not_work : is_work lane ≡ false → crg_plan lane c limits graph ≡ []
  unfolding crg_plan
  crg_plan_of_not_work h = ground arith

-- The fields of a contract that its budget and the fixed ceilings of the code bound.
pub record IsBounded (c : OrchestrationContract) : Type 0 where
  pub slots_pos : 1 ≤ c.agent_slots
  pub slots_budget : c.agent_slots ≤ c.budget.max_agent_slots
  pub slots_ceiling : c.agent_slots ≤ 4
  pub calls_budget : length c.crg_plan ≤ c.budget.max_crg_calls
  pub calls_known : All (λ t. In t known_tools) c.crg_plan
  pub depth_pos : 1 ≤ c.graph_depth
  pub depth_budget : c.graph_depth ≤ c.budget.max_graph_depth
  pub depth_ceiling : c.graph_depth ≤ 3
  pub review_pos : 1 ≤ c.review_passes
  pub review_budget : c.review_passes ≤ c.budget.review_passes
  pub review_ceiling : c.review_passes ≤ 2
  pub verification_pos : 1 ≤ c.verification_passes
  pub verification_budget : c.verification_passes ≤ c.budget.verification_passes
  pub verification_ceiling : c.verification_passes ≤ 2

module _ (decision : RouteDecision) (diagnostics : Diagnostics) (changed_files workspace_count : ℕ)
    (providers : ProviderStatus) (config : BudgetConfig) where
  pub crg_plan-answer :
      decision.lane ≡ answer
      → (build_orchestration_contract decision diagnostics changed_files workspace_count providers
          config).crg_plan
        ≡ []
  unfolding build_orchestration_contract
  crg_plan-answer e =
      crg_plan_of_not_work decision.lane
        (complexity decision diagnostics changed_files workspace_count) (budget config)
        providers.code_review_graph (unfold is_work in rw e refl)
