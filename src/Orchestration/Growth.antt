-- ===== src/Orchestration/Growth.antt =====
-- How the contract of ai_workflow/orchestration.py grows with the risk and the scope of a task.
use ai_workflow_control_plan.Common.{ℕ, ◌+◌, ◌≤◌, min, ◌≡◌, refl, Bool, arith, leb, int_of}
use ai_workflow_control_plan.Models.{Lane, answer, small, full, Risk, RouteDecision, ProviderStatus}
use ai_workflow_control_plan.Orchestration.{
  BudgetConfig, Diagnostics, ComplexityVector, OrchestrationBudget, OrchestrationContract,
  risk_weight, budget, complexity, score, effort, build_orchestration_contract,
}

-- No resource of the first contract exceeds that of the second.
pub record IsAtMost (c d : OrchestrationContract) : Type 0 where
  pub score : c.complexity_score ≤ d.complexity_score
  pub slots : c.agent_slots ≤ d.agent_slots
  pub depth : c.graph_depth ≤ d.graph_depth
  pub review : c.review_passes ≤ d.review_passes
  pub verification : c.verification_passes ≤ d.verification_passes

effort_mono :
    (lane : Lane) (r s : Risk) (c d : ComplexityVector) (points more : ℕ)
    (limits : OrchestrationBudget) (superpowers : Bool)
    → risk_weight r ≤ risk_weight s
    → points ≤ more
    → c.evidence_gap ≡ d.evidence_gap
    → let e = effort lane r c points limits superpowers in
      let f = effort lane s d more limits superpowers in
      (e.slots ≤ f.slots) × (e.review ≤ f.review) × (e.verification ≤ f.verification)
unfolding effort risk_weight
effort_mono answer r s c d points more limits superpowers h k g = ground arith
effort_mono small r s c d points more limits superpowers h k g = ground arith
effort_mono full r s c d points more limits superpowers h k g = ground arith

depth_mono :
    (points more limit : ℕ)
    → points ≤ more
    → min (1 + int_of (leb 8 points) + int_of (leb 12 points)) limit
      ≤ min (1 + int_of (leb 8 more) + int_of (leb 12 more)) limit
depth_mono points more limit h = ground arith

module _ (lane : Lane) (structural : Bool) (diagnostics : Diagnostics) (workspace_count : ℕ)
    (providers : ProviderStatus) (config : BudgetConfig) where
  abbrev pub route : Risk → RouteDecision
  route r = record { lane = lane; risk = r; structural_context = structural }

  abbrev pub contract : Risk → ℕ → OrchestrationContract
  contract r files =
      build_orchestration_contract (route r) diagnostics files workspace_count providers config

  score_mono :
      (r s : Risk) (m n : ℕ)
      → risk_weight r ≤ risk_weight s
      → m ≤ n
      → score (complexity (route r) diagnostics m workspace_count)
        ≤ score (complexity (route s) diagnostics n workspace_count)
  unfolding score complexity
  score_mono r s m n h k = omega arith

  -- With the lane, the diagnostics and the configuration fixed, a higher risk or more changed files
  -- never lower the score, the agents, the graph depth or the review and verification passes.
  pub build_orchestration_contract_mono :
      (r s : Risk) (m n : ℕ)
      → risk_weight r ≤ risk_weight s
      → m ≤ n
      → IsAtMost (contract r m) (contract s n)
  unfolding build_orchestration_contract
  build_orchestration_contract_mono r s m n h k =
      let c = complexity (route r) diagnostics m workspace_count in
      let d = complexity (route s) diagnostics n workspace_count in
      let grows = score_mono r s m n h k in
      let e =
        effort_mono lane r s c d (score c) (score d) (budget config) providers.superpowers h grows
          refl in
      record {
        score = grows;
        slots = omega (arith, e);
        depth = depth_mono _ _ _ grows;
        review = omega (arith, e);
        verification = omega (arith, e);
      }
