-- ===== src/Orchestration/Tests.antt =====
-- Runs of the contract of ai_workflow/orchestration.py on small inputs.
use ai_workflow_control_plan.Common.{◌≡◌, refl, true, false, none, some, [], ◌∷◌, arith}
use ai_workflow_control_plan.Common.Int.{negsuc}
use ai_workflow_control_plan.Models.{full, low, high, RouteDecision, ProviderStatus}
use ai_workflow_control_plan.Orchestration.{
  BudgetConfig, Diagnostics, crg_plan, risk_weight, build_orchestration_contract,
}
use ai_workflow_control_plan.Orchestration.Growth.{
  IsAtMost, contract, build_orchestration_contract_mono,
}

abbrev defaults : BudgetConfig
defaults = record {
  max_agent_slots = none;
  max_crg_calls = none;
  max_graph_depth = none;
  review_passes = none;
  verification_passes = none;
}

-- A negative setting counts as the least one.
abbrev no_agents : BudgetConfig
no_agents = record defaults { max_agent_slots = some (negsuc 4) }

abbrev refactor : RouteDecision
refactor = record { lane = full; risk = high; structural_context = true }

abbrev unsure : Diagnostics
unsure = record {
  retrieval_intent = "mixed";
  sufficient = false;
  selective_enabled = false;
  selective_accept = true;
}

abbrev equipped : ProviderStatus
equipped = record { superpowers = true; code_review_graph = true }

runs : Unit {0}
unfolding build_orchestration_contract crg_plan
runs = tt

refactor_slots :
    (build_orchestration_contract refactor unsure 5 2 equipped defaults).agent_slots ≡ 4
unfolding runs
refactor_slots = refl

refactor_slots_capped :
    (build_orchestration_contract refactor unsure 5 2 equipped no_agents).agent_slots ≡ 1
unfolding runs
refactor_slots_capped = refl

refactor_plan :
    (build_orchestration_contract refactor unsure 5 2 equipped defaults).crg_plan
    ≡ "get_minimal_context_tool" ∷ "get_impact_radius_tool" ∷ "query_graph_tool"
      ∷ "get_review_context_tool" ∷ []
unfolding runs
refactor_plan = refl

build_orchestration_contract_mono_example :
    IsAtMost
      (contract full true unsure 2 equipped defaults low 1)
      (contract full true unsure 2 equipped defaults high 5)
build_orchestration_contract_mono_example =
    build_orchestration_contract_mono full true unsure 2 equipped defaults low high 1 5
      (unfold risk_weight in omega arith) (omega arith)
