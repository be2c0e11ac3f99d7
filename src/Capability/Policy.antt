-- ===== src/Capability/Policy.antt =====
-- `build_model_capability_policy` of ai_workflow/capability_gate.py: the policy is made of the
-- orchestration contract, and of the repositories that the system assigned to the evidence.
use ai_workflow_control_plan.Common.{
  ℕ, min, max, Option, none, some, List, [], ◌∷◌, String, str_eq, strip, squeeze, unique_after,
  is_blank, if◌then◌else◌,
}
use ai_workflow_control_plan.Common.Int.{ℤ, pos, pos_part}
use ai_workflow_control_plan.Models.{
  lane_value, risk_value, RouteDecision, ContextItem, ProviderStatus,
}
use ai_workflow_control_plan.Orchestration.{
  BudgetConfig, Diagnostics, OrchestrationContract, build_orchestration_contract,
}
use ai_workflow_control_plan.Capability.Types.{ModelCapabilityPolicy}
use ai_workflow_control_plan.Capability.Gate.{sorted_set}

-- What `int(mapping.get(name, default))` meets: no entry, an entry with an integer, or one for which
-- `int` raises `TypeError` or `ValueError`.
pub data IntEntry : Type 0 where
  missing unreadable : IntEntry
  integer : ℤ → IntEntry

-- The entries of the orchestration mapping. A tool that is no text is `none`.
pub record OrchestrationView : Type 0 where
  pub crg_plan : List (Option String)
  pub verification_passes : IntEntry
  pub graph_depth : IntEntry
  pub budget_graph_depth : IntEntry

-- `int(...)` with a default for a missing entry and one for an exception.
int_or : ℕ → ℕ → IntEntry → ℕ
int_or default on_error missing = default
int_or default on_error unreadable = on_error
int_or default on_error (integer z) = pos_part z

-- The tools that are non-blank texts, stripped.
clean_tools : List (Option String) → List String
clean_tools [] = []
clean_tools (none ∷ tools) = clean_tools tools
clean_tools (some tool ∷ tools) =
    let rest = clean_tools tools in if is_blank tool then rest else strip tool ∷ rest

-- The non-blank repositories of the evidence.
evidence_repositories : List ContextItem → List String
evidence_repositories [] = []
evidence_repositories (item ∷ items) =
    let rest = evidence_repositories items in
    elim item.evidence [
      | some envelope ↦
          if str_eq envelope.repository_id "" then rest else envelope.repository_id ∷ rest
      | none ↦ rest
    ]

-- `max_graph_depth`. The outer `max(1, ...)` makes a negative entry count as 0.
policy_depth : OrchestrationView → ℕ
unfolding int_or
policy_depth view =
    let requested = int_or 1 1 view.graph_depth in
    max 1 (min requested (int_or requested requested view.budget_graph_depth))

-- `task_scope_digest`: `sha` is the SHA-256 of the text after the prefix "task-scope-v1".
task_scope_digest : (String → String) → Option String → Option String
unfolding squeeze
task_scope_digest sha none = none
task_scope_digest sha (some task_text) = some (sha (squeeze task_text))

unfoldable pub build_model_capability_policy :
    (String → String)
    → RouteDecision
    → OrchestrationView
    → List ContextItem
    → Option String
    → ModelCapabilityPolicy
unfolding task_scope_digest clean_tools unique_after evidence_repositories policy_depth int_or
build_model_capability_policy sha decision view evidence task_text = record {
  schema = "capability-v2";
  lane = lane_value decision.lane;
  risk = risk_value decision.risk;
  allowed_tools = unique_after [] (clean_tools view.crg_plan);
  active_repository_ids = sorted_set (evidence_repositories evidence);
  verification_passes = max 1 (int_or 1 1 view.verification_passes);
  max_graph_depth = policy_depth view;
  task_digest = task_scope_digest sha task_text;
}

-- The contract of the orchestration component, as the mapping that the policy reads.
some_tools : List String → List (Option String)
some_tools [] = []
some_tools (tool ∷ tools) = some tool ∷ some_tools tools

unfoldable pub view_of : OrchestrationContract → OrchestrationView
unfolding some_tools
view_of c = record {
  crg_plan = some_tools c.crg_plan;
  verification_passes = integer (pos c.verification_passes);
  graph_depth = integer (pos c.graph_depth);
  budget_graph_depth = integer (pos c.budget.max_graph_depth);
}

module _ (sha : String → String) (decision : RouteDecision) (diagnostics : Diagnostics)
    (changed_files workspace_count : ℕ) (providers : ProviderStatus) (config : BudgetConfig)
    (evidence : List ContextItem) (task_text : Option String) where
  -- The contract that the workflow engine builds for the task, and the policy that it makes of it.
  abbrev contract : OrchestrationContract
  contract =
      build_orchestration_contract decision diagnostics changed_files workspace_count providers
        config

  abbrev pub contract_policy : ModelCapabilityPolicy
  contract_policy = build_model_capability_policy sha decision (view_of contract) evidence task_text
