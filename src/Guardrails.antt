-- ===== src/Guardrails.antt =====
-- The records that ai_workflow/deployment_guardrails.py reads: the recorded rows and the guardrails of a
-- deployment state, and the arithmetic of Python's floating point numbers.
pub mod Scores
pub mod Monitor
pub mod Gate
pub mod Evaluate
pub mod Counted
pub mod Grouped
pub mod Safe
pub mod Decisions
pub mod Evidence
pub mod Tests
mod GateTests
use ai_workflow_control_plan.Common.{ℕ, Bool, Option, List, String}
use ai_workflow_control_plan.Deployment.Types.{Stage}
use ai_workflow_control_plan.Deployment.Features.{Features}

-- Floating point numbers and what the code computes of them.
pub record Numbers (F : Type 0) : Type 0 where
  pub zero : F
  pub one : F
  pub less : F → F → Bool
  pub add : F → F → F
  pub sub : F → F → F
  pub mul : F → F → F
  pub div : F → F → F
  pub neg : F → F
  pub abs : F → F
  pub sqrt : F → F
  pub log : F → F
  pub is_finite : F → Bool
  pub round_6 : F → F
  pub of_count : ℕ → F
  -- 10^-12, and `(1 - 0.95) * 6 / (pi**2 * n**2)`.
  pub tiny : F
  pub allocated_alpha : ℕ → F

-- `deployment` of a row. A generation that is no integer is `none`, and so is a probability that is not
-- `_number`.
pub record Exposure (F : Type 0) : Type 0 where
  pub policy_id : String
  pub state_generation : Option ℕ
  pub stage : Stage
  pub assignment : String
  pub candidate_probability : Option F

-- `outcome` of a row.
pub record Outcome (F : Type 0) : Type 0 where
  pub verified : Bool
  pub success : Bool
  pub reward : Option F
  pub realized_cost : Option F

-- A learning record. An entry that is missing or no object is `none`.
pub record Row (F : Type 0) : Type 0 where
  pub deployment : Option (Exposure F)
  pub outcome : Option (Outcome F)
  pub created_at : String
  pub risk : String
  pub task_fingerprint : String
  pub context_features : Option Features

-- A negative number of failures is `none`.
pub record Budget (F : Type 0) : Type 0 where
  pub max_candidate_exposures : ℕ
  pub max_candidate_failures : Option ℕ
  pub max_cumulative_realized_cost : Option F

-- The `guardrails` of a state with the code's defaults for missing entries, the budget of the state's
-- stage, and the numbers of `baseline_context_distribution`.
pub record Settings (F : Type 0) : Type 0 where
  pub reward_min : F
  pub reward_max : F
  pub max_importance_weight : F
  pub max_failure_rate : F
  pub max_reward_regression : F
  pub promotion_margin : F
  pub max_context_tv_distance : F
  pub max_unknown_context_rate : F
  pub drift_window : ℕ
  pub minimum_monitor_outcomes : ℕ
  pub minimum_monitor_clusters : ℕ
  pub minimum_drift_samples : ℕ
  pub budget : Budget F
  pub baseline_distribution : List (String × F)
