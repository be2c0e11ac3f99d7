-- ===== src/Deployment/Serving.antt =====
-- When ai_workflow/deployment_runtime.py lets a task use the learned arm.
use ai_workflow_control_plan.Common.{◌*◌, ◌^◌, ◌<◌, ◌≡◌, true, false, some, [], str_eq, In}
use ai_workflow_control_plan.Models.{low, RouteDecision}
use ai_workflow_control_plan.Deployment.Types.{
  is_live, baseline_arm, safe_exploration_arms, State, Hashes,
}
use ai_workflow_control_plan.Deployment.Verify.{verify_deployment_state}
use ai_workflow_control_plan.Deployment.Transition.{passes}
use ai_workflow_control_plan.Deployment.Lock.{state, Disk}
use ai_workflow_control_plan.Deployment.Assignment.{
  Config, LiveReport, Assignment, Draw, one, fraction_of,
}

-- The learned arm may serve this task now.
pub record Served (hashes : Hashes) (guardrails : State → LiveReport) (config : Config)
    (draw : Draw) (decision : RouteDecision) (disk : Disk) (a : Assignment) : Type 0 where
  pub current : State
  pub enabled : config.enabled ≡ true
  pub not_killed : config.kill_switch ≡ false
  pub loaded : disk.state_file ≡ some (state current)
  pub verified : verify_deployment_state hashes config.signing_key current ≡ []
  pub live : is_live current.body.stage ≡ true
  pub low_risk : decision.risk ≡ low
  pub healthy : config.auto_rollback ≡ true → passes (guardrails current).rollback_required ≡ false
  pub drawn : draw.numerator * one < fraction_of current.body.traffic_fraction * 2 ^ 64
  pub learned : str_eq a.chosen_arm baseline_arm ≡ false
  pub safe : In a.chosen_arm safe_exploration_arms
