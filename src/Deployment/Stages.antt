-- ===== src/Deployment/Stages.antt =====
-- The stages of ai_workflow/deployment_state.py as a diagram, and the moves along it.
use ai_workflow_control_plan.Common.{
  ◌+◌, ◌≡◌, refl, sym, ap, subst, true, Option, some, [], ◌∷◌, ◌++◌, String, arith, ok,
}
use ai_workflow_control_plan.Deployment.Types.{
  Stage, approved, canary_1, canary_5, canary_10, bounded, rolled_back, is_known, traffic_for_stage,
  HistoryEntry, StateBody, State, GuardrailReport, Hashes,
}
use ai_workflow_control_plan.Deployment.Verify.{head_checks}
use ai_workflow_control_plan.Deployment.Transition.{
  Move, check_target, generation_of, entry_for, next_body, transition_deployment_state,
}
use ai_workflow_control_plan.Deployment.Accepted.{target_of, transition-Accepted, verified-Clean}

-- The promotions in their order, and a rollback from every other stage.
infix 40 ◌⟶◌
pub data ◌⟶◌ : Stage → Stage → Type 0 where
  begin : approved ⟶ canary_1
  widen : canary_1 ⟶ canary_5
  widen_again : canary_5 ⟶ canary_10
  settle : canary_10 ⟶ bounded
  stop_approved : approved ⟶ rolled_back
  stop_canary_1 : canary_1 ⟶ rolled_back
  stop_canary_5 : canary_5 ⟶ rolled_back
  stop_canary_10 : canary_10 ⟶ rolled_back
  stop_bounded : bounded ⟶ rolled_back

ruleset edges = (
  begin, widen, widen_again, settle, stop_approved, stop_canary_1, stop_canary_5, stop_canary_10,
  stop_bounded,
)

check_target-⟶ :
    (b : StateBody) (from target : Stage) (report : Option GuardrailReport)
    → b.stage ≡ from
    → is_known from ≡ true
    → check_target b target report ≡ ok tt
    → from ⟶ target
unfolding check_target
check_target-⟶ b from target report e k h = grind (arith, edges)

-- What an accepted move leaves behind.
pub record Moved (before after : StateBody) (move : Move) : Type 0 where
  pub edge : before.stage ⟶ after.stage
  pub generation : after.generation ≡ some (generation_of before.generation + 1)
  pub recorded :
      (entry : HistoryEntry) × (after.history ≡ before.history ++ entry ∷ [])
      × (entry.from_stage ≡ before.stage)
      × (entry.to_stage ≡ after.stage)
      × (entry.generation ≡ generation_of before.generation + 1)
  pub traffic :
      after.traffic_fraction ≡ some (traffic_for_stage before.bounded_traffic_fraction after.stage)
  pub policy_id : after.policy_id ≡ before.policy_id
  pub policy_manifest : after.policy_manifest ≡ before.policy_manifest
  pub bounded_traffic_fraction : after.bounded_traffic_fraction ≡ before.bounded_traffic_fraction
  pub settings : after.settings ≡ before.settings

module _ (hashes : Hashes) (key : String) (state : State) (move : Move) (after : State) where
  -- An accepted move follows an edge of the diagram, adds one to the generation, appends to the history
  -- one entry with the two stages and the new generation, sets the traffic of the new stage, and leaves
  -- the policy, its manifest, the bounded fraction and the settings alone.
  pub transition-Moved :
      transition_deployment_state hashes key state move ≡ ok after
      → Moved state.body after.body move
  unfolding next_body entry_for head_checks
  transition-Moved h =
      let a = transition-Accepted hashes key state move after h in
      let head = (verified-Clean hashes key state move a.verified).1 in
      let edge =
        check_target-⟶ state.body state.body.stage (target_of move) move.guardrail_report refl
          (ground arith) a.target in
      let stage : after.body.stage ≡ target_of move = ap (λ (b : StateBody). b.stage) a.body in
      record {
        edge = subst (λ s. state.body.stage ⟶ s) (sym stage) edge;
        generation = ap (λ (b : StateBody). b.generation) a.body;
        recorded = (
          entry_for hashes state.body (target_of move) move,
          ap (λ (b : StateBody). b.history) a.body,
          refl,
          sym stage,
          refl,
        );
        traffic = ground (arith, a.body);
        policy_id = ap (λ (b : StateBody). b.policy_id) a.body;
        policy_manifest = ap (λ (b : StateBody). b.policy_manifest) a.body;
        bounded_traffic_fraction = ap (λ (b : StateBody). b.bounded_traffic_fraction) a.body;
        settings = ap (λ (b : StateBody). b.settings) a.body;
      }
