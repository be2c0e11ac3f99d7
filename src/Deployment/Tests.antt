-- ===== src/Deployment/Tests.antt =====
-- Runs of ai_workflow/deployment_state.py on a small signed state.

use ai_workflow_control_plan.Common.{
  ◌+◌, ◌≤◌, ◌≡◌, refl, none, some, List, [], ◌∷◌, arith, strip, is_blank, contains, unique_after,
  length, Result, err, ok,
}
use ai_workflow_control_plan.Deployment.Types.{approved, canary_1, stage_of, State, GuardrailReport}
use ai_workflow_control_plan.Deployment.Manifest.{verify_policy_manifest, validate_policy}
use ai_workflow_control_plan.Deployment.Verify.{
  signature_checks, manifest_checks, head_checks, body_checks, verify_deployment_state,
  sign_payload,
}
use ai_workflow_control_plan.Deployment.Transition.{
  TransitionError, invalid_transition, report_generation_mismatch, Move, check_report, check_target,
  generation_of, entry_for, next_body, roll_back, transition_deployment_state,
}
use ai_workflow_control_plan.Deployment.Invariant.{transition-verified}
use ai_workflow_control_plan.Deployment.Stages.{Moved, transition-Moved}
use ai_workflow_control_plan.Deployment.Promotion.{Vouches, promotion-Vouches, run, run-short}
use ai_workflow_control_plan.Deployment.Samples.{hashes, manifest, state_at, report, move_to}

-- The accepted result.
abbrev or_else : Result TransitionError State → State → State
or_else (ok s) t = s
or_else (err e) t = t

abbrev widened : State
unfolding transition_deployment_state sign_payload check_target check_report next_body roll_back
    entry_for stage_of verify_deployment_state signature_checks manifest_checks head_checks
    body_checks verify_policy_manifest validate_policy unique_after contains is_blank strip
widened =
    or_else
      (transition_deployment_state hashes "k" (state_at canary_1 2)
        (move_to "canary_5" (some (report 2))))
      (state_at canary_1 2)

manifest_valid : verify_policy_manifest hashes "k" manifest ≡ []
unfolding verify_policy_manifest validate_policy unique_after contains is_blank strip
manifest_valid = refl

state_valid : verify_deployment_state hashes "k" (state_at canary_1 2) ≡ []
unfolding verify_deployment_state signature_checks manifest_checks head_checks body_checks
    verify_policy_manifest validate_policy unique_after contains is_blank strip
state_valid = refl

is_widened :
    transition_deployment_state hashes "k"
      (state_at canary_1 2)
      (move_to "canary_5" (some (report 2)))
    ≡ ok widened
unfolding transition_deployment_state sign_payload check_target check_report next_body roll_back
    entry_for stage_of verify_deployment_state signature_checks manifest_checks head_checks
    body_checks verify_policy_manifest validate_policy unique_after contains is_blank strip
is_widened = refl

stale_report :
    transition_deployment_state hashes "k"
      (state_at canary_1 2)
      (move_to "canary_5" (some (report 1)))
    ≡ err report_generation_mismatch
unfolding transition_deployment_state sign_payload check_target check_report next_body roll_back
    entry_for stage_of verify_deployment_state signature_checks manifest_checks head_checks
    body_checks verify_policy_manifest validate_policy unique_after contains is_blank strip
stale_report = refl

skipped_stage :
    transition_deployment_state hashes "k"
      (state_at canary_1 2)
      (move_to "bounded" (some (report 2)))
    ≡ err invalid_transition
unfolding transition_deployment_state sign_payload check_target check_report next_body roll_back
    entry_for stage_of verify_deployment_state signature_checks manifest_checks head_checks
    body_checks verify_policy_manifest validate_policy unique_after contains is_blank strip
skipped_stage = refl

transition-verified_example : verify_deployment_state hashes "k" widened ≡ []
transition-verified_example =
    transition-verified hashes "k" (state_at canary_1 2) (move_to "canary_5" (some (report 2)))
      widened is_widened

transition-Moved_example :
    Moved (state_at canary_1 2).body widened.body (move_to "canary_5" (some (report 2)))
transition-Moved_example =
    transition-Moved hashes "k" (state_at canary_1 2) (move_to "canary_5" (some (report 2))) widened
      is_widened

promotion-Vouches_example :
    (r : GuardrailReport) × (some (report 2) ≡ some r) × Vouches (state_at canary_1 2).body r
unfolding transition_deployment_state sign_payload check_target check_report next_body roll_back
    entry_for stage_of verify_deployment_state signature_checks manifest_checks head_checks
    body_checks verify_policy_manifest validate_policy unique_after contains is_blank strip
promotion-Vouches_example =
    promotion-Vouches hashes "k" (state_at canary_1 2) (move_to "canary_5" (some (report 2)))
      widened is_widened refl (ground arith)

abbrev two_moves : List Move
two_moves = move_to "canary_1" none ∷ move_to "rolled_back" none ∷ []

abbrev stopped : State
unfolding run transition_deployment_state sign_payload check_target check_report next_body roll_back
    entry_for stage_of verify_deployment_state signature_checks manifest_checks head_checks
    body_checks verify_policy_manifest validate_policy unique_after contains is_blank strip
stopped = or_else (run hashes "k" (state_at approved 1) two_moves) (state_at approved 1)

is_stopped : run hashes "k" (state_at approved 1) two_moves ≡ ok stopped
unfolding run transition_deployment_state sign_payload check_target check_report next_body roll_back
    entry_for stage_of verify_deployment_state signature_checks manifest_checks head_checks
    body_checks verify_policy_manifest validate_policy unique_after contains is_blank strip
is_stopped = refl

run-short_example :
    (length two_moves ≤ 5)
    × (generation_of stopped.body.generation ≡ 1 + length two_moves)
    × (length stopped.body.history ≡ length two_moves)
run-short_example = run-short hashes "k" (state_at approved 1) stopped two_moves refl is_stopped
