-- ===== src/Deployment/FileTests.antt =====
-- Runs of the state file and of the runtime choice of ai_workflow/deployment_state.py and
-- ai_workflow/deployment_runtime.py.

use ai_workflow_control_plan.Common.{
  ℕ, ◌≡◌, refl, true, false, Option, none, some, List, [], ◌∷◌, String, arith, strip, is_blank,
  contains, unique_after, squeeze, Result, ok, err,
}
use ai_workflow_control_plan.Models.{full, low, RouteDecision}
use ai_workflow_control_plan.Deployment.Types.{canary_1, rolled_back, stage_of, State}
use ai_workflow_control_plan.Deployment.Manifest.{
  verify_policy_manifest, validate_policy, validate_context_fields,
}
use ai_workflow_control_plan.Deployment.Verify.{
  signature_checks, manifest_checks, head_checks, body_checks, verify_deployment_state,
  sign_payload,
}
use ai_workflow_control_plan.Deployment.Transition.{
  Move, check_report, check_target, entry_for, next_body, roll_back, transition_deployment_state,
}
use ai_workflow_control_plan.Deployment.Lock.{
  state, Disk, FileError, generation_changed, Outcome, acquire, release, finish, held,
  with_state_lock,
}
use ai_workflow_control_plan.Deployment.Files.{
  load_deployment_state, last_entry, event_for, same_name, has_event, write_audit_event, store,
  update_loaded, update_body, update_deployment_state_file,
}
use ai_workflow_control_plan.Deployment.Conflict.{update-conflict, Updated, update-Updated}
use ai_workflow_control_plan.Deployment.Rollback.{rollback-accepted}
use ai_workflow_control_plan.Deployment.Features.{
  target_arm, of_fields, arm_for, context_key, build_context_features,
}
use ai_workflow_control_plan.Deployment.Runtime.{
  draw_assignment, auto_rollback_if_needed, assign_arm, assign, after_rollback, resolve_state,
  resolve_runtime_deployment,
}
use ai_workflow_control_plan.Deployment.Assignment.{
  LiveReport, Assignment, Draw, baseline_assignment,
}
use ai_workflow_control_plan.Deployment.Automatic.{auto_rollback-rolled_back}
use ai_workflow_control_plan.Deployment.Samples.{
  hashes, world, disk, config, state_at, report, move_to,
}

abbrev sha : State → String
sha s = s.body.updated_at

abbrev widen : Move
widen = move_to "canary_5" (some (report 2))

abbrev value_or : {A : Type 0} → A → Result FileError A → A
value_or default (ok value) = value
value_or default (err e) = default

abbrev first_run : Outcome State
unfolding update_deployment_state_file update_body update_loaded load_deployment_state store
    write_audit_event last_entry event_for has_event same_name with_state_lock acquire held finish
    release transition_deployment_state sign_payload check_target check_report next_body roll_back
    entry_for stage_of verify_deployment_state signature_checks manifest_checks head_checks
    body_checks verify_policy_manifest validate_policy unique_after contains is_blank strip
first_run = update_deployment_state_file hashes sha "k" world (some 2) widen disk

abbrev widened : State
unfolding update_deployment_state_file update_body update_loaded load_deployment_state store
    write_audit_event last_entry event_for has_event same_name with_state_lock acquire held finish
    release transition_deployment_state sign_payload check_target check_report next_body roll_back
    entry_for stage_of verify_deployment_state signature_checks manifest_checks head_checks
    body_checks verify_policy_manifest validate_policy unique_after contains is_blank strip
widened = value_or (state_at canary_1 2) first_run.0

abbrev left : Disk
unfolding update_deployment_state_file update_body update_loaded load_deployment_state store
    write_audit_event last_entry event_for has_event same_name with_state_lock acquire held finish
    release transition_deployment_state sign_payload check_target check_report next_body roll_back
    entry_for stage_of verify_deployment_state signature_checks manifest_checks head_checks
    body_checks verify_policy_manifest validate_policy unique_after contains is_blank strip
left = first_run.1

is_first :
    update_deployment_state_file hashes sha "k" world (some 2) widen disk ≡ (ok widened, left)
unfolding update_deployment_state_file update_body update_loaded load_deployment_state store
    write_audit_event last_entry event_for has_event same_name with_state_lock acquire held finish
    release transition_deployment_state sign_payload check_target check_report next_body roll_back
    entry_for stage_of verify_deployment_state signature_checks manifest_checks head_checks
    body_checks verify_policy_manifest validate_policy unique_after contains is_blank strip
is_first = refl

is_valid_state : verify_deployment_state hashes "k" (state_at canary_1 2) ≡ []
unfolding update_deployment_state_file update_body update_loaded load_deployment_state store
    write_audit_event last_entry event_for has_event same_name with_state_lock acquire held finish
    release transition_deployment_state sign_payload check_target check_report next_body roll_back
    entry_for stage_of verify_deployment_state signature_checks manifest_checks head_checks
    body_checks verify_policy_manifest validate_policy unique_after contains is_blank strip
is_valid_state = refl

update-Updated_example : Updated hashes "k" (some 2) widen disk widened left
update-Updated_example =
    update-Updated hashes sha "k" world (some 2) widen disk widened left is_first

update-conflict_example :
    update_deployment_state_file hashes sha "k" world (some 2) (move_to "rolled_back" none) left
    ≡ (err generation_changed, left)
update-conflict_example =
    update-conflict hashes sha "k" world world 2 widen (move_to "rolled_back" none) disk widened
      left is_first

-- The same update on a disk that takes no audit event.
is_unrecorded :
    (update_deployment_state_file hashes sha "k" world
      (some 2)
      widen
      (record disk { events_refused = true })).1.state_file
    ≡ some (state widened)
unfolding update_deployment_state_file update_body update_loaded load_deployment_state store
    write_audit_event last_entry event_for has_event same_name with_state_lock acquire held finish
    release transition_deployment_state sign_payload check_target check_report next_body roll_back
    entry_for stage_of verify_deployment_state signature_checks manifest_checks head_checks
    body_checks verify_policy_manifest validate_policy unique_after contains is_blank strip
is_unrecorded = refl

is_ana : is_blank "ana" ≡ false
unfolding is_blank strip
is_ana = refl

is_target : strip "rolled_back" ≡ "rolled_back"
unfolding strip
is_target = refl

rollback-accepted_example :
    (after : State) × (transition_deployment_state hashes "k"
        (state_at canary_1 2)
        (move_to "rolled_back" none)
      ≡ ok after)
    × (after.body.stage ≡ rolled_back)
rollback-accepted_example =
    rollback-accepted hashes "k" (state_at canary_1 2) (move_to "rolled_back" none) is_valid_state
      (ground arith) is_ana is_target

abbrev dumps : List (String × String) → String
dumps entries = "x"

abbrev same : ℕ → ℕ
same n = n

abbrev calm : State → LiveReport
calm s = record { rollback_required = some false; rollback_blockers = [] }

abbrev alarmed : State → LiveReport
alarmed s = record { rollback_required = some true; rollback_blockers = "failure_rate" ∷ [] }

abbrev draw : Draw
draw = record { numerator = 5; nonce = "n" }

abbrev easy : RouteDecision
easy = record { lane = full; risk = low; structural_context = false }

abbrev resolved : Option Assignment × Disk
resolved =
    resolve_runtime_deployment hashes sha dumps same calm false world "1" config draw "fix the bug"
      easy "lookup" 1 1 disk

-- The learned arm "rrf_only", in the lane "full".
abbrev learned : Assignment
unfolding resolve_runtime_deployment resolve_state after_rollback auto_rollback_if_needed assign
    assign_arm draw_assignment baseline_assignment target_arm of_fields arm_for context_key
    validate_context_fields build_context_features load_deployment_state verify_deployment_state
    signature_checks manifest_checks head_checks body_checks verify_policy_manifest validate_policy
    unique_after contains is_blank strip squeeze
learned =
    draw_assignment hashes sha dumps same calm false draw (state_at canary_1 2) "rrf_only"
      (some "x")

auto_rollback-rolled_back_example :
    (rolled : State) × ((auto_rollback_if_needed hashes sha dumps same alarmed false world "1"
        config
        (state_at canary_1 2)
        disk).1.state_file
      ≡ some (state rolled))
    × (rolled.body.stage ≡ rolled_back)
auto_rollback-rolled_back_example =
    auto_rollback-rolled_back hashes sha dumps same alarmed false world "1" config
      (state_at canary_1 2) disk refl refl refl is_valid_state refl refl refl
