-- ===== src/Deployment/Runtime.antt =====
-- `resolve_runtime_deployment` of ai_workflow/deployment_runtime.py: which arm a task gets, and the
-- automatic rollback on the way.
use ai_workflow_control_plan.Common.{
  ℕ, ◌-◌, Bool, false, not, ◌&&◌, ◌||◌, Option, none, some, List, [], ◌∷◌, String, str_eq, ltb,
  if◌then◌else◌, ok, err,
}
use ai_workflow_control_plan.Models.{RouteDecision}
use ai_workflow_control_plan.Deployment.Types.{is_live, baseline_arm, State, Hashes}
use ai_workflow_control_plan.Deployment.Verify.{is_valid, verify_deployment_state}
use ai_workflow_control_plan.Deployment.Transition.{passes, generation_of}
use ai_workflow_control_plan.Deployment.Lock.{Disk, World, Outcome}
use ai_workflow_control_plan.Deployment.Files.{load_deployment_state, update_deployment_state_file}
use ai_workflow_control_plan.Deployment.Features.{Features, build_context_features, target_arm}
use ai_workflow_control_plan.Deployment.Assignment.{
  Config, LiveReport, global_kill_switch, state_path_invalid, signing_key_missing,
  state_unavailable, state_verification_failed, auto_rollback, risk_locked, baseline_context,
  traffic_fraction_invalid, signed_canary_assignment, stage_is, control, candidate, Assignment, one,
  baseline_assignment, is_low, fraction_of, Draw, is_candidate, rollback_move,
}

-- `round_12` is `round(x, 12)`; `dumps` the canonical JSON text; `guardrails` what
-- `evaluate_live_guardrails` reports of a state, and `mirror_fails` that the event store raises.
module _ (hashes : Hashes) (sha : State → String) (dumps : List (String × String) → String)
    (round_12 : ℕ → ℕ) (guardrails : State → LiveReport) (mirror_fails : Bool) where
  -- The assignment after all tests, by the draw.
  unfoldable pub draw_assignment : Draw → State → String → Option String → Assignment
  draw_assignment draw s arm key =
      let probability = fraction_of s.body.traffic_fraction in
      let chosen = is_candidate draw probability in
      record {
        chosen_arm = if chosen then arm else baseline_arm;
        arm_propensities =
            (baseline_arm, round_12 (one - probability)) ∷ (arm, round_12 probability) ∷ [];
        kind = if chosen then candidate else control;
        reason = signed_canary_assignment;
        policy_id = some s.body.policy_id;
        state_generation = some (generation_of s.body.generation);
        stage = some s.body.stage;
        traffic_fraction = some probability;
        candidate_probability = probability;
        chosen_probability = if chosen then probability else one - probability;
        target_arm = arm;
        context_key = key;
        assignment_nonce = some draw.nonce;
      }

  -- Both when the update is refused and when the event store raises, the old state is returned.
  abbrev pub after_update : State → Outcome State → (State × Option LiveReport) × Disk
  after_update s (ok rolled, d) = ((if mirror_fails then s else rolled, some (guardrails s)), d)
  after_update s (err e, d) = ((s, some (guardrails s)), d)

  -- `_auto_rollback_if_needed`: the state to go on with and the report, and what is on the disk.
  unfoldable pub auto_rollback_if_needed :
      World → String → Config → State → Disk → (State × Option LiveReport) × Disk
  auto_rollback_if_needed w now config s disk =
      if not (is_live s.body.stage) || not config.auto_rollback
      then ((s, none), disk)
      else if not (passes (guardrails s).rollback_required)
      then ((s, some (guardrails s)), disk)
      else after_update s (
          update_deployment_state_file hashes sha config.signing_key w
            (some (generation_of s.body.generation)) (rollback_move now (guardrails s)) disk)

  -- The tests on the arm and on the traffic.
  unfoldable pub assign_arm : Draw → State → String × Option String → Assignment
  unfolding baseline_assignment
  assign_arm draw s (arm, key) =
      let probability = fraction_of s.body.traffic_fraction in
      if str_eq arm baseline_arm
      then baseline_assignment baseline_context (some s) key (some arm)
      else if not (ltb 0 probability && ltb probability one)
      then baseline_assignment traffic_fraction_invalid (some s) key (some arm)
      else draw_assignment draw s arm key

  -- The tests on the stage and on the risk.
  unfoldable pub assign : Draw → Features → RouteDecision → State → Assignment
  assign draw features decision s =
      if not (is_live s.body.stage)
      then baseline_assignment (stage_is s.body.stage) (some s) none none
      else if not (is_low decision.risk)
      then baseline_assignment risk_locked (some s) none none
      else assign_arm draw s (target_arm dumps s.body features)

  abbrev pub is_required : Option LiveReport → Bool
  is_required none = false
  is_required (some report) = passes report.rollback_required

  unfoldable pub after_rollback :
      Draw
      → Features
      → RouteDecision
      → (State × Option LiveReport) × Disk
      → Option Assignment × Disk
  after_rollback draw features decision ((s, report), disk) =
      if is_required report
      then (some (baseline_assignment auto_rollback (some s) none none), disk)
      else (some (assign draw features decision s), disk)

  -- The tests on the loaded state.
  unfoldable pub resolve_state :
      World
      → String
      → Config
      → Draw
      → Features
      → RouteDecision
      → Disk
      → State
      → Option Assignment × Disk
  resolve_state w now config draw features decision disk s =
      if not (is_valid (verify_deployment_state hashes config.signing_key s))
      then (some (baseline_assignment state_verification_failed (some s) none none), disk)
      else after_rollback draw features decision (auto_rollback_if_needed w now config s disk)

  unfoldable pub resolve_runtime_deployment :
      World
      → String
      → Config
      → Draw
      → String
      → RouteDecision
      → String
      → ℕ
      → ℕ
      → Disk
      → Option Assignment × Disk
  resolve_runtime_deployment w now config draw query decision intent changed_files workspace_roots
        disk =
      let features = build_context_features query decision intent changed_files workspace_roots in
      if not config.enabled
      then (none, disk)
      else if config.kill_switch
      then (some (baseline_assignment global_kill_switch none none none), disk)
      else if not config.path_is_valid
      then (some (baseline_assignment state_path_invalid none none none), disk)
      else if str_eq config.signing_key ""
      then (some (baseline_assignment signing_key_missing none none none), disk)
      else elim (load_deployment_state disk) [
        | err e ↦ (some (baseline_assignment state_unavailable none none none), disk)
        | ok s ↦ resolve_state w now config draw features decision disk s
      ]
