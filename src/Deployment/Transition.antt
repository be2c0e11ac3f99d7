-- ===== src/Deployment/Transition.antt =====
-- `transition_deployment_state` of ai_workflow/deployment_state.py.

use text.Mathlib.Text.{starts_with}
use ai_workflow_control_plan.Common.{
  ℕ, ◌+◌, Bool, true, false, not, Option, none, some, [], ◌∷◌, ◌++◌, String, str_eq, ◌==◌,
  if◌then◌else◌, Result, ok, err, ◌>>◌, refuse, strip, is_blank,
}
use ai_workflow_control_plan.Deployment.Types.{
  Stage, approved, canary_1, canary_5, canary_10, bounded, rolled_back, unknown, stage_of, is_live,
  is_rolled_back, next_stage, traffic_for_stage, Rollback, HistoryEntry, StateBody, State,
  GuardrailReport, Hashes,
}
use ai_workflow_control_plan.Deployment.Verify.{sign_payload, is_valid, verify_deployment_state}

-- The `ValueError`s.
pub data TransitionError : Type 0 where
  verification_failed blank_actor already_rolled_back invalid_transition : TransitionError
  guardrails_not_passing report_policy_mismatch report_generation_mismatch : TransitionError
  report_stage_mismatch empty_signing_key : TransitionError

-- The stages are equal.
abbrev pub same_stage : Stage → Stage → Bool
same_stage approved approved = true
same_stage canary_1 canary_1 = true
same_stage canary_5 canary_5 = true
same_stage canary_10 canary_10 = true
same_stage bounded bounded = true
same_stage rolled_back rolled_back = true
same_stage (unknown s) (unknown t) = str_eq s t
same_stage _ _ = false

abbrev pub is_next : Stage → Stage → Bool
is_next current target = elim (next_stage current) [
  | none ↦ false
  | some expected ↦ same_stage expected target
]

abbrev pub same_generation : Option ℕ → Option ℕ → Bool
same_generation none none = true
same_generation (some m) (some n) = m == n
same_generation _ _ = false

-- The gate is there, and safe.
abbrev pub passes : Option Bool → Bool
passes none = false
passes (some safe) = safe

-- The tests on the report that a promotion from a live stage wants.
unfoldable pub check_report : StateBody → Option GuardrailReport → Result TransitionError (Unit {0})
check_report b none = err guardrails_not_passing
check_report b (some report) = do
  refuse (not (passes report.safe_to_advance)) guardrails_not_passing
  refuse (not (str_eq report.policy_id b.policy_id)) report_policy_mismatch
  refuse (not (same_generation report.state_generation b.generation)) report_generation_mismatch
  refuse (not (same_stage report.stage b.stage)) report_stage_mismatch

-- The tests on the target.
unfoldable pub check_target :
    StateBody → Stage → Option GuardrailReport → Result TransitionError (Unit {0})
check_target b target report =
    if is_rolled_back target
    then refuse (is_rolled_back b.stage) already_rolled_back
    else if not (is_next b.stage target)
    then err invalid_transition
    else if is_live b.stage
    then check_report b report
    else ok tt

-- What the caller passes: the new stage, the actor, the report and the reason, and the time.
pub record Move : Type 0 where
  pub to_stage : String
  pub actor : String
  pub guardrail_report : Option GuardrailReport
  pub reason : Option String
  pub now : String

-- `str(reason).strip()` where that is not blank, and else the default.
abbrev pub reason_or : String → Option String → String
reason_or default none = default
reason_or default (some r) = if is_blank r then default else strip r

abbrev pub generation_of : Option ℕ → ℕ
generation_of none = 0
generation_of (some n) = n

abbrev pub evidence_of : Hashes → Option GuardrailReport → Option String
evidence_of hashes none = none
evidence_of hashes (some report) = some (hashes.report_sha256 report)

-- The `rollback` entry after a rollback; a missing entry starts empty.
unfoldable pub roll_back : Move → Option Rollback → Rollback
roll_back move old = record {
  target_arm = elim old [ none ↦ "" | some r ↦ r.target_arm ];
  automatic = starts_with (strip move.actor) "runtime:";
  reason = some (reason_or "deployment guardrail rollback" move.reason);
  rolled_back_at = some move.now;
}

-- The entry that a move appends to the history.
unfoldable pub entry_for : Hashes → StateBody → Stage → Move → HistoryEntry
entry_for hashes b target move = record {
  generation = generation_of b.generation + 1;
  from_stage = b.stage;
  to_stage = target;
  actor = strip move.actor;
  at = move.now;
  evidence_sha256 = evidence_of hashes move.guardrail_report;
  reason =
      reason_or
        (if is_rolled_back target
          then "manual or automatic rollback"
          else "manual staged promotion")
        move.reason;
}

-- The payload after the move, before it is signed.
unfoldable pub next_body : Hashes → StateBody → Stage → Move → StateBody
next_body hashes b target move = record b {
  stage = target;
  traffic_fraction = some (traffic_for_stage b.bounded_traffic_fraction target);
  generation = some (generation_of b.generation + 1);
  updated_at = move.now;
  history = b.history ++ entry_for hashes b target move ∷ [];
  rollback = if is_rolled_back target then some (roll_back move b.rollback) else b.rollback;
}

abbrev signed : Option State → Result TransitionError State
signed none = err empty_signing_key
signed (some state) = ok state

unfoldable pub transition_deployment_state :
    Hashes → String → State → Move → Result TransitionError State
transition_deployment_state hashes key state move = do
  let target = stage_of (strip move.to_stage)
  refuse (not (is_valid (verify_deployment_state hashes key state))) verification_failed
  refuse (is_blank move.actor) blank_actor
  check_target state.body target move.guardrail_report
  signed (sign_payload hashes key (next_body hashes state.body target move))
