-- ===== src/Deployment/Assignment.antt =====
-- The records of ai_workflow/deployment_runtime.py and their small tests.
use ai_workflow_control_plan.Common.{
  str_eq, if◌then◌else◌, ℕ, ◌*◌, ◌^◌, Bool, true, false, Option, none, some, List, [], ◌∷◌, String,
  ltb,
}
use Prim.Native.String
use ai_workflow_control_plan.Models.{Risk, low, medium, high}
use ai_workflow_control_plan.Deployment.Types.{Stage, percent, baseline_arm, StateBody, State}
use ai_workflow_control_plan.Deployment.Transition.{Move}

-- What the configuration and the environment say: `kill_switch` is `learning_kill_switch(config)`,
-- `path_is_valid` that `_state_path` does not raise, and a missing key is empty.
pub record Config : Type 0 where
  pub enabled : Bool
  pub kill_switch : Bool
  pub path_is_valid : Bool
  pub signing_key : String
  pub auto_rollback : Bool

-- The part of a live guardrail report that is read here; no `gate` is `none`.
pub record LiveReport : Type 0 where
  pub rollback_required : Option Bool
  pub rollback_blockers : List String

pub data Reason : Type 0 where
  global_kill_switch state_path_invalid signing_key_missing state_unavailable : Reason
  state_verification_failed auto_rollback risk_locked baseline_context : Reason
  traffic_fraction_invalid signed_canary_assignment : Reason
  stage_is : Stage → Reason

pub data Kind : Type 0 where
  baseline control candidate : Kind

-- The assignment. A probability is a number of units of 10^-15.
pub record Assignment : Type 0 where
  pub chosen_arm : String
  pub arm_propensities : List (String × ℕ)
  pub kind : Kind
  pub reason : Reason
  pub policy_id : Option String
  pub state_generation : Option ℕ
  pub stage : Option Stage
  pub traffic_fraction : Option ℕ
  pub candidate_probability : ℕ
  pub chosen_probability : ℕ
  pub target_arm : String
  pub context_key : Option String
  pub assignment_nonce : Option String

-- `1.0`
abbrev pub one : ℕ
one = 100 * percent

-- A field of the state, where there is one.
abbrev field_of : {A : Type 0} → A → (StateBody → A) → Option State → A
field_of default get none = default
field_of default get (some s) = get s.body

-- `target_arm or BASELINE_ARM`
abbrev pub arm_or_baseline : Option String → String
arm_or_baseline none = baseline_arm
arm_or_baseline (some arm) = if str_eq arm "" then baseline_arm else arm

-- `_baseline_assignment`
unfoldable pub baseline_assignment :
    Reason → Option State → Option String → Option String → Assignment
baseline_assignment reason s context arm = record {
  chosen_arm = baseline_arm;
  arm_propensities = (baseline_arm, one) ∷ [];
  kind = baseline;
  reason = reason;
  policy_id = field_of none (λ b. some b.policy_id) s;
  state_generation = field_of none (λ b. b.generation) s;
  stage = field_of none (λ b. some b.stage) s;
  traffic_fraction = field_of (some 0) (λ b. b.traffic_fraction) s;
  candidate_probability = 0;
  chosen_probability = one;
  target_arm = arm_or_baseline arm;
  context_key = context;
  assignment_nonce = none;
}

-- `decision.risk.value == "low"`
abbrev pub is_low : Risk → Bool
is_low low = true
is_low medium = false
is_low high = false

abbrev pub fraction_of : Option ℕ → ℕ
fraction_of none = 0
fraction_of (some p) = p

-- `_assignment_fraction`: the bucket is `numerator` / 2^64.
pub record Draw : Type 0 where
  pub numerator : ℕ
  pub nonce : String

-- `bucket < probability`
abbrev pub is_candidate : Draw → ℕ → Bool
is_candidate draw probability = ltb (draw.numerator * one) (probability * 2 ^ 64)

-- `", ".join(texts)`
join_comma : List String → String
join_comma [] = ""
join_comma (s ∷ []) = s
join_comma (s ∷ t ∷ texts) = String.◌++◌ s (String.◌++◌ ", " (join_comma (t ∷ texts)))

abbrev rollback_reason : List String → String
unfolding join_comma
rollback_reason [] = "live deployment guardrail failure"
rollback_reason (blocker ∷ blockers) = join_comma (blocker ∷ blockers)

unfoldable pub rollback_move : String → LiveReport → Move
unfolding rollback_reason
rollback_move now report = record {
  to_stage = "rolled_back";
  actor = "runtime:auto-rollback";
  guardrail_report = none;
  reason = some (rollback_reason report.rollback_blockers);
  now = now;
}
