-- ===== src/Deployment/Promotion.antt =====
-- When ai_workflow/deployment_state.py lets a deployment reach more traffic, and for how many moves.
use ai_workflow_control_plan.Common.{
  ℕ, ◌+◌, ◌≤◌, ◌<◌, ◌≡◌, refl, ap, ◌∙◌, ◌≢◌, ◌⊎◌, inr, true, Option, none, some, List, [], ◌∷◌,
  String, eq_iff, arith, length, length-append, >>=-ok, Result, ok, ◌>>=◌,
}
use ai_workflow_control_plan.Deployment.Types.{
  Stage, approved, canary_1, canary_5, canary_10, bounded, rolled_back, unknown, is_live, StateBody,
  State, GuardrailReport, Hashes,
}
use ai_workflow_control_plan.Deployment.Transition.{
  TransitionError, Move, check_report, check_target, same_stage, generation_of, next_body,
  transition_deployment_state,
}
use ai_workflow_control_plan.Deployment.Accepted.{target_of, transition-Accepted}
use ai_workflow_control_plan.Deployment.Stages.{◌⟶◌, begin, transition-Moved}

-- The report says that this very state may go on.
pub record Vouches (b : StateBody) (report : GuardrailReport) : Type 0 where
  pub safe : report.safe_to_advance ≡ some true
  pub policy_id : report.policy_id ≡ b.policy_id
  pub generation : report.state_generation ≡ b.generation
  pub stage : report.stage ≡ b.stage

same_stage→≡ : (s t : Stage) → same_stage s t ≡ true → s ≡ t
same_stage→≡ (unknown a) (unknown b) h = ap unknown ((eq_iff a b).0 h)
same_stage→≡ s t h = ground arith

check_report-Vouches :
    (b : StateBody) (report : Option GuardrailReport)
    → check_report b report ≡ ok tt
    → (r : GuardrailReport) × (report ≡ some r) × Vouches b r
unfolding check_report
check_report-Vouches b none h = cc
check_report-Vouches b (some r) h = (
  r,
  refl,
  record {
    safe = ground arith;
    policy_id = (eq_iff r.policy_id b.policy_id).0 (ground arith);
    generation = ground arith;
    stage = same_stage→≡ r.stage b.stage (ground arith);
  },
)

live_report :
    (b : StateBody) (target : Stage) (report : Option GuardrailReport)
    → is_live b.stage ≡ true
    → target ≢ rolled_back
    → check_target b target report ≡ ok tt
    → check_report b report ≡ ok tt
unfolding check_target
live_report b target report live other h = ground arith

module _ (hashes : Hashes) (key : String) (state : State) (move : Move) (after : State) where
  -- A live deployment goes on to its next stage only with a guardrail report that is safe to advance
  -- and was made for the same policy, generation and stage.
  pub promotion-Vouches :
      transition_deployment_state hashes key state move ≡ ok after
      → is_live state.body.stage ≡ true
      → after.body.stage ≢ rolled_back
      → (report : GuardrailReport) × (move.guardrail_report ≡ some report)
        × Vouches state.body report
  unfolding next_body
  promotion-Vouches h live other =
      let a = transition-Accepted hashes key state move after h in
      let stage : after.body.stage ≡ target_of move = ap (λ (b : StateBody). b.stage) a.body in
      check_report-Vouches state.body move.guardrail_report (
        live_report state.body (target_of move) move.guardrail_report live (λ e. other (stage ∙ e))
          a.target)

-- How far a stage is from its approval.
abbrev rank : Stage → ℕ
rank approved = 0
rank canary_1 = 1
rank canary_5 = 2
rank canary_10 = 3
rank bounded = 4
rank rolled_back = 5
rank (unknown s) = 6

edge-rank : {s t : Stage} → s ⟶ t → (rank s < rank t) × (rank t ≤ 5)
edge-rank begin = omega arith
edge-rank _ = omega arith

-- Moves one after the other, up to the first that is refused.
unfoldable pub run : Hashes → String → State → List Move → Result TransitionError State
run hashes key state [] = ok state
run hashes key state (move ∷ moves) =
    transition_deployment_state hashes key state move >>= λ next. run hashes key next moves

-- Some moves were accepted, and every one of them is on record.
pub record Ran (before after : State) (count : ℕ) : Type 0 where
  pub moves : rank before.body.stage + count ≤ rank after.body.stage
  pub end :
      ((count ≡ 0) × (rank after.body.stage ≡ rank before.body.stage)) ⊎ (rank after.body.stage ≤ 5)
  pub generation :
      generation_of after.body.generation ≡ generation_of before.body.generation + count
  pub history : length after.body.history ≡ length before.body.history + count

module _ (hashes : Hashes) (key : String) where
  run-Ran :
      (state after : State) (moves : List Move)
      → run hashes key state moves ≡ ok after
      → Ran state after (length moves)
  unfolding run
  run-Ran state after [] h = ground arith
  run-Ran state after (move ∷ moves) h =
      let (next, first, rest) = >>=-ok (transition_deployment_state hashes key state move) _ h in
      let moved = transition-Moved hashes key state move next first in
      let ran = run-Ran next after moves rest in
      let (up, top) = edge-rank moved.edge in
      let (entry, appended, from_is, to_is, generation_is) = moved.recorded in
      record {
        moves = omega (arith, ran.moves, up);
        end = inr (ground (arith, ran.end, ran.moves, top));
        generation = ground (arith, moved.generation, ran.generation);
        history =
            omega (
              arith,
              ran.history,
              ap length appended,
              length-append state.body.history (entry ∷ []),
            );
      }

  -- From an approved state at most five moves are accepted, whatever they are and in whichever order, and
  -- each adds one to the generation and one entry to the history.
  pub run-short :
      (state after : State) (moves : List Move)
      → state.body.stage ≡ approved
      → run hashes key state moves ≡ ok after
      → (length moves ≤ 5)
        × (generation_of after.body.generation ≡ generation_of state.body.generation + length moves)
        × (length after.body.history ≡ length state.body.history + length moves)
  run-short state after moves start h =
      let ran = run-Ran state after moves h in
      (ground (arith, start, ran.moves, ran.end), ran.generation, ran.history)
