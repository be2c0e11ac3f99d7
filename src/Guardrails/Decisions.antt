-- ===== src/Guardrails/Decisions.antt =====
-- What the live guardrails of ai_workflow/deployment_guardrails.py decide on, together with the
-- transitions of ai_workflow/deployment_state.py and the automatic rollback of
-- ai_workflow/deployment_runtime.py.
use ai_workflow_control_plan.Common.{
  ℕ, ◌≡◌, ◌≢◌, refl, sym, ap, ◌∙◌, ◌⊎◌, inl, inr, true, false, ◌&&◌, Option, some, List, [], String,
  arith, ok, Bool-cases,
}
use ai_workflow_control_plan.Deployment.Types.{
  Stage, rolled_back, is_live, StateBody, State, GuardrailReport, Hashes,
}
use ai_workflow_control_plan.Deployment.Verify.{verify_deployment_state}
use ai_workflow_control_plan.Deployment.Transition.{Move, transition_deployment_state}
use ai_workflow_control_plan.Deployment.Promotion.{promotion-Vouches}
use ai_workflow_control_plan.Deployment.Assignment.{LiveReport}
use ai_workflow_control_plan.Guardrails.{Numbers, Row, Settings}
use ai_workflow_control_plan.Guardrails.Gate.{Measured, Report, gate_of}
use ai_workflow_control_plan.Guardrails.Evaluate.{evaluate_live_guardrails}
use ai_workflow_control_plan.Guardrails.Evidence.{Sound, advance-Sound}
use ai_workflow_control_plan.Guardrails.Safe.{gate-exclusive, evaluate-Evaluated}

-- The parts of a report that a transition and the runtime read. `details` is the rest of its text.
abbrev pub to_transition : {F : Type 0} → String → Report F → GuardrailReport
to_transition details r = record {
  policy_id = r.policy_id;
  state_generation = r.state_generation;
  stage = r.stage;
  safe_to_advance = some r.gate.safe_to_advance;
  details = details;
}

abbrev pub to_runtime : {F : Type 0} → Report F → LiveReport
to_runtime r = record {
  rollback_required = some r.gate.rollback_required;
  rollback_blockers = r.gate.rollback_blockers;
}

module _ {F : Type 0} (num : Numbers F) (lower : String → String) (row_name : ℕ → String)
    (bootstrap_high : List (String × List F) → Option F) (hashes : Hashes)
    (dumps : List (String × String) → String) (settings_of : StateBody → Option (Settings F))
    (rows : List (Row F)) where
  never_both :
      (stage : Stage) (m : Measured F) (set : Settings F)
      → ((gate_of num stage set m).safe_to_advance && (gate_of num stage set m).rollback_required)
        ≡ false
  never_both stage m set = elim (Bool-cases (gate_of num stage set m).safe_to_advance) [
    | inl e ↦ rw (e, gate-exclusive num stage set m e) refl
    | inr e ↦ rw e refl
  ]

  module _ (key : String) (s : State) (r : Report F)
      (h : evaluate_live_guardrails num lower row_name bootstrap_high hashes dumps settings_of rows
          key s
        ≡ ok r) where
    -- A report never lets a state advance and asks for its rollback, and for a state that does not verify
    -- it asks for a rollback.
    pub evaluate_live_guardrails_exclusive :
        ((r.gate.safe_to_advance && r.gate.rollback_required) ≡ false)
        × ((verify_deployment_state hashes key s ≡ []) ⊎ (r.gate.rollback_required ≡ true))
    evaluate_live_guardrails_exclusive =
        elim (evaluate-Evaluated num lower row_name bootstrap_high hashes dumps settings_of rows key
          s r h) [
            | inl (bad, gate) ↦ (ground (arith, gate), inr (ground (arith, gate)))
            | inr (valid, e) ↦ (rw e.report (never_both s.body.stage e.m e.s), inl valid)
          ]

    -- A live state goes on to its next stage with the report of its own live guardrails only if there are
    -- settings; its live rows have at least as many verified outcomes of the candidate arm and as many
    -- clusters as these ask for, and the failed outcomes and the costs are within the budgets; every
    -- monitored row has a score, and every recent low risk row has a context.
    pub promotion-Sound :
        (details : String) (move : Move) (after : State)
        → move.guardrail_report ≡ some (to_transition details r)
        → transition_deployment_state hashes key s move ≡ ok after
        → is_live s.body.stage ≡ true
        → after.body.stage ≢ rolled_back
        → Sound num lower row_name bootstrap_high hashes dumps settings_of rows s.body
    promotion-Sound details move after given moved live other =
        let (report, found, v) = promotion-Vouches hashes key s move after moved live other in
        let safe : r.gate.safe_to_advance ≡ true = ground (arith, given, found, v.safe) in
        elim (evaluate-Evaluated num lower row_name bootstrap_high hashes dumps settings_of rows key
          s r h) [
            | inl (bad, gate) ↦ ground (arith, gate, safe)
            | inr (valid, e) ↦
                let gate = ap (λ (x : Report F). x.gate.safe_to_advance) e.report in
                advance-Sound num lower row_name bootstrap_high hashes dumps settings_of rows s.body
                  r e (sym gate ∙ safe)
          ]
