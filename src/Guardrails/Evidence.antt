-- ===== src/Guardrails/Evidence.antt =====
-- What the rows of a live deployment have to show before ai_workflow/deployment_guardrails.py lets it
-- advance.
use ai_workflow_control_plan.Common.{
  ℕ, ◌≤◌, ◌≡◌, sym, ap, ◌∙◌, subst, true, false, Option, none, some, List, [], String, arith,
  length,
}
use ai_workflow_control_plan.Deployment.Types.{is_live, StateBody, Hashes, Manifest}
use ai_workflow_control_plan.Deployment.Features.{Features, context_key}
use ai_workflow_control_plan.Guardrails.{Numbers, Row, Settings}
use ai_workflow_control_plan.Guardrails.Counted.{
  all_violations, is_monitored, sequential_scores_counted,
}
use ai_workflow_control_plan.Guardrails.Grouped.{has_no_context, count_contexts_all}
use ai_workflow_control_plan.Guardrails.Scores.{sequential_scores, clusters_from}
use ai_workflow_control_plan.Guardrails.Monitor.{
  keep, last_n, at_least_one, at_least_two, is_assigned_to, has_verified, has_failed, is_low_risk,
  sum_from, costs,
}
use ai_workflow_control_plan.Guardrails.Gate.{Report, exceeds, gate_of}
use ai_workflow_control_plan.Guardrails.Evaluate.{live_rows}
use ai_workflow_control_plan.Guardrails.Safe.{AtMost, Evaluated, gate-Passing}

-- The bound, where there is one, is not below the number.
abbrev pub NotAbove : {F : Type 0} → Numbers F → F → Option F → Type 0
NotAbove num x none = Unit
NotAbove num x (some bound) = num.less bound x ≡ false

exceeds-NotAbove :
    {F : Type 0} (num : Numbers F) (x : F) (bound : Option F)
    → exceeds num x bound ≡ false
    → NotAbove num x bound
exceeds-NotAbove num x none h = tt
exceeds-NotAbove num x (some bound) h = h

module _ {F : Type 0} (num : Numbers F) (lower : String → String) (row_name : ℕ → String)
    (bootstrap_high : List (String × List F) → Option F) (hashes : Hashes)
    (dumps : List (String × String) → String) (settings_of : StateBody → Option (Settings F))
    (rows : List (Row F)) where
  abbrev pub live : StateBody → List (Row F)
  live b = live_rows num lower row_name bootstrap_high hashes dumps settings_of rows b

  -- The verified outcomes of the candidate arm, and the failed ones of them.
  abbrev pub candidate_outcomes : StateBody → List (Row F)
  candidate_outcomes b = keep has_verified (keep (is_assigned_to "candidate") (live b))

  abbrev pub candidate_failures : StateBody → List (Row F)
  candidate_failures b = keep has_failed (candidate_outcomes b)

  -- The low risk rows that are looked at for a drift.
  abbrev pub recent : Settings F → StateBody → List (Row F)
  recent s b = last_n (at_least_one s.drift_window) (keep (is_low_risk lower) (live b))

  -- The rows of a live state are enough, and within its budgets, and none of them is unreadable.
  pub record Sound (b : StateBody) : Type 0 where
    pub s : Settings F
    pub settings : settings_of b ≡ some s
    pub is_live_stage : is_live b.stage ≡ true
    pub enough : at_least_one s.minimum_monitor_outcomes ≤ length (candidate_outcomes b)
    pub failures : AtMost (length (candidate_failures b)) s.budget.max_candidate_failures
    pub cost :
        NotAbove num
          (sum_from num num.zero (costs num (candidate_outcomes b)))
          s.budget.max_cumulative_realized_cost
    pub clustered :
        at_least_two s.minimum_monitor_clusters
        ≤ length (clusters_from num row_name 0 [] 0 (live b)).0
    pub all_scored :
        length (sequential_scores num s (live b)).0 ≡ length (keep (is_monitored num) (live b))
    pub manifest : Manifest
    pub has_manifest : b.policy_manifest ≡ some manifest
    pub fields : List String
    pub has_fields : manifest.body.context_fields ≡ some fields
    pub contexts :
        length (keep (has_no_context (λ (f : Features). context_key dumps f fields)) (recent s b))
        ≡ 0

  -- A measurement that passes the gate says so of the rows.
  pub advance-Sound :
      (b : StateBody) (r : Report F)
      (e : Evaluated num lower row_name bootstrap_high hashes dumps settings_of rows b r)
      → (gate_of num b.stage e.s e.m).safe_to_advance ≡ true
      → Sound b
  advance-Sound b r e safe =
      let p = gate-Passing num b.stage e.s e.m safe in
      let c = e.counts in
      let key_of = λ (f : Features). context_key dumps f e.fields in
      let invalid = (count_contexts_all key_of "" (recent e.s b)).1 in
      let none_wrong = ap all_violations (sym c.inputs) ∙ p.inputs in
      let scored = sequential_scores_counted num e.s (live b) in
      record {
        s = e.s;
        settings = e.settings;
        is_live_stage = p.live;
        enough =
            subst (λ (n : ℕ). at_least_one e.s.minimum_monitor_outcomes ≤ n) c.outcomes p.enough;
        failures =
            subst (λ (n : ℕ). AtMost n e.s.budget.max_candidate_failures) c.failures p.failures;
        cost =
            subst (λ (x : F). NotAbove num x e.s.budget.max_cumulative_realized_cost) c.cost
              (exceeds-NotAbove num _ _ p.cost);
        clustered =
            subst (λ (n : ℕ). at_least_two e.s.minimum_monitor_clusters ≤ n) c.clusters p.clustered;
        all_scored = omega (arith, scored, none_wrong);
        manifest = e.manifest;
        has_manifest = e.has_manifest;
        fields = e.fields;
        has_fields = e.has_fields;
        contexts = sym invalid ∙ sym c.contexts ∙ p.contexts;
      }
