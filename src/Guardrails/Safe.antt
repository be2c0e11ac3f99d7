-- ===== src/Guardrails/Safe.antt =====
-- What a report of ai_workflow/deployment_guardrails.py lets a deployment do: the transitions of
-- ai_workflow/deployment_state.py and the automatic rollback of ai_workflow/deployment_runtime.py.
use ai_workflow_control_plan.Common.{
  ℕ, suc, ◌≤◌, ◌≡◌, refl, sym, ap, ◌∙◌, ◌⊎◌, inl, inr, true, false, not, false≢true, Option, none,
  some, List, [], ◌∷◌, ◌++◌, String, leb, arith, collect, Clean, collect-nil, length, Result, ok,
  >>=-ok, required, required-ok, Bool-cases, Option-cases,
}
use ai_workflow_control_plan.Deployment.Types.{Stage, is_live, StateBody, State, Hashes, Manifest}
use ai_workflow_control_plan.Deployment.Verify.{is_valid, verify_deployment_state}
use ai_workflow_control_plan.Deployment.Features.{Features, context_key}
use ai_workflow_control_plan.Guardrails.{Numbers, Row, Settings}
use ai_workflow_control_plan.Guardrails.Counted.{all_violations}
use ai_workflow_control_plan.Guardrails.Grouped.{no_contexts}
use ai_workflow_control_plan.Guardrails.Scores.{
  clusters_from, Violations, sequential_scores, absolute_bound, anytime_hoeffding_sequence,
}
use ai_workflow_control_plan.Guardrails.Monitor.{
  last_n, is_low_risk, sum_from, costs, count_contexts, keep, at_least_one, at_least_two,
  is_assigned_to, has_verified, has_failed,
}
use ai_workflow_control_plan.Guardrails.Gate.{
  Measured, Report, failed_gate, any_violation, is_over, exceeds, rollback_checks, blockers_of,
  gate_of,
}
use ai_workflow_control_plan.Guardrails.Evaluate.{
  GuardError, report_of, measure_state, measure, live_rows, evaluate_verified,
  evaluate_live_guardrails,
}

valid-nil {ℓ} : {E : Type ℓ} (errors : List E) → is_valid errors ≡ true → errors ≡ []
valid-nil [] h = refl
valid-nil (e ∷ es) h = ground (arith, h)

nil-valid {ℓ} : {E : Type ℓ} (errors : List E) → errors ≡ [] → is_valid errors ≡ true
nil-valid [] h = refl
nil-valid (e ∷ es) h = ground (arith, h)

appended : (xs ys : List String) → xs ++ ys ≡ [] → (xs ≡ []) × (ys ≡ [])
appended [] ys h = (refl, h)
appended (x ∷ xs) ys h = ground (arith, h)

ok-injective :
    {F : Type 0} (a b : Report F) → ◌≡◌ {A = Result GuardError (Report F)} (ok a) (ok b) → a ≡ b
ok-injective a b h = cc

no_violation : (v : Violations) → any_violation v ≡ false → all_violations v ≡ 0
unfolding any_violation
no_violation v h = ground (arith, h)

-- At most the bound, where there is one.
abbrev pub AtMost : ℕ → Option ℕ → Type 0
AtMost n none = Unit
AtMost n (some bound) = n ≤ bound

-- More than the bound.
abbrev pub MoreThan : ℕ → Option ℕ → Type 0
MoreThan n none = ⊥
MoreThan n (some bound) = suc bound ≤ n

is_over-AtMost : (n : ℕ) (bound : Option ℕ) → is_over n bound ≡ false → AtMost n bound
is_over-AtMost n none h = tt
is_over-AtMost n (some bound) h = ground (arith, h)

MoreThan-is_over : (n : ℕ) (bound : Option ℕ) → MoreThan n bound → is_over n bound ≡ true
MoreThan-is_over n none h = absurd h
MoreThan-is_over n (some bound) h = ground (arith, h)

module _ {F : Type 0} (num : Numbers F) where
  -- What the gate grants an advance for.
  pub record Passing (stage : Stage) (s : Settings F) (m : Measured F) : Type 0 where
    pub live : is_live stage ≡ true
    pub enough : at_least_one s.minimum_monitor_outcomes ≤ m.candidate_outcomes
    pub clustered : at_least_two s.minimum_monitor_clusters ≤ m.clusters
    pub failures : AtMost m.candidate_failures s.budget.max_candidate_failures
    pub cost : exceeds num m.cumulative_cost s.budget.max_cumulative_realized_cost ≡ false
    pub contexts : m.invalid_contexts ≡ 0
    pub inputs : all_violations m.violations ≡ 0

  advance-no_blockers :
      (stage : Stage) (s : Settings F) (m : Measured F)
      → (gate_of num stage s m).safe_to_advance ≡ true
      → (is_live stage ≡ true)
        × (collect (rollback_checks num s m) ≡ [])
        × (leb (at_least_one s.minimum_monitor_outcomes) m.candidate_outcomes ≡ true)
        × (leb (at_least_two s.minimum_monitor_clusters) m.clusters ≡ true)
  unfolding gate_of blockers_of
  advance-no_blockers stage s m h =
      let none_left = valid-nil (blockers_of num stage s m) h in
      let (first, more) =
        appended (collect ((not (is_live stage), "stage_not_live") ∷ [])) _ none_left in
      let (middle, last) = appended (collect (rollback_checks num s m)) _ more in
      (ground (arith, first), middle, ground (arith, last), ground (arith, last))

  pub gate-Passing :
      (stage : Stage) (s : Settings F) (m : Measured F)
      → (gate_of num stage s m).safe_to_advance ≡ true
      → Passing stage s m
  unfolding rollback_checks
  gate-Passing stage s m h =
      let (live, clean, enough, clustered) = advance-no_blockers stage s m h in
      let (c0, (c1, (c2, (c3, (c4, (c5, (c6, (c7, (c8, (c9, rest)))))))))) =
        collect-nil (rollback_checks num s m) clean in
      record {
        live = live;
        enough = ground (arith, enough);
        clustered = ground (arith, clustered);
        failures = is_over-AtMost m.candidate_failures s.budget.max_candidate_failures c1;
        cost = c2;
        contexts = ground (arith, c8);
        inputs = no_violation m.violations c9;
      }

  within_budget :
      (s : Settings F) (m : Measured F)
      → Clean (rollback_checks num s m)
      → is_over m.candidate_failures s.budget.max_candidate_failures ≡ false
  unfolding rollback_checks
  within_budget s m clean = clean.1.0

  -- More failures than the budget allows call for a rollback.
  pub gate-required :
      (stage : Stage) (s : Settings F) (m : Measured F)
      → MoreThan m.candidate_failures s.budget.max_candidate_failures
      → (gate_of num stage s m).rollback_required ≡ true
  unfolding gate_of
  gate-required stage s m over = elim (Bool-cases (is_valid (collect (rollback_checks num s m)))) [
    | inl fine ↦
        let under = within_budget s m (collect-nil (rollback_checks num s m) (valid-nil _ fine)) in
        absurd (
          false≢true (
            sym under ∙ MoreThan-is_over m.candidate_failures s.budget.max_candidate_failures over))
    | inr bad ↦ ap not bad
  ]

  pub gate-exclusive :
      (stage : Stage) (s : Settings F) (m : Measured F)
      → (gate_of num stage s m).safe_to_advance ≡ true
      → (gate_of num stage s m).rollback_required ≡ false
  unfolding gate_of
  gate-exclusive stage s m h =
      let (live, clean, enough, clustered) = advance-no_blockers stage s m h in
      ap not (nil-valid (collect (rollback_checks num s m)) clean)

module _ {F : Type 0} (num : Numbers F) (lower : String → String) (row_name : ℕ → String)
    (bootstrap_high : List (String × List F) → Option F) (hashes : Hashes)
    (dumps : List (String × String) → String) (settings_of : StateBody → Option (Settings F))
    (rows : List (Row F)) where
  -- What a measurement says of the live rows.
  pub record Counts (key_of : Features → Option String) (s : Settings F) (live : List (Row F))
      (m : Measured F) : Type 0 where
    pub outcomes :
        m.candidate_outcomes ≡ length (keep has_verified (keep (is_assigned_to "candidate") live))
    pub failures :
        m.candidate_failures
        ≡ length (keep has_failed (keep has_verified (keep (is_assigned_to "candidate") live)))
    pub cost :
        m.cumulative_cost
        ≡ sum_from num num.zero
            (costs num (keep has_verified (keep (is_assigned_to "candidate") live)))
    pub clusters : m.clusters ≡ length (clusters_from num row_name 0 [] 0 live).0
    pub contexts :
        m.invalid_contexts
        ≡ (count_contexts key_of no_contexts
            (last_n (at_least_one s.drift_window) (keep (is_low_risk lower) live))).invalid
    pub inputs : m.violations ≡ (sequential_scores num s live).1

  -- What a report of a valid state was computed of.
  pub record Evaluated (b : StateBody) (r : Report F) : Type 0 where
    pub s : Settings F
    pub m : Measured F
    pub settings : settings_of b ≡ some s
    pub report : r ≡ report_of num lower row_name bootstrap_high hashes dumps settings_of rows b s m
    pub manifest : Manifest
    pub has_manifest : b.policy_manifest ≡ some manifest
    pub fields : List String
    pub has_fields : manifest.body.context_fields ≡ some fields
    pub counts :
        Counts
          (λ (f : Features). context_key dumps f fields)
          s
          (live_rows num lower row_name bootstrap_high hashes dumps settings_of rows b)
          m

  measured :
      (key_of : Features → Option String) (known : List String) (s : Settings F)
      (live : List (Row F)) (m : Measured F)
      → measure num lower row_name bootstrap_high key_of known s live ≡ ok m
      → Counts key_of s live m
  unfolding measure
  measured key_of known s live m h =
      let values = (sequential_scores num s live).0 in
      elim (Option-cases (anytime_hoeffding_sequence num (absolute_bound num s) values)) [
        | inl e ↦ ground (arith, h, e)
        | inr (final, e) ↦ record {
          outcomes = ground (arith, h, e);
          failures = ground (arith, h, e);
          cost = ground (arith, h, e);
          clusters = ground (arith, h, e);
          contexts = ground (arith, h, e);
          inputs = ground (arith, h, e);
        }
      ]

  evaluate_verified-Evaluated :
      (b : StateBody) (r : Report F)
      → evaluate_verified num lower row_name bootstrap_high hashes dumps settings_of rows b ≡ ok r
      → Evaluated b r
  unfolding evaluate_verified
  evaluate_verified-Evaluated b r h =
      let (s, settings, h1) = >>=-ok (required (settings_of b) _) _ h in
      let (manifest, has_manifest, h2) = >>=-ok (required b.policy_manifest _) _ h1 in
      let (fields, has_fields, h3) = >>=-ok (required manifest.body.context_fields _) _ h2 in
      let (policy, has_policy, h4) = >>=-ok (required manifest.body.policy _) _ h3 in
      let (m, run, h5) =
        >>=-ok
          (measure_state num lower row_name bootstrap_high hashes dumps settings_of rows b s fields
            policy)
          _ h4 in
      record {
        s = s;
        m = m;
        settings = required-ok _ _ _ settings;
        report = sym (ok-injective _ _ h5);
        manifest = manifest;
        has_manifest = required-ok _ _ _ has_manifest;
        fields = fields;
        has_fields = required-ok _ _ _ has_fields;
        counts = measured _ _ s _ m run;
      }

  pub evaluate-Evaluated :
      (key : String) (state : State) (r : Report F)
      → evaluate_live_guardrails num lower row_name bootstrap_high hashes dumps settings_of rows key
          state
        ≡ ok r
      → ((is_valid (verify_deployment_state hashes key state) ≡ false) × (r.gate ≡ failed_gate))
        ⊎ ((verify_deployment_state hashes key state ≡ []) × Evaluated state.body r)
  unfolding evaluate_live_guardrails
  evaluate-Evaluated key state r h =
      elim (Bool-cases (is_valid (verify_deployment_state hashes key state))) [
        | inl fine ↦
            inr
              (valid-nil _ fine, evaluate_verified-Evaluated state.body r (ground (arith, h, fine)))
        | inr bad ↦ inl (bad, ground (arith, h, bad))
      ]
