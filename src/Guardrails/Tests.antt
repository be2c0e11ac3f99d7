-- ===== src/Guardrails/Tests.antt =====
-- Runs of ai_workflow/deployment_guardrails.py on a few rows, with whole numbers for the floating point
-- ones: the number 2 stands for 1.0, and 1 for a half.
use ai_workflow_control_plan.Common.{
  ℕ, ◌+◌, ◌-◌, ◌*◌, ◌≡◌, refl, Bool, true, Option, none, some, List, [], ◌∷◌, String, ltb, length,
}
use ai_workflow_control_plan.Deployment.Types.{canary_1, StateBody}
use ai_workflow_control_plan.Deployment.Features.{Features}
use ai_workflow_control_plan.Guardrails.{Numbers, Row, Settings}
use ai_workflow_control_plan.Guardrails.Scores.{sequential_scores, clusters_from}
use ai_workflow_control_plan.Guardrails.Monitor.{keep, count_contexts}
use ai_workflow_control_plan.Guardrails.Counted.{
  all_violations, is_monitored, sequential_scores_counted,
}
use ai_workflow_control_plan.Guardrails.Grouped.{
  count_of, has_context, has_no_context, no_contexts, sum_of, count_contexts_all, scores_under,
  named_scores, has_no_score, clusters_from_all,
}

abbrev pub num : Numbers ℕ
num = record {
  zero = 0;
  one = 2;
  less = ltb;
  add = λ a b. a + b;
  sub = λ a b. a - b;
  mul = λ a b. a * b;
  div = λ a b. a;
  neg = λ a. a;
  abs = λ a. a;
  sqrt = λ a. a;
  log = λ a. a;
  is_finite = λ a. true;
  round_6 = λ a. a;
  of_count = λ n. n;
  tiny = 1;
  allocated_alpha = λ n. n;
}

abbrev pub features : Features
features = record {
  lane = "full";
  risk = "low";
  intent = "fix";
  query_length_bucket = "1-4";
  changed_files_bucket = "1";
  workspace_roots_bucket = "1";
}

abbrev pub row : String → Bool → Row ℕ
row fingerprint success = record {
  deployment = some (record {
    policy_id = "p1";
    state_generation = some 2;
    stage = canary_1;
    assignment = "candidate";
    candidate_probability = some 1;
  });
  outcome =
      some (record { verified = true; success = success; reward = some 1; realized_cost = some 3 });
  created_at = fingerprint;
  risk = "low";
  task_fingerprint = fingerprint;
  context_features = some features;
}

abbrev pub rows : Bool → List (Row ℕ)
rows success = row "b" success ∷ row "a" success ∷ []

abbrev pub settings : Settings ℕ
settings = record {
  reward_min = 0;
  reward_max = 2;
  max_importance_weight = 200;
  max_failure_rate = 2;
  max_reward_regression = 0;
  promotion_margin = 0;
  max_context_tv_distance = 9;
  max_unknown_context_rate = 9;
  drift_window = 200;
  minimum_monitor_outcomes = 2;
  minimum_monitor_clusters = 2;
  minimum_drift_samples = 50;
  budget = record {
    max_candidate_exposures = 50;
    max_candidate_failures = some 0;
    max_cumulative_realized_cost = none;
  };
  baseline_distribution = [];
}

sequential_scores_counted_example :
    length (sequential_scores num settings (rows true)).0
      + all_violations (sequential_scores num settings (rows true)).1
    ≡ length (keep (is_monitored num) (rows true))
sequential_scores_counted_example = sequential_scores_counted num settings (rows true)

two_scores : (sequential_scores num settings (rows true)).0 ≡ 2 ∷ 2 ∷ []
unfolding sequential_scores
two_scores = refl

abbrev pub lower : String → String
lower s = s

abbrev pub row_name : ℕ → String
row_name n = "row"

abbrev pub high : List (String × List ℕ) → Option ℕ
high clusters = none

abbrev pub dumps : List (String × String) → String
dumps entries = "x"

abbrev pub settings_of : StateBody → Option (Settings ℕ)
settings_of b = some settings

abbrev key_of : Features → Option String
key_of f = some "x"

count_contexts_all_example :
    let d = count_contexts key_of no_contexts (rows true) in
    (count_of "x" d.counts ≡ length (keep (has_context key_of "x") (rows true)))
    × (d.invalid ≡ length (keep (has_no_context key_of) (rows true)))
    × (sum_of d.counts ≡ d.total)
count_contexts_all_example = count_contexts_all key_of "x" (rows true)

clusters_from_all_example :
    let (clusters, invalid) = clusters_from num row_name 0 [] 0 (rows true) in
    (scores_under "a" clusters ≡ named_scores num row_name "a" 0 (rows true))
    × (invalid ≡ length (keep (has_no_score num) (rows true)))
clusters_from_all_example = clusters_from_all num row_name "a" (rows true)
