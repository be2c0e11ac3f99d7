-- ===== src/Deployment/Features.antt =====
-- The context features of ai_workflow/contextual_features.py, and the arm that a policy has for them.

use Prim.Native.Char.{code}
use ai_workflow_control_plan.Common.{
  ℕ, suc, Option, none, some, List, [], ◌∷◌, String, str_eq, leb, ◌==◌, if◌then◌else◌, strip,
  is_blank, contains, squeeze,
}
use ai_workflow_control_plan.Models.{RouteDecision, lane_value, risk_value}
use ai_workflow_control_plan.Deployment.Types.{StateBody, baseline_arm, safe_exploration_arms}
use ai_workflow_control_plan.Deployment.Manifest.{validate_context_fields}

-- `RetrievalContextFeatures`
pub record Features : Type 0 where
  pub lane : String
  pub risk : String
  pub intent : String
  pub query_length_bucket : String
  pub changed_files_bucket : String
  pub workspace_roots_bucket : String

-- How many spaces a text has.
spaces : String → ℕ
spaces String.[] = 0
spaces (String.◌∷◌ c s) = let rest = spaces s in if code c == 32 then suc rest else rest

-- `len(query.split())`: the words of a text stand between single spaces once it is squeezed.
word_count : String → ℕ
unfolding spaces squeeze
word_count s = if str_eq (squeeze s) "" then 0 else suc (spaces (squeeze s))

query_length_bucket : ℕ → String
query_length_bucket count =
    if leb count 4
    then "1-4"
    else if leb count 8
    then "5-8"
    else if leb count 16
    then "9-16"
    else "17+"

count_bucket : ℕ → String
count_bucket count =
    if count == 0 then "0" else if count == 1 then "1" else if leb count 3 then "2-3" else "4+"

-- No workspace counts as one.
workspace_bucket : ℕ → String
workspace_bucket count = if leb count 1 then "1" else if count == 2 then "2" else "3+"

unfoldable pub build_context_features : String → RouteDecision → String → ℕ → ℕ → Features
unfolding word_count query_length_bucket count_bucket workspace_bucket
build_context_features query decision intent changed_files workspace_roots = record {
  lane = lane_value decision.lane;
  risk = risk_value decision.risk;
  intent = intent;
  query_length_bucket = query_length_bucket (word_count query);
  changed_files_bucket = count_bucket changed_files;
  workspace_roots_bucket = workspace_bucket workspace_roots;
}

-- The entries in the order of `FEATURE_FIELDS`.
abbrev to_dict : Features → List (String × String)
to_dict f =
    ("lane", f.lane)
    ∷ ("risk", f.risk)
    ∷ ("intent", f.intent)
    ∷ ("query_length_bucket", f.query_length_bucket)
    ∷ ("changed_files_bucket", f.changed_files_bucket)
    ∷ ("workspace_roots_bucket", f.workspace_roots_bucket)
    ∷ []

-- The loop of `normalize_context_features`; a blank value fails.
normalize : List (String × String) → Option (List (String × String))
unfolding is_blank strip
normalize [] = some []
normalize ((field, raw) ∷ entries) =
    let rest = normalize entries in
    if is_blank raw
    then none
    else elim rest [ none ↦ none | some out ↦ some ((field, strip raw) ∷ out) ]

-- `d.get(key, default)`
pub get : List (String × String) → String → String → String
get [] key default = default
get ((k, value) ∷ entries) key default =
    let rest = get entries key default in if str_eq k key then value else rest

selected : List (String × String) → List String → List (String × String)
unfolding get
selected normalized [] = []
selected normalized (field ∷ fields) = (field, get normalized field "") ∷ selected normalized fields

-- `context_key`; `dumps` is the canonical JSON text of the entries, and `none` a `ValueError`.
unfoldable pub context_key :
    (List (String × String) → String) → Features → List String → Option String
unfolding normalize selected validate_context_fields
context_key dumps features fields = elim (validate_context_fields fields) [
  | none ↦ none
  | some chosen ↦ elim (normalize (to_dict features)) [
    | none ↦ none
    | some normalized ↦ some (dumps (selected normalized chosen))
  ]
]

-- `_target_arm` of ai_workflow/deployment_runtime.py, once the context is known: an arm that is not safe
-- is replaced by the baseline.
unfoldable pub arm_for : List (String × String) → String → String
unfolding get
arm_for policy key =
    let arm = strip (get policy key baseline_arm) in
    if contains safe_exploration_arms arm then arm else baseline_arm

unfoldable pub of_fields :
    (List (String × String) → String)
    → Features
    → Option (List String)
    → Option (List (String × String))
    → String × Option String
unfolding arm_for context_key
of_fields dumps features none policy = (baseline_arm, none)
of_fields dumps features (some fields) none = (baseline_arm, none)
of_fields dumps features (some fields) (some policy) = elim (context_key dumps features fields) [
  | none ↦ (baseline_arm, none)
  | some key ↦ (arm_for policy key, some key)
]

-- `_target_arm`
unfoldable pub target_arm :
    (List (String × String) → String) → StateBody → Features → String × Option String
unfolding of_fields
target_arm dumps b features = elim b.policy_manifest [
  | none ↦ (baseline_arm, none)
  | some m ↦ of_fields dumps features m.body.context_fields m.body.policy
]
