-- ===== src/Capability/Parameters.antt =====
-- `_validate_tool_parameters` of ai_workflow/capability_gate.py. The node counter and the set of
-- repositories go in and come out of every step. `fold` is Unicode's table of case foldings, for the
-- characters past ASCII.
use ai_workflow_control_plan.Common.{
  ℕ, ◌+◌, Bool, ◌||◌, Option, none, some, List, [], ◌∷◌, ◌++◌, String, Char, code, ltb, ◌==◌,
  if◌then◌else◌, strip, is_blank, contains, text_length, str_eq,
}
use Prim.Native.String
use ai_workflow_control_plan.Common.Int.{pos_part, is_negative}
use ai_workflow_control_plan.Value.{
  text, other_key, Value, null, other, bool, int, float, str, list, object, Items, nil, cons,
  Fields, end, field, is_finite,
}
use ai_workflow_control_plan.Capability.Types.{
  DenialReason, invalid_request, privileged_parameter, repository_scope_violation,
  path_scope_violation, graph_depth_exceeded, parameter_budget_exceeded, ModelCapabilityPolicy,
  max_parameter_string_chars,
}
use ai_workflow_control_plan.Capability.Canonical.{over_budget}
use ai_workflow_control_plan.Capability.Paths.{path_values_are_safe}

-- `_PRIVILEGED_PARAMETER_KEYS`
abbrev pub privileged_keys : List String
privileged_keys =
    "command" ∷ "commands" ∷ "shell" ∷ "argv" ∷ "executable" ∷ "network_host" ∷ "host" ∷ "hostname"
    ∷ "url" ∷ "uri" ∷ "endpoint_url" ∷ "secret" ∷ "secret_name" ∷ "secrets" ∷ "token" ∷ "api_key"
    ∷ "credential" ∷ "credentials" ∷ "provider" ∷ "provider_id" ∷ "requested_lane" ∷ "lane" ∷ "risk"
    ∷ "skip_verification" ∷ "verification_passes" ∷ "repository_activation" ∷ "activate_repository"
    ∷ []

-- `_REPOSITORY_PARAMETER_KEYS`
abbrev pub repository_keys : List String
repository_keys = "repository_id" ∷ "repo_id" ∷ []

-- `_DEPTH_PARAMETER_KEYS`
abbrev pub depth_keys : List String
depth_keys = "depth" ∷ "graph_depth" ∷ "max_depth" ∷ []

-- `_PATH_PARAMETER_KEYS`
abbrev pub path_keys : List String
path_keys =
    "path" ∷ "file" ∷ "files" ∷ "changed_file" ∷ "changed_files" ∷ "source_path" ∷ "target_path"
    ∷ []

-- `key.endswith(suffix)`
ends_with : String → String → Bool
ends_with suffix String.[] = str_eq suffix String.[]
ends_with suffix (String.◌∷◌ c s) = str_eq suffix (String.◌∷◌ c s) || ends_with suffix s

-- `_is_path_key`
unfoldable pub is_path_key : String → Bool
unfolding ends_with
is_path_key key =
    contains path_keys key
    || ends_with "_path" key
    || ends_with "_file" key
    || ends_with "_files" key

-- The small letter for a capital of ASCII.
letter_from : String → String → Char → String
letter_from (String.◌∷◌ upper uppers) (String.◌∷◌ lower lowers) c =
    let rest = letter_from uppers lowers c in
    if code upper == code c then String.◌∷◌ lower String.[] else rest
letter_from uppers lowers c = String.◌∷◌ c String.[]

module _ (fold : Char → String) where
  fold_char : Char → String
  unfolding letter_from
  fold_char c =
      if ltb (code c) 128
      then letter_from "ABCDEFGHIJKLMNOPQRSTUVWXYZ" "abcdefghijklmnopqrstuvwxyz" c
      else fold c

  -- `value.casefold()`
  pub casefold : String → String
  unfolding fold_char
  casefold String.[] = String.[]
  casefold (String.◌∷◌ c s) = String.◌++◌ (fold_char c) (casefold s)

-- `value.replace("-", "_")`
replace_dash : String → String
replace_dash String.[] = String.[]
replace_dash (String.◌∷◌ c s) =
    if code c == b'-' then String.◌∷◌ "_" (replace_dash s) else String.◌∷◌ c (replace_dash s)

-- `_normalized_parameter_key`
unfoldable pub normalized_parameter_key : (Char → String) → String → String
unfolding casefold replace_dash strip
normalized_parameter_key fold key = replace_dash (casefold fold (strip key))

-- What the tests on a key find: a reason to deny, or the repositories to add.
pub data KeyCheck : Type 0 where
  reject : DenialReason → KeyCheck
  accept : List String → KeyCheck

-- The test on a repository key's value.
unfoldable pub check_repository : ModelCapabilityPolicy → Value → KeyCheck
unfolding is_blank strip
check_repository policy (str s) =
    if is_blank s
    then reject invalid_request
    else if contains policy.active_repository_ids (strip s)
    then accept (strip s ∷ [])
    else reject repository_scope_violation
check_repository policy v = reject invalid_request

-- The test on a depth key's value.
unfoldable pub check_depth : ModelCapabilityPolicy → Value → Option DenialReason
check_depth policy (int z) =
    if is_negative z || ltb policy.max_graph_depth (pos_part z)
    then some graph_depth_exceeded
    else none
check_depth policy v = some invalid_request

-- The path test, and the depth test before it, once the repositories are known.
unfoldable pub check_rest : ModelCapabilityPolicy → String → Value → List String → KeyCheck
check_rest policy key v repositories =
    let on_path =
      if is_path_key key
      then (if path_values_are_safe v then accept repositories else reject path_scope_violation)
      else accept repositories in
    if contains depth_keys key
    then elim (check_depth policy v) [ some reason ↦ reject reason | none ↦ on_path ]
    else on_path

-- The block `if key is not None` of `walk`, on the normalized key.
unfoldable pub check_key : ModelCapabilityPolicy → String → Value → KeyCheck
check_key policy key v =
    if contains privileged_keys key
    then reject privileged_parameter
    else if contains repository_keys key
    then elim (check_repository policy v) [
      | reject reason ↦ reject reason
      | accept repositories ↦ check_rest policy key v repositories
    ]
    else check_rest policy key v []

-- What `walk` leaves: a reason to deny, or the counter and the repositories.
pub data Walk : Type 0 where
  deny : DenialReason → Walk
  go : ℕ → List String → Walk

abbrev pub and_then : Walk → (ℕ → List String → Walk) → Walk
and_then (deny reason) f = deny reason
and_then (go count repositories) f = f count repositories

module _ (fold : Char → String) (policy : ModelCapabilityPolicy) where
  -- The tests that come before the value's own: the budget, and the key's if there is one.
  unfoldable pub enter : Option String → Value → ℕ → ℕ → List String → Walk
  enter none v depth count repositories =
      if over_budget (count + 1) depth
      then deny parameter_budget_exceeded
      else go (count + 1) repositories
  enter (some key) v depth count repositories =
      if over_budget (count + 1) depth
      then deny parameter_budget_exceeded
      else elim (check_key policy (normalized_parameter_key fold key) v) [
        | reject reason ↦ deny reason
        | accept more ↦ go (count + 1) (repositories ++ more)
      ]

  unfoldable mutual
    pub walk : Value → Option String → ℕ → ℕ → List String → Walk
    walk (object fs) key depth count repositories =
        let inner = λ (n : ℕ) (rs : List String). walk_fields fs (depth + 1) n rs in
        and_then (enter key (object fs) depth count repositories) inner
    walk (list vs) key depth count repositories =
        let inner = λ (n : ℕ) (rs : List String). walk_items vs (depth + 1) n rs in
        and_then (enter key (list vs) depth count repositories) inner
    walk (str s) key depth count repositories =
        and_then (enter key (str s) depth count repositories) λ n rs.
          if ltb max_parameter_string_chars (text_length s)
          then deny parameter_budget_exceeded
          else go n rs
    walk null key depth count repositories = enter key null depth count repositories
    walk (bool b) key depth count repositories = enter key (bool b) depth count repositories
    walk (int z) key depth count repositories = enter key (int z) depth count repositories
    walk (float bits) key depth count repositories =
        and_then (enter key (float bits) depth count repositories)
          λ n rs. if is_finite bits then go n rs else deny invalid_request
    walk other key depth count repositories =
        and_then (enter key other depth count repositories) λ n rs. deny invalid_request

    pub walk_items : Items → ℕ → ℕ → List String → Walk
    walk_items nil depth count repositories = go count repositories
    walk_items (cons v vs) depth count repositories =
        and_then (walk v none depth count repositories) λ n rs. walk_items vs depth n rs

    pub walk_fields : Fields → ℕ → ℕ → List String → Walk
    walk_fields end depth count repositories = go count repositories
    walk_fields (field other_key v fs) depth count repositories = deny invalid_request
    walk_fields (field (text k) v fs) depth count repositories =
        let first = walk v (some k) depth count repositories in
        if str_eq k ""
        then deny invalid_request
        else and_then first λ n rs. walk_fields fs depth n rs

  unfoldable pub validate_tool_parameters : Fields → Walk
  validate_tool_parameters parameters = walk (object parameters) none 0 0 []
