-- ===== src/Capability/Scope.antt =====
-- Which parameters `_validate_tool_parameters` of ai_workflow/capability_gate.py accepts, said of the
-- whole tree, and which repositories they mention.
use ai_workflow_control_plan.Common.{
  ◌≤◌, ◌≡◌, refl, inl, inr, true, false, none, List, [], ◌∷◌, String, arith, if◌then◌else◌, strip,
  is_blank, contains, In, contains→In, In→contains, contains-false, contains_of_not-In, Bool-cases,
}
use ai_workflow_control_plan.Common.Int.{pos, negsuc}
use ai_workflow_control_plan.Value.{Value, null, int, str}
use ai_workflow_control_plan.Capability.Types.{ModelCapabilityPolicy}
use ai_workflow_control_plan.Capability.Paths.{path_values_are_safe}
use ai_workflow_control_plan.Capability.Parameters.{
  privileged_keys, repository_keys, depth_keys, is_path_key, KeyCheck, reject, accept,
  check_repository, check_depth, check_rest, check_key,
}

-- The value names an active repository.
abbrev pub NamesRepository : ModelCapabilityPolicy → Value → Type 0
NamesRepository policy (str s) = (is_blank s ≡ false) × In (strip s) policy.active_repository_ids
NamesRepository policy v = ⊥

-- The value is a depth within the policy's.
abbrev pub DepthWithin : ModelCapabilityPolicy → Value → Type 0
DepthWithin policy (int (pos n)) = n ≤ policy.max_graph_depth
DepthWithin policy v = ⊥

-- What the policy asks of a value under a normalized key.
pub record KeyScoped (policy : ModelCapabilityPolicy) (key : String) (v : Value) : Type 0 where
  pub not_privileged : ¬ In key privileged_keys
  pub repository : In key repository_keys → NamesRepository policy v
  pub depth : In key depth_keys → DepthWithin policy v
  pub path : is_path_key key ≡ true → path_values_are_safe v ≡ true

-- The repository that a value under a normalized key mentions.
abbrev pub named : Value → List String
named (str s) = strip s ∷ []
named v = []

abbrev pub mention : String → Value → List String
mention key v = if contains repository_keys key then named v else []

check_repository-accept :
    (policy : ModelCapabilityPolicy) (v : Value) (rs : List String)
    → check_repository policy v ≡ accept rs
    → NamesRepository policy v × (rs ≡ named v)
unfolding check_repository
check_repository-accept policy (str s) rs h =
    ground (arith, contains→In policy.active_repository_ids (strip s))
check_repository-accept policy v rs h = cc

check_repository_of :
    (policy : ModelCapabilityPolicy) (v : Value)
    → NamesRepository policy v
    → check_repository policy v ≡ accept (named v)
unfolding check_repository
check_repository_of policy (str s) h =
    ground (arith, In→contains policy.active_repository_ids (strip s) h.1)
check_repository_of policy null h = absurd h
check_repository_of policy v h = absurd h

check_depth-none :
    (policy : ModelCapabilityPolicy) (v : Value)
    → check_depth policy v ≡ none
    → DepthWithin policy v
unfolding check_depth
check_depth-none policy (int (pos n)) h = ground arith
check_depth-none policy (int (negsuc n)) h = cc
check_depth-none policy v h = cc

check_depth_of :
    (policy : ModelCapabilityPolicy) (v : Value)
    → DepthWithin policy v
    → check_depth policy v ≡ none
unfolding check_depth
check_depth_of policy (int (pos n)) h = ground arith
check_depth_of policy v h = absurd h

module _ (policy : ModelCapabilityPolicy) (key : String) (v : Value) where
  check_rest-accept :
      (before rs : List String)
      → check_rest policy key v before ≡ accept rs
      → (In key depth_keys → DepthWithin policy v)
        × (is_path_key key ≡ true → path_values_are_safe v ≡ true)
        × (rs ≡ before)
  unfolding check_rest
  check_rest-accept before rs h = (
    λ m. check_depth-none policy v (ground (arith, In→contains depth_keys key m)),
    λ p. ground arith,
    ground arith,
  )

  check_rest_of :
      (before : List String)
      → (In key depth_keys → DepthWithin policy v)
      → (is_path_key key ≡ true → path_values_are_safe v ≡ true)
      → check_rest policy key v before ≡ accept before
  unfolding check_rest
  check_rest_of before d p = elim (Bool-cases (contains depth_keys key)) [
    | inl e ↦
        let within = check_depth_of policy v (d (contains→In depth_keys key e)) in ground arith
    | inr e ↦ ground arith
  ]

  -- The repository test's part of an accepted key.
  repository_accepted :
      (rs : List String)
      → contains privileged_keys key ≡ false
      → contains repository_keys key ≡ true
      → check_key policy key v ≡ accept rs
      → (found : List String) × (check_repository policy v ≡ accept found)
        × (check_rest policy key v found ≡ accept rs)
  unfolding check_key
  repository_accepted rs free e h = split (check_repository policy v) refl
    where
      split :
          (c : KeyCheck)
          → check_repository policy v ≡ c
          → (found : List String) × (check_repository policy v ≡ accept found)
            × (check_rest policy key v found ≡ accept rs)
      split (reject reason) q = ground arith
      split (accept found) q = (found, q, ground arith)

  pub check_key-accept :
      (rs : List String)
      → check_key policy key v ≡ accept rs
      → KeyScoped policy key v × (rs ≡ mention key v)
  unfolding check_key
  check_key-accept rs h =
      let free : contains privileged_keys key ≡ false = ground arith in
      elim (Bool-cases (contains repository_keys key)) [
        | inl e ↦
            let (found, checked, rest) = repository_accepted rs free e h in
            let (d, p, same) = check_rest-accept found rs rest in
            let (names, is_named) = check_repository-accept policy v found checked in
            (
              record {
                not_privileged = contains-false privileged_keys key free;
                repository = λ m. names;
                depth = d;
                path = p;
              },
              ground arith,
            )
        | inr e ↦
            let (d, p, same) = check_rest-accept [] rs (ground arith) in
            (
              record {
                not_privileged = contains-false privileged_keys key free;
                repository = λ m. absurd (contains-false repository_keys key e m);
                depth = d;
                path = p;
              },
              ground arith,
            )
      ]

  pub check_key_of : KeyScoped policy key v → check_key policy key v ≡ accept (mention key v)
  unfolding check_key
  check_key_of k =
      let free : contains privileged_keys key ≡ false =
        contains_of_not-In privileged_keys key k.not_privileged in
      elim (Bool-cases (contains repository_keys key)) [
        | inl e ↦
            let checked =
              check_repository_of policy v (k.repository (contains→In repository_keys key e)) in
            ground (arith, check_rest_of (named v) k.depth k.path)
        | inr e ↦ ground (arith, check_rest_of [] k.depth k.path)
      ]
