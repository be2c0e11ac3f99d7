-- ===== src/Capability/Verdicts.antt =====
-- The tests of ai_workflow/capability_gate.py on a tool request, one by one.
use ai_workflow_control_plan.Common.{
  ℕ, suc, ◌≤◌, ◌≡◌, refl, ◌≢◌, ◌↔◌, ◌⊎◌, inl, inr, Bool, true, false, Option, none, some, List, [],
  ◌∷◌, ◌++◌, String, Char, arith, strip, In, contains→In, In→contains, All, length, eq_iff,
}
use ai_workflow_control_plan.Value.{object, size, size_fields}
use ai_workflow_control_plan.Capability.Types.{
  DenialReason, Reason, denial, repository_scope_violation, ModelActionRequest,
  ModelCapabilityPolicy,
}
use ai_workflow_control_plan.Capability.Parameters.{Walk, deny, go, walk, validate_tool_parameters}
use ai_workflow_control_plan.Capability.Walks.{BodyFields, inside_fields, walk_of}
use ai_workflow_control_plan.Capability.Walked.{walk-go}
use ai_workflow_control_plan.Capability.Gate.{
  all_known, tool_text, repository_refs, scope_verdict, has_privileged_field, tool_verdict,
}
use ai_workflow_control_plan.Capability.Description.{
  given_repository, RepositoryActive, ToolPermitted,
}

pub cited-All : (known ids : List String) → all_known known ids ≡ true → All (λ id. In id known) ids
unfolding all_known
cited-All known [] h = tt
cited-All known (id ∷ ids) h =
    (contains→In known id (ground arith), cited-All known ids (ground arith))

pub All→all_known :
    (known ids : List String) → All (λ id. In id known) ids → all_known known ids ≡ true
unfolding all_known
All→all_known known [] h = refl
All→all_known known (id ∷ ids) h =
    ground (arith, In→contains known id h.0, All→all_known known ids h.1)

pub repository_refs-some :
    (policy : ModelCapabilityPolicy) (given : Option String) (refs : List String)
    → repository_refs policy given ≡ some refs
    → RepositoryActive policy given × (refs ≡ given_repository given)
unfolding repository_refs
repository_refs-some policy none refs h = ground arith
repository_refs-some policy (some id) refs h =
    ground (arith, contains→In policy.active_repository_ids (strip id))

pub repository_refs_of :
    (policy : ModelCapabilityPolicy) (given : Option String)
    → RepositoryActive policy given
    → repository_refs policy given ≡ some (given_repository given)
unfolding repository_refs
repository_refs_of policy none h = refl
repository_refs_of policy (some id) h =
    ground (arith, In→contains policy.active_repository_ids (strip id) h.1)

-- The last tests ask for a repository where several are active.
pub scope_verdict-allowed :
    (policy : ModelCapabilityPolicy) (refs : List String) (count : ℕ) (found : List String)
    → ((scope_verdict policy refs (go count found)).0 ≡ true)
      ↔ ((length policy.active_repository_ids ≤ 1) ⊎ (refs ++ found ≢ []))
unfolding scope_verdict
scope_verdict-allowed policy [] count [] = (
  λ h. inl (ground arith),
  λ h. elim h [ inl few ↦ ground arith | inr some_one ↦ absurd (some_one refl) ],
)
scope_verdict-allowed policy [] count (id ∷ ids) = (λ h. inr (λ e. cc), λ h. refl)
scope_verdict-allowed policy (r ∷ rs) count [] = (λ h. inr (λ e. cc), λ h. refl)
scope_verdict-allowed policy (r ∷ rs) count (id ∷ ids) = (λ h. inr (λ e. cc), λ h. refl)

abbrev pub Selected : ModelCapabilityPolicy → List String → Type 0
Selected policy refs = (length policy.active_repository_ids ≤ 1) ⊎ (refs ≢ [])

module _ (fold : Char → String) (policy : ModelCapabilityPolicy)
    (request : ModelActionRequest) where
  -- The verdict once the repositories and the walk are known.
  abbrev pub last_verdict : Option (List String) → Bool × Reason
  last_verdict refs = elim refs [
    | none ↦ (false, denial repository_scope_violation)
    | some ids ↦ scope_verdict policy ids (validate_tool_parameters fold policy request.parameters)
  ]

  pub tool_verdict-allowed :
      (tool_verdict fold policy request).0 ≡ true
      → ToolPermitted policy request
        × ((scope_verdict policy
              (given_repository request.repository_id)
              (validate_tool_parameters fold policy request.parameters)).0
            ≡ true)
  unfolding tool_verdict has_privileged_field
  tool_verdict-allowed h = split (repository_refs policy request.repository_id) refl
    where
      split :
          (refs : Option (List String))
          → repository_refs policy request.repository_id ≡ refs
          → ToolPermitted policy request
            × ((scope_verdict policy
                  (given_repository request.repository_id)
                  (validate_tool_parameters fold policy request.parameters)).0
                ≡ true)
      split none q = ground arith
      split (some refs) q =
          let (active, same) = repository_refs-some policy request.repository_id refs q in
          (
            record {
              named = ground (arith, eq_iff (tool_text request.tool_name) "");
              allowed =
                  contains→In policy.allowed_tools (tool_text request.tool_name) (ground arith);
              no_provider = ground arith;
              no_host = ground arith;
              no_secret = ground arith;
              no_lane = ground arith;
              repository = active;
            },
            ground arith,
          )

  pub tool_verdict_of :
      ToolPermitted policy request
      → (scope_verdict policy
          (given_repository request.repository_id)
          (validate_tool_parameters fold policy request.parameters)).0
        ≡ true
      → (tool_verdict fold policy request).0 ≡ true
  unfolding tool_verdict has_privileged_field
  tool_verdict_of t h = ground (
    arith,
    eq_iff (tool_text request.tool_name) "",
    In→contains policy.allowed_tools (tool_text request.tool_name) t.allowed,
    repository_refs_of policy request.repository_id t.repository,
  )

  -- The parameters are in scope and small enough, and a repository is selected.
  abbrev pub Scoped : Type 0
  Scoped =
      (suc (size_fields request.parameters) ≤ 256)
      × BodyFields fold policy request.parameters 1
      × Selected policy
          (given_repository request.repository_id ++ inside_fields fold policy request.parameters)

  pub scope_verdict-go :
      (w : Walk)
      → walk fold policy (object request.parameters) none 0 0 [] ≡ w
      → (scope_verdict policy (given_repository request.repository_id) w).0 ≡ true
      → Scoped
  unfolding size
  scope_verdict-go (deny reason) q h = absurd (deny_refused reason h)
    where
      deny_refused :
          (reason : DenialReason)
          → (scope_verdict policy (given_repository request.repository_id) (deny reason)).0 ≡ true
          → ⊥
      deny_refused reason h = unfold scope_verdict in cc
  scope_verdict-go (go count ids) q h =
      let found = inside_fields fold policy request.parameters in
      let (e, body, went) =
        walk-go fold policy (object request.parameters) none 0 0 [] count ids q in
      let same : ids ≡ found = went.2 in
      (
        (omega (arith, went.0)),
        body,
        rw same at
            ((scope_verdict-allowed policy (given_repository request.repository_id) count ids).0 h),
      )

  pub scope_verdict_of :
      Scoped
      → (scope_verdict policy
          (given_repository request.repository_id)
          (validate_tool_parameters fold policy request.parameters)).0
        ≡ true
  unfolding validate_tool_parameters size
  scope_verdict_of (small, body, chosen) =
      let walked =
        walk_of fold policy (object request.parameters) none 0 0 [] (omega arith) body
          (omega (arith, small)) in
      rw walked (
        (scope_verdict-allowed policy (given_repository request.repository_id) _
            (inside_fields fold policy request.parameters)).1
          chosen)
