-- ===== src/Deployment/Assigned.antt =====
-- The steps of ai_workflow/deployment_runtime.py up to a candidate assignment.
use ai_workflow_control_plan.Common.{
  ℕ, ◌*◌, ◌^◌, ◌<◌, ◌≡◌, refl, sym, ◌⊎◌, inl, inr, Bool, true, false, Option, none, some, List, [],
  String, str_eq, arith, contains, In, contains→In, ok, err, Result-cases,
}
use ai_workflow_control_plan.Models.{low, RouteDecision}
use ai_workflow_control_plan.Deployment.Types.{
  is_live, baseline_arm, safe_exploration_arms, StateBody, State, Hashes,
}
use ai_workflow_control_plan.Deployment.Verify.{verify_deployment_state}
use ai_workflow_control_plan.Deployment.Transition.{passes, generation_of}
use ai_workflow_control_plan.Deployment.Lock.{Disk, World, Outcome}
use ai_workflow_control_plan.Deployment.Files.{load_deployment_state, update_deployment_state_file}
use ai_workflow_control_plan.Deployment.Features.{
  Features, build_context_features, context_key, arm_for, of_fields, target_arm,
}
use ai_workflow_control_plan.Deployment.Runtime.{
  draw_assignment, auto_rollback_if_needed, after_update, assign_arm, assign, is_required,
  after_rollback, resolve_state, resolve_runtime_deployment,
}
use ai_workflow_control_plan.Deployment.Assignment.{
  rollback_move, Config, LiveReport, Assignment, candidate, Draw, one, fraction_of,
  baseline_assignment,
}

-- Every arm that a policy is read for is one of the safe ones.
arm_for-cases :
    (policy : List (String × String)) (key : String)
    → (arm_for policy key ≡ baseline_arm)
      ⊎ (contains safe_exploration_arms (arm_for policy key) ≡ true)
unfolding arm_for
arm_for-cases policy key = ground arith

arm_for-safe :
    (policy : List (String × String)) (key : String) → In (arm_for policy key) safe_exploration_arms
arm_for-safe policy key = elim (arm_for-cases policy key) [
  | inl e ↦ inl (sym e)
  | inr e ↦ contains→In safe_exploration_arms (arm_for policy key) e
]

of_fields-safe :
    (dumps : List (String × String) → String) (features : Features) (fields : Option (List String))
    (policy : Option (List (String × String)))
    → In (of_fields dumps features fields policy).0 safe_exploration_arms
unfolding of_fields
of_fields-safe dumps features none policy = inl refl
of_fields-safe dumps features (some fields) none = inl refl
of_fields-safe dumps features (some fields) (some policy) =
    elim (context_key dumps features fields)
      as (λ k.
        In
          (elim k as (λ _. String × Option String) [
            | none ↦ (baseline_arm, none)
            | some key ↦ (arm_for policy key, some key)
          ]).0
          safe_exploration_arms) [ none ↦ inl refl | some key ↦ arm_for-safe policy key ]

pub target_arm-safe :
    (dumps : List (String × String) → String) (b : StateBody) (features : Features)
    → In (target_arm dumps b features).0 safe_exploration_arms
unfolding target_arm
target_arm-safe dumps b features =
    elim b.policy_manifest
      as (λ m.
        In
          (elim m as (λ _. String × Option String) [
            | none ↦ (baseline_arm, none)
            | some m ↦ of_fields dumps features m.body.context_fields m.body.policy
          ]).0
          safe_exploration_arms) [
            | none ↦ inl refl
            | some m ↦ of_fields-safe dumps features m.body.context_fields m.body.policy
          ]

module _ (hashes : Hashes) (sha : State → String) (dumps : List (String × String) → String)
    (round_12 : ℕ → ℕ) (guardrails : State → LiveReport) (mirror_fails : Bool) where
  pub assign_arm-candidate :
      (draw : Draw) (s : State) (arm : String) (key : Option String)
      → (assign_arm hashes sha dumps round_12 guardrails mirror_fails draw s (arm, key)).kind
        ≡ candidate
      → (draw.numerator * one < fraction_of s.body.traffic_fraction * 2 ^ 64)
        × (str_eq arm baseline_arm ≡ false)
        × ((assign_arm hashes sha dumps round_12 guardrails mirror_fails draw s
              (arm, key)).chosen_arm
            ≡ arm)
  unfolding assign_arm baseline_assignment draw_assignment
  assign_arm-candidate draw s arm key h = ground arith

  pub assign-candidate :
      (draw : Draw) (features : Features) (decision : RouteDecision) (s : State)
      → (assign hashes sha dumps round_12 guardrails mirror_fails draw features decision s).kind
        ≡ candidate
      → (is_live s.body.stage ≡ true)
        × (decision.risk ≡ low)
        × (assign hashes sha dumps round_12 guardrails mirror_fails draw features decision s
            ≡ assign_arm hashes sha dumps round_12 guardrails mirror_fails draw s
                (target_arm dumps s.body features))
  unfolding assign baseline_assignment
  assign-candidate draw features decision s h = ground arith

  pub after_rollback-candidate :
      (draw : Draw) (features : Features) (decision : RouteDecision)
      (r : (State × Option LiveReport) × Disk) (a : Assignment) (d : Disk)
      → after_rollback hashes sha dumps round_12 guardrails mirror_fails draw features decision r
        ≡ (some a, d)
      → a.kind ≡ candidate
      → (is_required hashes sha dumps round_12 guardrails mirror_fails r.0.1 ≡ false)
        × (assign hashes sha dumps round_12 guardrails mirror_fails draw features decision r.0.0
            ≡ a)
  unfolding after_rollback baseline_assignment
  after_rollback-candidate draw features decision r a d h k = ground arith

  after_update-report :
      (s : State) (outcome : Outcome State)
      → is_required hashes sha dumps round_12 guardrails mirror_fails
          (after_update hashes sha dumps round_12 guardrails mirror_fails s outcome).0.1
        ≡ passes (guardrails s).rollback_required
  after_update-report s (ok rolled, d) = refl
  after_update-report s (err e, d) = refl

  -- Where no rollback is asked for, the state stays, and a live one is healthy.
  pub auto_rollback-keeps :
      (w : World) (now : String) (config : Config) (s : State) (disk : Disk)
      → is_required hashes sha dumps round_12 guardrails mirror_fails
          (auto_rollback_if_needed hashes sha dumps round_12 guardrails mirror_fails w now config s
            disk).0.1
        ≡ false
      → ((auto_rollback_if_needed hashes sha dumps round_12 guardrails mirror_fails w now config s
            disk).0.0
          ≡ s)
        × (is_live s.body.stage ≡ true
            → config.auto_rollback ≡ true
            → passes (guardrails s).rollback_required ≡ false)
  unfolding auto_rollback_if_needed
  auto_rollback-keeps w now config s disk h =
      let report = after_update-report s (
        update_deployment_state_file hashes sha config.signing_key w
          (some (generation_of s.body.generation)) (rollback_move now (guardrails s)) disk) in
      ground (arith, h, report)

  pub resolve_state-candidate :
      (w : World) (now : String) (config : Config) (draw : Draw) (features : Features)
      (decision : RouteDecision) (disk : Disk) (s : State) (a : Assignment) (d : Disk)
      → resolve_state hashes sha dumps round_12 guardrails mirror_fails w now config draw features
          decision disk s
        ≡ (some a, d)
      → a.kind ≡ candidate
      → (verify_deployment_state hashes config.signing_key s ≡ [])
        × (after_rollback hashes sha dumps round_12 guardrails mirror_fails draw features decision (
              auto_rollback_if_needed hashes sha dumps round_12 guardrails mirror_fails w now config
                s disk)
            ≡ (some a, d))
  unfolding resolve_state baseline_assignment
  resolve_state-candidate w now config draw features decision disk s a d h k = ground arith

  pub resolve-loaded :
      (w : World) (now : String) (config : Config) (draw : Draw) (query : String)
      (decision : RouteDecision) (intent : String) (files roots : ℕ) (disk d : Disk)
      (a : Assignment)
      → resolve_runtime_deployment hashes sha dumps round_12 guardrails mirror_fails w now config
          draw query decision intent files roots disk
        ≡ (some a, d)
      → a.kind ≡ candidate
      → (config.enabled ≡ true)
        × (config.kill_switch ≡ false)
        × ((s : State) × (load_deployment_state disk ≡ ok s)
            × (resolve_state hashes sha dumps round_12 guardrails mirror_fails w now config draw
                  (build_context_features query decision intent files roots)
                  decision
                  disk
                  s
                ≡ (some a, d)))
  unfolding resolve_runtime_deployment baseline_assignment
  resolve-loaded w now config draw query decision intent files roots disk d a h k =
      elim (Result-cases (load_deployment_state disk)) [
        | inl (s, loaded) ↦
            (ground (arith, loaded), ground (arith, loaded), (s, loaded, ground (arith, loaded)))
        | inr (e, failed) ↦ ground (arith, failed)
      ]
