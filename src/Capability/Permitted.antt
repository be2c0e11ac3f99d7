-- ===== src/Capability/Permitted.antt =====
-- The gate of ai_workflow/capability_gate.py against a description of the permitted actions.
use ai_workflow_control_plan.Common.{
  ℕ, suc, ◌≤◌, ◌≡◌, refl, sym, ◌∙◌, ◌↔◌, true, false, false≢true, Option, some, List, String, Char,
  arith, Result, err, ok, required-ok,
}
use ai_workflow_control_plan.Value.{Value, object, size, size_fields}
use ai_workflow_control_plan.Models.{ContextItem}
use ai_workflow_control_plan.Capability.Types.{
  Capability, tool_execution, ModelActionRequest, ModelCapabilityPolicy,
}
use ai_workflow_control_plan.Capability.Canonical.{
  CanonicalError, parameter_budget, value_error, canonical_value,
}
use ai_workflow_control_plan.Capability.Encodable.{
  EncodableFields, canonical_value_complete, canonical_value_sound,
}
use ai_workflow_control_plan.Capability.Parameters.{validate_tool_parameters}
use ai_workflow_control_plan.Capability.Gate.{
  Payload, payload, action_request_digest, evidence_ids, all_known, tool_verdict,
  capability_verdict, authorize_model_action,
}
use ai_workflow_control_plan.Capability.Description.{Permitted}
use ai_workflow_control_plan.Capability.Verdicts.{
  All→all_known, cited-All, scope_verdict-go, scope_verdict_of, tool_verdict-allowed,
  tool_verdict_of,
}

module _ (sha : Payload → Option String) (request : ModelActionRequest) where
  digest_of :
      suc (size_fields request.parameters) ≤ 256
      → EncodableFields request.parameters 1
      → (digest : String) → sha (payload request (object request.parameters)) ≡ some digest
      → action_request_digest sha request ≡ ok digest
  unfolding action_request_digest size
  digest_of small encodable digest written =
      rw
        (
          canonical_value_complete (object request.parameters) 0 0 (omega arith, encodable)
              (omega (arith, small)),
          written,
        )
        refl

  pub digest-ok :
      (digest : String)
      → action_request_digest sha request ≡ ok digest
      → EncodableFields request.parameters 1
        × (sha (payload request (object request.parameters)) ≡ some digest)
  unfolding action_request_digest size
  digest-ok digest h = split (canonical_value (object request.parameters) 0 0) refl
    where
      split :
          (r : Result CanonicalError (Value × ℕ))
          → canonical_value (object request.parameters) 0 0 ≡ r
          → EncodableFields request.parameters 1
            × (sha (payload request (object request.parameters)) ≡ some digest)
      split (ok r) q =
          let copied = canonical_value_sound (object request.parameters) 0 0 r q in
          (
            copied.1.1,
            ground (arith, copied, required-ok (sha (payload request r.0)) value_error digest),
          )
      split (err e) q = ground arith

module _ (sha : Payload → Option String) (fold : Char → String) (policy : ModelCapabilityPolicy)
    (request : ModelActionRequest) (evidence : List ContextItem) where
  tool_only :
      (capability : Capability)
      → (capability_verdict fold policy capability request).0 ≡ true
      → (capability ≡ tool_execution) × ((tool_verdict fold policy request).0 ≡ true)
  unfolding capability_verdict
  tool_only tool_execution h = (refl, h)
  tool_only _ h = cc

  digested_verdict :
      (digest : String)
      → action_request_digest sha request ≡ ok digest
      → (authorize_model_action fold policy sha request evidence).allowed ≡ true
      → (all_known (evidence_ids evidence) request.cited_evidence_ids ≡ true)
        × ((capability_verdict fold policy request.capability request).0 ≡ true)
  unfolding authorize_model_action
  digested_verdict digest q h = ground arith

  refused-error :
      (e : CanonicalError)
      → action_request_digest sha request ≡ err e
      → (authorize_model_action fold policy sha request evidence).allowed ≡ false
  unfolding authorize_model_action
  refused-error parameter_budget q = ground arith
  refused-error value_error q = ground arith

  -- The payload of the request has a JSON text that can be encoded, and so a digest.
  abbrev pub Written : Type 0
  Written = (digest : String) × (sha (payload request (object request.parameters)) ≡ some digest)

  Permitted-of :
      (r : Result CanonicalError String)
      → action_request_digest sha request ≡ r
      → (authorize_model_action fold policy sha request evidence).allowed ≡ true
      → Permitted fold policy request evidence × Written
  Permitted-of (err e) q h = absurd (false≢true (sym (refused-error e q) ∙ h))
  Permitted-of (ok digest) q h =
      let (known, verdict) = digested_verdict digest q h in
      let (is_tool, allowed) = tool_only request.capability verdict in
      let (tool, rest) = tool_verdict-allowed fold policy request allowed in
      let (small, body, chosen) =
        scope_verdict-go fold policy request
          (validate_tool_parameters fold policy request.parameters)
          (unfold validate_tool_parameters in refl) rest in
      let (encodable, written) = digest-ok sha request digest q in
      (
        record {
          is_tool = is_tool;
          cited = cited-All (evidence_ids evidence) request.cited_evidence_ids known;
          tool = tool;
          bounded = small;
          encodable = encodable;
          scoped = body;
          selected = chosen;
        },
        (digest, written),
      )

  allowed_of :
      Permitted fold policy request evidence
      → Written
      → (authorize_model_action fold policy sha request evidence).allowed ≡ true
  unfolding authorize_model_action capability_verdict
  allowed_of p (digest, written) =
      let verdict =
        tool_verdict_of fold policy request p.tool
          (scope_verdict_of fold policy request (p.bounded, p.scoped, p.selected)) in
      ground (
        arith,
        digest_of sha request p.bounded p.encodable digest written,
        All→all_known (evidence_ids evidence) request.cited_evidence_ids p.cited,
        verdict,
      )

  -- The gate allows an action exactly where the description permits it and its payload can be written as
  -- encoded JSON text: no other action is ever allowed, and no such action is ever refused.
  pub authorize_model_action-allowed :
      ((authorize_model_action fold policy sha request evidence).allowed ≡ true)
      ↔ (Permitted fold policy request evidence × Written)
  authorize_model_action-allowed = (Permitted-of _ refl, λ p. allowed_of p.0 p.1)
