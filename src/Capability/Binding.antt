-- ===== src/Capability/Binding.antt =====
-- What an authorization of ai_workflow/capability_gate.py depends on, and what its digest binds.
use Prim.Native.Nat.{Ordering}
use Prim.Native.String
use text.Mathlib.TextEquality.{path_by_compare}
use ai_workflow_control_plan.Common.{
  ◌≡◌, refl, sym, ap, ◌∙◌, ◌↔◌, ◌⊎◌, subst, false≢true, Option, some, List, [], ◌∷◌, String, Char,
  arith, contains, In, contains→In, In→contains, Bool-cases, inl, inr, ok,
}
use ai_workflow_control_plan.Value.{object, Fields}
use ai_workflow_control_plan.Models.{ContextItem}
use ai_workflow_control_plan.Capability.Types.{ModelActionRequest, ModelCapabilityPolicy}
use ai_workflow_control_plan.Capability.Gate.{
  Payload, payload, action_request_digest, sorted_set, evidence_ids, all_known, insert_text,
  authorize_model_action,
}
use ai_workflow_control_plan.Capability.Permitted.{digest-ok}

-- Two lists hold the same texts.
abbrev pub SameTexts : List String → List String → Type 0
SameTexts xs ys = (x : String) → In x xs ↔ In x ys

contains_congr :
    (xs ys : List String) (x : String) → SameTexts xs ys → contains xs x ≡ contains ys x
contains_congr xs ys x same = elim (Bool-cases (contains xs x)) [
  | inl e ↦ e ∙ sym (In→contains ys x ((same x).0 (contains→In xs x e)))
  | inr e ↦ elim (Bool-cases (contains ys x)) [
    | inl f ↦ absurd (false≢true (sym e ∙ In→contains xs x ((same x).1 (contains→In ys x f))))
    | inr f ↦ e ∙ sym f
  ]
]

all_known_congr : (xs ys ids : List String) → SameTexts xs ys → all_known xs ids ≡ all_known ys ids
unfolding all_known
all_known_congr xs ys [] same = refl
all_known_congr xs ys (id ∷ ids) same =
    cc (contains_congr xs ys id same, all_known_congr xs ys ids same)

module _ (sha : Payload → Option String) (fold : Char → String) where
  -- The decision on an action is the same for any two collections of evidence with the same
  -- identities: neither the texts, the sources nor the order of the evidence can change it.
  pub authorize_model_action-ids :
      (policy : ModelCapabilityPolicy) (request : ModelActionRequest)
      (first second : List ContextItem)
      → SameTexts (evidence_ids first) (evidence_ids second)
      → authorize_model_action fold policy sha request first
        ≡ authorize_model_action fold policy sha request second
  unfolding authorize_model_action
  authorize_model_action-ids policy request first second same = ground (
    arith,
    all_known_congr (evidence_ids first) (evidence_ids second) request.cited_evidence_ids same,
  )

-- The same action: every field agrees, and the same evidence is cited.
pub record SameAction (a b : ModelActionRequest) : Type 0 where
  pub capability : a.capability ≡ b.capability
  pub tool_name : a.tool_name ≡ b.tool_name
  pub provider_id : a.provider_id ≡ b.provider_id
  pub repository_id : a.repository_id ≡ b.repository_id
  pub network_host : a.network_host ≡ b.network_host
  pub secret_name : a.secret_name ≡ b.secret_name
  pub requested_lane : a.requested_lane ≡ b.requested_lane
  pub parameters : a.parameters ≡ b.parameters
  pub cited_evidence_ids : SameTexts a.cited_evidence_ids b.cited_evidence_ids

In-insert_text : (y x : String) (xs : List String) → In y (insert_text x xs) ↔ ((x ≡ y) ⊎ In y xs)
unfolding insert_text
In-insert_text y x [] = (λ h. h, λ h. h)
In-insert_text y x (z ∷ zs) = split (In-insert_text y x zs) (String.compare x z) refl
  where
    split :
        (In y (insert_text x zs) ↔ ((x ≡ y) ⊎ In y zs))
        → (o : Ordering) → String.compare x z ≡ o
        → In y (insert_text x (z ∷ zs)) ↔ ((x ≡ y) ⊎ In y (z ∷ zs))
    split further Ordering.lt q =
        let e : insert_text x (z ∷ zs) ≡ x ∷ z ∷ zs = ground arith in
        subst (λ l. In y l ↔ ((x ≡ y) ⊎ In y (z ∷ zs))) (sym e) (λ h. h, λ h. h)
    split further Ordering.eq q =
        let e : insert_text x (z ∷ zs) ≡ z ∷ zs = ground arith in
        subst (λ l. In y l ↔ ((x ≡ y) ⊎ In y (z ∷ zs))) (sym e)
          (λ h. inr h, λ h. elim h [ inl e ↦ inl (sym (path_by_compare x z q) ∙ e) | inr m ↦ m ])
    split further Ordering.gt q =
        let e : insert_text x (z ∷ zs) ≡ z ∷ insert_text x zs = ground arith in
        subst (λ l. In y l ↔ ((x ≡ y) ⊎ In y (z ∷ zs))) (sym e)
          (
            λ h. elim h [
              | inl e ↦ inr (inl e)
              | inr m ↦ elim (further.0 m) [ inl e ↦ inl e | inr k ↦ inr (inr k) ]
            ],
            λ h. elim h [
              | inl e ↦ inr (further.1 (inl e))
              | inr (inl e) ↦ inl e
              | inr (inr m) ↦ inr (further.1 (inr m))
            ],
          )

In-sorted_set : (y : String) (xs : List String) → In y (sorted_set xs) ↔ In y xs
unfolding sorted_set
In-sorted_set y [] = (λ h. h, λ h. h)
In-sorted_set y (x ∷ xs) =
    let inserted = In-insert_text y x (sorted_set xs) in
    let rest = In-sorted_set y xs in
    (
      λ h. elim (inserted.0 h) [ inl e ↦ inl e | inr m ↦ inr (rest.0 m) ],
      λ h. inserted.1 (elim h [ inl e ↦ inl e | inr m ↦ inr (rest.1 m) ]),
    )

sorted_set-SameTexts : (xs ys : List String) → sorted_set xs ≡ sorted_set ys → SameTexts xs ys
sorted_set-SameTexts xs ys e x = (
  λ m. (In-sorted_set x ys).0 (subst (In x) e ((In-sorted_set x xs).1 m)),
  λ m. (In-sorted_set x xs).0 (subst (In x) (sym e) ((In-sorted_set x ys).1 m)),
)

object-injective : (fs gs : Fields) → object fs ≡ object gs → fs ≡ gs
object-injective fs gs e = ground arith

digest_payload :
    (sha : Payload → Option String) (a : ModelActionRequest) (digest : String)
    → action_request_digest sha a ≡ ok digest
    → sha (payload a (object a.parameters)) ≡ some digest
digest_payload sha a digest p = (digest-ok sha a digest p).1

-- Where the hash does not collide on the payloads of two requests, and both have the same digest, they
-- are the same action: equal capability, tool, provider, repository, host, secret, lane and parameters,
-- and the same citations up to order and repetition.
pub action_request_digest-binds :
    (sha : Payload → Option String) (a b : ModelActionRequest) (digest : String)
    → (sha (payload a (object a.parameters)) ≡ sha (payload b (object b.parameters))
        → payload a (object a.parameters) ≡ payload b (object b.parameters))
    → action_request_digest sha a ≡ ok digest
    → action_request_digest sha b ≡ ok digest
    → SameAction a b
action_request_digest-binds sha a b digest no_collision p q =
    let e = no_collision (digest_payload sha a digest p ∙ sym (digest_payload sha b digest q)) in
    record {
      capability = ap (λ r. r.capability) e;
      tool_name = ap (λ r. r.tool_name) e;
      provider_id = ap (λ r. r.provider_id) e;
      repository_id = ap (λ r. r.repository_id) e;
      network_host = ap (λ r. r.network_host) e;
      secret_name = ap (λ r. r.secret_name) e;
      requested_lane = ap (λ r. r.requested_lane) e;
      parameters = object-injective _ _ (ap (λ r. r.parameters) e);
      cited_evidence_ids =
          sorted_set-SameTexts a.cited_evidence_ids b.cited_evidence_ids
            (ap (λ r. r.cited_evidence_ids) e);
    }
