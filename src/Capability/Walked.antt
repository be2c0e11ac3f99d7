-- ===== src/Capability/Walked.antt =====
-- What a walk over parameters that goes on has shown (ai_workflow/capability_gate.py).
use ai_workflow_control_plan.Common.{
  str_eq, ℕ, ◌+◌, ◌≤◌, ◌≡◌, false, Option, none, some, List, ◌++◌, append_assoc, append-nil, String,
  Char, arith, eq_iff,
}
use ai_workflow_control_plan.Value.{
  text, other_key, Value, null, other, bool, int, float, str, list, object, Items, nil, cons,
  Fields, end, field, size, size_items, size_fields,
}
use ai_workflow_control_plan.Capability.Types.{ModelCapabilityPolicy}
use ai_workflow_control_plan.Capability.Parameters.{
  Walk, go, and_then, enter, walk, walk_items, walk_fields,
}
use ai_workflow_control_plan.Capability.Walks.{
  Body, BodyFields, BodyItems, Entry, and_then-go, enter-go, inside, inside_fields, inside_items,
  mention_at,
}

module _ (fold : Char → String) (policy : ModelCapabilityPolicy) where
  -- What a walk that goes on shows of its counter and its repositories.
  abbrev pub Went : ℕ → List String → ℕ → List String → ℕ → List String → Type 0
  Went count rs n after more found =
      (count + more ≤ 256) × (n ≡ count + more) × (after ≡ rs ++ found)

  mutual
    unfolding walk size

    pub walk-go :
        (v : Value) (key : Option String) (depth count : ℕ) (rs : List String) (n : ℕ)
        (after : List String)
        → walk fold policy v key depth count rs ≡ go n after
        → Entry fold policy key v depth
          × Body fold policy v depth
          × Went count rs n after (size v) (mention_at fold policy key v ++ inside fold policy v)
    walk-go null key depth count rs n after h = ground (
      arith,
      enter-go fold policy key null depth count rs n after h,
      append-nil (mention_at fold policy key null),
    )
    walk-go (bool x) key depth count rs n after h = ground (
      arith,
      enter-go fold policy key (bool x) depth count rs n after h,
      append-nil (mention_at fold policy key (bool x)),
    )
    walk-go (int z) key depth count rs n after h = ground (
      arith,
      enter-go fold policy key (int z) depth count rs n after h,
      append-nil (mention_at fold policy key (int z)),
    )
    walk-go (str s) key depth count rs n after h =
        let (m, between, entered, rest) =
          and_then-go fold policy (enter fold policy key (str s) depth count rs) _ n after h in
        ground (
          arith,
          enter-go fold policy key (str s) depth count rs m between entered,
          append-nil (mention_at fold policy key (str s)),
        )
    walk-go (float bits) key depth count rs n after h =
        let (m, between, entered, rest) =
          and_then-go fold policy (enter fold policy key (float bits) depth count rs) _ n after h in
        ground (
          arith,
          enter-go fold policy key (float bits) depth count rs m between entered,
          append-nil (mention_at fold policy key (float bits)),
        )
    walk-go other key depth count rs n after h =
        let (m, between, entered, rest) =
          and_then-go fold policy (enter fold policy key other depth count rs) _ n after h in
        cc
    walk-go (list vs) key depth count rs n after h =
        let (m, between, entered, rest) =
          and_then-go fold policy (enter fold policy key (list vs) depth count rs) _ n after h in
        ground (
          arith,
          enter-go fold policy key (list vs) depth count rs m between entered,
          walk_items-go vs (depth + 1) m between n after rest,
          append_assoc rs (mention_at fold policy key (list vs)) (inside_items fold policy vs),
        )
    walk-go (object fs) key depth count rs n after h =
        let (m, between, entered, rest) =
          and_then-go fold policy (enter fold policy key (object fs) depth count rs) _ n after h in
        ground (
          arith,
          enter-go fold policy key (object fs) depth count rs m between entered,
          walk_fields-go fs (depth + 1) m between n after rest,
          append_assoc rs (mention_at fold policy key (object fs)) (inside_fields fold policy fs),
        )

    walk_items-go :
        (vs : Items) (depth count : ℕ) (rs : List String) (n : ℕ) (after : List String)
        → walk_items fold policy vs depth count rs ≡ go n after
        → count ≤ 256
        → BodyItems fold policy vs depth
          × Went count rs n after (size_items vs) (inside_items fold policy vs)
    walk_items-go nil depth count rs n after h b = ground (arith, append-nil rs)
    walk_items-go (cons v vs) depth count rs n after h b =
        let (m, between, first, rest) =
          and_then-go fold policy (walk fold policy v none depth count rs) _ n after h in
        ground (
          arith,
          walk-go v none depth count rs m between first,
          walk_items-go vs depth m between n after rest,
          append_assoc rs (inside fold policy v) (inside_items fold policy vs),
        )

    walk_fields-go :
        (fs : Fields) (depth count : ℕ) (rs : List String) (n : ℕ) (after : List String)
        → walk_fields fold policy fs depth count rs ≡ go n after
        → count ≤ 256
        → BodyFields fold policy fs depth
          × Went count rs n after (size_fields fs) (inside_fields fold policy fs)
    walk_fields-go end depth count rs n after h b = ground (arith, append-nil rs)
    walk_fields-go (field other_key v fs) depth count rs n after h b = cc
    walk_fields-go (field (text k) v fs) depth count rs n after h b =
        let go_on : ℕ → List String → Walk =
          λ m between. walk_fields fold policy fs depth m between in
        let named : str_eq k "" ≡ false = ground arith in
        let went : and_then (walk fold policy v (some k) depth count rs) go_on ≡ go n after =
          ground arith in
        let (m, between, first, rest) =
          and_then-go fold policy (walk fold policy v (some k) depth count rs) go_on n after went in
        ground (
          arith,
          eq_iff k "",
          walk-go v (some k) depth count rs m between first,
          walk_fields-go fs depth m between n after rest,
          append_assoc rs (mention_at fold policy (some k) v ++ inside fold policy v)
              (inside_fields fold policy fs),
        )
