-- ===== src/Capability/Canonical.antt =====
-- `_canonical_value` of ai_workflow/capability_gate.py: the bounded copy that a digest is taken of.
-- The shared counter `budget[0]` goes in and comes out.
use ai_workflow_control_plan.Common.{
  ℕ, ◌+◌, Bool, true, ◌||◌, ltb, str_eq, text_length, if◌then◌else◌, Result, ok, err, ◌>>=◌,
}
use ai_workflow_control_plan.Value.{
  Key, text, other_key, Value, null, other, bool, int, float, str, list, object, Items, nil, cons,
  Fields, end, field, is_finite, count_items, count_fields,
}
use ai_workflow_control_plan.Capability.Types.{
  max_parameter_depth, max_parameter_nodes, max_parameter_string_chars,
}

-- `_ParameterBudgetError`, and the other `ValueError`s.
pub data CanonicalError : Type 0 where
  parameter_budget value_error : CanonicalError

-- The test on the shared counter and on the depth, made at every value.
unfoldable pub over_budget : ℕ → ℕ → Bool
over_budget count depth = ltb max_parameter_nodes count || ltb max_parameter_depth depth

-- `not isinstance(raw_key, str) or not raw_key or len(raw_key) > 128`
unfoldable pub is_bad_key : Key → Bool
is_bad_key (text k) = str_eq k "" || ltb 128 (text_length k)
is_bad_key other_key = true

unfoldable mutual
  pub canonical_value : Value → ℕ → ℕ → Result CanonicalError (Value × ℕ)
  canonical_value null depth count =
      if over_budget (count + 1) depth then err parameter_budget else ok (null, count + 1)
  canonical_value (bool b) depth count =
      if over_budget (count + 1) depth then err parameter_budget else ok (bool b, count + 1)
  canonical_value (int z) depth count =
      if over_budget (count + 1) depth then err parameter_budget else ok (int z, count + 1)
  canonical_value (str s) depth count =
      if over_budget (count + 1) depth
      then err parameter_budget
      else if ltb max_parameter_string_chars (text_length s)
      then err parameter_budget
      else ok (str s, count + 1)
  canonical_value (float bits) depth count =
      if over_budget (count + 1) depth
      then err parameter_budget
      else if is_finite bits
      then ok (float bits, count + 1)
      else err value_error
  canonical_value (object fs) depth count =
      let inner = canonical_fields fs (depth + 1) (count + 1) in
      if over_budget (count + 1) depth
      then err parameter_budget
      else if ltb max_parameter_nodes (count_fields fs)
      then err parameter_budget
      else inner >>= λ r. ok (object r.0, r.1)
  canonical_value (list vs) depth count =
      let inner = canonical_items vs (depth + 1) (count + 1) in
      if over_budget (count + 1) depth
      then err parameter_budget
      else if ltb max_parameter_nodes (count_items vs)
      then err parameter_budget
      else inner >>= λ r. ok (list r.0, r.1)
  canonical_value other depth count =
      if over_budget (count + 1) depth then err parameter_budget else err value_error

  pub canonical_items : Items → ℕ → ℕ → Result CanonicalError (Items × ℕ)
  canonical_items nil depth count = ok (nil, count)
  canonical_items (cons v vs) depth count = canonical_value v depth count >>= λ r.
      canonical_items vs depth r.1 >>= λ s. ok (cons r.0 s.0, s.1)

  pub canonical_fields : Fields → ℕ → ℕ → Result CanonicalError (Fields × ℕ)
  canonical_fields end depth count = ok (end, count)
  canonical_fields (field k v fs) depth count =
      let first = canonical_value v depth count in
      if is_bad_key k
      then err value_error
      else first >>= λ r. canonical_fields fs depth r.1 >>= λ s. ok (field k r.0 s.0, s.1)
