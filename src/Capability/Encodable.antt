-- ===== src/Capability/Encodable.antt =====
-- When `_canonical_value` of ai_workflow/capability_gate.py accepts a value.
use ai_workflow_control_plan.Common.{
  ℕ, ◌+◌, ◌≤◌, ◌≡◌, true, false, ◌≢◌, arith, text_length, eq_iff, >>=-ok, Result, ok, ◌>>=◌,
}
use ai_workflow_control_plan.Value.{
  Key, text, other_key, Value, null, other, bool, int, float, str, list, object, Items, nil, cons,
  Fields, end, field, is_finite, count_items, size, size_items, size_fields, count_items-le-size,
  count_fields-le-size,
}
use ai_workflow_control_plan.Capability.Canonical.{
  CanonicalError, over_budget, is_bad_key, canonical_value, canonical_items, canonical_fields,
}

-- A key is a text of 1 to 128 characters.
abbrev pub BoundedKey : Key → Type 0
BoundedKey (text k) = (k ≢ "") × (text_length k ≤ 128)
BoundedKey other_key = ⊥

-- The tree may stand at the depth: no value is deeper than 6, keys and texts are bounded, floats are
-- finite, and every value has a type that JSON has.
is_bad_key-false : (k : Key) → BoundedKey k → is_bad_key k ≡ false
unfolding is_bad_key
is_bad_key-false (text k) h = ground (arith, eq_iff k "")
is_bad_key-false other_key h = absurd h

BoundedKey-of : (k : Key) → is_bad_key k ≡ false → BoundedKey k
unfolding is_bad_key
BoundedKey-of (text k) h = ground (arith, eq_iff k "")
BoundedKey-of other_key h = cc

abbrev mutual
  pub Encodable : Value → ℕ → Type 0
  Encodable null depth = depth ≤ 6
  Encodable (bool b) depth = depth ≤ 6
  Encodable (int z) depth = depth ≤ 6
  Encodable (str s) depth = (depth ≤ 6) × (text_length s ≤ 4096)
  Encodable (float bits) depth = (depth ≤ 6) × (is_finite bits ≡ true)
  Encodable (list vs) depth = (depth ≤ 6) × EncodableItems vs (depth + 1)
  Encodable (object fs) depth = (depth ≤ 6) × EncodableFields fs (depth + 1)
  Encodable other depth = ⊥

  pub EncodableItems : Items → ℕ → Type 0
  EncodableItems nil depth = Unit
  EncodableItems (cons v vs) depth = Encodable v depth × EncodableItems vs depth

  pub EncodableFields : Fields → ℕ → Type 0
  EncodableFields end depth = Unit
  EncodableFields (field k v fs) depth = BoundedKey k × Encodable v depth × EncodableFields fs depth

mutual
  unfolding canonical_value size over_budget count_items

  pub canonical_value_complete :
      (v : Value) (depth count : ℕ)
      → Encodable v depth
      → count + size v ≤ 256
      → canonical_value v depth count ≡ ok (v, count + size v)
  canonical_value_complete null depth count h b = ground arith
  canonical_value_complete (bool x) depth count h b = ground arith
  canonical_value_complete (int z) depth count h b = ground arith
  canonical_value_complete (str s) depth count h b = ground arith
  canonical_value_complete (float bits) depth count h b = ground arith
  canonical_value_complete other depth count h b = absurd h
  canonical_value_complete (list vs) depth count h b =
      ground
        (arith, canonical_items_complete vs (depth + 1) (count + 1) h.1, count_items-le-size vs)
  canonical_value_complete (object fs) depth count h b =
      ground
        (arith, canonical_fields_complete fs (depth + 1) (count + 1) h.1, count_fields-le-size fs)

  canonical_items_complete :
      (vs : Items) (depth count : ℕ)
      → EncodableItems vs depth
      → count + size_items vs ≤ 256
      → canonical_items vs depth count ≡ ok (vs, count + size_items vs)
  canonical_items_complete nil depth count h b = ground arith
  canonical_items_complete (cons v vs) depth count h b = ground (
    arith,
    canonical_value_complete v depth count h.0,
    canonical_items_complete vs depth (count + size v) h.1,
  )

  canonical_fields_complete :
      (fs : Fields) (depth count : ℕ)
      → EncodableFields fs depth
      → count + size_fields fs ≤ 256
      → canonical_fields fs depth count ≡ ok (fs, count + size_fields fs)
  canonical_fields_complete end depth count h b = ground arith
  canonical_fields_complete (field k v fs) depth count h b = ground (
    arith,
    is_bad_key-false k h.0,
    canonical_value_complete v depth count h.1,
    canonical_fields_complete fs depth (count + size v) h.2,
  )

-- What a successful copy shows: the value comes back, it is encodable, and the counter has room.
abbrev pub Copied : Value → ℕ → ℕ → Value × ℕ → Type 0
Copied v depth count r = (r ≡ (v, count + size v)) × Encodable v depth × (count + size v ≤ 256)

abbrev pub CopiedItems : Items → ℕ → ℕ → Items × ℕ → Type 0
CopiedItems vs depth count r =
    (r ≡ (vs, count + size_items vs)) × EncodableItems vs depth × (count + size_items vs ≤ 256)

abbrev pub CopiedFields : Fields → ℕ → ℕ → Fields × ℕ → Type 0
CopiedFields fs depth count r =
    (r ≡ (fs, count + size_fields fs)) × EncodableFields fs depth × (count + size_fields fs ≤ 256)

mutual
  unfolding canonical_value size over_budget count_items

  pub canonical_value_sound :
      (v : Value) (depth count : ℕ) (r : Value × ℕ)
      → canonical_value v depth count ≡ ok r
      → Copied v depth count r
  canonical_value_sound null depth count r h = ground arith
  canonical_value_sound (bool x) depth count r h = ground arith
  canonical_value_sound (int z) depth count r h = ground arith
  canonical_value_sound (str s) depth count r h = ground arith
  canonical_value_sound (float bits) depth count r h = ground arith
  canonical_value_sound other depth count r h = ground arith
  canonical_value_sound (list vs) depth count r h =
      let fits : canonical_items vs (depth + 1) (count + 1) >>= (λ s. ok (list s.0, s.1)) ≡ ok r =
        ground arith in
      let (s, copied, e) = >>=-ok (canonical_items vs (depth + 1) (count + 1)) _ fits in
      ground (arith, canonical_items_sound vs (depth + 1) (count + 1) s copied)
  canonical_value_sound (object fs) depth count r h =
      let fits : canonical_fields fs (depth + 1) (count + 1) >>= (λ s. ok (object s.0, s.1))
          ≡ ok r =
        ground arith in
      let (s, copied, e) = >>=-ok (canonical_fields fs (depth + 1) (count + 1)) _ fits in
      ground (arith, canonical_fields_sound fs (depth + 1) (count + 1) s copied)

  canonical_items_sound :
      (vs : Items) (depth count : ℕ) (r : Items × ℕ)
      → canonical_items vs depth count ≡ ok r
      → count ≤ 256
      → CopiedItems vs depth count r
  canonical_items_sound nil depth count r h b = ground arith
  canonical_items_sound (cons v vs) depth count r h b =
      let (s, first, e) = >>=-ok (canonical_value v depth count) _ h in
      let (t, rest, e') = >>=-ok (canonical_items vs depth s.1) _ e in
      ground (
        arith,
        canonical_value_sound v depth count s first,
        canonical_items_sound vs depth s.1 t rest,
      )

  canonical_fields_sound :
      (fs : Fields) (depth count : ℕ) (r : Fields × ℕ)
      → canonical_fields fs depth count ≡ ok r
      → count ≤ 256
      → CopiedFields fs depth count r
  canonical_fields_sound end depth count r h b = ground arith
  canonical_fields_sound (field k v fs) depth count r h b =
      let copy_field : Value × ℕ → Result CanonicalError (Fields × ℕ) =
        λ s. canonical_fields fs depth s.1 >>= λ t. ok (field k s.0 t.0, t.1) in
      let bounded : is_bad_key k ≡ false = ground arith in
      let fits : (canonical_value v depth count >>= copy_field) ≡ ok r = ground arith in
      let (s, first, e) = >>=-ok (canonical_value v depth count) copy_field fits in
      let (t, rest, e') = >>=-ok (canonical_fields fs depth s.1) _ e in
      ground (
        arith,
        BoundedKey-of k bounded,
        canonical_value_sound v depth count s first,
        canonical_fields_sound fs depth s.1 t rest,
      )
