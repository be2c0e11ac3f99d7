-- ===== src/Capability/Walks.antt =====
-- `walk` of ai_workflow/capability_gate.py accepts exactly the trees in the policy's scope.
use ai_workflow_control_plan.Common.{
  ℕ, ◌+◌, ◌≤◌, ◌≡◌, refl, ◌≢◌, true, Option, none, some, List, [], ◌++◌, append_assoc, append-nil,
  String, Char, arith, text_length, eq_iff,
}
use ai_workflow_control_plan.Value.{
  text, other_key, Value, null, other, bool, int, float, str, list, object, Items, nil, cons,
  Fields, end, field, is_finite, size, size_items, size_fields,
}
use ai_workflow_control_plan.Capability.Types.{ModelCapabilityPolicy}
use ai_workflow_control_plan.Capability.Canonical.{over_budget}
use ai_workflow_control_plan.Capability.Parameters.{
  normalized_parameter_key, KeyCheck, reject, accept, check_key, Walk, deny, go, and_then, enter,
  walk, walk_items, walk_fields,
}
use ai_workflow_control_plan.Capability.Scope.{KeyScoped, mention, check_key-accept, check_key_of}

module _ (fold : Char → String) (policy : ModelCapabilityPolicy) where
  -- What is asked of a value before its own type is looked at.
  abbrev pub Entry : Option String → Value → ℕ → Type 0
  Entry none v depth = depth ≤ 6
  Entry (some k) v depth = (depth ≤ 6) × KeyScoped policy (normalized_parameter_key fold k) v

  -- The repository that a value mentions by its key.
  abbrev pub mention_at : Option String → Value → List String
  mention_at none v = []
  mention_at (some k) v = mention (normalized_parameter_key fold k) v

  abbrev mutual
    -- What is asked of the parts of a value at a depth.
    pub Body : Value → ℕ → Type 0
    Body null depth = Unit
    Body (bool b) depth = Unit
    Body (int z) depth = Unit
    Body (str s) depth = text_length s ≤ 4096
    Body (float bits) depth = is_finite bits ≡ true
    Body (list vs) depth = BodyItems vs (depth + 1)
    Body (object fs) depth = BodyFields fs (depth + 1)
    Body other depth = ⊥

    pub BodyItems : Items → ℕ → Type 0
    BodyItems nil depth = Unit
    BodyItems (cons v vs) depth = Entry none v depth × Body v depth × BodyItems vs depth

    pub BodyFields : Fields → ℕ → Type 0
    BodyFields end depth = Unit
    BodyFields (field other_key v fs) depth = ⊥
    BodyFields (field (text k) v fs) depth =
        (k ≢ "") × Entry (some k) v depth × Body v depth × BodyFields fs depth

  abbrev mutual
    -- The repositories that the keys inside a value mention, in the order of the walk.
    pub inside : Value → List String
    inside (list vs) = inside_items vs
    inside (object fs) = inside_fields fs
    inside null = []
    inside (bool b) = []
    inside (int z) = []
    inside (str s) = []
    inside (float bits) = []
    inside other = []

    pub inside_items : Items → List String
    inside_items nil = []
    inside_items (cons v vs) = inside v ++ inside_items vs

    pub inside_fields : Fields → List String
    inside_fields end = []
    inside_fields (field other_key v fs) = inside_fields fs
    inside_fields (field (text k) v fs) = (mention_at (some k) v ++ inside v) ++ inside_fields fs

  pub enter_of :
      (key : Option String) (v : Value) (depth count : ℕ) (rs : List String)
      → Entry key v depth
      → count + 1 ≤ 256
      → enter fold policy key v depth count rs ≡ go (count + 1) (rs ++ mention_at key v)
  unfolding enter over_budget
  enter_of none v depth count rs h b = ground (arith, append-nil rs)
  enter_of (some k) v depth count rs h b =
      ground (arith, check_key_of policy (normalized_parameter_key fold k) v h.1)

  pub enter-go :
      (key : Option String) (v : Value) (depth count : ℕ) (rs : List String) (n : ℕ)
      (after : List String)
      → enter fold policy key v depth count rs ≡ go n after
      → Entry key v depth × (n ≡ count + 1) × (count + 1 ≤ 256) × (after ≡ rs ++ mention_at key v)
  unfolding enter over_budget
  enter-go none v depth count rs n after h = ground (arith, append-nil rs)
  enter-go (some k) v depth count rs n after h =
      split (check_key policy (normalized_parameter_key fold k) v) refl
    where
      split :
          (c : KeyCheck)
          → check_key policy (normalized_parameter_key fold k) v ≡ c
          → Entry (some k) v depth
            × (n ≡ count + 1)
            × (count + 1 ≤ 256)
            × (after ≡ rs ++ mention_at (some k) v)
      split (reject reason) q = ground arith
      split (accept more) q =
          let (scoped, same) = check_key-accept policy (normalized_parameter_key fold k) v more q in
          ((ground arith, scoped), ground arith, ground arith, ground arith)

  pub and_then-go :
      (w : Walk) (f : ℕ → List String → Walk) (n : ℕ) (after : List String)
      → and_then w f ≡ go n after
      → (m : ℕ) × (between : List String) × (w ≡ go m between) × (f m between ≡ go n after)
  and_then-go (deny reason) f n after h = cc
  and_then-go (go m between) f n after h = (m, between, refl, h)

  -- A walk that goes on, and what it then has counted and collected.
  abbrev pub Goes : Walk → ℕ → List String → ℕ → List String → Type 0
  Goes w count rs more found = w ≡ go (count + more) (rs ++ found)

  mutual
    unfolding walk size

    pub walk_of :
        (v : Value) (key : Option String) (depth count : ℕ) (rs : List String)
        → Entry key v depth
        → Body v depth
        → count + size v ≤ 256
        → Goes
            (walk fold policy v key depth count rs)
            count
            rs
            (size v)
            (mention_at key v ++ inside v)
    walk_of null key depth count rs e h b =
        ground (arith, enter_of key null depth count rs e, append-nil (mention_at key null))
    walk_of (bool x) key depth count rs e h b =
        ground (arith, enter_of key (bool x) depth count rs e, append-nil (mention_at key (bool x)))
    walk_of (int z) key depth count rs e h b =
        ground (arith, enter_of key (int z) depth count rs e, append-nil (mention_at key (int z)))
    walk_of (str s) key depth count rs e h b =
        ground (arith, enter_of key (str s) depth count rs e, append-nil (mention_at key (str s)))
    walk_of (float bits) key depth count rs e h b = ground (
      arith,
      enter_of key (float bits) depth count rs e,
      append-nil (mention_at key (float bits)),
    )
    walk_of other key depth count rs e h b = absurd h
    walk_of (list vs) key depth count rs e h b =
        let m = mention_at key (list vs) in
        ground (
          arith,
          enter_of key (list vs) depth count rs e,
          walk_items_of vs (depth + 1) (count + 1) (rs ++ m) h,
          append_assoc rs m (inside_items vs),
        )
    walk_of (object fs) key depth count rs e h b =
        let m = mention_at key (object fs) in
        ground (
          arith,
          enter_of key (object fs) depth count rs e,
          walk_fields_of fs (depth + 1) (count + 1) (rs ++ m) h,
          append_assoc rs m (inside_fields fs),
        )

    walk_items_of :
        (vs : Items) (depth count : ℕ) (rs : List String)
        → BodyItems vs depth
        → count + size_items vs ≤ 256
        → Goes (walk_items fold policy vs depth count rs) count rs (size_items vs) (inside_items vs)
    walk_items_of nil depth count rs h b = ground (arith, append-nil rs)
    walk_items_of (cons v vs) depth count rs h b = ground (
      arith,
      walk_of v none depth count rs h.0 h.1,
      walk_items_of vs depth (count + size v) (rs ++ inside v) h.2,
      append_assoc rs (inside v) (inside_items vs),
    )

    walk_fields_of :
        (fs : Fields) (depth count : ℕ) (rs : List String)
        → BodyFields fs depth
        → count + size_fields fs ≤ 256
        → Goes
            (walk_fields fold policy fs depth count rs)
            count
            rs
            (size_fields fs)
            (inside_fields fs)
    walk_fields_of end depth count rs h b = ground (arith, append-nil rs)
    walk_fields_of (field other_key v fs) depth count rs h b = absurd h
    walk_fields_of (field (text k) v fs) depth count rs h b =
        let found = mention_at (some k) v ++ inside v in
        ground (
          arith,
          eq_iff k "",
          walk_of v (some k) depth count rs h.1 h.2,
          walk_fields_of fs depth (count + size v) (rs ++ found) h.3,
          append_assoc rs found (inside_fields fs),
        )
