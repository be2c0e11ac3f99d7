-- ===== src/Guardrails/Grouped.antt =====
-- The groups into which ai_workflow/deployment_guardrails.py puts its rows: the contexts of a distribution,
-- and the clusters of scores.
use ai_workflow_control_plan.Common.{
  ℕ, suc, ◌+◌, ◌≡◌, refl, ap, sym, ◌∙◌, append-nil, append_assoc, inl, inr, Bool, true, false,
  false≢true, Option, none, some, List, [], ◌∷◌, ◌++◌, String, str_eq, eq_iff, arith, if◌then◌else◌,
  length, Bool-cases, Option-cases,
}
use ai_workflow_control_plan.Deployment.Features.{Features}
use ai_workflow_control_plan.Guardrails.{Numbers, Row}
use ai_workflow_control_plan.Guardrails.Scores.{row_score, add_score, cluster_name, clusters_from}
use ai_workflow_control_plan.Guardrails.Monitor.{
  keep, Contexts, key_of_row, count_key, count_contexts,
}

-- What is counted under a key.
abbrev pub count_of : String → List (String × ℕ) → ℕ
count_of key [] = 0
count_of key ((k, n) ∷ counts) = if str_eq k key then n else count_of key counts

-- The row's context is the one of the key.
abbrev pub has_context : {F : Type 0} → (Features → Option String) → String → Row F → Bool
has_context key_of key row = elim (key_of_row key_of row) [ none ↦ false | some k ↦ str_eq k key ]

abbrev pub has_no_context : {F : Type 0} → (Features → Option String) → Row F → Bool
has_no_context key_of row = elim (key_of_row key_of row) [ none ↦ true | some k ↦ false ]

abbrev pub no_contexts : Contexts
no_contexts = record { counts = []; total = 0; invalid = 0 }

abbrev pub sum_of : List (String × ℕ) → ℕ
sum_of [] = 0
sum_of ((key, n) ∷ counts) = n + sum_of counts

sum_of-count_key :
    (key : String) (counts : List (String × ℕ))
    → sum_of (count_key key counts) ≡ suc (sum_of counts)
unfolding count_key
sum_of-count_key key [] = refl
sum_of-count_key key ((k, n) ∷ counts) =
    let rest = sum_of-count_key key counts in ground (arith, rest)

count_of-count_key :
    (key new : String) (counts : List (String × ℕ))
    → count_of key (count_key new counts) ≡ (if str_eq new key then 1 else 0) + count_of key counts
unfolding count_key
count_of-count_key key new [] = ground arith
count_of-count_key key new ((k, n) ∷ counts) =
    let rest = count_of-count_key key new counts in
    ground (arith, rest, eq_iff k new, eq_iff new key, eq_iff k key)

length-keep :
    {A : Type 0} (test : A → Bool) (x : A) (xs : List A) (b : Bool)
    → test x ≡ b
    → length (keep test (x ∷ xs)) ≡ (if b then 1 else 0) + length (keep test xs)
unfolding keep
length-keep test x xs true h = rw h (omega arith)
length-keep test x xs false h = rw h (omega arith)

module _ {F : Type 0} (key_of : Features → Option String) where
  count_contexts-under :
      (key : String) (c : Contexts) (rows : List (Row F))
      → count_of key (count_contexts key_of c rows).counts
        ≡ count_of key c.counts + length (keep (has_context key_of key) rows)
  unfolding count_contexts keep
  count_contexts-under key c [] = omega arith
  count_contexts-under key c (row ∷ rows) = elim (Option-cases (key_of_row key_of row)) [
    | inl e ↦
        let step = length-keep (has_context key_of key) row rows false (rw (e, has_context) refl) in
        let rest = count_contexts-under key (record c { invalid = suc c.invalid }) rows in
        rw (e, count_contexts, step) (omega (arith, rest))
    | inr (k, e) ↦
        let step =
          length-keep (has_context key_of key) row rows (str_eq k key) (rw (e, has_context) refl) in
        let more = count_of-count_key key k c.counts in
        let rest =
          count_contexts-under key
            (record { counts = count_key k c.counts; total = suc c.total; invalid = c.invalid })
            rows in
        rw (e, count_contexts, step) (omega (arith, rest, more))
  ]

  count_contexts-invalid :
      (c : Contexts) (rows : List (Row F))
      → (count_contexts key_of c rows).invalid
        ≡ c.invalid + length (keep (has_no_context key_of) rows)
  unfolding count_contexts keep
  count_contexts-invalid c [] = omega arith
  count_contexts-invalid c (row ∷ rows) = elim (Option-cases (key_of_row key_of row)) [
    | inl e ↦
        let step =
          length-keep (has_no_context key_of) row rows true (rw (e, has_no_context) refl) in
        let rest = count_contexts-invalid (record c { invalid = suc c.invalid }) rows in
        rw (e, count_contexts, step) (omega (arith, rest))
    | inr (k, e) ↦
        let step =
          length-keep (has_no_context key_of) row rows false (rw (e, has_no_context) refl) in
        let rest =
          count_contexts-invalid
            (record { counts = count_key k c.counts; total = suc c.total; invalid = c.invalid })
            rows in
        rw (e, count_contexts, step) (omega (arith, rest))
  ]

  count_contexts-total :
      (c : Contexts) (rows : List (Row F))
      → sum_of c.counts ≡ c.total
      → sum_of (count_contexts key_of c rows).counts ≡ (count_contexts key_of c rows).total
  unfolding count_contexts
  count_contexts-total c [] h = h
  count_contexts-total c (row ∷ rows) h = elim (Option-cases (key_of_row key_of row)) [
    | inl e ↦
        rw (e, count_contexts) (count_contexts-total (record c { invalid = suc c.invalid }) rows h)
    | inr (k, e) ↦
        rw (e, count_contexts)
          (count_contexts-total
            (record { counts = count_key k c.counts; total = suc c.total; invalid = c.invalid })
            rows (sum_of-count_key k c.counts ∙ ap suc h))
  ]

  -- A distribution counts under each key the rows with that context, and as invalid the rows without a
  -- context; its total is the sum of its counts.
  pub count_contexts_all :
      (key : String) (rows : List (Row F))
      → let d = count_contexts key_of no_contexts rows in
        (count_of key d.counts ≡ length (keep (has_context key_of key) rows))
        × (d.invalid ≡ length (keep (has_no_context key_of) rows))
        × (sum_of d.counts ≡ d.total)
  count_contexts_all key rows = (
    omega (arith, count_contexts-under key no_contexts rows),
    omega (arith, count_contexts-invalid no_contexts rows),
    count_contexts-total no_contexts rows refl,
  )

-- The scores of a cluster.
abbrev pub scores_under : {F : Type 0} → String → List (String × List F) → List F
scores_under name [] = []
scores_under name ((key, xs) ∷ clusters) =
    if str_eq key name then xs else scores_under name clusters

scores_under-add_score :
    {F : Type 0} (name new : String) (x : F) (clusters : List (String × List F))
    → scores_under name (add_score new x clusters)
      ≡ scores_under name clusters ++ (if str_eq new name then x ∷ [] else [])
unfolding add_score
scores_under-add_score name new x [] = ground arith
scores_under-add_score name new x ((key, xs) ∷ clusters) = elim (Bool-cases (str_eq key new)) [
  | inl e ↦
      let same = ap (λ (k : String). str_eq k name) ((eq_iff key new).0 e) in
      elim (Bool-cases (str_eq key name)) [
        | inl f ↦ rw (e, f, sym same ∙ f) refl
        | inr f ↦ rw (e, f, sym same ∙ f) (sym (append-nil (scores_under name clusters)))
      ]
  | inr e ↦ elim (Bool-cases (str_eq key name)) [
    | inl f ↦ elim (Bool-cases (str_eq new name)) [
      | inl g ↦
          let key_new = (eq_iff key name).0 f ∙ sym ((eq_iff new name).0 g) in
          absurd (false≢true (sym e ∙ (eq_iff key new).1 key_new))
      | inr g ↦ rw (e, f, g) (sym (append-nil xs))
    ]
    | inr f ↦ rw (e, f) (scores_under-add_score name new x clusters)
  ]
]

abbrev pub has_no_score : {F : Type 0} → Numbers F → Row F → Bool
has_no_score num row = elim (row_score num row) [ none ↦ true | some x ↦ false ]

module _ {F : Type 0} (num : Numbers F) (row_name : ℕ → String) where
  -- The scores, in order, of the rows from an index on whose cluster has the name.
  abbrev pub named_scores : String → ℕ → List (Row F) → List F
  named_scores name index [] = []
  named_scores name index (row ∷ rows) = elim (row_score num row) [
    | none ↦ named_scores name (suc index) rows
    | some x ↦
        (if str_eq (cluster_name num row_name index row.task_fingerprint) name then x ∷ [] else [])
        ++ named_scores name (suc index) rows
  ]

  clusters_from-under :
      (name : String) (index : ℕ) (clusters : List (String × List F)) (invalid : ℕ)
      (rows : List (Row F))
      → scores_under name (clusters_from num row_name index clusters invalid rows).0
        ≡ scores_under name clusters ++ named_scores name index rows
  unfolding clusters_from
  clusters_from-under name index clusters invalid [] = sym (append-nil (scores_under name clusters))
  clusters_from-under name index clusters invalid (row ∷ rows) =
      elim (Option-cases (row_score num row)) [
        | inl e ↦
            rw (e, clusters_from, named_scores)
              (clusters_from-under name (suc index) clusters (suc invalid) rows)
        | inr (x, e) ↦
            let new = cluster_name num row_name index row.task_fingerprint in
            rw (e, clusters_from, named_scores)
              (clusters_from-under name (suc index) (add_score new x clusters) invalid rows
                ∙ ap (λ (xs : List F). xs ++ named_scores name (suc index) rows)
                    (scores_under-add_score name new x clusters)
                ∙ append_assoc (scores_under name clusters) _ _)
      ]

  clusters_from-invalid :
      (index : ℕ) (clusters : List (String × List F)) (invalid : ℕ) (rows : List (Row F))
      → (clusters_from num row_name index clusters invalid rows).1
        ≡ invalid + length (keep (has_no_score num) rows)
  unfolding clusters_from keep
  clusters_from-invalid index clusters invalid [] = omega arith
  clusters_from-invalid index clusters invalid (row ∷ rows) =
      elim (Option-cases (row_score num row)) [
        | inl e ↦
            let step = length-keep (has_no_score num) row rows true (rw (e, has_no_score) refl) in
            let rest = clusters_from-invalid (suc index) clusters (suc invalid) rows in
            rw (e, clusters_from, step) (omega (arith, rest))
        | inr (x, e) ↦
            let step = length-keep (has_no_score num) row rows false (rw (e, has_no_score) refl) in
            let new = cluster_name num row_name index row.task_fingerprint in
            let rest = clusters_from-invalid (suc index) (add_score new x clusters) invalid rows in
            rw (e, clusters_from, step) (omega (arith, rest))
      ]

  -- The scores under a cluster's name are those of the rows of that cluster that have one, in their order,
  -- and the invalid rows are those that have none.
  pub clusters_from_all :
      (name : String) (rows : List (Row F))
      → let (clusters, invalid) = clusters_from num row_name 0 [] 0 rows in
        (scores_under name clusters ≡ named_scores name 0 rows)
        × (invalid ≡ length (keep (has_no_score num) rows))
  clusters_from_all name rows =
      (clusters_from-under name 0 [] 0 rows, omega (arith, clusters_from-invalid 0 [] 0 rows))
