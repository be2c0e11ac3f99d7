-- ===== src/Guardrails/Monitor.antt =====
-- What `evaluate_live_guardrails` of ai_workflow/deployment_guardrails.py counts of the recorded rows.
use Prim.Native.Nat.{lt, eq, gt}
use Prim.Native.String.{compare}
use ai_workflow_control_plan.Common.{
  ℕ, zero, suc, ◌-◌, Bool, false, not, ◌&&◌, Option, none, some, List, [], ◌∷◌, ◌++◌, map, String,
  str_eq, leb, if◌then◌else◌, length, contains,
}
use ai_workflow_control_plan.Deployment.Types.{is_live}
use ai_workflow_control_plan.Deployment.Features.{Features}
use ai_workflow_control_plan.Guardrails.{Numbers, Row}

-- `[x for x in xs if test(x)]`
unfoldable pub keep {ℓ} : {A : Type ℓ} → (A → Bool) → List A → List A
keep test [] = []
keep test (x ∷ xs) = let rest = keep test xs in if test x then x ∷ rest else rest

unfoldable pub drop {ℓ} : {A : Type ℓ} → ℕ → List A → List A
drop zero xs = xs
drop (suc n) [] = []
drop (suc n) (x ∷ xs) = drop n xs

-- `xs[-n:]` for a positive `n`.
abbrev pub last_n {ℓ} : {A : Type ℓ} → ℕ → List A → List A
unfolding drop
last_n n xs = drop (length xs - n) xs

abbrev pub at_least_one : ℕ → ℕ
at_least_one n = if leb n 1 then 1 else n

-- `max(2, n)`
abbrev pub at_least_two : ℕ → ℕ
at_least_two n = if leb n 2 then 2 else n

module _ {F : Type 0} where
  -- The tests of `_deployment_rows`.
  abbrev pub belongs : String → ℕ → Row F → Bool
  belongs policy_id generation row = elim row.deployment [
    | none ↦ false
    | some d ↦ elim d.state_generation [
      | none ↦ false
      | some n ↦ str_eq d.policy_id policy_id && leb n generation
    ]
  ]

  -- Before the first row that is not older: the sort is stable.
  unfoldable pub put_row : Row F → List (Row F) → List (Row F)
  put_row row [] = row ∷ []
  put_row row (r ∷ rows) =
      let further = put_row row rows in
      elim (compare row.created_at r.created_at) [
        | lt ↦ row ∷ r ∷ rows
        | eq ↦ row ∷ r ∷ rows
        | gt ↦ r ∷ further
      ]

  unfoldable pub sort_rows : List (Row F) → List (Row F)
  unfolding put_row
  sort_rows [] = []
  sort_rows (row ∷ rows) = put_row row (sort_rows rows)

  -- `_deployment_rows`, of the rows that `load_learning_records` reads.
  unfoldable pub deployment_rows : String → ℕ → List (Row F) → List (Row F)
  unfolding keep sort_rows
  deployment_rows policy_id generation rows = sort_rows (keep (belongs policy_id generation) rows)

  abbrev pub is_live_row : Row F → Bool
  is_live_row row = elim row.deployment [ none ↦ false | some d ↦ is_live d.stage ]

  abbrev pub is_assigned_to : String → Row F → Bool
  is_assigned_to kind row = elim row.deployment [ none ↦ false | some d ↦ str_eq d.assignment kind ]

  abbrev pub has_verified : Row F → Bool
  has_verified row = elim row.outcome [ none ↦ false | some o ↦ o.verified ]

  abbrev pub has_failed : Row F → Bool
  has_failed row = elim row.outcome [ none ↦ false | some o ↦ not o.success ]

  abbrev pub cost_of : Row F → Option F
  cost_of row = elim row.outcome [ none ↦ none | some o ↦ o.realized_cost ]

  abbrev pub is_low_risk : (String → String) → Row F → Bool
  is_low_risk lower row = str_eq (lower row.risk) "low"

-- `counts[key] = counts.get(key, 0) + 1`
unfoldable pub count_key : String → List (String × ℕ) → List (String × ℕ)
count_key key [] = (key, 1) ∷ []
count_key key ((k, n) ∷ counts) =
    let rest = count_key key counts in if str_eq k key then (k, suc n) ∷ counts else (k, n) ∷ rest

-- The numbers of one distribution: how often a context stands, and how many rows have none.
pub record Contexts : Type 0 where
  pub counts : List (String × ℕ)
  pub total : ℕ
  pub invalid : ℕ

-- `key_of` is `context_key` for the state's fields; `none` is its `ValueError`.
abbrev pub key_of_row : {F : Type 0} → (Features → Option String) → Row F → Option String
key_of_row key_of row = elim row.context_features [ none ↦ none | some features ↦ key_of features ]

-- The loop of `_context_distribution`.
unfoldable pub count_contexts :
    {F : Type 0} → (Features → Option String) → Contexts → List (Row F) → Contexts
unfolding count_key
count_contexts key_of c [] = c
count_contexts key_of c (row ∷ rows) =
    count_contexts key_of
      (elim (key_of_row key_of row) [
        | none ↦ record c { invalid = suc c.invalid }
        | some key ↦ record c { counts = count_key key c.counts; total = suc c.total }
      ])
      rows

-- The value under a key of a dictionary, where there is one.
unfoldable pub value_of {ℓ} : {A : Type ℓ} → String → List (String × A) → Option A
value_of key [] = none
value_of key ((k, a) ∷ entries) =
    let rest = value_of key entries in if str_eq k key then some a else rest

module _ {F : Type 0} (num : Numbers F) where
  -- `_context_distribution`
  abbrev pub fractions : Contexts → List (String × F)
  fractions c =
      map (λ (p : String × ℕ). (p.0, num.div (num.of_count p.1) (num.of_count c.total))) c.counts

  -- The sum from the left, as Python's.
  unfoldable pub sum_from : F → List F → F
  sum_from total [] = total
  sum_from total (x ∷ xs) = sum_from (num.add total x) xs

  abbrev pub or_zero : Option F → F
  or_zero none = num.zero
  or_zero (some x) = x

  -- The differences of `total_variation_distance`, for the keys of the first and for the further keys.
  unfoldable pub differences : List (String × F) → List (String × F) → List F
  unfolding value_of
  differences [] right = []
  differences ((key, p) ∷ left) right =
      num.abs (num.sub p (or_zero (value_of key right))) ∷ differences left right

  unfoldable pub further : List (String × F) → List (String × F) → List F
  unfolding value_of
  further left [] = []
  further left ((key, q) ∷ right) =
      let rest = further left right in
      elim (value_of key left) [ none ↦ num.abs (num.sub num.zero q) ∷ rest | some p ↦ rest ]

  -- `total_variation_distance`. The order of the sum is that of a set, and so is not fixed;
  -- half of a sum is the sum divided by two.
  unfoldable pub total_variation_distance : List (String × F) → List (String × F) → F
  unfolding differences further sum_from
  total_variation_distance left right =
      num.div (sum_from num.zero (differences left right ++ further left right)) (num.of_count 2)

  -- The probabilities of contexts that the policy does not know.
  unfoldable pub unknown_shares : List String → List (String × F) → List F
  unknown_shares known [] = []
  unknown_shares known ((key, p) ∷ current) =
      let rest = unknown_shares known current in if contains known key then rest else p ∷ rest

  -- The realized costs.
  unfoldable pub costs : List (Row F) → List F
  costs [] = []
  costs (row ∷ rows) =
      let rest = costs rows in elim (cost_of row) [ none ↦ rest | some cost ↦ cost ∷ rest ]
