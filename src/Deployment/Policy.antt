-- ===== src/Deployment/Policy.antt =====
-- About `_validate_policy` of ai_workflow/policy_manifest.py on a valid policy.
use Prim.Native.Nat.{Ordering}
use Prim.Native.String.{compare}
use text.Mathlib.TextEquality.{path_by_compare}
use ai_workflow_control_plan.Common.{
  ◌≤◌, ◌≡◌, refl, sym, ap, subst, ◌∙◌, inl, inr, true, false, not, ◌||◌, Option, none, some, List,
  [], ◌∷◌, ◌++◌, append_assoc, append-nil, String, strip, is_blank, strip-strip, contains, All,
  length, arith, Bool-cases, compare_swap, compare_trans, Ordering-cases,
}
use ai_workflow_control_plan.Deployment.Types.{safe_exploration_arms}
use ai_workflow_control_plan.Deployment.Manifest.{put_sorted, validate_entries, validate_policy}

-- Keys and arms that are as `_validate_policy` leaves them.
abbrev Fine : String × String → Type 0
Fine e =
    (strip e.0 ≡ e.0)
    × (is_blank e.0 ≡ false)
    × (strip e.1 ≡ e.1)
    × (contains safe_exploration_arms e.1 ≡ true)

abbrev After : String → String × String → Type 0
After key e = compare e.0 key ≡ Ordering.gt

-- Every key is after those before it.
abbrev Rising : List (String × String) → Type 0
Rising [] = Unit
Rising (e ∷ entries) = All (After e.0) entries × Rising entries

put_sorted-All :
    (P : String × String → Type 0) (context arm : String) (out : List (String × String))
    → P (context, arm)
    → All P out
    → All P (put_sorted context arm out)
unfolding put_sorted
put_sorted-All P context arm [] h all = (h, tt)
put_sorted-All P context arm ((key, old) ∷ out) h all =
    elim (Ordering-cases (compare context key)) [
      | inl e ↦ rw (e, put_sorted) (h, all)
      | inr (inl e) ↦
          rw (e, put_sorted)
            (subst (λ (k : String). P (k, arm)) (path_by_compare context key e) h, all.1)
      | inr (inr e) ↦ rw (e, put_sorted) (all.0, put_sorted-All P context arm out h all.1)
    ]

All-After :
    (near far : String) (out : List (String × String))
    → compare far near ≡ Ordering.gt
    → All (After far) out
    → All (After near) out
All-After near far [] h all = tt
All-After near far (e ∷ out) h all =
    (compare_trans e.0 far near all.0 h, All-After near far out h all.1)

put_sorted-Rising :
    (context arm : String) (out : List (String × String))
    → Rising out
    → Rising (put_sorted context arm out)
unfolding put_sorted
put_sorted-Rising context arm [] h = (tt, tt)
put_sorted-Rising context arm ((key, old) ∷ out) h = elim (Ordering-cases (compare context key)) [
  | inl e ↦
      let after = compare_swap context key e in
      rw (e, put_sorted) ((after, All-After context key out after h.0), h)
  | inr (inl e) ↦ rw (e, put_sorted) h
  | inr (inr e) ↦
      rw (e, put_sorted)
        (put_sorted-All (After key) context arm out e h.0, put_sorted-Rising context arm out h.1)
]

put_sorted-some :
    (context arm : String) (out : List (String × String)) → 1 ≤ length (put_sorted context arm out)
unfolding put_sorted
put_sorted-some context arm [] = omega arith
put_sorted-some context arm ((key, old) ∷ out) = elim (Ordering-cases (compare context key)) [
  | inl e ↦ rw (e, put_sorted) (omega arith)
  | inr (inl e) ↦ rw (e, put_sorted) (omega arith)
  | inr (inr e) ↦ rw (e, put_sorted) (omega arith)
]

pub strip-is_blank : (s : String) → is_blank s ≡ false → is_blank (strip s) ≡ false
unfolding is_blank
strip-is_blank s h = rw (strip-strip s) h

All-last :
    (P : String × String → Type 0) (out : List (String × String)) (e : String × String)
    (rest : List (String × String))
    → All P (out ++ e ∷ rest)
    → P e
All-last P [] e rest all = all.0
All-last P (x ∷ out) e rest all = All-last P out e rest all.1

-- What `_validate_policy` leaves.
abbrev Normal : List (String × String) → Type 0
Normal p = Rising p × All Fine p

validate_entries-Normal :
    (out entries p : List (String × String))
    → validate_entries out entries ≡ some p
    → Normal out
    → Normal p
unfolding validate_entries
validate_entries-Normal out [] p h normal = subst Normal (ground (arith, h)) normal
validate_entries-Normal out ((key, value) ∷ entries) p h normal =
    elim (Bool-cases (is_blank key || not (contains safe_exploration_arms (strip value)))) [
      | inl e ↦ ground (arith, h, e)
      | inr e ↦
          let fine : Fine (strip key, strip value) = (
            strip-strip key,
            strip-is_blank key (ground (arith, e)),
            strip-strip value,
            ground (arith, e),
          ) in
          validate_entries-Normal (put_sorted (strip key) (strip value) out) entries p
            (ground (arith, h, e))
            (
              put_sorted-Rising (strip key) (strip value) out normal.0,
              put_sorted-All Fine (strip key) (strip value) out fine normal.1,
            )
    ]

validate_entries-some :
    (out entries p : List (String × String))
    → validate_entries out entries ≡ some p
    → 1 ≤ length out
    → 1 ≤ length p
unfolding validate_entries
validate_entries-some out [] p h many =
    subst (λ (l : List (String × String)). 1 ≤ length l) (ground (arith, h)) many
validate_entries-some out ((key, value) ∷ entries) p h many =
    elim (Bool-cases (is_blank key || not (contains safe_exploration_arms (strip value)))) [
      | inl e ↦ ground (arith, h, e)
      | inr e ↦
          validate_entries-some (put_sorted (strip key) (strip value) out) entries p
            (ground (arith, h, e)) (put_sorted-some (strip key) (strip value) out)
    ]

-- An entry after all others goes to the end.
put_sorted-last :
    (context arm : String) (out rest : List (String × String))
    → Rising (out ++ (context, arm) ∷ rest)
    → put_sorted context arm out ≡ out ++ (context, arm) ∷ []
unfolding put_sorted
put_sorted-last context arm [] rest h = refl
put_sorted-last context arm ((key, old) ∷ out) rest h =
    rw (All-last (After key) out (context, arm) rest h.0, put_sorted)
      (ap (λ (l : List (String × String)). (key, old) ∷ l)
        (put_sorted-last context arm out rest h.1))

validate_entries-again :
    (out p : List (String × String))
    → Rising (out ++ p)
    → All Fine p
    → validate_entries out p ≡ some (out ++ p)
unfolding validate_entries
validate_entries-again out [] rising fine = ap some (sym (append-nil out))
validate_entries-again out ((key, value) ∷ p) rising fine =
    let (same_key, not_blank, same_arm, safe) = fine.0 in
    let assoc = append_assoc out ((key, value) ∷ []) p in
    rw (not_blank, same_arm, same_key, safe, put_sorted-last key value out p rising)
      (validate_entries-again (out ++ (key, value) ∷ []) p (subst Rising (sym assoc) rising) fine.1
        ∙ ap some assoc)

validate_policy-keeps :
    (policy : List (String × String))
    → 1 ≤ length policy
    → Rising policy
    → All Fine policy
    → validate_policy (some policy) ≡ some policy
unfolding validate_policy
validate_policy-keeps [] many rising fine = ground (arith, many)
validate_policy-keeps (entry ∷ policy) many rising fine =
    validate_entries-again [] (entry ∷ policy) rising fine

-- A policy of at least one entry has at least one.
validate_entries-any :
    (entry : String × String) (entries p : List (String × String))
    → validate_entries [] (entry ∷ entries) ≡ some p
    → 1 ≤ length p
unfolding validate_entries
validate_entries-any (key, value) entries p h =
    elim (Bool-cases (is_blank key || not (contains safe_exploration_arms (strip value)))) [
      | inl e ↦ ground (arith, h, e)
      | inr e ↦
          validate_entries-some (put_sorted (strip key) (strip value) []) entries p
            (ground (arith, h, e)) (put_sorted-some (strip key) (strip value) [])
    ]

-- A valid policy is valid again, and stays as it is.
pub validate_policy-again :
    (given : Option (List (String × String))) (policy : List (String × String))
    → validate_policy given ≡ some policy
    → (validate_policy (some policy) ≡ some policy) × (1 ≤ length policy)
unfolding validate_policy
validate_policy-again none policy h = ground (arith, h)
validate_policy-again (some []) policy h = ground (arith, h)
validate_policy-again (some (entry ∷ entries)) policy h =
    let (rising, fine) = validate_entries-Normal [] (entry ∷ entries) policy h (tt, tt) in
    let many = validate_entries-any entry entries policy h in
    (validate_policy-keeps policy many rising fine, many)
