-- ===== src/Execution/Accepts.antt =====
-- Which plans are accepted: the search for cycles finds none where the steps can be ranked.
use nyra.Base.{
  ◌≡◌, refl, ℕ, zero, suc, ◌≤◌, ◌<◌, String, true, false, some, List, [], ◌∷◌, ◌==◌, any, All,
  arith, ap, eq_self, eq_iff, Result, ok, length, Option-cases, inl, inr, Bool-cases, is_some,
}
use nyra.Table.{find}
use nyra.Plans.{ExecutionStep, ExecutionPlan, validated}
use nyra.Execution.{
  PlanError, step_key, member, visit_each, visit, ids_of, check_cycles, check_steps, validate,
  validate_graph, has_duplicate, has_bad_dependency, are_known, check_each,
}

find-known :
    (x : String) (steps : List ExecutionStep)
    → member x (ids_of steps) ≡ true
    → is_some (find step_key x steps) ≡ true
find-known x [] h = ground arith
find-known x (s ∷ steps) h = ground (arith, find-known x steps)

all-members :
    (xs known : List String)
    → ((x : String) → member x xs ≡ true → member x known ≡ true)
    → are_known known xs ≡ true
all-members [] known sub = refl
all-members (x ∷ xs) known sub =
    ground (arith, eq_self x, sub x, all-members xs known (λ y there. sub y (ground arith)))

module _ (steps : List ExecutionStep) (rank : String → ℕ) where
  -- Every dependency is of a lower rank, and none has a rank above the number of steps.
  pub record IsRanked (s : ExecutionStep) : Type 0 where
    pub bounded : rank s.step_id ≤ length steps
    pub lower : All (λ d. rank d < rank s.step_id) s.depends_on
    pub known : are_known (ids_of steps) s.depends_on ≡ true

  find-IsRanked :
      (x : String) (s : ExecutionStep) (some_steps : List ExecutionStep)
      → All IsRanked some_steps
      → find step_key x some_steps ≡ some s
      → IsRanked s × (s.step_id ≡ x)
  find-IsRanked x s [] ranked found = ground arith
  find-IsRanked x s (t ∷ more) (first, ranked) found = elim (Bool-cases (t.step_id == x)) [
    | inl e ↦ let same : t ≡ s = ground arith in rw (← same) (first, (eq_iff t.step_id x).0 e)
    | inr e ↦ find-IsRanked x s more ranked (ground arith)
  ]

  abbrev Returns : Result PlanError (List String) → Type 0
  Returns r = (order : List String) × (r ≡ ok order)

  -- What is lower than all that is being visited is not among it.
  lower-unvisited :
      (x : String) (visiting : List String)
      → All (λ v. rank x < rank v) visiting
      → member x visiting ≡ false
  lower-unvisited x [] below = refl
  lower-unvisited x (v ∷ visiting) (first, below) = elim (Bool-cases (v == x)) [
    | inl e ↦ absurd (let same : rank v ≡ rank x = ap rank ((eq_iff v x).0 e) in omega arith)
    | inr e ↦ ground (arith, lower-unvisited x visiting below)
  ]

  below_trans :
      (x y : String) (visiting : List String)
      → rank x < rank y
      → All (λ v. rank y < rank v) visiting
      → All (λ v. rank x < rank v) visiting
  below_trans x y [] less below = tt
  below_trans x y (v ∷ visiting) less (first, below) =
      (omega arith, below_trans x y visiting less below)

  each-Returns :
      (visit_one : String → List String → Result PlanError (List String)) (bound : ℕ)
      (nodes seen : List String)
      → ((x : String) (before : List String)
          → rank x < bound
          → member x (ids_of steps) ≡ true
          → Returns (visit_one x before))
      → All (λ x. rank x < bound) nodes
      → are_known (ids_of steps) nodes ≡ true
      → Returns (visit_each visit_one nodes seen)
  each-Returns visit_one bound [] seen one lower known = (seen, refl)
  each-Returns visit_one bound (x ∷ nodes) seen one (first, lower) known =
      let (mid, e) = one x seen first (ground arith) in
      rw e (each-Returns visit_one bound nodes mid one lower (ground arith))

  visit-Returns :
      (fuel : ℕ) (visiting : List String) (node : String) (seen : List String)
      → All IsRanked steps
      → rank node < fuel
      → All (λ v. rank node < rank v) visiting
      → member node (ids_of steps) ≡ true
      → Returns (visit steps fuel visiting node seen)
  unfolding visit
  visit-Returns zero visiting node seen ranked less below known = absurd (omega arith)
  visit-Returns (suc fuel) visiting node seen ranked less below known =
      elim (Bool-cases (member node seen)) [
        | inl g ↦ rw (visit, lower-unvisited node visiting below, g) (seen, refl)
        | inr g ↦ elim (Option-cases (find step_key node steps)) [
          | inl i ↦ absurd (ground (arith, find-known node steps known))
          | inr (step, i) ↦
              let (at, same) = find-IsRanked node step steps ranked i in
              let (deps, e) =
                each-Returns (λ dep seen. visit steps fuel (node ∷ visiting) dep seen)
                  (rank step.step_id) step.depends_on seen
                  (λ x before lower there.
                    let under : rank x < rank node = rw (← same) lower in
                    visit-Returns fuel (node ∷ visiting) x before ranked (omega arith)
                      (under, below_trans x node visiting under below) there)
                  at.lower at.known in
              rw (visit, lower-unvisited node visiting below, g, i, e) (node ∷ deps, refl)
        ]
      ]

  ranks-bounded :
      (some_steps : List ExecutionStep)
      → All IsRanked some_steps
      → All (λ x. rank x < suc (length steps)) (ids_of some_steps)
  ranks-bounded [] ranked = tt
  ranks-bounded (s ∷ more) (first, ranked) =
      (let h = first.bounded in omega arith, ranks-bounded more ranked)

  cycles-Returns : All IsRanked steps → Returns (check_cycles steps)
  unfolding check_cycles
  cycles-Returns ranked =
      each-Returns _ (suc (length steps)) (ids_of steps) []
        (λ x before less there. visit-Returns (suc (length steps)) [] x before ranked less tt there)
        (ranks-bounded steps ranked) (all-members (ids_of steps) (ids_of steps) (λ x there. there))

  -- A step of a higher rank than its dependencies is none of them.
  not-own :
      (x : String) (deps : List String) → All (λ d. rank d < rank x) deps → member x deps ≡ false
  not-own x [] lower = refl
  not-own x (d ∷ deps) (first, lower) = elim (Bool-cases (d == x)) [
    | inl e ↦ absurd (let same : rank d ≡ rank x = ap rank ((eq_iff d x).0 e) in omega arith)
    | inr e ↦ ground (arith, not-own x deps lower)
  ]

  none-bad :
      (some_steps : List ExecutionStep)
      → All IsRanked some_steps
      → (any (has_bad_dependency (ids_of steps)) some_steps ≡ false)
        × (check_each (ids_of steps) some_steps ≡ ok tt)
  none-bad [] ranked = (refl, refl)
  none-bad (s ∷ more) (first, ranked) =
      let (rest, checked) = none-bad more ranked in
      let own = not-own s.step_id s.depends_on first.lower in
      (rw (first.known, own, rest) refl, rw (first.known, own, checked) refl)

-- Both checks accept a validated plan with distinct identifiers whose steps can be ranked by numbers up to that of the
-- steps, so that each depends on known steps of lower ranks only: no search runs out of fuel or reports a cycle.
pub validate-accepts :
    {B : Type 0} (plan : ExecutionPlan B) (rank : String → ℕ)
    → plan.validation_state ≡ validated
    → has_duplicate (ids_of plan.steps) ≡ false
    → All (IsRanked plan.steps rank) plan.steps
    → ((order : List String) × (validate plan ≡ ok order))
      × ((order : List String) × (validate_graph plan.steps ≡ ok order))
unfolding validate check_steps validate_graph
validate-accepts plan rank state unique ranked =
    let (order, found) = cycles-Returns plan.steps rank ranked in
    let (fine, checked) = none-bad plan.steps rank plan.steps ranked in
    (
      (order, rw (validate, state, unique, fine, found) refl),
      (order, rw (unique, checked, found) refl),
    )
