-- ===== src/Execution/Topology.antt =====
-- What the search for cycles leaves: an order in which every step stands before its dependencies.
use nyra.Base.{
  ◌≡◌, refl, ℕ, zero, suc, String, true, some, List, [], ◌∷◌, all, arith, eq_self, Result, ok,
  >>=-eq-ok, ok-injective, Option-cases, inl, inr, Bool-cases,
}
use nyra.Table.{find}
use nyra.Plans.{ExecutionStep}
use nyra.Execution.{PlanError, step_key, member, visit_each, visit, ids_of, check_cycles}

module _ (steps : List ExecutionStep) where
  -- The step is there, and what it depends on stands among `others`.
  pub record Stands (others : List String) (node : String) : Type 0 where
    pub step : ExecutionStep
    pub found : find step_key node steps ≡ some step
    pub behind : all (λ d. member d others) step.depends_on ≡ true

  abbrev pub IsTopological : List String → Type 0
  IsTopological [] = Unit
  IsTopological (node ∷ others) = Stands others node × IsTopological others

  -- What a search that is given `before` ends with
  pub record Visits (nodes before after : List String) : Type 0 where
    pub sorted : IsTopological after
    pub all_seen : all (λ d. member d after) nodes ≡ true
    pub keeps : (x : String) → member x before ≡ true → member x after ≡ true

  each-Visits :
      (visit_one : String → List String → Result PlanError (List String))
      → ((node : String) (seen after : List String)
          → IsTopological seen
          → visit_one node seen ≡ ok after
          → Visits (node ∷ []) seen after)
      → (nodes seen after : List String) → IsTopological seen
      → visit_each visit_one nodes seen ≡ ok after
      → Visits nodes seen after
  each-Visits visit_one one [] seen after h e =
      let same : seen ≡ after = ok-injective seen after e in
      rw (← same) (record { sorted = h; all_seen = refl; keeps = λ x there. there })
  each-Visits visit_one one (node ∷ nodes) seen after h e =
      let (mid, first, last) = >>=-eq-ok (visit_one node seen) _ e in
      let here = one node seen mid h first in
      let rest = each-Visits visit_one one nodes mid after here.sorted last in
      record {
        sorted = rest.sorted;
        all_seen = ground (arith, here.all_seen, rest.all_seen, rest.keeps node);
        keeps = λ x there. rest.keeps x (here.keeps x there);
      }

  visit-Visits :
      (fuel : ℕ) (visiting : List String) (node : String) (seen after : List String)
      → IsTopological seen
      → visit steps fuel visiting node seen ≡ ok after
      → Visits (node ∷ []) seen after
  unfolding visit
  visit-Visits zero visiting node seen after h e = ground arith
  visit-Visits (suc fuel) visiting node seen after h e = elim (Bool-cases (member node visiting)) [
    | inl f ↦ ground arith
    | inr f ↦ elim (Bool-cases (member node seen)) [
      | inl g ↦
          let same : seen ≡ after = ground arith in
          rw (← same) (record { sorted = h; all_seen = ground arith; keeps = λ x there. there })
      | inr g ↦ elim (Option-cases (find step_key node steps)) [
        | inl i ↦ ground arith
        | inr (step, i) ↦
            let (deps, inner, outer) =
              >>=-eq-ok
                (visit_each (λ dep seen. visit steps fuel (node ∷ visiting) dep seen)
                  step.depends_on seen)
                (λ after. ok (node ∷ after)) (ground arith) in
            let below =
              each-Visits _ (visit-Visits fuel (node ∷ visiting)) step.depends_on seen deps h
                inner in
            let same : node ∷ deps ≡ after = ok-injective (node ∷ deps) after outer in
            rw (← same) (record {
              sorted = (record { step = step; found = i; behind = below.all_seen }, below.sorted);
              all_seen = ground (arith, eq_self node);
              keeps = λ x there. ground (arith, below.keeps x there);
            })
      ]
    ]
  ]

  -- What was visited of a plan that is accepted: every step, before its dependencies
  pub cycles-Visits :
      (order : List String) → check_cycles steps ≡ ok order → Visits (ids_of steps) [] order
  unfolding check_cycles
  cycles-Visits order e = each-Visits _ (visit-Visits (suc _) []) (ids_of steps) [] order tt e
