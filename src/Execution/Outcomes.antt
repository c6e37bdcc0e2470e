-- ===== src/Execution/Outcomes.antt =====
-- What `execute` ends with, for every plan that the validation accepts.
use nyra.Base.{
  ◌≡◌, refl, ap, suc, String, Bool, true, false, some, List, [], ◌∷◌, ◌==◌, all, any, map, arith,
  eq_self, eq_iff, length, ◌⊎◌, inl, inr, Bool-cases, Result, ok, raise, All, Option-cases,
}
use nyra.Table.{find}
use nyra.Base.Mapping.{get}
use nyra.Capability.{CommonOutcome}
use nyra.Plans.{ExecutionStep, ExecutionPlan, StepResult, Capability, Correlation}
use nyra.Execution.{
  PlanError, step_key, member, ids_of, has_duplicate, has_bad_dependency, check_cycles, check_steps,
  validate,
}
use nyra.Execution.Run.{Results, Run, has_result, run_rounds, ordered_results, start_run}
use nyra.Execution.Topology.{IsTopological, cycles-Visits}
use nyra.Execution.Progress.{IsOngoing}
use nyra.Execution.Rounds.{IsRaised, run_rounds-Ends}

abbrev pub result_key : StepResult → String
result_key r = r.step_id

found-behind :
    (s : ExecutionStep) (steps some_steps : List ExecutionStep)
    → member s.step_id (ids_of some_steps) ≡ false
    → All (λ t. find step_key t.step_id steps ≡ some t) some_steps
    → All (λ t. find step_key t.step_id (s ∷ steps) ≡ some t) some_steps
found-behind s steps [] apart h = tt
found-behind s steps (t ∷ more) apart (first, h) = (
  ground (arith, first, eq_iff s.step_id t.step_id, eq_iff t.step_id s.step_id),
  found-behind s steps more (ground arith) h,
)

-- Of distinct steps, each is found by its identifier.
unique-found :
    (steps : List ExecutionStep)
    → has_duplicate (ids_of steps) ≡ false
    → All (λ t. find step_key t.step_id steps ≡ some t) steps
unique-found [] unique = tt
unique-found (s ∷ steps) unique = (
  ground (arith, eq_self s.step_id),
  found-behind s steps steps (ground arith) (unique-found steps (ground arith)),
)

pub found-member :
    (x : String) (s : ExecutionStep) (steps : List ExecutionStep)
    → find step_key x steps ≡ some s
    → member x (ids_of steps) ≡ true
found-member x s [] found = ground arith
found-member x s (t ∷ steps) found = ground (arith, found-member x s steps)

order-known :
    (steps : List ExecutionStep) (order : List String) (x : String)
    → IsTopological steps order
    → member x order ≡ true
    → member x (ids_of steps) ≡ true
order-known steps [] x sorted h = ground arith
order-known steps (node ∷ others) x (stands, sorted) h = elim (Bool-cases (node == x)) [
  | inl e ↦
      let same : node ≡ x = (eq_iff node x).0 e in
      found-member x stands.step steps (rw (← same) stands.found)
  | inr e ↦ order-known steps others x sorted (ground arith)
]

pub all-at :
    (p : String → Bool) (xs : List String) (x : String)
    → all p xs ≡ true
    → member x xs ≡ true
    → p x ≡ true
all-at p [] x h there = ground arith
all-at p (y ∷ ys) x h there = elim (Bool-cases (y == x)) [
  | inl e ↦ let same : y ≡ x = (eq_iff y x).0 e in rw (← same) (ground arith)
  | inr e ↦ all-at p ys x (ground arith) (ground arith)
]

start-IsOngoing :
    {W : Type 0} (steps : List ExecutionStep) (order : List String) (world : W)
    → IsTopological steps order
    → all (λ d. member d order) (ids_of steps) ≡ true
    → IsOngoing steps order (record { pending = ids_of steps; results = []; world = world })
start-IsOngoing steps order world sorted seen = record {
  covers = λ x there. let known = order-known steps order x sorted there in ground arith;
  known = λ x there. all-at (λ d. member d order) (ids_of steps) x seen there;
  apart = λ x there. refl;
  named = λ x r there. ground arith;
  justified = λ x s r found there. ground arith;
}

-- The results in the order of the steps
pub record IsOrdered (results : Results) (steps : List ExecutionStep) (rs : List StepResult)
    : Type 0 where
  pub ids : map result_key rs ≡ ids_of steps
  pub same : (x : String) → member x (ids_of steps) ≡ true → find result_key x rs ≡ get x results

ordered_results-IsOrdered :
    (results : Results) (steps : List ExecutionStep)
    → ((x : String) (r : StepResult) → get x results ≡ some r → r.step_id ≡ x)
    → ((x : String) → member x (ids_of steps) ≡ true → has_result results x ≡ true)
    → (rs : List StepResult) × (ordered_results results steps ≡ ok rs) × IsOrdered results steps rs
ordered_results-IsOrdered results [] named done =
    ([], refl, record { ids = refl; same = λ x there. ground arith })
ordered_results-IsOrdered results (s ∷ steps) named done =
    let (rs, e, rest) =
      ordered_results-IsOrdered results steps named (λ x there. done x (ground arith)) in
    elim (Option-cases (get s.step_id results)) [
      | inl f ↦
          absurd (let here = done s.step_id (ground (arith, eq_self s.step_id)) in ground arith)
      | inr (r, f) ↦
          let own = named s.step_id r f in
          (
            r ∷ rs,
            ground (arith, f, e),
            record {
              ids = rw (own, rest.ids) refl;
              same = λ x there. elim (Bool-cases (s.step_id == x)) [
                | inl g ↦
                    let at : s.step_id ≡ x = (eq_iff s.step_id x).0 g in ground (arith, f, own)
                | inr g ↦ rw own (ground (arith, rest.same x))
              ];
            },
          )
    ]

-- What an accepted plan's steps and the order of its search satisfy
pub record IsChecked (steps : List ExecutionStep) (order : List String) : Type 0 where
  pub unique : has_duplicate (ids_of steps) ≡ false
  pub no_bad : any (has_bad_dependency (ids_of steps)) steps ≡ false
  pub searched : check_cycles steps ≡ ok order

pub validate-IsChecked :
    {B : Type 0} (plan : ExecutionPlan B) (order : List String)
    → validate plan ≡ ok order
    → IsChecked plan.steps order
unfolding validate check_steps
validate-IsChecked plan order e = record {
  unique = ground arith;
  no_bad = ground arith;
  searched = ground arith;
}

module _ {B W : Type 0} (automation_create : B → W → CommonOutcome × W) (capability : Capability W)
    (correlation : Correlation) (evaluate : String → Result PlanError Bool) (plan : ExecutionPlan B)
    (world : W) where
  abbrev pub ran : Result PlanError (Run W)
  ran =
      run_rounds capability correlation evaluate plan.steps (length plan.steps)
        (start_run automation_create capability correlation evaluate plan.steps world)

  -- A run that carried out the whole plan, and the results in order
  pub record IsFinished (order : List String) (run : Run W) (rs : List StepResult) : Type 0 where
    pub ongoing : IsOngoing plan.steps order run
    pub in_order : IsOrdered run.results plan.steps rs
    pub listed : ordered_results run.results plan.steps ≡ ok rs

  length-ids : (steps : List ExecutionStep) → length (ids_of steps) ≡ length steps
  length-ids [] = refl
  length-ids (s ∷ steps) = ap suc (length-ids steps)

  pub rounds-finish :
      (order : List String)
      → validate plan ≡ ok order
      → ((error : PlanError) × IsRaised evaluate error × (ran ≡ raise error))
        ⊎ ((run : Run W) × (rs : List StepResult) × (ran ≡ ok run) × IsFinished order run rs)
  rounds-finish order accepted =
      let checked = validate-IsChecked plan order accepted in
      let visits = cycles-Visits plan.steps order checked.searched in
      let on = start-IsOngoing plan.steps order world visits.sorted visits.all_seen in
      elim (run_rounds-Ends evaluate capability correlation plan.steps order (length plan.steps)
        (ids_of plan.steps) [] world visits.sorted (unique-found plan.steps checked.unique)
        checked.unique on (let same = length-ids plan.steps in omega arith)) [
          | inl failed ↦ inl failed
          | inr (run, e, after, done) ↦
              let (rs, listed, in_order) =
                ordered_results-IsOrdered run.results plan.steps after.named (λ x there.
                  let seen =
                    all-at (λ d. member d order) (ids_of plan.steps) x visits.all_seen there in
                  let covered = after.covers x seen in ground arith) in
              inr (run, rs, e, record { ongoing = after; in_order = in_order; listed = listed })
        ]
