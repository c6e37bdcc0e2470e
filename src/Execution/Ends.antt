-- ===== src/Execution/Ends.antt =====
-- The end of `execute`, and what its results say of the dependencies.
use nyra.Base.{
  ◌≡◌, refl, sym, ◌∙◌, String, Bool, true, false, ◌&&◌, not, none, some, List, [], ◌∷◌, ◌==◌, all,
  any, map, if◌then◌else◌, arith, ◌⊎◌, inl, inr, Bool-cases, Result, ok, raise, >>=-eq-ok,
  ok-injective,
}
use mathlib.Core.Path.{subst}
use nyra.Table.{find}
use nyra.Base.Mapping.{get}
use nyra.Capability.{CommonOutcome}
use nyra.Plans.{
  ExecutionStep, ExecutionPlan, StepResult, ExecutionResult, all_completed, partially_completed,
  Capability, Correlation, is_completed,
}
use nyra.Execution.{PlanError, step_key, ids_of, has_bad_dependency, are_known, validate}
use nyra.Execution.Run.{
  Results, Run, is_unmet, ordered_results, create_behaviors, finish_run, execute_validated,
}
use nyra.Execution.Progress.{is_skipped}
use nyra.Execution.Rounds.{IsRaised}
use nyra.Execution.Outcomes.{
  result_key, found-member, validate-IsChecked, ran, rounds-finish, IsOrdered,
}

-- A dependency that the results say is not COMPLETED
abbrev pub is_unmet_in : List StepResult → String → Bool
is_unmet_in rs d = elim (find result_key d rs) [ none ↦ false | some r ↦ not (is_completed r) ]

any-unmet :
    (results : Results) (steps : List ExecutionStep) (rs : List StepResult) (deps : List String)
    → IsOrdered results steps rs
    → are_known (ids_of steps) deps ≡ true
    → any (is_unmet_in rs) deps ≡ any (is_unmet results) deps
any-unmet results steps rs [] in_order known = refl
any-unmet results steps rs (d ∷ deps) in_order known =
    let here = in_order.same d (ground arith) in
    let rest = any-unmet results steps rs deps in_order (ground arith) in ground (arith, here, rest)

-- The dependencies of a step of an accepted plan are steps.
deps-known :
    (known : List String) (x : String) (s : ExecutionStep) (steps : List ExecutionStep)
    → any (has_bad_dependency known) steps ≡ false
    → find step_key x steps ≡ some s
    → are_known known s.depends_on ≡ true
deps-known known x s [] fine found = ground arith
deps-known known x s (t ∷ steps) fine found = elim (Bool-cases (t.step_id == x)) [
  | inl e ↦ let same : t ≡ s = ground arith in rw (← same) (ground arith)
  | inr e ↦ deps-known known x s steps (ground arith) (ground arith)
]

module _ {B W : Type 0} (automation_create : B → W → CommonOutcome × W) (capability : Capability W)
    (correlation : Correlation) (evaluate : String → Result PlanError Bool) (plan : ExecutionPlan B)
    (world : W) where
  finish_run-ok :
      (run : Run W) (rs : List StepResult)
      → ordered_results run.results plan.steps ≡ ok rs
      → (result : ExecutionResult) × (last : W) × (finish_run automation_create capability
            correlation evaluate plan run
          ≡ ok (result, last))
        × (result.steps ≡ rs)
  unfolding finish_run
  finish_run-ok run rs listed =
      let (failed, last) = create_behaviors automation_create plan.behaviors run.world in
      (
        record {
          plan_id = plan.plan_id;
          status = if not failed && all is_completed rs then all_completed else partially_completed;
          steps = rs;
        },
        last,
        rw (finish_run, listed) refl,
        refl,
      )

  -- Every plan that the validation accepts is executed to its end, one result for each step in the order of the plan,
  -- unless a condition raises; then that is what is raised. It never runs out of rounds, and each round makes progress.
  pub execute_validated-ends :
      (order : List String)
      → validate plan ≡ ok order
      → ((error : PlanError) × IsRaised evaluate error
          × (execute_validated automation_create capability correlation evaluate plan world
              ≡ raise error))
        ⊎ ((result : ExecutionResult) × (last : W) × (execute_validated automation_create capability
                correlation evaluate plan world
              ≡ ok (result, last))
            × (map result_key result.steps ≡ ids_of plan.steps))
  unfolding execute_validated finish_run
  execute_validated-ends order accepted =
      elim (rounds-finish automation_create capability correlation evaluate plan world order
        accepted) [
          | inl (error, raised, e) ↦ inl (error, raised, rw (execute_validated, accepted, e) refl)
          | inr (run, rs, e, finished) ↦
              let (result, last, f, same) = finish_run-ok run rs finished.listed in
              inr (
                result,
                last,
                rw (execute_validated, accepted, e, f) refl,
                rw same finished.in_order.ids,
              )
        ]

  -- In the results of a plan that was executed, a step is SKIPPED_DEPENDENCY exactly where the result of one of its
  -- dependencies is not COMPLETED.
  pub execute_validated-skips :
      (result : ExecutionResult) (last : W) (x : String) (s : ExecutionStep) (r : StepResult)
      → execute_validated automation_create capability correlation evaluate plan world
        ≡ ok (result, last)
      → find step_key x plan.steps ≡ some s
      → find result_key x result.steps ≡ some r
      → is_skipped r ≡ any (is_unmet_in result.steps) s.depends_on
  unfolding execute_validated finish_run
  execute_validated-skips result last x s r e found there =
      let (order, accepted, f) = >>=-eq-ok (validate plan) _ e in
      let (run, ran_ok, g) =
        >>=-eq-ok (ran automation_create capability correlation evaluate plan world) _ f in
      elim (rounds-finish automation_create capability correlation evaluate plan world order
        accepted) [
          | inl (error, raised, h) ↦ ground arith
          | inr (run', rs, h, finished) ↦
              let (result', last', f', same) = finish_run-ok run' rs finished.listed in
              let run_same : run ≡ run' = ok-injective run run' (sym ran_ok ∙ h) in
              let steps_same : result.steps ≡ rs = cc in
              let member_x = found-member x s plan.steps found in
              let here : get x run'.results ≡ some r =
                sym (finished.in_order.same x member_x)
                ∙ subst (λ rs. find result_key x rs ≡ some r) steps_same there in
              let kept = finished.ongoing.justified x s r found here in
              let known =
                deps-known (ids_of plan.steps) x s plan.steps
                  (validate-IsChecked plan order accepted).no_bad found in
              rw
                (
                  steps_same,
                  any-unmet run'.results plan.steps rs s.depends_on finished.in_order known,
                )
                kept.told
        ]
