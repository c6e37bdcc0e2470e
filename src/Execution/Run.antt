-- ===== src/Execution/Run.antt =====
-- `ExecutionPlanExecutor.execute`: rounds of the steps that are ready, then the behaviours. `pending` is the set of the
-- steps that have no result, `results` the dictionary of the others.
use nyra.Base.{
  ℕ, zero, suc, String, Bool, true, false, ◌&&◌, not, none, some, List, [], ◌∷◌, ◌==◌, all, any,
  filter, length, is_some, if◌then◌else◌, Result, ok, raise, ◌>>=◌,
}
use nyra.Base.Mapping.{Mapping, get, put}
use nyra.Capability.{CommonOutcome, ExecuteResponse}
use nyra.Plans.{
  ExecutionStep, ExecutionPlan, StepResult, StepStatus, step_completed, skipped_dependency,
  skipped_condition, ExecutionResult, all_completed, partially_completed, Correlation, Capability,
  find_target, is_success, is_completed, failed_step, error_of, step_request,
}
use nyra.Execution.{PlanError, invalid_plan, key_error, out_of_fuel, member, ids_of, validate}

abbrev pub Results : Type 0
Results = Mapping StepResult

pub record Run (W : Type 0) : Type 0 where
  pub pending : List String
  pub results : Results
  pub world : W

-- `d in results`
abbrev pub has_result : Results → String → Bool
has_result results d = is_some (get d results)

abbrev pub is_ready : List String → Results → ExecutionStep → Bool
is_ready pending results s = member s.step_id pending && all (has_result results) s.depends_on

-- `results[d].status is not StepStatus.COMPLETED`, of a dependency that has a result
abbrev pub is_unmet : Results → String → Bool
is_unmet results d = elim (get d results) [ none ↦ false | some r ↦ not (is_completed r) ]

-- `pending.remove(id)`
abbrev pub without : String → List String → List String
without id pending = filter (λ x. not (x == id)) pending

abbrev pub skipped : ExecutionStep → StepStatus → StepResult
skipped step status = record {
  step_id = step.step_id;
  status = status;
  result = none;
  error = none;
}

-- The result of a step whose call was answered
abbrev pub answered_step : ExecutionStep → ExecuteResponse → StepResult
answered_step step response =
    if is_success response.outcome
    then record {
      step_id = step.step_id;
      status = step_completed;
      result = response.result;
      error = none;
    }
    else failed_step step (error_of response)

-- `[results[s.step_id] for s in plan.steps]`
abbrev pub ordered_results : Results → List ExecutionStep → Result PlanError (List StepResult)
ordered_results results [] = ok []
ordered_results results (s ∷ steps) = elim (get s.step_id results) [
  | none ↦ raise key_error
  | some r ↦ ordered_results results steps >>= λ rest. ok (r ∷ rest)
]

module _ (evaluate : String → Result PlanError Bool) where
  -- The loop over the conditions, which ends at the first that does not hold
  abbrev pub conditions_hold : List String → Result PlanError Bool
  conditions_hold [] = ok true
  conditions_hold (c ∷ conditions) =
      evaluate c >>= λ holds. elim holds [ true ↦ conditions_hold conditions | false ↦ ok false ]

module _ {W : Type 0} (capability : Capability W) (correlation : Correlation) where
  -- The call of the capability for a step, at its target
  unfoldable pub call_step : ExecutionStep → W → StepResult × W
  call_step step world = elim (find_target capability correlation step world).0 [
    | raise error ↦ (failed_step step error, (find_target capability correlation step world).1)
    | ok resource ↦
        let (response, after) =
          capability.execute (step_request correlation step resource)
            (find_target capability correlation step world).1 in
        (answered_step step response, after)
  ]

  module _ (evaluate : String → Result PlanError Bool) where
    -- The result of a ready step, and the world after it
    unfoldable pub outcome_of : ExecutionStep → Results → W → Result PlanError (StepResult × W)
    outcome_of step results world = elim (any (is_unmet results) step.depends_on) [
      | true ↦ ok (skipped step skipped_dependency, world)
      | false ↦ conditions_hold evaluate step.conditions >>= λ holds. elim holds [
        | false ↦ ok (skipped step skipped_condition, world)
        | true ↦ ok (call_step step world)
      ]
    ]

    unfoldable pub run_one : ExecutionStep → Run W → Result PlanError (Run W)
    run_one step run = outcome_of step run.results run.world >>= λ outcome. ok (record {
      pending = without step.step_id run.pending;
      results = put step.step_id outcome.0 run.results;
      world = outcome.1;
    })

    abbrev pub run_ready : List ExecutionStep → Run W → Result PlanError (Run W)
    run_ready [] run = ok run
    run_ready (step ∷ steps) run = run_one step run >>= λ after. run_ready steps after

    -- A round ends with fewer pending steps, or raises: there are at most as many rounds as steps.
    unfoldable pub run_rounds : List ExecutionStep → ℕ → Run W → Result PlanError (Run W)
    run_rounds steps zero run = elim run.pending [ [] ↦ ok run | id ∷ more ↦ raise out_of_fuel ]
    run_rounds steps (suc fuel) run = elim run.pending [
      | [] ↦ ok run
      | id ∷ more ↦ elim (filter (is_ready run.pending run.results) steps) [
        | [] ↦ raise (invalid_plan "plan cannot make progress")
        | first ∷ others ↦ run_ready (first ∷ others) run >>= λ after. run_rounds steps fuel after
      ]
    ]

module _ {B W : Type 0} (automation_create : B → W → CommonOutcome × W) where
  -- Whether a behaviour failed, and the world after them
  abbrev pub create_behaviors : List B → W → Bool × W
  create_behaviors [] world = (false, world)
  create_behaviors (b ∷ behaviors) world =
      let (outcome, after) = automation_create b world in
      let (failed, last) = create_behaviors behaviors after in
      (if is_success outcome then failed else true, last)

  module _ (capability : Capability W) (correlation : Correlation)
      (evaluate : String → Result PlanError Bool) where
    abbrev pub start_run : List ExecutionStep → W → Run W
    start_run steps world = record { pending = ids_of steps; results = []; world = world }

    -- What follows the loop
    unfoldable pub finish_run : ExecutionPlan B → Run W → Result PlanError (ExecutionResult × W)
    finish_run plan run =
        let (failed, last) = create_behaviors plan.behaviors run.world in
        ordered_results run.results plan.steps >>= λ ordered. ok (
          record {
            plan_id = plan.plan_id;
            status =
                if not failed && all is_completed ordered
                then all_completed
                else partially_completed;
            steps = ordered;
          },
          last,
        )

    -- `execute`
    unfoldable pub execute_validated : ExecutionPlan B → W → Result PlanError (ExecutionResult × W)
    execute_validated plan world = validate plan >>= λ visited.
        run_rounds capability correlation evaluate plan.steps (length plan.steps)
          (start_run plan.steps world)
        >>= λ run. finish_run plan run
