-- ===== src/Execution/Tests.antt =====
-- Runs at concrete inputs, and the witnesses of the properties.
use nyra.Base.{
  ℕ, suc, ◌≡◌, refl, arith, ◌⊎◌, String, Bool, true, none, some, List, [], ◌∷◌, ◌==◌, if◌then◌else◌,
  Result, ok, raise, map, any, strip,
}
use nyra.Json.{end}
use nyra.Capability.{CommonOutcome, success, failed, turn_on, light}
use nyra.Plans.{
  skills, proposed, validated, PlanValidationState, ExecutionStep, ExecutionPlan, ExecutionResult,
  Correlation, Capability, resolve_not_found, find_target, partially_completed, skipped_dependency,
  step_failed, step_completed,
}
use nyra.Execution.{
  PlanError, invalid_plan, ids_of, visit, check_cycles, check_steps, validate, validate_graph,
  default_condition,
}
use nyra.Execution.Run.{call_step, outcome_of, run_one, run_rounds, finish_run, execute_validated}
use nyra.Execution.Accepts.{validate-accepts}
use nyra.Execution.Rounds.{IsRaised}
use nyra.Execution.Outcomes.{result_key}
use nyra.Execution.Ends.{is_unmet_in, execute_validated-ends, execute_validated-skips}

-- A capability that counts its calls and fails at the lamp that is called broken.
abbrev lamps : Capability ℕ
lamps = record {
  resolve =
      λ reference type calls. (record { status = resolve_not_found; candidates = [] }, suc calls);
  execute = λ request calls. (
    record {
      outcome = if request.resource_id == "light.broken" then failed else success;
      result = none;
      error_code = none;
    },
    suc calls,
  );
}

abbrev correlation : Correlation
correlation = record { origin_request_id = "r1"; trace_id = "t1"; parent_span_id = none }

abbrev lamp_step : String → String → List String → List String → ExecutionStep
lamp_step id lamp deps conditions = record {
  step_id = id;
  operation = turn_on;
  target = record {
    reference = lamp;
    resource_type = light;
    resolved =
        some (record { resource_id = lamp; resource_type = light; semantic_reference = lamp });
  };
  parameters = end;
  depends_on = deps;
  conditions = conditions;
}

abbrev plan_of : PlanValidationState → List ExecutionStep → ExecutionPlan (Unit {0})
plan_of state steps = record {
  plan_id = "p1";
  origin = skills;
  validation_state = state;
  steps = steps;
  behaviors = tt ∷ [];
}

-- The last depends on the first, which comes after it; the first fails.
abbrev chain : ExecutionPlan (Unit {0})
chain = plan_of validated (
    lamp_step "last" "light.hall" ("middle" ∷ []) []
    ∷ lamp_step "middle" "light.broken" ("first" ∷ []) ("always" ∷ [])
    ∷ lamp_step "first" "light.desk" [] []
    ∷ [])

abbrev evaluate : String → Result PlanError Bool
evaluate = default_condition (λ s. s)

abbrev create : Unit {0} → ℕ → CommonOutcome × ℕ
create behavior calls = (success, suc calls)

abbrev cyclic : ExecutionPlan (Unit {0})
cyclic =
    plan_of validated
      (lamp_step "a" "light.desk" ("b" ∷ []) [] ∷ lamp_step "b" "light.hall" ("a" ∷ []) [] ∷ [])

cyclic_refused : validate cyclic ≡ raise (invalid_plan "cyclic plan")
unfolding validate check_steps check_cycles visit
cyclic_refused = refl

proposed_refused :
    validate (plan_of proposed []) ≡ raise (invalid_plan "execution plan must be VALIDATED")
unfolding validate
proposed_refused = refl

chain_accepted : validate chain ≡ ok ("last" ∷ "middle" ∷ "first" ∷ [])
unfolding validate check_steps check_cycles visit
chain_accepted = refl

-- What the run of the plan hands back: two calls of lamps, and one for the behaviour
abbrev reported : ExecutionResult
reported = record {
  plan_id = "p1";
  status = partially_completed;
  steps =
      record { step_id = "last"; status = skipped_dependency; result = none; error = none }
      ∷ record { step_id = "middle"; status = step_failed; result = none; error = some "FAILED" }
      ∷ record { step_id = "first"; status = step_completed; result = none; error = none }
      ∷ [];
}

chain_runs : execute_validated create lamps correlation evaluate chain 0 ≡ ok (reported, 3)
unfolding execute_validated validate check_steps check_cycles visit run_rounds run_one outcome_of
    call_step find_target finish_run default_condition strip
chain_runs = refl

execute_validated-ends_example :
    ((error : PlanError) × IsRaised evaluate error
      × (execute_validated create lamps correlation evaluate chain 0 ≡ raise error))
    ⊎ ((result : ExecutionResult) × (last : ℕ) × (execute_validated create lamps correlation
            evaluate chain 0
          ≡ ok (result, last))
        × (map result_key result.steps ≡ ids_of chain.steps))
execute_validated-ends_example =
    execute_validated-ends create lamps correlation evaluate chain 0
      ("last" ∷ "middle" ∷ "first" ∷ []) chain_accepted

execute_validated-skips_example : true ≡ any (is_unmet_in reported.steps) ("middle" ∷ [])
execute_validated-skips_example =
    execute_validated-skips create lamps correlation evaluate chain 0 reported 3 "last"
      (lamp_step "last" "light.hall" ("middle" ∷ []) [])
      (record { step_id = "last"; status = skipped_dependency; result = none; error = none })
      chain_runs refl refl

abbrev chain_rank : String → ℕ
chain_rank id = if id == "last" then 2 else if id == "middle" then 1 else 0

validate-accepts_example :
    ((order : List String) × (validate chain ≡ ok order))
    × ((order : List String) × (validate_graph chain.steps ≡ ok order))
validate-accepts_example = validate-accepts chain chain_rank refl refl (
  record { bounded = omega arith; lower = (omega arith, tt); known = refl },
  (
    record { bounded = omega arith; lower = (omega arith, tt); known = refl },
    (record { bounded = omega arith; lower = tt; known = refl }, tt),
  ),
)
