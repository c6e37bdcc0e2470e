-- ===== src/Plans.antt =====
-- Plans in the router: the types of shared/protocol/execution.py and shared/protocol/execution_common.py, the executor
-- of router/plan_execution.py and the gate of router/llm_action_gate.py. The capability and the skills service are
-- arguments, already given the trusted context; a call hands back its answer and the world that it leaves. What a call
-- raises the executor does not catch, and is left out.
mod Reports
mod Tests
use Prim.Native.String.{◌++◌ as text_append}
use nyra.Base.{
  String, Bool, true, false, ◌&&◌, Option, none, some, List, [], ◌∷◌, all, if◌then◌else◌, Result,
  ok, raise,
}
use nyra.Json.{Fields}
use nyra.Capability.{
  CommonOutcome, success, outcome_value, NyraOperation, NyraResourceType, ExecuteRequest,
  ExecuteResponse,
}

pub data PlanOrigin : Type 0 where
  reasoning_llm skills : PlanOrigin

pub data PlanValidationState : Type 0 where
  proposed validated : PlanValidationState

pub data StepStatus : Type 0 where
  step_completed step_failed skipped_dependency skipped_condition : StepStatus

pub data ExecutionStatus : Type 0 where
  all_completed partially_completed : ExecutionStatus

pub record ResolvedTarget : Type 0 where
  pub resource_id : String
  pub resource_type : NyraResourceType
  pub semantic_reference : String

pub record ExecutionTarget : Type 0 where
  pub reference : String
  pub resource_type : NyraResourceType
  pub resolved : Option ResolvedTarget

pub record ExecutionStep : Type 0 where
  pub step_id : String
  pub operation : NyraOperation
  pub target : ExecutionTarget
  pub parameters : Fields
  pub depends_on : List String
  pub conditions : List String

-- `B` is the type of a behaviour, which is passed on as it is.
pub record ExecutionPlan (B : Type 0) : Type 0 where
  pub plan_id : String
  pub origin : PlanOrigin
  pub validation_state : PlanValidationState
  pub steps : List ExecutionStep
  pub behaviors : List B

pub record StepResult : Type 0 where
  pub step_id : String
  pub status : StepStatus
  pub result : Option Fields
  pub error : Option String

pub record ExecutionResult : Type 0 where
  pub plan_id : String
  pub status : ExecutionStatus
  pub steps : List StepResult

pub record Correlation : Type 0 where
  pub origin_request_id : String
  pub trace_id : String
  pub parent_span_id : Option String

pub data ResolveStatus : Type 0 where
  resolved_one resolve_ambiguous resolve_not_found : ResolveStatus

abbrev pub resolve_value : ResolveStatus → String
resolve_value resolved_one = "RESOLVED"
resolve_value resolve_ambiguous = "AMBIGUOUS"
resolve_value resolve_not_found = "NOT_FOUND"

-- A candidate's resource, by its identifier and type
pub record ResolvedResource : Type 0 where
  pub resource_id : String
  pub resource_type : NyraResourceType

pub record ResolveResponse : Type 0 where
  pub status : ResolveStatus
  pub candidates : List ResolvedResource

pub record Capability (W : Type 0) : Type 0 where
  pub resolve : String → NyraResourceType → W → ResolveResponse × W
  pub execute : ExecuteRequest → W → ExecuteResponse × W

abbrev pub resource_of : ResolvedTarget → ResolvedResource
resource_of target = record {
  resource_id = target.resource_id;
  resource_type = target.resource_type;
}

-- `rr.status is not ResolveStatus.RESOLVED or len(rr.candidates) != 1`
abbrev pub only_candidate : ResolveResponse → Result String ResolvedResource
only_candidate response = elim response.status [
  | resolved_one ↦ elim response.candidates [
    | [] ↦ raise (text_append "RESOLVE_" "RESOLVED")
    | resource ∷ others ↦ elim others [
      | [] ↦ ok resource
      | other ∷ more ↦ raise (text_append "RESOLVE_" "RESOLVED")
    ]
  ]
  | resolve_ambiguous ↦ raise (text_append "RESOLVE_" "AMBIGUOUS")
  | resolve_not_found ↦ raise (text_append "RESOLVE_" "NOT_FOUND")
]

-- `response.error.code if response.error else response.outcome.value`
abbrev pub error_of : ExecuteResponse → String
error_of response = elim response.error_code [
  | some code ↦ code
  | none ↦ outcome_value response.outcome
]

abbrev pub is_success : CommonOutcome → Bool
is_success success = true
is_success _ = false

abbrev pub failed_step : ExecutionStep → String → StepResult
failed_step step error = record {
  step_id = step.step_id;
  status = step_failed;
  result = none;
  error = some error;
}

-- The result of a step whose call was answered
abbrev pub reported : ExecutionStep → ExecuteResponse → StepResult
reported step response =
    if is_success response.outcome
    then record { step_id = step.step_id; status = step_completed; result = none; error = none }
    else failed_step step (error_of response)

abbrev pub step_request : Correlation → ExecutionStep → ResolvedResource → ExecuteRequest
step_request c step resource = record {
  origin_request_id = c.origin_request_id;
  trace_id = c.trace_id;
  parent_span_id = c.parent_span_id;
  operation = step.operation;
  resource_id = resource.resource_id;
  resource_type = resource.resource_type;
  parameters = step.parameters;
}

abbrev pub is_completed : StepResult → Bool
is_completed r = elim r.status [ step_completed ↦ true | _ ↦ false ]

module _ {W : Type 0} (capability : Capability W) (correlation : Correlation) where
  -- The target of a step, resolved where the plan has not resolved it
  unfoldable pub find_target : ExecutionStep → W → Result String ResolvedResource × W
  find_target step world = elim step.target.resolved [
    | some target ↦ (ok (resource_of target), world)
    | none ↦
        let (response, after) =
          capability.resolve step.target.reference step.target.resource_type world in
        (only_candidate response, after)
  ]

  -- The rest of the loop's body
  unfoldable pub call_target : ExecutionStep → Result String ResolvedResource → W → StepResult × W
  call_target step (raise error) world = (failed_step step error, world)
  call_target step (ok resource) world =
      let (response, after) = capability.execute (step_request correlation step resource) world in
      (reported step response, after)

  unfoldable pub run_step : ExecutionStep → W → StepResult × W
  run_step step world =
      let (target, found) = find_target step world in call_target step target found

  -- The loop over the steps
  unfoldable pub run_steps : List ExecutionStep → W → List StepResult × W
  run_steps [] world = ([], world)
  run_steps (step ∷ steps) world =
      let (result, after) = run_step step world in
      let (results, last) = run_steps steps after in (result ∷ results, last)

  -- `RouterPlanExecutor.execute`
  unfoldable pub execute_plan :
      {B : Type 0} → ExecutionPlan B → W → Result String ExecutionResult × W
  execute_plan plan world = elim plan.validation_state [
    | proposed ↦ (raise "Router executes only VALIDATED plans", world)
    | validated ↦
        let (results, after) = run_steps plan.steps world in
        (
          ok (record {
            plan_id = plan.plan_id;
            status = if all is_completed results then all_completed else partially_completed;
            steps = results;
          }),
          after,
        )
  ]

pub record PlanValidationResponse (B : Type 0) : Type 0 where
  pub accepted : Bool
  pub plan : Option (ExecutionPlan B)
  pub error_code : Option String

abbrev pub rejection : {B : Type 0} → PlanValidationResponse B → String
rejection response = elim response.error_code [ some code ↦ code | none ↦ "PLAN_REJECTED" ]

-- `LlmActionGate.validate_proposal`
unfoldable pub validate_proposal :
    {B : Type 0}
    → (ExecutionPlan B → PlanValidationResponse B)
    → ExecutionPlan B
    → Result String (ExecutionPlan B)
validate_proposal validate_plan plan = elim plan.origin [
  | skills ↦ raise "LLM action gate accepts only LLM-origin plans"
  | reasoning_llm ↦ elim plan.validation_state [
    | validated ↦ raise "LLM action gate accepts only PROPOSED plans"
    | proposed ↦ elim (validate_plan plan).plan [
      | none ↦ raise (rejection (validate_plan plan))
      | some answer ↦
          if (validate_plan plan).accepted
          then ok answer
          else raise (rejection (validate_plan plan))
    ]
  ]
]
