-- ===== src/Jobs/Scheduler.antt =====
-- `JobScheduler` of skills/jobs.py, with the records that skills/observability.py makes of its spans. The Router
-- capability and the identifiers that are made up are an `Environment`; while the capability is awaited other tasks may change the table, so its answer carries the table
-- and the clock that the task resumes with. The worker task of `start`, `shutdown` and `_run_loop`
-- is asyncio's.
pub mod Due
pub mod Calls
use Prim.Native.String.{◌++◌ as text_append}
use nyra.Base.{
  ℕ, String, Bool, true, false, Option, none, some, List, [], ◌∷◌, Result, ok, raise, ◌>>=◌,
  if◌then◌else◌,
}
use nyra.Capability.{
  CommonOutcome, success, unknown_outcome, outcome_value, NyraOperation, operation_value,
  NyraResourceType, resource_type_value, parse_operation, parse_resource_type, ExecuteRequest,
  Reply, answered, threw,
}
use nyra.Correlation.{is_correlation}
use nyra.Json.{Json, null, text, object, Fields, end, field, get_field, dict_or_empty}
use nyra.Jobs.{
  JobStatus, JobRecord, JobTable, JobError, validation_error, JobRequest, completed, failed, get,
  create_scheduled, list_due, claim_due, set_terminal, cancel, recover_interrupted, is_running,
}

pub record Answer : Type 0 where
  pub reply : Reply
  pub jobs : JobTable
  pub clock : ℕ

-- `capability` is `execute` of the capability with the `ExecuteRequest` that it is given: what either raises is in the
-- answer. `observed` is whether there is an `observability`; `new_span_id` is given the operation.
pub record Environment : Type 0 where
  pub capability : Option (ExecuteRequest → Fields → JobTable → Answer)
  pub new_trace_id : JobRecord → String
  pub observed : Bool
  pub new_span_id : String → JobRecord → String
  -- `str(value)` of a JSON value that is no text
  pub render : Json → String

-- The arguments of `schedule_action`; `fresh` is the `uuid4` of the new job.
pub record Action : Type 0 where
  pub execute_at : ℕ
  pub origin_request_id : String
  pub created_trace_id : String
  pub operation : NyraOperation
  pub resource_id : String
  pub resource_type : NyraResourceType
  pub trusted_context : Fields
  pub parameters : Option Fields
  pub fresh : String

-- `dict(parameters or {})`
abbrev pub given_or_empty : Option Fields → Fields
given_or_empty none = end
given_or_empty (some fields) = fields

abbrev pub action_payload : Action → Fields
action_payload a = field "kind" (text "ha_action") (
    field "operation" (text (operation_value a.operation)) (
      field "resource_id" (text a.resource_id) (
        field "resource_type" (text (resource_type_value a.resource_type)) (
          field "parameters" (object (given_or_empty a.parameters))
            (field "trusted_context" (object a.trusted_context) end)))))

abbrev pub action_request : Action → JobRequest
action_request a = record {
  execute_at = a.execute_at;
  origin_request_id = a.origin_request_id;
  created_trace_id = a.created_trace_id;
  payload = action_payload a;
  request_id = none;
  job_id = none;
  fresh = a.fresh;
}

-- `_job_span` without a parent: `LogRecord` checks the identifiers, and what its sink raises is caught there.
unfoldable pub job_span :
    Environment → String → JobRecord → String → Result JobError (Option String)
job_span env operation job trace_id =
    if env.observed
    then (if is_correlation job.origin_request_id trace_id (some (env.new_span_id operation job))
        then ok (some (env.new_span_id operation job))
        else raise validation_error)
    else ok none

unfoldable pub schedule_action :
    Environment → Action → ℕ → JobTable → Result JobError JobRecord × JobTable
schedule_action env a now jobs =
    let (made, after) = create_scheduled (action_request a) now jobs in
    elim made [
      | raise e ↦ (raise e, after)
      | ok job ↦
          (job_span env "skills.job.schedule" job a.created_trace_id >>= (λ span. ok job), after)
    ]

-- What `_execute_claimed` reads from the payload, before the call.
pub record Call : Type 0 where
  pub operation : NyraOperation
  pub resource_type : NyraResourceType
  pub resource_id : String
  pub parameters : Fields
  pub trusted_context : Fields

infixl 5 ◌then?◌
abbrev ◌then?◌ {ℓ κ} : {A : Type ℓ} {B : Type κ} → Option A → (A → Option B) → Option B
none then? f = none
some a then? f = f a

abbrev text_of : Json → Option String
text_of (text s) = some s
text_of _ = none

abbrev str : (Json → String) → Json → String
str render (text s) = s
str render other = render other

abbrev optional_dict : (Json → String) → Option Json → Option Fields
optional_dict render none = some end
optional_dict render (some value) = dict_or_empty render value

-- The `try` block: `none` stands for `KeyError`, `TypeError` and `ValueError`.
unfoldable pub read_payload : (Json → String) → Fields → Option Call
read_payload render payload = get_field "operation" payload then? λ operation_json.
    text_of operation_json then? λ operation_text. parse_operation operation_text then? λ operation.
    get_field "resource_type" payload then? λ type_json. text_of type_json then? λ type_text.
    parse_resource_type type_text then? λ resource_type.
    get_field "resource_id" payload then? λ id_json.
    optional_dict render (get_field "parameters" payload) then? λ parameters.
    optional_dict render (get_field "trusted_context" payload) then? λ trusted_context.
    some (record {
      operation = operation;
      resource_type = resource_type;
      resource_id = str render id_json;
      parameters = parameters;
      trusted_context = trusted_context;
    })

abbrev pub code_or : Option String → String → String
code_or none other = other
code_or (some code) other = code

-- The terminal status and the error that a reply leads to.
unfoldable pub verdict : Reply → JobStatus × Option String
verdict (threw name) = (failed, some (text_append "CAPABILITY_EXCEPTION:" name))
verdict (answered r) = elim r.outcome [
  | success ↦ (completed, none)
  | unknown_outcome ↦ (JobStatus.unknown_outcome, some (code_or r.error_code "UNKNOWN_OUTCOME"))
  | other ↦ (failed, some (code_or r.error_code (outcome_value other)))
]

abbrev pub call_request : Environment → JobRecord → Option String → Call → ExecuteRequest
call_request env job span call = record {
  origin_request_id = job.origin_request_id;
  trace_id = env.new_trace_id job;
  parent_span_id = span;
  operation = call.operation;
  resource_id = call.resource_id;
  resource_type = call.resource_type;
  parameters = call.parameters;
}

-- The job's end after the call, and the clock.
unfoldable pub conclude : JobRecord → Answer → Result JobError JobRecord × JobTable × ℕ
conclude job answer =
    let (status, error) = verdict answer.reply in
    let (result, jobs) = set_terminal job.job_id status error answer.clock answer.jobs in
    (result, jobs, answer.clock)

-- A failure before any call.
unfoldable pub refuse : JobRecord → String → JobTable → ℕ → Result JobError JobRecord × JobTable × ℕ
refuse job error jobs clock =
    let (result, jobs') = set_terminal job.job_id failed (some error) clock jobs in
    (result, jobs', clock)

-- From the test of the capability on. The correlation is made outside the `try` blocks; the spans of the job's end have
-- the identifiers that the first one was made with.
unfoldable pub execute_started :
    Environment
    → JobRecord
    → Option String
    → JobTable
    → ℕ
    → Result JobError JobRecord × JobTable × ℕ
execute_started env job span jobs clock = elim env.capability [
  | none ↦ refuse job "ROUTER_CAPABILITY_UNAVAILABLE" jobs clock
  | some execute ↦ elim (read_payload env.render job.payload) [
    | none ↦ refuse job "INVALID_JOB_PAYLOAD" jobs clock
    | some call ↦
        if is_correlation job.origin_request_id (env.new_trace_id job) span
        then conclude job (execute (call_request env job span call) call.trusted_context jobs)
        else (raise validation_error, jobs, clock)
  ]
]

-- `_execute_claimed`
unfoldable pub execute_claimed :
    Environment → JobRecord → JobTable → ℕ → Result JobError JobRecord × JobTable × ℕ
execute_claimed env job jobs clock =
    elim (job_span env "skills.job.start" job (env.new_trace_id job)) [
      | raise e ↦ (raise e, jobs, clock)
      | ok span ↦ execute_started env job span jobs clock
    ]

-- The loop of `run_due` over the jobs that were listed.
unfoldable pub run_each :
    Environment
    → ℕ
    → List JobRecord
    → JobTable
    → ℕ
    → Result JobError (List JobRecord) × JobTable × ℕ
run_each env now [] jobs clock = (ok [], jobs, clock)
run_each env now (pending ∷ rest) jobs clock =
    let (claimed, jobs') = claim_due pending.job_id now jobs in
    elim claimed [
      | none ↦ run_each env now rest jobs' clock
      | some job ↦
          let (result, after, clock') = execute_claimed env job jobs' clock in
          elim result [
            | raise e ↦ (raise e, after, clock')
            | ok done ↦
                let (results, last, end_clock) = run_each env now rest after clock' in
                (results >>= (λ more. ok (done ∷ more)), last, end_clock)
          ]
    ]

unfoldable pub run_due :
    Environment → ℕ → JobTable → ℕ → Result JobError (List JobRecord) × JobTable × ℕ
run_due env now jobs clock = run_each env now (list_due now jobs) jobs clock

pub data StopError : Type 0 where
  not_running no_safe_stop not_implemented : StopError

-- `isinstance(payload.get("safe_stop"), dict)`
abbrev has_safe_stop : Option Json → Bool
has_safe_stop (some (object fields)) = true
has_safe_stop _ = false

abbrev stop_found : Option JobRecord → Result StopError (Option JobRecord)
stop_found none = ok none
stop_found (some job) = elim (is_running job.status) [
  | false ↦ raise not_running
  | true ↦ elim (has_safe_stop (get_field "safe_stop" job.payload)) [
    | false ↦ raise no_safe_stop
    | true ↦ raise not_implemented
  ]
]

unfoldable pub stop_job : String → JobTable → Result StopError (Option JobRecord)
stop_job job_id jobs = stop_found (get job_id jobs)

unfoldable pub cancel_job :
    Environment → String → ℕ → JobTable → Result JobError (Option JobRecord) × JobTable
cancel_job env job_id now jobs =
    let (found, after) = cancel job_id now jobs in
    elim found [
      | none ↦ (ok none, after)
      | some job ↦ (
        job_span env "skills.job.cancel" job (env.new_trace_id job) >>= (λ span. ok (some job)),
        after,
      )
    ]

-- `start`: what an earlier process left RUNNING is closed before the worker runs.
unfoldable pub start : ℕ → JobTable → JobTable
start now jobs = (recover_interrupted now jobs).1
