-- ===== src/Jobs/Tests.antt =====
-- Runs of the job table and of the scheduler, and the theorems at concrete inputs.
use mathlib.Core.Option.{some-injective}
use mathlib.Core.Path.{subst}
use nyra.Base.{
  ◌≡◌, refl, ◌≤◌, String, arith, text_length, true, false, none, some, List, [], ◌∷◌, ok, raise,
  text_le, is_some,
}
use nyra.Json.{Fields, end, field, text, number, dict_or_empty}
use nyra.Correlation.{
  is_correlation, has_prefixed_uuid, is_span, fits_template, after_marker, after_run,
  all_characters,
}
use nyra.Capability.{
  success, turn_on, light, ExecuteRequest, answered, parse_operation, parse_resource_type,
}
use nyra.Jobs.{
  validation_error, unknown_outcome, recovered_row, cancelled_row, JobRecord, JobTable, completed,
  failed, get, new_row, claimed_row, terminal_row, create_scheduled, claim_due, set_terminal,
  cancel, recover_interrupted, list_due,
}
use nyra.Jobs.Claims.{due_in}
use nyra.Jobs.Once.{Runtime, Reach, claim, here, next, after_claim, runs, executed_at_most_once}
use nyra.Jobs.Recovery.{recover_each}
use nyra.Jobs.Scheduler.{
  Environment, Answer, Action, action_request, read_payload, job_span, execute_started,
  execute_claimed, conclude, refuse, run_each, run_due, verdict, stop_job, start, no_safe_stop,
  schedule_action, cancel_job,
}
use nyra.Jobs.Scheduler.Calls.{claimed_action, IsReported, scheduled_action_runs}
use nyra.Jobs.Scheduler.Due.{IsQuiet, stems_in, run_due_drains}

abbrev lamp_on : Action
lamp_on = record {
  execute_at = 60;
  origin_request_id = "req_6f1b0c9e-2d3a-4b5c-8d7e-0f1a2b3c4d5e";
  created_trace_id = "trace_1";
  operation = turn_on;
  resource_id = "light.kitchen";
  resource_type = light;
  trusted_context = field "user_id" (text "ada") end;
  parameters = some (field "level" (number 40) end);
  fresh = "0001";
}

abbrev lamp_job : JobRecord
lamp_job = new_row (action_request lamp_on) 10

abbrev broken_job : JobRecord
broken_job = record lamp_job { job_id = "job_0002"; payload = end }

abbrev table : JobTable
table = lamp_job ∷ broken_job ∷ []

abbrev accept : ExecuteRequest → Fields → JobTable → Answer
accept request context jobs = record {
  reply = answered (record { outcome = success; result = none; error_code = none });
  jobs = jobs;
  clock = 75;
}

abbrev env : Environment
env = record {
  capability = some accept;
  new_trace_id = λ job. "trc_0a1b2c3d-4e5f-4a6b-9c7d-8e9f0a1b2c3d";
  observed = true;
  new_span_id = λ operation job. "SKILLS#skills_job_start#A1B2C3D4";
  render = λ value. "";
}

-- One job is executed, the other has a payload that cannot be read.
run_due-table : run_due env 70 table 70 ≡ (
  ok (
      terminal_row completed none 75 (claimed_row 70 lamp_job)
      ∷ terminal_row failed (some "INVALID_JOB_PAYLOAD") 75 (claimed_row 70 broken_job)
      ∷ []),
  terminal_row completed none 75 (claimed_row 70 lamp_job)
      ∷ terminal_row failed (some "INVALID_JOB_PAYLOAD") 75 (claimed_row 70 broken_job)
      ∷ [],
  75,
)
unfolding run_due run_each list_due claim_due execute_claimed job_span execute_started conclude
    refuse verdict set_terminal read_payload dict_or_empty parse_operation parse_resource_type
    text_le is_correlation has_prefixed_uuid is_span fits_template after_marker after_run
    all_characters text_length
run_due-table = refl

-- A job that stems from no request is left RUNNING, and the worker's loop ends.
run_due-stray : run_due env 70 (record lamp_job { origin_request_id = "req_1" } ∷ []) 70 ≡ (
  raise validation_error,
  claimed_row 70 (record lamp_job { origin_request_id = "req_1" }) ∷ [],
  70,
)
unfolding run_due run_each list_due claim_due execute_claimed job_span text_le is_correlation
    has_prefixed_uuid fits_template after_marker
run_due-stray = refl

abbrev idle : Runtime
idle = record { jobs = table; executed = [] }

abbrev two_claims : Runtime
two_claims = after_claim "job_0001" 80 (after_claim "job_0001" 70 idle)

two_claims-Reach : Reach idle two_claims
two_claims-Reach = next (next here (claim "job_0001" 70)) (claim "job_0001" 80)

executed_at_most_once_example : runs "job_0001" two_claims ≤ 1
executed_at_most_once_example = executed_at_most_once table two_claims "job_0001" two_claims-Reach

scheduled_action_runs_example :
    IsReported "job_0001"
      (claimed_row 70 lamp_job)
      75
      (answered (record { outcome = success; result = none; error_code = none }))
      (execute_claimed env (claimed_action lamp_on 10 70) (claimed_row 70 lamp_job ∷ []) 70)
unfolding is_correlation has_prefixed_uuid is_span fits_template after_marker after_run
    all_characters text_length
scheduled_action_runs_example =
    scheduled_action_runs env accept lamp_on 10 70 (claimed_row 70 lamp_job)
      (claimed_row 70 lamp_job ∷ []) 70 refl refl refl

env-IsQuiet : IsQuiet env 70
unfolding has_prefixed_uuid is_span fits_template after_marker after_run all_characters text_length
env-IsQuiet = record {
  keeps = λ execute e request context jobs k h.
      subst (λ call. is_some (get k (call request context jobs).jobs) ≡ true) (some-injective _ _ e)
        h;
  brings_nothing_due = λ execute e request context jobs k h.
      subst (λ call. due_in 70 (get k (call request context jobs).jobs) ≡ false)
        (some-injective _ _ e) h;
  brings_requests = λ execute e request context jobs k h.
      subst (λ call. stems_in (get k (call request context jobs).jobs) ≡ true)
        (some-injective _ _ e) h;
  traces = λ job. refl;
  spans = λ job. refl;
}

table-stems : (k : String) → stems_in (get k table) ≡ true
unfolding has_prefixed_uuid fits_template after_marker
table-stems k = ground arith

run_due_drains_example :
    (due_in 70 (get "job_0001" (run_due env 70 table 70).1) ≡ false)
    × ((results : List JobRecord) × ((run_due env 70 table 70).0 ≡ ok results))
run_due_drains_example = run_due_drains env 70 table 70 "job_0001" env-IsQuiet table-stems

recover_each_example :
    get "job_0001" (recover_interrupted 95 (claim_due "job_0001" 70 table).1).1
    ≡ some (record lamp_job {
      status = unknown_outcome;
      started_at = some 70;
      delay = some 10;
      finished_at = some 95;
      error = some "service restarted while job was RUNNING";
    })
unfolding claim_due
recover_each_example =
    recover_each 95 (claim_due "job_0001" 70 table).1 "job_0001" (claimed_row 70 lamp_job) refl

stop_job_running : stop_job "job_0001" (claimed_row 70 lamp_job ∷ []) ≡ raise no_safe_stop
unfolding stop_job
stop_job_running = refl

start_again :
    start 95 (claimed_row 70 lamp_job ∷ broken_job ∷ [])
    ≡ recovered_row 95 (claimed_row 70 lamp_job) ∷ broken_job ∷ []
unfolding start recover_interrupted
start_again = refl

schedule_then_cancel :
    (cancel_job env "job_0001" 20 (schedule_action env lamp_on 10 []).1).1
    ≡ cancelled_row 20 lamp_job ∷ []
unfolding cancel_job cancel schedule_action create_scheduled
schedule_then_cancel = refl
