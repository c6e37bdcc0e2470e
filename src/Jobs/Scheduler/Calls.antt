-- ===== src/Jobs/Scheduler/Calls.antt =====
-- What becomes of one claimed job: the call that is made for it, and how it ends.
use Prim.Native.String.{◌++◌ as text_append}
use mathlib.Core.Path.{subst}
use nyra.Base.{
  ℕ, ◌≡◌, ◌≢◌, refl, inl, inr, String, true, Option, none, some, arith, ok, eq_self, Result,
  Bool-cases, if◌then◌else◌,
}
use nyra.Correlation.{is_correlation}
use nyra.Table.Laws.{find-update_by_key}
use nyra.Jobs.{
  JobStatus, JobRecord, JobTable, JobError, id_of, get, completed, failed, unknown_outcome,
  terminal_row, claimed_row, set_terminal, new_row, is_terminal,
}
use nyra.Capability.{
  CommonOutcome, success, outcome_value, ExecuteRequest, ExecuteResponse, Reply, answered, threw,
  parse_operation-operation_value, parse_resource_type-resource_type_value,
}
use nyra.Json.{Json, Fields, dict_or_empty}
use nyra.Jobs.Scheduler.{
  Environment, Answer, Action, read_payload, action_payload, action_request, verdict,
  given_or_empty, code_or, job_span, conclude, refuse, execute_started, execute_claimed,
}

-- The row with one's identifier after an end, and that nothing is raised where it is there.
pub set_terminal-ok :
    (job_id : String) (status : JobStatus) (error : Option String) (now : ℕ) (jobs : JobTable)
    {old : JobRecord}
    → get job_id jobs ≡ some old
    → is_terminal status ≡ true
    → ((set_terminal job_id status error now jobs).0 ≡ ok (terminal_row status error now old))
      × (get job_id (set_terminal job_id status error now jobs).1
          ≡ some (terminal_row status error now old))
unfolding set_terminal
set_terminal-ok job_id status error now jobs {old} h t = ground (
  arith,
  eq_self job_id,
  find-update_by_key id_of (terminal_row status error now) (λ r. refl) job_id job_id jobs,
)

pub verdict-is_terminal : (reply : Reply) → is_terminal (verdict reply).0 ≡ true
unfolding verdict
verdict-is_terminal reply = ground arith

-- What `schedule_action` writes is read back as the call that was asked for.
pub read_payload-action_payload :
    (render : Json → String) (a : Action)
    → read_payload render (action_payload a)
      ≡ some (record {
        operation = a.operation;
        resource_type = a.resource_type;
        resource_id = a.resource_id;
        parameters = given_or_empty a.parameters;
        trusted_context = a.trusted_context;
      })
unfolding read_payload dict_or_empty
read_payload-action_payload render a =
    rw (parse_operation-operation_value, parse_resource_type-resource_type_value)

-- A claimed job whose row is still there ends with what the reply of its call says.
pub conclude_lem :
    (job old : JobRecord) (answer : Answer)
    → get job.job_id answer.jobs ≡ some old
    → let ended = terminal_row (verdict answer.reply).0 (verdict answer.reply).1 answer.clock old in
      ((conclude job answer).0 ≡ ok ended) × (get job.job_id (conclude job answer).1 ≡ some ended)
unfolding conclude
conclude_lem job old answer h =
    set_terminal-ok job.job_id (verdict answer.reply).0 (verdict answer.reply).1 answer.clock
      answer.jobs h (verdict-is_terminal answer.reply)

pub refuse_lem :
    (job old : JobRecord) (error : String) (jobs : JobTable) (clock : ℕ)
    → get job.job_id jobs ≡ some old
    → let ended = terminal_row failed (some error) clock old in
      ((refuse job error jobs clock).0 ≡ ok ended)
      × (get job.job_id (refuse job error jobs clock).1 ≡ some ended)
unfolding refuse
refuse_lem job old error jobs clock h =
    set_terminal-ok job.job_id failed (some error) clock jobs h refl

-- The identifiers that an execution of the job is correlated by are well formed: of the request that it stems from, of
-- the trace and of the span, which are made up.
abbrev pub IsCorrelated : Environment → JobRecord → Type 0
IsCorrelated env job =
    is_correlation job.origin_request_id (env.new_trace_id job)
      (some (env.new_span_id "skills.job.start" job))
    ≡ true

abbrev pub started_span : Environment → JobRecord → Option String
started_span env job = if env.observed then some (env.new_span_id "skills.job.start" job) else none

is_correlation-none :
    (origin trace span : String)
    → is_correlation origin trace (some span) ≡ true
    → is_correlation origin trace none ≡ true
unfolding is_correlation
is_correlation-none origin trace span h = ground arith

pub job_span-ok :
    (env : Environment) (job : JobRecord)
    → IsCorrelated env job
    → (job_span env "skills.job.start" job (env.new_trace_id job) ≡ ok (started_span env job))
      × (is_correlation job.origin_request_id (env.new_trace_id job) (started_span env job) ≡ true)
unfolding job_span
job_span-ok env job h = elim (Bool-cases env.observed) [
  | inl e ↦ (rw (job_span, e, h) refl, rw e h)
  | inr e ↦ (rw (job_span, e) refl, rw e (is_correlation-none job.origin_request_id _ _ h))
]

-- The row of a scheduled action once it is claimed, and the call that is due for it.
abbrev pub claimed_action : Action → ℕ → ℕ → JobRecord
claimed_action a created now = claimed_row now (new_row (action_request a) created)

abbrev pub asked_for : Environment → JobRecord → Action → ExecuteRequest
asked_for env job a = record {
  origin_request_id = a.origin_request_id;
  trace_id = env.new_trace_id job;
  parent_span_id = started_span env job;
  operation = a.operation;
  resource_id = a.resource_id;
  resource_type = a.resource_type;
  parameters = given_or_empty a.parameters;
}

-- The execution hands back the job's row with this end, and leaves it in the table.
abbrev pub Ends :
    String
    → JobRecord
    → ℕ
    → JobStatus
    → Option String
    → Result JobError JobRecord × JobTable × ℕ
    → Type 0
Ends job_id old clock status error outcome =
    (outcome.0 ≡ ok (record old { status = status; finished_at = some clock; error = error }))
    × (get job_id outcome.1
        ≡ some (record old { status = status; finished_at = some clock; error = error }))

-- How the job ends after each reply of the capability
pub record IsReported (job_id : String) (old : JobRecord) (clock : ℕ) (reply : Reply)
    (outcome : Result JobError JobRecord × JobTable × ℕ) : Type 0 where
  pub on_exception :
      (name : String)
      → reply ≡ threw name
      → Ends job_id old clock failed (some (text_append "CAPABILITY_EXCEPTION:" name)) outcome
  pub on_success :
      (r : ExecuteResponse)
      → reply ≡ answered r
      → r.outcome ≡ success
      → Ends job_id old clock completed none outcome
  pub on_unknown_outcome :
      (r : ExecuteResponse)
      → reply ≡ answered r
      → r.outcome ≡ CommonOutcome.unknown_outcome
      → Ends job_id old clock unknown_outcome
          (some (code_or r.error_code "UNKNOWN_OUTCOME"))
          outcome
  pub on_other :
      (r : ExecuteResponse)
      → reply ≡ answered r
      → r.outcome ≢ success
      → r.outcome ≢ CommonOutcome.unknown_outcome
      → Ends job_id old clock failed (some (code_or r.error_code (outcome_value r.outcome))) outcome

verdict-success :
    (r : ExecuteResponse) → r.outcome ≡ success → verdict (answered r) ≡ (completed, none)
unfolding verdict
verdict-success r h = rw (verdict, h) refl

verdict-unknown_outcome :
    (r : ExecuteResponse)
    → r.outcome ≡ CommonOutcome.unknown_outcome
    → verdict (answered r) ≡ (unknown_outcome, some (code_or r.error_code "UNKNOWN_OUTCOME"))
unfolding verdict
verdict-unknown_outcome r h = rw (verdict, h) refl

verdict-other :
    (r : ExecuteResponse)
    → r.outcome ≢ success
    → r.outcome ≢ CommonOutcome.unknown_outcome
    → verdict (answered r) ≡ (failed, some (code_or r.error_code (outcome_value r.outcome)))
unfolding verdict
verdict-other r h k = ground arith

conclude-IsReported :
    (job old : JobRecord) (answer : Answer)
    → get job.job_id answer.jobs ≡ some old
    → IsReported job.job_id old answer.clock answer.reply (conclude job answer)
unfolding verdict
conclude-IsReported job old answer h =
    let EndsAs : JobStatus × Option String → Type 0 =
      λ v. Ends job.job_id old answer.clock v.0 v.1 (conclude job answer) in
    let base : EndsAs (verdict answer.reply) = conclude_lem job old answer h in
    let of_reply : (reply : Reply) → answer.reply ≡ reply → EndsAs (verdict reply) =
      λ reply e. subst (λ reply. EndsAs (verdict reply)) e base in
    record {
      on_exception = λ name e. of_reply (threw name) e;
      on_success = λ r e o. subst EndsAs (verdict-success r o) (of_reply (answered r) e);
      on_unknown_outcome =
          λ r e o. subst EndsAs (verdict-unknown_outcome r o) (of_reply (answered r) e);
      on_other = λ r e o u. subst EndsAs (verdict-other r o u) (of_reply (answered r) e);
    }

-- The action's job, claimed and executed with well-formed identifiers while its row stays in the table, makes the one
-- call that was asked for, under the request that scheduled it. It ends as COMPLETED without an error where that call is
-- answered with SUCCESS, as UNKNOWN_OUTCOME with the code of the answer or this name, and as FAILED with the code or the
-- outcome of another answer, or with the class of what the call raised.
pub scheduled_action_runs :
    (env : Environment) (execute : ExecuteRequest → Fields → JobTable → Answer) (a : Action)
    (created now : ℕ) (old : JobRecord) (jobs : JobTable) (clock : ℕ)
    → env.capability ≡ some execute
    → IsCorrelated env (claimed_action a created now)
    → get
        (claimed_action a created now).job_id
        (execute (asked_for env (claimed_action a created now) a) a.trusted_context jobs).jobs
      ≡ some old
    → IsReported
        (claimed_action a created now).job_id
        old
        (execute (asked_for env (claimed_action a created now) a) a.trusted_context jobs).clock
        (execute (asked_for env (claimed_action a created now) a) a.trusted_context jobs).reply
        (execute_claimed env (claimed_action a created now) jobs clock)
unfolding execute_claimed execute_started
scheduled_action_runs env execute a created now old jobs clock cap correlated h =
    let job = claimed_action a created now in
    let (spanned, valid) = job_span-ok env job correlated in
    rw (execute_claimed, spanned)
      (rw (cap, execute_started)
        (rw (read_payload-action_payload env.render a, execute_started)
          (rw (valid, execute_started)
            (conclude-IsReported job old (execute (asked_for env job a) a.trusted_context jobs)
              h))))
