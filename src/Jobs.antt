-- ===== src/Jobs.antt =====
-- Ephemeral jobs: the table of skills/job_store.py, in which each statement of `JobStore` is run in
-- its transaction. Times are microseconds since one epoch, all in UTC; `_to_storage` and
-- `_from_storage` convert them and nothing else. Connections and `is_ready` are not modelled.
pub mod Scheduler
pub mod Claims
pub mod Once
pub mod Recovery
mod Tests
use Prim.Native.String.{◌++◌ as text_append}
use nyra.Base.{
  ℕ, ◌-◌, ◌≡◌, String, Bool, true, false, ◌&&◌, Option, none, some, List, ◌==◌, is_empty, leb, ltb,
  if◌then◌else◌, filter, count, order_by, Result, ok, raise, text_le,
}
use nyra.Json.{Fields}
use nyra.Table.{find, insert, update}

-- shared/protocol/skills.py
pub data JobStatus : Type 0 where
  scheduled cancelled running completed failed stopped unknown_outcome : JobStatus

abbrev pub is_scheduled : JobStatus → Bool
is_scheduled scheduled = true
is_scheduled _ = false

abbrev pub is_running : JobStatus → Bool
is_running running = true
is_running _ = false

pub record JobRecord : Type 0 where
  pub job_id : String
  pub status : JobStatus
  pub execute_at : ℕ
  pub origin_request_id : String
  pub request_id : Option String
  pub created_trace_id : String
  pub payload : Fields
  pub created_at : ℕ
  pub started_at : Option ℕ
  pub finished_at : Option ℕ
  pub delay : Option ℕ
  pub error : Option String

abbrev pub JobTable : Type 0
JobTable = List JobRecord

pub data JobError : Type 0 where
  value_error key_error integrity_error validation_error : JobError

abbrev pub id_of : JobRecord → String
id_of job = job.job_id

abbrev pub get : String → JobTable → Option JobRecord
get job_id jobs = find id_of job_id jobs

-- What `create_scheduled` is called with; `fresh` is the `uuid4` that it would draw.
pub record JobRequest : Type 0 where
  pub execute_at : ℕ
  pub origin_request_id : String
  pub created_trace_id : String
  pub payload : Fields
  pub request_id : Option String
  pub job_id : Option String
  pub fresh : String

-- `job_id or f"job_{uuid4()}"`
abbrev pub chosen_id : Option String → String → String
chosen_id none fresh = text_append "job_" fresh
chosen_id (some given) fresh = if is_empty given then text_append "job_" fresh else given

abbrev pub new_row : JobRequest → ℕ → JobRecord
new_row request now = record {
  job_id = chosen_id request.job_id request.fresh;
  status = scheduled;
  execute_at = request.execute_at;
  origin_request_id = request.origin_request_id;
  request_id = request.request_id;
  created_trace_id = request.created_trace_id;
  payload = request.payload;
  created_at = now;
  started_at = none;
  finished_at = none;
  delay = none;
  error = none;
}

abbrev read_back : Option JobRecord → Result JobError JobRecord
read_back none = raise key_error
read_back (some job) = ok job

pub create_scheduled : JobRequest → ℕ → JobTable → Result JobError JobRecord × JobTable
create_scheduled request now jobs = elim (insert id_of (new_row request now) jobs) [
  | none ↦ (raise integrity_error, jobs)
  | some jobs' ↦ (read_back (get (new_row request now).job_id jobs'), jobs')
]

-- `ORDER BY execute_at, job_id`
abbrev due_order : JobRecord → JobRecord → Bool
due_order a b =
    if ltb a.execute_at b.execute_at
    then true
    else if ltb b.execute_at a.execute_at
    then false
    else text_le a.job_id b.job_id

abbrev pub is_due : ℕ → JobRecord → Bool
is_due now job = is_scheduled job.status && leb job.execute_at now

pub list_due : ℕ → JobTable → List JobRecord
unfolding text_le
list_due now jobs = order_by due_order (filter (is_due now) jobs)

abbrev pub claimed_row : ℕ → JobRecord → JobRecord
claimed_row now job = record job {
  status = running;
  started_at = some now;
  delay = some (now - job.execute_at);
  error = none;
}

-- The delay is `max(0.0, …)`, which the truncated difference is.
pub claim_due : String → ℕ → JobTable → Option JobRecord × JobTable
claim_due job_id now jobs = elim (get job_id jobs) [
  | none ↦ (none, jobs)
  | some job ↦
      if is_due now job
      then (let jobs' =
            update (λ r. (r.job_id == job_id) && is_scheduled r.status) (claimed_row now) jobs in
          (get job_id jobs', jobs'))
      else (none, jobs)
]

abbrev pub is_terminal : JobStatus → Bool
is_terminal completed = true
is_terminal failed = true
is_terminal stopped = true
is_terminal unknown_outcome = true
is_terminal _ = false

abbrev pub terminal_row : JobStatus → Option String → ℕ → JobRecord → JobRecord
terminal_row status error now job = record job {
  status = status;
  finished_at = some now;
  error = error;
}

pub set_terminal :
    String → JobStatus → Option String → ℕ → JobTable → Result JobError JobRecord × JobTable
set_terminal job_id status error now jobs =
    if is_terminal status
    then (let jobs' = update (λ r. r.job_id == job_id) (terminal_row status error now) jobs in
        (read_back (get job_id jobs'), jobs'))
    else (raise value_error, jobs)

abbrev pub cancelled_row : ℕ → JobRecord → JobRecord
cancelled_row now job = record job { status = cancelled; finished_at = some now }

pub cancel : String → ℕ → JobTable → Option JobRecord × JobTable
cancel job_id now jobs =
    let jobs' =
      update (λ r. (r.job_id == job_id) && is_scheduled r.status) (cancelled_row now) jobs in
    (get job_id jobs', jobs')

abbrev pub restart_error : String
restart_error = "service restarted while job was RUNNING"

-- `COALESCE(error, ?)`
abbrev pub coalesce : Option String → String → String
coalesce none other = other
coalesce (some e) other = e

abbrev pub recovered_row : ℕ → JobRecord → JobRecord
recovered_row now job = record job {
  status = unknown_outcome;
  finished_at = some now;
  error = some (coalesce job.error restart_error);
}

pub recover_interrupted : ℕ → JobTable → ℕ × JobTable
recover_interrupted now jobs = (
  count (λ r. is_running r.status) jobs,
  update (λ r. is_running r.status) (recovered_row now) jobs,
)
