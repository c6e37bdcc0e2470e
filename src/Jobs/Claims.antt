-- ===== src/Jobs/Claims.antt =====
-- The statements of the job table, job by job: what claiming, cancelling, ending and recovering make of
-- each row.
use nyra.Base.{
  ℕ, ◌≡◌, refl, String, Bool, true, false, ◌&&◌, Option, none, some, ◌==◌, eq_iff, eq_self,
  if◌then◌else◌, arith,
}
use nyra.Table.Laws.{changed, find-update, find-update_key, find-update_by_key}
use nyra.Jobs.{
  JobStatus, JobRecord, JobTable, id_of, get, is_scheduled, is_running, is_due, is_terminal,
  claimed_row, terminal_row, cancelled_row, recovered_row, claim_due, set_terminal, cancel,
  recover_interrupted,
}

abbrev pub row_is_scheduled : JobRecord → Bool
row_is_scheduled r = is_scheduled r.status

abbrev pub row_is_running : JobRecord → Bool
row_is_running r = is_running r.status

-- What a claim at `now` makes of the row with its identifier.
abbrev pub claimed : ℕ → Option JobRecord → Option JobRecord
claimed now none = none
claimed now (some job) = some (if is_due now job then claimed_row now job else job)

get-claim_due_self :
    (job_id : String) (now : ℕ) (jobs : JobTable)
    → get job_id (claim_due job_id now jobs).1 ≡ claimed now (get job_id jobs)
unfolding claim_due
get-claim_due_self job_id now jobs = ground (
  arith,
  eq_self job_id,
  find-update_key id_of row_is_scheduled (claimed_row now) (λ r. refl) job_id job_id jobs,
)

get-claim_due_other :
    (job_id k : String) (now : ℕ) (jobs : JobTable)
    → (k == job_id) ≡ false
    → get k (claim_due job_id now jobs).1 ≡ get k jobs
unfolding claim_due
get-claim_due_other job_id k now jobs ne =
    ground
      (arith, find-update_key id_of row_is_scheduled (claimed_row now) (λ r. refl) job_id k jobs)

pub get-claim_due :
    (job_id : String) (now : ℕ) (jobs : JobTable) (k : String)
    → get k (claim_due job_id now jobs).1
      ≡ (if k == job_id then claimed now (get k jobs) else get k jobs)
get-claim_due job_id now jobs k = ground (
  arith,
  eq_iff k job_id,
  get-claim_due_self job_id now jobs,
  get-claim_due_other job_id k now jobs,
)

pub get-set_terminal :
    (job_id : String) (status : JobStatus) (error : Option String) (now : ℕ) (jobs : JobTable)
    (k : String)
    → get k (set_terminal job_id status error now jobs).1 ≡ (
        if (k == job_id) && is_terminal status
        then changed (λ r. true) (terminal_row status error now) (get k jobs)
        else get k jobs)
unfolding set_terminal
get-set_terminal job_id status error now jobs k =
    ground
      (arith, find-update_by_key id_of (terminal_row status error now) (λ r. refl) job_id k jobs)

pub get-cancel :
    (job_id : String) (now : ℕ) (jobs : JobTable) (k : String)
    → get k (cancel job_id now jobs).1 ≡ (
        if k == job_id
        then changed row_is_scheduled (cancelled_row now) (get k jobs)
        else get k jobs)
unfolding cancel
get-cancel job_id now jobs k =
    find-update_key id_of row_is_scheduled (cancelled_row now) (λ r. refl) job_id k jobs

pub get-recover_interrupted :
    (now : ℕ) (jobs : JobTable) (k : String)
    → get k (recover_interrupted now jobs).1
      ≡ changed row_is_running (recovered_row now) (get k jobs)
unfolding recover_interrupted
get-recover_interrupted now jobs k =
    find-update id_of row_is_running (recovered_row now) (λ r. refl) k jobs

-- A claim hands out a row exactly where the job is scheduled and due, and hands out the row that it wrote.
pub claim_due-eq :
    (job_id : String) (now : ℕ) (jobs : JobTable)
    → (claim_due job_id now jobs).0 ≡ (elim (get job_id jobs) [
      | none ↦ none
      | some job ↦ if is_due now job then some (claimed_row now job) else none
    ])
unfolding claim_due
claim_due-eq job_id now jobs = ground (
  arith,
  eq_self job_id,
  find-update_key id_of row_is_scheduled (claimed_row now) (λ r. refl) job_id job_id jobs,
)

abbrev pub due_in : ℕ → Option JobRecord → Bool
due_in now none = false
due_in now (some job) = is_due now job

-- Where no due job is found, a claim changes nothing.
pub claim_due_refused :
    (job_id : String) (now : ℕ) (jobs : JobTable)
    → due_in now (get job_id jobs) ≡ false
    → claim_due job_id now jobs ≡ (none, jobs)
unfolding claim_due
claim_due_refused job_id now jobs h = ground arith

pub claimed-undue :
    (now later : ℕ) (o : Option JobRecord)
    → due_in now o ≡ true
    → due_in later (claimed now o) ≡ false
claimed-undue now later o h = ground arith

-- A claim that hands out a row found a due one.
pub due_of_claim :
    (job_id : String) (now : ℕ) (jobs : JobTable) (job : JobRecord)
    → (claim_due job_id now jobs).0 ≡ some job
    → due_in now (get job_id jobs) ≡ true
due_of_claim job_id now jobs job h = ground (arith, claim_due-eq job_id now jobs)

-- A job that has been claimed is not handed out a second time, at whatever time the second claim is made.
pub claim_due_once :
    (job_id : String) (now later : ℕ) (jobs : JobTable) (job : JobRecord)
    → (claim_due job_id now jobs).0 ≡ some job
    → ((claim_due job_id later (claim_due job_id now jobs).1).0 ≡ none)
      × ((claim_due job_id later (claim_due job_id now jobs).1).1 ≡ (claim_due job_id now jobs).1)
claim_due_once job_id now later jobs job h = ground (
  arith,
  due_of_claim job_id now jobs job,
  claimed-undue now later (get job_id jobs),
  get-claim_due_self job_id now jobs,
  claim_due_refused job_id later (claim_due job_id now jobs).1,
)
