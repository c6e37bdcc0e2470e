-- ===== src/Jobs/Once.antt =====
-- Interleavings: any sequence of schedules, claims, endings, cancels and recoveries, as the worker, the
-- API handlers and a restart make them.
use nyra.Base.{
  ℕ, ◌≤◌, ◌≡◌, ◌⊎◌, inl, refl, String, Bool, true, false, Option, none, some, List, [], ◌∷◌, ◌==◌,
  eq_iff, if◌then◌else◌, arith, count, is_some,
}
use nyra.Table.Laws.{find-append}
use nyra.Jobs.{
  JobStatus, JobRecord, JobTable, JobRequest, id_of, get, is_scheduled, new_row, create_scheduled,
  claim_due, set_terminal, cancel, recover_interrupted,
}
use nyra.Jobs.Claims.{
  get-claim_due, get-set_terminal, get-cancel, get-recover_interrupted, claim_due-eq,
}

-- The table, and the identifiers of the jobs that have been handed out for execution, latest first.
pub record Runtime : Type 0 where
  pub jobs : JobTable
  pub executed : List String

abbrev pub after_claim : String → ℕ → Runtime → Runtime
after_claim job_id now s = record s {
  jobs = (claim_due job_id now s.jobs).1;
  executed = if is_some (claim_due job_id now s.jobs).0 then job_id ∷ s.executed else s.executed;
}

pub data Step (s : Runtime) : Runtime → Type 0 where
  schedule :
      (request : JobRequest) (now : ℕ)
      → Step s (record s { jobs = (create_scheduled request now s.jobs).1 })
  claim : (job_id : String) (now : ℕ) → Step s (after_claim job_id now s)
  finish :
      (job_id : String) (status : JobStatus) (error : Option String) (now : ℕ)
      → Step s (record s { jobs = (set_terminal job_id status error now s.jobs).1 })
  give_up : (job_id : String) (now : ℕ) → Step s (record s { jobs = (cancel job_id now s.jobs).1 })
  restart : (now : ℕ) → Step s (record s { jobs = (recover_interrupted now s.jobs).1 })

pub data Reach (s : Runtime) : Runtime → Type 0 where
  here : Reach s s
  next : {t u : Runtime} → Reach s t → Step t u → Reach s u

abbrev pub runs : String → Runtime → ℕ
runs job_id s = count (λ k. k == job_id) s.executed

-- A row that is there and is no longer waiting.
abbrev pub has_left : Option JobRecord → Bool
has_left none = false
has_left (some job) = if is_scheduled job.status then false else true

-- A job has not run, or it has run once and its row has left the queue.
abbrev pub IsOnce : String → Runtime → Type 0
IsOnce k s = (runs k s ≡ 0) ⊎ ((runs k s ≡ 1) × (has_left (get k s.jobs) ≡ true))

has_left-create :
    (k : String) (request : JobRequest) (now : ℕ) (jobs : JobTable)
    → has_left (get k jobs) ≡ true
    → has_left (get k (create_scheduled request now jobs).1) ≡ true
unfolding create_scheduled
has_left-create k request now jobs h =
    ground (arith, find-append id_of k jobs (new_row request now))

has_left-claim :
    (k job_id : String) (now : ℕ) (jobs : JobTable)
    → has_left (get k jobs) ≡ true
    → has_left (get k (claim_due job_id now jobs).1) ≡ true
has_left-claim k job_id now jobs h = ground (arith, get-claim_due job_id now jobs k)

has_left-set_terminal :
    (k job_id : String) (status : JobStatus) (error : Option String) (now : ℕ) (jobs : JobTable)
    → has_left (get k jobs) ≡ true
    → has_left (get k (set_terminal job_id status error now jobs).1) ≡ true
has_left-set_terminal k job_id status error now jobs h =
    ground (arith, get-set_terminal job_id status error now jobs k)

has_left-cancel :
    (k job_id : String) (now : ℕ) (jobs : JobTable)
    → has_left (get k jobs) ≡ true
    → has_left (get k (cancel job_id now jobs).1) ≡ true
has_left-cancel k job_id now jobs h = ground (arith, get-cancel job_id now jobs k)

has_left-recover :
    (k : String) (now : ℕ) (jobs : JobTable)
    → has_left (get k jobs) ≡ true
    → has_left (get k (recover_interrupted now jobs).1) ≡ true
has_left-recover k now jobs h = ground (arith, get-recover_interrupted now jobs k)

-- What has left is refused, and what is handed out has left.
claim_of_left :
    (k : String) (now : ℕ) (jobs : JobTable)
    → has_left (get k jobs) ≡ true
    → is_some (claim_due k now jobs).0 ≡ false
claim_of_left k now jobs h = ground (arith, claim_due-eq k now jobs)

left_of_claim :
    (k : String) (now : ℕ) (jobs : JobTable)
    → is_some (claim_due k now jobs).0 ≡ true
    → has_left (get k (claim_due k now jobs).1) ≡ true
left_of_claim k now jobs h =
    ground (arith, eq_iff k k, get-claim_due k now jobs k, claim_due-eq k now jobs)

after_claim-IsOnce :
    (k job_id : String) (now : ℕ) (s : Runtime) → IsOnce k s → IsOnce k (after_claim job_id now s)
after_claim-IsOnce k job_id now s h = ground (
  arith,
  eq_iff job_id k,
  claim_of_left job_id now s.jobs,
  left_of_claim job_id now s.jobs,
  has_left-claim k job_id now s.jobs,
)

Step-IsOnce : (k : String) {s t : Runtime} → Step s t → IsOnce k s → IsOnce k t
Step-IsOnce k {s} (schedule request now) h = ground (arith, has_left-create k request now s.jobs)
Step-IsOnce k {s} (claim job_id now) h = after_claim-IsOnce k job_id now s h
Step-IsOnce k {s} (finish job_id status error now) h =
    ground (arith, has_left-set_terminal k job_id status error now s.jobs)
Step-IsOnce k {s} (give_up job_id now) h = ground (arith, has_left-cancel k job_id now s.jobs)
Step-IsOnce k {s} (restart now) h = ground (arith, has_left-recover k now s.jobs)

Reach-IsOnce : (k : String) {s t : Runtime} → IsOnce k s → Reach s t → IsOnce k t
Reach-IsOnce k h here = h
Reach-IsOnce k h (next r step) = Step-IsOnce k step (Reach-IsOnce k h r)

-- From any table, whatever schedules, claims, endings, cancels and restarts follow in whatever order, no
-- job is handed out for execution more than once.
pub executed_at_most_once :
    (jobs : JobTable) (t : Runtime) (job_id : String)
    → Reach (record { jobs = jobs; executed = [] }) t
    → runs job_id t ≤ 1
executed_at_most_once jobs t job_id r =
    let h : IsOnce job_id t = Reach-IsOnce job_id (inl refl) r in ground arith
