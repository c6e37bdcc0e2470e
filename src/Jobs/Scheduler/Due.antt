-- ===== src/Jobs/Scheduler/Due.antt =====
-- `run_due` empties the queue of what is due.
use nyra.Base.{
  ℕ, ◌≡◌, ◌⊎◌, inl, inr, refl, String, Bool, true, false, Option, none, some, List, [], ◌∷◌, ◌==◌,
  eq_iff, arith, any, filter, any-order_by, any-filter, Option-cases, Bool-cases, ok, is_some,
}
use nyra.Table.{has_key}
use nyra.Table.Laws.{any-find, find-key}
use nyra.Jobs.{
  JobRecord, JobStatus, JobTable, id_of, get, is_due, list_due, due_order, claim_due, set_terminal,
  failed, terminal_row,
}
use nyra.Jobs.Claims.{due_in, get-claim_due, get-set_terminal, claim_due-eq}
use nyra.Capability.{ExecuteRequest}
use nyra.Json.{Fields}
use nyra.Jobs.Scheduler.{
  Environment, Answer, call_request, verdict, read_payload, conclude, refuse, execute_started,
  execute_claimed, run_each, run_due,
}
use nyra.Jobs.Scheduler.Calls.{conclude_lem, refuse_lem, IsCorrelated, started_span, job_span-ok}
use nyra.Correlation.{has_prefixed_uuid, is_span, is_correlation}

-- Every due job is on the list that `run_due` goes through.
listed :
    (job_id : String) (now : ℕ) (jobs : JobTable)
    → due_in now (get job_id jobs) ≡ true
    → any (has_key id_of job_id) (list_due now jobs) ≡ true
unfolding list_due
listed job_id now jobs h = elim (Option-cases (get job_id jobs)) [
  | inl e ↦ ground arith
  | inr (job, e) ↦ ground (
    arith,
    any-order_by due_order (has_key id_of job_id) (filter (is_due now) jobs),
    any-filter (has_key id_of job_id) (is_due now) jobs,
    any-find id_of (is_due now) job_id jobs {r = job},
  )
]

-- The job stems from a request, by an identifier of the form that requests have.
abbrev pub stems_in : Option JobRecord → Bool
stems_in none = true
stems_in (some job) = has_prefixed_uuid job.origin_request_id "req_"

-- While a call is awaited, other tasks delete no job, and bring none that is already due and none without a request; the
-- identifiers that are made up for traces and spans have their form.
pub record IsQuiet (env : Environment) (now : ℕ) : Type 0 where
  pub keeps :
      (execute : ExecuteRequest → Fields → JobTable → Answer)
      → env.capability ≡ some execute
      → (request : ExecuteRequest) (context : Fields) (jobs : JobTable) (k : String)
      → is_some (get k jobs) ≡ true
      → is_some (get k (execute request context jobs).jobs) ≡ true
  pub brings_nothing_due :
      (execute : ExecuteRequest → Fields → JobTable → Answer)
      → env.capability ≡ some execute
      → (request : ExecuteRequest) (context : Fields) (jobs : JobTable) (k : String)
      → due_in now (get k jobs) ≡ false
      → due_in now (get k (execute request context jobs).jobs) ≡ false
  pub brings_requests :
      (execute : ExecuteRequest → Fields → JobTable → Answer)
      → env.capability ≡ some execute
      → (request : ExecuteRequest) (context : Fields) (jobs : JobTable) (k : String)
      → stems_in (get k jobs) ≡ true
      → stems_in (get k (execute request context jobs).jobs) ≡ true
  pub traces : (job : JobRecord) → has_prefixed_uuid (env.new_trace_id job) "trc_" ≡ true
  pub spans : (job : JobRecord) → is_span (env.new_span_id "skills.job.start" job) ≡ true

abbrev Stem : JobTable → Type 0
Stem jobs = (k : String) → stems_in (get k jobs) ≡ true

abbrev Settled : ℕ → String → JobTable → Type 0
Settled now k jobs = due_in now (get k jobs) ≡ false

set_terminal-Settled :
    (now : ℕ) (k job_id : String) (status : JobStatus) (error : Option String) (clock : ℕ)
    (jobs : JobTable)
    → Settled now k jobs
    → Settled now k (set_terminal job_id status error clock jobs).1
set_terminal-Settled now k job_id status error clock jobs h =
    ground (arith, get-set_terminal job_id status error clock jobs k)

set_terminal-Stem :
    (job_id : String) (status : JobStatus) (error : Option String) (clock : ℕ) (jobs : JobTable)
    → Stem jobs
    → Stem (set_terminal job_id status error clock jobs).1
set_terminal-Stem job_id status error clock jobs h k =
    let stems = h k in ground (arith, get-set_terminal job_id status error clock jobs k)

claim_due-Stem :
    (p : String) (now : ℕ) (jobs : JobTable) → Stem jobs → Stem (claim_due p now jobs).1
claim_due-Stem p now jobs h k = let stems = h k in ground (arith, get-claim_due p now jobs k)

claim_due-stems :
    (k : String) (now : ℕ) (jobs : JobTable) (job : JobRecord)
    → Stem jobs
    → (claim_due k now jobs).0 ≡ some job
    → has_prefixed_uuid job.origin_request_id "req_" ≡ true
claim_due-stems k now jobs job h e =
    let stems = h k in
    elim (Option-cases (get k jobs)) [
      | inl f ↦ ground (arith, claim_due-eq k now jobs)
      | inr (old, f) ↦ ground (arith, claim_due-eq k now jobs)
    ]

-- The row that a claim hands out is in the table.
claim_due-found :
    (k : String) (now : ℕ) (jobs : JobTable) (job : JobRecord)
    → (claim_due k now jobs).0 ≡ some job
    → is_some (get job.job_id (claim_due k now jobs).1) ≡ true
claim_due-found k now jobs job h = elim (Option-cases (get k jobs)) [
  | inl e ↦ ground (arith, claim_due-eq k now jobs)
  | inr (old, e) ↦ ground (
    arith,
    claim_due-eq k now jobs,
    find-key id_of k jobs {r = old},
    get-claim_due k now jobs job.job_id,
    eq_iff job.job_id k,
  )
]

module _ (env : Environment) (now : ℕ) (quiet : IsQuiet env now) where
  -- What ends and calls keep of the table, an execution keeps.
  execute_started-keeps :
      (Q : JobTable → Type 0)
      → ((job_id : String) (status : JobStatus) (error : Option String) (clock : ℕ)
            (jobs : JobTable)
          → Q jobs
          → Q (set_terminal job_id status error clock jobs).1)
      → ((execute : ExecuteRequest → Fields → JobTable → Answer)
          → env.capability ≡ some execute
          → (request : ExecuteRequest) (context : Fields) (jobs : JobTable) → Q jobs
          → Q (execute request context jobs).jobs)
      → (job : JobRecord) (span : Option String) (jobs : JobTable) (clock : ℕ) → Q jobs
      → Q (execute_started env job span jobs clock).1
  unfolding execute_started refuse conclude
  execute_started-keeps Q ends calls job span jobs clock h = elim (Option-cases env.capability) [
    | inl e ↦ rw (e, execute_started) (ends job.job_id failed _ clock jobs h)
    | inr (execute, e) ↦ elim (Option-cases (read_payload env.render job.payload)) [
      | inl f ↦
          rw (e, execute_started) (rw (f, execute_started) (ends job.job_id failed _ clock jobs h))
      | inr (call, f) ↦
          elim (Bool-cases (is_correlation job.origin_request_id (env.new_trace_id job) span)) [
            | inl g ↦
                rw (e, execute_started)
                  (rw (f, execute_started)
                    (rw (g, execute_started)
                      (ends job.job_id _ _ _ _ (
                        calls execute e (call_request env job span call) call.trusted_context jobs
                          h))))
            | inr g ↦ rw (e, execute_started) (rw (f, execute_started) (rw (g, execute_started) h))
          ]
    ]
  ]

  -- Where the claimed row is there and its identifiers have their form, the execution raises nothing.
  execute_started-ok :
      (job : JobRecord) (span : Option String) (jobs : JobTable) (clock : ℕ)
      → is_some (get job.job_id jobs) ≡ true
      → is_correlation job.origin_request_id (env.new_trace_id job) span ≡ true
      → (done : JobRecord) × ((execute_started env job span jobs clock).0 ≡ ok done)
  unfolding execute_started
  execute_started-ok job span jobs clock h valid = elim (Option-cases env.capability) [
    | inl e ↦ elim (Option-cases (get job.job_id jobs)) [
      | inl g ↦ absurd (ground arith)
      | inr (old, g) ↦ (
        terminal_row failed (some "ROUTER_CAPABILITY_UNAVAILABLE") clock old,
        rw (e, execute_started) (refuse_lem job old _ jobs clock g).0,
      )
    ]
    | inr (execute, e) ↦ elim (Option-cases (read_payload env.render job.payload)) [
      | inl f ↦ elim (Option-cases (get job.job_id jobs)) [
        | inl g ↦ absurd (ground arith)
        | inr (old, g) ↦ (
          terminal_row failed (some "INVALID_JOB_PAYLOAD") clock old,
          rw (e, execute_started) (rw (f, execute_started) (refuse_lem job old _ jobs clock g).0),
        )
      ]
      | inr (call, f) ↦
          let answer = execute (call_request env job span call) call.trusted_context jobs in
          elim (Option-cases (get job.job_id answer.jobs)) [
            | inl g ↦ absurd (
                ground (
                  arith,
                  quiet.keeps execute e (call_request env job span call) call.trusted_context jobs
                      job.job_id h,
                ))
            | inr (old, g) ↦ (
              terminal_row (verdict answer.reply).0 (verdict answer.reply).1 answer.clock old,
              rw (e, execute_started)
                  (rw (f, execute_started)
                    (rw (valid, execute_started) (conclude_lem job old answer g).0)),
            )
          ]
    ]
  ]

  stems-IsCorrelated :
      (job : JobRecord)
      → has_prefixed_uuid job.origin_request_id "req_" ≡ true
      → IsCorrelated env job
  unfolding is_correlation
  stems-IsCorrelated job h = rw (is_correlation, h, quiet.traces job, quiet.spans job) refl

  execute_claimed-started :
      (job : JobRecord) (jobs : JobTable) (clock : ℕ)
      → has_prefixed_uuid job.origin_request_id "req_" ≡ true
      → execute_claimed env job jobs clock
        ≡ execute_started env job (started_span env job) jobs clock
  unfolding execute_claimed
  execute_claimed-started job jobs clock h =
      rw (execute_claimed, (job_span-ok env job (stems-IsCorrelated job h)).0) refl

  execute_claimed-Settled :
      (job : JobRecord) (jobs : JobTable) (clock : ℕ) (k : String)
      → has_prefixed_uuid job.origin_request_id "req_" ≡ true
      → Settled now k jobs
      → Settled now k (execute_claimed env job jobs clock).1
  execute_claimed-Settled job jobs clock k stems h =
      rw (execute_claimed-started job jobs clock stems) (
        execute_started-keeps (Settled now k) (set_terminal-Settled now k)
          (λ execute e request context jobs s.
            quiet.brings_nothing_due execute e request context jobs k s)
          job (started_span env job) jobs clock h)

  execute_claimed-Stem :
      (job : JobRecord) (jobs : JobTable) (clock : ℕ)
      → has_prefixed_uuid job.origin_request_id "req_" ≡ true
      → Stem jobs
      → Stem (execute_claimed env job jobs clock).1
  execute_claimed-Stem job jobs clock stems h = rw (execute_claimed-started job jobs clock stems) (
      execute_started-keeps Stem set_terminal-Stem
        (λ execute e request context jobs s k.
          quiet.brings_requests execute e request context jobs k (s k))
        job (started_span env job) jobs clock h)

  execute_claimed-ok :
      (job : JobRecord) (jobs : JobTable) (clock : ℕ)
      → has_prefixed_uuid job.origin_request_id "req_" ≡ true
      → is_some (get job.job_id jobs) ≡ true
      → (done : JobRecord) × ((execute_claimed env job jobs clock).0 ≡ ok done)
  execute_claimed-ok job jobs clock stems h = rw (execute_claimed-started job jobs clock stems) (
      execute_started-ok job (started_span env job) jobs clock h
        (job_span-ok env job (stems-IsCorrelated job stems)).1)

  claim-Settled :
      (p k : String) (jobs : JobTable) → Settled now k jobs → Settled now k (claim_due p now jobs).1
  claim-Settled p k jobs h = ground (arith, get-claim_due p now jobs k)

  claim-settles :
      (p k : String) (jobs : JobTable) → (p == k) ≡ true → Settled now k (claim_due p now jobs).1
  claim-settles p k jobs e = ground (arith, eq_iff p k, eq_iff k p, get-claim_due p now jobs k)

  claim-advances :
      (p : JobRecord) (rest : List JobRecord) (jobs : JobTable) (k : String)
      → (Settled now k jobs) ⊎ (any (has_key id_of k) (p ∷ rest) ≡ true)
      → (Settled now k (claim_due p.job_id now jobs).1) ⊎ (any (has_key id_of k) rest ≡ true)
  claim-advances p rest jobs k (inl h) = inl (claim-Settled p.job_id k jobs h)
  claim-advances p rest jobs k (inr h) = elim (Bool-cases (p.job_id == k)) [
    | inl e ↦ inl (claim-settles p.job_id k jobs e)
    | inr e ↦ inr (ground arith)
  ]

  -- The loop settles what it lists, unsettles nothing, and raises nothing.
  run_each-Settled :
      (pending : List JobRecord) (jobs : JobTable) (clock : ℕ) (k : String)
      → Stem jobs
      → (Settled now k jobs) ⊎ (any (has_key id_of k) pending ≡ true)
      → (Settled now k (run_each env now pending jobs clock).1)
        × ((results : List JobRecord) × ((run_each env now pending jobs clock).0 ≡ ok results))
  unfolding run_each
  run_each-Settled [] jobs clock k stem h = (ground arith, ([], refl))
  run_each-Settled (p ∷ rest) jobs clock k stem h =
      let jobs' = (claim_due p.job_id now jobs).1 in
      let settled : (Settled now k jobs') ⊎ (any (has_key id_of k) rest ≡ true) =
        claim-advances p rest jobs k h in
      let stem' = claim_due-Stem p.job_id now jobs stem in
      elim (Option-cases (claim_due p.job_id now jobs).0) [
        | inl e ↦ rw (e, run_each) (run_each-Settled rest jobs' clock k stem' settled)
        | inr (job, e) ↦
            let stems = claim_due-stems p.job_id now jobs job stem e in
            let (done, f) =
              execute_claimed-ok job jobs' clock stems (claim_due-found p.job_id now jobs job e) in
            let rest_lem =
              run_each-Settled rest (execute_claimed env job jobs' clock).1
                (execute_claimed env job jobs' clock).2 k
                (execute_claimed-Stem job jobs' clock stems stem')
                (elim settled [
                  | inl a ↦ inl (execute_claimed-Settled job jobs' clock k stems a)
                  | inr b ↦ inr b
                ]) in
            rw (e, run_each) (rw (f, run_each) (rest_lem.0, (done ∷ rest_lem.1.0, rw rest_lem.1.1)))
      ]

listed_or_Settled :
    (now : ℕ) (k : String) (jobs : JobTable)
    → (Settled now k jobs) ⊎ (any (has_key id_of k) (list_due now jobs) ≡ true)
listed_or_Settled now k jobs = elim (Bool-cases (due_in now (get k jobs))) [
  | inl e ↦ inr (listed k now jobs e)
  | inr e ↦ inl e
]

-- While every job stems from a request, the identifiers that are made up have their form, and other tasks delete no job
-- and bring none that is already due or stems from no request, `run_due` returns, and when it does no job is left that is
-- scheduled for a time up to `now`.
pub run_due_drains :
    (env : Environment) (now : ℕ) (jobs : JobTable) (clock : ℕ) (job_id : String)
    → IsQuiet env now
    → ((k : String) → stems_in (get k jobs) ≡ true)
    → (due_in now (get job_id (run_due env now jobs clock).1) ≡ false)
      × ((results : List JobRecord) × ((run_due env now jobs clock).0 ≡ ok results))
unfolding run_due
run_due_drains env now jobs clock job_id quiet stem =
    run_each-Settled env now quiet (list_due now jobs) jobs clock job_id stem
      (listed_or_Settled now job_id jobs)
