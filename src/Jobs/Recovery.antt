-- ===== src/Jobs/Recovery.antt =====
-- `recover_interrupted`, which the constructor of the store and `start` run before any job does.
use nyra.Base.{ℕ, ◌≡◌, refl, String, some, [], ◌∷◌, arith, count, if◌then◌else◌}
use nyra.Table.{update}
use nyra.Jobs.{
  JobRecord, JobTable, is_running, recovered_row, recover_interrupted, coalesce, restart_error, get,
  unknown_outcome,
}
use nyra.Jobs.Claims.{row_is_running, get-recover_interrupted}

recovered_rows :
    (now later : ℕ) (jobs : JobTable)
    → (count row_is_running (update row_is_running (recovered_row now) jobs) ≡ 0)
      × (update row_is_running
            (recovered_row later)
            (update row_is_running (recovered_row now) jobs)
          ≡ update row_is_running (recovered_row now) jobs)
recovered_rows now later [] = (refl, refl)
recovered_rows now later (job ∷ jobs) = ground (arith, recovered_rows now later jobs)

-- A recovery leaves no job RUNNING: a second one finds nothing and changes nothing.
pub recover_interrupted_idem :
    (now later : ℕ) (jobs : JobTable)
    → recover_interrupted later (recover_interrupted now jobs).1
      ≡ (0, (recover_interrupted now jobs).1)
unfolding recover_interrupted
recover_interrupted_idem now later jobs = ground (arith, recovered_rows now later jobs)

-- A job that was RUNNING ends with an unknown outcome, at the time of the recovery, and keeps an error that
-- it has; a job in any other state is left as it is.
pub recover_each :
    (now : ℕ) (jobs : JobTable) (job_id : String) (job : JobRecord)
    → get job_id jobs ≡ some job
    → get job_id (recover_interrupted now jobs).1
      ≡ some (
          if is_running job.status
          then record job {
            status = unknown_outcome;
            finished_at = some now;
            error = some (coalesce job.error restart_error);
          }
          else job)
recover_each now jobs job_id job h = ground (arith, get-recover_interrupted now jobs job_id)
