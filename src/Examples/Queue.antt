-- ===== src/Examples/Queue.antt =====
-- The queue of app/jobs/service.py with one job.
use palworld_manager.Prelude.{
  ℕ, ◌≡◌, ◌≢◌, refl, String, false, Option, none, some, [], ◌∷◌, arith, eq_iff,
}
use mathlib.Core.Option
use palworld_manager.Prelude.Result.{ok}
use palworld_manager.Db.Enums.{LifecycleAction, JobKind, kind_value, is_running}
use palworld_manager.Db.Rows.{Job, Db}
use palworld_manager.Db.Jobs.{find_job, update_job}
use palworld_manager.JobService.{claim_next_job, release_terminal_locks, recover_interrupted_jobs}
use palworld_manager.JobService.Invariant.{IsValid}
use palworld_manager.JobService.Next.{Outcome, claim_next_job-Outcome}
use palworld_manager.JobService.Recovery.{recovered, recover_interrupted_jobs-IsValid}
use palworld_manager.Lifecycle.Jobs.{lifecycle_kinds}
use palworld_manager.Examples.{
  start_job, queued_db, running_job, running_db, worker_lock, resting-QueueInv, running-QueueInv,
}

abbrev worker_name : String
worker_name = "worker"

abbrev no_name : String
no_name = ""

worker_named : worker_name ≢ no_name
worker_named = ground (arith, eq_iff worker_name no_name)

claim_next_job_example :
    (taken : Option Job) × (db' : Db) × (claim_next_job "worker"
        (JobKind.lifecycle LifecycleAction.start ∷ [])
        20
        queued_db
      ≡ ok (taken, db'))
    × IsValid db'
    × Outcome "worker"
        (JobKind.lifecycle LifecycleAction.start ∷ [])
        20
        (release_terminal_locks queued_db)
        taken
        db'
claim_next_job_example =
    claim_next_job-Outcome "worker" (JobKind.lifecycle LifecycleAction.start) [] 20 queued_db
      worker_named (resting-QueueInv start_job refl (omega arith))

-- The claim of the start gives the running row with the lock.
pub claimed :
    claim_next_job "worker" lifecycle_kinds 20 queued_db ≡ ok (some running_job, running_db)
unfolding claim_next_job kind_value update_job
claimed = refl

recover_interrupted_jobs_example :
    IsValid (recover_interrupted_jobs 30 running_db).1
    × ((recover_interrupted_jobs 30 running_db).1.lock ≡ none)
    × ((i : ℕ)
        → find_job i (recover_interrupted_jobs 30 running_db).1.jobs
          ≡ Option.map (recovered 30) (find_job i running_db.jobs))
    × ((i : ℕ) (j : Job)
        → find_job i (recover_interrupted_jobs 30 running_db).1.jobs ≡ some j
        → is_running j.status ≡ false)
recover_interrupted_jobs_example =
    recover_interrupted_jobs-IsValid 30 running_db
      (running-QueueInv running_job worker_lock refl (omega arith) refl)
