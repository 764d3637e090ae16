-- ===== src/Worker/Exclusion.antt =====
-- The maintenance lock of app/jobs/service.py under the transactions of all who use the queue.
use palworld_manager.Prelude.{ℕ, ◌≡◌, ◌≢◌, true, String, List, ◌∷◌, Option, some, arith, subst}
use palworld_manager.Prelude.Result.{ok}
use palworld_manager.Db.Enums.{LifecycleAction, PalworldSignal, JobKind}
use palworld_manager.Db.Rows.{Time, Job, Db}
use palworld_manager.Db.Jobs.{find_job}
use palworld_manager.Environment.{Environment, Clock}
use palworld_manager.JobService.{claim_next_job, recover_interrupted_jobs}
use palworld_manager.JobService.Invariant.{IsValid, in_maintenance}
use palworld_manager.JobService.Next.{claim_next_job-Outcome}
use palworld_manager.JobService.Recovery.{recover_interrupted_jobs-IsValid}
use palworld_manager.Lifecycle.Jobs.{enqueue_lifecycle_job}
use palworld_manager.Lifecycle.Requests.{enqueue_lifecycle_job-Accepted}
use palworld_manager.Shutdown.Jobs.{enqueue_assisted_shutdown, enqueue_forced_shutdown}
use palworld_manager.Shutdown.Queue.{commit-IsValid}
use palworld_manager.Shutdown.Queue.Requests.{
  enqueue_assisted_shutdown-Accepted, enqueue_forced_shutdown-Escalates,
}
use palworld_manager.Shutdown.Race.Keeps.{Transaction, commit}
use palworld_manager.Worker.{JobLogStore, LifecycleJobWorker, Processing, process_next}
use palworld_manager.Worker.Refinement.{process_next-Step}

module _ (e : Environment) (c : Clock e) (store : JobLogStore) where
  -- One transaction of the web application or of a worker, or one whole call of `process_next`.
  pub data Transition : Db → Db → Type 0 where
    start_requested :
        {db db' : Db} (action : LifecycleAction) (user_id : ℕ) (created_at now : Time) (job : Job)
        → enqueue_lifecycle_job action user_id created_at now db ≡ ok (job, db')
        → Transition db db'
    shutdown_requested :
        {db db' : Db} (minutes user_id : ℕ) (created_at now : Time) (job : Job)
        → enqueue_assisted_shutdown minutes user_id created_at now db ≡ ok (job, db')
        → Transition db db'
    signal_requested :
        {db db' : Db} (source_job_id : ℕ) (signal : PalworldSignal) (user_id : ℕ)
        (created_at now : Time) (job : Job)
        → enqueue_forced_shutdown source_job_id signal user_id created_at now db ≡ ok (job, db')
        → Transition db db'
    claimed :
        {db db' : Db} (worker_id : String) (k : JobKind) (ks : List JobKind) (now : Time)
        (taken : Option Job)
        → worker_id ≢ ""
        → claim_next_job worker_id (k ∷ ks) now db ≡ ok (taken, db')
        → Transition db db'
    committed : {db : Db} (t : Transaction) → Transition db (commit t db)
    recovered_all : {db : Db} (now : Time) → Transition db (recover_interrupted_jobs now db).1
    processed :
        {db : Db} (worker : LifecycleJobWorker e) (claimed_at finished_at : Time) (w : e.World)
        (l : store.Logs) (p : Processing e store)
        → worker.worker_id ≢ ""
        → process_next e store worker claimed_at finished_at db w l ≡ some p
        → Transition db p.1

  pub data Transitions : Db → Db → Type 0 where
    done : {db : Db} → Transitions db db
    more : {db db1 db' : Db} → Transition db db1 → Transitions db1 db' → Transitions db db'

  Transition-IsValid : (db db' : Db) → IsValid db → Transition db db' → IsValid db'
  Transition-IsValid db db' v (start_requested action user_id created_at now job h) =
      (enqueue_lifecycle_job-Accepted action user_id created_at now db db' job v h).valid
  Transition-IsValid db db' v (shutdown_requested minutes user_id created_at now job h) =
      (enqueue_assisted_shutdown-Accepted minutes user_id created_at now db db' job v h).0.valid
  Transition-IsValid db db' v (signal_requested i signal user_id created_at now job h) =
      (enqueue_forced_shutdown-Escalates i signal user_id created_at now db db' job v h).1.valid
  Transition-IsValid db db' v (claimed worker_id k ks now taken named h) =
      let (t, db1, returned, valid, outcome) =
        claim_next_job-Outcome worker_id k ks now db named v in
      let same : db1 ≡ db' = ground arith in subst IsValid same valid
  Transition-IsValid db db' v (committed t) = commit-IsValid t db v
  Transition-IsValid db db' v (recovered_all now) = (recover_interrupted_jobs-IsValid now db v).0
  Transition-IsValid db db' v (processed worker claimed_at finished_at w l p named h) =
      (process_next-Step e c store worker claimed_at finished_at db w l p named v h).0

  Transitions-IsValid : (db db' : Db) → IsValid db → Transitions db db' → IsValid db'
  Transitions-IsValid db db' v done = v
  Transitions-IsValid db db' v (more {db1 = db1} step rest) =
      Transitions-IsValid db1 db' (Transition-IsValid db db1 v step) rest

  -- From a valid queue, after any interleaving of requests for a start, a stop, a restart, an
  -- assisted or a forced shutdown, of claims by any workers with names, of the transactions of a
  -- running shutdown, of recoveries and of whole calls of `process_next`, two running jobs that
  -- need the maintenance lock are one job.
  pub mutual_exclusion :
      (db db' : Db)
      → IsValid db
      → Transitions db db'
      → (i k : ℕ) (a b : Job) → find_job i db'.jobs ≡ some a
      → find_job k db'.jobs ≡ some b
      → in_maintenance a ≡ true
      → in_maintenance b ≡ true
      → i ≡ k
  mutual_exclusion db db' v steps i k a b fa fb ma mb =
      let valid = Transitions-IsValid db db' v steps in
      ground (arith, valid.lock_held i a fa ma, valid.lock_held k b fb mb)
