-- ===== src/Worker.antt =====
-- `LifecycleJobWorker` of app/lifecycle/worker.py: it takes one job from the queue, runs it, ends it
-- and lets the maintenance lock go. The executors for backups, restores, Drive and updates are None.
-- While a job runs no other process writes to the database; Shutdown/Race has the other writers.
pub mod Runs
pub mod Processed
pub mod Refinement
pub mod Exclusion
use palworld_manager.Prelude.{
  ℕ, Bool, true, false, String, Option, none, some, List, [], ◌∷◌, ◌++◌, if◌then◌else◌,
}
use palworld_manager.Prelude.Result.{Error, Result, ok, err, guard, ◌>>◌}
use palworld_manager.Db.Enums.{LifecycleAction, PalworldSignal, HostPowerAction, JobKind, JobStatus}
use palworld_manager.Db.Rows.{Time, Job, Db}
use palworld_manager.Db.Jobs.{get_one}
use palworld_manager.Environment.{Environment}
use palworld_manager.JobService.{claim_next_job, release_maintenance_lock}
use palworld_manager.Lifecycle.Jobs.{execute_lifecycle_job, fail_lifecycle_job}
use palworld_manager.Shutdown.Jobs.Complete.{
  execute_assisted_shutdown_job, execute_forced_shutdown_job, fail_shutdown_job,
}
use palworld_manager.HostPower.{fail_host_power_job, change_job}
use palworld_manager.HostPower.Executor.{execute_host_power_job}

-- The protocol JobLogStore, over the files that it keeps. `append` is `_append_log`, which catches
-- what the store's own `append` raises.
pub record JobLogStore : Type 1 where
  pub Logs : Type 0
  pub create : ℕ → JobKind → Logs → Result String × Logs
  pub append : String → String → Logs → Logs

-- The worker's own attributes: are both shutdown executors there, and the controller of the host
-- power's executor.
pub record LifecycleJobWorker (e : Environment) : Type 0 where
  pub worker_id : String
  pub shutdown_executors : Bool
  pub host_power_executor : Option (HostPowerAction → e.World → Bool × e.World)

abbrev pub lifecycle_kinds : List JobKind
lifecycle_kinds =
    JobKind.lifecycle LifecycleAction.start
    ∷ JobKind.lifecycle LifecycleAction.stop
    ∷ JobKind.lifecycle LifecycleAction.restart
    ∷ []

abbrev pub shutdown_kinds : List JobKind
shutdown_kinds =
    JobKind.assisted_shutdown
    ∷ JobKind.forced_shutdown PalworldSignal.term
    ∷ JobKind.forced_shutdown PalworldSignal.kill
    ∷ []

abbrev pub host_power_kinds : List JobKind
host_power_kinds =
    JobKind.host_power HostPowerAction.reboot ∷ JobKind.host_power HostPowerAction.shutdown ∷ []

abbrev pub logged_path : String → Job → Job
logged_path path j = record j { log_path = some path }

-- The line that a run adds after "Execução iniciada.".
abbrev pub started_line : JobKind → Option String
started_line JobKind.local_backup = some "Validação de consistência e backup local iniciados."
started_line JobKind.remote_restore = some "Download e validação do Restore remoto iniciados."
started_line JobKind.local_restore =
    some "Validação integral e backup preventivo do Restore iniciados."
started_line JobKind.drive_check = some "Operação gerenciada no Google Drive iniciada."
started_line JobKind.drive_upload = some "Operação gerenciada no Google Drive iniciada."
started_line JobKind.drive_download = some "Operação gerenciada no Google Drive iniciada."
started_line JobKind.drive_delete = some "Operação gerenciada no Google Drive iniciada."
started_line JobKind.update_check = some "Operação manual de Update iniciada."
started_line JobKind.update = some "Operação manual de Update iniciada."
started_line (JobKind.host_power _) =
    some "Validação do Palworld e controle de energia do Ubuntu iniciados."
started_line _ = none

abbrev pub finished_line : JobStatus → String
finished_line JobStatus.succeeded = "Execução finalizada."
finished_line _ = "Execução finalizada com falha controlada."

module _ (e : Environment) where
  -- `_supported_kinds`
  unfoldable pub supported_kinds : LifecycleJobWorker e → List JobKind
  supported_kinds worker =
      lifecycle_kinds
      ++ (if worker.shutdown_executors then shutdown_kinds else [])
      ++ (elim worker.host_power_executor [ none ↦ [] | some _ ↦ host_power_kinds ])

  -- The `if job_kind == …` chain of the `try` block. An `assert` fails where the executor is None.
  unfoldable pub run_job :
      LifecycleJobWorker e → JobKind → ℕ → Time → Db → e.World → Option (Result (Db × e.World))
  run_job worker (JobKind.host_power _) job_id now db w = elim worker.host_power_executor [
    | none ↦ some (err Error.assertion_error)
    | some controller ↦ execute_host_power_job e controller job_id now db w
  ]
  run_job worker JobKind.assisted_shutdown job_id now db w =
      if worker.shutdown_executors
      then execute_assisted_shutdown_job e job_id now [] db w
      else some (err Error.assertion_error)
  run_job worker (JobKind.forced_shutdown _) job_id now db w =
      if worker.shutdown_executors
      then execute_forced_shutdown_job e job_id now db w
      else some (err Error.assertion_error)
  run_job worker (JobKind.lifecycle _) job_id now db w = execute_lifecycle_job e job_id now db w
  run_job worker _ job_id now db w = some (err Error.assertion_error)

  -- The same chain of the `except` block.
  unfoldable pub fail_job : LifecycleJobWorker e → JobKind → ℕ → Time → Db → Result Db
  fail_job worker (JobKind.host_power _) job_id now db = elim worker.host_power_executor [
    | none ↦ err Error.assertion_error
    | some _ ↦ fail_host_power_job job_id now db
  ]
  fail_job worker JobKind.update_check job_id now db = err Error.assertion_error
  fail_job worker JobKind.update job_id now db = err Error.assertion_error
  fail_job worker JobKind.assisted_shutdown job_id now db = fail_shutdown_job job_id now db
  fail_job worker (JobKind.forced_shutdown _) job_id now db = fail_shutdown_job job_id now db
  fail_job worker (JobKind.lifecycle _) job_id now db = fail_lifecycle_job job_id now db
  fail_job worker _ job_id now db = ok db

  module _ (store : JobLogStore) where
    -- How a call of `process_next` leaves the database, the outside world and the logs; in front,
    -- what it returns or raises.
    abbrev pub Processing : Type 0
    Processing = Result Bool × Db × e.World × store.Logs

    abbrev pub append_if : String → Option String → store.Logs → store.Logs
    append_if path none l = l
    append_if path (some line) l = store.append path line l

    -- The `else` and the `finally` block.
    unfoldable pub after_run : ℕ → String → Db → e.World → store.Logs → Processing
    after_run job_id path db w l = elim (get_one job_id db.jobs) [
      | err x ↦ (err x, release_maintenance_lock job_id db, w, l)
      | ok j ↦ (
        ok true,
        release_maintenance_lock job_id db,
        w,
        store.append path (finished_line j.status) l,
      )
    ]

    -- The `except` and the `finally` block; what was raised has changed nothing that lasts.
    unfoldable pub after_exception :
        LifecycleJobWorker e → JobKind → ℕ → String → Time → Db → e.World → store.Logs → Processing
    after_exception worker kind job_id path now db w l =
        let l1 = store.append path "Execução falhou de forma inesperada." l in
        elim (fail_job worker kind job_id now db) [
          | err x ↦ (err x, release_maintenance_lock job_id db, w, l1)
          | ok failed ↦ (ok true, release_maintenance_lock job_id failed, w, l1)
        ]

    -- From the `try` on.
    unfoldable pub run_claimed :
        LifecycleJobWorker e
        → JobKind
        → ℕ
        → String
        → Time
        → Db
        → e.World
        → store.Logs
        → Option Processing
    run_claimed worker kind job_id path now db w l =
        let l1 = append_if path (started_line kind) (store.append path "Execução iniciada." l) in
        elim (run_job worker kind job_id now db w) [
          | none ↦ none
          | some (err x) ↦ some (after_exception worker kind job_id path now db w l1)
          | some (ok (db', w')) ↦ some (after_run job_id path db' w' l1)
        ]

    -- `process_next`. A log that cannot be created raises, and the claim is rolled back. The times
    -- are those of the claim and of the end. The fuel is that of each executor.
    unfoldable pub process_next :
        LifecycleJobWorker e → Time → Time → Db → e.World → store.Logs → Option Processing
    process_next worker claimed_at finished_at db w l =
        elim (claim_next_job worker.worker_id (supported_kinds worker) claimed_at db) [
          | err x ↦ some (err x, db, w, l)
          | ok (none, db1) ↦ some (ok false, db1, w, l)
          | ok (some job, db1) ↦
              let (created, l1) = store.create job.id job.kind l in
              elim created [
                | err x ↦ some (err x, db, w, l1)
                | ok path ↦
                    run_claimed worker job.kind job.id path finished_at
                      (change_job job.id (logged_path path) db1) w l1
              ]
        ]
