-- ===== src/Examples/Server.antt =====
-- The lifecycle executor and its jobs on the fake environment.
use palworld_manager.Prelude.{◌≡◌, refl, false, some, arith}
use palworld_manager.Prelude.Result.{ok}
use palworld_manager.Db.Enums.{LifecycleAction, JobStatus, PalworldHealthState}
use palworld_manager.Db.Rows.{Job, Db}
use palworld_manager.Db.Jobs.{find_job, get_one, insert_job, fresh_id}
use palworld_manager.Db.Audit.{record_audit_event}
use palworld_manager.Environment.{Environment, Clock}
use palworld_manager.Lifecycle.Executor.{LifecycleOutcome, LifecycleResult, poll_interval, execute}
use palworld_manager.Lifecycle.Verdict.{Verdict, execute-Verdict, execute_unseen_restart}
use palworld_manager.Lifecycle.Fake.{fake, fake_clock}
use palworld_manager.Lifecycle.Jobs.{
  lifecycle_order, lifecycle_timeout, execute_lifecycle_job, fail_lifecycle_job,
  enqueue_lifecycle_job,
}
use palworld_manager.Lifecycle.Requests.{Accepted, enqueue_lifecycle_job-Accepted}
use palworld_manager.Lifecycle.Completion.{
  Ended, final_status, execute_lifecycle_job-Ended, fail_lifecycle_job-Ended,
}
use palworld_manager.Examples.{
  accepted, empty_db, empty_db-IsValid, running_job, running_db, worker_lock, running-QueueInv,
}

abbrev off : fake.World
off = (record { active = false; restart_pending = false }, 100)

execute_example :
    (r : LifecycleResult) × (w' : fake.World) × (execute fake 121 poll_interval
        LifecycleAction.start 120 off
      ≡ some (ok (r, w')))
    × Verdict fake fake_clock LifecycleAction.start 120 off r w'
execute_example = execute-Verdict fake fake_clock LifecycleAction.start 120 off (omega arith)

-- A server that always looks online.
abbrev steady : Environment
steady = record fake { check = λ w. (PalworldHealthState.online, w) }

steady_clock : Clock steady
steady_clock = record {
  now = λ w. w.1;
  monotonic_reads = λ w. omega arith;
  check_later = λ w. omega arith;
  is_open_later = λ w. omega arith;
  start_later = λ w. omega arith;
  stop_later = λ w. omega arith;
  restart_later = λ w. omega arith;
  send_signal_later = λ s w. omega arith;
  sleep_lasts = λ d w. omega arith;
}

unseen_restart_example :
    (r : LifecycleResult) × (w' : steady.World) × (execute steady 4 poll_interval
        LifecycleAction.restart 3 off
      ≡ some (ok (r, w')))
    × (r.outcome ≡ LifecycleOutcome.failed)
unseen_restart_example = execute_unseen_restart steady steady_clock 3 off (omega arith) (λ v. refl)

execute_lifecycle_job_example :
    (r : LifecycleResult) × (db' : Db) × (w' : fake.World) × (execute_lifecycle_job fake 1 30
        running_db off
      ≡ some (ok (db', w')))
    × (execute fake 121 poll_interval LifecycleAction.start 120 off ≡ some (ok (r, w')))
    × Ended 1 (final_status r.outcome) running_db db'
    × Verdict fake fake_clock LifecycleAction.start 120 off r w'
unfolding lifecycle_order get_one find_job
execute_lifecycle_job_example =
    execute_lifecycle_job-Ended fake fake_clock 1 30 running_db off LifecycleAction.start 120
      (running-QueueInv running_job worker_lock refl (omega arith) refl) refl

fail_lifecycle_job_example :
    (db' : Db) × (fail_lifecycle_job 1 30 running_db ≡ ok db')
    × Ended 1 JobStatus.failed running_db db'
unfolding find_job
fail_lifecycle_job_example =
    fail_lifecycle_job-Ended 1 30 running_db running_job LifecycleAction.start
      (running-QueueInv running_job worker_lock refl (omega arith) refl) refl refl

abbrev enqueued : Job × Db
enqueued = accepted (enqueue_lifecycle_job LifecycleAction.start 1 10 10 empty_db)

enqueue_lifecycle_job_example : Accepted LifecycleAction.start empty_db enqueued.1 enqueued.0
unfolding enqueue_lifecycle_job lifecycle_timeout insert_job fresh_id record_audit_event
enqueue_lifecycle_job_example =
    enqueue_lifecycle_job-Accepted LifecycleAction.start 1 10 10 empty_db enqueued.1 enqueued.0
      empty_db-IsValid refl
