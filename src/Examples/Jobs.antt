-- ===== src/Examples/Jobs.antt =====
-- The worker, the host's power and the assisted shutdown on small queues and the fake environment.
use palworld_manager.Examples.Queue.{claimed}
use palworld_manager.Worker.Exclusion.{Transition, Transitions, mutual_exclusion}
use palworld_manager.Shutdown.Completion.{reported}
use palworld_manager.Shutdown.Jobs.Control.{database_control}
use palworld_manager.JobService.{recover_interrupted_jobs}
use palworld_manager.Prelude.{
  ◌≡◌, ◌≢◌, refl, Bool, true, false, String, some, List, [], ◌∷◌, arith, eq_iff,
}
use palworld_manager.Prelude.Result.{ok}
use palworld_manager.Db.Enums.{HostPowerAction, JobStatus, JobKind, LifecycleAction}
use palworld_manager.Db.Rows.{Job, Db}
use palworld_manager.Db.Jobs.{find_job, get_one}
use palworld_manager.JobService.Invariant.{IsValid}
use palworld_manager.Lifecycle.Fake.{fake, fake_clock}
use palworld_manager.Lifecycle.Completion.{Ended}
use palworld_manager.Shutdown.Executor.{AssistedShutdownResult, execute_assisted}
use palworld_manager.Shutdown.Jobs.{assisted_row}
use palworld_manager.Shutdown.Jobs.Complete.{assisted_order, execute_assisted_shutdown_job}
use palworld_manager.Shutdown.Assisted.{execute_assisted_shutdown_job-Ended}
use palworld_manager.HostPower.{HostPowerReport, host_power_row, host_power_order, reported_status}
use palworld_manager.HostPower.Executor.{execute_host_power_job}
use palworld_manager.HostPower.Laws.{PowerVerdict, execute_host_power_job-Ended}
use palworld_manager.Worker.{JobLogStore, LifecycleJobWorker, Processing, process_next}
use palworld_manager.Worker.Processed.{Ending, process_next-Ending}
use palworld_manager.Worker.Refinement.{
  Worked, recover, rest, Steps, view, Worked-Steps, Worked-ended_row,
}
use palworld_manager.Examples.{
  empty_db, queued_db, start_job, running_job, running_db, worker_lock, running-QueueInv,
  resting-QueueInv,
}

abbrev off : fake.World
off = (record { active = false; restart_pending = false }, 100)

abbrev on : fake.World
on = (record { active = true; restart_pending = false }, 100)

-- A controller that takes every command.
abbrev willing : HostPowerAction → fake.World → Bool × fake.World
willing action w = (true, w)

abbrev power_job : Job
power_job = record (host_power_row 10 HostPowerAction.reboot 60) {
  id = 1;
  status = JobStatus.running;
  progress = 5;
}

abbrev power_db : Db
power_db = record empty_db { jobs = power_job ∷ []; lock = some worker_lock }

execute_host_power_job_example :
    (r : HostPowerReport) × (db' : Db) × (w' : fake.World) × (execute_host_power_job fake willing 1
        30 power_db on
      ≡ some (ok (db', w')))
    × Ended 1 (reported_status r) power_db db'
    × PowerVerdict fake fake_clock willing HostPowerAction.reboot 60 on r w'
unfolding host_power_order get_one find_job
execute_host_power_job_example =
    execute_host_power_job-Ended fake fake_clock willing 1 30 power_db on HostPowerAction.reboot 60
      (running-QueueInv power_job worker_lock refl (omega arith) refl) refl

abbrev stopping_job : Job
stopping_job = record (assisted_row 10 5 60 1) { id = 1; status = JobStatus.running; progress = 5 }

abbrev stopping_db : Db
stopping_db = record empty_db { jobs = stopping_job ∷ []; lock = some worker_lock }

execute_assisted_shutdown_job_example :
    (r : AssistedShutdownResult) × (later db' : Db) × (w' : fake.World)
    × (execute_assisted_shutdown_job fake 1 30 [] stopping_db on ≡ some (ok (db', w')))
    × (execute_assisted fake (database_control 1) 61 5 60 on ([], stopping_db)
        ≡ some (ok (r, w', ([], later))))
    × Ended 1 (reported r.outcome) stopping_db db'
unfolding assisted_order get_one find_job
execute_assisted_shutdown_job_example =
    execute_assisted_shutdown_job-Ended fake fake_clock 1 30 stopping_db on 5 60
      (running-QueueInv stopping_job worker_lock refl (omega arith) refl) refl refl

-- A store that keeps the lines.
abbrev lines : JobLogStore
lines = record {
  Logs = List String;
  create = λ id kind l. (ok "jobs/2026/job.log", l);
  append = λ path line l. line ∷ l;
}

abbrev worker_name : String
worker_name = "worker"

abbrev nameless : String
nameless = ""

abbrev worker : LifecycleJobWorker fake
worker = record {
  worker_id = worker_name;
  shutdown_executors = true;
  host_power_executor = some willing;
}

worker_is_named : worker.worker_id ≢ nameless
worker_is_named = ground (arith, eq_iff worker_name nameless)

process_next-Ending_example :
    (p : Processing fake lines) × (process_next fake lines worker 20 40 queued_db off [] ≡ some p)
    × Ending fake fake_clock lines worker 20 queued_db [] p
process_next-Ending_example =
    process_next-Ending fake fake_clock lines worker 20 40 queued_db off [] worker_is_named
      (resting-QueueInv start_job refl (omega arith))

-- The worker starts twice over a job that had been running.
abbrev recovered_twice : Db → Db
recovered_twice db = (recover_interrupted_jobs 51 (recover_interrupted_jobs 50 db).1).1

recovered_Worked : (db : Db) → Worked fake fake_clock lines worker db (recovered_twice db)
recovered_Worked db = recover 50 (recover 51 rest)

Worked-Steps_example :
    IsValid (recovered_twice running_db)
    × Steps (view running_db) (view (recovered_twice running_db))
Worked-Steps_example =
    Worked-Steps fake fake_clock lines worker running_db (recovered_twice running_db)
      worker_is_named (running-QueueInv running_job worker_lock refl (omega arith) refl)
      (recovered_Worked running_db)

abbrev ended_job : Job
ended_job = record start_job { status = JobStatus.succeeded; progress = 100 }

abbrev ended_db : Db
ended_db = record empty_db { jobs = ended_job ∷ [] }

Worked-ended_row_example : find_job 1 (recovered_twice ended_db).jobs ≡ some ended_job
unfolding find_job
Worked-ended_row_example =
    Worked-ended_row fake fake_clock lines worker ended_db (recovered_twice ended_db) 1 ended_job
      worker_is_named (resting-QueueInv ended_job refl (omega arith)) (recovered_Worked ended_db)
      refl refl

start_taken : Transitions fake fake_clock lines queued_db running_db
start_taken =
    Transitions.more
      (Transition.claimed worker_name (JobKind.lifecycle LifecycleAction.start)
        (JobKind.lifecycle LifecycleAction.stop ∷ JobKind.lifecycle LifecycleAction.restart ∷ []) 20
        (some running_job) worker_is_named claimed)
      Transitions.done

-- The start is claimed.
mutual_exclusion_example : running_job.id ≡ 1
unfolding find_job
mutual_exclusion_example =
    mutual_exclusion fake fake_clock lines queued_db running_db
      (resting-QueueInv start_job refl (omega arith)) start_taken 1 1 running_job running_job refl
      refl refl refl
