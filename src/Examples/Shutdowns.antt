-- ===== src/Examples/Shutdowns.antt =====
-- The shutdown jobs on a small queue, and their executors on the fake environment.
use palworld_manager.Shutdown.Completion.{execute_forced_shutdown_job-Ended, reported}
use palworld_manager.Lifecycle.Completion.{Ended}
use palworld_manager.Prelude.{
  ℕ, ◌+◌, ◌≡◌, ◌≤◌, refl, true, false, not, none, some, is_some, List, [], ◌∷◌, arith, ◌==◌,
}
use palworld_manager.Prelude.Result.{ok}
use palworld_manager.Db.Enums.{
  LifecycleAction, PalworldSignal, JobKind, JobStatus, JobStep, PalworldHealthState,
}
use palworld_manager.Db.Rows.{Job, Db}
use palworld_manager.Db.Jobs.{find_job, get_one, update_job, insert_job, fresh_id}
use palworld_manager.Db.Audit.{record_audit_event}
use palworld_manager.JobService.Invariant.{IsValid}
use palworld_manager.Lifecycle.Executor.{execute}
use palworld_manager.Lifecycle.Fake.{fake, fake_clock}
use palworld_manager.Lifecycle.Jobs.{lifecycle_timeout}
use palworld_manager.Shutdown.Executor.{
  CountdownDirective, AssistedShutdownResult, ShutdownOutcome, CountdownControl, execute_assisted,
  execute_forced,
}
use palworld_manager.Shutdown.Counted.{counted, commands, execute_assisted-commands}
use palworld_manager.Shutdown.Returns.{
  execute_assisted-returns, ForcedVerdict, execute_forced-ForcedVerdict,
}
use palworld_manager.Shutdown.Jobs.{
  enqueue_assisted_shutdown, enqueue_forced_shutdown, request_shutdown_cancel, assisted_row,
  forced_row,
}
use palworld_manager.Shutdown.Jobs.Control.{mark_irreversible, irreversible_row, countdown_progress}
use palworld_manager.Shutdown.Jobs.Complete.{
  assisted_order, forced_order, execute_forced_shutdown_job,
}
use palworld_manager.Shutdown.Race.Keeps.{Transaction, execute_now, countdown, commit_all}
use palworld_manager.Shutdown.Race.{cancel_wins, irreversible_wins}
use palworld_manager.Shutdown.Queue.{commit_all-IsValid, countdown_progress_range}
use palworld_manager.Shutdown.Queue.Escalation.{Escalates}
use palworld_manager.Shutdown.Queue.Requests.{
  Accepted, enqueue_assisted_shutdown-Accepted, enqueue_forced_shutdown-Escalates,
}
use palworld_manager.Examples.{
  accepted, empty_db, start_job, worker_lock, resting-QueueInv, running-QueueInv,
}

-- An assisted shutdown whose countdown runs.
abbrev counting_job : Job
counting_job = record (assisted_row 10 5 60 1) {
  id = 1;
  status = JobStatus.running;
  step = JobStep.countdown;
  progress = 5;
}

abbrev counting_db : Db
counting_db = record empty_db { jobs = counting_job ∷ []; lock = some worker_lock }

abbrev go_ahead : List Transaction
go_ahead = execute_now 1 2 none 40 ∷ countdown 1 299 300 ∷ []

cancel_wins_example :
    let later = commit_all go_ahead (request_shutdown_cancel 1 2 none 30 counting_db).1 in
    mark_irreversible 1 later ≡ ok (CountdownDirective.cancel, later)
unfolding request_shutdown_cancel find_job
cancel_wins_example = cancel_wins 1 2 none 30 go_ahead counting_db refl

abbrev irreversible_db : Db
irreversible_db = record counting_db { jobs = irreversible_row counting_job ∷ [] }

irreversible_wins_example :
    request_shutdown_cancel 1 2 none 50 (commit_all go_ahead irreversible_db)
    ≡ (false, commit_all go_ahead irreversible_db)
unfolding mark_irreversible get_one find_job update_job
irreversible_wins_example = irreversible_wins 1 2 none 50 go_ahead counting_db irreversible_db refl

commit_all_example : IsValid (commit_all go_ahead counting_db)
commit_all_example =
    commit_all-IsValid go_ahead counting_db
      (running-QueueInv counting_job worker_lock refl (omega arith) refl)

countdown_progress_example :
    (5 ≤ countdown_progress 150 300)
    × (countdown_progress 150 300 ≤ 80)
    × (countdown_progress 300 300 ≡ 5)
    × (countdown_progress 0 300 ≡ 80)
    × ((less : ℕ) → less ≤ 150 → countdown_progress 150 300 ≤ countdown_progress less 300)
countdown_progress_example = countdown_progress_range 150 300 (omega arith) (omega arith)

-- A countdown that is cancelled at once.
abbrev cancelling : CountdownControl
cancelling = record {
  State = Unit;
  update = λ remaining total s. ok (CountdownDirective.cancel, s);
  mark_irreversible = λ s. ok (CountdownDirective.continue, s);
}

abbrev on : (counted fake).World
on = ((record { active = true; restart_pending = false }, 0), 0)

abbrev stopped : (counted fake).World
stopped = ((record { active = false; restart_pending = false }, 0), 1)

abbrev stopped_result : AssistedShutdownResult
stopped_result = record {
  outcome = ShutdownOutcome.succeeded;
  online_players = some 0;
  timed_out = false;
  final_state = some PalworldHealthState.offline;
  failure = none;
}

-- Without a countdown the server is stopped once.
execute_assisted_example : stopped.1 ≡ commands stopped_result + on.1
unfolding execute_assisted execute
execute_assisted_example =
    execute_assisted-commands fake cancelling 61 0 60 on stopped tt tt stopped_result refl

execute_assisted_returns_example : is_some (execute_assisted fake cancelling 61 5 60 on.0 tt) ≡ true
execute_assisted_returns_example =
    execute_assisted-returns fake fake_clock cancelling 60 (omega arith) 5 on.0 tt

execute_forced_example :
    (r : AssistedShutdownResult) × (w' : fake.World) × (execute_forced fake 61 PalworldSignal.term
        60 on.0
      ≡ some (r, w'))
    × ForcedVerdict fake fake_clock PalworldSignal.term 60 on.0 r w'
execute_forced_example = execute_forced-ForcedVerdict fake fake_clock PalworldSignal.term 60 on.0

-- A stop that failed.
abbrev failed_stop : Job
failed_stop = record start_job {
  kind = JobKind.lifecycle LifecycleAction.stop;
  status = JobStatus.failed;
}

abbrev failed_db : Db
failed_db = record empty_db { jobs = failed_stop ∷ [] }

abbrev forced : Job × Db
forced = accepted (enqueue_forced_shutdown 1 PalworldSignal.term 2 50 50 failed_db)

enqueue_forced_example :
    Escalates failed_db 1 PalworldSignal.term
    × Accepted failed_db forced.1 forced.0
    × ((timeout : ℕ) × (lifecycle_timeout LifecycleAction.stop failed_db ≡ ok timeout)
        × (forced_order forced.0.id forced.1 ≡ ok (PalworldSignal.term, timeout)))
unfolding enqueue_forced_shutdown lifecycle_timeout insert_job fresh_id find_job record_audit_event
enqueue_forced_example =
    enqueue_forced_shutdown-Escalates 1 PalworldSignal.term 2 50 50 failed_db forced.1 forced.0
      (resting-QueueInv failed_stop refl (omega arith)) refl

abbrev assisted : Job × Db
assisted = accepted (enqueue_assisted_shutdown 5 2 50 50 failed_db)

enqueue_assisted_example :
    Accepted failed_db assisted.1 assisted.0
    × (assisted.0.is_cancellable ≡ not (5 == 0))
    × ((timeout : ℕ) × (lifecycle_timeout LifecycleAction.stop failed_db ≡ ok timeout)
        × (assisted_order assisted.0.id assisted.1 ≡ ok (5, timeout)))
unfolding enqueue_assisted_shutdown lifecycle_timeout insert_job fresh_id record_audit_event
enqueue_assisted_example =
    enqueue_assisted_shutdown-Accepted 5 2 50 50 failed_db assisted.1 assisted.0
      (resting-QueueInv failed_stop refl (omega arith)) refl

-- A forced shutdown that runs.
abbrev forcing_job : Job
forcing_job = record (forced_row 10 7 PalworldSignal.term 60 1) {
  id = 1;
  status = JobStatus.running;
  step = JobStep.executing;
  progress = 5;
}

abbrev forcing_db : Db
forcing_db = record empty_db { jobs = forcing_job ∷ []; lock = some worker_lock }

execute_forced_shutdown_job_example :
    (r : AssistedShutdownResult) × (db' : Db) × (w' : fake.World) × (execute_forced_shutdown_job
        fake 1 30 forcing_db on.0
      ≡ some (ok (db', w')))
    × (execute_forced fake 61 PalworldSignal.term 60 on.0 ≡ some (r, w'))
    × Ended 1 (reported r.outcome) forcing_db db'
    × ForcedVerdict fake fake_clock PalworldSignal.term 60 on.0 r w'
unfolding forced_order get_one find_job
execute_forced_shutdown_job_example =
    execute_forced_shutdown_job-Ended fake fake_clock 1 30 forcing_db on.0 PalworldSignal.term 60
      (running-QueueInv forcing_job worker_lock refl (omega arith) refl) refl
