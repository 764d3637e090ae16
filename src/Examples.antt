-- ===== src/Examples.antt =====
-- Databases with one job, on which the theorems are tried.
pub mod Queue
pub mod Server
pub mod Shutdowns
pub mod Others
pub mod Jobs
pub mod Files
pub mod Settings
pub mod Saving
use palworld_manager.Prelude.{
  ℕ, ◌≤◌, ◌≡◌, refl, Bool, true, false, Option, none, some, List, [], ◌∷◌, arith, ◌==◌, str_eq,
  if◌then◌else◌,
}
use palworld_manager.Prelude.Result.{Result, ok, err}
use palworld_manager.Prelude.Dict.{Json}
use palworld_manager.Db.Enums.{LifecycleAction, JobKind, JobStatus, is_pending, is_running}
use palworld_manager.Db.Rows.{Job, MaintenanceLock, Db}
use palworld_manager.Db.Jobs.{find_job}
use palworld_manager.JobService.{mark_claimed}
use palworld_manager.JobService.Invariant.{holder, QueueInv, IsValid}
use palworld_manager.Lifecycle.Jobs.{new_job, lifecycle_coordination_key}

abbrev pub empty_db : Db
empty_db = record {
  jobs = [];
  lock = none;
  heartbeat = none;
  settings = [];
  audits = [];
  notifications = [];
  users = [];
  sessions = [];
  attempts = [];
}

abbrev pub start_job : Job
start_job =
    record (new_job 10 (JobKind.lifecycle LifecycleAction.start) lifecycle_coordination_key 1
      (("timeout_seconds", Json.int 120) ∷ [])) { id = 1 }

abbrev pub queued_db : Db
queued_db = record empty_db { jobs = start_job ∷ [] }

abbrev pub running_job : Job
running_job = mark_claimed "worker" 20 start_job

abbrev pub worker_lock : MaintenanceLock
worker_lock = record { job_id = 1; worker_id = "worker"; acquired_at = 20 }

abbrev pub running_db : Db
running_db = record empty_db { jobs = running_job ∷ []; lock = some worker_lock }

pub empty_db-IsValid : IsValid empty_db
unfolding find_job
empty_db-IsValid = record {
  ids = tt;
  lock_held = λ i j found busy. ground arith;
  lock_started = λ l j held found. ground arith;
  lock_row = λ l held. ground arith;
  keys_exclusive = λ key i k a b fa fb ha hb. ground arith;
  progress_range = λ i j found. ground arith;
}

-- A table with one row that runs and holds the lock.
pub running-QueueInv :
    (j : Job) (l : MaintenanceLock)
    → is_running j.status ≡ true
    → j.progress ≤ 100
    → l.job_id ≡ j.id
    → QueueInv (j ∷ []) (some l)
unfolding find_job
running-QueueInv j l runs small held_by = record {
  ids = (refl, tt);
  lock_held = λ i j' found busy. ground arith;
  lock_started = λ l' j' held found. ground arith;
  lock_row = λ l' held. ground arith;
  keys_exclusive = λ key i k a b fa fb ha hb. ground arith;
  progress_range = λ i j' found. ground arith;
}

-- A table with one row that does not run, without a lock.
pub resting-QueueInv :
    (j : Job) → is_running j.status ≡ false → j.progress ≤ 100 → QueueInv (j ∷ []) none
unfolding find_job
resting-QueueInv j rests small = record {
  ids = (refl, tt);
  lock_held = λ i j' found busy. ground arith;
  lock_started = λ l j' held found. ground arith;
  lock_row = λ l held. ground arith;
  keys_exclusive = λ key i k a b fa fb ha hb. ground arith;
  progress_range = λ i j' found. ground arith;
}

-- What a request that is accepted returns.
abbrev pub accepted : Result (Job × Db) → Job × Db
accepted (ok p) = p
accepted (err e) = (start_job, empty_db)
