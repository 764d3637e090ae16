-- ===== src/Shutdown/Queue/Requests.antt =====
-- `enqueue_assisted_shutdown` and `enqueue_forced_shutdown` of app/shutdown/jobs.py.
use palworld_manager.Prelude.{
  ℕ, ◌≤◌, ◌≡◌, ◌≢◌, refl, Bool, true, false, not, none, some, arith, ◌==◌, exists, inl, inr,
}
use palworld_manager.Prelude.Result.{Error, ok, Result-cases, reraise-eq-ok, guard-eq-ok}
use palworld_manager.Db.Enums.{LifecycleAction, PalworldSignal, JobStatus}
use palworld_manager.Db.Rows.{Time, Job, Db}
use palworld_manager.Db.Jobs.Laws.{exists-find_job}
use palworld_manager.Db.Jobs.{get_one, find_job, insert_job, holds_key}
use palworld_manager.Db.Audit.{record_audit_event}
use palworld_manager.JobService.Invariant.{IsValid}
use palworld_manager.JobService.Insert.{insert_job-QueueInv}
use palworld_manager.JobService.Added.{insert_job-Added}
use palworld_manager.Lifecycle.Jobs.{lifecycle_timeout, lifecycle_coordination_key}
use palworld_manager.Shutdown.Executor.{is_allowed_countdown}
use palworld_manager.Shutdown.Jobs.{
  assisted_row, forced_row, is_valid_source, enqueue_assisted_shutdown, enqueue_forced_shutdown,
}
use palworld_manager.Shutdown.Jobs.Complete.{assisted_order, forced_order}
use palworld_manager.Shutdown.Queue.Escalation.{Escalates, valid-Escalates}

not-true : (b : Bool) → not b ≡ true → b ≡ false
not-true false h = refl
not-true true h = ground arith

forced_parts :
    (source_job_id : ℕ) (signal : PalworldSignal) (user_id : ℕ) (created_at occurred_at : Time)
    (db db' : Db) (job : Job)
    → enqueue_forced_shutdown source_job_id signal user_id created_at occurred_at db ≡ ok (job, db')
    → (timeout : ℕ) × (lifecycle_timeout LifecycleAction.stop db ≡ ok timeout)
      × (is_valid_source signal (find_job source_job_id db.jobs) ≡ true)
      × (exists (holds_key lifecycle_coordination_key) db.jobs ≡ false)
      × (insert_job (forced_row created_at source_job_id signal timeout user_id) db.jobs
          ≡ ok (job, db'.jobs))
      × (db'.lock ≡ db.lock)
unfolding enqueue_forced_shutdown record_audit_event
forced_parts i signal user_id created_at occurred_at db db' job h =
    let (valid, h1) =
      guard-eq-ok (is_valid_source signal (find_job i db.jobs)) Error.invalid_forced_shutdown _ h in
    let (free, h2) =
      guard-eq-ok (not (exists (holds_key lifecycle_coordination_key) db.jobs))
        Error.shutdown_conflict _ h1 in
    elim (Result-cases (lifecycle_timeout LifecycleAction.stop db)) [
      | inr (x, e) ↦ let impossible : ⊥ = ground arith in absurd impossible
      | inl (t, e) ↦
          let row = forced_row created_at i signal t user_id in
          elim (Result-cases (insert_job row db.jobs)) [
            | inr (x, f) ↦
                let impossible : ⊥ =
                  ground (arith, reraise-eq-ok Error.shutdown_conflict (insert_job row db.jobs)) in
                absurd impossible
            | inl (a, f) ↦ (t, e, valid, not-true _ free, ground arith, ground arith)
          ]
    ]

assisted_parts :
    (minutes user_id : ℕ) (created_at occurred_at : Time) (db db' : Db) (job : Job)
    → enqueue_assisted_shutdown minutes user_id created_at occurred_at db ≡ ok (job, db')
    → (timeout : ℕ) × (lifecycle_timeout LifecycleAction.stop db ≡ ok timeout)
      × (is_allowed_countdown minutes ≡ true)
      × (exists (holds_key lifecycle_coordination_key) db.jobs ≡ false)
      × (insert_job (assisted_row created_at minutes timeout user_id) db.jobs ≡ ok (job, db'.jobs))
      × (db'.lock ≡ db.lock)
unfolding enqueue_assisted_shutdown record_audit_event
assisted_parts minutes user_id created_at occurred_at db db' job h =
    let (allowed, h1) = guard-eq-ok (is_allowed_countdown minutes) Error.value_error _ h in
    let (free, h2) =
      guard-eq-ok (not (exists (holds_key lifecycle_coordination_key) db.jobs))
        Error.shutdown_conflict _ h1 in
    elim (Result-cases (lifecycle_timeout LifecycleAction.stop db)) [
      | inr (x, e) ↦ let impossible : ⊥ = ground arith in absurd impossible
      | inl (t, e) ↦
          let row = assisted_row created_at minutes t user_id in
          elim (Result-cases (insert_job row db.jobs)) [
            | inr (x, f) ↦
                let impossible : ⊥ =
                  ground (arith, reraise-eq-ok Error.shutdown_conflict (insert_job row db.jobs)) in
                absurd impossible
            | inl (a, f) ↦ (t, e, allowed, not-true _ free, ground arith, ground arith)
          ]
    ]

-- An accepted request: the row that it adds, and what it found.
pub record Accepted (db db' : Db) (job : Job) : Type 0 where
  pub valid : IsValid db'
  pub stored : find_job job.id db'.jobs ≡ some job
  pub absent : find_job job.id db.jobs ≡ none
  pub others : (i : ℕ) → i ≢ job.id → find_job i db'.jobs ≡ find_job i db.jobs
  pub waiting : job.status ≡ JobStatus.pending
  pub alone :
      (i : ℕ) (j : Job)
      → find_job i db.jobs ≡ some j
      → holds_key lifecycle_coordination_key j ≡ false

row-Accepted :
    (row : Job) (db db' : Db) {job : Job}
    → IsValid db
    → row.status ≡ JobStatus.pending
    → row.progress ≤ 100
    → exists (holds_key lifecycle_coordination_key) db.jobs ≡ false
    → db'.lock ≡ db.lock
    → insert_job row db.jobs ≡ ok (job, db'.jobs)
    → Accepted db db' job
row-Accepted row db db' {job} v pending small free lock_kept inserted =
    let added = insert_job-Added row db.jobs inserted in
    record {
      valid =
          rw lock_kept (insert_job-QueueInv row db.jobs db.lock v (ground arith) small inserted);
      stored = added.stored;
      absent = added.absent;
      others = added.others;
      waiting = ground (arith, added.job_is);
      alone =
          λ i j found. exists-find_job (holds_key lifecycle_coordination_key) i db.jobs free found;
    }

stop_timeout_range :
    (db : Db) (t : ℕ) → lifecycle_timeout LifecycleAction.stop db ≡ ok t → (1 ≤ t) × (t ≤ 300)
unfolding lifecycle_timeout
stop_timeout_range db t h = ground arith

-- An assisted shutdown that is accepted on a valid queue adds one pending row with a new id while
-- no other job holds the server's key, keeps the other rows and the queue's validity, and can be
-- cancelled exactly if it has a countdown. The minutes and the timeout that the worker will read
-- back from the row are the requested and the configured one.
pub enqueue_assisted_shutdown-Accepted :
    (minutes user_id : ℕ) (created_at occurred_at : Time) (db db' : Db) (job : Job)
    → IsValid db
    → enqueue_assisted_shutdown minutes user_id created_at occurred_at db ≡ ok (job, db')
    → Accepted db db' job
      × (job.is_cancellable ≡ not (minutes == 0))
      × ((timeout : ℕ) × (lifecycle_timeout LifecycleAction.stop db ≡ ok timeout)
          × (assisted_order job.id db' ≡ ok (minutes, timeout)))
unfolding assisted_order get_one
enqueue_assisted_shutdown-Accepted minutes user_id created_at occurred_at db db' job v h =
    let (t, configured, allowed, free, inserted, lock_kept) =
      assisted_parts minutes user_id created_at occurred_at db db' job h in
    let row = assisted_row created_at minutes t user_id in
    let added = insert_job-Added row db.jobs inserted in
    let range = stop_timeout_range db t configured in
    (
      row-Accepted row db db' v refl (omega arith) free lock_kept inserted,
      ground (arith, added.job_is),
      (t, configured, ground (arith, added.job_is, added.stored, range, allowed)),
    )

-- A forced shutdown that is accepted on a valid queue escalates: SIGTERM follows a failed stop or
-- an assisted shutdown whose stop failed, SIGKILL follows a failed SIGTERM. It adds one pending row
-- with a new id while no other job holds the server's key, keeps the other rows and the queue's
-- validity, and the worker will read the requested signal and the configured timeout back from it.
pub enqueue_forced_shutdown-Escalates :
    (source_job_id : ℕ) (signal : PalworldSignal) (user_id : ℕ) (created_at occurred_at : Time)
    (db db' : Db) (job : Job)
    → IsValid db
    → enqueue_forced_shutdown source_job_id signal user_id created_at occurred_at db ≡ ok (job, db')
    → Escalates db source_job_id signal
      × Accepted db db' job
      × ((timeout : ℕ) × (lifecycle_timeout LifecycleAction.stop db ≡ ok timeout)
          × (forced_order job.id db' ≡ ok (signal, timeout)))
unfolding forced_order get_one
enqueue_forced_shutdown-Escalates i signal user_id created_at occurred_at db db' job v h =
    let (t, configured, valid, free, inserted, lock_kept) =
      forced_parts i signal user_id created_at occurred_at db db' job h in
    let row = forced_row created_at i signal t user_id in
    let added = insert_job-Added row db.jobs inserted in
    let range = stop_timeout_range db t configured in
    (
      valid-Escalates db i signal valid,
      row-Accepted row db db' v refl (omega arith) free lock_kept inserted,
      (t, configured, ground (arith, added.job_is, added.stored, range)),
    )
