-- ===== src/Lifecycle/Requests.antt =====
-- `enqueue_lifecycle_job` of app/lifecycle/jobs.py: what a request for an action leaves behind.
use palworld_manager.Prelude.{
  ℕ, ◌≡◌, ◌≢◌, refl, true, false, none, some, List, [], ◌∷◌, ◌++◌, arith, exists, exists-append,
  inl, inr,
}
use palworld_manager.Prelude.Result.{Error, ok, err, Result-cases, reraise-eq-ok}
use palworld_manager.Prelude.Dict.{Json}
use palworld_manager.Db.Enums.{LifecycleAction, JobKind, JobStatus}
use palworld_manager.Db.Rows.{Time, Job, Db}
use palworld_manager.Db.Jobs.{find_job, insert_job}
use palworld_manager.Db.Jobs.Laws.{exists-find_job}
use palworld_manager.Db.Audit.{record_audit_event}
use palworld_manager.JobService.Invariant.{IsValid}
use palworld_manager.JobService.Insert.{insert_job-QueueInv}
use palworld_manager.JobService.Added.{insert_job-Added}
use palworld_manager.Lifecycle.Jobs.{
  is_palworld, new_job, is_active_palworld, lifecycle_timeout, lifecycle_coordination_key,
  enqueue_lifecycle_job, job_timeout,
}

-- The data of a row that was accepted: any active action on the server would have refused it.
enqueue_parts :
    (action : LifecycleAction) (user_id : ℕ) (created_at occurred_at : Time) (db db' : Db)
    (job : Job)
    → enqueue_lifecycle_job action user_id created_at occurred_at db ≡ ok (job, db')
    → (timeout_seconds : ℕ) × (exists is_active_palworld db.jobs ≡ false)
      × (lifecycle_timeout action db ≡ ok timeout_seconds)
      × (insert_job
            (new_job created_at
              (JobKind.lifecycle action)
              lifecycle_coordination_key
              user_id
              (("timeout_seconds", Json.int timeout_seconds) ∷ []))
            db.jobs
          ≡ ok (job, db'.jobs))
      × (db'.lock ≡ db.lock)
unfolding enqueue_lifecycle_job record_audit_event
enqueue_parts action user_id created_at occurred_at db db' job h =
    elim (Result-cases (lifecycle_timeout action db)) [
      | inr (x, e) ↦ let impossible : ⊥ = ground arith in absurd impossible
      | inl (t, e) ↦
          let row =
            new_job created_at (JobKind.lifecycle action) lifecycle_coordination_key user_id
              (("timeout_seconds", Json.int t) ∷ []) in
          elim (Result-cases (insert_job row db.jobs)) [
            | inr (x, f) ↦
                let impossible : ⊥ =
                  ground (arith, reraise-eq-ok Error.lifecycle_conflict (insert_job row db.jobs)) in
                absurd impossible
            | inl (a, f) ↦ (t, ground arith, e, ground arith, ground arith)
          ]
    ]

-- An accepted request, in full.
pub record Accepted (action : LifecycleAction) (db db' : Db) (job : Job) : Type 0 where
  pub valid : IsValid db'
  pub stored : find_job job.id db'.jobs ≡ some job
  pub absent : find_job job.id db.jobs ≡ none
  pub others : (i : ℕ) → i ≢ job.id → find_job i db'.jobs ≡ find_job i db.jobs
  pub waiting : job.status ≡ JobStatus.pending
  pub kind_is : job.kind ≡ JobKind.lifecycle action
  pub timeout_seconds : ℕ
  pub runnable : job_timeout job action ≡ ok timeout_seconds
  pub configured : lifecycle_timeout action db ≡ ok timeout_seconds
  pub alone : (i : ℕ) (j : Job) → find_job i db.jobs ≡ some j → is_active_palworld j ≡ false
  pub next_refused :
      (other : LifecycleAction) (user_id : ℕ) (created_at occurred_at : Time)
      → enqueue_lifecycle_job other user_id created_at occurred_at db'
        ≡ err Error.lifecycle_conflict

timeout_runs :
    (action : LifecycleAction) (db : Db) (t : ℕ) (job : Job)
    → lifecycle_timeout action db ≡ ok t
    → job.result ≡ some (("timeout_seconds", Json.int t) ∷ [])
    → job_timeout job action ≡ ok t
unfolding lifecycle_timeout job_timeout
timeout_runs action db t job configured stored = ground arith

refused_while_active :
    (db : Db) (jobs : List Job) (job : Job)
    → db.jobs ≡ jobs ++ job ∷ []
    → is_active_palworld job ≡ true
    → (other : LifecycleAction) (user_id : ℕ) (created_at occurred_at : Time)
    → enqueue_lifecycle_job other user_id created_at occurred_at db ≡ err Error.lifecycle_conflict
unfolding enqueue_lifecycle_job
refused_while_active db jobs job appended active other user_id created_at occurred_at =
    ground (arith, exists-append is_active_palworld jobs (job ∷ []))

-- A request that `enqueue_lifecycle_job` accepts on a valid queue adds one pending row with a new
-- id and the configured timeout, which the executor will accept; the other rows stay, no active
-- action on the server was there before, the queue stays valid, and on the queue that it leaves
-- every further request for a lifecycle action is refused.
pub enqueue_lifecycle_job-Accepted :
    (action : LifecycleAction) (user_id : ℕ) (created_at occurred_at : Time) (db db' : Db)
    (job : Job)
    → IsValid db
    → enqueue_lifecycle_job action user_id created_at occurred_at db ≡ ok (job, db')
    → Accepted action db db' job
unfolding is_palworld
enqueue_lifecycle_job-Accepted action user_id created_at occurred_at db db' job v h =
    let (t, free, configured, inserted, lock_kept) =
      enqueue_parts action user_id created_at occurred_at db db' job h in
    let row =
      new_job created_at (JobKind.lifecycle action) lifecycle_coordination_key user_id
        (("timeout_seconds", Json.int t) ∷ []) in
    let added = insert_job-Added row db.jobs inserted in
    record {
      valid = rw lock_kept (insert_job-QueueInv row db.jobs db.lock v refl (omega arith) inserted);
      stored = added.stored;
      absent = added.absent;
      others = added.others;
      waiting = ground (arith, added.job_is);
      kind_is = ground (arith, added.job_is);
      timeout_seconds = t;
      runnable = timeout_runs action db t job configured (ground (arith, added.job_is));
      configured = configured;
      alone = λ i j found. exists-find_job is_active_palworld i db.jobs free found;
      next_refused =
          refused_while_active db' db.jobs job added.appended (ground (arith, added.job_is));
    }
