-- ===== src/Lifecycle/Completion.antt =====
-- `execute_lifecycle_job` and `fail_lifecycle_job` of app/lifecycle/jobs.py: a job that was started
-- is ended.
use palworld_manager.Prelude.{
  ℕ, suc, ◌≤◌, ◌<◌, ◌≡◌, refl, true, false, Option, none, some, arith, ◌==◌,
}
use palworld_manager.Prelude.Result.{Error, ok, guard-eq-ok, >>=-eq-ok}
use palworld_manager.Prelude.Dict.{Json, get, or_empty}
use palworld_manager.Db.Enums.{LifecycleAction, JobKind, JobStatus, is_terminal, is_running}
use palworld_manager.Db.Rows.{Time, Job, Db}
use palworld_manager.Db.Jobs.{find_job, get_one}
use palworld_manager.Db.Jobs.Laws.{find_job-update_job}
use palworld_manager.Db.Audit.{record_audit_event}
use palworld_manager.Environment.{Environment, Clock}
use palworld_manager.JobService.Invariant.{IsValid, QueueInv-update_job}
use palworld_manager.Lifecycle.Executor.{LifecycleOutcome, LifecycleResult, poll_interval, execute}
use palworld_manager.Lifecycle.Verdict.{execute-Verdict, Verdict}
use palworld_manager.Lifecycle.Jobs.{
  lifecycle_order, job_timeout, completed_row, failed_row, complete_lifecycle_job,
  execute_lifecycle_job, fail_action, bounded_int, fail_lifecycle_job, parse_lifecycle_job_kind,
  maximum_timeout,
}

-- The row `i` has ended with this status; nothing else has changed in the queue.
pub record Ended (i : ℕ) (status : JobStatus) (db db' : Db) : Type 0 where
  pub row : Job
  pub stored : find_job i db'.jobs ≡ some row
  pub status_is : row.status ≡ status
  pub terminal : is_terminal row.status ≡ true
  pub full : row.progress ≡ 100
  pub others : (k : ℕ) → (k == i) ≡ false → find_job k db'.jobs ≡ find_job k db.jobs
  pub valid : IsValid db'

-- The status that a row has to end with.
abbrev pub final_status : LifecycleOutcome → JobStatus
final_status LifecycleOutcome.succeeded = JobStatus.succeeded
final_status LifecycleOutcome.failed = JobStatus.failed

complete-Ended :
    (action : LifecycleAction) (timeout : ℕ) (r : LifecycleResult) (i : ℕ) (now : Time) (db : Db)
    (j : Job)
    → IsValid db
    → find_job i db.jobs ≡ some j
    → Ended i (final_status r.outcome) db (complete_lifecycle_job action timeout r i now db)
unfolding complete_lifecycle_job record_audit_event
complete-Ended action timeout r i now db j v found = record {
  row = completed_row timeout r now j;
  stored =
      ground (arith, find_job-update_job i i (completed_row timeout r now) (λ x. refl) db.jobs);
  status_is = ground arith;
  terminal = ground arith;
  full = refl;
  others = λ k different.
      ground (arith, find_job-update_job k i (completed_row timeout r now) (λ x. refl) db.jobs);
  valid = QueueInv-update_job i (completed_row timeout r now) (λ x. ground arith) v;
}

pub bounded_int_range :
    (low high : ℕ) (o : Option Json) {n : ℕ}
    → bounded_int low high o ≡ ok n
    → (low ≤ n) × (n ≤ high)
bounded_int_range low high none h = ground arith
bounded_int_range low high (some (Json.int m)) h = ground arith
bounded_int_range low high (some _) h = ground arith

order_facts :
    (i : ℕ) (db : Db) (action : LifecycleAction) (timeout : ℕ)
    → lifecycle_order i db ≡ ok (action, timeout)
    → (j : Job) × (find_job i db.jobs ≡ some j) × (is_running j.status ≡ true) × (0 < timeout)
unfolding lifecycle_order job_timeout get_one
order_facts i db action timeout h =
    let (j, got, h1) = >>=-eq-ok (get_one i db.jobs) _ h in
    let (running, h2) = guard-eq-ok (is_running j.status) Error.value_error _ h1 in
    let (a, parsed, h3) = >>=-eq-ok (parse_lifecycle_job_kind j.kind) _ h2 in
    let (t, bounded, h4) = >>=-eq-ok (job_timeout j a) _ h3 in
    let range =
      bounded_int_range 1 (maximum_timeout a) (get "timeout_seconds" (or_empty j.result)) bounded in
    (j, ground arith, running, ground arith)

module _ (e : Environment) (c : Clock e) where
  -- A lifecycle job that the worker may execute (its row is running, and its kind and its timeout
  -- are good) is executed to the end: with one round of fuel for each second of its timeout and one
  -- more the call returns without an exception, with the world that the executor's run for this
  -- action and timeout has left. Its row has then ended as succeeded if that run's outcome is a
  -- success and as failed otherwise, with the progress 100, no other row has changed, and the queue
  -- is still valid. The run was refused by the service manager, timed out after all of the timeout,
  -- or ended on a health check, and a probe of the port for a stop, that saw the target.
  pub execute_lifecycle_job-Ended :
      (i : ℕ) (now : Time) (db : Db) (w : e.World) (action : LifecycleAction) (timeout : ℕ)
      → IsValid db
      → lifecycle_order i db ≡ ok (action, timeout)
      → (r : LifecycleResult) × (db' : Db) × (w' : e.World) × (execute_lifecycle_job e i now db w
          ≡ some (ok (db', w')))
        × (execute e (suc timeout) poll_interval action timeout w ≡ some (ok (r, w')))
        × Ended i (final_status r.outcome) db db'
        × Verdict e c action timeout w r w'
  unfolding execute_lifecycle_job
  execute_lifecycle_job-Ended i now db w action timeout v order =
      let (j, found, running, positive) = order_facts i db action timeout order in
      let (r, w', returned, verdict) = execute-Verdict e c action timeout w positive in
      (
        r,
        complete_lifecycle_job action timeout r i now db,
        w',
        ground arith,
        returned,
        complete-Ended action timeout r i now db j v found,
        verdict,
      )

-- A job that failed in an unexpected way is ended as failed: if its row exists and is of a
-- lifecycle kind, `fail_lifecycle_job` succeeds, whatever the row's status and result are.
pub fail_lifecycle_job-Ended :
    (i : ℕ) (now : Time) (db : Db) (j : Job) (action : LifecycleAction)
    → IsValid db
    → find_job i db.jobs ≡ some j
    → j.kind ≡ JobKind.lifecycle action
    → (db' : Db) × (fail_lifecycle_job i now db ≡ ok db') × Ended i JobStatus.failed db db'
unfolding fail_lifecycle_job get_one record_audit_event parse_lifecycle_job_kind
fail_lifecycle_job-Ended i now db j action v found kind_is = (
  fail_action action i now db,
  ground arith,
  record {
    row = failed_row now j;
    stored = ground (arith, find_job-update_job i i (failed_row now) (λ x. refl) db.jobs);
    status_is = refl;
    terminal = ground arith;
    full = refl;
    others =
        λ k different. ground (arith, find_job-update_job k i (failed_row now) (λ x. refl) db.jobs);
    valid = QueueInv-update_job i (failed_row now) (λ x. ground arith) v;
  },
)
