-- ===== src/Shutdown/Completion.antt =====
-- `execute_forced_shutdown_job` of app/shutdown/jobs.py: a forced shutdown that was started is ended.
use palworld_manager.Prelude.{ℕ, suc, ◌≡◌, refl, Bool, true, false, some, arith}
use palworld_manager.Prelude.Result.{ok, >>=-eq-ok}
use palworld_manager.Db.Enums.{JobStatus, PalworldSignal, AuditAction, is_terminal}
use palworld_manager.Db.Rows.{Time, Job, Db}
use palworld_manager.Db.Jobs.{find_job, get_one}
use palworld_manager.Db.Jobs.Laws.{find_job-update_job}
use palworld_manager.Db.Audit.{record_audit_event}
use palworld_manager.Environment.{Environment, Clock}
use palworld_manager.JobService.Invariant.{IsValid, QueueInv-update_job}
use palworld_manager.Lifecycle.Completion.{Ended}
use palworld_manager.Notifications.{enqueue_discord_notification}
use palworld_manager.Shutdown.Executor.{ShutdownOutcome, AssistedShutdownResult, execute_forced}
use palworld_manager.Shutdown.Returns.{ForcedVerdict, execute_forced-ForcedVerdict}
use palworld_manager.Shutdown.Jobs.Complete.{
  outcome_status, finished_row, complete_shutdown_job, complete_row, forced_order,
  execute_forced_shutdown_job,
}

-- The status that a row has to end with.
abbrev pub reported : ShutdownOutcome → JobStatus
reported ShutdownOutcome.succeeded = JobStatus.succeeded
reported ShutdownOutcome.failed = JobStatus.failed
reported ShutdownOutcome.cancelled = JobStatus.cancelled

outcome_status-reported : (o : ShutdownOutcome) → outcome_status o ≡ reported o
outcome_status-reported o = ground arith

outcome_terminal : (o : ShutdownOutcome) → is_terminal (outcome_status o) ≡ true
outcome_terminal o = ground arith

pub complete_row-Ended :
    (i : ℕ) (r : AssistedShutdownResult) (audit_action : AuditAction) (notify : Bool) (now : Time)
    (db : Db) (j : Job)
    → IsValid db
    → find_job i db.jobs ≡ some j
    → Ended i (reported r.outcome) db (complete_row i r audit_action notify now db)
unfolding record_audit_event enqueue_discord_notification
complete_row-Ended i r audit_action true now db j v found = record {
  row = finished_row r now j;
  stored = ground (arith, find_job-update_job i i (finished_row r now) (λ x. refl) db.jobs);
  status_is = outcome_status-reported r.outcome;
  terminal = outcome_terminal r.outcome;
  full = refl;
  others = λ k different.
      ground (arith, find_job-update_job k i (finished_row r now) (λ x. refl) db.jobs);
  valid = QueueInv-update_job i (finished_row r now) (λ x. ground arith) v;
}
complete_row-Ended i r audit_action false now db j v found = record {
  row = finished_row r now j;
  stored = ground (arith, find_job-update_job i i (finished_row r now) (λ x. refl) db.jobs);
  status_is = outcome_status-reported r.outcome;
  terminal = outcome_terminal r.outcome;
  full = refl;
  others = λ k different.
      ground (arith, find_job-update_job k i (finished_row r now) (λ x. refl) db.jobs);
  valid = QueueInv-update_job i (finished_row r now) (λ x. ground arith) v;
}

forced_order-row :
    (i : ℕ) (db : Db) {order : PalworldSignal × ℕ}
    → forced_order i db ≡ ok order
    → (j : Job) × (find_job i db.jobs ≡ some j)
unfolding forced_order get_one
forced_order-row i db h =
    let (j, got, rest) = >>=-eq-ok (get_one i db.jobs) _ h in (j, ground arith)

module _ (e : Environment) (c : Clock e) where
  -- A forced shutdown whose signal and timeout the worker can read is executed to the end: with one
  -- round of fuel for each second of the timeout and one more the call returns without an
  -- exception, with the world that the executor's run for this signal and timeout has left. Its row
  -- has then ended as succeeded, failed or cancelled by the outcome of that run, with the progress
  -- 100, no other row has changed, and the queue is still valid. The signal could not be sent; or it
  -- was sent, and the run timed out after all of the timeout, or ended on a health check and a probe
  -- that saw the server offline and its port closed.
  pub execute_forced_shutdown_job-Ended :
      (i : ℕ) (now : Time) (db : Db) (w : e.World) (signal : PalworldSignal) (timeout : ℕ)
      → IsValid db
      → forced_order i db ≡ ok (signal, timeout)
      → (r : AssistedShutdownResult) × (db' : Db) × (w' : e.World) × (execute_forced_shutdown_job e
            i now db w
          ≡ some (ok (db', w')))
        × (execute_forced e (suc timeout) signal timeout w ≡ some (r, w'))
        × Ended i (reported r.outcome) db db'
        × ForcedVerdict e c signal timeout w r w'
  unfolding execute_forced_shutdown_job complete_shutdown_job get_one
  execute_forced_shutdown_job-Ended i now db w signal timeout v order =
      let (j, found) = forced_order-row i db order in
      let (r, w', returned, verdict) = execute_forced-ForcedVerdict e c signal timeout w in
      let action = AuditAction.forced_shutdown signal in
      (
        r,
        complete_row i r action true now db,
        w',
        ground arith,
        returned,
        complete_row-Ended i r action true now db j v found,
        verdict,
      )
