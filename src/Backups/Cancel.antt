-- ===== src/Backups/Cancel.antt =====
-- app/backups/jobs.py: a request to cancel a backup against the worker's next checkpoint.
use palworld_manager.Prelude.{
  ℕ, ◌≡◌, refl, Bool, true, false, some, arith, Option-cases, Bool-cases, inl, inr, String, subst,
  sym,
}
use palworld_manager.Prelude.Result.{Error, ok, err}
use palworld_manager.Db.Enums.{JobStatus, JobStep, is_running}
use palworld_manager.Db.Rows.{Time, Job, Db}
use palworld_manager.Db.Jobs.{find_job, get_one}
use palworld_manager.Db.Jobs.Laws.{find_job-update_job}
use palworld_manager.Db.Audit.{record_audit_event}
use palworld_manager.JobService.Invariant.{IsValid, AllQuiet, QueueInv-update_job}
use palworld_manager.Lifecycle.Completion.{Ended}
use palworld_manager.Backups.{
  request_backup_cancel, can_cancel_backup, with_cancel_requested, checkpoint, end_cancelled,
  apply_backup_cancel, cancelled_backup, record_cancelled,
}

request_backup_cancel-is :
    (i user_id : ℕ) (now : Time) (db : Db) (j : Job)
    → find_job i db.jobs ≡ some j
    → can_cancel_backup j ≡ true
    → (request_backup_cancel i user_id now db).1 ≡ apply_backup_cancel i user_id now db
unfolding request_backup_cancel
request_backup_cancel-is i user_id now db j found allowed = ground arith

cancelled_request :
    (i user_id : ℕ) (now : Time) (db : Db)
    → (request_backup_cancel i user_id now db).0 ≡ true
    → (j : Job) × (find_job i db.jobs ≡ some j)
      × (can_cancel_backup j ≡ true)
      × (find_job i (request_backup_cancel i user_id now db).1.jobs
          ≡ some (with_cancel_requested j))
unfolding request_backup_cancel record_audit_event
cancelled_request i user_id now db h = elim (Option-cases (find_job i db.jobs)) [
  | inl e ↦ let impossible : ⊥ = ground arith in absurd impossible
  | inr (j, e) ↦ elim (Bool-cases (can_cancel_backup j)) [
    | inr f ↦ let impossible : ⊥ = ground arith in absurd impossible
    | inl f ↦
        (j, e, f, ground (arith, find_job-update_job i i with_cancel_requested (λ x. refl) db.jobs))
  ]
]

with_cancel_requested-quiet : AllQuiet with_cancel_requested
with_cancel_requested-quiet j = ground arith

apply_backup_cancel-IsValid :
    (i user_id : ℕ) (now : Time) (db : Db)
    → IsValid db
    → IsValid (apply_backup_cancel i user_id now db)
unfolding record_audit_event
apply_backup_cancel-IsValid i user_id now db v =
    QueueInv-update_job i with_cancel_requested with_cancel_requested-quiet v

cancelled_row-quiet : (now : Time) → AllQuiet (cancelled_backup now)
cancelled_row-quiet now j = ground arith

end_cancelled-Ended :
    (i : ℕ) (trigger : String) (now : Time) (db : Db) (j : Job)
    → IsValid db
    → find_job i db.jobs ≡ some j
    → (db' : Db) × (end_cancelled i trigger now db ≡ ok db') × Ended i JobStatus.cancelled db db'
unfolding end_cancelled get_one record_audit_event
end_cancelled-Ended i trigger now db j v found =
    let ending = cancelled_backup now in
    (
      record_cancelled i trigger now db,
      ground arith,
      record {
        row = ending j;
        stored = ground (arith, find_job-update_job i i ending (λ x. refl) db.jobs);
        status_is = refl;
        terminal = refl;
        full = refl;
        others = λ k different. ground (arith, find_job-update_job k i ending (λ x. refl) db.jobs);
        valid = QueueInv-update_job i ending (cancelled_row-quiet now) v;
      },
    )

-- A request to cancel a running backup that was accepted takes effect at once, on a valid queue:
-- whatever step the worker reports next, the checkpoint raises the cancellation and changes
-- nothing; a second request is refused; and the worker's answer to the cancellation succeeds, ends
-- the row as cancelled with the progress 100, changes no other row and keeps the queue valid.
pub request_backup_cancel-stops :
    (i user_id : ℕ) (now : Time) (db : Db) (j : Job)
    → IsValid db
    → find_job i db.jobs ≡ some j
    → is_running j.status ≡ true
    → (request_backup_cancel i user_id now db).0 ≡ true
    → let db' = (request_backup_cancel i user_id now db).1 in
      ((step : JobStep) (progress : ℕ) (cancellable : Bool)
        → checkpoint i step progress cancellable db' ≡ err Error.backup_cancelled)
      × ((other : ℕ) (later : Time) → request_backup_cancel i other later db' ≡ (false, db'))
      × ((trigger : String) (later : Time)
          → (db2 : Db) × (end_cancelled i trigger later db' ≡ ok db2)
            × Ended i JobStatus.cancelled db' db2)
unfolding checkpoint get_one request_backup_cancel
request_backup_cancel-stops i user_id now db j valid found running accepted =
    let (k, there, allowed, after) = cancelled_request i user_id now db accepted in
    let valid' : IsValid (request_backup_cancel i user_id now db).1 =
      subst IsValid (sym (request_backup_cancel-is i user_id now db k there allowed))
        (apply_backup_cancel-IsValid i user_id now db valid) in
    (
      λ step progress cancellable. ground (arith, after),
      λ other later. ground (arith, after),
      λ trigger later.
          end_cancelled-Ended i trigger later (request_backup_cancel i user_id now db).1
            (with_cancel_requested k) valid' after,
    )
