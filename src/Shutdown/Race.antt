-- ===== src/Shutdown/Race.antt =====
-- app/shutdown/jobs.py: a request to cancel against the worker's `mark_irreversible`.
pub mod Keeps
use palworld_manager.Prelude.{
  ℕ, ◌≡◌, ◌≢◌, refl, Bool, true, false, not, ◌&&◌, Option, none, some, arith, ◌==◌, if◌then◌else◌,
  Bool-cases, Option-cases, inl, inr, ◌⊎◌, List, [], ◌∷◌, map,
}
use mathlib.Core.Option
use palworld_manager.Prelude.Result.{
  Result, ok, err, ◌>>=◌, ◌>>◌, guard, Result-cases, reraise-eq-ok,
}
use palworld_manager.Db.Enums.{JobStatus, is_active, is_pending, AuditAction}
use palworld_manager.Db.Rows.{Time, Job, Db}
use palworld_manager.Db.Jobs.{find_job, get_one, edit_if, update_job}
use palworld_manager.Db.Jobs.Laws.{find_job-update_job}
use palworld_manager.Db.Audit.{record_audit_event}
use palworld_manager.Shutdown.Race.Keeps.{
  Promise, Transaction, commit_all, commit_all-Keeps, cancel-cases,
}
use palworld_manager.Notifications.{enqueue_discord_notification}
use palworld_manager.Shutdown.Executor.{CountdownDirective, AssistedShutdownResult}
use palworld_manager.Shutdown.Jobs.{
  can_cancel, mark_cancel_requested, cancelled_row, mark_execute_now, apply_cancel,
  request_shutdown_cancel, request_shutdown_now, can_execute_now,
}
use palworld_manager.Shutdown.Jobs.Control.{
  irreversible_row, countdown_row, update_countdown, mark_irreversible,
}
use palworld_manager.Shutdown.Jobs.Complete.{finished_row, complete_shutdown_job}

applied_after :
    (k user_id : ℕ) (now : Time) (waiting : Bool) (db : Db) (j : Job)
    → find_job k db.jobs ≡ some j
    → (j' : Job) × (find_job k (apply_cancel k user_id now waiting db).jobs ≡ some j')
      × (j'.cancel_requested ≡ true)
unfolding apply_cancel record_audit_event
applied_after k user_id now true db j found =
    let asked = update_job k mark_cancel_requested db.jobs in
    (
      cancelled_row now (mark_cancel_requested j),
      ground (
        arith,
        find_job-update_job k k mark_cancel_requested (λ x. refl) db.jobs,
        find_job-update_job k k (cancelled_row now) (λ x. refl) asked,
      ),
      refl,
    )
applied_after k user_id now false db j found = (
  mark_cancel_requested j,
  ground (arith, find_job-update_job k k mark_cancel_requested (λ x. refl) db.jobs),
  refl,
)

requested_after :
    (k user_id : ℕ) (owner : Option ℕ) (now : Time) (db : Db)
    → (request_shutdown_cancel k user_id owner now db).0 ≡ true
    → (j : Job) × (find_job k (request_shutdown_cancel k user_id owner now db).1.jobs ≡ some j)
      × (j.cancel_requested ≡ true)
requested_after k user_id owner now db accepted = elim (cancel-cases k user_id owner now db) [
  | inl e ↦ let impossible : ⊥ = ground arith in absurd impossible
  | inr (j, found, f, e) ↦
      let (j', found', asked) = applied_after k user_id now (is_pending j.status) db j found in
      (j', ground arith, asked)
]

-- A request to cancel that was accepted wins: after any sequence of requests to cancel or to go
-- ahead, countdown updates, `mark_irreversible` calls and completions, on any jobs, the worker that
-- wants to make that shutdown irreversible is told to cancel, and it changes nothing.
pub cancel_wins :
    (job_id user_id : ℕ) (owner : Option ℕ) (now : Time) (ts : List Transaction) (db : Db)
    → (request_shutdown_cancel job_id user_id owner now db).0 ≡ true
    → let later = commit_all ts (request_shutdown_cancel job_id user_id owner now db).1 in
      mark_irreversible job_id later ≡ ok (CountdownDirective.cancel, later)
unfolding mark_irreversible get_one
cancel_wins job_id user_id owner now ts db accepted =
    let asked = (request_shutdown_cancel job_id user_id owner now db).1 in
    let (j, found, requested) = requested_after job_id user_id owner now db accepted in
    let (j', found', kept) = commit_all-Keeps ts asked job_id j found in
    ground (arith, kept.keeps_request requested)

ended_after :
    (k : ℕ) (db db' : Db)
    → mark_irreversible k db ≡ ok (CountdownDirective.continue, db')
    → (j : Job) × (find_job k db'.jobs ≡ some j) × (j.is_cancellable ≡ false)
unfolding mark_irreversible get_one
ended_after k db db' h = elim (Option-cases (find_job k db.jobs)) [
  | inl e ↦ let impossible : ⊥ = ground arith in absurd impossible
  | inr (j, e) ↦ (
    irreversible_row j,
    ground (arith, find_job-update_job k k irreversible_row (λ x. refl) db.jobs),
    refl,
  )
]

-- An irreversible shutdown stays one: once the worker was told to continue, and after any sequence
-- of requests to cancel or to go ahead, countdown updates, `mark_irreversible` calls and
-- completions, on any jobs, a request to cancel it is refused and changes nothing.
pub irreversible_wins :
    (job_id user_id : ℕ) (owner : Option ℕ) (now : Time) (ts : List Transaction) (db db' : Db)
    → mark_irreversible job_id db ≡ ok (CountdownDirective.continue, db')
    → request_shutdown_cancel job_id user_id owner now (commit_all ts db')
      ≡ (false, commit_all ts db')
unfolding mark_irreversible get_one request_shutdown_cancel
irreversible_wins job_id user_id owner now ts db db' h =
    let (j, found, ended) = ended_after job_id db db' h in
    let (j', found', kept) = commit_all-Keeps ts db' job_id j found in
    ground (arith, kept.keeps_end ended)
