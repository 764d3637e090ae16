-- ===== src/Backups.antt =====
-- app/backups/jobs.py: asking for a local backup, cancelling it, and the ends of its job.
pub mod Cancel
pub mod Scheduler
pub mod Retention
pub mod Newest
use palworld_manager.Prelude.{
  ℕ, Bool, true, false, not, ◌&&◌, ◌||◌, String, Option, none, some, List, [], ◌∷◌, exists, ltb,
  str_eq, is_some, if◌then◌else◌,
}
use palworld_manager.Prelude.Result.{Error, Result, ok, err, ◌>>=◌, ◌>>◌, guard, reraise_integrity}
use palworld_manager.Prelude.Dict.{Json, Dict, get, or_empty}
use palworld_manager.Db.Enums.{
  JobKind, kind_value, JobStatus, JobStep, is_active, is_running, AuditAction, AuditResult,
  AuditOrigin, EventType,
}
use palworld_manager.Db.Rows.{Time, Job, Db}
use palworld_manager.Db.Jobs.{find_job, get_one, update_job, insert_job, holds_key}
use palworld_manager.Db.Audit.{event, record_audit_event}
use palworld_manager.Notifications.{enqueue_discord_notification}
use palworld_manager.Lifecycle.Jobs.{new_job, as_str}

abbrev pub local_backup_coordination_key : String
local_backup_coordination_key = "LOCAL_BACKUP"

abbrev pub is_trigger : String → Bool
is_trigger trigger = str_eq trigger "MANUAL" || str_eq trigger "AUTOMATIC"

abbrev pub trigger_details : String → Dict
trigger_details trigger = ("trigger", Json.str trigger) ∷ []

abbrev pub backup_row : Time → String → Job
backup_row created_at trigger =
    record (new_job created_at JobKind.local_backup local_backup_coordination_key 0
      (trigger_details trigger)) { requested_by_user_id = none; is_cancellable = true }

abbrev backup_origin : Option ℕ → String → AuditOrigin
backup_origin (some user_id) trigger = AuditOrigin.administrator
backup_origin none trigger =
    if str_eq trigger "AUTOMATIC" then AuditOrigin.automatic else AuditOrigin.system

unfoldable pub enqueue_local_backup : Option ℕ → String → Time → Time → Db → Result (Job × Db)
enqueue_local_backup user_id trigger created_at occurred_at db = do
  guard (is_trigger trigger) Error.value_error
  guard (not (exists (holds_key local_backup_coordination_key) db.jobs)) Error.backup_conflict
  inserted ←
      reraise_integrity Error.backup_conflict (insert_job (backup_row created_at trigger) db.jobs)
  ok (
    inserted.0,
    record_audit_event
        (record (event occurred_at AuditAction.backup_requested AuditResult.success
          (backup_origin user_id trigger)) {
            user_id = user_id;
            job_id = some inserted.0.id;
            target = some "Backup local";
            details = some (trigger_details trigger);
          })
        (record db { jobs = inserted.1 }),
  )

abbrev pub is_local_backup : JobKind → Bool
is_local_backup JobKind.local_backup = true
is_local_backup _ = false

-- The WHERE clause of `request_backup_cancel`, less the id.
abbrev pub can_cancel_backup : Job → Bool
can_cancel_backup j =
    is_local_backup j.kind && (is_active j.status && (j.is_cancellable && not j.cancel_requested))

abbrev pub with_cancel_requested : Job → Job
with_cancel_requested j = record j { cancel_requested = true }

abbrev pub apply_backup_cancel : ℕ → ℕ → Time → Db → Db
apply_backup_cancel job_id user_id occurred_at db =
    record_audit_event
      (record (event occurred_at AuditAction.backup_cancel_requested AuditResult.success
        AuditOrigin.administrator) {
          user_id = some user_id;
          job_id = some job_id;
          target = some "Backup local";
        })
      (record db { jobs = update_job job_id with_cancel_requested db.jobs })

unfoldable pub request_backup_cancel : ℕ → ℕ → Time → Db → Bool × Db
request_backup_cancel job_id user_id occurred_at db = elim (find_job job_id db.jobs) [
  | none ↦ (false, db)
  | some j ↦
      if can_cancel_backup j
      then (true, apply_backup_cancel job_id user_id occurred_at db)
      else (false, db)
]

-- `_job_trigger`
unfoldable pub job_trigger : Job → Result String
job_trigger job = do
  guard (is_local_backup job.kind && is_running job.status) Error.value_error
  elim (as_str (get "trigger" (or_empty job.result))) [
    | none ↦ err Error.value_error
    | some trigger ↦ if is_trigger trigger then ok trigger else err Error.value_error
  ]

abbrev pub checkpoint_row : JobStep → ℕ → Bool → Job → Job
checkpoint_row step progress cancellable j = record j {
  step = step;
  progress = progress;
  is_cancellable = cancellable;
}

-- `_checkpoint`, one transaction of its own.
unfoldable pub checkpoint : ℕ → JobStep → ℕ → Bool → Db → Result Db
checkpoint job_id step progress cancellable db = do
  job ← get_one job_id db.jobs
  guard (is_running job.status) Error.runtime_error
  guard (not (job.cancel_requested && job.is_cancellable)) Error.backup_cancelled
  ok (record db { jobs = update_job job_id (checkpoint_row step progress cancellable) db.jobs })

abbrev or_manual : Option Json → Json
or_manual none = Json.str "MANUAL"
or_manual (some v) = v

-- `_finish_failed_job`
abbrev pub finished_failed : JobStatus → JobStep → String → Time → Job → Job
finished_failed status step error completed_at j = record j {
  status = status;
  step = step;
  progress = 100;
  is_cancellable = false;
  finished_at = some completed_at;
  result =
      some (
        ("trigger", or_manual (get "trigger" (or_empty j.result)))
        ∷ ("error", Json.str error)
        ∷ []);
}

abbrev pub cancelled_backup : Time → Job → Job
cancelled_backup = finished_failed JobStatus.cancelled JobStep.cancelled "CANCELLED"

abbrev pub record_cancelled : ℕ → String → Time → Db → Db
record_cancelled job_id trigger completed_at db =
    record_audit_event
      (record (event completed_at AuditAction.backup AuditResult.cancelled AuditOrigin.system) {
        job_id = some job_id;
        target = some "Backup local";
        details = some (trigger_details trigger);
      })
      (record db { jobs = update_job job_id (cancelled_backup completed_at) db.jobs })

-- The `except BackupCancelledError` block of `execute`.
unfoldable pub end_cancelled : ℕ → String → Time → Db → Result Db
end_cancelled job_id trigger completed_at db = do
  job ← get_one job_id db.jobs
  ok (record_cancelled job_id trigger completed_at db)

abbrev notify_automatic : String → ℕ → Time → Db → Db
notify_automatic trigger job_id now db =
    if str_eq trigger "AUTOMATIC"
    then enqueue_discord_notification EventType.backup_failed (some job_id) now db
    else db

-- The session of the `except Exception` block of `execute`.
unfoldable pub end_failed : ℕ → String → Time → Db → Result Db
end_failed job_id trigger completed_at db = do
  job ← get_one job_id db.jobs
  ok (
      notify_automatic trigger job_id completed_at (
        record_audit_event
          (record (event completed_at AuditAction.backup AuditResult.failure AuditOrigin.system) {
            job_id = some job_id;
            target = some "Backup local";
            details =
                some (("error", Json.str "BACKUP_FAILED") ∷ ("trigger", Json.str trigger) ∷ []);
          })
          (record db {
            jobs =
                update_job job_id
                  (finished_failed JobStatus.failed JobStep.failed "BACKUP_FAILED" completed_at)
                  db.jobs;
          })))

pub record BackupJobView : Type 0 where
  pub id : ℕ
  pub status : JobStatus
  pub step : JobStep
  pub progress : ℕ
  pub is_cancellable : Bool
  pub trigger : String
  pub error : Option String

abbrev trigger_or_manual : Option String → String
trigger_or_manual none = "MANUAL"
trigger_or_manual (some trigger) = trigger

unfoldable pub backup_job_view : Job → Result BackupJobView
backup_job_view job = do
  guard (is_local_backup job.kind) Error.value_error
  ok (record {
    id = job.id;
    status = job.status;
    step = job.step;
    progress = job.progress;
    is_cancellable = job.is_cancellable;
    trigger = trigger_or_manual (as_str (get "trigger" (or_empty job.result)));
    error = as_str (get "error" (or_empty job.result));
  })

abbrev later_job : Job → Option Job → Job
later_job j none = j
later_job j (some k) = if ltb j.id k.id then k else j

-- ORDER BY id DESC LIMIT 1
unfoldable pub latest_backup_job : List Job → Option Job
latest_backup_job [] = none
latest_backup_job (j ∷ js) =
    let rest = latest_backup_job js in
    if is_local_backup j.kind then some (later_job j rest) else rest
