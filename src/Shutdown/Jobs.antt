-- ===== src/Shutdown/Jobs.antt =====
-- app/shutdown/jobs.py: the queue's side of an assisted and of a forced shutdown.
pub mod Control
pub mod Complete
use palworld_manager.Prelude.{
  ℕ, zero, suc, ◌+◌, ◌*◌, ◌≤◌, Bool, true, false, not, ◌&&◌, ◌||◌, String, Option, none, some, List,
  [], ◌∷◌, exists, leb, ◌==◌, str_eq, if◌then◌else◌, is_some,
}
use palworld_manager.Prelude.Result.{Error, Result, ok, err, ◌>>=◌, ◌>>◌, guard, reraise_integrity}
use palworld_manager.Prelude.Dict.{Json, Dict, get, put, or_empty}
use palworld_manager.Db.Enums.{
  LifecycleAction, PalworldSignal, signal_value, JobKind, JobStatus, JobStep, is_active, is_failed,
  is_pending, AuditAction, AuditResult, AuditOrigin,
}
use palworld_manager.Db.Rows.{Time, Job, Db}
use palworld_manager.Db.Jobs.{find_job, update_job, insert_job, holds_key}
use palworld_manager.Db.Audit.{event, record_audit_event}
use palworld_manager.JobService.{claim_next_job}
use palworld_manager.Lifecycle.Jobs.{
  lifecycle_coordination_key, lifecycle_timeout, new_job, as_str, as_bool,
}
use palworld_manager.Shutdown.Executor.{is_allowed_countdown}

abbrev checked_default : Option Json → Result ℕ
checked_default none = ok 5
checked_default (some (Json.int n)) = if is_allowed_countdown n then ok n else err Error.value_error
checked_default (some _) = err Error.value_error

unfoldable pub assisted_shutdown_default : Db → Result ℕ
assisted_shutdown_default db = checked_default (get "assisted_shutdown_default_minutes" db.settings)

-- `_ensure_no_active_palworld_job`
abbrev pub ensure_no_active_palworld_job : Db → Result (Unit {0})
ensure_no_active_palworld_job db =
    guard (not (exists (holds_key lifecycle_coordination_key) db.jobs)) Error.shutdown_conflict

abbrev pub assisted_row : Time → ℕ → ℕ → ℕ → Job
assisted_row created_at countdown_minutes timeout_seconds user_id =
    record (new_job created_at JobKind.assisted_shutdown lifecycle_coordination_key user_id (
      ("countdown_minutes", Json.int countdown_minutes)
      ∷ ("remaining_seconds", Json.int (countdown_minutes * 60))
      ∷ ("stop_timeout_seconds", Json.int timeout_seconds)
      ∷ [])) { is_cancellable = not (countdown_minutes == 0) }

unfoldable pub enqueue_assisted_shutdown : ℕ → ℕ → Time → Time → Db → Result (Job × Db)
enqueue_assisted_shutdown countdown_minutes user_id created_at occurred_at db = do
  guard (is_allowed_countdown countdown_minutes) Error.value_error
  ensure_no_active_palworld_job db
  timeout_seconds ← lifecycle_timeout LifecycleAction.stop db
  inserted ←
      reraise_integrity Error.shutdown_conflict
        (insert_job (assisted_row created_at countdown_minutes timeout_seconds user_id) db.jobs)
  ok (
    inserted.0,
    record_audit_event
        (record (event occurred_at AuditAction.assisted_shutdown_requested AuditResult.success
          AuditOrigin.administrator) {
            user_id = some user_id;
            job_id = some inserted.0.id;
            target = some "Palworld";
            details = some (("countdown_minutes", Json.int countdown_minutes) ∷ []);
          })
        (record db { jobs = inserted.1 }),
  )

abbrev pub failure_is : String → Option Dict → Bool
failure_is text_value result = elim (as_str (get "failure" (or_empty result))) [
  | none ↦ false
  | some s ↦ str_eq s text_value
]

-- A failed stop, a failed assisted shutdown that got to the stop, or before SIGKILL a failed
-- SIGTERM: `source.kind in allowed_sources` and `valid_term_source or valid_kill_source`.
abbrev pub is_source_kind : PalworldSignal → JobKind → Option Dict → Bool
is_source_kind PalworldSignal.term (JobKind.lifecycle LifecycleAction.stop) result = true
is_source_kind PalworldSignal.term JobKind.assisted_shutdown result =
    failure_is "stop_failed" result
is_source_kind PalworldSignal.kill (JobKind.forced_shutdown PalworldSignal.term) result = true
is_source_kind _ _ result = false

abbrev pub is_valid_source : PalworldSignal → Option Job → Bool
is_valid_source signal none = false
is_valid_source signal (some source) =
    is_failed source.status && is_source_kind signal source.kind source.result

abbrev pub forced_row : Time → ℕ → PalworldSignal → ℕ → ℕ → Job
forced_row created_at source_job_id signal timeout_seconds user_id =
    new_job created_at (JobKind.forced_shutdown signal) lifecycle_coordination_key user_id (
      ("source_job_id", Json.int source_job_id)
      ∷ ("timeout_seconds", Json.int timeout_seconds)
      ∷ [])

unfoldable pub enqueue_forced_shutdown :
    ℕ → PalworldSignal → ℕ → Time → Time → Db → Result (Job × Db)
enqueue_forced_shutdown source_job_id signal user_id created_at occurred_at db = do
  guard (is_valid_source signal (find_job source_job_id db.jobs)) Error.invalid_forced_shutdown
  ensure_no_active_palworld_job db
  timeout_seconds ← lifecycle_timeout LifecycleAction.stop db
  inserted ←
      reraise_integrity Error.shutdown_conflict
        (insert_job (forced_row created_at source_job_id signal timeout_seconds user_id) db.jobs)
  ok (
    inserted.0,
    record_audit_event
        (record (event occurred_at (AuditAction.forced_shutdown_requested signal)
          AuditResult.success AuditOrigin.administrator) {
            user_id = some user_id;
            job_id = some inserted.0.id;
            target = some "Palworld";
            details = some (
                ("source_job_id", Json.int source_job_id)
                ∷ ("signal", Json.str (signal_value signal))
                ∷ []);
          })
        (record db { jobs = inserted.1 }),
  )

abbrev pub is_assisted : JobKind → Bool
is_assisted JobKind.assisted_shutdown = true
is_assisted _ = false

-- Without an owner every row qualifies; SQL's `=` is not true of NULL.
abbrev pub is_owned : Option ℕ → Option ℕ → Bool
is_owned none requested_by = true
is_owned (some owner) none = false
is_owned (some owner) (some requested_by) = requested_by == owner

-- The WHERE clause of `request_shutdown_cancel`, but for the id.
abbrev pub can_cancel : Option ℕ → Job → Bool
can_cancel owner j =
    is_assisted j.kind
    && (is_active j.status
        && (j.is_cancellable && (not j.cancel_requested && is_owned owner j.requested_by_user_id)))

abbrev pub mark_cancel_requested : Job → Job
mark_cancel_requested j = record j { cancel_requested = true }

abbrev pub cancelled_row : Time → Job → Job
cancelled_row requested_at j = record j {
  status = JobStatus.cancelled;
  step = JobStep.cancelled;
  progress = 100;
  is_cancellable = false;
  finished_at = some requested_at;
  result = some (put "cancelled" (Json.bool true) (or_empty j.result));
}

-- The change and its event; the audit row of `AUDIT_ORIGIN_SYSTEM` follows where the job waited.
unfoldable pub apply_cancel : ℕ → ℕ → Time → Bool → Db → Db
apply_cancel job_id user_id requested_at waiting db =
    let requested =
      record_audit_event
        (record (event requested_at AuditAction.assisted_shutdown_cancel_requested
          AuditResult.success AuditOrigin.administrator) {
            user_id = some user_id;
            job_id = some job_id;
            target = some "Palworld";
          })
        (record db { jobs = update_job job_id mark_cancel_requested db.jobs }) in
    if waiting
    then record_audit_event
        (record (event requested_at AuditAction.assisted_shutdown AuditResult.cancelled
          AuditOrigin.system) { job_id = some job_id; target = some "Palworld" })
        (record requested { jobs = update_job job_id (cancelled_row requested_at) requested.jobs })
    else requested

unfoldable pub request_shutdown_cancel : ℕ → ℕ → Option ℕ → Time → Db → Bool × Db
unfolding apply_cancel
request_shutdown_cancel job_id user_id owner requested_at db = elim (find_job job_id db.jobs) [
  | none ↦ (false, db)
  | some j ↦
      if can_cancel owner j
      then (true, apply_cancel job_id user_id requested_at (is_pending j.status) db)
      else (false, db)
]

-- The WHERE clause of `request_shutdown_now`, but for the id.
abbrev pub can_execute_now : Option ℕ → Job → Bool
can_execute_now owner j = can_cancel owner j && not j.execute_now_requested

abbrev pub mark_execute_now : Job → Job
mark_execute_now j = record j { execute_now_requested = true }

unfoldable pub request_shutdown_now : ℕ → ℕ → Option ℕ → Time → Db → Bool × Db
request_shutdown_now job_id user_id owner occurred_at db = elim (find_job job_id db.jobs) [
  | none ↦ (false, db)
  | some j ↦
      if can_execute_now owner j
      then (
        true,
        record_audit_event
            (record (event occurred_at AuditAction.assisted_shutdown_execute_now_requested
              AuditResult.success AuditOrigin.administrator) {
                user_id = some user_id;
                job_id = some job_id;
                target = some "Palworld";
              })
            (record db { jobs = update_job job_id mark_execute_now db.jobs }),
      )
      else (false, db)
]

abbrev pub shutdown_kinds : List JobKind
shutdown_kinds =
    JobKind.assisted_shutdown
    ∷ JobKind.forced_shutdown PalworldSignal.term
    ∷ JobKind.forced_shutdown PalworldSignal.kill
    ∷ []

unfoldable pub claim_next_shutdown_job : String → Time → Db → Result (Option Job × Db)
claim_next_shutdown_job worker_id claimed_at db =
    claim_next_job worker_id shutdown_kinds claimed_at db
