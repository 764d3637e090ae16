-- ===== src/Shutdown/Jobs/Complete.antt =====
-- The executing and the completing half of app/shutdown/jobs.py, and the view of a job.
use palworld_manager.Prelude.{ℕ, suc, Bool, true, false, ◌&&◌, String, Option, none, some, [], ◌∷◌}
use palworld_manager.Prelude.Result.{Error, Result, ok, err, ◌>>=◌}
use palworld_manager.Prelude.Dict.{Json, get, update, or_empty}
use palworld_manager.Db.Enums.{
  PalworldSignal, PalworldHealthState, health_value, JobKind, JobStatus, JobStep, is_active,
  AuditAction, AuditResult, AuditOrigin, EventType,
}
use palworld_manager.Db.Rows.{Time, Job, Db}
use palworld_manager.Db.Jobs.{get_one, update_job}
use palworld_manager.Db.Audit.{event, record_audit_event}
use palworld_manager.Environment.{Environment}
use palworld_manager.Notifications.{enqueue_discord_notification}
use palworld_manager.Lifecycle.Jobs.{bounded_int, as_bool, as_str}
use palworld_manager.Shutdown.Executor.{
  ShutdownOutcome, AssistedShutdownResult, execute_assisted, execute_forced,
}
use palworld_manager.Shutdown.Jobs.Control.{Others, database_control}

abbrev pub outcome_status : ShutdownOutcome → JobStatus
outcome_status ShutdownOutcome.succeeded = JobStatus.succeeded
outcome_status ShutdownOutcome.failed = JobStatus.failed
outcome_status ShutdownOutcome.cancelled = JobStatus.cancelled

abbrev pub outcome_step : ShutdownOutcome → JobStep
outcome_step ShutdownOutcome.succeeded = JobStep.completed
outcome_step ShutdownOutcome.failed = JobStep.failed
outcome_step ShutdownOutcome.cancelled = JobStep.cancelled

abbrev pub outcome_audit : ShutdownOutcome → AuditResult
outcome_audit ShutdownOutcome.succeeded = AuditResult.success
outcome_audit ShutdownOutcome.failed = AuditResult.failure
outcome_audit ShutdownOutcome.cancelled = AuditResult.cancelled

abbrev pub json_int : Option ℕ → Json
json_int none = Json.null
json_int (some n) = Json.int n

abbrev pub json_str : Option String → Json
json_str none = Json.null
json_str (some s) = Json.str s

abbrev pub json_state : Option PalworldHealthState → Json
json_state none = Json.null
json_state (some state) = Json.str (health_value state)

abbrev pub finished_row : AssistedShutdownResult → Time → Job → Job
finished_row r finished_at j = record j {
  status = outcome_status r.outcome;
  step = outcome_step r.outcome;
  progress = 100;
  is_cancellable = false;
  finished_at = some finished_at;
  result = some (
      update (or_empty j.result) (
        ("online_players", json_int r.online_players)
        ∷ ("timed_out", Json.bool r.timed_out)
        ∷ ("final_state", json_state r.final_state)
        ∷ ("failure", json_str r.failure)
        ∷ []));
}

abbrev notify_if : Bool → ℕ → Time → Db → Db
notify_if true job_id now db =
    enqueue_discord_notification EventType.forced_shutdown (some job_id) now db
notify_if false job_id now db = db

-- The body of `_complete_shutdown_job` once the row is there; the notification's `created_at` is
-- read from the clock after `finished_at`, the model gives both the same time.
abbrev pub complete_row : ℕ → AssistedShutdownResult → AuditAction → Bool → Time → Db → Db
complete_row job_id r audit_action notify_forced_shutdown finished_at db =
    notify_if notify_forced_shutdown job_id finished_at (
      record_audit_event
        (record (event finished_at audit_action (outcome_audit r.outcome) AuditOrigin.system) {
          job_id = some job_id;
          target = some "Palworld";
          details = some (
              ("timed_out", Json.bool r.timed_out)
              ∷ ("final_state", json_state r.final_state)
              ∷ ("failure", json_str r.failure)
              ∷ []);
        })
        (record db { jobs = update_job job_id (finished_row r finished_at) db.jobs }))

-- `_complete_shutdown_job`
unfoldable pub complete_shutdown_job :
    ℕ → AssistedShutdownResult → AuditAction → Bool → Time → Db → Result Db
complete_shutdown_job job_id r audit_action notify_forced_shutdown finished_at db = do
  job ← get_one job_id db.jobs
  ok (complete_row job_id r audit_action notify_forced_shutdown finished_at db)

-- The two settings in front of the executor: minutes and timeout.
unfoldable pub assisted_order : ℕ → Db → Result (ℕ × ℕ)
assisted_order job_id db = do
  job ← get_one job_id db.jobs
  minutes ← bounded_int 0 10 (get "countdown_minutes" (or_empty job.result))
  timeout ← bounded_int 1 300 (get "stop_timeout_seconds" (or_empty job.result))
  ok (minutes, timeout)

-- `ShutdownJobKind(job.kind)`
abbrev pub shutdown_signal : JobKind → Result PalworldSignal
shutdown_signal (JobKind.forced_shutdown PalworldSignal.term) = ok PalworldSignal.term
shutdown_signal (JobKind.forced_shutdown PalworldSignal.kill) = ok PalworldSignal.kill
shutdown_signal JobKind.assisted_shutdown = ok PalworldSignal.kill
shutdown_signal _ = err Error.value_error

unfoldable pub forced_order : ℕ → Db → Result (PalworldSignal × ℕ)
forced_order job_id db = do
  job ← get_one job_id db.jobs
  signal ← shutdown_signal job.kind
  timeout ← bounded_int 1 300 (get "timeout_seconds" (or_empty job.result))
  ok (signal, timeout)

module _ (e : Environment) where
  -- The fuel is one round for each second of the timeout, and one more.
  unfoldable pub execute_assisted_shutdown_job :
      ℕ → Time → Others → Db → e.World → Option (Result (Db × e.World))
  unfolding assisted_order complete_shutdown_job
  execute_assisted_shutdown_job job_id finished_at others db w = elim (assisted_order job_id db) [
    | err x ↦ some (err x)
    | ok (minutes, timeout) ↦
        elim (execute_assisted e (database_control job_id) (suc timeout) minutes timeout w
          (others, db)) [
            | none ↦ none
            | some (err x) ↦ some (err x)
            | some (ok (r, w', (later, db'))) ↦ some (do
              done ←
                  complete_shutdown_job job_id r AuditAction.assisted_shutdown false finished_at db'
              ok (done, w'))
          ]
  ]

  unfoldable pub execute_forced_shutdown_job :
      ℕ → Time → Db → e.World → Option (Result (Db × e.World))
  unfolding forced_order complete_shutdown_job
  execute_forced_shutdown_job job_id finished_at db w = elim (forced_order job_id db) [
    | err x ↦ some (err x)
    | ok (signal, timeout) ↦ elim (execute_forced e (suc timeout) signal timeout w) [
      | none ↦ none
      | some (r, w') ↦ some (do
        done ←
            complete_shutdown_job job_id r (AuditAction.forced_shutdown signal) true finished_at db
        ok (done, w'))
    ]
  ]

abbrev pub unexpected_failure : AssistedShutdownResult
unexpected_failure = record {
  outcome = ShutdownOutcome.failed;
  online_players = none;
  timed_out = false;
  final_state = some PalworldHealthState.failure;
  failure = some "unexpected_failure";
}

unfoldable pub fail_shutdown_job : ℕ → Time → Db → Result Db
unfolding complete_shutdown_job
fail_shutdown_job job_id finished_at db =
    complete_shutdown_job job_id unexpected_failure AuditAction.shutdown false finished_at db

pub record ShutdownJobView : Type 0 where
  pub id : ℕ
  pub requested_by_user_id : Option ℕ
  pub kind : JobKind
  pub status : JobStatus
  pub progress : ℕ
  pub step : JobStep
  pub is_cancellable : Bool
  pub remaining_seconds : Option Json
  pub timed_out : Option Bool
  pub final_state : Option String
  pub failure : Option String

abbrev as_int : Option Json → Option Json
as_int (some (Json.int n)) = some (Json.int n)
as_int (some (Json.negative n)) = some (Json.negative n)
as_int (some (Json.bool b)) = some (Json.bool b)
as_int _ = none

-- In Python a `bool` is an `int` too, so `isinstance(remaining, int)` lets one through.
unfoldable pub shutdown_job_view : Job → Result ShutdownJobView
shutdown_job_view job = do
  signal ← shutdown_signal job.kind
  ok (record {
    id = job.id;
    requested_by_user_id = job.requested_by_user_id;
    kind = job.kind;
    status = job.status;
    progress = job.progress;
    step = job.step;
    is_cancellable = job.is_cancellable && is_active job.status;
    remaining_seconds = as_int (get "remaining_seconds" (or_empty job.result));
    timed_out = as_bool (get "timed_out" (or_empty job.result));
    final_state = as_str (get "final_state" (or_empty job.result));
    failure = as_str (get "failure" (or_empty job.result));
  })
