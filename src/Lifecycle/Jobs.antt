-- ===== src/Lifecycle/Jobs.antt =====
-- app/lifecycle/jobs.py: the queue's side of a start, a stop or a restart. `created_at` is the
-- database's CURRENT_TIMESTAMP, the other times are those of `datetime.now(UTC)`.
use palworld_manager.Prelude.{
  ℕ, Bool, true, false, ◌&&◌, String, Option, none, some, List, [], ◌∷◌, exists, leb, if◌then◌else◌,
  ltb, suc,
}
use palworld_manager.Prelude.Result.{Error, Result, ok, err, ◌>>=◌, ◌>>◌, guard, reraise_integrity}
use palworld_manager.Prelude.Dict.{Json, Dict, get, or_empty}
use palworld_manager.Db.Enums.{
  LifecycleAction, health_value, JobKind, JobStatus, JobStep, is_active, is_running, AuditAction,
  AuditResult, AuditOrigin,
}
use palworld_manager.Db.Rows.{Time, Job, Db}
use palworld_manager.Db.Jobs.{get_one, update_job, insert_job, holds_key, has_key}
use palworld_manager.Db.Audit.{event, record_audit_event}
use palworld_manager.JobService.{claim_next_job}
use palworld_manager.Environment.{Environment}
use palworld_manager.Lifecycle.Executor.{LifecycleOutcome, LifecycleResult, poll_interval, execute}

abbrev pub lifecycle_coordination_key : String
lifecycle_coordination_key = "PALWORLD_LIFECYCLE"

-- `kind LIKE 'PALWORLD_%'`
unfoldable pub is_palworld : JobKind → Bool
is_palworld (JobKind.lifecycle _) = true
is_palworld JobKind.assisted_shutdown = true
is_palworld (JobKind.forced_shutdown _) = true
is_palworld JobKind.update_check = true
is_palworld JobKind.update = true
is_palworld _ = false

abbrev pub timeout_key : LifecycleAction → String
timeout_key LifecycleAction.start = "start_timeout_seconds"
timeout_key LifecycleAction.restart = "restart_timeout_seconds"
timeout_key LifecycleAction.stop = "stop_timeout_seconds"

abbrev pub default_timeout : LifecycleAction → ℕ
default_timeout LifecycleAction.stop = 60
default_timeout _ = 120

abbrev pub maximum_timeout : LifecycleAction → ℕ
maximum_timeout LifecycleAction.stop = 300
maximum_timeout _ = 600

-- An `int` (and no `bool`) within the bounds, or ValueError.
abbrev pub bounded_int : ℕ → ℕ → Option Json → Result ℕ
bounded_int low high (some (Json.int n)) =
    if leb low n && leb n high then ok n else err Error.value_error
bounded_int low high _ = err Error.value_error

abbrev or_default : ℕ → ℕ → Option Json → Result ℕ
or_default default maximum none = ok default
or_default default maximum (some value) = bounded_int 1 maximum (some value)

unfoldable pub lifecycle_timeout : LifecycleAction → Db → Result ℕ
lifecycle_timeout action db =
    or_default (default_timeout action) (maximum_timeout action)
      (get (timeout_key action) db.settings)

-- A new row of the queue; `insert_job` gives it its id.
abbrev pub new_job : Time → JobKind → String → ℕ → Dict → Job
new_job created_at kind key user_id result = record {
  id = 0;
  created_at = created_at;
  kind = kind;
  status = JobStatus.pending;
  step = JobStep.waiting;
  progress = 0;
  is_cancellable = false;
  cancel_requested = false;
  execute_now_requested = false;
  requires_maintenance_lock = true;
  coordination_key = some key;
  requested_by_user_id = some user_id;
  claimed_by = none;
  claimed_at = none;
  started_at = none;
  finished_at = none;
  result = some result;
  log_path = none;
}

abbrev pub is_active_palworld : Job → Bool
is_active_palworld j = is_palworld j.kind && is_active j.status

unfoldable pub enqueue_lifecycle_job : LifecycleAction → ℕ → Time → Time → Db → Result (Job × Db)
enqueue_lifecycle_job action user_id created_at occurred_at db =
    if exists is_active_palworld db.jobs then err Error.lifecycle_conflict else do
      timeout_seconds ← lifecycle_timeout action db
      let details : Dict = ("timeout_seconds", Json.int timeout_seconds) ∷ []
      inserted ← reraise_integrity Error.lifecycle_conflict (
          insert_job
            (new_job created_at (JobKind.lifecycle action) lifecycle_coordination_key user_id
              details)
            db.jobs)
      ok (
        inserted.0,
        record_audit_event
            (record (event occurred_at (AuditAction.server_requested action) AuditResult.success
              AuditOrigin.administrator) {
                user_id = some user_id;
                job_id = some inserted.0.id;
                target = some "Palworld";
                details = some details;
              })
            (record db { jobs = inserted.1 }),
      )

-- ORDER BY id DESC LIMIT 1
unfoldable pub latest : (Job → Bool) → List Job → Option Job
latest p [] = none
latest p (j ∷ js) = elim (latest p js) [
  | some k ↦ if p j && ltb k.id j.id then some j else some k
  | none ↦ if p j then some j else none
]

abbrev if_interrupted : Option Job → Option Job
if_interrupted none = none
if_interrupted (some j) = elim j.status [ JobStatus.interrupted ↦ some j | _ ↦ none ]

unfoldable pub active_palworld_job : Db → Option Job
unfolding latest
active_palworld_job db = elim (latest (holds_key lifecycle_coordination_key) db.jobs) [
  | some j ↦ some j
  | none ↦
      if_interrupted (latest (λ j. has_key lifecycle_coordination_key j.coordination_key) db.jobs)
]

unfoldable pub parse_lifecycle_job_kind : JobKind → Result LifecycleAction
parse_lifecycle_job_kind (JobKind.lifecycle action) = ok action
parse_lifecycle_job_kind _ = err Error.value_error

abbrev pub lifecycle_kinds : List JobKind
lifecycle_kinds =
    JobKind.lifecycle LifecycleAction.start
    ∷ JobKind.lifecycle LifecycleAction.stop
    ∷ JobKind.lifecycle LifecycleAction.restart
    ∷ []

unfoldable pub claim_next_lifecycle_job : String → Time → Db → Result (Option Job × Db)
claim_next_lifecycle_job worker_id claimed_at db =
    claim_next_job worker_id lifecycle_kinds claimed_at db

-- `_job_timeout`
unfoldable pub job_timeout : Job → LifecycleAction → Result ℕ
job_timeout job action =
    bounded_int 1 (maximum_timeout action) (get "timeout_seconds" (or_empty job.result))

abbrev pub succeeded : LifecycleResult → Bool
succeeded r = elim r.outcome [ LifecycleOutcome.succeeded ↦ true | LifecycleOutcome.failed ↦ false ]

abbrev pub completed_row : ℕ → LifecycleResult → Time → Job → Job
completed_row timeout_seconds r finished_at j = record j {
  status = if succeeded r then JobStatus.succeeded else JobStatus.failed;
  step = if succeeded r then JobStep.completed else JobStep.failed;
  progress = 100;
  finished_at = some finished_at;
  result = some (
      ("timeout_seconds", Json.int timeout_seconds)
      ∷ ("timed_out", Json.bool r.timed_out)
      ∷ ("final_state", Json.str (health_value r.final_state))
      ∷ []);
}

-- What `execute_lifecycle_job` does with the executor's result.
unfoldable pub complete_lifecycle_job : LifecycleAction → ℕ → LifecycleResult → ℕ → Time → Db → Db
complete_lifecycle_job action timeout_seconds r job_id finished_at db =
    record_audit_event
      (record (event finished_at (AuditAction.server action)
        (if succeeded r then AuditResult.success else AuditResult.failure) AuditOrigin.system) {
          job_id = some job_id;
          target = some "Palworld";
          details = some (
              ("timed_out", Json.bool r.timed_out)
              ∷ ("final_state", Json.str (health_value r.final_state))
              ∷ []);
        })
      (record db { jobs = update_job job_id (completed_row timeout_seconds r finished_at) db.jobs })

-- The checks in front of the executor: the action and its timeout.
unfoldable pub lifecycle_order : ℕ → Db → Result (LifecycleAction × ℕ)
unfolding parse_lifecycle_job_kind job_timeout
lifecycle_order job_id db = do
  job ← get_one job_id db.jobs
  guard (is_running job.status) Error.value_error
  action ← parse_lifecycle_job_kind job.kind
  timeout_seconds ← job_timeout job action
  ok (action, timeout_seconds)

-- The fuel is one round for each second of the timeout, and one more.
module _ (e : Environment) where
  unfoldable pub execute_lifecycle_job : ℕ → Time → Db → e.World → Option (Result (Db × e.World))
  unfolding lifecycle_order complete_lifecycle_job
  execute_lifecycle_job job_id finished_at db w = elim (lifecycle_order job_id db) [
    | err x ↦ some (err x)
    | ok (action, timeout_seconds) ↦
        elim (execute e (suc timeout_seconds) poll_interval action timeout_seconds w) [
          | none ↦ none
          | some (err x) ↦ some (err x)
          | some (ok (r, w')) ↦
              some (ok (complete_lifecycle_job action timeout_seconds r job_id finished_at db, w'))
        ]
  ]

abbrev pub failed_row : Time → Job → Job
failed_row completed_at j = record j {
  status = JobStatus.failed;
  step = JobStep.failed;
  progress = 100;
  finished_at = some completed_at;
  result = some (("unexpected_failure", Json.bool true) ∷ []);
}

-- What `fail_lifecycle_job` writes once it knows the action.
abbrev pub fail_action : LifecycleAction → ℕ → Time → Db → Db
fail_action action job_id completed_at db =
    record_audit_event
      (record (event completed_at (AuditAction.server action) AuditResult.failure
        AuditOrigin.system) {
          job_id = some job_id;
          target = some "Palworld";
          details = some (("unexpected_failure", Json.bool true) ∷ []);
        })
      (record db { jobs = update_job job_id (failed_row completed_at) db.jobs })

unfoldable pub fail_lifecycle_job : ℕ → Time → Db → Result Db
unfolding parse_lifecycle_job_kind
fail_lifecycle_job job_id completed_at db = do
  job ← get_one job_id db.jobs
  action ← parse_lifecycle_job_kind job.kind
  ok (fail_action action job_id completed_at db)

pub record LifecycleJobView : Type 0 where
  pub id : ℕ
  pub action : LifecycleAction
  pub status : JobStatus
  pub progress : ℕ
  pub step : JobStep
  pub timed_out : Option Bool
  pub final_state : Option String

-- `value if isinstance(value, bool) else None`, and so on.
abbrev pub as_bool : Option Json → Option Bool
as_bool (some (Json.bool b)) = some b
as_bool _ = none

abbrev pub as_str : Option Json → Option String
as_str (some (Json.str s)) = some s
as_str _ = none

unfoldable pub lifecycle_job_view : Job → Result LifecycleJobView
unfolding parse_lifecycle_job_kind
lifecycle_job_view job = do
  action ← parse_lifecycle_job_kind job.kind
  ok (record {
    id = job.id;
    action = action;
    status = job.status;
    progress = job.progress;
    step = job.step;
    timed_out = as_bool (get "timed_out" (or_empty job.result));
    final_state = as_str (get "final_state" (or_empty job.result));
  })
