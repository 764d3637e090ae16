-- ===== src/HostPower.antt =====
-- app/host_power/jobs.py: rebooting and powering off the host, after the server is stopped.
pub mod Executor
pub mod Rows
pub mod Laws
use palworld_manager.Prelude.{
  ℕ, suc, Bool, true, false, not, ◌&&◌, ◌||◌, String, Option, none, some, List, [], ◌∷◌, exists,
  ◌==◌, ltb, str_eq, if◌then◌else◌,
}
use palworld_manager.Prelude.Result.{Error, Result, ok, err, ◌>>=◌, ◌>>◌, guard, reraise_integrity}
use palworld_manager.Prelude.Dict.{Json, Dict, get, update, or_empty}
use palworld_manager.Db.Enums.{
  LifecycleAction, HostPowerAction, PalworldHealthState, health_value, JobKind, JobStatus, JobStep,
  is_active, is_running, AuditAction, AuditResult, AuditOrigin,
}
use palworld_manager.Db.Rows.{Time, Job, Db}
use palworld_manager.Db.Jobs.{get_one, update_job, insert_job, holds_key}
use palworld_manager.Db.Audit.{event, record_audit_event}
use palworld_manager.Environment.{Environment}
use palworld_manager.Lifecycle.Executor.{is_offline}
use palworld_manager.Lifecycle.Jobs.{lifecycle_timeout, new_job, bounded_int, as_str}
use palworld_manager.Shutdown.Executor.{
  CountdownDirective, CountdownControl, ShutdownOutcome, AssistedShutdownResult, execute_assisted,
}
use palworld_manager.Shutdown.Jobs.Complete.{json_state, json_str}

abbrev pub host_power_coordination_key : String
host_power_coordination_key = "HOST_POWER"

abbrev pub host_power_confirmation : HostPowerAction → String
host_power_confirmation HostPowerAction.reboot = "REINICIAR UBUNTU"
host_power_confirmation HostPowerAction.shutdown = "DESLIGAR UBUNTU"

abbrev pub host_power_row : Time → HostPowerAction → ℕ → Job
host_power_row created_at action timeout_seconds =
    record (new_job created_at (JobKind.host_power action) host_power_coordination_key 0
      (("stop_timeout_seconds", Json.int timeout_seconds) ∷ [])) { requested_by_user_id = none }

unfoldable pub enqueue_host_power_job :
    HostPowerAction → String → ℕ → Time → Time → Db → Result (Job × Db)
enqueue_host_power_job action confirmation user_id created_at occurred_at db = do
  guard (str_eq confirmation (host_power_confirmation action)) Error.host_power_request
  guard (not (exists (holds_key host_power_coordination_key) db.jobs)) Error.host_power_conflict
  timeout_seconds ← lifecycle_timeout LifecycleAction.stop db
  inserted ←
      reraise_integrity Error.host_power_conflict
        (insert_job (host_power_row created_at action timeout_seconds) db.jobs)
  ok (
    inserted.0,
    record_audit_event
        (record (event occurred_at (AuditAction.host_requested action) AuditResult.success
          AuditOrigin.administrator) {
            user_id = some user_id;
            job_id = some inserted.0.id;
            target = some "Ubuntu";
          })
        (record db { jobs = inserted.1 }),
  )

unfoldable pub parse_host_power_job_kind : JobKind → Result HostPowerAction
parse_host_power_job_kind (JobKind.host_power action) = ok action
parse_host_power_job_kind _ = err Error.value_error

abbrev is_host_power : JobKind → Bool
is_host_power (JobKind.host_power _) = true
is_host_power _ = false

abbrev newer_job : Job → Option Job → Job
newer_job j none = j
newer_job j (some k) =
    if ltb j.created_at k.created_at || (j.created_at == k.created_at && ltb j.id k.id)
    then k
    else j

-- ORDER BY created_at DESC, id DESC LIMIT 1
unfoldable pub latest_host_power_job : List Job → Option Job
latest_host_power_job [] = none
latest_host_power_job (j ∷ js) =
    let rest = latest_host_power_job js in
    if is_host_power j.kind then some (newer_job j rest) else rest

-- `_stop_timeout`
abbrev pub stop_timeout : Job → Result ℕ
stop_timeout job = bounded_int 1 300 (get "stop_timeout_seconds" (or_empty job.result))

-- The checks of the first session of `execute`.
unfoldable pub host_power_order : ℕ → Db → Result (HostPowerAction × ℕ)
unfolding parse_host_power_job_kind
host_power_order job_id db = do
  job ← get_one job_id db.jobs
  guard (is_running job.status) Error.value_error
  action ← parse_host_power_job_kind job.kind
  timeout_seconds ← stop_timeout job
  ok (action, timeout_seconds)

-- What `_complete` is told.
pub record HostPowerReport : Type 0 where
  pub succeeded : Bool
  pub initial_state : Option PalworldHealthState
  pub palworld_handling : String
  pub failure : Option String
  pub host_command_requested : Bool

abbrev report_entries : HostPowerReport → Dict
report_entries r =
    ("palworld_initial_state", json_state r.initial_state)
    ∷ ("palworld_handling", Json.str r.palworld_handling)
    ∷ ("host_command_requested", Json.bool r.host_command_requested)
    ∷ ("failure", json_str r.failure)
    ∷ []

abbrev pub reported_status : HostPowerReport → JobStatus
reported_status r = if r.succeeded then JobStatus.succeeded else JobStatus.failed

abbrev pub reported_row : HostPowerReport → Time → Job → Job
reported_row r finished_at j = record j {
  status = reported_status r;
  step = if r.succeeded then JobStep.completed else JobStep.failed;
  progress = 100;
  is_cancellable = false;
  finished_at = some finished_at;
  result = some (update (or_empty j.result) (report_entries r));
}

-- `_complete`
abbrev pub complete_host_power : ℕ → HostPowerAction → HostPowerReport → Time → Db → Db
complete_host_power job_id action r finished_at db =
    record_audit_event
      (record (event finished_at (AuditAction.host action)
        (if r.succeeded then AuditResult.success else AuditResult.failure) AuditOrigin.system) {
          job_id = some job_id;
          target = some "Ubuntu";
          details = some (report_entries r);
        })
      (record db { jobs = update_job job_id (reported_row r finished_at) db.jobs })

abbrev pub checking_row : Job → Job
checking_row j = record j { step = JobStep.checking_palworld; progress = 10 }

abbrev pub stopping_row : Job → Job
stopping_row j = record j { step = JobStep.stopping_palworld; progress = 30 }

abbrev pub requesting_row : Job → Job
requesting_row j = record j {
  step = JobStep.requesting_host_power;
  progress = 90;
  is_cancellable = false;
}

-- One session that changes the job.
abbrev pub change_job : ℕ → (Job → Job) → Db → Db
change_job job_id f db = record db { jobs = update_job job_id f db.jobs }

abbrev pub immediate_shutdown_control : CountdownControl
immediate_shutdown_control = record {
  State = Unit;
  update = λ remaining total s. ok (CountdownDirective.continue, s);
  mark_irreversible = λ s. ok (CountdownDirective.continue, s);
}

abbrev pub is_success : ShutdownOutcome → Bool
is_success ShutdownOutcome.succeeded = true
is_success _ = false

abbrev pub shutdown_failed_report : PalworldHealthState → HostPowerReport
shutdown_failed_report initial_state = record {
  succeeded = false;
  initial_state = some initial_state;
  palworld_handling = "failed";
  failure = some "palworld_shutdown_failed";
  host_command_requested = false;
}

abbrev pub request_report : Bool → PalworldHealthState → String → HostPowerReport
request_report accepted initial_state palworld_handling = record {
  succeeded = accepted;
  initial_state = some initial_state;
  palworld_handling = palworld_handling;
  failure = if accepted then none else some "host_power_request_failed";
  host_command_requested = accepted;
}

abbrev health_of : String → Option PalworldHealthState
health_of s =
    if str_eq s "ONLINE"
    then some PalworldHealthState.online
    else if str_eq s "INICIANDO"
    then some PalworldHealthState.starting
    else if str_eq s "DEGRADADO"
    then some PalworldHealthState.degraded
    else if str_eq s "OFFLINE"
    then some PalworldHealthState.offline
    else if str_eq s "FALHA"
    then some PalworldHealthState.failure
    else none

abbrev reported_state : Option String → Option PalworldHealthState
reported_state none = none
reported_state (some s) = health_of s

abbrev pub unexpected_report : Job → HostPowerReport
unexpected_report j = record {
  succeeded = false;
  initial_state = reported_state (as_str (get "palworld_initial_state" (or_empty j.result)));
  palworld_handling = "unknown";
  failure = some "unexpected_failure";
  host_command_requested = false;
}

-- `fail_unexpected`
unfoldable pub fail_host_power_job : ℕ → Time → Db → Result Db
unfolding parse_host_power_job_kind
fail_host_power_job job_id finished_at db = do
  job ← get_one job_id db.jobs
  action ← parse_host_power_job_kind job.kind
  ok (complete_host_power job_id action (unexpected_report job) finished_at db)

pub record HostPowerJobView : Type 0 where
  pub id : ℕ
  pub action : HostPowerAction
  pub status : JobStatus
  pub progress : ℕ
  pub step : JobStep
  pub failure : Option String
  pub palworld_initial_state : Option String
  pub host_command_requested : Bool

abbrev is_true : Option Json → Bool
is_true (some (Json.bool b)) = b
is_true _ = false

unfoldable pub host_power_job_view : Job → Result HostPowerJobView
unfolding parse_host_power_job_kind
host_power_job_view job = do
  action ← parse_host_power_job_kind job.kind
  ok (record {
    id = job.id;
    action = action;
    status = job.status;
    progress = job.progress;
    step = job.step;
    failure = as_str (get "failure" (or_empty job.result));
    palworld_initial_state = as_str (get "palworld_initial_state" (or_empty job.result));
    host_command_requested = is_true (get "host_command_requested" (or_empty job.result));
  })
