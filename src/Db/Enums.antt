-- ===== src/Db/Enums.antt =====
-- The string constants of app/jobs/service.py, app/lifecycle/service.py, app/shutdown/jobs.py,
-- app/system, app/audit/service.py and app/auth/roles.py, as data types.
use palworld_manager.Prelude.{Bool, true, false, String}

pub data LifecycleAction : Type 0 where
  start stop restart : LifecycleAction

pub data PalworldSignal : Type 0 where
  term kill : PalworldSignal

pub data HostPowerAction : Type 0 where
  reboot shutdown : HostPowerAction

pub data PalworldHealthState : Type 0 where
  online starting degraded offline failure : PalworldHealthState

pub data JobKind : Type 0 where
  lifecycle : LifecycleAction → JobKind
  assisted_shutdown : JobKind
  forced_shutdown : PalworldSignal → JobKind
  host_power : HostPowerAction → JobKind
  local_backup local_restore remote_restore : JobKind
  drive_check drive_upload drive_download drive_delete : JobKind
  update_check update : JobKind

pub data JobStatus : Type 0 where
  pending running succeeded failed cancelled interrupted : JobStatus

pub data JobStep : Type 0 where
  waiting executing countdown irreversible completed failed cancelled interrupted : JobStep
  checking_palworld stopping_palworld requesting_host_power : JobStep
  -- a step that only one of the executors outside the model reports
  reported : String → JobStep

-- `status in ACTIVE_JOB_STATUSES`
abbrev pub is_active : JobStatus → Bool
is_active JobStatus.pending = true
is_active JobStatus.running = true
is_active _ = false

-- `status in TERMINAL_JOB_STATUSES`
abbrev pub is_terminal : JobStatus → Bool
is_terminal JobStatus.pending = false
is_terminal JobStatus.running = false
is_terminal _ = true

abbrev pub is_pending : JobStatus → Bool
is_pending JobStatus.pending = true
is_pending _ = false

abbrev pub is_running : JobStatus → Bool
is_running JobStatus.running = true
is_running _ = false

abbrev pub is_failed : JobStatus → Bool
is_failed JobStatus.failed = true
is_failed _ = false

pub data AuditResult : Type 0 where
  success failure cancelled interrupted : AuditResult

pub data AuditOrigin : Type 0 where
  administrator automatic system : AuditOrigin

-- The actions that the modelled code records.
pub data AuditAction : Type 0 where
  server_requested server : LifecycleAction → AuditAction
  job_interrupted : AuditAction
  assisted_shutdown_requested assisted_shutdown_cancel_requested : AuditAction
  assisted_shutdown_execute_now_requested assisted_shutdown shutdown : AuditAction
  forced_shutdown_requested forced_shutdown : PalworldSignal → AuditAction
  host_requested host : HostPowerAction → AuditAction
  backup_requested backup_cancel_requested backup : AuditAction
  login login_blocked : AuditAction
  user_created user_role_changed user_status_changed user_password_reset : AuditAction
  manager_settings_update palworld_settings_update discord_test_requested : AuditAction

pub data NotificationStatus : Type 0 where
  pending sending sent failed : NotificationStatus

-- app/integrations/discord.py
pub data DeliveryErrorKind : Type 0 where
  not_configured rate_limited timeout unavailable interrupted rejected : DeliveryErrorKind
  invalid_response : DeliveryErrorKind

abbrev pub is_transient : DeliveryErrorKind → Bool
is_transient DeliveryErrorKind.rate_limited = true
is_transient DeliveryErrorKind.timeout = true
is_transient DeliveryErrorKind.unavailable = true
is_transient _ = false

pub data EventType : Type 0 where
  discord_test backup_failed disk_critical drive_failed forced_shutdown login_blocked : EventType
  operation_interrupted restore_completed restore_failed server_crash server_recovered : EventType
  update_completed update_failed : EventType

pub data UserRole : Type 0 where
  admin user : UserRole

-- The value of each `StrEnum` member and each kind constant.
unfoldable pub action_value : LifecycleAction → String
action_value LifecycleAction.start = "START"
action_value LifecycleAction.stop = "STOP"
action_value LifecycleAction.restart = "RESTART"

unfoldable pub signal_value : PalworldSignal → String
signal_value PalworldSignal.term = "SIGTERM"
signal_value PalworldSignal.kill = "SIGKILL"

unfoldable pub health_value : PalworldHealthState → String
health_value PalworldHealthState.online = "ONLINE"
health_value PalworldHealthState.starting = "INICIANDO"
health_value PalworldHealthState.degraded = "DEGRADADO"
health_value PalworldHealthState.offline = "OFFLINE"
health_value PalworldHealthState.failure = "FALHA"

unfoldable pub kind_value : JobKind → String
kind_value (JobKind.lifecycle LifecycleAction.start) = "PALWORLD_START"
kind_value (JobKind.lifecycle LifecycleAction.stop) = "PALWORLD_STOP"
kind_value (JobKind.lifecycle LifecycleAction.restart) = "PALWORLD_RESTART"
kind_value JobKind.assisted_shutdown = "PALWORLD_ASSISTED_SHUTDOWN"
kind_value (JobKind.forced_shutdown PalworldSignal.term) = "PALWORLD_FORCE_SIGTERM"
kind_value (JobKind.forced_shutdown PalworldSignal.kill) = "PALWORLD_FORCE_SIGKILL"
kind_value (JobKind.host_power HostPowerAction.reboot) = "HOST_REBOOT"
kind_value (JobKind.host_power HostPowerAction.shutdown) = "HOST_SHUTDOWN"
kind_value JobKind.local_backup = "LOCAL_BACKUP"
kind_value JobKind.local_restore = "LOCAL_RESTORE"
kind_value JobKind.remote_restore = "REMOTE_RESTORE"
kind_value JobKind.drive_check = "DRIVE_CHECK"
kind_value JobKind.drive_upload = "DRIVE_UPLOAD"
kind_value JobKind.drive_download = "DRIVE_DOWNLOAD"
kind_value JobKind.drive_delete = "DRIVE_DELETE"
kind_value JobKind.update_check = "PALWORLD_UPDATE_CHECK"
kind_value JobKind.update = "PALWORLD_UPDATE"
