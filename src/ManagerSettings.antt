-- ===== src/ManagerSettings.antt =====
-- app/manager_settings/service.py: the operational settings, validated, versioned and stored.
pub mod Stored
use palworld_manager.Prelude.{
  ℕ, Bool, true, false, not, ◌&&◌, String, Option, none, some, List, [], ◌∷◌, ltb, leb, str_eq,
  if◌then◌else◌, exists,
}
use palworld_manager.Prelude.Result.{Error, Result, ok, err, ◌>>=◌, ◌>>◌, guard}
use palworld_manager.Prelude.Dict.{Json, Dict, get, update}
use palworld_manager.Db.Enums.{EventType, NotificationStatus, AuditAction, AuditResult, AuditOrigin}
use palworld_manager.Db.Rows.{Time, NotificationEvent, Db}
use palworld_manager.Db.Audit.{event, record_audit_event}
use palworld_manager.Notifications.{enqueue_discord_notification, fresh_event_id}
use palworld_manager.Lifecycle.Jobs.{bounded_int}
use palworld_manager.Shutdown.Executor.{is_allowed_countdown}
use palworld_manager.Accounts.{text_length}

pub record ManagerSettingsValues : Type 0 where
  pub timezone : String
  pub backup_enabled : Bool
  pub backup_time : String
  pub local_backup_retention : ℕ
  pub drive_backup_retention : ℕ
  pub metrics_interval_seconds : ℕ
  pub assisted_shutdown_default_minutes : ℕ
  pub start_timeout_seconds : ℕ
  pub restart_timeout_seconds : ℕ
  pub stop_timeout_seconds : ℕ
  pub disk_warning_gb : ℕ
  pub disk_critical_gb : ℕ

-- `str.strip`, whether `ZoneInfo` accepts a name, whether a text matches BACKUP_TIME_PATTERN and
-- whether it is a version (64 hexadecimal digits), and `_settings_version`, a SHA-256 over the JSON
-- text of the values.
pub record SettingsLibrary : Type 0 where
  pub strip : String → String
  pub zone_exists : String → Bool
  pub is_backup_time : String → Bool
  pub is_version : String → Bool
  pub settings_version : ManagerSettingsValues → String

-- `model_dump`; also the entries that are stored.
abbrev pub as_dict : ManagerSettingsValues → Dict
as_dict v =
    ("timezone", Json.str v.timezone)
    ∷ ("backup_enabled", Json.bool v.backup_enabled)
    ∷ ("backup_time", Json.str v.backup_time)
    ∷ ("local_backup_retention", Json.int v.local_backup_retention)
    ∷ ("drive_backup_retention", Json.int v.drive_backup_retention)
    ∷ ("metrics_interval_seconds", Json.int v.metrics_interval_seconds)
    ∷ ("assisted_shutdown_default_minutes", Json.int v.assisted_shutdown_default_minutes)
    ∷ ("start_timeout_seconds", Json.int v.start_timeout_seconds)
    ∷ ("restart_timeout_seconds", Json.int v.restart_timeout_seconds)
    ∷ ("stop_timeout_seconds", Json.int v.stop_timeout_seconds)
    ∷ ("disk_warning_gb", Json.int v.disk_warning_gb)
    ∷ ("disk_critical_gb", Json.int v.disk_critical_gb)
    ∷ []

-- DEFAULT_MANAGER_SETTINGS
abbrev pub default_manager_settings : ManagerSettingsValues
default_manager_settings = record {
  timezone = "America/Sao_Paulo";
  backup_enabled = true;
  backup_time = "04:00";
  local_backup_retention = 3;
  drive_backup_retention = 10;
  metrics_interval_seconds = 5;
  assisted_shutdown_default_minutes = 5;
  start_timeout_seconds = 120;
  restart_timeout_seconds = 120;
  stop_timeout_seconds = 60;
  disk_warning_gb = 20;
  disk_critical_gb = 10;
}

abbrev strict_str : Option Json → Result String
strict_str (some (Json.str s)) = ok s
strict_str _ = err Error.value_error

abbrev strict_bool : Option Json → Result Bool
strict_bool (some (Json.bool b)) = ok b
strict_bool _ = err Error.value_error

abbrev pub literal_minutes : Option Json → Result ℕ
literal_minutes (some (Json.int n)) = if is_allowed_countdown n then ok n else err Error.value_error
literal_minutes _ = err Error.value_error

abbrev is_operational : String → Bool
is_operational key = exists (λ entry. str_eq entry.0 key) (as_dict default_manager_settings)

abbrev pub has_extra : Dict → Bool
has_extra d = exists (λ entry. not (is_operational entry.0)) d

module _ (l : SettingsLibrary) where
  -- The constraints on the length and `validate_timezone`.
  abbrev pub timezone_of : Option Json → Result String
  timezone_of value = do
    raw ← strict_str value
    guard (leb 1 (text_length raw) && leb (text_length raw) 100) Error.value_error
    guard (l.zone_exists (l.strip raw)) Error.value_error
    ok (l.strip raw)

  -- `validate_backup_time`
  abbrev pub backup_time_of : Option Json → Result String
  backup_time_of value = do
    raw ← strict_str value
    guard (l.is_backup_time raw) Error.value_error
    ok raw

  -- `ManagerSettingsValues.model_validate`; the exceptions are one ValidationError.
  unfoldable pub model_validate : Dict → Result ManagerSettingsValues
  unfolding text_length
  model_validate d = do
    guard (not (has_extra d)) Error.value_error
    timezone ← timezone_of (get "timezone" d)
    backup_enabled ← strict_bool (get "backup_enabled" d)
    backup_time ← backup_time_of (get "backup_time" d)
    local_retention ← bounded_int 1 30 (get "local_backup_retention" d)
    drive_retention ← bounded_int 1 100 (get "drive_backup_retention" d)
    metrics_interval ← bounded_int 1 60 (get "metrics_interval_seconds" d)
    minutes ← literal_minutes (get "assisted_shutdown_default_minutes" d)
    start_timeout ← bounded_int 1 600 (get "start_timeout_seconds" d)
    restart_timeout ← bounded_int 1 600 (get "restart_timeout_seconds" d)
    stop_timeout ← bounded_int 1 300 (get "stop_timeout_seconds" d)
    disk_warning ← bounded_int 1 1024 (get "disk_warning_gb" d)
    disk_critical ← bounded_int 1 1024 (get "disk_critical_gb" d)
    guard (ltb disk_critical disk_warning) Error.value_error
    ok (record {
      timezone = timezone;
      backup_enabled = backup_enabled;
      backup_time = backup_time;
      local_backup_retention = local_retention;
      drive_backup_retention = drive_retention;
      metrics_interval_seconds = metrics_interval;
      assisted_shutdown_default_minutes = minutes;
      start_timeout_seconds = start_timeout;
      restart_timeout_seconds = restart_timeout;
      stop_timeout_seconds = stop_timeout;
      disk_warning_gb = disk_warning;
      disk_critical_gb = disk_critical;
    })

  abbrev reraise : Error → Result ManagerSettingsValues → Result ManagerSettingsValues
  reraise other (ok v) = ok v
  reraise other (err x) = err other

  abbrev pub validate_manager_settings : Dict → Result ManagerSettingsValues
  validate_manager_settings d = reraise Error.settings_validation (model_validate d)

  -- `{**DEFAULT_MANAGER_SETTINGS, **overrides}`
  abbrev pub with_overrides : Dict → Dict → Dict
  with_overrides settings [] = []
  with_overrides settings ((key, value) ∷ entries) =
      (key, elim (get key settings) [ none ↦ value | some stored ↦ stored ])
      ∷ with_overrides settings entries

  -- `load_manager_settings`: the values of the snapshot and its version.
  unfoldable pub load_manager_settings : Db → Result (ManagerSettingsValues × String)
  load_manager_settings db = do
    values ←
        reraise Error.stored_settings
          (model_validate (with_overrides db.settings (as_dict default_manager_settings)))
    ok (values, l.settings_version values)

  abbrev pub store_settings : ManagerSettingsValues → ℕ → Time → Db → Db
  store_settings values user_id changed_at db =
      record_audit_event
        (record (event changed_at AuditAction.manager_settings_update AuditResult.success
          AuditOrigin.administrator) {
            user_id = some user_id;
            target = some "Configurações do Painel";
            details = some (("changed_keys", Json.other) ∷ []);
          })
        (record db { settings = update db.settings (as_dict values) })

  -- The rows keep no `updated_at` in the model; a value that is stored already is put again.
  unfoldable pub update_manager_settings :
      ManagerSettingsValues
      → String
      → ℕ
      → Time
      → Db
      → Result ((ManagerSettingsValues × String) × Db)
  unfolding load_manager_settings
  update_manager_settings values expected_version user_id changed_at db = do
    current ← load_manager_settings db
    guard (l.is_version expected_version && str_eq current.1 expected_version)
        Error.settings_conflict
    ok ((values, l.settings_version values), store_settings values user_id changed_at db)

  -- The accessors that the other parts call.
  abbrev pub configured_local_retention : Db → Result ℕ
  configured_local_retention db = do
    current ← load_manager_settings db
    ok current.0.local_backup_retention

  abbrev pub configured_drive_retention : Db → Result ℕ
  configured_drive_retention db = do
    current ← load_manager_settings db
    ok current.0.drive_backup_retention

  abbrev pub configured_metrics_interval : Db → Result ℕ
  configured_metrics_interval db = do
    current ← load_manager_settings db
    ok current.0.metrics_interval_seconds

  abbrev pub configured_disk_thresholds : Db → Result (ℕ × ℕ)
  configured_disk_thresholds db = do
    current ← load_manager_settings db
    ok (current.0.disk_warning_gb, current.0.disk_critical_gb)

unfoldable pub audit_manager_settings_failure : ℕ → String → Time → Db → Db
audit_manager_settings_failure user_id reason occurred_at db =
    record_audit_event
      (record (event occurred_at AuditAction.manager_settings_update AuditResult.failure
        AuditOrigin.administrator) {
          user_id = some user_id;
          target = some "Configurações do Painel";
          reason = some reason;
          details = some (("error", Json.str reason) ∷ []);
        })
      db

abbrev is_discord_test : NotificationEvent → Bool
is_discord_test n = elim n.event_type [
  | EventType.discord_test ↦ str_eq n.channel "DISCORD"
  | _ ↦ false
]

abbrev is_unsent : NotificationStatus → Bool
is_unsent NotificationStatus.pending = true
is_unsent NotificationStatus.sending = true
is_unsent _ = false

abbrev later_event : NotificationEvent → Option NotificationEvent → NotificationEvent
later_event n none = n
later_event n (some other) = if ltb n.id other.id then other else n

-- ORDER BY id DESC LIMIT 1 over the tests that a condition keeps.
unfoldable pub last_test :
    (NotificationEvent → Bool) → List NotificationEvent → Option NotificationEvent
last_test p [] = none
last_test p (n ∷ ns) =
    let rest = last_test p ns in
    if is_discord_test n && p n then some (later_event n rest) else rest

abbrev pub latest_discord_test : Db → Option NotificationEvent
latest_discord_test db = last_test (λ n. true) db.notifications

-- The id of the event and the database.
unfoldable pub enqueue_discord_test : ℕ → Time → Db → ℕ × Db
unfolding last_test fresh_event_id
enqueue_discord_test user_id created_at db =
    elim (last_test (λ n. is_unsent n.status) db.notifications) [
      | some active ↦ (active.id, db)
      | none ↦
          let id = fresh_event_id db.notifications in
          (
            id,
            record_audit_event
                (record (event created_at AuditAction.discord_test_requested AuditResult.success
                  AuditOrigin.administrator) {
                    user_id = some user_id;
                    target = some "Discord";
                    details = some (("notification_event_id", Json.int id) ∷ []);
                  })
                (enqueue_discord_notification EventType.discord_test none created_at db),
          )
    ]
