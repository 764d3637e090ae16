-- ===== src/Db/Rows.antt =====
-- The rows of app/db/models, and the database: one list for each table, oldest row first.
-- A time is a number of microseconds since the epoch, in UTC.
use palworld_manager.Prelude.{ℕ, Bool, String, Option, List}
use palworld_manager.Prelude.Dict.{Dict}
use palworld_manager.Db.Enums.{
  JobKind, JobStatus, JobStep, AuditAction, AuditResult, AuditOrigin, NotificationStatus,
  DeliveryErrorKind, EventType, UserRole,
}

abbrev pub Time : Type 0
Time = ℕ

abbrev pub second : ℕ
second = 1000000

pub record Job : Type 0 where
  pub id : ℕ
  pub created_at : Time
  pub kind : JobKind
  pub status : JobStatus
  pub step : JobStep
  pub progress : ℕ
  pub is_cancellable : Bool
  pub cancel_requested : Bool
  pub execute_now_requested : Bool
  pub requires_maintenance_lock : Bool
  pub coordination_key : Option String
  pub requested_by_user_id : Option ℕ
  pub claimed_by : Option String
  pub claimed_at : Option Time
  pub started_at : Option Time
  pub finished_at : Option Time
  pub result : Option Dict
  pub log_path : Option String

-- The row with the key GLOBAL, the only one that is ever written.
pub record MaintenanceLock : Type 0 where
  pub job_id : ℕ
  pub worker_id : String
  pub acquired_at : Time

-- The row with the key PRIMARY, the only one that is ever written.
pub record WorkerHeartbeat : Type 0 where
  pub worker_id : String
  pub started_at : Time
  pub heartbeat_at : Time

-- `duration` is the exact span in microseconds of which `duration_ms` is the whole part in
-- milliseconds; `target`, `reason` and `details` are those before redaction.
pub record AuditEvent : Type 0 where
  pub occurred_at : Time
  pub action : AuditAction
  pub outcome : AuditResult
  pub origin : AuditOrigin
  pub user_id : Option ℕ
  pub job_id : Option ℕ
  pub target : Option String
  pub reason : Option String
  pub duration : Option ℕ
  pub details : Option Dict

pub record NotificationEvent : Type 0 where
  pub id : ℕ
  pub event_type : EventType
  pub channel : String
  pub status : NotificationStatus
  pub created_at : Time
  pub updated_at : Time
  pub job_id : Option ℕ
  pub attempts : ℕ
  pub next_attempt_at : Option Time
  pub delivered_at : Option Time
  pub last_error : Option DeliveryErrorKind

pub record User : Type 0 where
  pub id : ℕ
  pub username : String
  pub username_key : String
  pub password_hash : String
  pub role : UserRole
  pub is_active : Bool
  pub password_change_required : Bool
  pub updated_at : Time

pub record SessionRecord : Type 0 where
  pub id : ℕ
  pub user_id : ℕ
  pub token_hash : String
  pub csrf_token_hash : String
  pub expires_at : Time
  pub last_seen_at : Time
  pub revoked_at : Option Time

pub record LoginAttempt : Type 0 where
  pub id : ℕ
  pub user_id : Option ℕ
  pub username : Option String
  pub source_address : Option String
  pub successful : Bool
  pub attempted_at : Time
  pub blocked_until : Option Time

pub record Db : Type 0 where
  pub jobs : List Job
  pub lock : Option MaintenanceLock
  pub heartbeat : Option WorkerHeartbeat
  pub settings : Dict
  pub audits : List AuditEvent
  pub notifications : List NotificationEvent
  pub users : List User
  pub sessions : List SessionRecord
  pub attempts : List LoginAttempt
