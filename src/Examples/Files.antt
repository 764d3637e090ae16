-- ===== src/Examples/Files.antt =====
-- The settings file, the backups, the health checks and the accounts on small inputs.
use palworld_manager.Prelude.{
  ◌&&◌, Bool, count, ℕ, ◌+◌, ◌*◌, ◌≡◌, ◌↔◌, refl, Bool, true, false, String, none, some, List, [],
  ◌∷◌, map, arith, str_eq,
}
use palworld_manager.Prelude.Result.{Error, Result, ok, err}
use palworld_manager.Db.Enums.{JobStatus, JobStep, PalworldHealthState, UserRole}
use palworld_manager.Db.Rows.{second, Time, Job, Db}
use palworld_manager.Db.Jobs.{find_job, insert_job, fresh_id}
use palworld_manager.Db.Audit.{record_audit_event}
use palworld_manager.Heartbeat.{record_worker_start}
use palworld_manager.Lifecycle.Completion.{Ended}
use palworld_manager.PalworldSettings.Text.{Text, lstrip, rstrip, is_space}
use palworld_manager.PalworldSettings.Ini.{
  ParsedIni, Patterns, parse_ini, render, parse_entry, replace_value, top_level_equal,
  find_closing_parenthesis, find_closing, split_entries, split_from,
}
use palworld_manager.PalworldSettings.RoundTrip.{render-parse_ini}
use palworld_manager.PalworldSettings.Edit.{parse_entry-replace_value}
use palworld_manager.PalworldSettings.Strip.{IsTrimmed}
use palworld_manager.Health.{
  RestApiState, PalworldServiceStatus, evaluate_palworld_health, is_available, WorkerServiceStatus,
  WorkerHealthState, check_worker_health,
}
use palworld_manager.Health.Laws.{
  IsSettled, IsDown, evaluate_palworld_health-Meaning, check_worker_health-Lease,
}
use palworld_manager.Backups.{
  backup_row, request_backup_cancel, checkpoint, end_cancelled, enqueue_local_backup,
}
use palworld_manager.Backups.Cancel.{request_backup_cancel-stops}
use palworld_manager.Backups.Retention.{
  BackupRecord, apply_local_retention, others_of, newest_first, insert_newest, fill_kept,
}
use palworld_manager.Backups.Newest.{
  NewestFirst, is_kept_here, chosen, apply_local_retention-newest,
}
use palworld_manager.Backups.Scheduler.{
  Calendar, schedule_daily_backup, schedule_daily_backup-once, schedule_enabled, schedule_on,
}
use palworld_manager.Accounts.{Library, active_admins}
use palworld_manager.Accounts.Administrators.{
  AccountRequest, change_role, change_active, serve_all, serve_all-Administered,
}
use palworld_manager.Accounts.Changes.{Administered}
use palworld_manager.Examples.{empty_db, worker_lock, running-QueueInv}
use palworld_manager.Examples.Others.{
  leased_db, a_row, worker_b, b_is_other, b_is_named, session_db,
}

-- `(A=1, B="x,y")`
abbrev pub options_text : Text
options_text = 40 ∷ 65 ∷ 61 ∷ 49 ∷ 44 ∷ 32 ∷ 66 ∷ 61 ∷ 34 ∷ 120 ∷ 44 ∷ 121 ∷ 34 ∷ 41 ∷ []

-- Patterns that find a section in front of the text and an option that is the first character.
abbrev pub at_start : Patterns
at_start = record {
  sections = λ t. (0, 0) ∷ [];
  next_section = λ t start. none;
  options = λ t. (0, 1) ∷ [];
}

abbrev or_nothing : Result ParsedIni → ParsedIni
or_nothing (ok parsed) = parsed
or_nothing (err x) = record { prefix = []; entries = []; suffix = [] }

abbrev parsed_options : ParsedIni
parsed_options = or_nothing (parse_ini at_start options_text)

render-parse_ini_example : render [] parsed_options ≡ ok options_text
unfolding parse_ini find_closing_parenthesis find_closing split_entries split_from
render-parse_ini_example = render-parse_ini at_start options_text parsed_options refl

-- ` B = 1 `
abbrev entry_text : Text
entry_text = 32 ∷ 66 ∷ 32 ∷ 61 ∷ 32 ∷ 49 ∷ 32 ∷ []

abbrev key_b : Text
key_b = 66 ∷ []

abbrev two : Text
two = 50 ∷ []

two-IsTrimmed : IsTrimmed two
unfolding lstrip rstrip is_space
two-IsTrimmed = record { some_text = refl; no_space_before = refl; no_space_after = refl }

parse_entry-replace_value_example :
    (edited : Text) × (replace_value two (parse_entry entry_text) ≡ ok edited)
    × ((parse_entry edited).key ≡ some key_b)
    × ((parse_entry edited).value ≡ some two)
unfolding parse_entry top_level_equal lstrip rstrip is_space
parse_entry-replace_value_example =
    parse_entry-replace_value entry_text key_b two refl two-IsTrimmed

abbrev active_service : PalworldServiceStatus
active_service = record { active = true; source_state = "active" }

evaluate_palworld_health_example :
    let state = (evaluate_palworld_health active_service true RestApiState.available).state in
    ((state ≡ PalworldHealthState.online) ↔ (
      IsSettled active_service
      × (active_service.active ≡ true)
      × (true ≡ true)
      × (is_available RestApiState.available ≡ true)))
    × ((state ≡ PalworldHealthState.offline)
        ↔ (IsDown active_service × (true ≡ false) × (is_available RestApiState.available ≡ false)))
    × ((state ≡ PalworldHealthState.starting)
        ↔ (str_eq active_service.source_state "activating" ≡ true))
evaluate_palworld_health_example =
    evaluate_palworld_health-Meaning active_service true RestApiState.available

abbrev worker_service : WorkerServiceStatus
worker_service = record { active = true; source_state = "active"; active_for = 20 * second }

check_worker_health_example :
    ((check_worker_health (25 * second) (some worker_service) leased_db).state
      ≡ WorkerHealthState.healthy)
    ↔ ((worker_service.active ≡ true)
        × (record_worker_start worker_b (25 * second) leased_db ≡ err Error.worker_already_running))
check_worker_health_example =
    check_worker_health-Lease (25 * second) worker_service leased_db a_row worker_b refl
      (omega arith) b_is_named b_is_other

abbrev backup_job : Job
backup_job = record (backup_row 10 "MANUAL") { id = 1; status = JobStatus.running; progress = 5 }

abbrev backup_db : Db
backup_db = record empty_db { jobs = backup_job ∷ []; lock = some worker_lock }

request_backup_cancel_example :
    let db' = (request_backup_cancel 1 1 30 backup_db).1 in
    ((step : JobStep) (progress : ℕ) (cancellable : Bool)
      → checkpoint 1 step progress cancellable db' ≡ err Error.backup_cancelled)
    × ((other : ℕ) (later : Time) → request_backup_cancel 1 other later db' ≡ (false, db'))
    × ((trigger : String) (later : Time)
        → (db2 : Db) × (end_cancelled 1 trigger later db' ≡ ok db2)
          × Ended 1 JobStatus.cancelled db' db2)
unfolding request_backup_cancel find_job
request_backup_cancel_example =
    request_backup_cancel-stops 1 1 30 backup_db backup_job
      (running-QueueInv backup_job worker_lock refl (omega arith) refl) refl refl refl

abbrev utc : Calendar
utc = record {
  zone = λ name. some (λ t. (t, "2026-01-01"));
  fromisoformat = λ value. some (4 * (3600 * second), false);
}

abbrev or_empty_db : Result (Bool × Db) → Db
or_empty_db (ok (done, db)) = db
or_empty_db (err x) = empty_db

abbrev five : Time
five = 5 * (3600 * second)

abbrev scheduled_db : Db
scheduled_db = or_empty_db (schedule_daily_backup utc five five empty_db)

schedule_daily_backup_example :
    schedule_daily_backup utc (five + 1) (five + 1) scheduled_db ≡ ok (false, scheduled_db)
unfolding schedule_daily_backup schedule_enabled schedule_on enqueue_local_backup insert_job
    fresh_id record_audit_event
schedule_daily_backup_example =
    schedule_daily_backup-once utc five five (five + 1) (five + 1) empty_db scheduled_db
      scheduled_db refl refl (λ zone h. ground (arith, h))

abbrev backup : ℕ → Time → BackupRecord
backup id created_at = record {
  id = id;
  job_id = none;
  filename = "backup.tar.gz";
  location = "LOCAL";
  status = "VALID";
  sha256 = none;
  size_bytes = none;
  storage_path = "backups/backup.tar.gz";
  created_at = created_at;
}

abbrev three_backups : List BackupRecord
three_backups = backup 1 10 ∷ backup 2 20 ∷ backup 3 30 ∷ []

abbrev every_path : String → Bool
every_path path = true

apply_local_retention_example :
    (managed : List BackupRecord) × NewestFirst managed
    × ((p : BackupRecord → Bool)
        → count p managed ≡ count (λ r. is_kept_here every_path r && p r) three_backups)
    × (let removed = others_of (chosen 2 (1 ∷ []) managed) managed in
        apply_local_retention every_path 2 (1 ∷ []) three_backups
        ≡ (others_of removed three_backups, map (λ r. r.storage_path) removed))
apply_local_retention_example =
    apply_local_retention-newest every_path 2 (1 ∷ []) three_backups (refl, (refl, (refl, tt)))

-- The protected one and the newest one stay.
kept_two :
    apply_local_retention every_path 2 (1 ∷ []) three_backups
    ≡ (backup 1 10 ∷ backup 3 30 ∷ [], "backups/backup.tar.gz" ∷ [])
unfolding apply_local_retention newest_first insert_newest fill_kept
kept_two = refl

abbrev plain : Library
plain = record {
  strip = λ s. s;
  casefold = λ s. s;
  hash = λ password. password;
  verify = λ hash password. str_eq hash password;
}

admin-Administered : Administered session_db.users
unfolding active_admins
admin-Administered = record { unique = (refl, tt); somebody = omega arith }

-- The only administrator wants to be a user, and then inactive.
abbrev demotions : List (ℕ × (Time × AccountRequest plain))
demotions = (1, (20, change_role 1 UserRole.user)) ∷ (1, (30, change_active 1 false)) ∷ []

serve_all_example : Administered (serve_all plain demotions session_db).users
serve_all_example = serve_all-Administered plain demotions session_db admin-Administered
