-- ===== src/Backups/Scheduler.antt =====
-- app/backups/scheduler.py: one automatic backup a day.
use palworld_manager.Db.Audit.{record_audit_event}
use palworld_manager.Prelude.{
  ℕ, ◌*◌, ◌%◌, ◌≡◌, refl, Bool, true, false, not, ◌&&◌, String, Option, none, some, arith, ◌==◌,
  ltb, str_eq, str_eq_self, if◌then◌else◌, Bool-cases, inl, inr, ◌||◌, ap, ◌∙◌,
}
use palworld_manager.Prelude.Result.{
  Error, Result, ok, err, ◌>>=◌, ◌>>◌, guard, or_raise, >>=-eq-ok, Result-cases,
}
use palworld_manager.Prelude.Dict.{Json, get, put, get-put}
use palworld_manager.Db.Rows.{Time, second, Job, Db}
use palworld_manager.Lifecycle.Jobs.{as_str}
use palworld_manager.Backups.{enqueue_local_backup}

-- What `zoneinfo` and `datetime` answer: the local time of the day, in microseconds, and the local
-- date in the ISO format, in a zone that exists; and the time of the day that a text stands for,
-- with whether it names an offset.
pub record Calendar : Type 0 where
  pub zone : String → Option (Time → ℕ × String)
  pub fromisoformat : String → Option (ℕ × Bool)

abbrev pub last_scheduled_date_key : String
last_scheduled_date_key = "backup_last_scheduled_local_date"

abbrev as_boolean : Option Json → Bool → Result Bool
as_boolean none default_ = ok default_
as_boolean (some (Json.bool b)) default_ = ok b
as_boolean (some _) default_ = err Error.value_error

-- `_boolean_setting`
abbrev pub boolean_setting : String → Bool → Db → Result Bool
boolean_setting key default_ db = as_boolean (get key db.settings) default_

abbrev as_text : Option Json → String → Result String
as_text none default_ = ok default_
as_text (some (Json.str s)) default_ = ok s
as_text (some _) default_ = err Error.value_error

-- `_timezone_setting`
abbrev pub timezone_setting : Calendar → Db → Result (Time → ℕ × String)
timezone_setting calendar db = do
  value ← as_text (get "timezone" db.settings) "America/Sao_Paulo"
  or_raise (calendar.zone value) Error.value_error

abbrev parsed_time : Calendar → String → Result ℕ
parsed_time calendar value = do
  parsed ← or_raise (calendar.fromisoformat value) Error.value_error
  guard (parsed.0 % (60 * second) == 0 && not parsed.1) Error.value_error
  ok parsed.0

-- `_time_setting`
abbrev pub time_setting : Calendar → Db → Result ℕ
time_setting calendar db = do
  value ← as_text (get "backup_time" db.settings) "04:00"
  parsed_time calendar value

-- `marker is not None and marker.value == local_date`
abbrev pub is_marked : String → Db → Bool
is_marked local_date db = elim (as_str (get last_scheduled_date_key db.settings)) [
  | none ↦ false
  | some date ↦ str_eq date local_date
]

abbrev pub marked : String → Db → Db
marked local_date db = record db {
  settings = put last_scheduled_date_key (Json.str local_date) db.settings;
}

-- The `try` around `enqueue_local_backup`, and what follows it.
unfoldable pub schedule_on : String → Time → Time → Db → Result (Bool × Db)
schedule_on local_date created_at now db =
    elim (enqueue_local_backup none "AUTOMATIC" created_at now db) [
      | err Error.backup_conflict ↦ ok (false, db)
      | err x ↦ err x
      | ok (job, db') ↦ ok (true, marked local_date db')
    ]

-- Where automatic backups are on.
unfoldable pub schedule_enabled : Calendar → Time → Time → Db → Result (Bool × Db)
unfolding schedule_on
schedule_enabled calendar created_at now db = do
  timezone ← timezone_setting calendar db
  scheduled_time ← time_setting calendar db
  if ltb (timezone now).0 scheduled_time || is_marked (timezone now).1 db
      then ok (false, db)
      else schedule_on (timezone now).1 created_at now db

unfoldable pub schedule_daily_backup : Calendar → Time → Time → Db → Result (Bool × Db)
unfolding schedule_enabled
schedule_daily_backup calendar created_at now db = do
  enabled ← boolean_setting "backup_enabled" true db
  if not enabled then ok (false, db) else schedule_enabled calendar created_at now db

enqueue_local_backup-settings :
    (user_id : Option ℕ) (trigger : String) (created_at now : Time) (db db' : Db) (job : Job)
    → enqueue_local_backup user_id trigger created_at now db ≡ ok (job, db')
    → db'.settings ≡ db.settings
unfolding enqueue_local_backup record_audit_event
enqueue_local_backup-settings user_id trigger created_at now db db' job h = ground arith

schedule_on-settings :
    (local_date : String) (created_at now : Time) (db db' : Db)
    → schedule_on local_date created_at now db ≡ ok (true, db')
    → db'.settings ≡ (marked local_date db).settings
unfolding schedule_on
schedule_on-settings local_date created_at now db db' h =
    elim (Result-cases (enqueue_local_backup none "AUTOMATIC" created_at now db)) [
      | inl ((job, added), e) ↦
          ground
            (arith, enqueue_local_backup-settings none "AUTOMATIC" created_at now db added job e)
      | inr (x, e) ↦ raised x e
    ]
  where
    raised :
        (x : Error)
        → enqueue_local_backup none "AUTOMATIC" created_at now db ≡ err x
        → db'.settings ≡ (marked local_date db).settings
    raised Error.backup_conflict e = let impossible : ⊥ = ground arith in absurd impossible
    raised x e = let impossible : ⊥ = ground arith in absurd impossible

-- The three settings of the schedule are not the marker.
kept_setting :
    (key local_date : String) (db : Db)
    → str_eq last_scheduled_date_key key ≡ false
    → get key (marked local_date db).settings ≡ get key db.settings
kept_setting key local_date db apart =
    ground (arith, get-put last_scheduled_date_key key (Json.str local_date) db.settings)

is_marked-marked :
    (local_date : String) (db : Db) → is_marked local_date (marked local_date db) ≡ true
is_marked-marked local_date db = ground (
  arith,
  get-put last_scheduled_date_key last_scheduled_date_key (Json.str local_date) db.settings,
  str_eq_self last_scheduled_date_key,
  str_eq_self local_date,
)

-- Where the schedule's settings are those of a database in which `local_date` was marked.
marked-skipped :
    (calendar : Calendar) (created_at now : Time) (timezone : Time → ℕ × String)
    (scheduled_time : ℕ) (local_date : String) (db db2 : Db)
    → boolean_setting "backup_enabled" true db ≡ ok true
    → timezone_setting calendar db ≡ ok timezone
    → time_setting calendar db ≡ ok scheduled_time
    → db2.settings ≡ (marked local_date db).settings
    → (timezone now).1 ≡ local_date
    → schedule_daily_backup calendar created_at now db2 ≡ ok (false, db2)
unfolding schedule_daily_backup schedule_enabled
marked-skipped calendar created_at now timezone scheduled_time local_date db db2 on zone_is time_is
      same day =
    let enabled : boolean_setting "backup_enabled" true db2 ≡ ok true =
      ap (λ o. as_boolean o true)
        (ap (get "backup_enabled") same ∙ kept_setting "backup_enabled" local_date db refl)
      ∙ on in
    let zone_kept : get "timezone" db2.settings ≡ get "timezone" db.settings =
      ap (get "timezone") same ∙ kept_setting "timezone" local_date db refl in
    let time_kept : get "backup_time" db2.settings ≡ get "backup_time" db.settings =
      ap (get "backup_time") same ∙ kept_setting "backup_time" local_date db refl in
    let here : is_marked (timezone now).1 db2 ≡ true =
      ap (λ d. is_marked d db2) day
      ∙ ap (λ s. is_marked local_date (record db { settings = s })) same
      ∙ is_marked-marked local_date db in
    let zone2 : timezone_setting calendar db2 ≡ ok timezone =
      ap
        (λ o. as_text o "America/Sao_Paulo" >>= λ value.
          or_raise (calendar.zone value) Error.value_error)
        zone_kept
      ∙ zone_is in
    let time2 : time_setting calendar db2 ≡ ok scheduled_time =
      ap (λ o. as_text o "04:00" >>= parsed_time calendar) time_kept ∙ time_is in
    rw enabled (rw zone2 (rw time2 (rw here (ground arith))))

enabled-facts :
    (calendar : Calendar) (created_at now : Time) (db db' : Db)
    → schedule_daily_backup calendar created_at now db ≡ ok (true, db')
    → (boolean_setting "backup_enabled" true db ≡ ok true)
      × (schedule_enabled calendar created_at now db ≡ ok (true, db'))
unfolding schedule_daily_backup
enabled-facts calendar created_at now db db' h =
    let (enabled, on, h1) = >>=-eq-ok (boolean_setting "backup_enabled" true db) _ h in
    ground (arith, Bool-cases enabled)

scheduled-facts :
    (calendar : Calendar) (created_at now : Time) (db db' : Db)
    → schedule_enabled calendar created_at now db ≡ ok (true, db')
    → (timezone : Time → ℕ × String) × (scheduled_time : ℕ) × (timezone_setting calendar db
        ≡ ok timezone)
      × (time_setting calendar db ≡ ok scheduled_time)
      × (schedule_on (timezone now).1 created_at now db ≡ ok (true, db'))
unfolding schedule_enabled
scheduled-facts calendar created_at now db db' h =
    let (timezone, zone_is, h1) = >>=-eq-ok (timezone_setting calendar db) _ h in
    let (scheduled_time, time_is, h2) = >>=-eq-ok (time_setting calendar db) _ h1 in
    let due = ltb (timezone now).0 scheduled_time || is_marked (timezone now).1 db in
    (timezone, scheduled_time, zone_is, time_is, ground (arith, Bool-cases due))

-- One automatic backup a day: after a call that scheduled a backup, each call at a time with the
-- same local date, in the time zone of the settings, schedules nothing and changes nothing, however
-- the jobs and the other tables have changed since, as long as the settings are those that the
-- first call left.
pub schedule_daily_backup-once :
    (calendar : Calendar) (created_at now later_created later : Time) (db db' db2 : Db)
    → schedule_daily_backup calendar created_at now db ≡ ok (true, db')
    → db2.settings ≡ db'.settings
    → ((zone : Time → ℕ × String)
        → timezone_setting calendar db ≡ ok zone
        → (zone later).1 ≡ (zone now).1)
    → schedule_daily_backup calendar later_created later db2 ≡ ok (false, db2)
schedule_daily_backup-once calendar created_at now later_created later db db' db2 h same day =
    let (on, h1) = enabled-facts calendar created_at now db db' h in
    let (timezone, scheduled_time, zone_is, time_is, done) =
      scheduled-facts calendar created_at now db db' h1 in
    marked-skipped calendar later_created later timezone scheduled_time (timezone now).1 db db2 on
      zone_is time_is (same ∙ schedule_on-settings (timezone now).1 created_at now db db' done)
      (day timezone zone_is)
