-- ===== src/Login.antt =====
-- app/auth/login_protection.py: a login attempt, and the block after five failures in a row. The
-- `username` is the result of `_tracked_username`; `verify` is `verify_password_or_dummy` of
-- app/auth/passwords.py on the password of the request.
pub mod Latest
pub mod Block
use palworld_manager.Prelude.{
  ℕ, zero, suc, ◌+◌, ◌*◌, Bool, true, false, not, ◌&&◌, ◌||◌, String, Option, none, some, List, [],
  ◌∷◌, ◌++◌, ◌==◌, ltb, leb, str_eq, if◌then◌else◌, is_some, take, where_rows,
}
use palworld_manager.Prelude.Dict.{Json, Dict}
use palworld_manager.Db.Enums.{AuditAction, AuditResult, AuditOrigin, EventType}
use palworld_manager.Db.Rows.{Time, second, User, LoginAttempt, Db}
use palworld_manager.Db.Audit.{event, record_audit_event}
use palworld_manager.Notifications.{enqueue_discord_notification}

abbrev pub maximum_failed_attempts : ℕ
maximum_failed_attempts = 5

abbrev pub login_block_duration : ℕ
login_block_duration = 15 * 60 * second

pub record LoginResult : Type 0 where
  pub user : Option User
  pub blocked_until : Option Time

abbrev pub same_username : Option String → Option String → Bool
same_username none none = true
same_username (some a) (some b) = str_eq a b
same_username _ _ = false

-- `_attempts_for_username`
abbrev pub is_attempt_for : Option String → LoginAttempt → Bool
is_attempt_for username a = same_username a.username username

-- ORDER BY attempted_at DESC, id DESC: is the first row the newer one?
abbrev pub is_newer : LoginAttempt → LoginAttempt → Bool
is_newer a b =
    ltb b.attempted_at a.attempted_at || (a.attempted_at == b.attempted_at && ltb b.id a.id)

abbrev pub is_block : Option String → LoginAttempt → Bool
is_block username a = is_attempt_for username a && is_some a.blocked_until

abbrev newer : LoginAttempt → Option LoginAttempt → LoginAttempt
newer a none = a
newer a (some b) = if is_newer b a then b else a

unfoldable pub latest_block : Option String → List LoginAttempt → Option LoginAttempt
latest_block username [] = none
latest_block username (a ∷ rows) =
    let rest = latest_block username rows in
    if is_block username a then some (newer a rest) else rest

abbrev still_blocked : Time → Option Time → Option Time
still_blocked now none = none
still_blocked now (some t) = if ltb now t then some t else none

abbrev block_of : Time → Option LoginAttempt → Option Time
block_of now none = none
block_of now (some a) = still_blocked now a.blocked_until

-- `_active_block`
unfoldable pub active_block : Option String → Time → List LoginAttempt → Option Time
active_block username now attempts = block_of now (latest_block username attempts)

unfoldable pub insert_newest : LoginAttempt → List LoginAttempt → List LoginAttempt
insert_newest a [] = a ∷ []
insert_newest a (b ∷ bs) =
    let rest = insert_newest a bs in if is_newer a b then a ∷ b ∷ bs else b ∷ rest

unfoldable pub newest_first : List LoginAttempt → List LoginAttempt
newest_first [] = []
newest_first (a ∷ rows) = insert_newest a (newest_first rows)

-- The loop with its `break`.
abbrev pub leading_failures : List LoginAttempt → ℕ
leading_failures [] = 0
leading_failures (a ∷ rows) =
    let rest = leading_failures rows in
    if a.successful || is_some a.blocked_until then 0 else suc rest

-- `_consecutive_failures`
unfoldable pub consecutive_failures : Option String → List LoginAttempt → ℕ
consecutive_failures username attempts =
    leading_failures
      (take maximum_failed_attempts (newest_first (where_rows (is_attempt_for username) attempts)))

unfoldable pub fresh_attempt_id : List LoginAttempt → ℕ
fresh_attempt_id [] = 1
fresh_attempt_id (a ∷ rows) =
    let rest = fresh_attempt_id rows in if leb rest a.id then suc a.id else rest

abbrev is_login_user : Option String → User → Bool
is_login_user username u = same_username (some u.username_key) username && u.is_active

-- Without a user name the test is `username_key IS NULL`, which is true of no row.
abbrev pub login_user : Option String → List User → Option User
login_user username [] = none
login_user username (u ∷ us) =
    let rest = login_user username us in if is_login_user username u then some u else rest

abbrev user_id_of : Option User → Option ℕ
user_id_of none = none
user_id_of (some u) = some u.id

abbrev pub hash_of : Option User → Option String
hash_of none = none
hash_of (some u) = some u.password_hash

-- `_audit_details`
abbrev audit_details : Option String → Option Dict
audit_details none = none
audit_details (some source_address) = some (("source_address", Json.str source_address) ∷ [])

module _ (username source_address : Option String) (now : Time) where
  abbrev pub attempt_row : Option User → Bool → Option Time → List LoginAttempt → LoginAttempt
  attempt_row user successful blocked_until attempts = record {
    id = fresh_attempt_id attempts;
    user_id = user_id_of user;
    username = username;
    source_address = source_address;
    successful = successful;
    attempted_at = now;
    blocked_until = blocked_until;
  }

  -- `session.add(LoginAttempt(...))` and the event LOGIN.
  abbrev pub add_attempt : Option User → Bool → Option Time → AuditResult → Option String → Db → Db
  add_attempt user successful blocked_until outcome reason db =
      record_audit_event
        (record (event now AuditAction.login outcome AuditOrigin.administrator) {
          user_id = user_id_of user;
          target = username;
          reason = reason;
          details = audit_details source_address;
        })
        (record db {
          attempts = db.attempts ++ attempt_row user successful blocked_until db.attempts ∷ [];
        })

  abbrev add_block : Option User → Db → Db
  add_block user db = enqueue_discord_notification EventType.login_blocked none now (
      record_audit_event
        (record (event now AuditAction.login_blocked AuditResult.success AuditOrigin.system) {
          user_id = user_id_of user;
          target = username;
          details = audit_details source_address;
        })
        db)

  unfoldable pub fail_login : Option User → Db → LoginResult × Db
  fail_login user db =
      let failure_count = consecutive_failures username db.attempts + 1 in
      let new_block = now + login_block_duration in
      let reason = some "INVALID_CREDENTIALS" in
      if leb maximum_failed_attempts failure_count
      then (
        record { user = none; blocked_until = some new_block },
        add_block user (add_attempt user false (some new_block) AuditResult.failure reason db),
      )
      else (
        record { user = none; blocked_until = none },
        add_attempt user false none AuditResult.failure reason db,
      )

  abbrev pub check_password : Bool → Option User → Db → LoginResult × Db
  check_password true (some u) db = (
    record { user = some u; blocked_until = none },
    add_attempt (some u) true none AuditResult.success none db,
  )
  check_password true none db = fail_login none db
  check_password false user db = fail_login user db

  unfoldable pub attempt_user_login : (Option String → Bool) → Db → LoginResult × Db
  unfolding active_block fail_login
  attempt_user_login verify db =
      let user = login_user username db.users in
      elim (active_block username now db.attempts) [
        | some blocked_until ↦ (
          record { user = none; blocked_until = some blocked_until },
          add_attempt user false (some blocked_until) AuditResult.failure (some "BLOCKED") db,
        )
        | none ↦ check_password (verify (hash_of user)) user db
      ]
