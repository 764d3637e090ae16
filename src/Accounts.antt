-- ===== src/Accounts.antt =====
-- app/users/service.py, app/auth/service.py and app/auth/passwords.py: the accounts and their
-- passwords. Python's text methods and the argon2 hasher are parameters.
pub mod Laws
pub mod Changes
pub mod Administrators
use Prim.Native.Char.{code}
use palworld_manager.Prelude.{
  ℕ, zero, suc, ◌+◌, Bool, true, false, not, ◌&&◌, ◌||◌, String, Option, none, some, List, [], ◌∷◌,
  ◌++◌, map, ◌==◌, ltb, leb, str_eq, if◌then◌else◌, exists, count,
}
use palworld_manager.Prelude.Result.{
  Error, Result, ok, err, ◌>>=◌, ◌>>◌, guard, or_raise, reraise_integrity,
}
use palworld_manager.Prelude.Dict.{Json, Dict}
use palworld_manager.Db.Enums.{UserRole, AuditAction, AuditResult, AuditOrigin}
use palworld_manager.Db.Rows.{Time, User, Db}
use palworld_manager.Db.Audit.{event, record_audit_event}
use palworld_manager.Sessions.{find_user, revoke_user_sessions}

-- `str.strip`, `str.casefold`, and `PasswordHasher.hash` and `verify` (true: no exception).
pub record Library : Type 0 where
  pub strip : String → String
  pub casefold : String → String
  pub hash : String → String
  pub verify : String → String → Bool

-- `len(text)`
unfoldable pub text_length : String → ℕ
text_length String.[] = 0
text_length (String.◌∷◌ c s) = suc (text_length s)

-- `"\n" in text or "\r" in text`
unfoldable pub has_line_break : String → Bool
has_line_break String.[] = false
has_line_break (String.◌∷◌ c s) =
    let rest = has_line_break s in if code c == 10 || code c == 13 then true else rest

abbrev pub role_value : UserRole → String
role_value UserRole.admin = "ADMIN"
role_value UserRole.user = "USER"

abbrev pub is_admin : UserRole → Bool
is_admin UserRole.admin = true
is_admin UserRole.user = false

abbrev pub same_role : UserRole → UserRole → Bool
same_role UserRole.admin r = is_admin r
same_role UserRole.user r = not (is_admin r)

unfoldable pub validate_password : String → Result (Unit {0})
unfolding text_length
validate_password password = do
  guard (leb 6 (text_length password)) Error.password_too_short
  guard (leb (text_length password) 1024) Error.password_too_long

unfoldable pub fresh_user_id : List User → ℕ
fresh_user_id [] = 1
fresh_user_id (u ∷ us) = let rest = fresh_user_id us in if leb rest u.id then suc u.id else rest

-- `session.add(user)` and `session.flush()`: the name and its key are unique.
unfoldable pub insert_user : User → List User → Result (User × List User)
unfolding fresh_user_id
insert_user row us =
    let row' = record row { id = fresh_user_id us } in
    if exists (λ u. str_eq u.username row.username || str_eq u.username_key row.username_key) us
    then err Error.integrity_error
    else ok (row', us ++ row' ∷ [])

abbrev pub edit_user : ℕ → (User → User) → User → User
edit_user i f u = if u.id == i then f u else u

unfoldable pub update_user : ℕ → (User → User) → List User → List User
update_user i f us = map (edit_user i f) us

abbrev pub is_active_admin : User → Bool
is_active_admin u = is_admin u.role && u.is_active

unfoldable pub active_admins : List User → ℕ
active_admins us = count is_active_admin us

-- `_managed_user`
unfoldable pub managed_user : ℕ → ℕ → Db → Result User
managed_user target_user_id actor_user_id db = do
  guard (not (target_user_id == actor_user_id)) Error.self_management
  or_raise (find_user target_user_id db.users) Error.user_not_found

-- `_require_another_active_administrator`
unfoldable pub require_another_active_administrator : User → Db → Result (Unit {0})
require_another_active_administrator user db =
    guard (not (user.is_active && leb (active_admins db.users) 1)) Error.last_active_administrator

-- `_audit`
abbrev pub audit_user : AuditAction → ℕ → User → Option Dict → Time → Db → Db
audit_user action actor_user_id user details now db =
    record_audit_event
      (record (event now action AuditResult.success AuditOrigin.administrator) {
        user_id = some actor_user_id;
        target = some user.username;
        details = details;
      })
      db

-- A change of an account row, which ends the account's sessions.
abbrev pub change_account : ℕ → (User → User) → Time → Db → Db
change_account user_id f now db =
    revoke_user_sessions user_id now (record db { users = update_user user_id f db.users })

abbrev pub set_role : UserRole → Time → User → User
set_role role now u = record u { role = role; updated_at = now }

unfoldable pub change_user_role : ℕ → UserRole → ℕ → Time → Db → Result (User × Db)
unfolding managed_user require_another_active_administrator
change_user_role target_user_id role actor_user_id now db = do
  user ← managed_user target_user_id actor_user_id db
  if same_role user.role role then ok (user, db) else (do
    if is_admin user.role && not (is_admin role)
        then require_another_active_administrator user db
        else ok tt
    ok (
      set_role role now user,
      audit_user AuditAction.user_role_changed actor_user_id user
          (some (
            ("previous_role", Json.str (role_value user.role))
            ∷ ("role", Json.str (role_value role))
            ∷ []))
          now (change_account user.id (set_role role now) now db),
    ))

abbrev pub same_flag : Bool → Bool → Bool
same_flag a b = if a then b else not b

abbrev pub set_active : Bool → Time → User → User
set_active active now u = record u { is_active = active; updated_at = now }

unfoldable pub set_user_active : ℕ → Bool → ℕ → Time → Db → Result (User × Db)
unfolding managed_user require_another_active_administrator
set_user_active target_user_id active actor_user_id now db = do
  user ← managed_user target_user_id actor_user_id db
  if same_flag user.is_active active then ok (user, db) else (do
    if not active && is_admin user.role then require_another_active_administrator user db else ok tt
    ok (
      set_active active now user,
      audit_user AuditAction.user_status_changed actor_user_id user
          (some (("active", Json.bool active) ∷ [])) now
          (change_account user.id (set_active active now) now db),
    ))

abbrev pub set_password : String → Bool → Time → User → User
set_password password_hash change_required now u = record u {
  password_hash = password_hash;
  password_change_required = change_required;
  updated_at = now;
}

module _ (l : Library) where
  unfoldable pub normalize_username : String → Result String
  unfolding has_line_break text_length
  normalize_username username = do
    guard (not (has_line_break username)) Error.invalid_username
    guard (not (text_length (l.strip username) == 0)) Error.invalid_username
    guard (leb (text_length (l.strip username)) 100) Error.invalid_username
    ok (l.strip username)

  unfoldable pub hash_password : String → Result String
  unfolding validate_password
  hash_password password = do validate_password password; ok (l.hash password)

  unfoldable pub verify_password : String → String → Bool
  unfolding text_length
  verify_password password password_hash =
      leb (text_length password) 1024 && l.verify password_hash password

  -- `_dummy_password_hash` is the hash of a fixed text.
  unfoldable pub verify_password_or_dummy : String → Option String → Bool
  unfolding verify_password
  verify_password_or_dummy password none =
      false && verify_password password (l.hash "palworld-manager-dummy-password")
  verify_password_or_dummy password (some password_hash) = verify_password password password_hash

  abbrev pub new_user : String → String → UserRole → Bool → Time → User
  new_user username password_hash role change_required now = record {
    id = 0;
    username = username;
    username_key = l.casefold username;
    password_hash = password_hash;
    role = role;
    is_active = true;
    password_change_required = change_required;
    updated_at = now;
  }

  abbrev pub key_in_use : String → Db → Bool
  key_in_use key db = exists (λ u. str_eq u.username_key key) db.users

  unfoldable pub create_user : String → String → UserRole → ℕ → Time → Db → Result (User × Db)
  unfolding normalize_username hash_password insert_user
  create_user username temporary_password role actor_user_id now db = do
    normalized ← normalize_username username
    password_hash ← hash_password temporary_password
    guard (not (key_in_use (l.casefold normalized) db)) Error.username_already_exists
    inserted ←
        reraise_integrity Error.username_already_exists
          (insert_user (new_user normalized password_hash role true now) db.users)
    ok (
      inserted.0,
      audit_user AuditAction.user_created actor_user_id inserted.0
          (some (("role", Json.str (role_value role)) ∷ [])) now (record db { users = inserted.1 }),
    )

  unfoldable pub reset_user_password : ℕ → String → ℕ → Time → Db → Result (User × Db)
  unfolding hash_password managed_user
  reset_user_password target_user_id temporary_password actor_user_id now db = do
    password_hash ← hash_password temporary_password
    user ← managed_user target_user_id actor_user_id db
    ok (
      set_password password_hash true now user,
      audit_user AuditAction.user_password_reset actor_user_id user none now
          (change_account user.id (set_password password_hash true now) now db),
    )

  unfoldable pub update_own_password : ℕ → String → Time → Db → Result (User × Db)
  unfolding hash_password
  update_own_password user_id new_password now db = do
    user ← or_raise (find_user user_id db.users) Error.user_not_found
    password_hash ← hash_password new_password
    ok (
      set_password password_hash false now user,
      change_account user.id (set_password password_hash false now) now db,
    )

  unfoldable pub create_administrator : String → String → Time → Db → Result (User × Db)
  unfolding normalize_username hash_password insert_user
  create_administrator username password now db = do
    guard (not (exists (λ u. true) db.users)) Error.administrator_already_exists
    normalized ← normalize_username username
    password_hash ← hash_password password
    inserted ← insert_user (new_user normalized password_hash UserRole.admin false now) db.users
    ok (inserted.0, record db { users = inserted.1 })

  abbrev is_administrator_named : String → User → Bool
  is_administrator_named key u = str_eq u.username_key key && is_admin u.role

  abbrev find_administrator : String → List User → Option User
  find_administrator key [] = none
  find_administrator key (u ∷ us) =
      let rest = find_administrator key us in if is_administrator_named key u then some u else rest

  unfoldable pub reset_administrator_password : String → String → Time → Db → Result (User × Db)
  unfolding normalize_username hash_password
  reset_administrator_password username password now db = do
    normalized ← normalize_username username
    user ←
        or_raise (find_administrator (l.casefold normalized) db.users) Error.administrator_not_found
    password_hash ← hash_password password
    ok (
      set_password password_hash false now user,
      change_account user.id (set_password password_hash false now) now db,
    )
