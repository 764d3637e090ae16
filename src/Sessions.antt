-- ===== src/Sessions.antt =====
-- app/auth/sessions.py: issuing, resolving and revoking sessions. The hashes of the tokens, which
-- app/auth/csrf.py generates, are arguments.
pub mod Laws
use palworld_manager.Prelude.{
  ℕ, suc, ◌+◌, ◌*◌, Bool, true, false, not, ◌&&◌, ◌||◌, String, Option, none, some, List, [], ◌∷◌,
  ◌++◌, map, ◌==◌, ltb, leb, str_eq, if◌then◌else◌, is_some,
}
use palworld_manager.Db.Enums.{UserRole}
use palworld_manager.Db.Rows.{Time, second, User, SessionRecord, Db}

abbrev pub session_maximum_duration : ℕ
session_maximum_duration = 8 * 3600 * second

abbrev pub session_inactivity_timeout : ℕ
session_inactivity_timeout = 3600 * second

pub record SessionPrincipal : Type 0 where
  pub session_id : ℕ
  pub user_id : ℕ
  pub username : String
  pub role : UserRole
  pub password_change_required : Bool
  pub csrf_token_hash : String

unfoldable pub fresh_session_id : List SessionRecord → ℕ
fresh_session_id [] = 1
fresh_session_id (r ∷ rs) =
    let rest = fresh_session_id rs in if leb rest r.id then suc r.id else rest

unfoldable pub issue_session : User → String → String → Time → Db → SessionRecord × Db
issue_session user token_hash csrf_token_hash issued_at db =
    let row : SessionRecord = record {
      id = fresh_session_id db.sessions;
      user_id = user.id;
      token_hash = token_hash;
      csrf_token_hash = csrf_token_hash;
      expires_at = issued_at + session_maximum_duration;
      last_seen_at = issued_at;
      revoked_at = none;
    } in
    (row, record db { sessions = db.sessions ++ row ∷ [] })

abbrev pub find_user : ℕ → List User → Option User
find_user i [] = none
find_user i (u ∷ us) = let rest = find_user i us in if u.id == i then some u else rest

-- The hash of a token is unique in the table.
unfoldable pub find_session : String → List SessionRecord → Option SessionRecord
find_session token_hash [] = none
find_session token_hash (r ∷ rs) =
    let rest = find_session token_hash rs in if str_eq r.token_hash token_hash then some r else rest

abbrev pub edit_session : String → (SessionRecord → SessionRecord) → SessionRecord → SessionRecord
edit_session token_hash f r = if str_eq r.token_hash token_hash then f r else r

abbrev pub mark_revoked : Time → SessionRecord → SessionRecord
mark_revoked now r = record r { revoked_at = some now }

abbrev pub revoke_live : Time → SessionRecord → SessionRecord
revoke_live now r = if is_some r.revoked_at then r else mark_revoked now r

abbrev pub mark_seen : Time → SessionRecord → SessionRecord
mark_seen now r = record r { last_seen_at = now }

-- `record.revoked_at is not None or expired or inactive or not user.is_active`
abbrev pub is_dead : Time → SessionRecord → User → Bool
is_dead now r user =
    is_some r.revoked_at
    || (leb r.expires_at now
        || (leb (r.last_seen_at + session_inactivity_timeout) now || not user.is_active))

abbrev principal : SessionRecord → User → SessionPrincipal
principal r user = record {
  session_id = r.id;
  user_id = user.id;
  username = user.username;
  role = user.role;
  password_change_required = user.password_change_required;
  csrf_token_hash = r.csrf_token_hash;
}

-- The row was found by its hash and is written back under it.
abbrev resolve_row : Time → SessionRecord → Option User → Db → Option SessionPrincipal × Db
resolve_row now r none db = (none, db)
resolve_row now r (some user) db =
    if is_dead now r user
    then (
      none,
      record db { sessions = map (edit_session r.token_hash (revoke_live now)) db.sessions },
    )
    else (
      some (principal r user),
      record db { sessions = map (edit_session r.token_hash (mark_seen now)) db.sessions },
    )

unfoldable pub resolve_session : Option String → Time → Db → Option SessionPrincipal × Db
resolve_session none now db = (none, db)
resolve_session (some token_hash) now db = elim (find_session token_hash db.sessions) [
  | none ↦ (none, db)
  | some r ↦ resolve_row now r (find_user r.user_id db.users) db
]

abbrev pub revoke_if : (SessionRecord → Bool) → Time → SessionRecord → SessionRecord
revoke_if p now r = if p r then revoke_live now r else r

unfoldable pub revoke_session : ℕ → Time → Db → Db
revoke_session session_id now db = record db {
  sessions = map (revoke_if (λ r. r.id == session_id) now) db.sessions;
}

unfoldable pub revoke_user_sessions : ℕ → Time → Db → Db
revoke_user_sessions user_id now db = record db {
  sessions = map (revoke_if (λ r. r.user_id == user_id) now) db.sessions;
}
