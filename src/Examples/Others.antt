-- ===== src/Examples/Others.antt =====
-- The login block, the worker's lease and the outbox on small tables.
use palworld_manager.Prelude.{
  ◌↔◌, true, false, ◌+◌, ◌*◌, ◌≡◌, ◌<◌, ◌≢◌, refl, true, false, String, none, some, List, [], ◌∷◌,
  arith, eq_iff,
}
use palworld_manager.Prelude.Result.{Error, err}
use palworld_manager.Db.Enums.{EventType, NotificationStatus, DeliveryErrorKind, UserRole}
use palworld_manager.Db.Rows.{
  second, WorkerHeartbeat, LoginAttempt, NotificationEvent, User, SessionRecord, Db,
}
use palworld_manager.Heartbeat.{
  start, lease_steps, record_worker_start, record_worker_heartbeat, lease_is_exclusive,
}
use palworld_manager.Login.{latest_block, active_block}
use palworld_manager.Login.Block.{Login, login, logins, block_holds}
use palworld_manager.Notifications.{
  delivered, refused, next_eligible, claim_next_notification, process_claimed,
  process_next_notification,
}
use palworld_manager.Notifications.Dispatch.{
  EventInv, AllEvents, Operation, enqueue, process, restart, apply_all, apply_all-EventInv,
}
use palworld_manager.Notifications.Progress.{work, process_next_notification-work}
use palworld_manager.Sessions.{
  SessionPrincipal, find_session, resolve_session, revoke_user_sessions,
}
use palworld_manager.Sessions.Laws.{
  SessionRequest, serve_requests, refused_stays_refused, revoked_user_is_out,
}
use palworld_manager.Authorization.{
  PathPatterns, Answer, dispatch, IsAboutPassword, dispatch-temporary_password,
}
use palworld_manager.Examples.{empty_db}

abbrev pub worker_a : String
worker_a = "a"

abbrev pub worker_b : String
worker_b = "b"

abbrev pub no_name : String
no_name = ""

abbrev pub a_row : WorkerHeartbeat
a_row = record { worker_id = worker_a; started_at = 0; heartbeat_at = 10 * second }

abbrev pub leased_db : Db
leased_db = record empty_db { heartbeat = some a_row }

pub b_is_other : worker_b ≢ worker_a
b_is_other = ground (arith, eq_iff worker_b worker_a)

pub b_is_named : worker_b ≢ no_name
b_is_named = ground (arith, eq_iff worker_b no_name)

lease_is_exclusive_example :
    (record_worker_start worker_b
        (25 * second)
        (lease_steps (start worker_b (15 * second) ∷ []) leased_db)
      ≡ err Error.worker_already_running)
    × ((record_worker_heartbeat worker_a
          (26 * second)
          (lease_steps (start worker_b (15 * second) ∷ []) leased_db)).0
        ≡ true)
lease_is_exclusive_example =
    lease_is_exclusive a_row (start worker_b (15 * second) ∷ []) leased_db worker_b (25 * second)
      (26 * second) refl ((b_is_other, omega arith), tt) b_is_other b_is_named (omega arith)

abbrev blocked_attempt : LoginAttempt
blocked_attempt = record {
  id = 1;
  user_id = none;
  username = some "admin";
  source_address = none;
  successful = false;
  attempted_at = 100;
  blocked_until = some 1000;
}

abbrev blocked_db : Db
blocked_db = record empty_db { attempts = blocked_attempt ∷ [] }

abbrev good_login : Login
good_login = record {
  username = some "admin";
  source_address = none;
  now = 300;
  verify = λ hash. true;
}

abbrev other_login : Login
other_login = record good_login { username = some "other"; now = 200 }

block_holds_example :
    (login good_login (logins (other_login ∷ []) blocked_db)).0
    ≡ record { user = none; blocked_until = some 1000 }
unfolding active_block latest_block
block_holds_example =
    block_holds 100 1000 (other_login ∷ []) good_login blocked_db (omega arith, tt) refl
      (omega arith, omega arith, tt) (omega arith)

abbrev some_operations : List Operation
some_operations =
    enqueue EventType.server_crash none 5
    ∷ process (refused DeliveryErrorKind.timeout) 6
    ∷ restart 7
    ∷ process delivered (7 + 60 * second)
    ∷ []

apply_all_example : AllEvents EventInv (apply_all some_operations empty_db).notifications
apply_all_example = apply_all-EventInv some_operations empty_db tt

abbrev new_event : NotificationEvent
new_event = record {
  id = 1;
  event_type = EventType.server_crash;
  channel = "DISCORD";
  status = NotificationStatus.pending;
  created_at = 5;
  updated_at = 5;
  job_id = none;
  attempts = 0;
  next_attempt_at = none;
  delivered_at = none;
  last_error = none;
}

abbrev outbox_db : Db
outbox_db = record empty_db { notifications = new_event ∷ [] }

process_next_example :
    work (process_next_notification (refused DeliveryErrorKind.timeout) 6 outbox_db).1.notifications
    < work outbox_db.notifications
unfolding process_next_notification process_claimed claim_next_notification next_eligible
process_next_example =
    process_next_notification-work (refused DeliveryErrorKind.timeout) 6 outbox_db refl

abbrev pub admin : User
admin = record {
  id = 1;
  username = "admin";
  username_key = "admin";
  password_hash = "hash";
  role = UserRole.admin;
  is_active = true;
  password_change_required = false;
  updated_at = 0;
}

abbrev pub old_session : SessionRecord
old_session = record {
  id = 1;
  user_id = 1;
  token_hash = "token";
  csrf_token_hash = "csrf";
  expires_at = 50;
  last_seen_at = 10;
  revoked_at = none;
}

abbrev pub session_db : Db
session_db = record empty_db { users = admin ∷ []; sessions = old_session ∷ [] }

abbrev other_requests : List SessionRequest
other_requests =
    SessionRequest.issue admin "other" "csrf" 62
    ∷ SessionRequest.resolve (some "other") 63
    ∷ SessionRequest.revoke 2 64
    ∷ []

-- The session has expired; another one is issued, used and revoked.
refused_stays_refused_example :
    (resolve_session
      (some "token")
      70
      (serve_requests other_requests (resolve_session (some "token") 60 session_db).1)).0
    ≡ none
unfolding resolve_session find_session
refused_stays_refused_example =
    refused_stays_refused "token" 60 70 other_requests session_db refl refl

revoked_user_example :
    (resolve_session (some "token") 30 (revoke_user_sessions 1 25 session_db)).0 ≡ none
unfolding find_session
revoked_user_example = revoked_user_is_out 1 "token" 25 30 session_db old_session refl refl

-- The session of an account whose password is temporary.
abbrev temporary_db : Db
temporary_db = record session_db {
  users = record admin { role = UserRole.user; password_change_required = true } ∷ [];
}

abbrev temporary_principal : SessionPrincipal
temporary_principal = record {
  session_id = 1;
  user_id = 1;
  username = "admin";
  role = UserRole.user;
  password_change_required = true;
  csrf_token_hash = "csrf";
}

abbrev no_patterns : PathPatterns
no_patterns = record { is_user_get = λ path. false; is_user_post = λ path. false }

dispatch-temporary_password_example :
    ((dispatch no_patterns (some "token") "POST" "/logout" 20 temporary_db).0 ≡ Answer.call_next)
    ↔ IsAboutPassword "POST" "/logout"
unfolding resolve_session find_session
dispatch-temporary_password_example =
    dispatch-temporary_password no_patterns (some "token") "POST" "/logout" 20 temporary_db
      temporary_principal (ground (arith, eq_iff "/logout" "/health"))
      (ground (arith, eq_iff "/logout" "/login")) refl refl refl
