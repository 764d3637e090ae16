-- ===== src/Login/Block.antt =====
-- app/auth/login_protection.py: a block holds for its fifteen minutes.
use palworld_manager.Prelude.{
  ◌+◌, ◌≤◌, ◌<◌, ◌≡◌, refl, Bool, true, false, String, Option, none, some, List, [], ◌∷◌, ◌++◌,
  arith, leb, eq_iff, sym, ◌∙◌, Option-cases, Bool-cases, inl, inr,
}
use palworld_manager.Db.Enums.{AuditResult}
use palworld_manager.Db.Rows.{Time, User, LoginAttempt, Db}
use palworld_manager.Db.Audit.{record_audit_event}
use palworld_manager.Notifications.{enqueue_discord_notification}
use palworld_manager.Login.Latest.{
  MadeBy, MadeBy-later, MadeBy-append, latest_block-append_block, latest_block-append_other,
}
use palworld_manager.Login.{
  LoginResult, same_username, is_block, latest_block, active_block, fresh_attempt_id, attempt_row,
  login_user, check_password, fail_login, attempt_user_login, hash_of, consecutive_failures,
  login_block_duration, add_attempt,
}

pub record Login : Type 0 where
  pub username : Option String
  pub source_address : Option String
  pub now : Time
  pub verify : Option String → Bool

abbrev pub login : Login → Db → LoginResult × Db
login l db = attempt_user_login l.username l.source_address l.now l.verify db

abbrev pub logins : List Login → Db → Db
logins [] db = db
logins (l ∷ ls) db = logins ls (login l db).1

-- The attempts come in the order of time, from `start` on and before `limit`.
abbrev pub Between : Time → Time → List Login → Type 0
Between start limit [] = Unit
Between start limit (l ∷ ls) = (start ≤ l.now) × (l.now < limit) × Between l.now limit ls

-- What every attempt adds to the table.
record Adds (l : Login) (db db' : Db) : Type 0 where
  row : LoginAttempt
  appended : db'.attempts ≡ db.attempts ++ row ∷ []
  its_name : row.username ≡ l.username
  its_time : row.attempted_at ≡ l.now
  its_id : row.id ≡ fresh_attempt_id db.attempts
  its_block :
      (b : Time) → active_block l.username l.now db.attempts ≡ some b → row.blocked_until ≡ some b

fail_login-Adds :
    (l : Login) (user : Option User) (db : Db)
    → active_block l.username l.now db.attempts ≡ none
    → Adds l db (fail_login l.username l.source_address l.now user db).1
unfolding fail_login record_audit_event enqueue_discord_notification
fail_login-Adds l user db free =
    elim (Bool-cases (leb 5 (consecutive_failures l.username db.attempts + 1))) [
      | inl e ↦ record {
        row =
            attempt_row l.username l.source_address l.now user false
              (some (l.now + login_block_duration)) db.attempts;
        appended = rw e refl;
        its_name = refl;
        its_time = refl;
        its_id = refl;
        its_block = λ b h. let impossible : ⊥ = ground arith in absurd impossible;
      }
      | inr e ↦ record {
        row = attempt_row l.username l.source_address l.now user false none db.attempts;
        appended = rw e refl;
        its_name = refl;
        its_time = refl;
        its_id = refl;
        its_block = λ b h. let impossible : ⊥ = ground arith in absurd impossible;
      }
    ]

check_password-Adds :
    (l : Login) (accepted : Bool) (user : Option User) (db : Db)
    → active_block l.username l.now db.attempts ≡ none
    → Adds l db (check_password l.username l.source_address l.now accepted user db).1
unfolding record_audit_event
check_password-Adds l true (some u) db free = record {
  row = attempt_row l.username l.source_address l.now (some u) true none db.attempts;
  appended = refl;
  its_name = refl;
  its_time = refl;
  its_id = refl;
  its_block = λ b h. let impossible : ⊥ = ground arith in absurd impossible;
}
check_password-Adds l true none db free = fail_login-Adds l none db free
check_password-Adds l false user db free = fail_login-Adds l user db free

login-free :
    (l : Login) (db : Db)
    → active_block l.username l.now db.attempts ≡ none
    → login l db
      ≡ check_password l.username l.source_address l.now
          (l.verify (hash_of (login_user l.username db.users)))
          (login_user l.username db.users)
          db
unfolding attempt_user_login active_block
login-free l db free = ground arith

login-blocked :
    (l : Login) (db : Db) (b : Time)
    → active_block l.username l.now db.attempts ≡ some b
    → login l db ≡ (
      record { user = none; blocked_until = some b },
      add_attempt l.username l.source_address l.now
          (login_user l.username db.users)
          false
          (some b)
          AuditResult.failure
          (some "BLOCKED")
          db,
    )
unfolding attempt_user_login active_block
login-blocked l db b blocked = ground arith

login-Adds : (l : Login) (db : Db) → Adds l db (login l db).1
unfolding record_audit_event
login-Adds l db = elim (Option-cases (active_block l.username l.now db.attempts)) [
  | inl free ↦ rw (login-free l db free) (
      check_password-Adds l (l.verify (hash_of (login_user l.username db.users)))
        (login_user l.username db.users) db free)
  | inr (b, e) ↦ record {
    row =
        attempt_row l.username l.source_address l.now (login_user l.username db.users) false
          (some b) db.attempts;
    appended = rw (login-blocked l db b e) refl;
    its_name = refl;
    its_time = refl;
    its_id = refl;
    its_block = λ b' h. ground arith;
  }
]

-- The account `username` is blocked until `b`, and no attempt is later than `now`.
record Blocked (username : Option String) (b now : Time) (db : Db) : Type 0 where
  block : LoginAttempt
  latest : latest_block username db.attempts ≡ some block
  until : block.blocked_until ≡ some b
  made : MadeBy now db.attempts

Blocked-active :
    (username : Option String) (b t now : Time) (db : Db)
    → Blocked username b t db
    → now < b
    → active_block username now db.attempts ≡ some b
unfolding active_block
Blocked-active username b t now db blocked early = ground (arith, blocked.latest, blocked.until)

same_username-eq : (a b : Option String) → same_username a b ≡ true → a ≡ b
same_username-eq none none h = refl
same_username-eq (some a) (some b) h = ground (arith, eq_iff a b)
same_username-eq none (some b) h = ground arith
same_username-eq (some a) none h = ground arith

own_username :
    (l : Login) (row : LoginAttempt) (username : Option String)
    → row.username ≡ l.username
    → is_block username row ≡ true
    → l.username ≡ username
own_username l row username named blocks =
    sym named ∙ same_username-eq row.username username (ground arith)

login-Blocked :
    (username : Option String) (b t : Time) (l : Login) (db : Db)
    → Blocked username b t db
    → t ≤ l.now
    → l.now < b
    → Blocked username b l.now (login l db).1
login-Blocked username b t l db blocked late early =
    let adds = login-Adds l db in
    let row = adds.row in
    let earlier = MadeBy-later t l.now db.attempts late blocked.made in
    let made : MadeBy l.now (login l db).1.attempts =
      rw adds.appended
        (MadeBy-append l.now db.attempts row earlier (omega (arith, adds.its_time))) in
    elim (Bool-cases (is_block username row)) [
      | inl e ↦ record {
        block = row;
        latest = rw adds.appended (
            latest_block-append_block username row db.attempts e (rw adds.its_time earlier)
              (omega (arith, adds.its_id)));
        until = adds.its_block b (
            rw (own_username l row username adds.its_name e)
              (Blocked-active username b t l.now db blocked early));
        made = made;
      }
      | inr e ↦ record {
        block = blocked.block;
        latest =
            rw (adds.appended, latest_block-append_other username row db.attempts e) blocked.latest;
        until = blocked.until;
        made = made;
      }
    ]

logins-Blocked :
    (username : Option String) (b t : Time) (ls : List Login) (db : Db)
    → Blocked username b t db
    → Between t b ls
    → (end : Time) × Blocked username b end (logins ls db)
logins-Blocked username b t [] db blocked between = (t, blocked)
logins-Blocked username b t (l ∷ ls) db blocked between =
    logins-Blocked username b l.now ls (login l db).1
      (login-Blocked username b t l db blocked between.0 between.1) between.2

active-Blocked :
    (username : Option String) (b t : Time) (db : Db)
    → MadeBy t db.attempts
    → active_block username t db.attempts ≡ some b
    → Blocked username b t db
unfolding active_block
active-Blocked username b t db made active =
    elim (Option-cases (latest_block username db.attempts)) [
      | inl e ↦ let impossible : ⊥ = ground arith in absurd impossible
      | inr (a, e) ↦ record { block = a; latest = e; until = ground arith; made = made }
    ]

-- For as long as the block of an account lasts, no attempt on it gets in. Let the account be
-- blocked at a time that is no earlier than any recorded attempt, and let attempts follow, on any
-- accounts and with any passwords, each no earlier than the one before and all before the block
-- ends. Then an attempt on the blocked account before the block ends is refused, whatever its
-- password is, and it reports the same end of the block.
pub block_holds :
    (t b : Time) (ls : List Login) (l : Login) (db : Db)
    → MadeBy t db.attempts
    → active_block l.username t db.attempts ≡ some b
    → Between t b ls
    → l.now < b
    → (login l (logins ls db)).0 ≡ record { user = none; blocked_until = some b }
block_holds t b ls l db made blocked between early =
    let (end, after) =
      logins-Blocked l.username b t ls db (active-Blocked l.username b t db made blocked) between in
    rw
      (login-blocked l (logins ls db) b
        (Blocked-active l.username b end l.now (logins ls db) after early))
      refl
