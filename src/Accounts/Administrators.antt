-- ===== src/Accounts/Administrators.antt =====
-- app/users/service.py: there is always somebody who can administer the panel.
use palworld_manager.Prelude.{
  ℕ, ◌≡◌, refl, Bool, true, false, not, String, some, List, [], ◌∷◌, arith, Option-cases,
}
use palworld_manager.Prelude.Result.{
  Error, Result, ok, err, or_raise, reraise_integrity, >>=-eq-ok, guard-eq-ok, reraise-eq-ok,
}
use palworld_manager.Db.Enums.{UserRole}
use palworld_manager.Db.Rows.{Time, User, Db}
use palworld_manager.Db.Audit.{record_audit_event}
use palworld_manager.Sessions.{find_user, revoke_user_sessions}
use palworld_manager.Accounts.{
  Library, update_user, set_password, managed_user, change_user_role, set_user_active, create_user,
  reset_user_password, update_own_password, new_user, normalize_username, hash_password, key_in_use,
  insert_user,
}
use palworld_manager.Accounts.Laws.{find_user-id, insert_user-kept}
use palworld_manager.Accounts.Changes.{
  Administered, SafeChange-Administered, managed_user-found, change_user_role-Administered,
  set_user_active-Administered,
}

module _ (l : Library) where
  create_user-Administered :
      (username password : String) (role : UserRole) (actor : ℕ) (now : Time) (db db' : Db)
      (u : User)
      → create_user l username password role actor now db ≡ ok (u, db')
      → Administered db.users
      → Administered db'.users
  unfolding create_user record_audit_event
  create_user-Administered username password role actor now db db' u h v =
      let (name, named, h1) = >>=-eq-ok (normalize_username l username) _ h in
      let (hash, hashed, h2) = >>=-eq-ok (hash_password l password) _ h1 in
      let (free, h3) =
        guard-eq-ok (not (key_in_use l (l.casefold name) db)) Error.username_already_exists _ h2 in
      let row = new_user l name hash role true now in
      let (inserted, added, h4) =
        >>=-eq-ok (reraise_integrity Error.username_already_exists (insert_user row db.users)) _
          h3 in
      let kept =
        insert_user-kept row db.users
          (reraise-eq-ok Error.username_already_exists (insert_user row db.users) added) v.unique in
      let users_are : db'.users ≡ inserted.1 = ground arith in
      rw users_are (record { unique = kept.0; somebody = omega (arith, kept.1, v.somebody) })

  set_password-Administered :
      (hash : String) (required : Bool) (now : Time) (user : User) (us : List User)
      → find_user user.id us ≡ some user
      → Administered us
      → Administered (update_user user.id (set_password hash required now) us)
  set_password-Administered hash required now user us found v =
      SafeChange-Administered us (update_user user.id (set_password hash required now) us)
        (record {
          id = user.id;
          user = user;
          change = set_password hash required now;
          keeps_id = λ x. refl;
          found = found;
          another = λ before after. ground arith;
          changed = refl;
        })
        v

  reset_user_password-Administered :
      (target : ℕ) (password : String) (actor : ℕ) (now : Time) (db db' : Db) (u : User)
      → reset_user_password l target password actor now db ≡ ok (u, db')
      → Administered db.users
      → Administered db'.users
  unfolding reset_user_password record_audit_event revoke_user_sessions
  reset_user_password-Administered target password actor now db db' u h v =
      let (hash, hashed, h1) = >>=-eq-ok (hash_password l password) _ h in
      let (user, managed, h2) = >>=-eq-ok (managed_user target actor db) _ h1 in
      let users_are : db'.users ≡ update_user user.id (set_password hash true now) db.users =
        ground arith in
      rw users_are (
        set_password-Administered hash true now user db.users
          (managed_user-found target actor db managed) v)

  update_own_password-Administered :
      (i : ℕ) (password : String) (now : Time) (db db' : Db) (u : User)
      → update_own_password l i password now db ≡ ok (u, db')
      → Administered db.users
      → Administered db'.users
  unfolding update_own_password revoke_user_sessions
  update_own_password-Administered i password now db db' u h v =
      let (user, found, h1) =
        >>=-eq-ok (or_raise (find_user i db.users) Error.user_not_found) _ h in
      let (hash, hashed, h2) = >>=-eq-ok (hash_password l password) _ h1 in
      let at_id : find_user i db.users ≡ some user =
        ground (arith, Option-cases (find_user i db.users)) in
      let users_are : db'.users ≡ update_user user.id (set_password hash false now) db.users =
        ground arith in
      rw users_are (
        set_password-Administered hash false now user db.users
          (ground (arith, find_user-id i db.users at_id)) v)

  -- What an administrator, or a user for himself, may ask of the accounts.
  pub data AccountRequest : Type 0 where
    create : String → String → UserRole → AccountRequest
    change_role : ℕ → UserRole → AccountRequest
    change_active : ℕ → Bool → AccountRequest
    reset_password : ℕ → String → AccountRequest
    own_password : String → AccountRequest

  abbrev accounts_after : Db → Result (User × Db) → Db
  accounts_after db (ok (u, db')) = db'
  accounts_after db (err x) = db

  -- The request of the account `actor` at the time `now`; one that raises is rolled back.
  abbrev pub serve : ℕ → Time → AccountRequest → Db → Db
  serve actor now (create username password role) db =
      accounts_after db (create_user l username password role actor now db)
  serve actor now (change_role target role) db =
      accounts_after db (change_user_role target role actor now db)
  serve actor now (change_active target active) db =
      accounts_after db (set_user_active target active actor now db)
  serve actor now (reset_password target password) db =
      accounts_after db (reset_user_password l target password actor now db)
  serve actor now (own_password password) db =
      accounts_after db (update_own_password l actor password now db)

  abbrev pub serve_all : List (ℕ × (Time × AccountRequest)) → Db → Db
  serve_all [] db = db
  serve_all ((actor, (now, request)) ∷ requests) db =
      serve_all requests (serve actor now request db)

  after-Administered :
      (db : Db) (result : Result (User × Db))
      → ((u : User) (db' : Db) → result ≡ ok (u, db') → Administered db'.users)
      → Administered db.users
      → Administered (accounts_after db result).users
  after-Administered db (ok (u, db')) keep v = keep u db' refl
  after-Administered db (err x) keep v = v

  serve-Administered :
      (actor : ℕ) (now : Time) (request : AccountRequest) (db : Db)
      → Administered db.users
      → Administered (serve actor now request db).users
  serve-Administered actor now (create username password role) db v =
      after-Administered db (create_user l username password role actor now db)
        (λ u db' e. create_user-Administered username password role actor now db db' u e v) v
  serve-Administered actor now (change_role target role) db v =
      after-Administered db (change_user_role target role actor now db)
        (λ u db' e. change_user_role-Administered target role actor now db db' u e v) v
  serve-Administered actor now (change_active target active) db v =
      after-Administered db (set_user_active target active actor now db)
        (λ u db' e. set_user_active-Administered target active actor now db db' u e v) v
  serve-Administered actor now (reset_password target password) db v =
      after-Administered db (reset_user_password l target password actor now db)
        (λ u db' e. reset_user_password-Administered target password actor now db db' u e v) v
  serve-Administered actor now (own_password password) db v =
      after-Administered db (update_own_password l actor password now db)
        (λ u db' e. update_own_password-Administered actor password now db db' u e v) v

  -- There is always an active administrator: from accounts with distinct ids and at least one
  -- active administrator, any sequence of requests by any accounts (new accounts, changes of role
  -- and status, resets and own changes of passwords) leads to such accounts again.
  pub serve_all-Administered :
      (requests : List (ℕ × (Time × AccountRequest))) (db : Db)
      → Administered db.users
      → Administered (serve_all requests db).users
  serve_all-Administered [] db v = v
  serve_all-Administered ((actor, (now, request)) ∷ requests) db v =
      serve_all-Administered requests (serve actor now request db)
        (serve-Administered actor now request db v)
