-- ===== src/Accounts/Changes.antt =====
-- app/users/service.py: the changes of one account that leave an active administrator.
use palworld_manager.Prelude.{
  ℕ, ◌≤◌, ◌≡◌, refl, Bool, true, false, not, ◌&&◌, some, List, arith, ◌==◌, if◌then◌else◌,
  Option-cases, Bool-cases, inl, inr,
}
use palworld_manager.Prelude.Result.{Error, ok, Result-cases, >>=-eq-ok, guard-eq-ok}
use palworld_manager.Db.Enums.{UserRole}
use palworld_manager.Db.Rows.{Time, User, Db}
use palworld_manager.Db.Audit.{record_audit_event}
use palworld_manager.Sessions.{find_user, revoke_user_sessions}
use palworld_manager.Accounts.{
  is_admin, same_role, same_flag, is_active_admin, active_admins, update_user, set_role, set_active,
  managed_user, require_another_active_administrator, change_user_role, set_user_active,
}
use palworld_manager.Accounts.Laws.{
  UsersUnique, UsersUnique-update_user, find_user-id, count-update_user,
}

-- The ids are apart, and an active administrator is there.
pub record Administered (us : List User) : Type 0 where
  pub unique : UsersUnique us
  pub somebody : 1 ≤ active_admins us

-- A change of one account that leaves an administrator: the account is not one, or it stays one,
-- or it is not the only one.
pub record SafeChange (us us' : List User) : Type 0 where
  pub id : ℕ
  pub user : User
  pub change : User → User
  pub keeps_id : (x : User) → (change x).id ≡ x.id
  pub found : find_user id us ≡ some user
  pub another :
      is_active_admin user ≡ true → is_active_admin (change user) ≡ false → 2 ≤ active_admins us
  pub changed : us' ≡ update_user id change us

pub SafeChange-Administered :
    (us us' : List User) → SafeChange us us' → Administered us → Administered us'
unfolding active_admins
SafeChange-Administered us us' c v = rw c.changed (record {
  unique = UsersUnique-update_user c.id c.change us c.keeps_id v.unique;
  somebody = ground (
    arith,
    count-update_user is_active_admin c.id c.change us c.user v.unique c.found,
    v.somebody,
    c.another,
  );
})

pub managed_user-found :
    (target actor : ℕ) (db : Db) {u : User}
    → managed_user target actor db ≡ ok u
    → find_user u.id db.users ≡ some u
unfolding managed_user
managed_user-found target actor db {u} h =
    let (other, found) = guard-eq-ok (not (target == actor)) Error.self_management _ h in
    elim (Option-cases (find_user target db.users)) [
      | inl e ↦ let impossible : ⊥ = ground arith in absurd impossible
      | inr (x, e) ↦ ground (arith, find_user-id target db.users e)
    ]

pub another_required :
    (user : User) (db : Db)
    → require_another_active_administrator user db ≡ ok tt
    → user.is_active ≡ true
    → 2 ≤ active_admins db.users
unfolding require_another_active_administrator
another_required user db h active = ground arith

pub change_user_role-Administered :
    (target : ℕ) (role : UserRole) (actor : ℕ) (now : Time) (db db' : Db) (u : User)
    → change_user_role target role actor now db ≡ ok (u, db')
    → Administered db.users
    → Administered db'.users
unfolding change_user_role record_audit_event revoke_user_sessions
change_user_role-Administered target role actor now db db' u h v =
    let (user, managed, rest) = >>=-eq-ok (managed_user target actor db) _ h in
    elim (Bool-cases (same_role user.role role)) [
      | inl e ↦ let same : db'.users ≡ db.users = ground arith in rw same v
      | inr e ↦
          elim (Result-cases (
            if is_admin user.role && not (is_admin role)
            then require_another_active_administrator user db
            else ok tt)) [
              | inr (x, refused) ↦ let impossible : ⊥ = ground arith in absurd impossible
              | inl (done, required) ↦
                  SafeChange-Administered db.users db'.users
                    (record {
                      id = user.id;
                      user = user;
                      change = set_role role now;
                      keeps_id = λ x. refl;
                      found = managed_user-found target actor db managed;
                      another = λ before after. ground (arith, another_required user db);
                      changed = ground arith;
                    })
                    v
            ]
    ]

pub set_user_active-Administered :
    (target : ℕ) (active : Bool) (actor : ℕ) (now : Time) (db db' : Db) (u : User)
    → set_user_active target active actor now db ≡ ok (u, db')
    → Administered db.users
    → Administered db'.users
unfolding set_user_active record_audit_event revoke_user_sessions
set_user_active-Administered target active actor now db db' u h v =
    let (user, managed, rest) = >>=-eq-ok (managed_user target actor db) _ h in
    elim (Bool-cases (same_flag user.is_active active)) [
      | inl e ↦ let same : db'.users ≡ db.users = ground arith in rw same v
      | inr e ↦
          elim (Result-cases (
            if not active && is_admin user.role
            then require_another_active_administrator user db
            else ok tt)) [
              | inr (x, refused) ↦ let impossible : ⊥ = ground arith in absurd impossible
              | inl (done, required) ↦
                  SafeChange-Administered db.users db'.users
                    (record {
                      id = user.id;
                      user = user;
                      change = set_active active now;
                      keeps_id = λ x. refl;
                      found = managed_user-found target actor db managed;
                      another = λ before after. ground (arith, another_required user db);
                      changed = ground arith;
                    })
                    v
            ]
    ]
