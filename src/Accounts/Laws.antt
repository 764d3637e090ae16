-- ===== src/Accounts/Laws.antt =====
-- The table of accounts of app/users/service.py: lookups, updates and the count of administrators.
use palworld_manager.Prelude.{
  ℕ, ◌+◌, ◌≤◌, ◌<◌, ◌≡◌, refl, Bool, false, none, some, List, [], ◌∷◌, ◌++◌, arith, ◌==◌,
  if◌then◌else◌, count, count-append, Bool-cases, inl, inr,
}
use palworld_manager.Prelude.Result.{ok}
use palworld_manager.Db.Rows.{User}
use palworld_manager.Sessions.{find_user}
use palworld_manager.Accounts.{
  update_user, fresh_user_id, insert_user, is_active_admin, active_admins,
}

-- No two accounts have one id.
abbrev pub UsersUnique : List User → Type 0
UsersUnique [] = Unit
UsersUnique (u ∷ us) = (find_user u.id us ≡ none) × UsersUnique us

pub find_user-id : (i : ℕ) (us : List User) {u : User} → find_user i us ≡ some u → u.id ≡ i
find_user-id i [] h = cc
find_user-id i (x ∷ us) {u} h = ground (arith, find_user-id i us {u = u})

pub find_user-update_user :
    (i k : ℕ) (f : User → User) (us : List User)
    → ((u : User) → (f u).id ≡ u.id)
    → find_user i us ≡ none
    → find_user i (update_user k f us) ≡ none
unfolding update_user
find_user-update_user i k f [] keeps h = refl
find_user-update_user i k f (x ∷ us) keeps h =
    ground (arith, keeps x, find_user-update_user i k f us keeps)

pub UsersUnique-update_user :
    (k : ℕ) (f : User → User) (us : List User)
    → ((u : User) → (f u).id ≡ u.id)
    → UsersUnique us
    → UsersUnique (update_user k f us)
unfolding update_user
UsersUnique-update_user k f [] keeps h = tt
UsersUnique-update_user k f (x ∷ us) keeps h = (
  ground (arith, keeps x, find_user-update_user x.id k f us keeps h.0),
  UsersUnique-update_user k f us keeps h.1,
)

-- An id that is not in the table: nothing is changed.
update_absent :
    (p : User → Bool) (i : ℕ) (f : User → User) (us : List User)
    → find_user i us ≡ none
    → count p (update_user i f us) ≡ count p us
unfolding update_user
update_absent p i f [] h = refl
update_absent p i f (x ∷ us) h = ground (arith, update_absent p i f us)

abbrev bit : Bool → ℕ
bit b = if b then 1 else 0

-- One row changes, and the count by as much.
pub count-update_user :
    (p : User → Bool) (i : ℕ) (f : User → User) (us : List User) (u : User)
    → UsersUnique us
    → find_user i us ≡ some u
    → count p (update_user i f us) + bit (p u) ≡ count p us + bit (p (f u))
unfolding update_user
count-update_user p i f [] u unique h = ground arith
count-update_user p i f (x ∷ us) u unique h = elim (Bool-cases (x.id == i)) [
  | inl e ↦
      let absent : find_user i us ≡ none = ground (arith, unique.0) in
      ground (arith, update_absent p i f us absent)
  | inr e ↦ ground (arith, count-update_user p i f us u unique.1)
]

find_user-lt-fresh :
    (i : ℕ) (us : List User) {u : User} → find_user i us ≡ some u → i < fresh_user_id us
unfolding fresh_user_id
find_user-lt-fresh i [] h = cc
find_user-lt-fresh i (x ∷ us) {u} h = ground (arith, find_user-lt-fresh i us {u = u})

find_user-append :
    (i : ℕ) (us : List User) (row : User)
    → find_user i us ≡ none
    → (row.id == i) ≡ false
    → find_user i (us ++ row ∷ []) ≡ none
find_user-append i [] row h differs = ground arith
find_user-append i (x ∷ us) row h differs = ground (arith, find_user-append i us row)

abbrev Below : ℕ → List User → Type 0
Below n [] = Unit
Below n (u ∷ us) = (u.id < n) × Below n us

Below-mono : (n m : ℕ) (us : List User) → n ≤ m → Below n us → Below m us
Below-mono n m [] le h = tt
Below-mono n m (u ∷ us) le h = (omega arith, Below-mono n m us le h.1)

Below-fresh : (us : List User) → Below (fresh_user_id us) us
unfolding fresh_user_id
Below-fresh [] = tt
Below-fresh (u ∷ us) = (
  ground arith,
  Below-mono (fresh_user_id us) (fresh_user_id (u ∷ us)) us (ground arith) (Below-fresh us),
)

UsersUnique-append :
    (us : List User) (row : User) → Below row.id us → UsersUnique us → UsersUnique (us ++ row ∷ [])
UsersUnique-append [] row below h = (refl, tt)
UsersUnique-append (x ∷ us) row below h =
    (find_user-append x.id us row h.0 (ground arith), UsersUnique-append us row below.1 h.1)

-- An insertion keeps the ids apart and removes no administrator.
pub insert_user-kept :
    (row : User) (us : List User) {row' : User} {us' : List User}
    → insert_user row us ≡ ok (row', us')
    → UsersUnique us
    → UsersUnique us' × (active_admins us ≤ active_admins us')
unfolding insert_user active_admins
insert_user-kept row us {row'} {us'} h unique =
    let row'' = record row { id = fresh_user_id us } in
    let appended : us' ≡ us ++ row'' ∷ [] = ground arith in
    rw appended (
      UsersUnique-append us row'' (Below-fresh us) unique,
      omega (arith, count-append is_active_admin us (row'' ∷ [])),
    )
