-- ===== src/JobService/Claim.antt =====
-- `claim_next_job`: which job it takes, and that the queue stays valid.
use palworld_manager.Prelude.{
  ℕ, ◌≡◌, ◌≢◌, refl, Bool, true, false, String, Option, none, some, List, [], ◌∷◌, arith, ◌==◌,
  if◌then◌else◌, inl, inr, Option-cases, Bool-cases,
}
use palworld_manager.Db.Enums.{JobKind, is_pending}
use palworld_manager.Db.Rows.{Time, Job, MaintenanceLock, Db}
use palworld_manager.Db.Jobs.{find_job, update_job}
use palworld_manager.Db.Jobs.Laws.{
  IdsUnique, find_job-update_job, IdsUnique-update_job, IdsUnique-update_job,
}
use palworld_manager.JobService.{
  precedes, earliest, is_claimable, mark_claimed, release_terminal_locks, claim_row, kind_in,
}
use palworld_manager.JobService.Invariant.{holder, QueueInv, IsValid}
use mathlib.Core.Option

pub earliest_accepted :
    (p : Job → Bool) (jobs : List Job) {row : Job} → earliest p jobs ≡ some row → p row ≡ true
unfolding earliest
earliest_accepted p [] h = cc
earliest_accepted p (j ∷ jobs) {row} h = elim (Option-cases (earliest p jobs)) [
  | inl e ↦ ground arith
  | inr (k, e) ↦ ground (arith, earliest_accepted p jobs {row = k} e)
]

pub earliest-find_job :
    (p : Job → Bool) (jobs : List Job) {row : Job}
    → IdsUnique jobs
    → earliest p jobs ≡ some row
    → find_job row.id jobs ≡ some row
unfolding earliest find_job
earliest-find_job p [] u h = cc
earliest-find_job p (j ∷ jobs) {row} u h = elim (Option-cases (earliest p jobs)) [
  | inl e ↦ ground arith
  | inr (k, e) ↦ ground (arith, earliest-find_job p jobs {row = k} u.1 e)
]

pub earliest-none :
    (p : Job → Bool) (jobs : List Job) (i : ℕ) {j : Job}
    → earliest p jobs ≡ none
    → find_job i jobs ≡ some j
    → p j ≡ false
unfolding earliest find_job
earliest-none p [] i e f = cc
earliest-none p (x ∷ jobs) i {j} e f = ground (arith, earliest-none p jobs i {j = j})

-- No accepted row comes before the one that is taken.
pub earliest_least :
    (p : Job → Bool) (jobs : List Job) {row : Job} (i : ℕ) (j : Job)
    → earliest p jobs ≡ some row
    → find_job i jobs ≡ some j
    → p j ≡ true
    → precedes j row ≡ false
unfolding earliest find_job
earliest_least p [] i j h f a = cc
earliest_least p (x ∷ jobs) {row} i j h f a = elim (Option-cases (earliest p jobs)) [
  | inl e ↦ ground (arith, earliest-none p jobs i {j = j})
  | inr (k, e) ↦ ground (arith, earliest_least p jobs {row = k} i j e)
]

pub release_terminal_locks-IsValid : (db : Db) → IsValid db → IsValid (release_terminal_locks db)
unfolding release_terminal_locks
release_terminal_locks-IsValid db v = record {
  ids = v.ids;
  lock_held = λ i j found busy. ground (arith, v.lock_held i j found busy);
  lock_started = λ l j held found. ground (arith, v.lock_started l j);
  lock_row = λ l held. ground (arith, v.lock_row l);
  keys_exclusive = v.keys_exclusive;
  progress_range = v.progress_range;
}

-- Starting the pending row `row`, with the lock where the row needs it, keeps the queue valid.
module _ (worker_id : String) (now : Time) (row : Job) {jobs : List Job}
    {lock lock' : Option MaintenanceLock} where
  start-QueueInv :
      QueueInv jobs lock
      → find_job row.id jobs ≡ some row
      → is_pending row.status ≡ true
      → (row.requires_maintenance_lock ≡ true → (lock ≡ none) × (holder lock' ≡ some row.id))
      → (row.requires_maintenance_lock ≡ false → lock' ≡ lock)
      → QueueInv (update_job row.id (mark_claimed worker_id now) jobs) lock'
  start-QueueInv v at_id waiting taken kept = record {
    ids = IdsUnique-update_job row.id (mark_claimed worker_id now) (λ j. refl) jobs v.ids;
    lock_held = λ i j found busy. ground (arith, law i, v.lock_held i j, taken, kept);
    lock_started = λ l j held found. ground (arith, law l.job_id, v.lock_started l j, taken, kept);
    lock_row = λ l held. ground (arith, law l.job_id, v.lock_row l, taken, kept);
    keys_exclusive = λ key i k a b fa fb ha hb. ground (
      arith,
      law i,
      law k,
      v.keys_exclusive key i k a b,
      v.keys_exclusive key i k row b,
      v.keys_exclusive key i k a row,
    );
    progress_range = λ i j found. ground (arith, law i, v.progress_range i j);
  }
    where
      law :
          (i : ℕ)
          → find_job i (update_job row.id (mark_claimed worker_id now) jobs) ≡ (
              if i == row.id
              then Option.map (mark_claimed worker_id now) (find_job i jobs)
              else find_job i jobs)
      law i = find_job-update_job i row.id (mark_claimed worker_id now) (λ j. refl) jobs

pub claim_row-IsValid :
    (worker_id : String) (now : Time) (row : Job) (db : Db)
    → IsValid db
    → find_job row.id db.jobs ≡ some row
    → is_pending row.status ≡ true
    → (row.requires_maintenance_lock ≡ true → db.lock ≡ none)
    → IsValid (claim_row worker_id now (some row) db).1
unfolding claim_row
claim_row-IsValid worker_id now row db v at_id waiting free =
    elim (Bool-cases row.requires_maintenance_lock) [
      | inl needs ↦
          rw (needs, free needs)
            (start-QueueInv worker_id now row v at_id waiting (λ _. (free needs, refl)) (λ e. cc))
      | inr plain ↦
          rw plain (start-QueueInv worker_id now row v at_id waiting (λ e. cc) (λ _. refl))
    ]

pub claimable_facts :
    (kinds : List JobKind) (lock : Option MaintenanceLock) (row : Job)
    → is_claimable kinds lock row ≡ true
    → (kind_in kinds row.kind ≡ true)
      × (is_pending row.status ≡ true)
      × (row.requires_maintenance_lock ≡ true → lock ≡ none)
claimable_facts kinds lock row h = ground arith

-- The row that a claim starts, and what the claim changes.
pub record Starts (worker_id : String) (kinds : List JobKind) (now : Time) (db db' : Db)
    (taken : Job) : Type 0 where
  pub row : Job
  pub found : find_job row.id db.jobs ≡ some row
  pub supported : kind_in kinds row.kind ≡ true
  pub waiting : is_pending row.status ≡ true
  pub taken_is : taken ≡ mark_claimed worker_id now row
  pub stored : find_job row.id db'.jobs ≡ some taken
  pub others : (i : ℕ) → i ≢ row.id → find_job i db'.jobs ≡ find_job i db.jobs
  pub locked :
      row.requires_maintenance_lock ≡ true → (db.lock ≡ none) × (holder db'.lock ≡ some row.id)
  pub unlocked : row.requires_maintenance_lock ≡ false → db'.lock ≡ db.lock
  pub least :
      (i : ℕ) (j : Job)
      → find_job i db.jobs ≡ some j
      → is_claimable kinds db.lock j ≡ true
      → precedes j row ≡ false

pub claim_row-Starts :
    (worker_id : String) (kinds : List JobKind) (now : Time) (row : Job) (db : Db)
    → IsValid db
    → earliest (is_claimable kinds db.lock) db.jobs ≡ some row
    → ((claim_row worker_id now (some row) db).0 ≡ some (mark_claimed worker_id now row))
      × Starts worker_id kinds now db
          (claim_row worker_id now (some row) db).1
          (mark_claimed worker_id now row)
unfolding claim_row
claim_row-Starts worker_id kinds now row db v e =
    let facts =
      claimable_facts kinds db.lock row
        (earliest_accepted (is_claimable kinds db.lock) db.jobs e) in
    let found = earliest-find_job (is_claimable kinds db.lock) db.jobs v.ids e in
    (
      ground (arith, facts.2),
      record {
        row = row;
        found = found;
        supported = facts.0;
        waiting = facts.1;
        taken_is = refl;
        stored = ground (arith, facts.2, law row.id);
        others = λ i ne. ground (arith, facts.2, law i);
        locked = λ needs. ground (arith, facts.2);
        unlocked = λ plain. ground arith;
        least =
            λ i j at_i fits. earliest_least (is_claimable kinds db.lock) db.jobs i j e at_i fits;
      },
    )
  where
    law :
        (i : ℕ)
        → find_job i (update_job row.id (mark_claimed worker_id now) db.jobs) ≡ (
            if i == row.id
            then Option.map (mark_claimed worker_id now) (find_job i db.jobs)
            else find_job i db.jobs)
    law i = find_job-update_job i row.id (mark_claimed worker_id now) (λ j. refl) db.jobs
