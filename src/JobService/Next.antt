-- ===== src/JobService/Next.antt =====
-- `claim_next_job` as a whole: it takes the oldest claimable job, or there is none.
use palworld_manager.Prelude.{
  ℕ, ◌≡◌, ◌≢◌, refl, sym, subst, false, String, Option, none, some, List, ◌∷◌, arith, eq_iff,
}
use palworld_manager.Prelude.Result.{ok}
use palworld_manager.Db.Enums.{JobKind}
use palworld_manager.Db.Rows.{Time, Job, Db}
use palworld_manager.Db.Jobs.{find_job}
use palworld_manager.JobService.{
  earliest, is_claimable, release_terminal_locks, claim_row, claim_supported, claim_next_job,
}
use palworld_manager.JobService.Invariant.{IsValid}
use palworld_manager.JobService.Claim.{
  Starts, claim_row-Starts, claim_row-IsValid, release_terminal_locks-IsValid, claimable_facts,
  earliest-none, earliest_accepted, earliest-find_job,
}

-- What the claim returned, against the database after the locks of finished jobs are gone.
abbrev pub Outcome : String → List JobKind → Time → Db → Option Job → Db → Type 0
Outcome worker_id kinds now db none db' =
    (db'.jobs ≡ db.jobs)
    × (db'.lock ≡ db.lock)
    × ((i : ℕ) (j : Job) → find_job i db.jobs ≡ some j → is_claimable kinds db.lock j ≡ false)
Outcome worker_id kinds now db (some taken) db' = Starts worker_id kinds now db db' taken

module _ (worker_id : String) (now : Time) where
  claim_row-Outcome :
      (kinds : List JobKind) (db : Db) (found : Option Job)
      → IsValid db
      → earliest (is_claimable kinds db.lock) db.jobs ≡ found
      → let (taken, db') = claim_row worker_id now found db in
        IsValid db' × Outcome worker_id kinds now db taken db'
  unfolding claim_row
  claim_row-Outcome kinds db none v e =
      (v, (refl, refl, λ i j f. earliest-none (is_claimable kinds db.lock) db.jobs i e f))
  claim_row-Outcome kinds db (some row) v e =
      let (taken, starts) = claim_row-Starts worker_id kinds now row db v e in
      let facts =
        claimable_facts kinds db.lock row
          (earliest_accepted (is_claimable kinds db.lock) db.jobs e) in
      let found = earliest-find_job (is_claimable kinds db.lock) db.jobs v.ids e in
      (
        claim_row-IsValid worker_id now row db v found facts.1 facts.2,
        subst (λ o. Outcome worker_id kinds now db o (claim_row worker_id now (some row) db).1)
            (sym taken) starts,
      )

  claim_supported-Outcome :
      (k : JobKind) (ks : List JobKind) (db : Db)
      → IsValid db
      → let (taken, db') = claim_supported worker_id now (k ∷ ks) db in
        IsValid db' × Outcome worker_id (k ∷ ks) now (release_terminal_locks db) taken db'
  unfolding claim_supported
  claim_supported-Outcome k ks db v =
      let free = release_terminal_locks db in
      claim_row-Outcome (k ∷ ks) free (earliest (is_claimable (k ∷ ks) free.lock) free.jobs)
        (release_terminal_locks-IsValid db v) refl

-- From a valid queue, `claim_next_job` with a worker's name and at least one kind returns. If it
-- returns a job, that job was pending, of a listed kind and, among the claimable rows (those for
-- which the lock, once finished jobs have left it, is free or not needed), no row precedes it in
-- the order of creation and id; its row alone is changed, to a running job of this worker, and if
-- the job needs the lock, the lock was free and is now held by it. If it returns none, no row is
-- claimable and the rows are as before. The queue is valid afterwards.
pub claim_next_job-Outcome :
    (worker_id : String) (k : JobKind) (ks : List JobKind) (now : Time) (db : Db)
    → worker_id ≢ ""
    → IsValid db
    → (taken : Option Job) × (db' : Db) × (claim_next_job worker_id (k ∷ ks) now db
        ≡ ok (taken, db'))
      × IsValid db'
      × Outcome worker_id (k ∷ ks) now (release_terminal_locks db) taken db'
unfolding claim_next_job
claim_next_job-Outcome worker_id k ks now db named v =
    let (taken, db') = claim_supported worker_id now (k ∷ ks) db in
    let (valid, outcome) = claim_supported-Outcome worker_id now k ks db v in
    (taken, db', ground (arith, eq_iff worker_id ""), valid, outcome)
