-- ===== src/JobService/Insert.antt =====
-- A new pending row keeps the queue valid; the index on the coordination key refuses the others.
use palworld_manager.Prelude.{
  ℕ, ◌≤◌, ◌≡◌, subst, true, false, String, Option, none, some, List, [], ◌∷◌, ◌++◌, arith, ◌==◌,
  if◌then◌else◌, eq_iff, Option-cases, Bool-cases, inl, inr,
}
use palworld_manager.Prelude.Result.{ok}
use palworld_manager.Db.Enums.{is_pending}
use palworld_manager.Db.Rows.{Job, MaintenanceLock}
use palworld_manager.Db.Jobs.{find_job, fresh_id, holds_key, key_is_taken, insert_job}
use palworld_manager.Db.Jobs.Laws.{
  find_job-append, find_job-fresh_id, IdsUnique-append, exists-find_job,
}
use palworld_manager.JobService.Invariant.{QueueInv}

abbrev pub with_id : ℕ → Job → Job
with_id i row = record row { id = i }

not_taken :
    (key : String) (row : Job) (i : ℕ) (j : Job) (jobs : List Job)
    → key_is_taken row jobs ≡ false
    → holds_key key row ≡ true
    → find_job i jobs ≡ some j
    → holds_key key j ≡ false
not_taken key row i j jobs free holds found = elim (Option-cases row.coordination_key) [
  | inl e ↦ ground arith
  | inr (k, e) ↦ ground (arith, eq_iff k key, exists-find_job (holds_key k) i jobs {j = j})
]

append-QueueInv :
    (row : Job) (jobs : List Job) (lock : Option MaintenanceLock)
    → QueueInv jobs lock
    → is_pending row.status ≡ true
    → row.progress ≤ 100
    → key_is_taken row jobs ≡ false
    → QueueInv (jobs ++ with_id (fresh_id jobs) row ∷ []) lock
append-QueueInv row jobs lock v waiting small free = record {
  ids = IdsUnique-append jobs (with_id (fresh_id jobs) row) (find_job-fresh_id jobs) v.ids;
  lock_held = λ i j found busy. ground (arith, law i, v.lock_held i j);
  lock_started =
      λ l j held found. ground (arith, law l.job_id, v.lock_started l j, v.lock_row l held);
  lock_row = λ l held. ground (arith, law l.job_id, v.lock_row l held);
  keys_exclusive = λ key i k a b fa fb ha hb. ground (
    arith,
    law i,
    law k,
    v.keys_exclusive key i k a b,
    not_taken key row i a jobs free,
    not_taken key row k b jobs free,
  );
  progress_range = λ i j found. ground (arith, law i, v.progress_range i j);
}
  where
    law :
        (i : ℕ)
        → find_job i (jobs ++ with_id (fresh_id jobs) row ∷ []) ≡ (elim (find_job i jobs) [
          | some j ↦ some j
          | none ↦ if fresh_id jobs == i then some (with_id (fresh_id jobs) row) else none
        ])
    law i = find_job-append i jobs (with_id (fresh_id jobs) row)

-- An insertion that the index accepts keeps the queue valid.
pub insert_job-QueueInv :
    (row : Job) (jobs : List Job) (lock : Option MaintenanceLock) {row' : Job} {jobs' : List Job}
    → QueueInv jobs lock
    → is_pending row.status ≡ true
    → row.progress ≤ 100
    → insert_job row jobs ≡ ok (row', jobs')
    → QueueInv jobs' lock
unfolding insert_job
insert_job-QueueInv row jobs lock {row'} {jobs'} v waiting small inserted =
    elim (Bool-cases (key_is_taken row jobs)) [
      | inl e ↦ ground arith
      | inr e ↦
          let stored : jobs ++ with_id (fresh_id jobs) row ∷ [] ≡ jobs' = ground arith in
          subst (λ js. QueueInv js lock) stored (append-QueueInv row jobs lock v waiting small e)
    ]
