-- ===== src/JobService/Added.antt =====
-- What `session.add` and `session.flush` of a new job leave in the table.
use palworld_manager.Prelude.{
  ℕ, ◌≡◌, ◌≢◌, ◌&&◌, none, some, List, [], ◌∷◌, ◌++◌, arith, inl, inr, Bool-cases,
}
use palworld_manager.Prelude.Result.{ok}
use palworld_manager.Db.Enums.{is_active}
use palworld_manager.Db.Rows.{Job}
use palworld_manager.Db.Jobs.{find_job, fresh_id, insert_job, key_is_taken}
use palworld_manager.Db.Jobs.Laws.{find_job-append, find_job-fresh_id}
use palworld_manager.JobService.Insert.{with_id}

-- What an accepted insertion did.
pub record Added (row job : Job) (jobs jobs' : List Job) : Type 0 where
  pub job_is : job ≡ with_id (fresh_id jobs) row
  pub appended : jobs' ≡ jobs ++ job ∷ []
  pub absent : find_job job.id jobs ≡ none
  pub stored : find_job job.id jobs' ≡ some job
  pub others : (i : ℕ) → i ≢ job.id → find_job i jobs' ≡ find_job i jobs

pub insert_job-Added :
    (row : Job) (jobs : List Job) {job : Job} {jobs' : List Job}
    → insert_job row jobs ≡ ok (job, jobs')
    → Added row job jobs jobs'
unfolding insert_job
insert_job-Added row jobs {job} {jobs'} h =
    elim (Bool-cases (is_active row.status && key_is_taken row jobs)) [
      | inl e ↦ ground arith
      | inr e ↦
          let job_is : job ≡ with_id (fresh_id jobs) row = ground arith in
          let appended : jobs' ≡ jobs ++ with_id (fresh_id jobs) row ∷ [] = ground arith in
          record {
            job_is = job_is;
            appended = rw job_is appended;
            absent = ground (arith, find_job-fresh_id jobs);
            stored = ground (
              arith,
              find_job-append (fresh_id jobs) jobs (with_id (fresh_id jobs) row),
              find_job-fresh_id jobs,
            );
            others = λ i ne. ground (arith, find_job-append i jobs (with_id (fresh_id jobs) row));
          }
    ]
