-- ===== src/Worker/Processed.antt =====
-- `process_next` of app/lifecycle/worker.py: a job that the worker takes is ended, and the lock is
-- let go.
use palworld_manager.Prelude.{
  ℕ, ◌≡◌, ◌≢◌, refl, true, false, String, Option, none, some, arith, ◌==◌, inl, inr, ◌⊎◌,
}
use palworld_manager.Prelude.Result.{Error, ok, err, Result-cases}
use palworld_manager.Db.Enums.{LifecycleAction, JobKind, JobStatus, is_terminal}
use palworld_manager.Db.Rows.{Time, Job, Db}
use palworld_manager.Db.Jobs.{find_job, get_one}
use palworld_manager.Db.Jobs.Laws.{find_job-update_job}
use palworld_manager.Environment.{Environment, Clock}
use palworld_manager.JobService.{
  claim_next_job, release_terminal_locks, release_maintenance_lock, is_claimable,
}
use palworld_manager.JobService.Invariant.{IsValid, AllQuiet, QueueInv-update_job, holder}
use palworld_manager.JobService.Claim.{Starts}
use palworld_manager.JobService.Next.{claim_next_job-Outcome, Outcome}
use palworld_manager.Lifecycle.Completion.{Ended}
use palworld_manager.HostPower.{change_job}
use palworld_manager.HostPower.Rows.{change_job-found}
use palworld_manager.Worker.{
  JobLogStore, LifecycleJobWorker, supported_kinds, after_run, after_exception, run_claimed,
  process_next, append_if, logged_path, started_line, Processing, finished_line,
}
use palworld_manager.Worker.Runs.{RunEnds, supported-RunEnds}

-- The row `i` has ended, no other row has changed, and the lock is not the row's.
pub record IsOver (i : ℕ) (db db' : Db) : Type 0 where
  pub row : Job
  pub stored : find_job i db'.jobs ≡ some row
  pub terminal : is_terminal row.status ≡ true
  pub full : row.progress ≡ 100
  pub others : (k : ℕ) → (k == i) ≡ false → find_job k db'.jobs ≡ find_job k db.jobs
  pub released : holder db'.lock ≢ some i
  pub valid : IsValid db'

release-IsOver :
    (i : ℕ) (status : JobStatus) (db db' : Db)
    → Ended i status db db'
    → IsOver i db (release_maintenance_lock i db')
unfolding release_maintenance_lock
release-IsOver i status db db' end = record {
  row = end.row;
  stored = end.stored;
  terminal = end.terminal;
  full = end.full;
  others = end.others;
  released = λ held. ground arith;
  valid = record {
    ids = end.valid.ids;
    lock_held = λ k j found busy. ground (arith, end.valid.lock_held k j found busy, end.stored);
    lock_started = λ l j held found. ground (arith, end.valid.lock_started l j);
    lock_row = λ l held. ground (arith, end.valid.lock_row l);
    keys_exclusive = end.valid.keys_exclusive;
    progress_range = end.valid.progress_range;
  };
}

logged_path-quiet : (path : String) → AllQuiet (logged_path path)
logged_path-quiet path j = ground arith

module _ (e : Environment) (c : Clock e) (store : JobLogStore) (worker : LifecycleJobWorker e) where
  run_claimed-IsOver :
      (kind : JobKind) (i : ℕ) (path : String) (now : Time) (db : Db) (w : e.World) (l : store.Logs)
      → RunEnds e worker kind i now db w
      → (p : Processing e store) × (run_claimed e store worker kind i path now db w l ≡ some p)
        × (p.0 ≡ ok true)
        × IsOver i db p.1
  unfolding run_claimed after_run after_exception get_one
  run_claimed-IsOver kind i path now db w l (inl (status, db', w', ran, end)) =
      let l1 =
        append_if e store path (started_line kind) (store.append path "Execução iniciada." l) in
      (
        (
          ok true,
          release_maintenance_lock i db',
          w',
          store.append path (finished_line end.row.status) l1,
        ),
        ground (arith, end.stored),
        refl,
        release-IsOver i status db db' end,
      )
  run_claimed-IsOver kind i path now db w l (inr (x, db', raised, failed, end)) =
      let l1 =
        append_if e store path (started_line kind) (store.append path "Execução iniciada." l) in
      (
        (
          ok true,
          release_maintenance_lock i db',
          w,
          store.append path "Execução falhou de forma inesperada." l1,
        ),
        ground arith,
        refl,
        release-IsOver i JobStatus.failed db db' end,
      )

  -- The claim, the path of the log and the run, one after the other.
  claimed-IsOver :
      (claimed_at now : Time) (db db1 : Db) (taken : Job) (path : String) (w : e.World)
      (l : store.Logs)
      → IsValid db1
      → Starts worker.worker_id
          (supported_kinds e worker)
          claimed_at
          (release_terminal_locks db)
          db1
          taken
      → (p : Processing e store) × (run_claimed e store worker taken.kind taken.id path now
            (change_job taken.id (logged_path path) db1)
            w
            l
          ≡ some p)
        × (p.0 ≡ ok true)
        × IsOver taken.id db p.1
  unfolding release_terminal_locks
  claimed-IsOver claimed_at now db db1 taken path w l valid starts =
      let same : taken.id ≡ starts.row.id = ground (arith, starts.taken_is) in
      let started = change_job taken.id (logged_path path) db1 in
      let ends =
        supported-RunEnds e c worker taken.kind taken.id now started w (logged_path path taken)
          (ground (arith, starts.taken_is, starts.supported))
          (QueueInv-update_job taken.id (logged_path path) (logged_path-quiet path) valid)
          (change_job-found taken.id (logged_path path) (logged_path-quiet path) db1 {j = taken}
            (ground (arith, starts.stored)))
          refl in
      let (p, ran, done, over) = run_claimed-IsOver taken.kind taken.id path now started w l ends in
      (
        p,
        ran,
        done,
        record {
          row = over.row;
          stored = over.stored;
          terminal = over.terminal;
          full = over.full;
          others = λ k different. ground (
            arith,
            over.others k different,
            find_job-update_job k taken.id (logged_path path) (λ x. refl) db1.jobs,
            starts.others k,
          );
          released = over.released;
          valid = over.valid;
        },
      )

  -- How a call of `process_next` ends.
  abbrev pub Ending : Time → Db → store.Logs → Processing e store → Type 0
  Ending claimed_at db l p =
      let free = release_terminal_locks db in
      let kinds = supported_kinds e worker in
      ((p.0 ≡ ok false)
        × (p.1.jobs ≡ db.jobs)
        × IsValid p.1
        × ((i : ℕ) (j : Job)
            → find_job i db.jobs ≡ some j
            → is_claimable kinds free.lock j ≡ false))
      ⊎ ((taken : Job) × (db1 : Db) × Starts worker.worker_id kinds claimed_at free db1 taken
          × (((x : Error) × ((store.create taken.id taken.kind l).0 ≡ err x)
                × (p.0 ≡ err x)
                × (p.1 ≡ db))
              ⊎ ((p.0 ≡ ok true) × IsOver taken.id db p.1)))

  claimed_next :
      (claimed_at : Time) (db : Db)
      → worker.worker_id ≢ ""
      → IsValid db
      → (taken : Option Job) × (db1 : Db) × (claim_next_job worker.worker_id
            (supported_kinds e worker)
            claimed_at
            db
          ≡ ok (taken, db1))
        × IsValid db1
        × Outcome worker.worker_id
            (supported_kinds e worker)
            claimed_at
            (release_terminal_locks db)
            taken
            db1
  unfolding supported_kinds
  claimed_next claimed_at db named valid =
      claim_next_job-Outcome worker.worker_id (JobKind.lifecycle LifecycleAction.start) _ claimed_at
        db named valid

  claimed-Ending :
      (claimed_at finished_at : Time) (db : Db) (w : e.World) (l : store.Logs) (taken : Option Job)
      (db1 : Db)
      → claim_next_job worker.worker_id (supported_kinds e worker) claimed_at db ≡ ok (taken, db1)
      → IsValid db1
      → Outcome worker.worker_id
          (supported_kinds e worker)
          claimed_at
          (release_terminal_locks db)
          taken
          db1
      → (p : Processing e store) × (process_next e store worker claimed_at finished_at db w l
          ≡ some p)
        × Ending claimed_at db l p
  unfolding process_next release_terminal_locks
  claimed-Ending claimed_at finished_at db w l none db1 claimed valid outcome =
      ((ok false, db1, w, l), ground arith, inl (refl, outcome.0, valid, outcome.2))
  claimed-Ending claimed_at finished_at db w l (some taken) db1 claimed valid starts =
      let (created, l1) = store.create taken.id taken.kind l in
      elim (Result-cases created) [
        | inr (x, failed) ↦ (
          (err x, db, w, l1),
          ground arith,
          inr (taken, db1, starts, inl (x, failed, refl, refl)),
        )
        | inl (path, made) ↦
            let (p, ran, done, over) =
              claimed-IsOver claimed_at finished_at db db1 taken path w l1 valid starts in
            (p, ground arith, inr (taken, db1, starts, inr (done, over)))
      ]

  -- From a valid queue, a call of `process_next` by a worker with a name returns: the fuel that the
  -- model gives each executor is enough. Either it returns false, no waiting row is of a kind that
  -- the worker asks for and can have the lock that it needs, and the rows are as before; or it has
  -- claimed a row. In that case either the log of the job cannot be created, that error is raised
  -- and the database is as before; or it returns true and the job is over, whatever the kind of the
  -- job, the stored settings and the outside world: its row has a terminal status and the progress
  -- 100, no other row has changed, the job does not hold the lock, and the queue is valid.
  pub process_next-Ending :
      (claimed_at finished_at : Time) (db : Db) (w : e.World) (l : store.Logs)
      → worker.worker_id ≢ ""
      → IsValid db
      → (p : Processing e store) × (process_next e store worker claimed_at finished_at db w l
          ≡ some p)
        × Ending claimed_at db l p
  process_next-Ending claimed_at finished_at db w l named valid =
      let (taken, db1, claimed, valid1, outcome) = claimed_next claimed_at db named valid in
      claimed-Ending claimed_at finished_at db w l taken db1 claimed valid1 outcome
