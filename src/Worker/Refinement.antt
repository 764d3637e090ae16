-- ===== src/Worker/Refinement.antt =====
-- The worker of app/lifecycle/worker.py and the recovery of app/jobs/service.py against what they
-- promise: a view in which a job is only waiting, running or over.
use palworld_manager.Prelude.{
  ℕ, ◌≡◌, ◌≢◌, sym, ap, ◌∙◌, true, false, Option, some, arith, ◌==◌, Bool-cases, inl, inr, subst,
}
use mathlib.Core.Option
use palworld_manager.Db.Enums.{JobStatus, is_terminal, is_pending}
use palworld_manager.Db.Rows.{Time, Job, Db}
use palworld_manager.Db.Jobs.{find_job}
use palworld_manager.Environment.{Environment, Clock}
use palworld_manager.JobService.{recover_interrupted_jobs, release_terminal_locks}
use palworld_manager.JobService.Invariant.{IsValid}
use palworld_manager.JobService.Recovery.{recovered, recover_interrupted_jobs-IsValid}
use palworld_manager.Worker.{JobLogStore, LifecycleJobWorker, process_next, Processing}
use palworld_manager.Worker.Processed.{IsOver, process_next-Ending}

pub data Phase : Type 0 where
  waiting running over : Phase

abbrev phase_of : JobStatus → Phase
phase_of JobStatus.pending = Phase.waiting
phase_of JobStatus.running = Phase.running
phase_of _ = Phase.over

-- The abstract state: the phase of each job that exists.
abbrev pub View : Type 0
View = ℕ → Option Phase

abbrev pub view : Db → View
view db i = Option.map (λ j. phase_of j.status) (find_job i db.jobs)

abbrev pub swept : Phase → Phase
swept Phase.running = Phase.over
swept p = p

-- What may happen to the jobs.
pub data Step (v v' : View) : Type 0 where
  idle : ((i : ℕ) → v' i ≡ v i) → Step v v'
  done :
      (i : ℕ)
      → v i ≡ some Phase.waiting
      → v' i ≡ some Phase.over
      → ((k : ℕ) → (k == i) ≡ false → v' k ≡ v k)
      → Step v v'
  sweep : ((i : ℕ) → v' i ≡ Option.map swept (v i)) → Step v v'

pub data Steps : View → View → Type 0 where
  stop : {v : View} → Steps v v
  next : {u v w : View} → Step u v → Steps v w → Steps u w

recovered-Step :
    (now : Time) (db : Db) → IsValid db → Step (view db) (view (recover_interrupted_jobs now db).1)
recovered-Step now db valid =
    let (valid', free, rows, quiet) = recover_interrupted_jobs-IsValid now db valid in
    Step.sweep (λ i. ground (arith, rows i))

IsOver-Step :
    (db db' : Db) (j : Job)
    → find_job j.id db.jobs ≡ some j
    → is_pending j.status ≡ true
    → IsOver j.id db db'
    → Step (view db) (view db')
IsOver-Step db db' j found waits end =
    Step.done j.id (ground (arith, found)) (ground (arith, end.stored, end.terminal))
      (λ k different. ground (arith, end.others k different))

module _ (e : Environment) (c : Clock e) (store : JobLogStore) (worker : LifecycleJobWorker e) where
  pub process_next-Step :
      (claimed_at finished_at : Time) (db : Db) (w : e.World) (l : store.Logs)
      (p : Processing e store)
      → worker.worker_id ≢ ""
      → IsValid db
      → process_next e store worker claimed_at finished_at db w l ≡ some p
      → IsValid p.1 × Step (view db) (view p.1)
  unfolding release_terminal_locks
  process_next-Step claimed_at finished_at db w l p named valid returned =
      let (q, ran, ending) =
        process_next-Ending e c store worker claimed_at finished_at db w l named valid in
      let same : q ≡ p = ground arith in
      elim ending [
        | inl (answer, rows, kept, unclaimed) ↦
            (subst (λ r. IsValid r.1) same kept, Step.idle (λ i. ground (arith, same, rows)))
        | inr (taken, db1, starts, inl (x, failed, raised, back)) ↦ (
          subst IsValid (sym back ∙ ap (λ r. r.1) same) valid,
          Step.idle (λ i. ground (arith, same, back)),
        )
        | inr (taken, db1, starts, inr (answer, end)) ↦
            let name : taken.id ≡ starts.row.id = ground (arith, starts.taken_is) in
            (
              subst (λ r. IsValid r.1) same end.valid,
              subst (λ r. Step (view db) (view r.1)) same
                  (IsOver-Step db q.1 starts.row starts.found starts.waiting
                    (subst (λ i. IsOver i db q.1) name end)),
            )
      ]

  -- What the worker does to the database, call after call: it recovers when it starts, and it
  -- processes jobs. The outside world and the logs may be any others at each call.
  pub data Worked : Db → Db → Type 0 where
    rest : {db : Db} → Worked db db
    recover :
        {db db' : Db} (now : Time) → Worked (recover_interrupted_jobs now db).1 db' → Worked db db'
    process :
        {db db' : Db} (claimed_at finished_at : Time) (w : e.World) (l : store.Logs)
        (p : Processing e store)
        → process_next e store worker claimed_at finished_at db w l ≡ some p
        → Worked p.1 db'
        → Worked db db'

  -- From a valid queue, whatever a worker with a name does, in any number of recoveries and calls
  -- of `process_next`, is to the view of the jobs a sequence of steps each of which leaves every
  -- job as it is, or turns one waiting job into one that is over, or turns all running jobs into
  -- jobs that are over; and the queue is valid at the end.
  pub Worked-Steps :
      (db db' : Db)
      → worker.worker_id ≢ ""
      → IsValid db
      → Worked db db'
      → IsValid db' × Steps (view db) (view db')
  Worked-Steps db db' named valid rest = (valid, Steps.stop)
  Worked-Steps db db' named valid (recover now more) =
      let (kept, steps) =
        Worked-Steps (recover_interrupted_jobs now db).1 db' named
          (recover_interrupted_jobs-IsValid now db valid).0 more in
      (kept, Steps.next (recovered-Step now db valid) steps)
  Worked-Steps db db' named valid (process claimed_at finished_at w l p returned more) =
      let (valid', step) = process_next-Step claimed_at finished_at db w l p named valid returned in
      let (kept, steps) = Worked-Steps p.1 db' named valid' more in (kept, Steps.next step steps)

recovered-terminal : (now : Time) (j : Job) → is_terminal j.status ≡ true → recovered now j ≡ j
recovered-terminal now j ended = ground arith

module _ (e : Environment) (c : Clock e) (store : JobLogStore) (worker : LifecycleJobWorker e) where
  process_next-ended_row :
      (claimed_at finished_at : Time) (db : Db) (w : e.World) (l : store.Logs)
      (p : Processing e store) (i : ℕ) (j : Job)
      → worker.worker_id ≢ ""
      → IsValid db
      → process_next e store worker claimed_at finished_at db w l ≡ some p
      → find_job i db.jobs ≡ some j
      → is_terminal j.status ≡ true
      → find_job i p.1.jobs ≡ some j
  unfolding release_terminal_locks
  process_next-ended_row claimed_at finished_at db w l p i j named valid returned found ended =
      let (q, ran, ending) =
        process_next-Ending e c store worker claimed_at finished_at db w l named valid in
      let same : q ≡ p = ground arith in
      elim ending [
        | inl (answer, rows, kept, unclaimed) ↦ ground (arith, rows)
        | inr (taken, db1, starts, inl (x, failed, raised, back)) ↦ ground arith
        | inr (taken, db1, starts, inr (answer, end)) ↦
            let name : taken.id ≡ starts.row.id = ground (arith, starts.taken_is) in
            elim (Bool-cases (i == taken.id)) [
              | inl here ↦
                  let impossible : ⊥ = ground (arith, starts.found, starts.waiting) in
                  absurd impossible
              | inr away ↦ ground (arith, end.others i away)
            ]
      ]

  -- A job that has ended is never started again: from a valid queue, after any number of recoveries
  -- and calls of `process_next` by a worker with a name, its row is exactly as it was.
  pub Worked-ended_row :
      (db db' : Db) (i : ℕ) (j : Job)
      → worker.worker_id ≢ ""
      → IsValid db
      → Worked e c store worker db db'
      → find_job i db.jobs ≡ some j
      → is_terminal j.status ≡ true
      → find_job i db'.jobs ≡ some j
  Worked-ended_row db db' i j named valid rest found ended = found
  Worked-ended_row db db' i j named valid (recover now more) found ended =
      let (valid', free, rows, quiet) = recover_interrupted_jobs-IsValid now db valid in
      Worked-ended_row (recover_interrupted_jobs now db).1 db' i j named valid' more
        (ground (arith, rows i, recovered-terminal now j ended)) ended
  Worked-ended_row db db' i j named valid (process claimed_at finished_at w l p returned more) found
        ended =
      let (valid', step) =
        process_next-Step e c store worker claimed_at finished_at db w l p named valid returned in
      Worked-ended_row p.1 db' i j named valid' more
        (process_next-ended_row claimed_at finished_at db w l p i j named valid returned found
          ended)
        ended
