-- ===== src/JobService/Recovery.antt =====
-- `recover_interrupted_jobs`, which the worker runs when it starts.
use palworld_manager.Prelude.{
  ℕ, ◌≡◌, refl, ◌∙◌, Bool, false, none, some, List, [], ◌∷◌, arith, ◌==◌, where_rows, if◌then◌else◌,
  is_some, Option-cases, inl, inr,
}
use palworld_manager.Db.Enums.{is_running}
use palworld_manager.Db.Rows.{Time, Job, MaintenanceLock, Db}
use palworld_manager.Db.Jobs.{find_job}
use palworld_manager.Db.Jobs.Laws.{
  IdsUnique, find_job-update_job, find_job-where_rows, IdsUnique-where_rows,
}
use palworld_manager.Db.Audit.{record_audit_event}
use palworld_manager.JobService.{
  interrupt, interrupt_one, interrupt_all, is_among, recover_interrupted_jobs,
}
use palworld_manager.JobService.Invariant.{IsValid, AllQuiet, QueueInv-update_job}
use mathlib.Core.Option

interrupt-quiet : (now : Time) → AllQuiet (interrupt now)
interrupt-quiet now j = ground arith

interrupt_one-find_job :
    (now : Time) (r : Job) (db : Db) (i : ℕ)
    → find_job i (interrupt_one now r db).jobs
      ≡ (if i == r.id then Option.map (interrupt now) (find_job i db.jobs) else find_job i db.jobs)
unfolding record_audit_event
interrupt_one-find_job now r db i = find_job-update_job i r.id (interrupt now) (λ j. refl) db.jobs

interrupt_one-IsValid :
    (now : Time) (r : Job) (db : Db) → IsValid db → IsValid (interrupt_one now r db)
unfolding record_audit_event
interrupt_one-IsValid now r db v = QueueInv-update_job r.id (interrupt now) (interrupt-quiet now) v

interrupt_one-lock : (now : Time) (r : Job) (db : Db) → (interrupt_one now r db).lock ≡ db.lock
unfolding record_audit_event
interrupt_one-lock now r db = refl

interrupt_all-IsValid :
    (now : Time) (rows : List Job) (db : Db) → IsValid db → IsValid (interrupt_all now rows db)
unfolding interrupt_all
interrupt_all-IsValid now [] db v = v
interrupt_all-IsValid now (r ∷ rows) db v =
    interrupt_all-IsValid now rows (interrupt_one now r db) (interrupt_one-IsValid now r db v)

interrupt_all-lock :
    (now : Time) (rows : List Job) (db : Db) → (interrupt_all now rows db).lock ≡ db.lock
unfolding interrupt_all
interrupt_all-lock now [] db = refl
interrupt_all-lock now (r ∷ rows) db =
    interrupt_all-lock now rows (interrupt_one now r db) ∙ interrupt_one-lock now r db

-- Each listed row is changed, and no other.
interrupt_all-find_job :
    (now : Time) (rows : List Job) (db : Db) (i : ℕ)
    → IdsUnique rows
    → find_job i (interrupt_all now rows db).jobs ≡ (elim (find_job i rows) [
      | none ↦ find_job i db.jobs
      | some _ ↦ Option.map (interrupt now) (find_job i db.jobs)
    ])
unfolding interrupt_all find_job
interrupt_all-find_job now [] db i u = refl
interrupt_all-find_job now (r ∷ rows) db i u = ground (
  arith,
  interrupt_all-find_job now rows (interrupt_one now r db) i u.1,
  interrupt_one-find_job now r db i,
)

-- What the recovery makes of a row.
abbrev pub recovered : Time → Job → Job
recovered now j = if is_running j.status then interrupt now j else j

recover-find_job :
    (now : Time) (db : Db) (i : ℕ)
    → IsValid db
    → find_job i (recover_interrupted_jobs now db).1.jobs
      ≡ Option.map (recovered now) (find_job i db.jobs)
unfolding recover_interrupted_jobs
recover-find_job now db i v =
    let running : Job → Bool = λ j. is_running j.status in
    ground (
      arith,
      interrupt_all-find_job now (where_rows running db.jobs) db i
          (IdsUnique-where_rows running db.jobs v.ids),
      find_job-where_rows running i db.jobs v.ids,
    )

among-find_job :
    (rows : List Job) (l : MaintenanceLock) → is_among rows l ≡ is_some (find_job l.job_id rows)
unfolding find_job
among-find_job [] l = refl
among-find_job (r ∷ rows) l = ground (arith, among-find_job rows l)

recover_lock_free :
    (now : Time) (db : Db) → IsValid db → (recover_interrupted_jobs now db).1.lock ≡ none
unfolding recover_interrupted_jobs
recover_lock_free now db v = elim (Option-cases db.lock) [
  | inl e ↦ ground (arith, interrupt_all-lock now rows db)
  | inr (l, e) ↦ elim (Option-cases (find_job l.job_id db.jobs)) [
    | inl f ↦ ground (arith, v.lock_row l e)
    | inr (j, f) ↦ ground (
      arith,
      interrupt_all-lock now rows db,
      interrupt_all-find_job now rows db l.job_id (IdsUnique-where_rows running db.jobs v.ids),
      find_job-where_rows running l.job_id db.jobs v.ids,
      among-find_job rows l,
      v.lock_started l j e f,
    )
  ]
]
  where
    running : Job → Bool
    running j = is_running j.status

    rows : List Job
    rows = where_rows running db.jobs

-- The worker's recovery from a valid queue frees the maintenance lock and turns every running job
-- into an interrupted one that cannot be cancelled, leaving every other job as it was. No job is
-- running afterwards, and the queue is valid.
pub recover_interrupted_jobs-IsValid :
    (now : Time) (db : Db)
    → IsValid db
    → let db' = (recover_interrupted_jobs now db).1 in
      IsValid db'
      × (db'.lock ≡ none)
      × ((i : ℕ) → find_job i db'.jobs ≡ Option.map (recovered now) (find_job i db.jobs))
      × ((i : ℕ) (j : Job) → find_job i db'.jobs ≡ some j → is_running j.status ≡ false)
unfolding recover_interrupted_jobs
recover_interrupted_jobs-IsValid now db v =
    let marked = interrupt_all-IsValid now (where_rows (λ j. is_running j.status) db.jobs) db v in
    (
      record {
        ids = marked.ids;
        lock_held = λ i j found busy. ground (arith, recover-find_job now db i v);
        lock_started = λ l j held found. cc (recover_lock_free now db v);
        lock_row = λ l held. cc (recover_lock_free now db v);
        keys_exclusive = marked.keys_exclusive;
        progress_range = marked.progress_range;
      },
      recover_lock_free now db v,
      (λ i. recover-find_job now db i v),
      λ i j found. ground (arith, recover-find_job now db i v),
    )
