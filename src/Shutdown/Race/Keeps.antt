-- ===== src/Shutdown/Race/Keeps.antt =====
-- app/shutdown/jobs.py: what none of the transactions on a running countdown takes back.
use palworld_manager.Prelude.{
  ℕ, ◌≡◌, Bool, true, false, not, ◌&&◌, Option, some, arith, ◌==◌, Bool-cases, Option-cases, inl,
  inr, ◌⊎◌, List, [], ◌∷◌,
}
use palworld_manager.Prelude.Result.{Result, ok, err, Result-cases}
use palworld_manager.Db.Enums.{is_pending, AuditAction}
use palworld_manager.Db.Rows.{Time, Job, Db}
use palworld_manager.Db.Jobs.{find_job, get_one, update_job}
use palworld_manager.Db.Jobs.Laws.{find_job-update_job}
use palworld_manager.Db.Audit.{record_audit_event}
use palworld_manager.Notifications.{enqueue_discord_notification}
use palworld_manager.Shutdown.Executor.{CountdownDirective, AssistedShutdownResult}
use palworld_manager.Shutdown.Jobs.{
  can_cancel, mark_cancel_requested, cancelled_row, mark_execute_now, apply_cancel,
  request_shutdown_cancel, request_shutdown_now,
}
use palworld_manager.Shutdown.Jobs.Control.{
  irreversible_row, countdown_row, update_countdown, mark_irreversible,
}
use palworld_manager.Shutdown.Jobs.Complete.{finished_row, complete_shutdown_job}

-- Nothing clears a request to cancel, or makes a job cancellable again.
pub record Promise (j j' : Job) : Type 0 where
  pub keeps_id : j'.id ≡ j.id
  pub keeps_request : j.cancel_requested ≡ true → j'.cancel_requested ≡ true
  pub keeps_end : j.is_cancellable ≡ false → j'.is_cancellable ≡ false

abbrev pub Keeps : List Job → List Job → Type 0
Keeps jobs jobs' =
    (i : ℕ) (j : Job)
    → find_job i jobs ≡ some j
    → (j' : Job) × (find_job i jobs' ≡ some j') × Promise j j'

Promise-refl : (j : Job) → Promise j j
Promise-refl j = ground arith

Promise-trans : (a b c : Job) → Promise a b → Promise b c → Promise a c
Promise-trans a b c p q = ground arith

pub Keeps-refl : (jobs : List Job) → Keeps jobs jobs
Keeps-refl jobs i j found = (j, found, Promise-refl j)

Keeps-trans : (a b c : List Job) → Keeps a b → Keeps b c → Keeps a c
Keeps-trans a b c p q i j found =
    let (j', found', kept) = p i j found in
    let (j'', found'', kept') = q i j' found' in (j'', found'', Promise-trans j j' j'' kept kept')

Keeps-update :
    (k : ℕ) (f : Job → Job) (jobs : List Job)
    → ((j : Job) → Promise j (f j))
    → Keeps jobs (update_job k f jobs)
Keeps-update k f jobs promise i j found = elim (Bool-cases (i == k)) [
  | inl e ↦
      (f j, ground (arith, find_job-update_job i k f (λ x. (promise x).keeps_id) jobs), promise j)
  | inr e ↦ (
    j,
    ground (arith, find_job-update_job i k f (λ x. (promise x).keeps_id) jobs),
    Promise-refl j,
  )
]

apply_cancel-Keeps :
    (k user_id : ℕ) (now : Time) (waiting : Bool) (db : Db)
    → Keeps db.jobs (apply_cancel k user_id now waiting db).jobs
unfolding apply_cancel record_audit_event
apply_cancel-Keeps k user_id now true db =
    let requested = update_job k mark_cancel_requested db.jobs in
    Keeps-trans db.jobs requested (update_job k (cancelled_row now) requested)
      (Keeps-update k mark_cancel_requested db.jobs (λ j. ground arith))
      (Keeps-update k (cancelled_row now) requested (λ j. ground arith))
apply_cancel-Keeps k user_id now false db =
    Keeps-update k mark_cancel_requested db.jobs (λ j. ground arith)

-- What the two processes do to a shutdown job while its countdown runs.
pub data Transaction : Type 0 where
  cancel : ℕ → ℕ → Option ℕ → Time → Transaction
  execute_now : ℕ → ℕ → Option ℕ → Time → Transaction
  countdown : ℕ → ℕ → ℕ → Transaction
  irreversible : ℕ → Transaction
  complete : ℕ → AssistedShutdownResult → AuditAction → Bool → Time → Transaction

-- A transaction that raises is rolled back.
abbrev pub or_rollback : Db → Result Db → Db
or_rollback db (ok db') = db'
or_rollback db (err x) = db

abbrev pub or_rollback_both : Db → Result (CountdownDirective × Db) → Db
or_rollback_both db (ok (directive, db')) = db'
or_rollback_both db (err x) = db

abbrev pub commit : Transaction → Db → Db
commit (cancel k user_id owner now) db = (request_shutdown_cancel k user_id owner now db).1
commit (execute_now k user_id owner now) db = (request_shutdown_now k user_id owner now db).1
commit (countdown k remaining total) db =
    or_rollback_both db (update_countdown k remaining total db)
commit (irreversible k) db = or_rollback_both db (mark_irreversible k db)
commit (complete k r audit_action notify now) db =
    or_rollback db (complete_shutdown_job k r audit_action notify now db)

abbrev pub commit_all : List Transaction → Db → Db
commit_all [] db = db
commit_all (t ∷ ts) db = commit_all ts (commit t db)

pub cancel-cases :
    (k user_id : ℕ) (owner : Option ℕ) (now : Time) (db : Db)
    → (request_shutdown_cancel k user_id owner now db ≡ (false, db))
      ⊎ ((j : Job) × (find_job k db.jobs ≡ some j)
          × (can_cancel owner j ≡ true)
          × (request_shutdown_cancel k user_id owner now db
              ≡ (true, apply_cancel k user_id now (is_pending j.status) db)))
unfolding request_shutdown_cancel
cancel-cases k user_id owner now db = elim (Option-cases (find_job k db.jobs)) [
  | inl e ↦ inl (ground arith)
  | inr (j, e) ↦ elim (Bool-cases (can_cancel owner j)) [
    | inl f ↦ inr (j, e, f, ground arith)
    | inr f ↦ inl (ground arith)
  ]
]

cancel-Keeps :
    (k user_id : ℕ) (owner : Option ℕ) (now : Time) (db : Db)
    → Keeps db.jobs (request_shutdown_cancel k user_id owner now db).1.jobs
cancel-Keeps k user_id owner now db = elim (cancel-cases k user_id owner now db) [
  | inl e ↦ rw e (Keeps-refl db.jobs)
  | inr (j, found, f, e) ↦ rw e (apply_cancel-Keeps k user_id now (is_pending j.status) db)
]

now-cases :
    (k user_id : ℕ) (owner : Option ℕ) (now : Time) (db : Db)
    → ((request_shutdown_now k user_id owner now db).1.jobs ≡ db.jobs)
      ⊎ ((request_shutdown_now k user_id owner now db).1.jobs
          ≡ update_job k mark_execute_now db.jobs)
unfolding request_shutdown_now record_audit_event
now-cases k user_id owner now db = ground arith

now-Keeps :
    (k user_id : ℕ) (owner : Option ℕ) (now : Time) (db : Db)
    → Keeps db.jobs (request_shutdown_now k user_id owner now db).1.jobs
now-Keeps k user_id owner now db = elim (now-cases k user_id owner now db) [
  | inl e ↦ rw e (Keeps-refl db.jobs)
  | inr e ↦ rw e (Keeps-update k mark_execute_now db.jobs (λ j. ground arith))
]

countdown-Keeps :
    (k remaining total : ℕ) (db : Db)
    → Keeps db.jobs (or_rollback_both db (update_countdown k remaining total db)).jobs
unfolding update_countdown
countdown-Keeps k remaining total db = elim (Result-cases (get_one k db.jobs)) [
  | inr (x, e) ↦ rw e (Keeps-refl db.jobs)
  | inl (j, e) ↦ rw e (Keeps-update k (countdown_row remaining total) db.jobs (λ j. ground arith))
]

irreversible-Keeps :
    (k : ℕ) (db : Db) → Keeps db.jobs (or_rollback_both db (mark_irreversible k db)).jobs
unfolding mark_irreversible
irreversible-Keeps k db = elim (Result-cases (get_one k db.jobs)) [
  | inr (x, e) ↦ rw e (Keeps-refl db.jobs)
  | inl (j, e) ↦
      elim (Bool-cases (not (j.is_cancellable && not j.cancel_requested) && j.cancel_requested)) [
        | inl f ↦ rw e (rw f (Keeps-refl db.jobs))
        | inr f ↦ rw e (rw f (Keeps-update k irreversible_row db.jobs (λ j. ground arith)))
      ]
]

complete-Keeps :
    (k : ℕ) (r : AssistedShutdownResult) (audit_action : AuditAction) (notify : Bool) (now : Time)
    (db : Db)
    → Keeps db.jobs (or_rollback db (complete_shutdown_job k r audit_action notify now db)).jobs
unfolding complete_shutdown_job record_audit_event enqueue_discord_notification
complete-Keeps k r audit_action notify now db = elim (Result-cases (get_one k db.jobs)) [
  | inr (x, e) ↦ rw e (Keeps-refl db.jobs)
  | inl (j, e) ↦ elim (Bool-cases notify) [
    | inl f ↦ rw e (rw f (Keeps-update k (finished_row r now) db.jobs (λ j. ground arith)))
    | inr f ↦ rw e (rw f (Keeps-update k (finished_row r now) db.jobs (λ j. ground arith)))
  ]
]

commit-Keeps : (t : Transaction) (db : Db) → Keeps db.jobs (commit t db).jobs
commit-Keeps (cancel k user_id owner now) db = cancel-Keeps k user_id owner now db
commit-Keeps (execute_now k user_id owner now) db = now-Keeps k user_id owner now db
commit-Keeps (countdown k remaining total) db = countdown-Keeps k remaining total db
commit-Keeps (irreversible k) db = irreversible-Keeps k db
commit-Keeps (complete k r audit_action notify now) db =
    complete-Keeps k r audit_action notify now db

pub commit_all-Keeps : (ts : List Transaction) (db : Db) → Keeps db.jobs (commit_all ts db).jobs
commit_all-Keeps [] db = Keeps-refl db.jobs
commit_all-Keeps (t ∷ ts) db =
    Keeps-trans db.jobs (commit t db).jobs (commit_all ts (commit t db)).jobs (commit-Keeps t db)
      (commit_all-Keeps ts (commit t db))
