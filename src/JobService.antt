-- ===== src/JobService.antt =====
-- app/jobs/service.py: the persistent queue of jobs and its global maintenance lock. Each function
-- is the body of one database transaction.
pub mod Invariant
pub mod Claim
pub mod Next
pub mod Insert
pub mod Recovery
pub mod Added
use palworld_manager.Prelude.{
  ℕ, Bool, true, false, ◌&&◌, ◌||◌, not, String, Option, none, some, List, [], ◌∷◌, map, exists,
  where_rows, ◌==◌, ltb, str_eq, is_some, if◌then◌else◌,
}
use palworld_manager.Prelude.Result.{Error, Result, ok, err}
use palworld_manager.Prelude.Dict.{Json, update, or_empty}
use palworld_manager.Db.Enums.{
  JobKind, kind_value, JobStatus, JobStep, is_pending, is_running, is_terminal, AuditAction,
  AuditResult, AuditOrigin,
}
use palworld_manager.Db.Rows.{Time, Job, MaintenanceLock, Db}
use palworld_manager.Db.Jobs.{find_job, update_job}
use palworld_manager.Db.Audit.{event, record_audit_event}

-- `kind in supported_kinds`
unfoldable pub kind_in : List JobKind → JobKind → Bool
kind_in kinds kind = exists (λ k. str_eq (kind_value k) (kind_value kind)) kinds

-- ORDER BY created_at, id
abbrev pub precedes : Job → Job → Bool
precedes a b = ltb a.created_at b.created_at || (a.created_at == b.created_at && ltb a.id b.id)

abbrev pub sooner : Job → Option Job → Job
sooner j none = j
sooner j (some k) = if precedes k j then k else j

-- The first row in that order among those that a test keeps.
unfoldable pub earliest : (Job → Bool) → List Job → Option Job
earliest p [] = none
earliest p (j ∷ js) = let rest = earliest p js in if p j then some (sooner j rest) else rest

-- The WHERE clause of `_pending_supported_job`.
abbrev pub is_claimable : List JobKind → Option MaintenanceLock → Job → Bool
is_claimable kinds lock j =
    kind_in kinds j.kind
    && (is_pending j.status && (not j.requires_maintenance_lock || not (is_some lock)))

abbrev pub mark_claimed : String → Time → Job → Job
mark_claimed worker_id now j = record j {
  status = JobStatus.running;
  step = JobStep.executing;
  claimed_by = some worker_id;
  claimed_at = some now;
  started_at = some now;
  progress = 5;
}

abbrev pub unclaim : Job → Job
unclaim j = record j {
  status = JobStatus.pending;
  step = JobStep.waiting;
  claimed_by = none;
  claimed_at = none;
  started_at = none;
  progress = 0;
}

-- Is the lock held by a job for which the test holds? The id is the primary key.
abbrev pub held_by : (Job → Bool) → List Job → MaintenanceLock → Bool
held_by p jobs l = elim (find_job l.job_id jobs) [ none ↦ false | some j ↦ p j ]

abbrev pub drop_if : (MaintenanceLock → Bool) → Option MaintenanceLock → Option MaintenanceLock
drop_if p none = none
drop_if p (some l) = if p l then none else some l

-- `_release_terminal_locks`
unfoldable pub release_terminal_locks : Db → Db
release_terminal_locks db = record db {
  lock = drop_if (held_by (λ j. is_terminal j.status) db.jobs) db.lock;
}

-- INSERT OR IGNORE of the lock's only key; where it is ignored the claim is undone.
abbrev acquire : String → Time → Job → Option MaintenanceLock → Db → Option Job × Db
acquire worker_id now row none db = (
  some row,
  record db { lock = some (record { job_id = row.id; worker_id = worker_id; acquired_at = now }) },
)
acquire worker_id now row (some held) db =
    (none, record db { jobs = update_job row.id unclaim db.jobs })

unfoldable pub claim_row : String → Time → Option Job → Db → Option Job × Db
claim_row worker_id now none db = (none, db)
claim_row worker_id now (some row) db =
    let claimed = record db { jobs = update_job row.id (mark_claimed worker_id now) db.jobs } in
    if row.requires_maintenance_lock
    then acquire worker_id now (mark_claimed worker_id now row) claimed.lock claimed
    else (some (mark_claimed worker_id now row), claimed)

unfoldable pub claim_supported : String → Time → List JobKind → Db → Option Job × Db
claim_supported worker_id now [] db = (none, db)
claim_supported worker_id now (k ∷ ks) db =
    let free = release_terminal_locks db in
    claim_row worker_id now (earliest (is_claimable (k ∷ ks) free.lock) free.jobs) free

unfoldable pub claim_next_job : String → List JobKind → Time → Db → Result (Option Job × Db)
unfolding claim_supported claim_row release_terminal_locks kind_in earliest
claim_next_job worker_id supported_kinds now db =
    if str_eq worker_id ""
    then err Error.value_error
    else ok (claim_supported worker_id now supported_kinds db)

-- `release_maintenance_lock`
unfoldable pub release_maintenance_lock : ℕ → Db → Db
release_maintenance_lock job_id db = record db { lock = drop_if (λ l. l.job_id == job_id) db.lock }

pub record InterruptedJob : Type 0 where
  pub id : ℕ
  pub kind : JobKind
  pub log_path : Option String

abbrev pub interrupt : Time → Job → Job
interrupt now j = record j {
  status = JobStatus.interrupted;
  step = JobStep.interrupted;
  is_cancellable = false;
  finished_at = some now;
  result = some (
      update (or_empty j.result)
        (("interrupted", Json.bool true) ∷ ("requires_manual_review", Json.bool true) ∷ []));
}

abbrev interrupted_view : Job → InterruptedJob
interrupted_view j = record { id = j.id; kind = j.kind; log_path = j.log_path }

-- One round of the loop of `recover_interrupted_jobs`.
abbrev pub interrupt_one : Time → Job → Db → Db
interrupt_one now j db =
    record_audit_event
      (record (event now AuditAction.job_interrupted AuditResult.interrupted AuditOrigin.system) {
        job_id = some j.id;
        target = some (kind_value j.kind);
        details = some (("requires_manual_review", Json.bool true) ∷ []);
      })
      (record db { jobs = update_job j.id (interrupt now) db.jobs })

unfoldable pub interrupt_all : Time → List Job → Db → Db
interrupt_all now [] db = db
interrupt_all now (j ∷ js) db = interrupt_all now js (interrupt_one now j db)

-- `job_id IN (ids of the interrupted jobs)`
abbrev pub is_among : List Job → MaintenanceLock → Bool
is_among rows l = exists (λ j. l.job_id == j.id) rows

unfoldable pub recover_interrupted_jobs : Time → Db → List InterruptedJob × Db
unfolding release_terminal_locks
recover_interrupted_jobs now db =
    let running_jobs = where_rows (λ j. is_running j.status) db.jobs in
    let marked = interrupt_all now running_jobs db in
    (
      map interrupted_view running_jobs,
      release_terminal_locks (record marked { lock = drop_if (is_among running_jobs) marked.lock }),
    )
