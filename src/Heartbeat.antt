-- ===== src/Heartbeat.antt =====
-- app/jobs/heartbeat.py: the lease that lets one worker process run at a time.
use palworld_manager.Prelude.{
  ℕ, ◌+◌, ◌*◌, ◌<◌, ◌≡◌, ◌≢◌, Bool, true, false, ◌||◌, String, Option, none, some, List, [], ◌∷◌,
  arith, leb, str_eq, eq_iff, if◌then◌else◌,
}
use palworld_manager.Prelude.Result.{Error, Result, ok, err}
use palworld_manager.Db.Rows.{Time, second, WorkerHeartbeat, Db}

abbrev pub worker_lease_timeout : ℕ
worker_lease_timeout = 30 * second

abbrev started_row : String → Time → WorkerHeartbeat
started_row worker_id now = record { worker_id = worker_id; started_at = now; heartbeat_at = now }

-- The WHERE clause of the upsert: the row is the worker's own, or
-- `heartbeat_at <= now - timedelta(seconds=30)`.
abbrev pub can_take : String → Time → Option WorkerHeartbeat → Bool
can_take worker_id now none = true
can_take worker_id now (some h) =
    str_eq h.worker_id worker_id || leb (h.heartbeat_at + worker_lease_timeout) now

unfoldable pub record_worker_start : String → Time → Db → Result Db
record_worker_start worker_id now db =
    if str_eq worker_id ""
    then err Error.value_error
    else (if can_take worker_id now db.heartbeat
        then ok (record db { heartbeat = some (started_row worker_id now) })
        else err Error.worker_already_running)

abbrev pub is_own : String → Option WorkerHeartbeat → Bool
is_own worker_id none = false
is_own worker_id (some h) = str_eq h.worker_id worker_id

abbrev pub beat : Time → Option WorkerHeartbeat → Option WorkerHeartbeat
beat now none = none
beat now (some h) = some (record h { heartbeat_at = now })

unfoldable pub record_worker_heartbeat : String → Time → Db → Bool × Db
record_worker_heartbeat worker_id now db =
    if is_own worker_id db.heartbeat
    then (true, record db { heartbeat = beat now db.heartbeat })
    else (false, db)

unfoldable pub release_worker_lease : String → Db → Db
release_worker_lease worker_id db =
    if is_own worker_id db.heartbeat then record db { heartbeat = none } else db

-- What a worker process does to the lease.
pub data LeaseStep : Type 0 where
  start : String → Time → LeaseStep
  heartbeat : String → Time → LeaseStep
  release : String → LeaseStep

abbrev or_unchanged : Db → Result Db → Db
or_unchanged db (ok db') = db'
or_unchanged db (err x) = db

abbrev pub lease_step : LeaseStep → Db → Db
lease_step (start worker_id now) db = or_unchanged db (record_worker_start worker_id now db)
lease_step (heartbeat worker_id now) db = (record_worker_heartbeat worker_id now db).1
lease_step (release worker_id) db = release_worker_lease worker_id db

abbrev pub lease_steps : List LeaseStep → Db → Db
lease_steps [] db = db
lease_steps (s ∷ ss) db = lease_steps ss (lease_step s db)

-- A step of another worker, before the time `limit`.
abbrev pub IsForeign : String → ℕ → LeaseStep → Type 0
IsForeign owner limit (start worker_id now) = (worker_id ≢ owner) × (now < limit)
IsForeign owner limit (heartbeat worker_id now) = worker_id ≢ owner
IsForeign owner limit (release worker_id) = worker_id ≢ owner

abbrev pub AllForeign : String → ℕ → List LeaseStep → Type 0
AllForeign owner limit [] = Unit
AllForeign owner limit (s ∷ ss) = IsForeign owner limit s × AllForeign owner limit ss

lease_step-foreign :
    (h : WorkerHeartbeat) (s : LeaseStep) (db : Db)
    → db.heartbeat ≡ some h
    → IsForeign h.worker_id (h.heartbeat_at + worker_lease_timeout) s
    → (lease_step s db).heartbeat ≡ some h
unfolding record_worker_start record_worker_heartbeat release_worker_lease
lease_step-foreign h (start worker_id now) db held foreign =
    ground (arith, eq_iff h.worker_id worker_id)
lease_step-foreign h (heartbeat worker_id now) db held foreign =
    ground (arith, eq_iff h.worker_id worker_id)
lease_step-foreign h (release worker_id) db held foreign =
    ground (arith, eq_iff h.worker_id worker_id)

lease_steps-foreign :
    (h : WorkerHeartbeat) (ss : List LeaseStep) (db : Db)
    → db.heartbeat ≡ some h
    → AllForeign h.worker_id (h.heartbeat_at + worker_lease_timeout) ss
    → (lease_steps ss db).heartbeat ≡ some h
lease_steps-foreign h [] db held foreign = held
lease_steps-foreign h (s ∷ ss) db held foreign =
    lease_steps-foreign h ss (lease_step s db) (lease_step-foreign h s db held foreign.0) foreign.1

-- The worker that holds the lease keeps it for 30 seconds after its last heartbeat: whatever the
-- other workers do in that time, every start of another worker is refused as already running and
-- the owner's next heartbeat is accepted.
pub lease_is_exclusive :
    (h : WorkerHeartbeat) (ss : List LeaseStep) (db : Db) (other : String) (now later : Time)
    → db.heartbeat ≡ some h
    → AllForeign h.worker_id (h.heartbeat_at + worker_lease_timeout) ss
    → other ≢ h.worker_id
    → other ≢ ""
    → now < h.heartbeat_at + worker_lease_timeout
    → (record_worker_start other now (lease_steps ss db) ≡ err Error.worker_already_running)
      × ((record_worker_heartbeat h.worker_id later (lease_steps ss db)).0 ≡ true)
unfolding record_worker_start record_worker_heartbeat
lease_is_exclusive h ss db other now later held foreign different named early =
    let kept = lease_steps-foreign h ss db held foreign in
    (
      ground (arith, eq_iff other "", eq_iff h.worker_id other),
      ground (arith, eq_iff h.worker_id h.worker_id),
    )
