-- ===== src/Db/Audit.antt =====
-- app/audit/service.py: recording and pruning audit events. `record_audit_event` refuses an
-- action, a result or an origin outside its sets; the data types of the model are those sets.
use palworld_manager.Prelude.{
  ℕ, ◌+◌, ◌-◌, ◌*◌, Bool, not, Option, none, some, [], ◌∷◌, ◌++◌, where_rows, length, ltb,
  if◌then◌else◌,
}
use palworld_manager.Db.Enums.{AuditAction, AuditResult, AuditOrigin}
use palworld_manager.Db.Rows.{Time, second, AuditEvent, Db}
use palworld_manager.Db.Jobs.{find_job}

abbrev pub audit_retention : ℕ
audit_retention = 90 * 24 * 3600 * second

-- `occurred_at < now - timedelta(days=90)`, with the span on the other side.
abbrev pub is_expired : Time → AuditEvent → Bool
is_expired now e = ltb (e.occurred_at + audit_retention) now

-- Returns the number of rows removed too.
unfoldable pub prune_expired_audit_events : Time → Db → ℕ × Db
prune_expired_audit_events now db = (
  length (where_rows (is_expired now) db.audits),
  record db { audits = where_rows (λ e. not (is_expired now e)) db.audits },
)

abbrev span : Option Time → Option Time → Option ℕ
span (some started) (some finished) =
    if ltb finished started then none else some (finished - started)
span _ _ = none

-- `_job_duration_ms`, in microseconds.
unfoldable pub job_duration : Option ℕ → Db → Option ℕ
job_duration none db = none
job_duration (some job_id) db = elim (find_job job_id db.jobs) [
  | none ↦ none
  | some j ↦ span j.started_at j.finished_at
]

-- The required arguments; the optional ones are set in the record.
abbrev pub event : Time → AuditAction → AuditResult → AuditOrigin → AuditEvent
event occurred_at action outcome origin = record {
  occurred_at = occurred_at;
  action = action;
  outcome = outcome;
  origin = origin;
  user_id = none;
  job_id = none;
  target = none;
  reason = none;
  duration = none;
  details = none;
}

unfoldable pub record_audit_event : AuditEvent → Db → Db
unfolding prune_expired_audit_events job_duration
record_audit_event e db =
    let kept = (prune_expired_audit_events e.occurred_at db).1 in
    record kept { audits = kept.audits ++ record e { duration = job_duration e.job_id db } ∷ [] }
