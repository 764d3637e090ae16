-- ===== src/Shutdown/Queue.antt =====
-- app/shutdown/jobs.py: what a request leaves in the queue, and that no step of a shutdown breaks it.
pub mod Escalation
pub mod Requests
use native.Mathlib.Nat.{
  div-lt_iff_lt-mul, div-zero, zero-div, mul-div_cancel, div-mul-le_self, le-div_iff_mul-le,
  le_trans,
}
use palworld_manager.Prelude.{
  ℕ, zero, suc, ◌+◌, ◌-◌, ◌*◌, ◌/◌, ◌≤◌, ◌<◌, ◌≡◌, refl, Bool, true, false, arith, inl, inr,
  Bool-cases, Option-cases, List, [], ◌∷◌, if◌then◌else◌, not, ◌&&◌, Option, none, some, ap, ◌∙◌,
}
use palworld_manager.Prelude.Result.{Result, ok, err, ◌>>=◌, Result-cases}
use palworld_manager.Db.Enums.{is_pending, AuditAction}
use palworld_manager.Db.Rows.{Time, Job, Db, MaintenanceLock}
use palworld_manager.Db.Jobs.{get_one, update_job}
use palworld_manager.Db.Audit.{record_audit_event}
use palworld_manager.JobService.Invariant.{QueueInv, IsValid, AllQuiet, QueueInv-update_job}
use palworld_manager.Notifications.{enqueue_discord_notification}
use palworld_manager.Shutdown.Executor.{AssistedShutdownResult}
use palworld_manager.Shutdown.Jobs.{
  mark_cancel_requested, cancelled_row, mark_execute_now, apply_cancel, request_shutdown_cancel,
  request_shutdown_now,
}
use palworld_manager.Shutdown.Jobs.Control.{
  countdown_progress, countdown_row, irreversible_row, update_countdown, mark_irreversible,
}
use palworld_manager.Shutdown.Jobs.Complete.{finished_row, complete_shutdown_job}
use palworld_manager.Shutdown.Race.Keeps.{
  Transaction, cancel, execute_now, countdown, irreversible, complete, commit, commit_all,
  or_rollback, or_rollback_both, cancel-cases,
}

fraction_range : (remaining total : ℕ) → 75 * (total - remaining) / total ≤ 75
fraction_range remaining zero = rw (div-zero (75 * (0 - remaining))) (omega arith)
fraction_range remaining (suc t) =
    let below : 75 * (suc t - remaining) / suc t < 76 =
      (div-lt_iff_lt-mul {k = suc t} {x = 75 * (suc t - remaining)} {y = 76} (omega arith)).1
        (omega arith) in
    omega arith

progress_bounds :
    (remaining total : ℕ)
    → (5 ≤ countdown_progress remaining total) × (countdown_progress remaining total ≤ 80)
progress_bounds remaining total =
    let bound = fraction_range remaining total in (omega arith, omega arith)

progress_grows :
    (less more total : ℕ)
    → 0 < total
    → less ≤ more
    → countdown_progress more total ≤ countdown_progress less total
progress_grows less more total positive h =
    let small = 75 * (total - more) in
    let large = 75 * (total - less) in
    let under : small / total * total ≤ small = div-mul-le_self small total in
    let quotients : small / total ≤ large / total =
      (le-div_iff_mul-le {k = total} {x = small / total} {y = large} positive).1
        (le_trans under (omega arith)) in
    omega arith

progress_start : (total : ℕ) → countdown_progress total total ≡ 5
progress_start total =
    let nothing : 75 * (total - total) ≡ 0 = omega arith in
    let quotient : 75 * (total - total) / total ≡ 0 =
      ap (λ n. n / total) nothing ∙ zero-div total in
    omega arith

progress_end : (total : ℕ) → 0 < total → countdown_progress 0 total ≡ 80
progress_end total positive =
    let everything : 75 * (total - 0) ≡ 75 * total = omega arith in
    let quotient : 75 * (total - 0) / total ≡ 75 =
      ap (λ n. n / total) everything ∙ mul-div_cancel 75 positive in
    omega arith

-- The countdown, with at least one second in all and no more left than that, shows a progress
-- between 5 and 80. It is 5 at the beginning and 80 where nothing is left, and it never goes back
-- while the seconds run down.
pub countdown_progress_range :
    (remaining total : ℕ)
    → 0 < total
    → remaining ≤ total
    → (5 ≤ countdown_progress remaining total)
      × (countdown_progress remaining total ≤ 80)
      × (countdown_progress total total ≡ 5)
      × (countdown_progress 0 total ≡ 80)
      × ((less : ℕ)
          → less ≤ remaining
          → countdown_progress remaining total ≤ countdown_progress less total)
countdown_progress_range remaining total positive bounded =
    let (low, high) = progress_bounds remaining total in
    (
      low,
      high,
      progress_start total,
      progress_end total positive,
      λ less fewer. progress_grows less remaining total positive fewer,
    )

apply_cancel-IsValid :
    (k user_id : ℕ) (now : Time) (waiting : Bool) (db : Db)
    → IsValid db
    → IsValid (apply_cancel k user_id now waiting db)
unfolding apply_cancel record_audit_event
apply_cancel-IsValid k user_id now true db v =
    QueueInv-update_job k (cancelled_row now) (λ j. ground arith)
      (QueueInv-update_job k mark_cancel_requested (λ j. ground arith) v)
apply_cancel-IsValid k user_id now false db v =
    QueueInv-update_job k mark_cancel_requested (λ j. ground arith) v

execute_now-IsValid :
    (k user_id : ℕ) (owner : Option ℕ) (now : Time) (db : Db)
    → IsValid db
    → IsValid (request_shutdown_now k user_id owner now db).1
unfolding request_shutdown_now record_audit_event
execute_now-IsValid k user_id owner now db v =
    let changed = QueueInv-update_job k mark_execute_now (λ j. ground arith) v in
    ground (arith, v, changed)

pub countdown_row-quiet : (remaining total : ℕ) → AllQuiet (countdown_row remaining total)
countdown_row-quiet remaining total j =
    let (low, high) = progress_bounds remaining total in
    record {
      keeps_id = refl;
      keeps_key = refl;
      keeps_need = refl;
      no_revival = λ h. h;
      no_start = λ h. h;
      no_return = λ h. h;
      progress_range = λ h. omega arith;
    }

countdown-IsValid :
    (k remaining total : ℕ) (db : Db)
    → IsValid db
    → IsValid (or_rollback_both db (update_countdown k remaining total db))
unfolding update_countdown
countdown-IsValid k remaining total db v = elim (Result-cases (get_one k db.jobs)) [
  | inr (x, e) ↦ rw e v
  | inl (j, e) ↦ rw e (
      QueueInv-update_job k (countdown_row remaining total) (countdown_row-quiet remaining total) v)
]

irreversible-IsValid :
    (k : ℕ) (db : Db) → IsValid db → IsValid (or_rollback_both db (mark_irreversible k db))
unfolding mark_irreversible
irreversible-IsValid k db v = elim (Result-cases (get_one k db.jobs)) [
  | inr (x, e) ↦ rw e v
  | inl (j, e) ↦
      elim (Bool-cases (not (j.is_cancellable && not j.cancel_requested) && j.cancel_requested)) [
        | inl f ↦ rw e (rw f v)
        | inr f ↦ rw e (rw f (QueueInv-update_job k irreversible_row (λ j. ground arith) v))
      ]
]

complete-IsValid :
    (k : ℕ) (r : AssistedShutdownResult) (audit_action : AuditAction) (notify : Bool) (now : Time)
    (db : Db)
    → IsValid db
    → IsValid (or_rollback db (complete_shutdown_job k r audit_action notify now db))
unfolding complete_shutdown_job record_audit_event enqueue_discord_notification
complete-IsValid k r audit_action notify now db v =
    let changed = QueueInv-update_job k (finished_row r now) (λ j. ground arith) v in
    elim (Result-cases (get_one k db.jobs)) [
      | inr (x, e) ↦ rw e v
      | inl (j, e) ↦ elim (Bool-cases notify) [
        | inl f ↦ rw e (rw f changed)
        | inr f ↦ rw e (rw f changed)
      ]
    ]

cancel-IsValid :
    (k user_id : ℕ) (owner : Option ℕ) (now : Time) (db : Db)
    → IsValid db
    → IsValid (request_shutdown_cancel k user_id owner now db).1
cancel-IsValid k user_id owner now db v = elim (cancel-cases k user_id owner now db) [
  | inl e ↦ rw e v
  | inr (j, found, f, e) ↦ rw e (apply_cancel-IsValid k user_id now (is_pending j.status) db v)
]

pub commit-IsValid : (t : Transaction) (db : Db) → IsValid db → IsValid (commit t db)
commit-IsValid (cancel k user_id owner now) db v = cancel-IsValid k user_id owner now db v
commit-IsValid (execute_now k user_id owner now) db v = execute_now-IsValid k user_id owner now db v
commit-IsValid (countdown k remaining total) db v = countdown-IsValid k remaining total db v
commit-IsValid (irreversible k) db v = irreversible-IsValid k db v
commit-IsValid (complete k r audit_action notify now) db v =
    complete-IsValid k r audit_action notify now db v

-- The queue stays valid under any sequence of the transactions of a shutdown, whichever job each
-- of them names: requests to cancel and to go ahead, countdown updates, `mark_irreversible` and the
-- completion.
pub commit_all-IsValid : (ts : List Transaction) (db : Db) → IsValid db → IsValid (commit_all ts db)
commit_all-IsValid [] db v = v
commit_all-IsValid (t ∷ ts) db v = commit_all-IsValid ts (commit t db) (commit-IsValid t db v)
