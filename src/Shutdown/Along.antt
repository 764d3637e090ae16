-- ===== src/Shutdown/Along.antt =====
-- app/shutdown/jobs.py: the row of an assisted shutdown while it runs.
use palworld_manager.Prelude.{ℕ, ◌≡◌, refl, false, some, arith, ◌==◌, inl, inr, ◌⊎◌}
use palworld_manager.Db.Enums.{AuditAction}
use palworld_manager.Db.Rows.{Time, Job, Db}
use palworld_manager.Db.Jobs.{find_job, update_job}
use palworld_manager.Db.Jobs.Laws.{find_job-update_job}
use palworld_manager.JobService.Invariant.{IsValid, AllQuiet, QueueInv-update_job}
use palworld_manager.Lifecycle.Completion.{Ended}
use palworld_manager.Shutdown.Executor.{CountdownDirective, AssistedShutdownResult}
use palworld_manager.Shutdown.Jobs.Control.{irreversible_row}
use palworld_manager.Shutdown.Jobs.Complete.{complete_row}
use palworld_manager.Shutdown.Completion.{reported, complete_row-Ended}

-- The row `i` is still there; nothing else has changed in the queue.
pub record Along (i : ℕ) (db db' : Db) : Type 0 where
  pub row : Job
  pub stored : find_job i db'.jobs ≡ some row
  pub others : (k : ℕ) → (k == i) ≡ false → find_job k db'.jobs ≡ find_job k db.jobs
  pub valid : IsValid db'

pub Along-refl :
    (i : ℕ) (db : Db) (j : Job) → IsValid db → find_job i db.jobs ≡ some j → Along i db db
Along-refl i db j v found = record {
  row = j;
  stored = found;
  others = λ k different. refl;
  valid = v;
}

pub Along-update :
    (i : ℕ) (f : Job → Job)
    → AllQuiet f
    → (db db' : Db) → Along i db db'
    → Along i db (record db' { jobs = update_job i f db'.jobs })
Along-update i f quiet db db' a = record {
  row = f a.row;
  stored = ground (arith, a.stored, find_job-update_job i i f (λ x. (quiet x).keeps_id) db'.jobs);
  others = λ k different.
      ground
        (arith, a.others k different, find_job-update_job k i f (λ x. (quiet x).keeps_id) db'.jobs);
  valid = QueueInv-update_job i f quiet a.valid;
}

pub Along-Ended :
    (i : ℕ) (r : AssistedShutdownResult) (now : Time) (db db' : Db)
    → Along i db db'
    → Ended i (reported r.outcome) db (complete_row i r AuditAction.assisted_shutdown false now db')
Along-Ended i r now db db' a =
    let end =
      complete_row-Ended i r AuditAction.assisted_shutdown false now db' a.row a.valid a.stored in
    record {
      row = end.row;
      stored = end.stored;
      status_is = end.status_is;
      terminal = end.terminal;
      full = end.full;
      others = λ k different. ground (arith, end.others k different, a.others k different);
      valid = end.valid;
    }

pub irreversible_row-quiet : AllQuiet irreversible_row
irreversible_row-quiet j = ground arith

pub directive-cases :
    (d : CountdownDirective)
    → ((d ≡ CountdownDirective.cancel) ⊎ (d ≡ CountdownDirective.execute_now))
      ⊎ (d ≡ CountdownDirective.continue)
directive-cases CountdownDirective.cancel = inl (inl refl)
directive-cases CountdownDirective.execute_now = inl (inr refl)
directive-cases CountdownDirective.continue = inr refl
