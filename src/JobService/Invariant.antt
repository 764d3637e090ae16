-- ===== src/JobService/Invariant.antt =====
-- What holds of the queue and the maintenance lock of app/jobs/service.py between transactions.
use palworld_manager.Prelude.{
  ℕ, ◌≤◌, ◌≡◌, Bool, true, false, ◌&&◌, String, Option, none, some, List, map, arith, is_some,
}
use palworld_manager.Db.Enums.{is_active, is_pending, is_running}
use palworld_manager.Db.Rows.{Job, MaintenanceLock, Db}
use palworld_manager.Db.Jobs.{find_job, edit_if, update_job, holds_key}
use palworld_manager.Db.Jobs.Laws.{IdsUnique, find_job-map_inv, find_job-map, IdsUnique-map}

abbrev pub holder : Option MaintenanceLock → Option ℕ
holder none = none
holder (some l) = some l.job_id

-- The job needs the lock now.
abbrev pub in_maintenance : Job → Bool
in_maintenance j = is_running j.status && j.requires_maintenance_lock

pub record QueueInv (jobs : List Job) (lock : Option MaintenanceLock) : Type 0 where
  pub ids : IdsUnique jobs
  pub lock_held :
      (i : ℕ) (j : Job) → find_job i jobs ≡ some j → in_maintenance j ≡ true → holder lock ≡ some i
  pub lock_started :
      (l : MaintenanceLock) (j : Job)
      → lock ≡ some l
      → find_job l.job_id jobs ≡ some j
      → is_pending j.status ≡ false
  pub lock_row : (l : MaintenanceLock) → lock ≡ some l → is_some (find_job l.job_id jobs) ≡ true
  pub keys_exclusive :
      (key : String) (i k : ℕ) (a b : Job)
      → find_job i jobs ≡ some a
      → find_job k jobs ≡ some b
      → holds_key key a ≡ true
      → holds_key key b ≡ true
      → i ≡ k
  pub progress_range : (i : ℕ) (j : Job) → find_job i jobs ≡ some j → j.progress ≤ 100

abbrev pub IsValid : Db → Type 0
IsValid db = QueueInv db.jobs db.lock

-- A change of one row that keeps its id, its key and its need of the lock, and that starts or
-- revives nothing.
pub record IsQuiet (j j' : Job) : Type 0 where
  pub keeps_id : j'.id ≡ j.id
  pub keeps_key : j'.coordination_key ≡ j.coordination_key
  pub keeps_need : j'.requires_maintenance_lock ≡ j.requires_maintenance_lock
  pub no_revival : is_active j'.status ≡ true → is_active j.status ≡ true
  pub no_start : is_running j'.status ≡ true → is_running j.status ≡ true
  pub no_return : is_pending j'.status ≡ true → is_pending j.status ≡ true
  pub progress_range : j.progress ≤ 100 → j'.progress ≤ 100

abbrev pub AllQuiet : (Job → Job) → Type 0
AllQuiet g = (j : Job) → IsQuiet j (g j)

module _ (g : Job → Job) (quiet : AllQuiet g) {jobs : List Job}
    {lock : Option MaintenanceLock} where
  pub QueueInv-map : QueueInv jobs lock → QueueInv (map g jobs) lock
  QueueInv-map inv = record {
    ids = IdsUnique-map g (λ j. (quiet j).keeps_id) jobs inv.ids;
    lock_held = λ i j' found busy.
        let (j, before, e) = find_job-map_inv g (λ x. (quiet x).keeps_id) i jobs found in
        ground (arith, quiet j, inv.lock_held i j before);
    lock_started = λ l j' held found.
        let (j, before, e) = find_job-map_inv g (λ x. (quiet x).keeps_id) l.job_id jobs found in
        ground (arith, quiet j, inv.lock_started l j held before);
    lock_row = λ l held.
        ground (arith, find_job-map g (λ x. (quiet x).keeps_id) l.job_id jobs, inv.lock_row l);
    keys_exclusive = λ key i k a' b' fa fb ha hb.
        let (a, before_a, ea) = find_job-map_inv g (λ x. (quiet x).keeps_id) i jobs fa in
        let (b, before_b, eb) = find_job-map_inv g (λ x. (quiet x).keeps_id) k jobs fb in
        ground (arith, quiet a, quiet b, inv.keys_exclusive key i k a b before_a before_b);
    progress_range = λ i j' found.
        let (j, before, e) = find_job-map_inv g (λ x. (quiet x).keeps_id) i jobs found in
        ground (arith, quiet j, inv.progress_range i j before);
  }

pub edit_if-quiet : (i : ℕ) (f : Job → Job) → AllQuiet f → AllQuiet (edit_if i f)
edit_if-quiet i f quiet j = ground (arith, quiet j)

-- An update of one row by a quiet change keeps the queue valid.
pub QueueInv-update_job :
    (i : ℕ) (f : Job → Job)
    → AllQuiet f
    → {jobs : List Job} {lock : Option MaintenanceLock} → QueueInv jobs lock
    → QueueInv (update_job i f jobs) lock
unfolding update_job
QueueInv-update_job i f quiet inv = QueueInv-map (edit_if i f) (edit_if-quiet i f quiet) inv
