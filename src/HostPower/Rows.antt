-- ===== src/HostPower/Rows.antt =====
-- app/host_power/jobs.py: the changes of the row of a job for the power of the host.
use palworld_manager.Prelude.{ℕ, ◌<◌, ◌≡◌, refl, true, some, arith, Bool-cases}
use palworld_manager.Prelude.Result.{Error, ok, guard-eq-ok, >>=-eq-ok}
use palworld_manager.Prelude.Dict.{get, or_empty}
use palworld_manager.Db.Enums.{
  HostPowerAction, PalworldHealthState, JobStatus, is_terminal, is_running,
}
use palworld_manager.Db.Rows.{Time, Job, Db}
use palworld_manager.Db.Jobs.{find_job, get_one}
use palworld_manager.Db.Jobs.Laws.{find_job-update_job}
use palworld_manager.Db.Audit.{record_audit_event}
use palworld_manager.JobService.Invariant.{IsValid, AllQuiet, QueueInv-update_job}
use palworld_manager.Lifecycle.Completion.{Ended, bounded_int_range}
use palworld_manager.Lifecycle.Executor.{is_offline}
use palworld_manager.Shutdown.Executor.{ShutdownOutcome}
use palworld_manager.HostPower.{
  HostPowerReport, reported_status, reported_row, complete_host_power, change_job, checking_row,
  stopping_row, requesting_row, is_success, host_power_order, stop_timeout,
  parse_host_power_job_kind,
}

-- A quiet change of the row comes before its end.
pub change_job-Ended :
    (i : ℕ) (f : Job → Job)
    → AllQuiet f
    → (status : JobStatus) (db db' : Db) → Ended i status (change_job i f db) db'
    → Ended i status db db'
change_job-Ended i f quiet status db db' end = record {
  row = end.row;
  stored = end.stored;
  status_is = end.status_is;
  terminal = end.terminal;
  full = end.full;
  others = λ k different.
      ground (
        arith,
        end.others k different,
        find_job-update_job k i f (λ x. (quiet x).keeps_id) db.jobs,
      );
  valid = end.valid;
}

pub change_job-found :
    (i : ℕ) (f : Job → Job)
    → AllQuiet f
    → (db : Db) {j : Job} → find_job i db.jobs ≡ some j
    → find_job i (change_job i f db).jobs ≡ some (f j)
change_job-found i f quiet db {j} found =
    ground (arith, find_job-update_job i i f (λ x. (quiet x).keeps_id) db.jobs)

pub checking_row-quiet : AllQuiet checking_row
checking_row-quiet j = ground arith

pub stopping_row-quiet : AllQuiet stopping_row
stopping_row-quiet j = ground arith

pub requesting_row-quiet : AllQuiet requesting_row
requesting_row-quiet j = ground arith

pub reported_row-quiet : (r : HostPowerReport) (now : Time) → AllQuiet (reported_row r now)
reported_row-quiet r now j = ground (arith, Bool-cases r.succeeded)

pub reported_status_terminal : (r : HostPowerReport) → is_terminal (reported_status r) ≡ true
reported_status_terminal r = ground (arith, Bool-cases r.succeeded)

pub complete_host_power-Ended :
    (i : ℕ) (action : HostPowerAction) (r : HostPowerReport) (now : Time) (db : Db) (j : Job)
    → IsValid db
    → find_job i db.jobs ≡ some j
    → Ended i (reported_status r) db (complete_host_power i action r now db)
unfolding record_audit_event
complete_host_power-Ended i action r now db j v found = record {
  row = reported_row r now j;
  stored = change_job-found i (reported_row r now) (reported_row-quiet r now) db found;
  status_is = refl;
  terminal = reported_status_terminal r;
  full = refl;
  others = λ k different.
      ground (arith, find_job-update_job k i (reported_row r now) (λ x. refl) db.jobs);
  valid = QueueInv-update_job i (reported_row r now) (reported_row-quiet r now) v;
}

pub host_power_order_facts :
    (i : ℕ) (db : Db) (action : HostPowerAction) (timeout : ℕ)
    → host_power_order i db ≡ ok (action, timeout)
    → (j : Job) × (find_job i db.jobs ≡ some j) × (0 < timeout)
unfolding host_power_order get_one
host_power_order_facts i db action timeout h =
    let (j, got, h1) = >>=-eq-ok (get_one i db.jobs) _ h in
    let (running, h2) = guard-eq-ok (is_running j.status) Error.value_error _ h1 in
    let (a, parsed, h3) = >>=-eq-ok (parse_host_power_job_kind j.kind) _ h2 in
    let (t, bounded, h4) = >>=-eq-ok (stop_timeout j) _ h3 in
    let range = bounded_int_range 1 300 (get "stop_timeout_seconds" (or_empty j.result)) bounded in
    (j, ground arith, ground arith)

pub is_offline-true :
    (state : PalworldHealthState) → is_offline state ≡ true → state ≡ PalworldHealthState.offline
is_offline-true state h = ground arith

pub is_success-true : (o : ShutdownOutcome) → is_success o ≡ true → o ≡ ShutdownOutcome.succeeded
is_success-true o h = ground arith
