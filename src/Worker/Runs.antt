-- ===== src/Worker/Runs.antt =====
-- app/lifecycle/worker.py: whatever a run of a job comes to, the job is ended.
use palworld_manager.Prelude.{
  ℕ, ◌≡◌, refl, Bool, true, false, Option, none, some, [], arith, Bool-cases, Option-cases, inl,
  inr, ◌⊎◌, exists, List, ◌∷◌, ◌++◌, if◌then◌else◌, String,
}
use palworld_manager.Prelude.Result.{Error, ok, err, Result-cases}
use palworld_manager.Db.Enums.{
  LifecycleAction, PalworldSignal, HostPowerAction, JobKind, JobStatus, kind_value, AuditAction,
}
use palworld_manager.Db.Rows.{Time, Job, Db}
use palworld_manager.Db.Jobs.{find_job, get_one}
use palworld_manager.Environment.{Environment, Clock}
use palworld_manager.JobService.{kind_in}
use palworld_manager.JobService.Invariant.{IsValid}
use palworld_manager.Lifecycle.Jobs.{lifecycle_order, execute_lifecycle_job}
use palworld_manager.Lifecycle.Completion.{
  Ended, execute_lifecycle_job-Ended, fail_lifecycle_job-Ended,
}
use palworld_manager.Shutdown.Executor.{is_allowed_countdown, execute_assisted}
use palworld_manager.Shutdown.Jobs.Complete.{
  assisted_order, forced_order, execute_assisted_shutdown_job, execute_forced_shutdown_job,
  fail_shutdown_job, complete_shutdown_job, unexpected_failure, complete_row,
}
use palworld_manager.Shutdown.Completion.{complete_row-Ended, execute_forced_shutdown_job-Ended}
use palworld_manager.Shutdown.Assisted.{execute_assisted_shutdown_job-Ended}
use palworld_manager.HostPower.{
  host_power_order, fail_host_power_job, parse_host_power_job_kind, complete_host_power,
  unexpected_report,
}
use palworld_manager.HostPower.Executor.{execute_host_power_job}
use palworld_manager.HostPower.Laws.{execute_host_power_job-Ended}
use palworld_manager.HostPower.Rows.{complete_host_power-Ended}
use palworld_manager.Worker.{
  LifecycleJobWorker, supported_kinds, run_job, fail_job, shutdown_kinds, host_power_kinds,
}

-- The kind is one that this worker asks for.
abbrev pub IsSupported : (e : Environment) → LifecycleJobWorker e → JobKind → Type 0
IsSupported e worker kind = kind_in (supported_kinds e worker) kind ≡ true

-- The kinds that nobody asks for without the executor for them.
abbrev foreign_kinds : List JobKind
foreign_kinds =
    JobKind.local_backup ∷ JobKind.local_restore ∷ JobKind.remote_restore ∷ JobKind.drive_check
    ∷ JobKind.drive_upload ∷ JobKind.drive_download ∷ JobKind.drive_delete ∷ JobKind.update_check
    ∷ JobKind.update ∷ []

unsupported :
    (e : Environment) (id : String) (b : Bool)
    (o : Option (HostPowerAction → e.World → Bool × e.World))
    → let worker : LifecycleJobWorker e = record {
      worker_id = id;
      shutdown_executors = b;
      host_power_executor = o;
    } in
      (exists (kind_in (supported_kinds e worker)) (
        foreign_kinds
        ++ (if b then [] else shutdown_kinds)
        ++ (elim o [ none ↦ host_power_kinds | some _ ↦ [] ])))
      ≡ false
unfolding supported_kinds kind_in kind_value
unsupported e id true none = refl
unsupported e id true (some _) = refl
unsupported e id false none = refl
unsupported e id false (some _) = refl

-- A run ended the job, or raised with the database as it was and the job can be failed.
abbrev pub RunEnds :
    (e : Environment) → LifecycleJobWorker e → JobKind → ℕ → Time → Db → e.World → Type 0
RunEnds e worker kind i now db w =
    ((status : JobStatus) × (db' : Db) × (w' : e.World) × (run_job e worker kind i now db w
        ≡ some (ok (db', w')))
      × Ended i status db db')
    ⊎ ((x : Error) × (db' : Db) × (run_job e worker kind i now db w ≡ some (err x))
        × (fail_job e worker kind i now db ≡ ok db')
        × Ended i JobStatus.failed db db')

fail_shutdown_job-Ended :
    (i : ℕ) (now : Time) (db : Db) (j : Job)
    → IsValid db
    → find_job i db.jobs ≡ some j
    → (db' : Db) × (fail_shutdown_job i now db ≡ ok db') × Ended i JobStatus.failed db db'
unfolding fail_shutdown_job complete_shutdown_job get_one
fail_shutdown_job-Ended i now db j v found = (
  complete_row i unexpected_failure AuditAction.shutdown false now db,
  ground arith,
  complete_row-Ended i unexpected_failure AuditAction.shutdown false now db j v found,
)

fail_host_power_job-Ended :
    (i : ℕ) (now : Time) (db : Db) (j : Job) (action : HostPowerAction)
    → IsValid db
    → find_job i db.jobs ≡ some j
    → j.kind ≡ JobKind.host_power action
    → (db' : Db) × (fail_host_power_job i now db ≡ ok db') × Ended i JobStatus.failed db db'
unfolding fail_host_power_job get_one parse_host_power_job_kind
fail_host_power_job-Ended i now db j action v found kind_is = (
  complete_host_power i action (unexpected_report j) now db,
  ground arith,
  complete_host_power-Ended i action (unexpected_report j) now db j v found,
)

module _ (e : Environment) (c : Clock e) (worker : LifecycleJobWorker e) where
  lifecycle-RunEnds :
      (action : LifecycleAction) (i : ℕ) (now : Time) (db : Db) (w : e.World) (j : Job)
      → IsValid db
      → find_job i db.jobs ≡ some j
      → j.kind ≡ JobKind.lifecycle action
      → RunEnds e worker (JobKind.lifecycle action) i now db w
  unfolding run_job fail_job execute_lifecycle_job
  lifecycle-RunEnds action i now db w j v found kind_is =
      elim (Result-cases (lifecycle_order i db)) [
        | inl ((a, timeout), order) ↦
            let (r, db', w', returned, run, end, verdict) =
              execute_lifecycle_job-Ended e c i now db w a timeout v order in
            inl (_, db', w', returned, end)
        | inr (x, raised) ↦
            let (db', failed, end) = fail_lifecycle_job-Ended i now db j action v found kind_is in
            inr (x, db', ground arith, failed, end)
      ]

  forced-RunEnds :
      (signal : PalworldSignal) (i : ℕ) (now : Time) (db : Db) (w : e.World) (j : Job)
      → worker.shutdown_executors ≡ true
      → IsValid db
      → find_job i db.jobs ≡ some j
      → RunEnds e worker (JobKind.forced_shutdown signal) i now db w
  unfolding run_job fail_job execute_forced_shutdown_job
  forced-RunEnds signal i now db w j there v found = elim (Result-cases (forced_order i db)) [
    | inl ((s, timeout), order) ↦
        let (r, db', w', returned, run, end, verdict) =
          execute_forced_shutdown_job-Ended e c i now db w s timeout v order in
        inl (_, db', w', ground arith, end)
    | inr (x, raised) ↦
        let (db', failed, end) = fail_shutdown_job-Ended i now db j v found in
        inr (x, db', ground arith, failed, end)
  ]

  assisted-RunEnds :
      (i : ℕ) (now : Time) (db : Db) (w : e.World) (j : Job)
      → worker.shutdown_executors ≡ true
      → IsValid db
      → find_job i db.jobs ≡ some j
      → RunEnds e worker JobKind.assisted_shutdown i now db w
  unfolding run_job fail_job execute_assisted_shutdown_job execute_assisted
  assisted-RunEnds i now db w j there v found =
      let (db', failed, end) = fail_shutdown_job-Ended i now db j v found in
      elim (Result-cases (assisted_order i db)) [
        | inr (x, raised) ↦ inr (x, db', ground arith, failed, end)
        | inl ((minutes, timeout), order) ↦ elim (Bool-cases (is_allowed_countdown minutes)) [
          | inr refused ↦ inr (Error.value_error, db', ground arith, failed, end)
          | inl allowed ↦
              let (r, later, done, w', returned, run, finished) =
                execute_assisted_shutdown_job-Ended e c i now db w minutes timeout v order
                  allowed in
              inl (_, done, w', ground arith, finished)
        ]
      ]

  host_power-RunEnds :
      (action : HostPowerAction) (i : ℕ) (now : Time) (db : Db) (w : e.World) (j : Job)
      (controller : HostPowerAction → e.World → Bool × e.World)
      → worker.host_power_executor ≡ some controller
      → IsValid db
      → find_job i db.jobs ≡ some j
      → j.kind ≡ JobKind.host_power action
      → RunEnds e worker (JobKind.host_power action) i now db w
  unfolding run_job fail_job execute_host_power_job
  host_power-RunEnds action i now db w j controller there v found kind_is =
      elim (Result-cases (host_power_order i db)) [
        | inl ((a, timeout), order) ↦
            let (r, db', w', returned, end, verdict) =
              execute_host_power_job-Ended e c controller i now db w a timeout v order in
            inl (_, db', w', ground arith, end)
        | inr (x, raised) ↦
            let (db', failed, end) = fail_host_power_job-Ended i now db j action v found kind_is in
            inr (x, db', ground arith, ground arith, end)
      ]

  refused :
      exists (kind_in (supported_kinds e worker)) (
        foreign_kinds
        ++ (if worker.shutdown_executors then [] else shutdown_kinds)
        ++ (elim worker.host_power_executor [ none ↦ host_power_kinds | some _ ↦ [] ]))
      ≡ false
  refused = unsupported e worker.worker_id worker.shutdown_executors worker.host_power_executor

  forced_refused :
      (signal : PalworldSignal)
      → IsSupported e worker (JobKind.forced_shutdown signal)
      → worker.shutdown_executors ≡ false
      → ⊥
  forced_refused PalworldSignal.term s missing = ground (arith, refused)
  forced_refused PalworldSignal.kill s missing = ground (arith, refused)

  host_refused :
      (action : HostPowerAction)
      → IsSupported e worker (JobKind.host_power action)
      → worker.host_power_executor ≡ none
      → ⊥
  host_refused HostPowerAction.reboot s missing = ground (arith, refused)
  host_refused HostPowerAction.shutdown s missing = ground (arith, refused)

  -- Whatever kind the worker asks for, a run of it is ended.
  pub supported-RunEnds :
      (kind : JobKind) (i : ℕ) (now : Time) (db : Db) (w : e.World) (j : Job)
      → IsSupported e worker kind
      → IsValid db
      → find_job i db.jobs ≡ some j
      → j.kind ≡ kind
      → RunEnds e worker kind i now db w
  supported-RunEnds (JobKind.lifecycle action) i now db w j s v found kind_is =
      lifecycle-RunEnds action i now db w j v found kind_is
  supported-RunEnds JobKind.assisted_shutdown i now db w j s v found kind_is =
      elim (Bool-cases worker.shutdown_executors) [
        | inl there ↦ assisted-RunEnds i now db w j there v found
        | inr missing ↦ let impossible : ⊥ = ground (arith, refused) in absurd impossible
      ]
  supported-RunEnds (JobKind.forced_shutdown signal) i now db w j s v found kind_is =
      elim (Bool-cases worker.shutdown_executors) [
        | inl there ↦ forced-RunEnds signal i now db w j there v found
        | inr missing ↦ let impossible : ⊥ = forced_refused signal s missing in absurd impossible
      ]
  supported-RunEnds (JobKind.host_power action) i now db w j s v found kind_is =
      elim (Option-cases worker.host_power_executor) [
        | inl missing ↦ let impossible : ⊥ = host_refused action s missing in absurd impossible
        | inr (controller, there) ↦
            host_power-RunEnds action i now db w j controller there v found kind_is
      ]
  supported-RunEnds JobKind.local_backup i now db w j s v found kind_is =
      let impossible : ⊥ = ground (arith, refused) in absurd impossible
  supported-RunEnds JobKind.local_restore i now db w j s v found kind_is =
      let impossible : ⊥ = ground (arith, refused) in absurd impossible
  supported-RunEnds JobKind.remote_restore i now db w j s v found kind_is =
      let impossible : ⊥ = ground (arith, refused) in absurd impossible
  supported-RunEnds JobKind.drive_check i now db w j s v found kind_is =
      let impossible : ⊥ = ground (arith, refused) in absurd impossible
  supported-RunEnds JobKind.drive_upload i now db w j s v found kind_is =
      let impossible : ⊥ = ground (arith, refused) in absurd impossible
  supported-RunEnds JobKind.drive_download i now db w j s v found kind_is =
      let impossible : ⊥ = ground (arith, refused) in absurd impossible
  supported-RunEnds JobKind.drive_delete i now db w j s v found kind_is =
      let impossible : ⊥ = ground (arith, refused) in absurd impossible
  supported-RunEnds JobKind.update_check i now db w j s v found kind_is =
      let impossible : ⊥ = ground (arith, refused) in absurd impossible
  supported-RunEnds JobKind.update i now db w j s v found kind_is =
      let impossible : ⊥ = ground (arith, refused) in absurd impossible
