-- ===== src/HostPower/Laws.antt =====
-- `HostPowerJobExecutor` of app/host_power/jobs.py: a job that was started is ended, and the host
-- is only told to go down after the server is.
use palworld_manager.Prelude.{
  ℕ, suc, ◌<◌, ◌≡◌, refl, Bool, false, none, some, arith, Bool-cases, Option-cases, inl, inr, ◌⊎◌,
  ltb, String,
}
use palworld_manager.Prelude.Result.{ok}
use palworld_manager.Db.Enums.{LifecycleAction, HostPowerAction, PalworldHealthState}
use palworld_manager.Db.Rows.{Time, Job, Db}
use palworld_manager.Db.Jobs.{find_job}
use palworld_manager.Environment.{Environment, Clock}
use palworld_manager.JobService.Invariant.{IsValid, QueueInv-update_job}
use palworld_manager.Lifecycle.Completion.{Ended}
use palworld_manager.Lifecycle.Executor.{is_offline}
use palworld_manager.Lifecycle.Verdict.{execute-Verdict}
use palworld_manager.Shutdown.Executor.{
  ShutdownOutcome, AssistedShutdownResult, countdown, stop_server, commit_shutdown,
  execute_assisted, announce_if, now_message, stop_result, communication_failed,
}
use palworld_manager.HostPower.{
  HostPowerReport, reported_status, complete_host_power, change_job, checking_row, stopping_row,
  requesting_row, immediate_shutdown_control, is_success, request_report, shutdown_failed_report,
  host_power_order,
}
use palworld_manager.HostPower.Executor.{request_power, stop_and_request, execute_host_power_job}
use palworld_manager.HostPower.Rows.{
  change_job-Ended, change_job-found, checking_row-quiet, stopping_row-quiet, requesting_row-quiet,
  complete_host_power-Ended, host_power_order_facts, is_offline-true, is_success-true,
}

module _ (e : Environment) (c : Clock e) where
  -- Without a countdown the assisted shutdown returns a result.
  immediate_shutdown-ok :
      (timeout : ℕ) (w : e.World)
      → 0 < timeout
      → (r : AssistedShutdownResult) × (w' : e.World) × (execute_assisted e
            immediate_shutdown_control
            (suc timeout)
            0
            timeout
            w
            tt
          ≡ some (ok (r, w', tt)))
  unfolding execute_assisted countdown commit_shutdown stop_server
  immediate_shutdown-ok timeout w positive = elim (Option-cases (e.online_player_count w).0) [
    | inl f ↦ (communication_failed none, (e.online_player_count w).1, ground arith)
    | inr (players, f) ↦
        let (sent, w1) =
          announce_if e immediate_shutdown_control (ltb 0 players) now_message
            (e.online_player_count w).1 in
        let (r, w2, returned, verdict) =
          execute-Verdict e c LifecycleAction.stop timeout w1 positive in
        elim (Bool-cases sent) [
          | inl g ↦ (stop_result players r, w2, ground arith)
          | inr g ↦ (communication_failed (some players), w1, ground arith)
        ]
  ]

  module _ (host_power : HostPowerAction → e.World → Bool × e.World) where
    -- The assisted shutdown, from the world `w`, ended so.
    abbrev ShutDown : ℕ → e.World → AssistedShutdownResult → e.World → Type 0
    ShutDown timeout w q v =
        execute_assisted e immediate_shutdown_control (suc timeout) 0 timeout w tt
        ≡ some (ok (q, v, tt))

    -- How the server came to be off before the host was told to go down.
    abbrev IsStopped : ℕ → e.World → e.World → Type 0
    IsStopped timeout w v =
        (((e.check w).0 ≡ PalworldHealthState.offline) × (v ≡ (e.check w).1))
        ⊎ ((q : AssistedShutdownResult) × ShutDown timeout (e.check w).1 q v
            × (q.outcome ≡ ShutdownOutcome.succeeded))

    -- What the report of an executed job says of the run from `w` to `w'`.
    abbrev pub PowerVerdict : HostPowerAction → ℕ → e.World → HostPowerReport → e.World → Type 0
    PowerVerdict action timeout w r w' =
        ((q : AssistedShutdownResult) × ShutDown timeout (e.check w).1 q w'
          × (is_success q.outcome ≡ false)
          × (r ≡ shutdown_failed_report (e.check w).0))
        ⊎ ((v : e.World) × IsStopped timeout w v
            × (host_power action v ≡ (r.host_command_requested, w'))
            × (r.succeeded ≡ r.host_command_requested))

    -- What `request_power` does to the row.
    request_power-Ended :
        (i : ℕ) (action : HostPowerAction) (state : PalworldHealthState) (handling : String)
        (now : Time) (db : Db) (w : e.World) (j : Job)
        → IsValid db
        → find_job i db.jobs ≡ some j
        → Ended i
            (reported_status (request_report (host_power action w).0 state handling))
            db
            (request_power e host_power i action state handling now db w).0
    unfolding request_power
    request_power-Ended i action state handling now db w j v found =
        let r = request_report (host_power action w).0 state handling in
        let requesting = change_job i requesting_row db in
        let done = complete_host_power i action r now requesting in
        change_job-Ended i requesting_row requesting_row-quiet (reported_status r) db done (
          complete_host_power-Ended i action r now requesting (requesting_row j)
            (QueueInv-update_job i requesting_row requesting_row-quiet v)
            (change_job-found i requesting_row requesting_row-quiet db found))

    -- The controller's answer is the one that the report has.
    requested :
        (i : ℕ) (action : HostPowerAction) (state : PalworldHealthState) (handling : String)
        (now : Time) (db : Db) (w : e.World)
        → host_power action w ≡ (
          (request_report (host_power action w).0 state handling).host_command_requested,
          (request_power e host_power i action state handling now db w).1,
        )
    unfolding request_power
    requested i action state handling now db w = refl

    -- The branch of a server that is not offline, after the check.
    stop_and_request-Ended :
        (i : ℕ) (action : HostPowerAction) (timeout : ℕ) (state : PalworldHealthState) (now : Time)
        (db : Db) (w1 : e.World) (j : Job)
        → 0 < timeout
        → IsValid db
        → find_job i db.jobs ≡ some j
        → (r : HostPowerReport) × (db' : Db) × (w' : e.World) × (stop_and_request e host_power i
              action timeout state now db w1
            ≡ some (ok (db', w')))
          × Ended i (reported_status r) db db'
          × (((q : AssistedShutdownResult) × ShutDown timeout w1 q w'
                × (is_success q.outcome ≡ false)
                × (r ≡ shutdown_failed_report state))
              ⊎ ((q : AssistedShutdownResult) × (v : e.World) × ShutDown timeout w1 q v
                  × (q.outcome ≡ ShutdownOutcome.succeeded)
                  × (host_power action v ≡ (r.host_command_requested, w'))
                  × (r.succeeded ≡ r.host_command_requested)))
    unfolding stop_and_request
    stop_and_request-Ended i action timeout state now db w1 j positive valid found =
        let (q, v, returned) = immediate_shutdown-ok timeout w1 positive in
        let stopping = change_job i stopping_row db in
        let checked = QueueInv-update_job i stopping_row stopping_row-quiet valid in
        let there = change_job-found i stopping_row stopping_row-quiet db found in
        elim (Bool-cases (is_success q.outcome)) [
          | inl success ↦
              let r = request_report (host_power action v).0 state "stopped" in
              let run = request_power e host_power i action state "stopped" now stopping v in
              (
                r,
                run.0,
                run.1,
                ground arith,
                change_job-Ended i stopping_row stopping_row-quiet (reported_status r) db run.0 (
                    request_power-Ended i action state "stopped" now stopping v (stopping_row j)
                      checked there),
                inr (
                  q,
                  v,
                  returned,
                  is_success-true q.outcome success,
                  requested i action state "stopped" now stopping v,
                  refl,
                ),
              )
          | inr failure ↦
              let r = shutdown_failed_report state in
              let db' = complete_host_power i action r now stopping in
              (
                r,
                db',
                v,
                ground arith,
                change_job-Ended i stopping_row stopping_row-quiet (reported_status r) db db' (
                    complete_host_power-Ended i action r now stopping (stopping_row j) checked
                      there),
                inl (q, returned, failure, refl),
              )
        ]

    -- A job for the host's power that the worker may execute (its row is running, its kind and its
    -- timeout are good) is executed to the end: with one round of fuel for each second of the
    -- timeout and one more, the call returns without an exception; its row has then ended, as
    -- succeeded or failed as the report says, with the progress 100, no other row has changed, and
    -- the queue is still valid. Either the assisted shutdown of the server did not succeed, and the
    -- controller of the host's power was not called; or the controller was called in a world in
    -- which the server had been found offline or had been shut down, and the report says that the
    -- command was requested if and only if the controller took it.
    pub execute_host_power_job-Ended :
        (i : ℕ) (now : Time) (db : Db) (w : e.World) (action : HostPowerAction) (timeout : ℕ)
        → IsValid db
        → host_power_order i db ≡ ok (action, timeout)
        → (r : HostPowerReport) × (db' : Db) × (w' : e.World) × (execute_host_power_job e host_power
              i now db w
            ≡ some (ok (db', w')))
          × Ended i (reported_status r) db db'
          × PowerVerdict action timeout w r w'
    unfolding execute_host_power_job stop_and_request request_power
    execute_host_power_job-Ended i now db w action timeout valid order =
        let (j, found, positive) = host_power_order_facts i db action timeout order in
        let checking = change_job i checking_row db in
        let checked = QueueInv-update_job i checking_row checking_row-quiet valid in
        let there = change_job-found i checking_row checking_row-quiet db found in
        let (state, w1) = e.check w in
        elim (Bool-cases (is_offline state)) [
          | inl off ↦
              let r = request_report (host_power action w1).0 state "already_offline" in
              let run =
                request_power e host_power i action state "already_offline" now checking w1 in
              (
                r,
                run.0,
                run.1,
                ground arith,
                change_job-Ended i checking_row checking_row-quiet (reported_status r) db run.0 (
                    request_power-Ended i action state "already_offline" now checking w1
                      (checking_row j) checked there),
                inr (
                  w1,
                  inl (is_offline-true state off, refl),
                  requested i action state "already_offline" now checking w1,
                  refl,
                ),
              )
          | inr on ↦
              let (r, db', w', returned, end, verdict) =
                stop_and_request-Ended i action timeout state now checking w1 (checking_row j)
                  positive checked there in
              (
                r,
                db',
                w',
                ground arith,
                change_job-Ended i checking_row checking_row-quiet (reported_status r) db db' end,
                elim verdict [
                  | inl failed ↦ inl failed
                  | inr (q, v, down, success, told, same) ↦
                      inr (v, inr (q, down, success), told, same)
                ],
              )
        ]
