-- ===== src/HostPower/Executor.antt =====
-- `HostPowerJobExecutor.execute` of app/host_power/jobs.py.
use palworld_manager.Prelude.{ℕ, suc, Bool, String, Option, none, some, if◌then◌else◌}
use palworld_manager.Prelude.Result.{Result, ok, err}
use palworld_manager.Db.Enums.{HostPowerAction, PalworldHealthState}
use palworld_manager.Db.Rows.{Time, Db}
use palworld_manager.Environment.{Environment}
use palworld_manager.Lifecycle.Executor.{is_offline}
use palworld_manager.Shutdown.Executor.{execute_assisted}
use palworld_manager.HostPower.{
  host_power_order, change_job, checking_row, stopping_row, requesting_row, complete_host_power,
  immediate_shutdown_control, is_success, shutdown_failed_report, request_report,
}

-- `host_power` is `HostPowerController.request` (false: HostPowerControlError).
module _ (e : Environment) (host_power : HostPowerAction → e.World → Bool × e.World) where
  -- From the third session on.
  unfoldable pub request_power :
      ℕ → HostPowerAction → PalworldHealthState → String → Time → Db → e.World → Db × e.World
  request_power job_id action initial_state palworld_handling finished_at db w =
      let requesting = change_job job_id requesting_row db in
      let (accepted, w') = host_power action w in
      (
        complete_host_power job_id action (request_report accepted initial_state palworld_handling)
            finished_at requesting,
        w',
      )

  -- Where the server is not offline.
  unfoldable pub stop_and_request :
      ℕ
      → HostPowerAction
      → ℕ
      → PalworldHealthState
      → Time
      → Db
      → e.World
      → Option (Result (Db × e.World))
  unfolding request_power
  stop_and_request job_id action timeout initial_state finished_at db w =
      let stopping = change_job job_id stopping_row db in
      elim (execute_assisted e immediate_shutdown_control (suc timeout) 0 timeout w tt) [
        | none ↦ none
        | some (err x) ↦ some (err x)
        | some (ok (r, w', s)) ↦ some (
            ok (
              if is_success r.outcome
              then request_power job_id action initial_state "stopped" finished_at stopping w'
              else (
                complete_host_power job_id action (shutdown_failed_report initial_state) finished_at
                    stopping,
                w',
              )))
      ]

  -- `execute`; the fuel is one round for each second of the timeout, and one more.
  unfoldable pub execute_host_power_job : ℕ → Time → Db → e.World → Option (Result (Db × e.World))
  unfolding host_power_order stop_and_request request_power
  execute_host_power_job job_id finished_at db w = elim (host_power_order job_id db) [
    | err x ↦ some (err x)
    | ok (action, timeout) ↦
        let checking = change_job job_id checking_row db in
        let (state, w1) = e.check w in
        if is_offline state
        then some (ok (request_power job_id action state "already_offline" finished_at checking w1))
        else stop_and_request job_id action timeout state finished_at checking w1
  ]
