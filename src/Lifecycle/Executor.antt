-- ===== src/Lifecycle/Executor.antt =====
-- `PalworldLifecycleExecutor` of app/lifecycle/service.py. The loop takes fuel: `none` means that
-- it ran out.
use palworld_manager.Prelude.{
  ℕ, zero, suc, ◌+◌, ◌-◌, ◌*◌, Bool, true, false, not, ◌&&◌, ◌||◌, Option, none, some, leb, ◌==◌,
  if◌then◌else◌,
}
use Prim.Native.Nat.{min}
use palworld_manager.Prelude.Result.{Error, Result, ok, err}
use palworld_manager.Db.Enums.{LifecycleAction, PalworldHealthState}
use palworld_manager.Db.Rows.{second}
use palworld_manager.Environment.{Environment}

pub data LifecycleOutcome : Type 0 where
  succeeded failed : LifecycleOutcome

pub record LifecycleResult : Type 0 where
  pub outcome : LifecycleOutcome
  pub final_state : PalworldHealthState
  pub timed_out : Bool

abbrev pub poll_interval : ℕ
poll_interval = second

abbrev pub is_online : PalworldHealthState → Bool
is_online PalworldHealthState.online = true
is_online _ = false

abbrev pub is_offline : PalworldHealthState → Bool
is_offline PalworldHealthState.offline = true
is_offline _ = false

abbrev pub is_restart : LifecycleAction → Bool
is_restart LifecycleAction.restart = true
is_restart _ = false

module _ (e : Environment) where
  -- `_reached_target`: the port is probed only where the service is offline.
  unfoldable pub reached_target : LifecycleAction → PalworldHealthState → e.World → Bool × e.World
  reached_target LifecycleAction.stop PalworldHealthState.offline w =
      let (listening, w') = e.is_open w in (not listening, w')
  reached_target LifecycleAction.stop _ w = (false, w)
  reached_target _ state w = (is_online state, w)

  -- The health check and the test of the first `return`: the service's state, whether a restart has
  -- been seen by now, and whether the target is reached.
  unfoldable pub look :
      LifecycleAction → Bool → e.World → PalworldHealthState × Bool × Bool × e.World
  look action observed w =
      let (state, w1) = e.check w in
      let seen = observed || (is_restart action && not (is_online state)) in
      let (reached, w2) = if seen then reached_target action state w1 else (false, w1) in
      (state, seen, reached, w2)

  -- The deadline, and the sleep until the next round (`none`).
  unfoldable pub wait : ℕ → ℕ → PalworldHealthState → e.World → Option LifecycleResult × e.World
  wait interval deadline state w =
      let (now, w1) = e.monotonic w in
      let (again, w2) = e.monotonic w1 in
      if leb deadline now
      then (
        some (record { outcome = LifecycleOutcome.failed; final_state = state; timed_out = true }),
        w1,
      )
      else (none, e.sleep (min interval (deadline - again)) w2)

  -- The body of the loop: a result, or `none` and the world in which the next round begins.
  unfoldable pub poll_once :
      ℕ → LifecycleAction → ℕ → Bool → e.World → Option LifecycleResult × Bool × e.World
  poll_once interval action deadline observed w =
      let (state, seen, reached, w1) = look action observed w in
      let (result, w2) = wait interval deadline state w1 in
      if reached
      then (
        some (record {
          outcome = LifecycleOutcome.succeeded;
          final_state = state;
          timed_out = false;
        }),
        seen,
        w1,
      )
      else (result, seen, w2)

  unfoldable pub poll :
      ℕ → ℕ → LifecycleAction → ℕ → Bool → e.World → Option (LifecycleResult × e.World)
  poll zero interval action deadline observed w = none
  poll (suc fuel) interval action deadline observed w =
      let (result, seen, w') = poll_once interval action deadline observed w in
      let rest = poll fuel interval action deadline seen w' in
      elim result [ some r ↦ some (r, w') | none ↦ rest ]

  abbrev pub control : LifecycleAction → e.World → Bool × e.World
  control LifecycleAction.start w = e.start w
  control LifecycleAction.stop w = e.stop w
  control LifecycleAction.restart w = e.restart w

  -- A restart has to be seen: was the server not online before?
  abbrev pub observed_before : LifecycleAction → e.World → Bool × e.World
  observed_before LifecycleAction.restart w =
      let (state, w') = e.check w in (not (is_online state), w')
  observed_before _ w = (true, w)

  unfoldable pub execute :
      ℕ → ℕ → LifecycleAction → ℕ → e.World → Option (Result (LifecycleResult × e.World))
  unfolding poll poll_once look wait reached_target
  execute fuel interval action timeout_seconds w =
      if timeout_seconds == 0
      then some (err Error.value_error)
      else (let (observed, w1) = observed_before action w in
          let (done, w2) = control action w1 in
          let (started, w3) = e.monotonic w2 in
          let result = poll fuel interval action (started + timeout_seconds * second) observed w3 in
          if done
          then (elim result [ none ↦ none | some r ↦ some (ok r) ])
          else some (
              ok (
                record {
                  outcome = LifecycleOutcome.failed;
                  final_state = PalworldHealthState.failure;
                  timed_out = false;
                },
                w2,
              )))
