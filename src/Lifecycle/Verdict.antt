-- ===== src/Lifecycle/Verdict.antt =====
-- What `PalworldLifecycleExecutor.execute` of app/lifecycle/service.py returns.
use palworld_manager.Prelude.{
  ℕ, zero, suc, ◌+◌, ◌*◌, ◌≤◌, ◌<◌, ◌≡◌, refl, true, false, some, arith, ◌⊎◌, inl, inr, Bool-cases,
}
use palworld_manager.Prelude.Result.{ok}
use palworld_manager.Db.Enums.{LifecycleAction, PalworldHealthState}
use palworld_manager.Db.Rows.{second}
use palworld_manager.Environment.{Environment, Clock}
use palworld_manager.Lifecycle.Executor.{
  LifecycleOutcome, LifecycleResult, poll_interval, look, wait, poll_once, poll, control,
  observed_before, execute,
}
use palworld_manager.Lifecycle.Returns.{Finished, Finished-earlier, poll-returns}

module _ (e : Environment) (c : Clock e) where
  observed_before_later :
      (action : LifecycleAction) (w : e.World) → c.now w ≤ c.now (observed_before e action w).1
  observed_before_later LifecycleAction.restart w = c.check_later w
  observed_before_later _ w = omega arith

  control_later : (action : LifecycleAction) (w : e.World) → c.now w ≤ c.now (control e action w).1
  control_later LifecycleAction.start w = c.start_later w
  control_later LifecycleAction.stop w = c.stop_later w
  control_later LifecycleAction.restart w = c.restart_later w

  -- The service manager refused, the target was reached, or the time ran out.
  abbrev pub Verdict : LifecycleAction → ℕ → e.World → LifecycleResult → e.World → Type 0
  Verdict action timeout_seconds w r w' =
      let (accepted, commanded) = control e action (observed_before e action w).1 in
      ((accepted ≡ false)
        × (r.outcome ≡ LifecycleOutcome.failed)
        × (r.timed_out ≡ false)
        × (r.final_state ≡ PalworldHealthState.failure))
      ⊎ ((accepted ≡ true)
          × Finished e c action (c.now commanded) (c.now w + timeout_seconds * second) r w')

  -- With a positive timeout the executor returns after at most one round for each second of it and
  -- one more. Either the service manager refused the command, which is reported as a failure that
  -- did not time out; or it accepted it and the result is a failure that timed out, after all of
  -- the timeout, or a success whose last calls were, after the command, a health check that answered
  -- with the target (offline for a stop, online otherwise) and, for a stop, a probe of the port that
  -- found it closed.
  pub execute-Verdict :
      (action : LifecycleAction) (timeout_seconds : ℕ) (w : e.World)
      → 0 < timeout_seconds
      → (r : LifecycleResult) × (w' : e.World) × (execute e
            (suc timeout_seconds)
            poll_interval
            action
            timeout_seconds
            w
          ≡ some (ok (r, w')))
        × Verdict action timeout_seconds w r w'
  unfolding execute
  execute-Verdict action timeout_seconds w positive = elim (Bool-cases (control e action w1).0) [
    | inl done ↦
        let (r, w', returned, finished) =
          poll-returns e c timeout_seconds poll_interval action
            ((e.monotonic w2).0 + timeout_seconds * second) (observed_before e action w).0
            (e.monotonic w2).1 (omega (arith, c.monotonic_reads w2)) in
        (
          r,
          w',
          ground arith,
          inr (
            done,
            Finished-earlier e c action (c.now (e.monotonic w2).1) (c.now w2)
                ((e.monotonic w2).0 + timeout_seconds * second) (c.now w + timeout_seconds * second)
                r w' (omega (arith, c.monotonic_reads w2))
                (omega (
                  arith,
                  c.monotonic_reads w2,
                  control_later action w1,
                  observed_before_later action w,
                ))
                finished,
          ),
        )
    | inr refused ↦ (
      record {
        outcome = LifecycleOutcome.failed;
        final_state = PalworldHealthState.failure;
        timed_out = false;
      },
      w2,
      ground arith,
      inl (refused, refl, refl, refl),
    )
  ]
    where
      w1 : e.World
      w1 = (observed_before e action w).1

      w2 : e.World
      w2 = (control e action w1).1

  wait_failed :
      (interval deadline : ℕ) (state : PalworldHealthState) (w : e.World) (r : LifecycleResult)
      → (wait e interval deadline state w).0 ≡ some r
      → r.outcome ≡ LifecycleOutcome.failed
  unfolding wait
  wait_failed interval deadline state w r h = ground arith

  unseen_poll :
      (fuel interval deadline : ℕ) (w w' : e.World) (r : LifecycleResult)
      → ((v : e.World) → (e.check v).0 ≡ PalworldHealthState.online)
      → poll e fuel interval LifecycleAction.restart deadline false w ≡ some (r, w')
      → r.outcome ≡ LifecycleOutcome.failed
  unfolding poll poll_once look
  unseen_poll zero interval deadline w w' r always h = cc
  unseen_poll (suc fuel) interval deadline w w' r always h =
      let v = (e.check w).1 in
      let state = (e.check w).0 in
      let next = (wait e interval deadline state v).1 in
      ground (
        arith,
        always w,
        wait_failed interval deadline state v r,
        unseen_poll fuel interval deadline next w' r always,
      )

  unseen_failed :
      (fuel timeout_seconds : ℕ) (w w' : e.World) (r : LifecycleResult)
      → ((v : e.World) → (e.check v).0 ≡ PalworldHealthState.online)
      → execute e fuel poll_interval LifecycleAction.restart timeout_seconds w ≡ some (ok (r, w'))
      → r.outcome ≡ LifecycleOutcome.failed
  unfolding execute
  unseen_failed fuel timeout_seconds w w' r always h =
      let v = (e.restart (e.check w).1).1 in
      let deadline = (e.monotonic v).0 + timeout_seconds * second in
      ground
        (arith, always w, unseen_poll fuel poll_interval deadline (e.monotonic v).1 w' r always)

  -- A restart of a server that looks online every time is a failure: a restart has to be seen.
  pub execute_unseen_restart :
      (timeout_seconds : ℕ) (w : e.World)
      → 0 < timeout_seconds
      → ((v : e.World) → (e.check v).0 ≡ PalworldHealthState.online)
      → (r : LifecycleResult) × (w' : e.World) × (execute e
            (suc timeout_seconds)
            poll_interval
            LifecycleAction.restart
            timeout_seconds
            w
          ≡ some (ok (r, w')))
        × (r.outcome ≡ LifecycleOutcome.failed)
  execute_unseen_restart timeout_seconds w positive always =
      let (r, w', returned, verdict) =
        execute-Verdict LifecycleAction.restart timeout_seconds w positive in
      (r, w', returned, unseen_failed (suc timeout_seconds) timeout_seconds w w' r always returned)
