-- ===== src/Shutdown/Returns.antt =====
-- The executors of app/shutdown/service.py return.
use palworld_manager.Prelude.{
  ℕ, suc, ◌+◌, ◌*◌, ◌≤◌, ◌<◌, ◌≡◌, refl, ap, subst, ◌∙◌, true, false, ◌&&◌, some, is_some, arith,
  ltb, inl, inr, Bool-cases, Option-cases, ◌⊎◌,
}
use palworld_manager.Prelude.Result.{Result-cases}
use palworld_manager.Db.Enums.{LifecycleAction, PalworldSignal, PalworldHealthState}
use palworld_manager.Db.Rows.{second}
use palworld_manager.Environment.{Environment, Clock}
use palworld_manager.Lifecycle.Returns.{Seen, Finished-earlier, poll-returns}
use palworld_manager.Lifecycle.Executor.{LifecycleResult}
use palworld_manager.Lifecycle.Verdict.{execute-Verdict}
use palworld_manager.Shutdown.Executor.{
  ShutdownOutcome, AssistedShutdownResult, CountdownControl, countdown, stop_server,
  commit_shutdown, execute_assisted, execute_forced, announce_if, now_message, countdown_message,
  signal_result, signal_failed,
}

module _ (e : Environment) (c : Clock e) where
  module _ (control : CountdownControl) (timeout : ℕ) (positive : 0 < timeout) where
    stop_server-returns :
        (players : ℕ) (w : e.World) (s : control.State)
        → is_some (stop_server e control (suc timeout) players timeout w s) ≡ true
    unfolding stop_server
    stop_server-returns players w s =
        let (sent, w1) = announce_if e control (ltb 0 players) now_message w in
        let (r, w2, returned, verdict) =
          execute-Verdict e c LifecycleAction.stop timeout w1 positive in
        ground (arith, Bool-cases sent)

    commit_shutdown-returns :
        (players : ℕ) (w : e.World) (s : control.State)
        → is_some (commit_shutdown e control (suc timeout) players timeout w s) ≡ true
    unfolding commit_shutdown
    commit_shutdown-returns players w s = elim (Result-cases (control.mark_irreversible s)) [
      | inr (x, f) ↦ ground arith
      | inl ((directive, s1), f) ↦ ground (arith, stop_server-returns players w s1)
    ]

    -- With a positive timeout the assisted shutdown ends, whatever the countdown's control answers:
    -- one round of fuel for each second of the timeout of the stop, and one more, is enough.
    pub execute_assisted-returns :
        (minutes : ℕ) (w : e.World) (s : control.State)
        → is_some (execute_assisted e control (suc timeout) minutes timeout w s) ≡ true
    unfolding execute_assisted
    execute_assisted-returns minutes w s = elim (Option-cases (e.online_player_count w).0) [
      | inl f ↦ ground arith
      | inr (players, f) ↦
          let (sent, w2) =
            announce_if e control (ltb 0 players && ltb 0 minutes) (countdown_message minutes)
              (e.online_player_count w).1 in
          elim (Result-cases (countdown e control (minutes * 60) (minutes * 60) w2 s)) [
            | inr (x, g) ↦ ground arith
            | inl ((true, w3, s1), g) ↦ ground arith
            | inl ((false, w3, s1), g) ↦ ground (arith, commit_shutdown-returns players w3 s1)
          ]
    ]

  signal_result-final : (r : LifecycleResult) → (signal_result r).final_state ≡ some r.final_state
  signal_result-final r = ground arith

  -- How a forced shutdown may end.
  abbrev pub ForcedVerdict :
      PalworldSignal → ℕ → e.World → AssistedShutdownResult → e.World → Type 0
  ForcedVerdict signal timeout w r w' =
      let accepted = (e.send_signal signal w).0 in
      ((accepted ≡ false) × (r ≡ signal_failed))
      ⊎ ((accepted ≡ true)
          × (((r.outcome ≡ ShutdownOutcome.succeeded)
                × (r.final_state ≡ some PalworldHealthState.offline)
                × Seen e c LifecycleAction.stop (c.now (e.send_signal signal w).1)
                    PalworldHealthState.offline w')
              ⊎ ((r.outcome ≡ ShutdownOutcome.failed)
                  × (r.timed_out ≡ true)
                  × (c.now w + timeout * second ≤ c.now w'))))

  -- The forced shutdown ends within one round for each second of its timeout and one more: the
  -- signal could not be sent; or it was sent, and all of the timeout has passed and the result is a
  -- failure that timed out, or the result is a success whose last calls were, after the signal, a
  -- health check that answered offline and a probe of the port that found it closed.
  pub execute_forced-ForcedVerdict :
      (signal : PalworldSignal) (timeout : ℕ) (w : e.World)
      → (r : AssistedShutdownResult) × (w' : e.World) × (execute_forced e
            (suc timeout)
            signal
            timeout
            w
          ≡ some (r, w'))
        × ForcedVerdict signal timeout w r w'
  unfolding execute_forced
  execute_forced-ForcedVerdict signal timeout w = elim (Bool-cases (e.send_signal signal w).0) [
    | inr refused ↦ (signal_failed, w1, ground arith, inl (refused, refl))
    | inl sent ↦
        let (lr, w', returned, finished) =
          poll-returns e c timeout second LifecycleAction.stop
            ((e.monotonic w1).0 + timeout * second) true (e.monotonic w1).1
            (omega (arith, c.monotonic_reads w1)) in
        (
          signal_result lr,
          w',
          ground arith,
          inr (
            sent,
            elim (Finished-earlier e c LifecycleAction.stop (c.now (e.monotonic w1).1) (c.now w1)
                ((e.monotonic w1).0 + timeout * second) (c.now w + timeout * second) lr w'
                (omega (arith, c.monotonic_reads w1))
                (omega (arith, c.monotonic_reads w1, c.send_signal_later signal w)) finished) [
                  | inl (good, calm, target, seen) ↦ inl (
                    ground arith,
                    signal_result-final lr ∙ ap some target,
                    subst (λ state. Seen e c LifecycleAction.stop (c.now w1) state w') target seen,
                  )
                  | inr (failed, late, after) ↦ inr (ground arith, ground arith, after)
                ],
          ),
        )
  ]
    where
      w1 : e.World
      w1 = (e.send_signal signal w).1
