-- ===== src/Lifecycle/Returns.antt =====
-- The polling loop of app/lifecycle/service.py ends, and what its result says is true.
use palworld_manager.Prelude.{
  ℕ, zero, suc, ◌+◌, ◌-◌, ◌*◌, ◌≤◌, ◌<◌, ◌≡◌, refl, sym, ◌∙◌, subst, Bool, true, false, not, ◌&&◌,
  ◌||◌, none, some, arith, ◌⊎◌, inl, inr, Option-cases, Bool-cases,
}
use Prim.Native.Nat.{min}
use palworld_manager.Db.Enums.{LifecycleAction, PalworldHealthState}
use palworld_manager.Environment.{Environment, Clock}
use palworld_manager.Lifecycle.Executor.{
  LifecycleOutcome, LifecycleResult, is_online, is_restart, reached_target, look, wait, poll_once,
  poll,
}

-- What a success has seen of the service.
abbrev pub AtTarget : LifecycleAction → PalworldHealthState → Type 0
AtTarget LifecycleAction.stop state = state ≡ PalworldHealthState.offline
AtTarget _ state = state ≡ PalworldHealthState.online

module _ (e : Environment) (c : Clock e) where
  -- A stop has also probed the port, which was closed; the others have done nothing more.
  abbrev pub Closed : LifecycleAction → e.World → e.World → Type 0
  Closed LifecycleAction.stop w w' = ((e.is_open w).0 ≡ false) × (w' ≡ (e.is_open w).1)
  Closed _ w w' = w' ≡ w

  -- The world `w` is the one that a health check with this answer, made in a world `v` not before
  -- the time `begun`, has left, and after it the probe of the port.
  abbrev pub Seen : LifecycleAction → ℕ → PalworldHealthState → e.World → Type 0
  Seen action begun state w =
      (v : e.World) × (begun ≤ c.now v) × ((e.check v).0 ≡ state) × Closed action (e.check v).1 w

  -- What the loop may return from the time `begun` to the time `deadline`.
  abbrev pub Finished : LifecycleAction → ℕ → ℕ → LifecycleResult → e.World → Type 0
  Finished action begun deadline r w =
      ((r.outcome ≡ LifecycleOutcome.succeeded)
        × (r.timed_out ≡ false)
        × AtTarget action r.final_state
        × Seen action begun r.final_state w)
      ⊎ ((r.outcome ≡ LifecycleOutcome.failed) × (r.timed_out ≡ true) × (deadline ≤ c.now w))

  pub Finished-earlier :
      (action : LifecycleAction) (b b' d d' : ℕ) (r : LifecycleResult) (w : e.World)
      → b' ≤ b
      → d' ≤ d
      → Finished action b d r w
      → Finished action b' d' r w
  Finished-earlier action b b' d d' r w first le
        (inl (good, calm, target, (v, after, answer, closed))) =
      inl (good, calm, target, (v, omega arith, answer, closed))
  Finished-earlier action b b' d d' r w first le (inr (failed, late, after)) =
      inr (failed, late, omega arith)

  reached_later :
      (action : LifecycleAction) (state : PalworldHealthState) (w : e.World)
      → c.now w ≤ c.now (reached_target e action state w).1
  unfolding reached_target
  reached_later LifecycleAction.stop state w = ground (arith, c.is_open_later w)
  reached_later _ state w = ground arith

  reached_target-AtTarget :
      (action : LifecycleAction) (state : PalworldHealthState) (w : e.World)
      → (reached_target e action state w).0 ≡ true
      → AtTarget action state × Closed action w (reached_target e action state w).1
  unfolding reached_target
  reached_target-AtTarget LifecycleAction.stop PalworldHealthState.offline w h =
      (refl, (ground arith, refl))
  reached_target-AtTarget LifecycleAction.stop state w h =
      let impossible : ⊥ = ground arith in absurd impossible
  reached_target-AtTarget LifecycleAction.start state w h = (ground arith, refl)
  reached_target-AtTarget LifecycleAction.restart state w h = (ground arith, refl)

  look_later :
      (action : LifecycleAction) (observed : Bool) (w : e.World)
      → c.now w ≤ c.now (look e action observed w).3
  unfolding look
  look_later action observed w =
      ground (arith, c.check_later w, reached_later action (e.check w).0 (e.check w).1)

  look-AtTarget :
      (action : LifecycleAction) (observed : Bool) (w : e.World)
      → (look e action observed w).2 ≡ true
      → AtTarget action (look e action observed w).0
        × Seen action (c.now w) (look e action observed w).0 (look e action observed w).3
  unfolding look
  look-AtTarget action observed w h =
      elim (Bool-cases (observed || (is_restart action && not (is_online (e.check w).0)))) [
        | inl s ↦
            let (target, closed) =
              reached_target-AtTarget action (e.check w).0 (e.check w).1 (ground arith) in
            let same : (look e action observed w).3
                ≡ (reached_target e action (e.check w).0 (e.check w).1).1 =
              ground arith in
            (target, (w, omega arith, refl, subst (Closed action (e.check w).1) (sym same) closed))
        | inr s ↦ let impossible : ⊥ = ground arith in absurd impossible
      ]

  module _ (interval deadline : ℕ) (state : PalworldHealthState) (w : e.World) where
    wait_time :
        (wait e interval deadline state w).0 ≡ none
        → (c.now w < deadline)
          × ((c.now w + interval ≤ c.now (wait e interval deadline state w).1)
              ⊎ (deadline ≤ c.now (wait e interval deadline state w).1))
    unfolding wait
    wait_time h = ground (
      arith,
      c.monotonic_reads w,
      c.monotonic_reads (e.monotonic w).1,
      c.sleep_lasts (min interval (deadline - (e.monotonic (e.monotonic w).1).0))
          (e.monotonic (e.monotonic w).1).1,
    )

    wait_result :
        (r : LifecycleResult)
        → (wait e interval deadline state w).0 ≡ some r
        → (r.outcome ≡ LifecycleOutcome.failed)
          × (r.timed_out ≡ true)
          × (deadline ≤ c.now (wait e interval deadline state w).1)
    unfolding wait
    wait_result r h = ground (arith, c.monotonic_reads w)

  abbrev Ends : ℕ → ℕ → LifecycleAction → ℕ → Bool → e.World → Type 0
  Ends fuel interval action deadline observed w =
      (r : LifecycleResult) × (w' : e.World) × (poll e fuel interval action deadline observed w
        ≡ some (r, w'))
      × Finished action (c.now w) deadline r w'

  -- One round returns, or the next one begins from a later world.
  round :
      (fuel interval : ℕ) (action : LifecycleAction) (deadline : ℕ) (observed : Bool) (w : e.World)
      → Ends (suc fuel) interval action deadline observed w
        ⊎ ((seen : Bool) × (w' : e.World) × (poll e (suc fuel) interval action deadline observed w
              ≡ poll e fuel interval action deadline seen w')
            × (c.now w < deadline)
            × ((c.now w + interval ≤ c.now w') ⊎ (deadline ≤ c.now w')))
  unfolding poll poll_once
  round fuel interval action deadline observed w = elim (Bool-cases reached) [
    | inl yet ↦ inl (
      record { outcome = LifecycleOutcome.succeeded; final_state = state; timed_out = false },
      w1,
      ground arith,
      inl (
        refl,
        refl,
        (look-AtTarget action observed w yet).0,
        (look-AtTarget action observed w yet).1,
      ),
    )
    | inr going ↦ elim (Option-cases (wait e interval deadline state w1).0) [
      | inl asleep ↦ inr (
        seen,
        (wait e interval deadline state w1).1,
        ground arith,
        ground (arith, wait_time interval deadline state w1 asleep, look_later action observed w),
        ground (arith, wait_time interval deadline state w1 asleep, look_later action observed w),
      )
      | inr (r, ended) ↦ inl (
        r,
        (wait e interval deadline state w1).1,
        ground arith,
        inr (wait_result interval deadline state w1 r ended),
      )
    ]
  ]
    where
      state : PalworldHealthState
      state = (look e action observed w).0

      seen : Bool
      seen = (look e action observed w).1

      reached : Bool
      reached = (look e action observed w).2

      w1 : e.World
      w1 = (look e action observed w).3

  -- With a round for each interval until the deadline, and one more, the loop returns.
  pub poll-returns :
      (n interval : ℕ) (action : LifecycleAction) (deadline : ℕ) (observed : Bool) (w : e.World)
      → deadline ≤ c.now w + n * interval
      → Ends (suc n) interval action deadline observed w
  poll-returns zero interval action deadline observed w h =
      elim (round zero interval action deadline observed w) [
        | inl ends ↦ ends
        | inr (seen, w', step, early, later) ↦ absurd (omega arith)
      ]
  poll-returns (suc n) interval action deadline observed w h =
      elim (round (suc n) interval action deadline observed w) [
        | inl ends ↦ ends
        | inr (seen, w', step, early, later) ↦
            let (r, w'', returned, finished) =
              poll-returns n interval action deadline seen w' (omega arith) in
            (
              r,
              w'',
              step ∙ returned,
              Finished-earlier action (c.now w') (c.now w) deadline deadline r w'' (omega arith)
                  (omega arith) finished,
            )
      ]
