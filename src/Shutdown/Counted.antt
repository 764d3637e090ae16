-- ===== src/Shutdown/Counted.antt =====
-- How often the executors of app/shutdown/service.py command the server to stop.
use palworld_manager.Prelude.{
  ℕ, zero, suc, ◌+◌, ◌*◌, ◌≡◌, sym, Bool, true, false, ◌&&◌, String, Option, none, some, arith, ltb,
  str_eq, inl, inr, Option-cases, Bool-cases, if◌then◌else◌,
}
use palworld_manager.Prelude.Result.{ok, err, Result-cases}
use palworld_manager.Db.Enums.{LifecycleAction, PalworldHealthState}
use palworld_manager.Db.Rows.{second}
use palworld_manager.Environment.{Environment}
use palworld_manager.Lifecycle.Executor.{
  LifecycleResult, poll_interval, reached_target, look, wait, poll_once, poll, execute,
}
use palworld_manager.Shutdown.Executor.{
  CountdownDirective, ShutdownOutcome, AssistedShutdownResult, CountdownControl, countdown,
  stop_server, commit_shutdown, execute_assisted, announce_if, communication_failed,
  cancelled_result, stop_result, is_cancel, is_allowed_countdown, countdown_message, now_message,
}

-- An environment that counts the commands to stop the server.
abbrev pub counted : Environment → Environment
counted e = record {
  World = e.World × ℕ;
  check = λ w. ((e.check w.0).0, ((e.check w.0).1, w.1));
  start = λ w. ((e.start w.0).0, ((e.start w.0).1, w.1));
  stop = λ w. ((e.stop w.0).0, ((e.stop w.0).1, suc w.1));
  restart = λ w. ((e.restart w.0).0, ((e.restart w.0).1, w.1));
  send_signal = λ s w. ((e.send_signal s w.0).0, ((e.send_signal s w.0).1, suc w.1));
  is_open = λ w. ((e.is_open w.0).0, ((e.is_open w.0).1, w.1));
  monotonic = λ w. ((e.monotonic w.0).0, ((e.monotonic w.0).1, w.1));
  sleep = λ d w. (e.sleep d w.0, w.1);
  online_player_count = λ w. ((e.online_player_count w.0).0, ((e.online_player_count w.0).1, w.1));
  announce = λ m w. ((e.announce m w.0).0, ((e.announce m w.0).1, w.1));
}

-- `result.failure == text`
abbrev pub failed_with : String → Option String → Bool
failed_with key none = false
failed_with key (some k) = str_eq k key

-- How many commands to stop the server a run with this result has given.
abbrev pub commands : AssistedShutdownResult → ℕ
commands r = elim r.outcome [
  | ShutdownOutcome.succeeded ↦ 1
  | ShutdownOutcome.cancelled ↦ 0
  | ShutdownOutcome.failed ↦ if failed_with "stop_failed" r.failure then 1 else 0
]

record Told (r : AssistedShutdownResult) (before after : ℕ) : Type 0 where
  count : after ≡ commands r + before

Told-stop : (players : ℕ) (r : LifecycleResult) (n : ℕ) → Told (stop_result players r) n (suc n)
Told-stop players r n = ground arith

Told-cancelled : (players n : ℕ) → Told (cancelled_result players) n n
Told-cancelled players n = ground arith

Told-unannounced : (players : Option ℕ) (n : ℕ) → Told (communication_failed players) n n
Told-unannounced players n = ground arith

Told-as : {r r' : AssistedShutdownResult} {n k k' : ℕ} → r' ≡ r → k' ≡ k → Told r n k → Told r' n k'
Told-as p q h = rw p (rw q h)

module _ (e : Environment) where
  abbrev counter : (counted e).World → ℕ
  counter w = w.1

  look-counter :
      (observed : Bool) (w : (counted e).World)
      → counter (look (counted e) LifecycleAction.stop observed w).3 ≡ counter w
  unfolding look reached_target
  look-counter observed w = ground arith

  wait-counter :
      (interval deadline : ℕ) (state : PalworldHealthState) (w : (counted e).World)
      → counter (wait (counted e) interval deadline state w).1 ≡ counter w
  unfolding wait
  wait-counter interval deadline state w = ground arith

  poll-counter :
      (fuel interval deadline : ℕ) (observed : Bool) (w w' : (counted e).World)
      (r : LifecycleResult)
      → poll (counted e) fuel interval LifecycleAction.stop deadline observed w ≡ some (r, w')
      → counter w' ≡ counter w
  unfolding poll poll_once
  poll-counter zero interval deadline observed w w' r h = cc
  poll-counter (suc fuel) interval deadline observed w w' r h =
      let (state, seen, reached, w1) = look (counted e) LifecycleAction.stop observed w in
      let next = (wait (counted e) interval deadline state w1).1 in
      ground (
        arith,
        look-counter observed w,
        wait-counter interval deadline state w1,
        poll-counter fuel interval deadline seen next w' r,
      )

  stop-counter :
      (fuel interval timeout : ℕ) (w w' : (counted e).World) (r : LifecycleResult)
      → execute (counted e) fuel interval LifecycleAction.stop timeout w ≡ some (ok (r, w'))
      → counter w' ≡ suc (counter w)
  unfolding execute
  stop-counter fuel interval timeout w w' r h =
      let v = ((counted e).stop w).1 in
      let (started, v1) = (counted e).monotonic v in
      ground (arith, poll-counter fuel interval (started + timeout * second) true v1 w' r)

  module _ (control : CountdownControl) where
    countdown-counter :
        (remaining total : ℕ) (w w' : (counted e).World) (s s' : control.State) (b : Bool)
        → countdown (counted e) control remaining total w s ≡ ok (b, w', s')
        → counter w' ≡ counter w
    unfolding countdown
    countdown-counter zero total w w' s s' b h = ground arith
    countdown-counter (suc remaining) total w w' s s' b h =
        elim (Result-cases (control.update (suc remaining) total s)) [
          | inr (x, f) ↦ let impossible : ⊥ = ground arith in absurd impossible
          | inl ((CountdownDirective.cancel, s1), f) ↦ ground arith
          | inl ((CountdownDirective.execute_now, s1), f) ↦ ground arith
          | inl ((CountdownDirective.continue, s1), f) ↦
              countdown-counter remaining total ((counted e).sleep second w) w' s1 s' b
                (ground arith)
        ]

    stop_server-counter :
        (fuel players timeout : ℕ) (w w' : (counted e).World) (s s' : control.State)
        (r : AssistedShutdownResult)
        → stop_server (counted e) control fuel players timeout w s ≡ some (ok (r, w', s'))
        → Told r (counter w) (counter w')
    unfolding stop_server
    stop_server-counter fuel players timeout w w' s s' r h =
        let (sent, w1) = announce_if (counted e) control (ltb 0 players) now_message w in
        let ran = execute (counted e) fuel poll_interval LifecycleAction.stop timeout w1 in
        elim (Bool-cases sent) [
          | inr f ↦
              Told-as (ground arith) (ground arith) (Told-unannounced (some players) (counter w))
          | inl f ↦ elim (Option-cases ran) [
            | inl g ↦ let impossible : ⊥ = ground arith in absurd impossible
            | inr (err x, g) ↦ let impossible : ⊥ = ground arith in absurd impossible
            | inr (ok (lr, w2), g) ↦
                Told-as (ground arith)
                  (ground (arith, stop-counter fuel poll_interval timeout w1 w2 lr g))
                  (Told-stop players lr (counter w))
          ]
        ]

    commit_shutdown-counter :
        (fuel players timeout : ℕ) (w w' : (counted e).World) (s s' : control.State)
        (r : AssistedShutdownResult)
        → commit_shutdown (counted e) control fuel players timeout w s ≡ some (ok (r, w', s'))
        → Told r (counter w) (counter w')
    unfolding commit_shutdown
    commit_shutdown-counter fuel players timeout w w' s s' r h =
        elim (Result-cases (control.mark_irreversible s)) [
          | inr (x, f) ↦ let impossible : ⊥ = ground arith in absurd impossible
          | inl ((directive, s1), f) ↦ elim (Bool-cases (is_cancel directive)) [
            | inl g ↦ Told-as (ground arith) (ground arith) (Told-cancelled players (counter w))
            | inr g ↦ stop_server-counter fuel players timeout w w' s1 s' r (ground arith)
          ]
        ]

    execute_assisted-Told :
        (fuel minutes timeout : ℕ) (w w' : (counted e).World) (s s' : control.State)
        (r : AssistedShutdownResult)
        → execute_assisted (counted e) control fuel minutes timeout w s ≡ some (ok (r, w', s'))
        → Told r w.1 w'.1
    unfolding execute_assisted
    execute_assisted-Told fuel minutes timeout w w' s s' r h =
        elim (Bool-cases (is_allowed_countdown minutes)) [
          | inr a ↦ let impossible : ⊥ = ground arith in absurd impossible
          | inl a ↦ elim (Option-cases count) [
            | inl b ↦ Told-as (ground arith) (ground arith) (Told-unannounced none w.1)
            | inr (players, b) ↦ announced players a b
          ]
        ]
      where
        count : Option ℕ
        count = ((counted e).online_player_count w).0

        w1 : (counted e).World
        w1 = ((counted e).online_player_count w).1

        announced :
            (players : ℕ)
            → is_allowed_countdown minutes ≡ true
            → count ≡ some players
            → Told r w.1 w'.1
        announced players a b =
            let (sent, w2) =
              announce_if (counted e) control (ltb 0 players && ltb 0 minutes)
                (countdown_message minutes) w1 in
            let total = minutes * 60 in
            elim (Bool-cases sent) [
              | inr c ↦ Told-as (ground arith) (ground arith) (Told-unannounced none w.1)
              | inl c ↦ elim (Result-cases (countdown (counted e) control total total w2 s)) [
                | inr (x, f) ↦ let impossible : ⊥ = ground arith in absurd impossible
                | inl ((true, w3, s1), f) ↦
                    Told-as (ground arith)
                      (ground (arith, countdown-counter total total w2 w3 s s1 true f))
                      (Told-cancelled players w.1)
                | inl ((false, w3, s1), f) ↦
                    let same : w3.1 ≡ w.1 =
                      ground (arith, countdown-counter total total w2 w3 s s1 false f) in
                    rw (sym same)
                      (commit_shutdown-counter fuel players timeout w3 w' s1 s' r (ground arith))
              ]
            ]

    -- However a run of `AssistedShutdownExecutor.execute` that returns a result came to it, the
    -- server was commanded to stop exactly once if the result is a success or a failed stop, and
    -- not at all if it is a cancellation or any other failure.
    pub execute_assisted-commands :
        (fuel minutes timeout : ℕ) (w w' : (counted e).World) (s s' : control.State)
        (r : AssistedShutdownResult)
        → execute_assisted (counted e) control fuel minutes timeout w s ≡ some (ok (r, w', s'))
        → w'.1 ≡ commands r + w.1
    execute_assisted-commands fuel minutes timeout w w' s s' r h =
        (execute_assisted-Told fuel minutes timeout w w' s s' r h).count
