-- ===== src/Shutdown/Executor.antt =====
-- app/shutdown/service.py: `AssistedShutdownExecutor` and `ForcedShutdownExecutor`.
use palworld_manager.Prelude.{
  ℕ, zero, suc, ◌+◌, ◌*◌, Bool, true, false, not, ◌&&◌, ◌||◌, String, Option, none, some, ltb, ◌==◌,
  if◌then◌else◌,
}
use palworld_manager.Prelude.Result.{Error, Result, ok, err}
use palworld_manager.Db.Enums.{LifecycleAction, PalworldSignal, PalworldHealthState}
use palworld_manager.Db.Rows.{second}
use palworld_manager.Environment.{Environment}
use palworld_manager.Lifecycle.Executor.{
  LifecycleOutcome, LifecycleResult, poll_interval, poll, execute,
}

pub data CountdownDirective : Type 0 where
  continue cancel execute_now : CountdownDirective

pub data ShutdownOutcome : Type 0 where
  succeeded failed cancelled : ShutdownOutcome

pub record AssistedShutdownResult : Type 0 where
  pub outcome : ShutdownOutcome
  pub online_players : Option ℕ
  pub timed_out : Bool
  pub final_state : Option PalworldHealthState
  pub failure : Option String

-- The protocol CountdownControl, over the state that it keeps. A call can raise.
pub record CountdownControl : Type 1 where
  pub State : Type 0
  pub update : ℕ → ℕ → State → Result (CountdownDirective × State)
  pub mark_irreversible : State → Result (CountdownDirective × State)

abbrev pub is_allowed_countdown : ℕ → Bool
is_allowed_countdown minutes = minutes == 0 || (minutes == 1 || (minutes == 5 || minutes == 10))

abbrev pub countdown_message : ℕ → String
countdown_message minutes =
    if minutes == 1
    then "O servidor será desligado em 1 minuto."
    else (if minutes == 5
        then "O servidor será desligado em 5 minutos."
        else "O servidor será desligado em 10 minutos.")

abbrev pub cancelled_message : String
cancelled_message = "O desligamento do servidor foi cancelado."

abbrev pub now_message : String
now_message = "O servidor será desligado agora."

abbrev pub communication_failed : Option ℕ → AssistedShutdownResult
communication_failed players = record {
  outcome = ShutdownOutcome.failed;
  online_players = players;
  timed_out = false;
  final_state = none;
  failure = some "communication_failed";
}

abbrev pub cancelled_result : ℕ → AssistedShutdownResult
cancelled_result players = record {
  outcome = ShutdownOutcome.cancelled;
  online_players = some players;
  timed_out = false;
  final_state = none;
  failure = none;
}

abbrev pub stop_result : ℕ → LifecycleResult → AssistedShutdownResult
stop_result players r = elim r.outcome [
  | LifecycleOutcome.succeeded ↦ record {
    outcome = ShutdownOutcome.succeeded;
    online_players = some players;
    timed_out = r.timed_out;
    final_state = some r.final_state;
    failure = none;
  }
  | LifecycleOutcome.failed ↦ record {
    outcome = ShutdownOutcome.failed;
    online_players = some players;
    timed_out = r.timed_out;
    final_state = some r.final_state;
    failure = some "stop_failed";
  }
]

abbrev pub is_cancel : CountdownDirective → Bool
is_cancel CountdownDirective.cancel = true
is_cancel _ = false

module _ (e : Environment) (control : CountdownControl) where
  abbrev pub announce_if : Bool → String → e.World → Bool × e.World
  announce_if wanted message w = if wanted then e.announce message w else (true, w)

  -- The `while remaining > 0` loop: was it cancelled?
  unfoldable pub countdown :
      ℕ → ℕ → e.World → control.State → Result (Bool × e.World × control.State)
  countdown zero total w s = ok (false, w, s)
  countdown (suc remaining) total w s = elim (control.update (suc remaining) total s) [
    | err x ↦ err x
    | ok (CountdownDirective.cancel, s') ↦ ok (true, w, s')
    | ok (CountdownDirective.execute_now, s') ↦ ok (false, w, s')
    | ok (CountdownDirective.continue, s') ↦ countdown remaining total (e.sleep second w) s'
  ]

  abbrev pub Returned : Type 0
  Returned = Result (AssistedShutdownResult × e.World × control.State)

  -- From the last announcement on. The fuel is the one of the lifecycle executor.
  unfoldable pub stop_server : ℕ → ℕ → ℕ → e.World → control.State → Option Returned
  stop_server fuel players timeout w s =
      let (sent, w1) = announce_if (ltb 0 players) now_message w in
      if not sent
      then some (ok (communication_failed (some players), w1, s))
      else elim (execute e fuel poll_interval LifecycleAction.stop timeout w1) [
        | none ↦ none
        | some (err x) ↦ some (err x)
        | some (ok (r, w2)) ↦ some (ok (stop_result players r, w2, s))
      ]

  -- From `mark_irreversible` on.
  unfoldable pub commit_shutdown : ℕ → ℕ → ℕ → e.World → control.State → Option Returned
  unfolding stop_server
  commit_shutdown fuel players timeout w s = elim (control.mark_irreversible s) [
    | err x ↦ some (err x)
    | ok (directive, s') ↦
        if is_cancel directive
        then some (ok (cancelled_result players, w, s'))
        else stop_server fuel players timeout w s'
  ]

  unfoldable pub execute_assisted : ℕ → ℕ → ℕ → e.World → control.State → Option Returned
  unfolding countdown commit_shutdown
  execute_assisted fuel minutes timeout w s =
      if not (is_allowed_countdown minutes)
      then some (err Error.value_error)
      else (let (count, w1) = e.online_player_count w in
          elim count [
            | none ↦ some (ok (communication_failed none, w1, s))
            | some players ↦
                let (sent, w2) =
                  announce_if (ltb 0 players && ltb 0 minutes) (countdown_message minutes) w1 in
                if not sent
                then some (ok (communication_failed none, w2, s))
                else elim (countdown (minutes * 60) (minutes * 60) w2 s) [
                  | err x ↦ some (err x)
                  | ok (true, w3, s') ↦ some (
                      ok (
                        cancelled_result players,
                        (announce_if (ltb 0 players) cancelled_message w3).1,
                        s',
                      ))
                  | ok (false, w3, s') ↦ commit_shutdown fuel players timeout w3 s'
                ]
          ])

abbrev pub signal_failed : AssistedShutdownResult
signal_failed = record {
  outcome = ShutdownOutcome.failed;
  online_players = none;
  timed_out = false;
  final_state = some PalworldHealthState.failure;
  failure = some "signal_failed";
}

abbrev pub signal_result : LifecycleResult → AssistedShutdownResult
signal_result r = elim r.outcome [
  | LifecycleOutcome.succeeded ↦ record {
    outcome = ShutdownOutcome.succeeded;
    online_players = none;
    timed_out = false;
    final_state = some r.final_state;
    failure = none;
  }
  | LifecycleOutcome.failed ↦ record {
    outcome = ShutdownOutcome.failed;
    online_players = none;
    timed_out = true;
    final_state = some r.final_state;
    failure = some "signal_timeout";
  }
]

-- The loop is, call for call, the one of the lifecycle executor for a stop: a check, the port
-- where the service is offline, the deadline, a sleep of at most a second. (`max(0.0, …)` is the
-- subtraction on ℕ.)
unfoldable pub execute_forced :
    (e : Environment) → ℕ → PalworldSignal → ℕ → e.World → Option (AssistedShutdownResult × e.World)
execute_forced e fuel signal timeout_seconds w =
    let (done, w1) = e.send_signal signal w in
    let (started, w2) = e.monotonic w1 in
    let result =
      poll e fuel second LifecycleAction.stop (started + timeout_seconds * second) true w2 in
    if done
    then (elim result [ none ↦ none | some (r, w') ↦ some (signal_result r, w') ])
    else some (signal_failed, w1)
