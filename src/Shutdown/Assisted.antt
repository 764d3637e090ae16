-- ===== src/Shutdown/Assisted.antt =====
-- `execute_assisted_shutdown_job` of app/shutdown/jobs.py: an assisted shutdown that was started is
-- ended, where nobody else writes to the queue while it runs.
use palworld_manager.Lifecycle.Jobs.{bounded_int}
use palworld_manager.Prelude.Dict.{get, or_empty}
use palworld_manager.Prelude.{
  ℕ, zero, suc, ◌*◌, ◌<◌, ◌≡◌, refl, Bool, true, false, ◌&&◌, none, some, [], arith, ltb,
  Bool-cases, Option-cases, inl, inr, not,
}
use palworld_manager.Prelude.Result.{ok, >>=-eq-ok}
use palworld_manager.Db.Enums.{LifecycleAction, AuditAction}
use palworld_manager.Db.Rows.{Time, Job, Db, second}
use palworld_manager.Db.Jobs.{find_job, get_one, update_job}
use palworld_manager.Environment.{Environment, Clock}
use palworld_manager.JobService.Invariant.{IsValid}
use palworld_manager.Lifecycle.Completion.{Ended, bounded_int_range}
use palworld_manager.Lifecycle.Verdict.{execute-Verdict}
use palworld_manager.Shutdown.Executor.{
  AssistedShutdownResult, countdown, stop_server, commit_shutdown, execute_assisted, announce_if,
  is_allowed_countdown, communication_failed, cancelled_result, stop_result, countdown_message,
  cancelled_message, now_message,
}
use palworld_manager.Shutdown.Jobs.Control.{
  database_control, update_countdown, mark_irreversible, countdown_row, irreversible_row, requested,
}
use palworld_manager.Shutdown.Jobs.Complete.{
  assisted_order, complete_row, complete_shutdown_job, execute_assisted_shutdown_job,
}
use palworld_manager.Shutdown.Completion.{reported}
use palworld_manager.Shutdown.Queue.{countdown_row-quiet}
use palworld_manager.Shutdown.Along.{
  Along, Along-refl, Along-update, Along-Ended, irreversible_row-quiet, directive-cases,
}

module _ (e : Environment) (c : Clock e) (i : ℕ) (db : Db) where
  countdown-Along :
      (remaining total : ℕ) (w : e.World) (now : Db)
      → Along i db now
      → (cancelled : Bool) × (w' : e.World) × (later : Db) × (countdown e
            (database_control i)
            remaining
            total
            w
            ([], now)
          ≡ ok (cancelled, w', ([], later)))
        × Along i db later
  unfolding countdown update_countdown get_one
  countdown-Along zero total w now a = (false, w, now, refl, a)
  countdown-Along (suc remaining) total w now a =
      let changed = countdown_row (suc remaining) total in
      let next = record now { jobs = update_job i changed now.jobs } in
      let b = Along-update i changed (countdown_row-quiet (suc remaining) total) db now a in
      elim (directive-cases (requested a.row)) [
        | inl (inl h) ↦ (true, w, next, ground (arith, a.stored), b)
        | inl (inr h) ↦ (false, w, next, ground (arith, a.stored), b)
        | inr h ↦
            let (cancelled, w', later, returned, end) =
              countdown-Along remaining total (e.sleep second w) next b in
            (cancelled, w', later, ground (arith, a.stored), end)
      ]

  -- The control's last call, and what follows it.
  stop_server-Along :
      (players timeout : ℕ) (w : e.World) (now : Db)
      → 0 < timeout
      → Along i db now
      → (r : AssistedShutdownResult) × (w' : e.World) × (later : Db) × (stop_server e
            (database_control i)
            (suc timeout)
            players
            timeout
            w
            ([], now)
          ≡ some (ok (r, w', ([], later))))
        × Along i db later
  unfolding stop_server
  stop_server-Along players timeout w now positive a =
      let (sent, w1) = announce_if e (database_control i) (ltb 0 players) now_message w in
      let (r, w2, returned, verdict) =
        execute-Verdict e c LifecycleAction.stop timeout w1 positive in
      elim (Bool-cases sent) [
        | inl g ↦ (stop_result players r, w2, now, ground arith, a)
        | inr g ↦ (communication_failed (some players), w1, now, ground arith, a)
      ]

  commit_shutdown-Along :
      (players timeout : ℕ) (w : e.World) (now : Db)
      → 0 < timeout
      → Along i db now
      → (r : AssistedShutdownResult) × (w' : e.World) × (later : Db) × (commit_shutdown e
            (database_control i)
            (suc timeout)
            players
            timeout
            w
            ([], now)
          ≡ some (ok (r, w', ([], later))))
        × Along i db later
  unfolding commit_shutdown mark_irreversible get_one
  commit_shutdown-Along players timeout w now positive a =
      elim (Bool-cases
        (not (a.row.is_cancellable && not a.row.cancel_requested) && a.row.cancel_requested)) [
          | inl refused ↦ (cancelled_result players, w, now, ground (arith, a.stored), a)
          | inr free ↦
              let next = record now { jobs = update_job i irreversible_row now.jobs } in
              let b = Along-update i irreversible_row irreversible_row-quiet db now a in
              let (r, w', later, returned, end) =
                stop_server-Along players timeout w next positive b in
              (r, w', later, ground (arith, a.stored), end)
        ]

  execute_assisted-Along :
      (minutes timeout : ℕ) (w : e.World) (now : Db)
      → is_allowed_countdown minutes ≡ true
      → 0 < timeout
      → Along i db now
      → (r : AssistedShutdownResult) × (w' : e.World) × (later : Db) × (execute_assisted e
            (database_control i)
            (suc timeout)
            minutes
            timeout
            w
            ([], now)
          ≡ some (ok (r, w', ([], later))))
        × Along i db later
  unfolding execute_assisted
  execute_assisted-Along minutes timeout w now allowed positive a =
      let (count, w1) = e.online_player_count w in
      elim (Option-cases count) [
        | inl f ↦ (communication_failed none, w1, now, ground arith, a)
        | inr (players, f) ↦
            let (sent, w2) =
              announce_if e (database_control i) (ltb 0 players && ltb 0 minutes)
                (countdown_message minutes) w1 in
            let total = minutes * 60 in
            let (cancelled, w3, later, counted, b) = countdown-Along total total w2 now a in
            elim (Bool-cases sent) [
              | inr g ↦ (communication_failed none, w2, now, ground arith, a)
              | inl g ↦ elim (Bool-cases cancelled) [
                | inl h ↦ (
                  cancelled_result players,
                  (announce_if e (database_control i) (ltb 0 players) cancelled_message w3).1,
                  later,
                  ground arith,
                  b,
                )
                | inr h ↦
                    let (r, w4, last, returned, end) =
                      commit_shutdown-Along players timeout w3 later positive b in
                    (r, w4, last, ground arith, end)
              ]
            ]
      ]

assisted_order-row :
    (i : ℕ) (db : Db) (minutes timeout : ℕ)
    → assisted_order i db ≡ ok (minutes, timeout)
    → (j : Job) × (find_job i db.jobs ≡ some j) × (0 < timeout)
unfolding assisted_order get_one
assisted_order-row i db minutes timeout h =
    let (j, got, h1) = >>=-eq-ok (get_one i db.jobs) _ h in
    let (m, first, h2) =
      >>=-eq-ok (bounded_int 0 10 (get "countdown_minutes" (or_empty j.result))) _ h1 in
    let (t, bounded, h3) =
      >>=-eq-ok (bounded_int 1 300 (get "stop_timeout_seconds" (or_empty j.result))) _ h2 in
    let range = bounded_int_range 1 300 (get "stop_timeout_seconds" (or_empty j.result)) bounded in
    (j, ground arith, ground arith)

-- An assisted shutdown whose countdown and timeout the worker can read, with a countdown that the
-- executor allows, is executed to the end where no other transaction comes in between: with one
-- round of fuel for each second of the timeout and one more the call returns without an exception,
-- with the world that the executor's run on this database has left. Its row has then ended as
-- succeeded, failed or cancelled by the outcome of that run, with the progress 100, no other row
-- has changed, and the queue is still valid.
pub execute_assisted_shutdown_job-Ended :
    (e : Environment)
    → Clock e
    → (i : ℕ) (now : Time) (db : Db) (w : e.World) (minutes timeout : ℕ) → IsValid db
    → assisted_order i db ≡ ok (minutes, timeout)
    → is_allowed_countdown minutes ≡ true
    → (r : AssistedShutdownResult) × (later db' : Db) × (w' : e.World)
      × (execute_assisted_shutdown_job e i now [] db w ≡ some (ok (db', w')))
      × (execute_assisted e (database_control i) (suc timeout) minutes timeout w ([], db)
          ≡ some (ok (r, w', ([], later))))
      × Ended i (reported r.outcome) db db'
unfolding execute_assisted_shutdown_job complete_shutdown_job get_one
execute_assisted_shutdown_job-Ended e c i now db w minutes timeout v order allowed =
    let (j, found, positive) = assisted_order-row i db minutes timeout order in
    let (r, w', later, returned, a) =
      execute_assisted-Along e c i db minutes timeout w db allowed positive
        (Along-refl i db j v found) in
    (
      r,
      later,
      complete_row i r AuditAction.assisted_shutdown false now later,
      w',
      ground (arith, a.stored),
      returned,
      Along-Ended i r now db later a,
    )
