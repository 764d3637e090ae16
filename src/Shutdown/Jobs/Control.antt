-- ===== src/Shutdown/Jobs/Control.antt =====
-- `DatabaseCountdownControl` of app/shutdown/jobs.py.
use palworld_manager.Prelude.{
  ℕ, ◌+◌, ◌-◌, ◌*◌, ◌/◌, false, not, ◌&&◌, some, List, [], ◌∷◌, if◌then◌else◌,
}
use palworld_manager.Prelude.Result.{Result, ok, err, ◌>>=◌}
use palworld_manager.Prelude.Dict.{Json, put, or_empty}
use palworld_manager.Db.Enums.{JobStep}
use palworld_manager.Db.Rows.{Job, Db}
use palworld_manager.Db.Jobs.{get_one, update_job}
use palworld_manager.Shutdown.Executor.{CountdownDirective, CountdownControl}

-- `5 + int(75 * (total - remaining) / total)`; the loop calls it with `0 < remaining ≤ total`. Beyond
-- that the source has a smaller value or, for a total of 0, raises ZeroDivisionError.
abbrev pub countdown_progress : ℕ → ℕ → ℕ
countdown_progress remaining total = 5 + 75 * (total - remaining) / total

abbrev pub countdown_row : ℕ → ℕ → Job → Job
countdown_row remaining total j = record j {
  step = JobStep.countdown;
  progress = countdown_progress remaining total;
  result = some (put "remaining_seconds" (Json.int remaining) (or_empty j.result));
}

abbrev pub requested : Job → CountdownDirective
requested j =
    if j.cancel_requested
    then CountdownDirective.cancel
    else (if j.execute_now_requested
        then CountdownDirective.execute_now
        else CountdownDirective.continue)

unfoldable pub update_countdown : ℕ → ℕ → ℕ → Db → Result (CountdownDirective × Db)
update_countdown job_id remaining total db = do
  job ← get_one job_id db.jobs
  ok (requested job, record db { jobs = update_job job_id (countdown_row remaining total) db.jobs })

abbrev pub irreversible_row : Job → Job
irreversible_row j = record j {
  is_cancellable = false;
  step = JobStep.irreversible;
  progress = 80;
  result = some (put "remaining_seconds" (Json.int 0) (or_empty j.result));
}

-- The UPDATE finds the row only while it is cancellable and nobody has asked to cancel; what it
-- sets is set again below it.
unfoldable pub mark_irreversible : ℕ → Db → Result (CountdownDirective × Db)
mark_irreversible job_id db = do
  job ← get_one job_id db.jobs
  let changed = job.is_cancellable && not job.cancel_requested
  if not changed && job.cancel_requested
      then ok (CountdownDirective.cancel, db)
      else ok (
        CountdownDirective.continue,
        record db { jobs = update_job job_id irreversible_row db.jobs },
      )

-- Each call opens a transaction of its own, and the other processes' transactions come in between:
-- the state carries those that are still to come, one for each call.
abbrev pub Others : Type 0
Others = List (Db → Db)

abbrev pub interleave : Others × Db → Others × Db
interleave ([], db) = ([], db)
interleave (transaction ∷ later, db) = (later, transaction db)

abbrev pub after_call :
    Others → Result (CountdownDirective × Db) → Result (CountdownDirective × (Others × Db))
after_call later (ok (directive, db)) = ok (directive, (later, db))
after_call later (err x) = err x

abbrev pub database_control : ℕ → CountdownControl
database_control job_id = record {
  State = Others × Db;
  update = λ remaining total s.
      let (later, db) = interleave s in
      after_call later (update_countdown job_id remaining total db);
  mark_irreversible =
      λ s. let (later, db) = interleave s in after_call later (mark_irreversible job_id db);
}
