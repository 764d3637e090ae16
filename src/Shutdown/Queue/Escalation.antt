-- ===== src/Shutdown/Queue/Escalation.antt =====
-- The ladder of app/shutdown/jobs.py: which failure a forced shutdown follows.
use palworld_manager.Prelude.{ℕ, ◌≡◌, refl, true, some, arith, inl, inr, Option-cases}
use palworld_manager.Db.Enums.{LifecycleAction, PalworldSignal, JobKind, JobStatus, is_failed}
use palworld_manager.Db.Rows.{Job, Db}
use palworld_manager.Db.Jobs.{find_job}
use palworld_manager.Shutdown.Jobs.{is_valid_source, is_source_kind, failure_is}

-- A forced shutdown that `enqueue_forced_shutdown` accepts follows a failure that is in the queue,
-- and only on the right step of the ladder.
pub data Escalates (db : Db) (source_job_id : ℕ) : PalworldSignal → Type 0 where
  after_stop :
      (source : Job)
      → find_job source_job_id db.jobs ≡ some source
      → source.kind ≡ JobKind.lifecycle LifecycleAction.stop
      → source.status ≡ JobStatus.failed
      → Escalates db source_job_id PalworldSignal.term
  after_assisted :
      (source : Job)
      → find_job source_job_id db.jobs ≡ some source
      → source.kind ≡ JobKind.assisted_shutdown
      → source.status ≡ JobStatus.failed
      → failure_is "stop_failed" source.result ≡ true
      → Escalates db source_job_id PalworldSignal.term
  after_term :
      (source : Job)
      → find_job source_job_id db.jobs ≡ some source
      → source.kind ≡ JobKind.forced_shutdown PalworldSignal.term
      → source.status ≡ JobStatus.failed
      → Escalates db source_job_id PalworldSignal.kill

failed_is : (s : JobStatus) → is_failed s ≡ true → s ≡ JobStatus.failed
failed_is JobStatus.failed h = refl
failed_is _ h = ground arith

source-Escalates :
    (db : Db) (source_job_id : ℕ) (signal : PalworldSignal) (source : Job) (kind : JobKind)
    → source.kind ≡ kind
    → find_job source_job_id db.jobs ≡ some source
    → is_failed source.status ≡ true
    → is_source_kind signal kind source.result ≡ true
    → Escalates db source_job_id signal
source-Escalates db i PalworldSignal.term source (JobKind.lifecycle LifecycleAction.stop) k found f
      h =
    Escalates.after_stop source found k (failed_is source.status f)
source-Escalates db i PalworldSignal.term source JobKind.assisted_shutdown k found f h =
    Escalates.after_assisted source found k (failed_is source.status f) h
source-Escalates db i PalworldSignal.kill source (JobKind.forced_shutdown PalworldSignal.term) k
      found f h =
    Escalates.after_term source found k (failed_is source.status f)
source-Escalates db i _ source _ k found f h = ground arith

pub valid-Escalates :
    (db : Db) (source_job_id : ℕ) (signal : PalworldSignal)
    → is_valid_source signal (find_job source_job_id db.jobs) ≡ true
    → Escalates db source_job_id signal
valid-Escalates db i signal h = elim (Option-cases (find_job i db.jobs)) [
  | inl e ↦ let impossible : ⊥ = ground arith in absurd impossible
  | inr (source, e) ↦
      source-Escalates db i signal source source.kind refl e (ground arith) (ground arith)
]
