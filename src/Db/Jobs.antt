-- ===== src/Db/Jobs.antt =====
-- The `jobs` table: SELECT, UPDATE and INSERT by SQLAlchemy as the services use them, with the
-- unique index on the coordination key of app/db/models/jobs.py.
pub mod Laws
use palworld_manager.Prelude.{
  ℕ, suc, Bool, true, false, ◌&&◌, not, String, Option, none, some, List, [], ◌∷◌, ◌++◌, map,
  exists, first, ◌==◌, str_eq, leb, if◌then◌else◌,
}
use palworld_manager.Prelude.Result.{Error, Result, ok, err, ◌>>=◌, ◌>>◌, guard}
use palworld_manager.Db.Enums.{is_active}
use palworld_manager.Db.Rows.{Job, Db}

-- `session.get(Job, id)`
unfoldable pub find_job : ℕ → List Job → Option Job
find_job i [] = none
find_job i (j ∷ js) = let rest = find_job i js in if j.id == i then some j else rest

-- `session.get_one(Job, id)`
unfoldable pub get_one : ℕ → List Job → Result Job
get_one i js = elim (find_job i js) [ none ↦ err Error.no_result_found | some j ↦ ok j ]

abbrev pub edit_if : ℕ → (Job → Job) → Job → Job
edit_if i f j = if j.id == i then f j else j

-- The ORM writes the changed row back.
unfoldable pub update_job : ℕ → (Job → Job) → List Job → List Job
update_job i f js = map (edit_if i f) js

-- The next row id of SQLite: one more than the largest in use.
unfoldable pub fresh_id : List Job → ℕ
fresh_id [] = 1
fresh_id (j ∷ js) = let rest = fresh_id js in if leb rest j.id then suc j.id else rest

abbrev pub has_key : String → Option String → Bool
has_key key none = false
has_key key (some k) = str_eq k key

-- `coordination_key == key AND status IN ('PENDING', 'RUNNING')`
abbrev pub holds_key : String → Job → Bool
holds_key key j = has_key key j.coordination_key && is_active j.status

abbrev pub key_is_taken : Job → List Job → Bool
key_is_taken row js = elim row.coordination_key [
  | none ↦ false
  | some key ↦ exists (holds_key key) js
]

-- `session.add(row)` and `session.flush()`: the index `uq_jobs_active_coordination_key` refuses a
-- second active row with the same key.
unfoldable pub insert_job : Job → List Job → Result (Job × List Job)
insert_job row js =
    let row' = record row { id = fresh_id js } in
    if is_active row.status && key_is_taken row js
    then err Error.integrity_error
    else ok (row', js ++ row' ∷ [])
