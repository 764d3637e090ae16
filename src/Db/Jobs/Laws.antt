-- ===== src/Db/Jobs/Laws.antt =====
-- What a lookup finds after an update, an insertion, or a query over the `jobs` table.
use palworld_manager.Prelude.{
  ℕ, ◌<◌, ◌≡◌, refl, Bool, false, Option, none, some, List, [], ◌∷◌, ◌++◌, map, exists, where_rows,
  Option, arith, ◌==◌, if◌then◌else◌, Option-cases, inl, inr,
}
use palworld_manager.Db.Rows.{Job}
use palworld_manager.Db.Jobs.{find_job, edit_if, update_job, fresh_id}
use mathlib.Core.Option

-- No two rows have one id.
abbrev pub IdsUnique : List Job → Type 0
IdsUnique [] = Unit
IdsUnique (j ∷ js) = (find_job j.id js ≡ none) × IdsUnique js

abbrev pub KeepsId : (Job → Job) → Type 0
KeepsId g = (j : Job) → (g j).id ≡ j.id

pub find_job-id : (i : ℕ) (js : List Job) {j : Job} → find_job i js ≡ some j → j.id ≡ i
unfolding find_job
find_job-id i [] h = cc
find_job-id i (x ∷ js) {j} h = ground (arith, find_job-id i js {j = j})

pub find_job-map :
    (g : Job → Job)
    → KeepsId g
    → (i : ℕ) (js : List Job) → find_job i (map g js) ≡ Option.map g (find_job i js)
unfolding find_job
find_job-map g keeps i [] = refl
find_job-map g keeps i (x ∷ js) = ground (arith, keeps x, find_job-map g keeps i js)

pub find_job-map_inv :
    (g : Job → Job)
    → KeepsId g
    → (i : ℕ) (js : List Job) {j' : Job} → find_job i (map g js) ≡ some j'
    → (j : Job) × (find_job i js ≡ some j) × (j' ≡ g j)
find_job-map_inv g keeps i js h = ground (arith, find_job-map g keeps i js)

pub edit_if-KeepsId : (i : ℕ) (f : Job → Job) → KeepsId f → KeepsId (edit_if i f)
edit_if-KeepsId i f keeps j = ground (arith, keeps j)

pub find_job-update_job :
    (i k : ℕ) (f : Job → Job)
    → KeepsId f
    → (js : List Job)
    → find_job i (update_job k f js)
      ≡ (if i == k then Option.map f (find_job i js) else find_job i js)
unfolding update_job find_job
find_job-update_job i k f keeps [] = ground arith
find_job-update_job i k f keeps (x ∷ js) =
    ground (arith, keeps x, find_job-update_job i k f keeps js)

pub find_job-lt-fresh_id :
    (i : ℕ) (js : List Job) {j : Job} → find_job i js ≡ some j → i < fresh_id js
unfolding find_job fresh_id
find_job-lt-fresh_id i [] h = cc
find_job-lt-fresh_id i (x ∷ js) {j} h = ground (arith, find_job-lt-fresh_id i js {j = j})

pub find_job-fresh_id : (js : List Job) → find_job (fresh_id js) js ≡ none
find_job-fresh_id js = elim (Option-cases (find_job (fresh_id js) js)) [
  | inl absent ↦ absent
  | inr (j, found) ↦ absurd (omega (arith, find_job-lt-fresh_id (fresh_id js) js found))
]

pub find_job-append :
    (i : ℕ) (js : List Job) (row : Job)
    → find_job i (js ++ row ∷ [])
      ≡ (elim (find_job i js) [ some j ↦ some j | none ↦ if row.id == i then some row else none ])
unfolding find_job
find_job-append i [] row = refl
find_job-append i (x ∷ js) row = ground (arith, find_job-append i js row)

pub IdsUnique-map :
    (g : Job → Job) → KeepsId g → (js : List Job) → IdsUnique js → IdsUnique (map g js)
IdsUnique-map g keeps [] u = tt
IdsUnique-map g keeps (x ∷ js) u =
    (ground (arith, keeps x, find_job-map g keeps x.id js), IdsUnique-map g keeps js u.1)

pub IdsUnique-update_job :
    (i : ℕ) (f : Job → Job)
    → KeepsId f
    → (js : List Job) → IdsUnique js
    → IdsUnique (update_job i f js)
unfolding update_job
IdsUnique-update_job i f keeps js u = IdsUnique-map (edit_if i f) (edit_if-KeepsId i f keeps) js u

pub IdsUnique-append :
    (js : List Job) (row : Job)
    → find_job row.id js ≡ none
    → IdsUnique js
    → IdsUnique (js ++ row ∷ [])
unfolding find_job
IdsUnique-append [] row h u = (refl, tt)
IdsUnique-append (x ∷ js) row h u =
    (ground (arith, find_job-append x.id js row), IdsUnique-append js row (ground arith) u.1)

-- A row that no query found has the test false.
pub exists-find_job :
    (p : Job → Bool) (i : ℕ) (js : List Job) {j : Job}
    → exists p js ≡ false
    → find_job i js ≡ some j
    → p j ≡ false
unfolding find_job
exists-find_job p i [] e h = cc
exists-find_job p i (x ∷ js) {j} e h = ground (arith, exists-find_job p i js {j = j})

abbrev pub keep_if : (Job → Bool) → Option Job → Option Job
keep_if p none = none
keep_if p (some j) = if p j then some j else none

pub find_job-where_rows :
    (p : Job → Bool) (i : ℕ) (js : List Job)
    → IdsUnique js
    → find_job i (where_rows p js) ≡ keep_if p (find_job i js)
unfolding find_job
find_job-where_rows p i [] u = refl
find_job-where_rows p i (x ∷ js) u = ground (arith, find_job-where_rows p i js u.1)

pub IdsUnique-where_rows :
    (p : Job → Bool) (js : List Job) → IdsUnique js → IdsUnique (where_rows p js)
IdsUnique-where_rows p [] u = tt
IdsUnique-where_rows p (x ∷ js) u =
    ground (arith, IdsUnique-where_rows p js u.1, find_job-where_rows p x.id js u.1)
