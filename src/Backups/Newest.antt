-- ===== src/Backups/Newest.antt =====
-- `apply_local_retention` of app/backups/jobs.py keeps the newest backups.
use palworld_manager.Prelude.{
  ℕ, ◌-◌, ◌<◌, ◌≤◌, ◌≡◌, refl, Bool, ◌&&◌, ◌⊎◌, String, List, [], ◌∷◌, ◌++◌, map, arith, ◌==◌,
  str_eq, exists, where_rows, count, length, take, Bool-cases, inl, inr, subst, sym, ◌∙◌,
}
use palworld_manager.Backups.Retention.{
  BackupRecord, IdsDiffer, is_newer, insert_newest, newest_first, is_valid_local, managed_of,
  others_of, apply_local_retention, apply_local_retention-kept,
}

-- `b` is not newer than `a`: it was created before, or at the same time under a smaller id.
abbrev pub IsOlder : BackupRecord → BackupRecord → Type 0
IsOlder a b = (b.created_at < a.created_at) ⊎ ((b.created_at ≡ a.created_at) × (b.id ≤ a.id))

abbrev pub AllOlder : BackupRecord → List BackupRecord → Type 0
AllOlder a [] = Unit
AllOlder a (r ∷ rs) = IsOlder a r × AllOlder a rs

-- Each record is followed by older ones only.
abbrev pub NewestFirst : List BackupRecord → Type 0
NewestFirst [] = Unit
NewestFirst (r ∷ rs) = AllOlder r rs × NewestFirst rs

AllOlder-trans :
    (a b : BackupRecord) (rs : List BackupRecord) → IsOlder a b → AllOlder b rs → AllOlder a rs
AllOlder-trans a b [] h all_ = tt
AllOlder-trans a b (r ∷ rs) h all_ = (ground arith, AllOlder-trans a b rs h all_.1)

AllOlder-insert_newest :
    (a r : BackupRecord) (rs : List BackupRecord)
    → IsOlder a r
    → AllOlder a rs
    → AllOlder a (insert_newest r rs)
unfolding insert_newest
AllOlder-insert_newest a r [] h all_ = (h, tt)
AllOlder-insert_newest a r (x ∷ rs) h all_ = elim (Bool-cases (is_newer r x)) [
  | inl newer ↦
      let same : insert_newest r (x ∷ rs) ≡ r ∷ x ∷ rs = ground arith in
      subst (AllOlder a) (sym same) (h, all_)
  | inr older ↦
      let same : insert_newest r (x ∷ rs) ≡ x ∷ insert_newest r rs = ground arith in
      subst (AllOlder a) (sym same) (all_.0, AllOlder-insert_newest a r rs h all_.1)
]

NewestFirst-insert_newest :
    (r : BackupRecord) (rs : List BackupRecord) → NewestFirst rs → NewestFirst (insert_newest r rs)
unfolding insert_newest
NewestFirst-insert_newest r [] h = (tt, tt)
NewestFirst-insert_newest r (x ∷ rs) h = elim (Bool-cases (is_newer r x)) [
  | inl newer ↦
      let same : insert_newest r (x ∷ rs) ≡ r ∷ x ∷ rs = ground arith in
      let first : IsOlder r x = ground arith in
      subst NewestFirst (sym same) ((first, AllOlder-trans r x rs first h.0), h)
  | inr older ↦
      let same : insert_newest r (x ∷ rs) ≡ x ∷ insert_newest r rs = ground arith in
      let first : IsOlder x r = ground arith in
      subst NewestFirst (sym same)
        (AllOlder-insert_newest x r rs first h.0, NewestFirst-insert_newest r rs h.1)
]

NewestFirst-newest_first : (rs : List BackupRecord) → NewestFirst (newest_first rs)
unfolding newest_first
NewestFirst-newest_first [] = tt
NewestFirst-newest_first (r ∷ rs) =
    NewestFirst-insert_newest r (newest_first rs) (NewestFirst-newest_first rs)

AllOlder-where_rows :
    (p : BackupRecord → Bool) (a : BackupRecord) (rs : List BackupRecord)
    → AllOlder a rs
    → AllOlder a (where_rows p rs)
AllOlder-where_rows p a [] h = tt
AllOlder-where_rows p a (r ∷ rs) h = elim (Bool-cases (p r)) [
  | inl kept ↦
      let same : where_rows p (r ∷ rs) ≡ r ∷ where_rows p rs = ground arith in
      subst (AllOlder a) (sym same) (h.0, AllOlder-where_rows p a rs h.1)
  | inr gone ↦
      let same : where_rows p (r ∷ rs) ≡ where_rows p rs = ground arith in
      subst (AllOlder a) (sym same) (AllOlder-where_rows p a rs h.1)
]

NewestFirst-where_rows :
    (p : BackupRecord → Bool) (rs : List BackupRecord)
    → NewestFirst rs
    → NewestFirst (where_rows p rs)
NewestFirst-where_rows p [] h = tt
NewestFirst-where_rows p (r ∷ rs) h = elim (Bool-cases (p r)) [
  | inl kept ↦
      let same : where_rows p (r ∷ rs) ≡ r ∷ where_rows p rs = ground arith in
      subst NewestFirst (sym same) (AllOlder-where_rows p r rs h.0, NewestFirst-where_rows p rs h.1)
  | inr gone ↦
      let same : where_rows p (r ∷ rs) ≡ where_rows p rs = ground arith in
      subst NewestFirst (sym same) (NewestFirst-where_rows p rs h.1)
]

count-insert_newest :
    (p : BackupRecord → Bool) (r : BackupRecord) (rs : List BackupRecord)
    → count p (insert_newest r rs) ≡ count p (r ∷ rs)
unfolding insert_newest
count-insert_newest p r [] = refl
count-insert_newest p r (x ∷ rs) = ground (arith, count-insert_newest p r rs)

count-newest_first :
    (p : BackupRecord → Bool) (rs : List BackupRecord) → count p (newest_first rs) ≡ count p rs
unfolding newest_first
count-newest_first p [] = refl
count-newest_first p (r ∷ rs) =
    count-insert_newest p r (newest_first rs) ∙ ground (arith, count-newest_first p rs)

count-where_rows :
    (p q : BackupRecord → Bool) (rs : List BackupRecord)
    → count p (where_rows q rs) ≡ count (λ r. q r && p r) rs
count-where_rows p q [] = refl
count-where_rows p q (r ∷ rs) = ground (arith, count-where_rows p q rs)

-- Two tests that agree count the same.
count-same :
    (p q : BackupRecord → Bool)
    → ((r : BackupRecord) → p r ≡ q r)
    → (rs : List BackupRecord) → count p rs ≡ count q rs
count-same p q agree [] = refl
count-same p q agree (r ∷ rs) = ground (arith, agree r, count-same p q agree rs)

-- A local and valid backup whose file is there.
abbrev pub is_kept_here : (String → Bool) → BackupRecord → Bool
is_kept_here is_managed r =
    str_eq r.location "LOCAL" && (str_eq r.status "VALID" && is_managed r.storage_path)

-- The protected ones, and after them the first of the others while there is room.
abbrev pub chosen : ℕ → List ℕ → List BackupRecord → List BackupRecord
chosen retention preserve_record_ids managed =
    let protected = where_rows (λ r. exists (λ i. r.id == i) preserve_record_ids) managed in
    protected ++ take (retention - length protected) (others_of protected managed)

-- What the retention leaves, in a table whose ids are all different. The local and valid backups
-- whose file is there can be listed from the newest to the oldest (by the time, and by the id where
-- the times are equal), each as often as it is in the table, so that exactly those stay that are
-- protected or are among the first of the others, as many as the protected ones leave room for;
-- each of the rest loses its row and its file, and all other rows stay.
pub apply_local_retention-newest :
    (is_managed : String → Bool) (retention : ℕ) (preserve_record_ids : List ℕ)
    (rows : List BackupRecord)
    → IdsDiffer rows
    → (managed : List BackupRecord) × NewestFirst managed
      × ((p : BackupRecord → Bool)
          → count p managed ≡ count (λ r. is_kept_here is_managed r && p r) rows)
      × (let removed = others_of (chosen retention preserve_record_ids managed) managed in
          apply_local_retention is_managed retention preserve_record_ids rows
          ≡ (others_of removed rows, map (λ r. r.storage_path) removed))
apply_local_retention-newest is_managed retention preserve_record_ids rows u =
    let there : BackupRecord → Bool = λ r. is_managed r.storage_path in
    let locals = where_rows is_valid_local rows in
    (
      managed_of is_managed rows,
      NewestFirst-where_rows there (newest_first locals) (NewestFirst-newest_first locals),
      λ p.
          count-where_rows p there (newest_first locals)
          ∙ count-newest_first (λ r. there r && p r) locals
          ∙ count-where_rows (λ r. there r && p r) is_valid_local rows
          ∙ count-same (λ r. is_valid_local r && (there r && p r))
              (λ r. is_kept_here is_managed r && p r) (λ r. ground arith) rows,
      apply_local_retention-kept is_managed retention preserve_record_ids rows u,
    )
