-- ===== src/Backups/Retention.antt =====
-- `apply_local_retention` of app/backups/jobs.py: which local backups are kept.
use palworld_manager.Prelude.{
  ℕ, zero, suc, ◌-◌, ◌≡◌, refl, sym, ap, ◌∙◌, Bool, true, false, not, ◌&&◌, ◌||◌, String, Option,
  List, [], ◌∷◌, ◌++◌, map, arith, ◌==◌, ltb, leb, str_eq, exists, exists-append, where_rows,
  length, length-append, take, if◌then◌else◌, Bool-cases, inl, inr, subst,
}
use mathlib.Core.List.{append_assoc, append-nil}
use palworld_manager.Db.Rows.{Time}

pub record BackupRecord : Type 0 where
  pub id : ℕ
  pub job_id : Option ℕ
  pub filename : String
  pub location : String
  pub status : String
  pub sha256 : Option String
  pub size_bytes : Option ℕ
  pub storage_path : String
  pub created_at : Time

-- ORDER BY created_at DESC, id DESC
abbrev pub is_newer : BackupRecord → BackupRecord → Bool
is_newer a b = ltb b.created_at a.created_at || (a.created_at == b.created_at && ltb b.id a.id)

unfoldable pub insert_newest : BackupRecord → List BackupRecord → List BackupRecord
insert_newest r [] = r ∷ []
insert_newest r (x ∷ xs) =
    let rest = insert_newest r xs in if is_newer r x then r ∷ x ∷ xs else x ∷ rest

unfoldable pub newest_first : List BackupRecord → List BackupRecord
unfolding insert_newest
newest_first [] = []
newest_first (r ∷ rs) = insert_newest r (newest_first rs)

abbrev pub is_valid_local : BackupRecord → Bool
is_valid_local r = str_eq r.location "LOCAL" && str_eq r.status "VALID"

abbrev pub has_id : ℕ → List BackupRecord → Bool
has_id i rs = exists (λ r. r.id == i) rs

-- `record.id in protected`
abbrev pub is_protected : List ℕ → BackupRecord → Bool
is_protected preserve_record_ids r = exists (λ i. r.id == i) preserve_record_ids

-- The second loop: `break` once enough are kept, and no record twice.
unfoldable pub fill_kept : ℕ → List BackupRecord → List BackupRecord → List BackupRecord
fill_kept retention kept [] = kept
fill_kept retention kept (r ∷ rs) =
    let next = fill_kept retention (if has_id r.id kept then kept else kept ++ r ∷ []) rs in
    if leb retention (length kept) then kept else next

-- The two loops that fill `kept`.
abbrev pub kept_records : ℕ → List ℕ → List BackupRecord → List BackupRecord
kept_records retention preserve_record_ids managed =
    fill_kept retention (where_rows (is_protected preserve_record_ids) managed) managed

-- What is left of the table, and the paths whose files are removed. `is_managed` answers whether
-- `resolve_managed_artifact` finds the file of a path.
unfoldable pub apply_local_retention :
    (String → Bool) → ℕ → List ℕ → List BackupRecord → List BackupRecord × List String
unfolding newest_first fill_kept
apply_local_retention is_managed retention preserve_record_ids rows =
    let managed =
      where_rows (λ r. is_managed r.storage_path) (newest_first (where_rows is_valid_local rows)) in
    let kept = kept_records retention preserve_record_ids managed in
    let removed = where_rows (λ r. not (has_id r.id kept)) managed in
    (where_rows (λ r. not (has_id r.id removed)) rows, map (λ r. r.storage_path) removed)

-- No two records have one id.
abbrev pub IdsDiffer : List BackupRecord → Type 0
IdsDiffer [] = Unit
IdsDiffer (r ∷ rs) = (has_id r.id rs ≡ false) × IdsDiffer rs

-- The records that the loop may still add.
abbrev pub others_of : List BackupRecord → List BackupRecord → List BackupRecord
others_of kept rs = where_rows (λ r. not (has_id r.id kept)) rs

others_of-append :
    (kept rs : List BackupRecord) (r : BackupRecord)
    → has_id r.id rs ≡ false
    → others_of (kept ++ r ∷ []) rs ≡ others_of kept rs
others_of-append kept [] r h = refl
others_of-append kept (x ∷ rs) r h =
    ground (arith, others_of-append kept rs r, exists-append (λ y. y.id == x.id) kept (r ∷ []))

take-nil : (n : ℕ) → take {A = BackupRecord} n [] ≡ []
take-nil zero = refl
take-nil (suc n) = refl

-- The second loop adds the first of the other records, as many as are missing.
fill_kept-is :
    (retention : ℕ) (kept rs : List BackupRecord)
    → IdsDiffer rs
    → fill_kept retention kept rs ≡ kept ++ take (retention - length kept) (others_of kept rs)
unfolding fill_kept
fill_kept-is retention kept [] u =
    sym (ap (λ t. kept ++ t) (take-nil (retention - length kept)) ∙ append-nil kept)
fill_kept-is retention kept (r ∷ rs) u = elim (Bool-cases (leb retention (length kept))) [
  | inl enough ↦
      let no_room : retention - length kept ≡ 0 = ground arith in
      let stops : fill_kept retention kept (r ∷ rs) ≡ kept = ground arith in
      stops ∙ sym (ap (λ n. kept ++ take n (others_of kept (r ∷ rs))) no_room ∙ append-nil kept)
  | inr short ↦ elim (Bool-cases (has_id r.id kept)) [
    | inl already ↦
        let same : others_of kept (r ∷ rs) ≡ others_of kept rs = ground arith in
        let goes_on : fill_kept retention kept (r ∷ rs) ≡ fill_kept retention kept rs =
          ground arith in
        goes_on
        ∙ fill_kept-is retention kept rs u.1
        ∙ sym (ap (λ t. kept ++ take (retention - length kept) t) same)
    | inr fresh ↦
        let more = kept ++ r ∷ [] in
        let goes_on : fill_kept retention kept (r ∷ rs) ≡ fill_kept retention more rs =
          ground arith in
        let one_less : retention - length kept ≡ suc (retention - length more) =
          ground (arith, length-append kept (r ∷ [])) in
        let shown : others_of kept (r ∷ rs) ≡ r ∷ others_of kept rs = ground arith in
        goes_on
        ∙ fill_kept-is retention more rs u.1
        ∙ ap (λ t. more ++ take (retention - length more) t) (others_of-append kept rs r u.0)
        ∙ append_assoc kept (r ∷ []) (take (retention - length more) (others_of kept rs))
        ∙ sym (
            ap (λ t. kept ++ take (retention - length kept) t) shown
            ∙ ap (λ n. kept ++ take n (r ∷ others_of kept rs)) one_less)
  ]
]

has_id-insert_newest :
    (i : ℕ) (r : BackupRecord) (rs : List BackupRecord)
    → has_id i (insert_newest r rs) ≡ (r.id == i || has_id i rs)
unfolding insert_newest
has_id-insert_newest i r [] = refl
has_id-insert_newest i r (x ∷ rs) = ground (arith, has_id-insert_newest i r rs)

IdsDiffer-insert_newest :
    (r : BackupRecord) (rs : List BackupRecord)
    → has_id r.id rs ≡ false
    → IdsDiffer rs
    → IdsDiffer (insert_newest r rs)
unfolding insert_newest
IdsDiffer-insert_newest r [] h u = (refl, tt)
IdsDiffer-insert_newest r (x ∷ rs) h u = elim (Bool-cases (is_newer r x)) [
  | inl newer ↦ subst IdsDiffer (sym (rest_is newer)) (h, u)
  | inr older ↦ subst IdsDiffer (sym (rest_was older)) (
    ground (arith, has_id-insert_newest x.id r rs, u.0),
    IdsDiffer-insert_newest r rs (ground arith) u.1,
  )
]
  where
    rest_is : is_newer r x ≡ true → insert_newest r (x ∷ rs) ≡ r ∷ x ∷ rs
    rest_is newer = ground arith

    rest_was : is_newer r x ≡ false → insert_newest r (x ∷ rs) ≡ x ∷ insert_newest r rs
    rest_was older = ground arith

has_id-newest_first : (i : ℕ) (rs : List BackupRecord) → has_id i (newest_first rs) ≡ has_id i rs
unfolding newest_first
has_id-newest_first i [] = refl
has_id-newest_first i (r ∷ rs) =
    ground (arith, has_id-insert_newest i r (newest_first rs), has_id-newest_first i rs)

IdsDiffer-newest_first : (rs : List BackupRecord) → IdsDiffer rs → IdsDiffer (newest_first rs)
unfolding newest_first
IdsDiffer-newest_first [] u = tt
IdsDiffer-newest_first (r ∷ rs) u =
    IdsDiffer-insert_newest r (newest_first rs) (has_id-newest_first r.id rs ∙ u.0)
      (IdsDiffer-newest_first rs u.1)

has_id-where_rows :
    (p : BackupRecord → Bool) (i : ℕ) (rs : List BackupRecord)
    → has_id i rs ≡ false
    → has_id i (where_rows p rs) ≡ false
has_id-where_rows p i [] h = refl
has_id-where_rows p i (r ∷ rs) h = ground (arith, has_id-where_rows p i rs)

IdsDiffer-where_rows :
    (p : BackupRecord → Bool) (rs : List BackupRecord) → IdsDiffer rs → IdsDiffer (where_rows p rs)
IdsDiffer-where_rows p [] u = tt
IdsDiffer-where_rows p (r ∷ rs) u = elim (Bool-cases (p r)) [
  | inl kept ↦
      subst IdsDiffer (sym (with_it kept))
        (has_id-where_rows p r.id rs u.0, IdsDiffer-where_rows p rs u.1)
  | inr gone ↦ subst IdsDiffer (sym (without_it gone)) (IdsDiffer-where_rows p rs u.1)
]
  where
    with_it : p r ≡ true → where_rows p (r ∷ rs) ≡ r ∷ where_rows p rs
    with_it kept = ground arith

    without_it : p r ≡ false → where_rows p (r ∷ rs) ≡ where_rows p rs
    without_it gone = ground arith

-- The local backups with a file, the newest first.
abbrev pub managed_of : (String → Bool) → List BackupRecord → List BackupRecord
managed_of is_managed rows =
    where_rows (λ r. is_managed r.storage_path) (newest_first (where_rows is_valid_local rows))

-- The protected backups, and the first of the others while there is room.
abbrev pub newest_kept : ℕ → List ℕ → List BackupRecord → List BackupRecord
newest_kept retention preserve_record_ids managed =
    let protected = where_rows (is_protected preserve_record_ids) managed in
    protected ++ take (retention - length protected) (others_of protected managed)

-- What the retention leaves, in a table whose ids are all different.
pub apply_local_retention-kept :
    (is_managed : String → Bool) (retention : ℕ) (preserve_record_ids : List ℕ)
    (rows : List BackupRecord)
    → IdsDiffer rows
    → let managed = managed_of is_managed rows in
      let kept = newest_kept retention preserve_record_ids managed in
      let removed = others_of kept managed in
      apply_local_retention is_managed retention preserve_record_ids rows
      ≡ (others_of removed rows, map (λ r. r.storage_path) removed)
unfolding apply_local_retention
apply_local_retention-kept is_managed retention preserve_record_ids rows u =
    let managed = managed_of is_managed rows in
    let differ : IdsDiffer managed =
      IdsDiffer-where_rows (λ r. is_managed r.storage_path)
        (newest_first (where_rows is_valid_local rows))
        (IdsDiffer-newest_first (where_rows is_valid_local rows)
          (IdsDiffer-where_rows is_valid_local rows u)) in
    ap
      (λ kept.
        let removed = others_of kept managed in
        (others_of removed rows, map (λ r. r.storage_path) removed))
      (fill_kept-is retention (where_rows (is_protected preserve_record_ids) managed) managed
        differ)
