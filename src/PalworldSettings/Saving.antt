-- ===== src/PalworldSettings/Saving.antt =====
-- The service of app/palworld_settings/service.py: a refused save has not written.
use palworld_manager.Prelude.{
  ℕ, none, some, ◌≡◌, refl, ◌⊎◌, inl, inr, String, List, [], ◌∷◌, str_eq, Bool-cases, arith,
}
use palworld_manager.Prelude.Result.{Result, ok, err, ◌>>=◌, >>=-eq-ok}
use palworld_manager.PalworldSettings.Text.{Text}
use palworld_manager.PalworldSettings.Ini.{ParsedIni, Patterns, Replacements, parse_ini, render}
use palworld_manager.PalworldSettings.Values.{ValueLibrary, SettingDefinition}
use palworld_manager.PalworldSettings.Service.{
  StoredSettings, PalworldSettingsStorage, InspectedSettings, SaveFailure, SettingsStorageErrorKind,
  Saved, inspect_settings, render_checked, reload, after_write, after_render, after_prepare,
  after_read, prepare_save, save_settings,
}
use palworld_manager.Db.Enums.{AuditResult}
use palworld_manager.Db.Rows.{Time, Db}
use palworld_manager.PalworldSettings.Save.{audit_save, audited, save}

-- A text that was just written is the text that a successful read answers with.
abbrev pub ReadsBack : PalworldSettingsStorage → Type 0
ReadsBack store =
    (version : String) (content : Text) (files files1 files2 : store.Files) (backup_name : String)
    (stored : StoredSettings)
    → store.write version content files ≡ (inr backup_name, files1)
    → store.read files1 ≡ (inr stored, files2)
    → stored.content ≡ content

bind-total :
    {A B : Type 0} (r : Result A) (next : A → B) {a : A}
    → r ≡ ok a
    → (b : B) × ((r >>= λ x. ok (next x)) ≡ ok b)
bind-total (ok x) next h = (next x, refl)
bind-total (err x) next h = cc

module _ (l : ValueLibrary) (definitions : List (SettingDefinition l)) (patterns : Patterns) where
  render_checked-parses :
      (replacements : Replacements) (parsed : ParsedIni) (rendered : Text)
      → render_checked l definitions patterns replacements parsed ≡ ok rendered
      → (again : ParsedIni) × (parse_ini patterns rendered ≡ ok again)
  unfolding render_checked
  render_checked-parses replacements parsed rendered h =
      let (first, _, h1) =
        >>=-eq-ok (render replacements parsed)
          (λ text. parse_ini patterns text >>= λ again. ok text) h in
      let (again, parses, h2) = >>=-eq-ok (parse_ini patterns first) (λ again. ok first) h1 in
      (again, cc)

  inspect_settings-parsed :
      (content : Text) (parsed : ParsedIni)
      → parse_ini patterns content ≡ ok parsed
      → (inspected : InspectedSettings) × (inspect_settings l definitions patterns content
          ≡ ok inspected)
  unfolding inspect_settings
  inspect_settings-parsed content parsed h = bind-total (parse_ini patterns content) _ h

  module _ (store : PalworldSettingsStorage) (reads_back : ReadsBack store) where
    abbrev Refused : Saved l definitions patterns store → Type 0
    Refused saved = saved.0 ≡ inl SaveFailure.invalid

    reload-accepts :
        (replacements : Replacements) (backup_name : String)
        (answer : (SettingsStorageErrorKind ⊎ StoredSettings) × store.Files)
        → ((stored : StoredSettings) (files : store.Files)
            → answer ≡ (inr stored, files)
            → (inspected : InspectedSettings) × (inspect_settings l definitions patterns
                  stored.content
                ≡ ok inspected))
        → ¬ Refused (reload l definitions patterns store replacements backup_name answer)
    reload-accepts replacements backup_name (inl kind, files) inspects h = cc
    reload-accepts replacements backup_name (inr stored, files) inspects h =
        let (inspected, eq) = inspects stored files refl in ground arith

    after_write-accepts :
        (replacements : Replacements) (version : String) (content : Text) (again : ParsedIni)
        (files : store.Files) (answer : (SettingsStorageErrorKind ⊎ String) × store.Files)
        → parse_ini patterns content ≡ ok again
        → store.write version content files ≡ answer
        → ¬ Refused (after_write l definitions patterns store replacements answer)
    after_write-accepts replacements version content again files (inl kind, files1) parses written
          h =
        cc
    after_write-accepts replacements version content again files (inr name, files1) parses written
          h =
        reload-accepts replacements name (store.read files1)
          (λ stored files2 eq. inspect_settings-parsed stored.content again (
            let same = reads_back version content files files1 files2 name stored written eq in cc))
          h

    after_render-Refused :
        (version : String) (replacements : Replacements) (rendered : Result Text)
        (files : store.Files)
        → ((content : Text)
            → rendered ≡ ok content
            → (again : ParsedIni) × (parse_ini patterns content ≡ ok again))
        → Refused (after_render l definitions patterns store version replacements rendered files)
        → (after_render l definitions patterns store version replacements rendered files).1 ≡ files
    after_render-Refused version replacements (err x) files parses h = refl
    after_render-Refused version replacements (ok content) files parses h =
        let (again, eq) = parses content refl in
        absurd (
          after_write-accepts replacements version content again files
            (store.write version content files) eq refl h)

    after_prepare-Refused :
        (version : String) (prepared : Result (InspectedSettings × Replacements))
        (files : store.Files)
        → Refused (after_prepare l definitions patterns store version prepared files)
        → (after_prepare l definitions patterns store version prepared files).1 ≡ files
    after_prepare-Refused version (err x) files h = refl
    after_prepare-Refused version (ok (inspected, [])) files h = refl
    after_prepare-Refused version (ok (inspected, (r ∷ rs))) files h =
        after_render-Refused version (r ∷ rs) _ files
          (render_checked-parses (r ∷ rs) inspected.parsed) h

    after_read-Refused :
        (updates : Replacements) (version : String)
        (answer : (SettingsStorageErrorKind ⊎ StoredSettings) × store.Files)
        → Refused (after_read l definitions patterns store updates version answer)
        → (after_read l definitions patterns store updates version answer).1 ≡ answer.1
    after_read-Refused updates version (inl kind, files) h = refl
    after_read-Refused updates version (inr stored, files) h =
        elim (Bool-cases (str_eq stored.version version)) [
          | inl same ↦
              let next =
                after_prepare-Refused version
                  (prepare_save l definitions patterns updates stored.content) files in
              ground arith
          | inr other ↦ ground arith
        ]

    save_settings-Refused :
        (updates : Replacements) (expected_version : String) (files : store.Files)
        → Refused (save_settings l definitions patterns store updates expected_version files)
        → (save_settings l definitions patterns store updates expected_version files).1
          ≡ (store.read files).1
    unfolding save_settings
    save_settings-Refused updates expected_version files =
        after_read-Refused updates expected_version (store.read files)

    audited-Refused :
        (user_id : ℕ) (now : Time) (db : Db) (saved : Saved l definitions patterns store)
        → Refused saved
        → audited l definitions patterns store user_id now db saved
          ≡ audit_save user_id AuditResult.failure none (some "validation") now db
    audited-Refused user_id now db (inl failure, files) h = ground arith
    audited-Refused user_id now db (inr saved, files) h = cc

    -- A save that is refused as invalid has written nothing: the files are as the first read left
    -- them, and the database has one more audit event, a failure of validation. The storage reads
    -- back the text that it has written.
    pub save-Refused :
        (updates : Replacements) (expected_version : String) (user_id : ℕ) (now : Time)
        (files : store.Files) (db : Db) (files1 : store.Files) (db1 : Db)
        → save l definitions patterns store updates expected_version user_id now files db
          ≡ ((inl SaveFailure.invalid, files1), db1)
        → (files1 ≡ (store.read files).1)
          × (db1 ≡ audit_save user_id AuditResult.failure none (some "validation") now db)
    unfolding save
    save-Refused updates expected_version user_id now files db files1 db1 h =
        let saved = save_settings l definitions patterns store updates expected_version files in
        let refused : Refused saved = cc in
        let same_files = save_settings-Refused updates expected_version files refused in
        let same_db = audited-Refused user_id now db saved refused in (cc, cc)
