-- ===== src/PalworldSettings/Save.antt =====
-- `PalworldSettingsService.save` of app/palworld_settings/service.py with its audit events. A list
-- among the details of an event is `Json.other`.
use palworld_manager.Prelude.{ℕ, inl, inr, String, List, [], ◌∷◌, ◌++◌, Option, none, some}
use palworld_manager.Prelude.Dict.{Json, Dict}
use palworld_manager.Db.Enums.{AuditAction, AuditResult, AuditOrigin}
use palworld_manager.Db.Rows.{Time, Db}
use palworld_manager.Db.Audit.{event, record_audit_event}
use palworld_manager.PalworldSettings.Ini.{Patterns, Replacements}
use palworld_manager.PalworldSettings.Values.{ValueLibrary, SettingDefinition}
use palworld_manager.PalworldSettings.Service.{
  PalworldSettingsStorage, SaveFailure, Saved, storage_error_value, save_settings,
}

abbrev named : String → Option String → Dict
named name none = []
named name (some value) = (name, Json.str value) ∷ []

-- `_audit`
abbrev pub audit_save : ℕ → AuditResult → Option String → Option String → Time → Db → Db
audit_save user_id outcome backup_name error_kind occurred_at db =
    record_audit_event
      (record (event occurred_at AuditAction.palworld_settings_update outcome
        AuditOrigin.administrator) {
          user_id = some user_id;
          target = some "PalWorldSettings.ini";
          details = some (
              ("changed_fields", Json.other)
                ∷ ("schema_version", Json.str "1.0.4")
                ∷ named "backup_name" backup_name
              ++ named "error_kind" error_kind);
        })
      db

-- The error kind of the audit event.
abbrev failure_name : SaveFailure → String
failure_name SaveFailure.invalid = "validation"
failure_name (SaveFailure.storage kind) = storage_error_value kind

module _ (l : ValueLibrary) (definitions : List (SettingDefinition l)) (patterns : Patterns)
    (store : PalworldSettingsStorage) where
  abbrev pub audited : ℕ → Time → Db → Saved l definitions patterns store → Db
  audited user_id now db (inl failure, files) =
      audit_save user_id AuditResult.failure none (some (failure_name failure)) now db
  audited user_id now db (inr saved, files) =
      audit_save user_id AuditResult.success saved.backup_name none now db

  -- `save`: its answer, the files and the database.
  unfoldable pub save :
      Replacements → String → ℕ → Time → store.Files → Db → Saved l definitions patterns store × Db
  unfolding save_settings
  save updates expected_version user_id now files db =
      let saved = save_settings l definitions patterns store updates expected_version files in
      (saved, audited user_id now db saved)
