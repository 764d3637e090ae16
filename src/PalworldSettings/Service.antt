-- ===== src/PalworldSettings/Service.antt =====
-- `PalworldSettingsService` of app/palworld_settings/service.py: reading, checking and saving the
-- settings file, less the audit event of a save. The views' labels and their grouping by category are
-- left out: the fields are in the order of the definitions.
use palworld_manager.Prelude.{
  ℕ, Bool, true, false, not, ◌&&◌, ◌||◌, ◌⊎◌, inl, inr, String, List, [], ◌∷◌, map, Option, none,
  some, str_eq, exists, where_rows, length, if◌then◌else◌,
}
use palworld_manager.Prelude.Result.{Error, Result, ok, err, ◌>>=◌, ◌>>◌, guard, or_raise}
use palworld_manager.PalworldSettings.Text.{Text, same_text, is_empty, strip}
use palworld_manager.PalworldSettings.Ini.{
  IniEntry, ParsedIni, Patterns, Replacements, lookup, parse_ini, render,
}
use palworld_manager.PalworldSettings.Values.{
  SettingKind, ValueLibrary, SettingDefinition, parse_setting_value, serialize_setting_value,
}

pub data SettingsStorageErrorKind : Type 0 where
  conflict invalid_file io not_found permission : SettingsStorageErrorKind

abbrev pub storage_error_value : SettingsStorageErrorKind → String
storage_error_value SettingsStorageErrorKind.conflict = "conflict"
storage_error_value SettingsStorageErrorKind.invalid_file = "invalid_file"
storage_error_value SettingsStorageErrorKind.io = "io"
storage_error_value SettingsStorageErrorKind.not_found = "not_found"
storage_error_value SettingsStorageErrorKind.permission = "permission"

pub record StoredSettings : Type 0 where
  pub content : Text
  pub version : String

-- The protocol PalworldSettingsStorage; `write` answers with the name of the backup.
pub record PalworldSettingsStorage : Type 1 where
  pub Files : Type 0
  pub read : Files → (SettingsStorageErrorKind ⊎ StoredSettings) × Files
  pub write : String → Text → Files → (SettingsStorageErrorKind ⊎ String) × Files

pub record SettingFieldView : Type 0 where
  pub key : Text
  pub value : Option Text
  pub editable : Bool

pub record InspectedSettings : Type 0 where
  pub parsed : ParsedIni
  pub fields : List SettingFieldView
  pub unknown_keys : List Text
  pub malformed_entries : ℕ

-- PalworldSettingsValidationError, or a PalworldSettingsStorageError.
pub data SaveFailure : Type 0 where
  invalid : SaveFailure
  storage : SettingsStorageErrorKind → SaveFailure

pub record PalworldSettingsSaveResult : Type 0 where
  pub inspected : InspectedSettings
  pub changed_fields : List Text
  pub backup_name : Option String

abbrev pub has_key : Text → IniEntry → Bool
has_key key entry = elim entry.key [ none ↦ false | some k ↦ same_text key k ]

abbrev is_malformed : IniEntry → Bool
is_malformed entry = elim entry.key [ none ↦ not (is_empty (strip entry.raw)) | some k ↦ false ]

abbrev pub fixed_field : Text → SettingFieldView
fixed_field key = record { key = key; value = none; editable = false }

abbrev is_fixed : SettingKind → Bool
is_fixed SettingKind.sensitive = true
is_fixed SettingKind.read_only = true
is_fixed _ = false

abbrev field_of : Text → Result Text → SettingFieldView
field_of key (ok value) = record { key = key; value = some value; editable = true }
field_of key (err x) = fixed_field key

abbrev invalid_if : {A : Type 0} → Result A → SaveFailure ⊎ A
invalid_if (ok a) = inr a
invalid_if (err x) = inl SaveFailure.invalid

module _ (l : ValueLibrary) (definitions : List (SettingDefinition l)) (patterns : Patterns) where
  -- `_field_view`
  unfoldable pub field_view : SettingDefinition l → List IniEntry → SettingFieldView
  field_view definition (entry ∷ []) =
      if is_fixed definition.kind then fixed_field definition.key else (elim entry.value [
        | none ↦ fixed_field definition.key
        | some raw_value ↦ field_of definition.key (parse_setting_value l definition raw_value)
      ])
  field_view definition _ = fixed_field definition.key

  abbrev is_present : List IniEntry → SettingDefinition l → Bool
  is_present entries definition = exists (has_key definition.key) entries

  abbrev is_known : Text → Bool
  is_known key = exists (λ d. same_text d.key key) definitions

  -- The keys in the order of the file, each once; the source sorts them.
  unfoldable pub unknown_of : List IniEntry → List Text
  unknown_of [] = []
  unknown_of (entry ∷ entries) =
      let rest = unknown_of entries in
      elim entry.key [
        | none ↦ rest
        | some key ↦ if is_known key || exists (same_text key) rest then rest else key ∷ rest
      ]

  -- `_inspect`
  unfoldable pub inspect_settings : Text → Result InspectedSettings
  unfolding field_view unknown_of
  inspect_settings content = do
    parsed ← parse_ini patterns content
    ok (record {
      parsed = parsed;
      fields =
          map (λ d. field_view d (where_rows (has_key d.key) parsed.entries))
            (where_rows (is_present parsed.entries) definitions);
      unknown_keys = unknown_of parsed.entries;
      malformed_entries = length (where_rows is_malformed parsed.entries);
    })

  abbrev pub editable_fields : InspectedSettings → List SettingFieldView
  editable_fields inspected = where_rows (λ f. f.editable) inspected.fields

  abbrev find_definition : Text → List (SettingDefinition l) → Option (SettingDefinition l)
  find_definition key [] = none
  find_definition key (d ∷ ds) =
      let rest = find_definition key ds in if same_text d.key key then some d else rest

  abbrev covers : List Text → List Text → Bool
  covers keys [] = true
  covers keys (k ∷ ks) = exists (same_text k) keys && covers keys ks

  abbrev keys_of : Replacements → List Text
  keys_of updates = map (λ entry. entry.0) updates

  -- `received_keys != expected_keys`, the other way round.
  abbrev same_keys : Replacements → List SettingFieldView → Bool
  same_keys updates fields =
      covers (keys_of updates) (map (λ f. f.key) fields)
      && covers (map (λ f. f.key) fields) (keys_of updates)

  abbrev is_value : Text → Option Text → Bool
  is_value submitted none = false
  is_value submitted (some value) = same_text submitted value

  -- The new text of a setting, if it has to be replaced.
  abbrev changed_value : SettingDefinition l → Text → Option Text → Result (Option Text)
  changed_value definition update current = do
    submitted ← parse_setting_value l definition update
    if is_value submitted current
        then ok none
        else (serialize_setting_value l definition update >>= λ serialized. ok (some serialized))

  abbrev add_replacement : Text → Option Text → Replacements → Replacements
  add_replacement key none replacements = replacements
  add_replacement key (some serialized) replacements = (key, serialized) ∷ replacements

  -- The loop over the editable keys: what has to be replaced.
  unfoldable pub replacements_for : Replacements → List SettingFieldView → Result Replacements
  replacements_for updates [] = ok []
  replacements_for updates (field ∷ fields) = do
    definition ← or_raise (find_definition field.key definitions) Error.value_error
    update ← or_raise (lookup field.key updates) Error.value_error
    changed ← changed_value definition update field.value
    rest ← replacements_for updates fields
    ok (add_replacement field.key changed rest)

  -- From the version check to the loop.
  unfoldable pub prepare_save : Replacements → Text → Result (InspectedSettings × Replacements)
  unfolding inspect_settings replacements_for
  prepare_save updates content = do
    inspected ← inspect_settings content
    guard (same_keys updates (editable_fields inspected)) Error.settings_validation
    replacements ← replacements_for updates (editable_fields inspected)
    ok (inspected, replacements)

  -- The text that is written, once it is parsed again.
  unfoldable pub render_checked : Replacements → ParsedIni → Result Text
  render_checked replacements parsed = do
    rendered ← render replacements parsed
    parsed_again ← parse_ini patterns rendered
    ok rendered

  module _ (store : PalworldSettingsStorage) where
    abbrev pub Saved : Type 0
    Saved = (SaveFailure ⊎ PalworldSettingsSaveResult) × store.Files

    abbrev pub reload :
        Replacements → String → (SettingsStorageErrorKind ⊎ StoredSettings) × store.Files → Saved
    reload replacements backup_name (inl kind, files) = (inl (SaveFailure.storage kind), files)
    reload replacements backup_name (inr stored, files) = elim (inspect_settings stored.content) [
      | err x ↦ (inl SaveFailure.invalid, files)
      | ok inspected ↦ (
        inr (record {
          inspected = inspected;
          changed_fields = keys_of replacements;
          backup_name = some backup_name;
        }),
        files,
      )
    ]

    abbrev pub after_write :
        Replacements → (SettingsStorageErrorKind ⊎ String) × store.Files → Saved
    after_write replacements (inl kind, files) = (inl (SaveFailure.storage kind), files)
    after_write replacements (inr backup_name, files) =
        reload replacements backup_name (store.read files)

    abbrev pub after_render : String → Replacements → Result Text → store.Files → Saved
    after_render expected_version replacements (err x) files = (inl SaveFailure.invalid, files)
    after_render expected_version replacements (ok rendered) files =
        after_write replacements (store.write expected_version rendered files)

    abbrev pub after_prepare :
        String → Result (InspectedSettings × Replacements) → store.Files → Saved
    after_prepare expected_version (err x) files = (inl SaveFailure.invalid, files)
    after_prepare expected_version (ok (inspected, [])) files =
        (inr (record { inspected = inspected; changed_fields = []; backup_name = none }), files)
    after_prepare expected_version (ok (inspected, (r ∷ rs))) files =
        after_render expected_version (r ∷ rs) (render_checked (r ∷ rs) inspected.parsed) files

    abbrev pub after_read :
        Replacements → String → (SettingsStorageErrorKind ⊎ StoredSettings) × store.Files → Saved
    after_read updates expected_version (inl kind, files) = (inl (SaveFailure.storage kind), files)
    after_read updates expected_version (inr stored, files) =
        if not (str_eq stored.version expected_version)
        then (inl (SaveFailure.storage SettingsStorageErrorKind.conflict), files)
        else after_prepare expected_version (prepare_save updates stored.content) files

    -- The `try` block of `save`.
    unfoldable pub save_settings : Replacements → String → store.Files → Saved
    unfolding prepare_save render_checked inspect_settings
    save_settings updates expected_version files =
        after_read updates expected_version (store.read files)
