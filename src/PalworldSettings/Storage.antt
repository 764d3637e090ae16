-- ===== src/PalworldSettings/Storage.antt =====
-- `FakePalworldSettingsStorage` of app/palworld_settings/storage.py.
use palworld_manager.Prelude.{
  ◌≡◌, ℕ, suc, not, ◌⊎◌, inl, inr, String, List, [], ◌∷◌, ◌++◌, Option, none, some, str_eq, length,
  if◌then◌else◌, arith, Option-cases,
}
use palworld_manager.PalworldSettings.Text.{Text}
use palworld_manager.PalworldSettings.Service.{
  SettingsStorageErrorKind, StoredSettings, PalworldSettingsStorage,
}
use palworld_manager.PalworldSettings.Saving.{ReadsBack}

pub record FakeSettings : Type 0 where
  pub content : Text
  pub backups : List (String × Text)
  pub error_kind : Option SettingsStorageErrorKind

-- `content_version` is SHA-256, and `backup_name` formats the number of a backup.
module _ (content_version : Text → String) (backup_name : ℕ → String) where
  unfoldable pub fake_read :
      FakeSettings → (SettingsStorageErrorKind ⊎ StoredSettings) × FakeSettings
  fake_read fake = elim fake.error_kind [
    | some kind ↦ (inl kind, fake)
    | none ↦ (inr (record { content = fake.content; version = content_version fake.content }), fake)
  ]

  unfoldable pub fake_write :
      String → Text → FakeSettings → (SettingsStorageErrorKind ⊎ String) × FakeSettings
  fake_write expected_version content fake = elim fake.error_kind [
    | some kind ↦ (inl kind, fake)
    | none ↦
        if not (str_eq (content_version fake.content) expected_version)
        then (inl SettingsStorageErrorKind.conflict, fake)
        else (let name = backup_name (suc (length fake.backups)) in
            (
              inr name,
              record fake {
                content = content;
                backups = fake.backups ++ (name, fake.content) ∷ [];
              },
            ))
  ]

  abbrev pub fake_storage : PalworldSettingsStorage
  fake_storage = record { Files = FakeSettings; read = fake_read; write = fake_write }

  fake_write-content :
      (version : String) (content : Text) (files files1 : FakeSettings) (name : String)
      → fake_write version content files ≡ (inr name, files1)
      → files1.content ≡ content
  unfolding fake_write
  fake_write-content version content files files1 name h = elim (Option-cases files.error_kind) [
    | inl none_set ↦ ground arith
    | inr (kind, is_set) ↦ ground arith
  ]

  fake_read-content :
      (files files1 : FakeSettings) (stored : StoredSettings)
      → fake_read files ≡ (inr stored, files1)
      → stored.content ≡ files.content
  unfolding fake_read
  fake_read-content files files1 stored h = elim (Option-cases files.error_kind) [
    | inl none_set ↦ ground arith
    | inr (kind, is_set) ↦ ground arith
  ]

  -- The fake reads back the text that it has written.
  pub fake_storage-ReadsBack : ReadsBack fake_storage
  fake_storage-ReadsBack version content files files1 files2 name stored written answered =
      let written_text = fake_write-content version content files files1 name written in
      let read_text = fake_read-content files1 files2 stored answered in cc
