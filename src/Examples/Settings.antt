-- ===== src/Examples/Settings.antt =====
-- The operational settings, saved on an empty database.
use palworld_manager.Prelude.{◌≡◌, refl, true, false, String, exists, str_eq}
use palworld_manager.Prelude.Result.{ok}
use palworld_manager.Prelude.Dict.{get}
use palworld_manager.Db.Enums.{LifecycleAction}
use palworld_manager.Db.Rows.{Db}
use palworld_manager.Lifecycle.Jobs.{lifecycle_timeout}
use palworld_manager.Shutdown.Jobs.{assisted_shutdown_default}
use palworld_manager.Accounts.{text_length}
use palworld_manager.ManagerSettings.{
  ManagerSettingsValues, SettingsLibrary, as_dict, default_manager_settings, model_validate,
  load_manager_settings, update_manager_settings, store_settings,
}
use palworld_manager.ManagerSettings.Stored.{update_manager_settings-stored}
use palworld_manager.Examples.{empty_db}

-- Every zone, time and version is good.
abbrev lenient : SettingsLibrary
lenient = record {
  strip = λ s. s;
  zone_exists = λ name. true;
  is_backup_time = λ s. true;
  is_version = λ s. true;
  settings_version = λ values. "version";
}

abbrev slow_start : ManagerSettingsValues
slow_start = record default_manager_settings { start_timeout_seconds = 600 }

abbrev saved_db : Db
saved_db = store_settings lenient slow_start 1 10 empty_db

update_manager_settings_example :
    (load_manager_settings lenient saved_db ≡ ok (slow_start, "version"))
    × (lifecycle_timeout LifecycleAction.start saved_db ≡ ok 600)
    × (lifecycle_timeout LifecycleAction.restart saved_db ≡ ok 120)
    × (lifecycle_timeout LifecycleAction.stop saved_db ≡ ok 60)
    × (assisted_shutdown_default saved_db ≡ ok 5)
    × ((key : String)
        → exists (λ entry. str_eq entry.0 key) (as_dict slow_start) ≡ false
        → get key saved_db.settings ≡ get key empty_db.settings)
unfolding update_manager_settings load_manager_settings model_validate text_length
update_manager_settings_example =
    update_manager_settings-stored lenient slow_start "version" 1 10 empty_db saved_db
      (slow_start, "version") refl refl
