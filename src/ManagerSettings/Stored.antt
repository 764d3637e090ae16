-- ===== src/ManagerSettings/Stored.antt =====
-- app/manager_settings/service.py: settings that were stored are those that everybody reads.
use palworld_manager.Prelude.{
  ℕ, ◌≡◌, refl, sym, ap, ◌∙◌, Bool, true, false, not, ◌&&◌, String, some, [], ◌∷◌, arith, str_eq,
  eq_iff, exists, Bool-cases, inl, inr,
}
use palworld_manager.Prelude.Result.{Error, ok, >>=-eq-ok, guard-eq-ok}
use palworld_manager.Prelude.Dict.{Json, Dict, get, put, update, get-put}
use palworld_manager.Db.Enums.{LifecycleAction}
use palworld_manager.Db.Rows.{Time, Db}
use palworld_manager.Db.Audit.{record_audit_event}
use palworld_manager.Lifecycle.Jobs.{lifecycle_timeout, bounded_int}
use palworld_manager.Shutdown.Executor.{is_allowed_countdown}
use palworld_manager.Shutdown.Jobs.{assisted_shutdown_default}
use palworld_manager.ManagerSettings.{
  ManagerSettingsValues, SettingsLibrary, as_dict, default_manager_settings, has_extra,
  model_validate, with_overrides, load_manager_settings, store_settings, update_manager_settings,
  timezone_of, backup_time_of, literal_minutes,
}

-- No key comes twice.
abbrev distinct : Dict → Bool
distinct [] = true
distinct ((k, v) ∷ d) = not (exists (λ entry. str_eq entry.0 k) d) && distinct d

get-update_absent :
    (j : String) (d entries : Dict)
    → exists (λ entry. str_eq entry.0 j) entries ≡ false
    → get j (update d entries) ≡ get j d
get-update_absent j d [] h = refl
get-update_absent j d ((k, v) ∷ entries) h =
    ground (arith, get-update_absent j (put k v d) entries, get-put k j v d)

-- What an update has stored is found again.
get-update :
    (j : String) (d entries : Dict) (w : Json)
    → distinct entries ≡ true
    → get j entries ≡ some w
    → get j (update d entries) ≡ some w
get-update j d [] w u h = cc
get-update j d ((k, v) ∷ entries) w u h = elim (Bool-cases (str_eq k j)) [
  | inl same ↦
      let key_is : k ≡ j = (eq_iff k j).0 same in
      let gone : exists (λ entry. str_eq entry.0 j) entries ≡ false =
        ap (λ t. exists (λ entry. str_eq entry.0 t) entries) (sym key_is) ∙ ground arith in
      get-update_absent j (put k v d) entries gone ∙ ground (arith, get-put k j v d)
  | inr other ↦ get-update j (put k v d) entries w (ground arith) (ground arith)
]

module _ (l : SettingsLibrary) where
  stored :
      (values : ManagerSettingsValues) (user_id : ℕ) (now : Time) (db : Db) (key : String)
      (w : Json)
      → get key (as_dict values) ≡ some w
      → get key (store_settings l values user_id now db).settings ≡ some w
  unfolding record_audit_event
  stored values user_id now db key w h = get-update key db.settings (as_dict values) w refl h

  -- After the update the stored settings hide every default.
  with_overrides-stored :
      (values : ManagerSettingsValues) (user_id : ℕ) (now : Time) (db : Db)
      → with_overrides l
          (store_settings l values user_id now db).settings
          (as_dict default_manager_settings)
        ≡ as_dict values
  with_overrides-stored values user_id now db =
      let s = stored values user_id now db in
      ground (
        arith,
        s "timezone" (Json.str values.timezone) refl,
        s "backup_enabled" (Json.bool values.backup_enabled) refl,
        s "backup_time" (Json.str values.backup_time) refl,
        s "local_backup_retention" (Json.int values.local_backup_retention) refl,
        s "drive_backup_retention" (Json.int values.drive_backup_retention) refl,
        s "metrics_interval_seconds" (Json.int values.metrics_interval_seconds) refl,
        s "assisted_shutdown_default_minutes" (Json.int values.assisted_shutdown_default_minutes)
            refl,
        s "start_timeout_seconds" (Json.int values.start_timeout_seconds) refl,
        s "restart_timeout_seconds" (Json.int values.restart_timeout_seconds) refl,
        s "stop_timeout_seconds" (Json.int values.stop_timeout_seconds) refl,
        s "disk_warning_gb" (Json.int values.disk_warning_gb) refl,
        s "disk_critical_gb" (Json.int values.disk_critical_gb) refl,
      )

  -- The fields that the job services read are within the bounds that they check.
  valid_fields :
      (v w : ManagerSettingsValues)
      → model_validate l (as_dict v) ≡ ok w
      → (is_allowed_countdown v.assisted_shutdown_default_minutes ≡ true)
        × (bounded_int 1 600 (some (Json.int v.start_timeout_seconds)) ≡ ok v.start_timeout_seconds)
        × (bounded_int 1 600 (some (Json.int v.restart_timeout_seconds))
            ≡ ok v.restart_timeout_seconds)
        × (bounded_int 1 300 (some (Json.int v.stop_timeout_seconds)) ≡ ok v.stop_timeout_seconds)
  unfolding model_validate
  valid_fields v w h =
      let (no_extra, h0) = guard-eq-ok (not (has_extra (as_dict v))) Error.value_error _ h in
      let (zone, zone_is, h1) = >>=-eq-ok (timezone_of l (some (Json.str v.timezone))) _ h0 in
      let (time, time_is, h3) = >>=-eq-ok (backup_time_of l (some (Json.str v.backup_time))) _ h1 in
      let (local, local_is, h4) =
        >>=-eq-ok (bounded_int 1 30 (some (Json.int v.local_backup_retention))) _ h3 in
      let (drive, drive_is, h5) =
        >>=-eq-ok (bounded_int 1 100 (some (Json.int v.drive_backup_retention))) _ h4 in
      let (metrics, metrics_is, h6) =
        >>=-eq-ok (bounded_int 1 60 (some (Json.int v.metrics_interval_seconds))) _ h5 in
      let (minutes, minutes_is, h7) =
        >>=-eq-ok (literal_minutes (some (Json.int v.assisted_shutdown_default_minutes))) _ h6 in
      let (start, start_is, h8) =
        >>=-eq-ok (bounded_int 1 600 (some (Json.int v.start_timeout_seconds))) _ h7 in
      let (restart, restart_is, h9) =
        >>=-eq-ok (bounded_int 1 600 (some (Json.int v.restart_timeout_seconds))) _ h8 in
      let (stop, stop_is, h10) =
        >>=-eq-ok (bounded_int 1 300 (some (Json.int v.stop_timeout_seconds))) _ h9 in
      (ground arith, ground arith, ground arith, ground arith)

  -- Settings that were saved are read by everybody: where `update_manager_settings` accepts values
  -- that the validation leaves as they are, the next load returns exactly these values with their
  -- version, the lifecycle jobs take their timeouts and the assisted shutdown its countdown from
  -- them, and no other setting is changed.
  pub update_manager_settings-stored :
      (values : ManagerSettingsValues) (expected_version : String) (user_id : ℕ) (now : Time)
      (db db' : Db) (snapshot : ManagerSettingsValues × String)
      → update_manager_settings l values expected_version user_id now db ≡ ok (snapshot, db')
      → model_validate l (as_dict values) ≡ ok values
      → (load_manager_settings l db' ≡ ok (values, l.settings_version values))
        × (lifecycle_timeout LifecycleAction.start db' ≡ ok values.start_timeout_seconds)
        × (lifecycle_timeout LifecycleAction.restart db' ≡ ok values.restart_timeout_seconds)
        × (lifecycle_timeout LifecycleAction.stop db' ≡ ok values.stop_timeout_seconds)
        × (assisted_shutdown_default db' ≡ ok values.assisted_shutdown_default_minutes)
        × ((key : String)
            → exists (λ entry. str_eq entry.0 key) (as_dict values) ≡ false
            → get key db'.settings ≡ get key db.settings)
  unfolding update_manager_settings load_manager_settings lifecycle_timeout
      assisted_shutdown_default record_audit_event
  update_manager_settings-stored values expected_version user_id now db db' snapshot h valid =
      let (current, loaded, h1) = >>=-eq-ok (load_manager_settings l db) _ h in
      let (fresh, h2) =
        guard-eq-ok (l.is_version expected_version && str_eq current.1 expected_version)
          Error.settings_conflict _ h1 in
      let db_is : db'.settings ≡ (store_settings l values user_id now db).settings = ground arith in
      let s = stored values user_id now db in
      let (minutes, start, restart, stop) = valid_fields values values valid in
      (
        ground (
          arith,
          ap (λ t. with_overrides l t (as_dict default_manager_settings)) db_is,
          with_overrides-stored values user_id now db,
        ),
        ground (arith, s "start_timeout_seconds" (Json.int values.start_timeout_seconds) refl),
        ground (arith, s "restart_timeout_seconds" (Json.int values.restart_timeout_seconds) refl),
        ground (arith, s "stop_timeout_seconds" (Json.int values.stop_timeout_seconds) refl),
        ground (
          arith,
          s "assisted_shutdown_default_minutes" (Json.int values.assisted_shutdown_default_minutes)
              refl,
        ),
        λ key other. ap (get key) db_is ∙ get-update_absent key db.settings (as_dict values) other,
      )
