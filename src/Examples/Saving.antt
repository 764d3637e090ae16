-- ===== src/Examples/Saving.antt =====
-- The settings service over the fake storage.
use palworld_manager.Prelude.{
  if◌then◌else◌, String, ◌≡◌, refl, ℕ, true, [], ◌∷◌, Option, none, some, ltb, ◌-◌,
}
use palworld_manager.PalworldSettings.Text.{Text, rstrip, lstrip, is_space}
use palworld_manager.PalworldSettings.Ini.{
  render, parse_ini, find_closing_parenthesis, find_closing, split_entries, split_from,
}
use palworld_manager.PalworldSettings.Values.{
  SettingKind, ValueLibrary, SettingDefinition, parse_setting_value, serialize_setting_value,
}
use palworld_manager.PalworldSettings.Service.{save_settings}
use palworld_manager.PalworldSettings.Saving.{save-Refused}
use palworld_manager.Db.Enums.{AuditResult}
use palworld_manager.PalworldSettings.Text.{same_text}
use palworld_manager.PalworldSettings.Save.{audit_save, save}
use palworld_manager.PalworldSettings.Storage.{
  FakeSettings, fake_storage, fake_storage-ReadsBack, fake_read, fake_write,
}
use palworld_manager.Examples.{empty_db}
use palworld_manager.Examples.Files.{options_text, at_start}

abbrev digit : Text → Option ℕ
digit (c ∷ []) = some (c - 48)
digit _ = none

-- Numbers of one digit.
abbrev digits : ValueLibrary
digits = record {
  Decimal = ℕ;
  parse = digit;
  is_finite = λ d. true;
  less = ltb;
  lower = λ t. t;
  is_integer = λ t. true;
  loads = λ t. some (some t);
  dumps = λ t. t;
}

-- `A`, an integer that is at least `minimum`.
abbrev setting_a : Option ℕ → SettingDefinition digits
setting_a minimum = record {
  key = 65 ∷ [];
  label = "A";
  description = "";
  category = "";
  kind = SettingKind.integer;
  options = [];
  minimum = minimum;
  maximum = none;
}

abbrev one_of_two : Text → String
one_of_two t = if same_text t options_text then "first" else "second"

abbrev stored : FakeSettings
stored = record { content = options_text; backups = []; error_kind = none }

-- `A` must be at least 1, and 0 is sent.
save-Refused_example :
    (stored ≡ (fake_read one_of_two (λ n. "backup") stored).1)
    × (audit_save 1 AuditResult.failure none (some "validation") 10 empty_db
        ≡ audit_save 1 AuditResult.failure none (some "validation") 10 empty_db)
unfolding save save_settings parse_setting_value parse_ini find_closing_parenthesis find_closing
    split_entries split_from rstrip lstrip is_space fake_read
save-Refused_example =
    save-Refused digits (setting_a (some 1) ∷ []) at_start (fake_storage one_of_two (λ n. "backup"))
      (fake_storage-ReadsBack one_of_two (λ n. "backup")) ((65 ∷ [], 48 ∷ []) ∷ []) "first" 1 10
      stored empty_db stored (audit_save 1 AuditResult.failure none (some "validation") 10 empty_db)
      refl

-- `(A=2, B="x,y")`
abbrev changed_text : Text
changed_text = 40 ∷ 65 ∷ 61 ∷ 50 ∷ 44 ∷ 32 ∷ 66 ∷ 61 ∷ 34 ∷ 120 ∷ 44 ∷ 121 ∷ 34 ∷ 41 ∷ []

-- 2 is written, and the text before it is kept.
saved_two :
    (save digits
      (setting_a (some 1) ∷ [])
      at_start
      (fake_storage one_of_two (λ n. "backup"))
      ((65 ∷ [], 50 ∷ []) ∷ [])
      "first"
      1
      10
      stored
      empty_db).0.1
    ≡ record { content = changed_text; backups = ("backup", options_text) ∷ []; error_kind = none }
unfolding save save_settings parse_setting_value parse_ini find_closing_parenthesis find_closing
    split_entries split_from rstrip lstrip is_space fake_read fake_write serialize_setting_value
    render
saved_two = refl
