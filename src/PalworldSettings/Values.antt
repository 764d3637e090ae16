-- ===== src/PalworldSettings/Values.antt =====
-- app/palworld_settings/ini.py and app/palworld_settings/definitions.py: the values of single
-- settings.
use palworld_manager.Prelude.{
  ℕ, Bool, true, false, not, ◌||◌, String, List, [], ◌∷◌, Option, none, some, ◌==◌, leb, length,
  exists, if◌then◌else◌,
}
use palworld_manager.Prelude.Result.{Error, Result, ok, err, ◌>>=◌, ◌>>◌, guard, or_raise}
use palworld_manager.PalworldSettings.Text.{Text, quote, same_text, strip}

pub data SettingKind : Type 0 where
  boolean enumeration integer number read_only sensitive string : SettingKind

-- `decimal.Decimal` and `json`, `str.lower`, and INTEGER_PATTERN. `parse` is none for
-- InvalidOperation; `loads` is none for JSONDecodeError, and `some none` for a value that is not a
-- text.
pub record ValueLibrary : Type 1 where
  pub Decimal : Type 0
  pub parse : Text → Option Decimal
  pub is_finite : Decimal → Bool
  pub less : Decimal → Decimal → Bool
  pub lower : Text → Text
  pub is_integer : Text → Bool
  pub loads : Text → Option (Option Text)
  pub dumps : Text → Text

pub record SettingDefinition (l : ValueLibrary) : Type 0 where
  pub key : Text
  pub label : String
  pub description : String
  pub category : String
  pub kind : SettingKind
  pub options : List Text
  pub minimum : Option l.Decimal
  pub maximum : Option l.Decimal

abbrev pub true_text : Text
true_text = 116 ∷ 114 ∷ 117 ∷ 101 ∷ []

abbrev pub false_text : Text
false_text = 102 ∷ 97 ∷ 108 ∷ 115 ∷ 101 ∷ []

-- `True` and `False`
abbrev python_bool : Bool → Text
python_bool true = 84 ∷ 114 ∷ 117 ∷ 101 ∷ []
python_bool false = 70 ∷ 97 ∷ 108 ∷ 115 ∷ 101 ∷ []

abbrev pub max_string_length : ℕ
max_string_length = 2048

abbrev has_control : Text → Bool
has_control t = exists (λ c. c == 0 || (c == 13 || c == 10)) t

abbrev starts_quoted : Text → Bool
starts_quoted [] = false
starts_quoted (c ∷ cs) = c == quote

module _ (l : ValueLibrary) where
  -- `_parse_string`
  unfoldable pub parse_string : Text → Result Text
  parse_string raw =
      let normalized = strip raw in
      if not (starts_quoted normalized) then ok normalized else (elim (l.loads normalized) [
        | none ↦ err Error.setting_value
        | some none ↦ err Error.setting_value
        | some (some value) ↦ ok value
      ])

  abbrev below : Option l.Decimal → l.Decimal → Bool
  below none value = false
  below (some minimum) value = l.less value minimum

  abbrev above : Option l.Decimal → l.Decimal → Bool
  above none value = false
  above (some maximum) value = l.less maximum value

  -- `_validate_range`
  abbrev pub validate_range : SettingDefinition l → l.Decimal → Result (Unit {0})
  validate_range definition value =
      guard (not (below definition.minimum value || above definition.maximum value))
        Error.setting_value

  abbrev parse_boolean : Text → Result Text
  parse_boolean raw = do
    let normalized = l.lower (strip raw)
    guard (same_text normalized true_text || same_text normalized false_text) Error.setting_value
    ok (python_bool (same_text normalized true_text))

  abbrev parse_integer : SettingDefinition l → Text → Result Text
  parse_integer definition raw = do
    guard (l.is_integer (strip raw)) Error.setting_value
    value ← or_raise (l.parse (strip raw)) Error.setting_value
    validate_range definition value >> ok (strip raw)

  abbrev parse_number : SettingDefinition l → Text → Result Text
  parse_number definition raw = do
    value ← or_raise (l.parse (strip raw)) Error.setting_value
    guard (l.is_finite value) Error.setting_value
    validate_range definition value >> ok (strip raw)

  abbrev parse_enum : SettingDefinition l → Text → Result Text
  parse_enum definition raw = do
    value ← parse_string raw
    guard (exists (same_text value) definition.options) Error.setting_value
    ok value

  abbrev parse_text : Text → Result Text
  parse_text raw = do
    value ← parse_string raw
    guard (leb (length value) max_string_length) Error.setting_value
    guard (not (has_control value)) Error.setting_value
    ok value

  -- `parse_setting_value`
  unfoldable pub parse_setting_value : SettingDefinition l → Text → Result Text
  unfolding parse_string
  parse_setting_value definition raw = elim definition.kind [
    | SettingKind.boolean ↦ parse_boolean raw
    | SettingKind.integer ↦ parse_integer definition raw
    | SettingKind.number ↦ parse_number definition raw
    | SettingKind.enumeration ↦ parse_enum definition raw
    | SettingKind.string ↦ parse_text raw
    | SettingKind.read_only ↦ err Error.setting_value
    | SettingKind.sensitive ↦ err Error.setting_value
  ]

  abbrev is_string : SettingKind → Bool
  is_string SettingKind.string = true
  is_string _ = false

  -- `serialize_setting_value`
  unfoldable pub serialize_setting_value : SettingDefinition l → Text → Result Text
  unfolding parse_setting_value
  serialize_setting_value definition value = do
    normalized ← parse_setting_value definition value
    ok (if is_string definition.kind then l.dumps normalized else normalized)
