-- ===== src/Tools/Settings.antt =====
-- pkg/tools/toolconfig.go: the configuration of a tool, merged from three layers and checked against
-- the manifest. Values are JSON values. Whether a number is integral, and how `%v` prints a value,
-- are Go's to say, and parameters here.
pub mod Resolved
use jb_mesh.Base.{Bool, true, if◌then◌else◌, List, false, ◌∷◌, some, [], is_some, none, Option, any}
use jb_mesh.Base.Result.{◌>>◌, guard, ok, ◌>>=◌, Result, err}
use jb_mesh.Base.Text.{same, lit, is_empty, Text}
use jb_mesh.Base.Dict.{lookup, insert, Dict}
use jb_mesh.Base.Json.{Json, null, boolean, number, string, array, object}

-- `ConfigParam`; a missing default is `none`
pub record ConfigParam : Type 0 where
  pub type_name : Text
  pub default : Option Json
  pub enum : List Json

-- `ToolConfig` of the manifest
pub record ToolConfig : Type 0 where
  pub schema : Dict ConfigParam
  pub required : List Text

pub data ConfigError : Type 0 where
  not_loaded : ConfigError
  required_missing unknown_field wrong_type unknown_type not_allowed : Text → ConfigError

-- Layer 1 of `Resolve`
unfoldable pub defaults : Dict ConfigParam → Dict Json
defaults [] = []
defaults ((key, param) ∷ schema) = elim param.default [
  | none ↦ defaults schema
  | some v ↦ insert key v (defaults schema)
]

-- Layers 2 and 3 of `Resolve`: the entries of one map set in another
unfoldable pub overlay : Dict Json → Dict Json → Dict Json
overlay base [] = base
overlay base ((key, v) ∷ values) = insert key v (overlay base values)

check_required : List Text → Dict Json → Result ConfigError (Unit {0})
check_required [] values = ok tt
check_required (key ∷ keys) values =
    guard (is_some (lookup key values)) (required_missing key) >> check_required keys values

abbrev pub is_text : Json → Bool
is_text (string s) = true
is_text _ = false

abbrev pub is_number : Json → Bool
is_number (number n) = true
is_number _ = false

abbrev pub is_boolean : Json → Bool
is_boolean (boolean b) = true
is_boolean _ = false

abbrev pub config_defaults : Option ToolConfig → Dict Json
config_defaults none = []
config_defaults (some config) = defaults config.schema

abbrev pub loaded : Option (Dict Json) → Result ConfigError (Dict Json)
loaded none = err not_loaded
loaded (some values) = ok values

module _ (is_integral : Text → Bool) (show : Json → Text) where
  abbrev pub is_integer : Json → Bool
  is_integer (number n) = is_integral n
  is_integer _ = false

  -- `checkType`
  unfoldable pub check_type : Text → Json → Text → Result ConfigError (Unit {0})
  check_type key v name =
      if same name (lit "string")
      then guard (is_text v) (wrong_type key)
      else if same name (lit "int")
      then guard (is_integer v) (wrong_type key)
      else if same name (lit "float")
      then guard (is_number v) (wrong_type key)
      else if same name (lit "bool")
      then guard (is_boolean v) (wrong_type key)
      else if is_empty name
      then ok tt
      else err (unknown_type key)

  abbrev pub is_allowed : Json → List Json → Bool
  is_allowed v [] = true
  is_allowed v (a ∷ bs) = any (λ b. same (show v) (show b)) (a ∷ bs)

  -- `validateParam`
  unfoldable pub validate_param : Text → Json → ConfigParam → Result ConfigError (Unit {0})
  unfolding check_type
  validate_param key v param =
      check_type key v param.type_name >> guard (is_allowed v param.enum) (not_allowed key)

  check_value : Text → Json → Option ConfigParam → Result ConfigError (Unit {0})
  unfolding validate_param
  check_value key v none = err (unknown_field key)
  check_value key v (some param) = validate_param key v param

  check_values : Dict ConfigParam → Dict Json → Result ConfigError (Unit {0})
  unfolding check_value
  check_values schema [] = ok tt
  check_values schema ((key, v) ∷ values) =
      check_value key v (lookup key schema) >> check_values schema values

  -- `Validate`; `none` is a manifest without a schema
  unfoldable pub validate : Option ToolConfig → Dict Json → Result ConfigError (Unit {0})
  unfolding check_required check_values
  validate none values = ok tt
  validate (some config) values =
      check_required config.required values >> check_values config.schema values

  -- `Resolve`; `persisted` is what `Load` gives, `none` if it fails
  unfoldable pub resolve :
      Option ToolConfig → Option (Dict Json) → Dict Json → Result ConfigError (Dict Json)
  unfolding validate
  resolve config persisted overrides = loaded persisted >>= λ saved.
      let result = overlay (overlay (config_defaults config) saved) overrides in
      (validate config result >> ok result)
