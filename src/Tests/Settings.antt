-- ===== src/Tests/Settings.antt =====
-- Tool configuration and manifests on concrete values.
use jb_mesh.Base.{false, not, [], ◌≡◌, some, Bool, refl, ◌↔◌, none, ◌∷◌, Option}
use jb_mesh.Base.Text.{same, Text, has_byte, lit}
use jb_mesh.Base.Result.{ok, err}
use jb_mesh.Base.Dict.{lookup, Dict, insert}
use jb_mesh.Base.Int.{pos}
use jb_mesh.Base.Json.{Json, number, string}
use jb_mesh.Tools.Settings.{
  ConfigParam, ToolConfig, wrong_type, resolve, config_defaults, overlay, defaults,
}
use jb_mesh.Tools.Settings.Resolved.{IsConfigured, or_else, resolve-IsConfigured}
use jb_mesh.Manifest.{Manifest, IsFilled, apply_defaults, apply_defaults_iff}

abbrev volume : ConfigParam
volume = record { type_name = lit "int"; default = some (number (lit "3")); enum = [] }

abbrev config : Option ToolConfig
config = some (record { schema = (lit "volume", volume) ∷ []; required = lit "volume" ∷ [] })

abbrev integral : Text → Bool
integral n = not (has_byte 46 n)

abbrev show : Json → Text
show (string s) = s
show (number n) = n
show _ = []

abbrev saved : Dict Json
saved = (lit "volume", number (lit "5")) ∷ []

resolve_test : resolve integral show config (some saved) [] ≡ ok saved
unfolding resolve overlay defaults insert lookup same
resolve_test = refl

resolve_wrong_test :
    resolve integral show config (some []) ((lit "volume", number (lit "5.5")) ∷ [])
    ≡ err (wrong_type (lit "volume"))
unfolding resolve overlay defaults insert lookup same
resolve_wrong_test = refl

resolve-IsConfigured_example :
    IsConfigured integral show config saved
    × ((key : Text)
        → lookup key saved
          ≡ or_else
              (lookup key [])
              (or_else (lookup key saved) (lookup key (config_defaults config))))
resolve-IsConfigured_example =
    resolve-IsConfigured integral show config (some saved) [] refl resolve_test

abbrev bare : Manifest
bare = record {
  name = lit "db";
  version = lit "v1.0.0";
  runtime = record {
    python = lit "3.11";
    requirements = [];
    packages = [];
    conda_packages = [];
    mode = [];
    transport = [];
    entrypoint = [];
    startup_timeout = pos 0;
  };
  rpc_transport = [];
  rpc_methods = (lit "run", false) ∷ [];
  health = some (record { method = []; interval = pos 5; failure_threshold = pos 0 });
  setup = none;
}

apply_defaults_iff_example :
    IsFilled (apply_defaults bare) × ((apply_defaults bare ≡ bare) ↔ IsFilled bare)
apply_defaults_iff_example = apply_defaults_iff bare
