-- ===== src/Cli/Preflight.antt =====
-- cmd/jb-mesh/preflight.go: the checks of a tool before its release. What Python and the file system
-- answer is an argument.
pub mod Parity
use jb_mesh.Base.{
  false, ◌↔◌, inl, ◌∙◌, All-weaken, ap, inr, ◌||◌, sym, arith, Bool-cases, All, ◌≡◌, true, refl,
  String, List, length, [], if◌then◌else◌, is_some, any, none, ◌++◌, some, Option, ℕ, not, Bool,
  map, ◌∷◌,
}
use jb_mesh.Base.Text.{place, text_ltb, lit, trim_space, sort_strings, is_empty, Text, same}
use jb_mesh.Base.Result.{ok, ◌>>◌, Result, err, guard}
use jb_mesh.Base.Dict.{lookup, Dict}
use jb_mesh.Manifest.{
  Manifest, Health, Setup, apply_defaults, ManifestError, name_required, version_required,
}
use jb_mesh.Tools.Settings.{ToolConfig, ConfigParam}

pub data Status : Type 0 where
  pass fail warn : Status

-- What the message of a check says
pub data Message : Type 0 where
  loaded : Text → Text → Message
  failed missing_entrypoint entrypoint_found : Text → Message
  methods_found agree keys_defined : ℕ → Message
  top_level_import no_required skipped : Message
  missing_in_code missing_in_manifest missing_in_schema : List Text → Message
  hook_exists hook_not_found path_kept : Text → Message

-- `preflightCheck`
pub record PreflightCheck : Type 0 where
  pub name : Text
  pub status : Status
  pub message : Message

-- `pythonProbe`
pub record PythonProbe : Type 0 where
  pub methods : List Text
  pub function_names : List Text
  pub top_level_jumpboot : Bool

abbrev pub is_member : Text → List Text → Bool
is_member s ss = any (same s) ss

-- `diffStrings`
unfoldable pub diff_strings : List Text → List Text → List Text
unfolding same
diff_strings [] b = []
diff_strings (s ∷ a) b = let rest = diff_strings a b in if is_member s b then rest else s ∷ rest

-- `sortedKeys`
unfoldable pub sorted_keys : List (Text × Bool) → List Text
unfolding sort_strings
sorted_keys methods = sort_strings (map (λ m. m.0) methods)

abbrev check : String → Status → Message → PreflightCheck
check name status message = record { name = lit name; status = status; message = message }

abbrev missing_check : (List Text → Message) → List Text → List PreflightCheck
missing_check message [] = []
missing_check message (s ∷ ss) = check "method-parity" fail (message (s ∷ ss)) ∷ []

or_agree : ℕ → List PreflightCheck → List PreflightCheck
or_agree count [] = check "method-parity" pass (agree count) ∷ []
or_agree count (c ∷ cs) = c ∷ cs

parity_verdict : ℕ → List Text → List Text → List PreflightCheck
unfolding or_agree
parity_verdict count in_code in_manifest =
    or_agree count
      (missing_check missing_in_code in_code ++ missing_check missing_in_manifest in_manifest)

unfoldable pub parity : List Text → List Text → List PreflightCheck
unfolding diff_strings parity_verdict
parity manifest_methods python_methods =
    parity_verdict (length manifest_methods) (diff_strings manifest_methods python_methods)
      (diff_strings python_methods manifest_methods)

-- `compareMethodSets`
unfoldable pub compare_method_sets : Manifest → PythonProbe → List PreflightCheck
unfolding parity sorted_keys
compare_method_sets manifest probe =
    parity (sorted_keys manifest.rpc_methods) (sort_strings probe.methods)

hook_check : String → Text → List Text → List PreflightCheck
unfolding same
hook_check name [] functions = []
hook_check name (c ∷ method) functions =
    if is_member (c ∷ method) functions
    then check name pass (hook_exists (c ∷ method)) ∷ []
    else check name fail (hook_not_found (c ∷ method)) ∷ []

abbrev health_method : Option Health → Text
health_method none = []
health_method (some health) = health.method

abbrev setup_method : Option Setup → Text
setup_method none = []
setup_method (some setup) = setup.method

-- `validateManifestHooks`
unfoldable pub validate_manifest_hooks : Manifest → PythonProbe → List PreflightCheck
unfolding hook_check
validate_manifest_hooks manifest probe =
    hook_check "health-hook" (health_method manifest.health) probe.function_names
    ++ hook_check "setup-hook" (setup_method manifest.setup) probe.function_names

undeclared : List Text → Dict ConfigParam → List Text
unfolding lookup
undeclared [] schema = []
undeclared (key ∷ keys) schema =
    let rest = undeclared keys schema in if is_some (lookup key schema) then rest else key ∷ rest

schema_check : ℕ → List Text → PreflightCheck
schema_check required [] = check "config-schema" pass (keys_defined required)
schema_check required (key ∷ keys) = check "config-schema" fail (missing_in_schema (key ∷ keys))

required_check : List Text → Dict ConfigParam → PreflightCheck
unfolding schema_check undeclared
required_check [] schema = check "config-schema" pass no_required
required_check (key ∷ keys) schema =
    schema_check (length (key ∷ keys)) (undeclared (key ∷ keys) schema)

-- `validateConfigSchema`, of the configuration that the manifest declares
unfoldable pub validate_config_schema : Option ToolConfig → List PreflightCheck
unfolding required_check
validate_config_schema none = check "config-schema" pass no_required ∷ []
validate_config_schema (some config) = required_check config.required config.schema ∷ []

-- What `loadManifest` does with the manifest that it has parsed
unfoldable pub load_manifest : Manifest → Result ManifestError Manifest
unfolding apply_defaults
load_manifest parsed =
    let manifest = apply_defaults parsed in
    guard (not (is_empty (trim_space manifest.name))) name_required
    >> guard (not (is_empty (trim_space manifest.version))) version_required
    >> ok manifest

-- What the steps of a preflight meet: the manifest with its configuration, the entrypoint, the
-- inspection of the code, the check of the environment with its directory if it was made, and the
-- check of the import
pub record Answers : Type 0 where
  pub manifest : Result Text (Manifest × Option ToolConfig)
  pub has_entrypoint : Bool
  pub probe : Result Text PythonProbe
  pub install_check : PreflightCheck
  pub venv_dir : Option Text
  pub import_check : PreflightCheck

after_venv : Answers → Bool → Option Text → List PreflightCheck
after_venv answers keep_venv none = answers.install_check ∷ []
after_venv answers keep_venv (some dir) =
    answers.install_check
    ∷ ((if keep_venv then check "venv-path" pass (path_kept dir) ∷ [] else [])
        ++ (answers.import_check ∷ []))

venv_checks : Answers → Bool → Bool → List PreflightCheck
unfolding after_venv
venv_checks answers keep_venv skip_install =
    if skip_install
    then check "venv" warn skipped ∷ []
    else after_venv answers keep_venv answers.venv_dir

code_checks :
    Manifest
    → Option ToolConfig
    → Result Text PythonProbe
    → List PreflightCheck
    → List PreflightCheck
unfolding compare_method_sets validate_manifest_hooks validate_config_schema
code_checks manifest config (err e) rest = check "python-ast" fail (failed e) ∷ []
code_checks manifest config (ok probe) rest =
    check "python-ast" pass (methods_found (length probe.methods))
    ∷ ((if probe.top_level_jumpboot then check "jumpboot-import" warn top_level_import ∷ [] else [])
        ++ (compare_method_sets manifest probe
            ++ (validate_manifest_hooks manifest probe ++ (validate_config_schema config ++ rest))))

entry_checks : Manifest → Bool → List PreflightCheck → List PreflightCheck
entry_checks manifest has_entrypoint rest =
    if has_entrypoint
    then check "entrypoint" pass (entrypoint_found manifest.runtime.entrypoint) ∷ rest
    else check "entrypoint" fail (missing_entrypoint manifest.runtime.entrypoint) ∷ []

manifest_checks :
    Answers → Bool → Bool → Result Text (Manifest × Option ToolConfig) → List PreflightCheck
unfolding entry_checks code_checks venv_checks
manifest_checks answers keep_venv skip_install (err e) = check "manifest" fail (failed e) ∷ []
manifest_checks answers keep_venv skip_install (ok (manifest, config)) =
    check "manifest" pass (loaded manifest.name manifest.version)
    ∷ entry_checks manifest answers.has_entrypoint
        (code_checks manifest config answers.probe (venv_checks answers keep_venv skip_install))

-- `runPreflight`
unfoldable pub run_preflight : Answers → Bool → Bool → List PreflightCheck
unfolding manifest_checks
run_preflight answers keep_venv skip_install =
    manifest_checks answers keep_venv skip_install answers.manifest
