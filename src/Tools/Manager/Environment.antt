-- ===== src/Tools/Manager/Environment.antt =====
-- pkg/tools/manager.go: the Python environment of a tool, its packages, and its setup method; and
-- the bundled Python package of pkg/sdk/sdk.go.
use jb_mesh.Base.Text.{trim_space, contains, same, is_empty, Text, lit}
use jb_mesh.Tools.Manager.Action.{
  setup_failed, import_failed, no_venv, no_base, no_queue, no_module, no_repl, entrypoint_failed,
  requirements_failed, pip_failed, package_failed, no_conda, bad_backend, setup_error, Action,
  ManagerError, ◌>>=◌, ◌>>◌, pure, fail, produced, done, closing,
}
use jb_mesh.Base.Result.{err, ok, Result}
use jb_mesh.Base.{
  if◌then◌else◌, ℕ, zero, suc, Bool, true, false, not, ◌&&◌, ◌||◌, Option, none, some, ◌++◌, List,
  ◌∷◌, [],
}
use jb_mesh.Base.Int.{ℤ, pos, negsuc}
use jb_mesh.Manifest.{Manifest, Runtime, Setup}
use jb_mesh.Tools.Manager.Host.{Host, Environment}

-- `replStartupTimeout`, in seconds
unfoldable pub repl_startup_timeout : ℤ → ℤ
repl_startup_timeout (pos zero) = pos 60
repl_startup_timeout (pos (suc n)) = pos (suc n)
repl_startup_timeout (negsuc n) = pos 60

abbrev is_nil : List Text → Bool
is_nil [] = true
is_nil (x ∷ xs) = false

-- `conda_backend`: whether it is goomba
unfoldable pub backend : Text → Option Bool
backend name =
    if is_empty name || same name (lit "micromamba")
    then some false
    else if same name (lit "goomba")
    then some true
    else none

-- `SDKPackageSpecs`
unfoldable pub is_sdk_package : Text → Bool
is_sdk_package spec =
    same spec (lit "jb-service")
    || same spec (lit "git+https://github.com/richinsley/jb-service.git")
    || same spec
        (lit "git+https://github.com/richinsley/jb-mesh.git#subdirectory=sdk/python/jb-service")

-- `RewritePythonSDKPackages`
unfoldable pub rewrite_packages : Option Text → List Text → List Text
unfolding is_sdk_package
rewrite_packages none packages = packages
rewrite_packages (some path) [] = []
rewrite_packages (some path) (spec ∷ packages) =
    let rest = rewrite_packages (some path) packages in
    if is_sdk_package (trim_space spec) then path ∷ rest else spec ∷ rest

-- A setup that answered `"ok": false`
abbrev pub setup_answer : Text → Result ManagerError (Unit {0})
setup_answer answer =
    if contains answer (lit "\"ok\": false") || contains answer (lit "\"ok\":false")
    then err (setup_error answer)
    else ok tt

abbrev pub import_code : Text
import_code =
    lit
      "\nimport builtins\nif hasattr(builtins, '__jb_call__'):\n    __jb_call__ = builtins.__jb_call__\n"

module _ {W : Type 0} (host : Host W) where
  abbrev pub run_code : Text → Text
  run_code entrypoint =
      lit "\n__name__ = \"__main__\"\nexec(open(" ++ (host.quote entrypoint ++ lit ").read())\n")

  -- `buildREPLCallExpr` without parameters
  unfoldable pub call_code : Text → Text
  call_code method =
      lit "__jb_call__("
      ++ (host.quote method
          ++ (lit ", __import__(\"json\").loads(" ++ (host.quote (lit "{}") ++ lit "))")))

  -- The directories from one up to the root
  unfoldable pub ancestors : ℕ → Text → List Text
  ancestors zero path = []
  ancestors (suc n) path =
      let rest = ancestors n (host.dir path) in
      path ∷ (if same (host.dir path) path then [] else rest)

  unfoldable pub first_sdk : W → List Text → Option Text
  first_sdk w [] = none
  first_sdk w (path ∷ paths) =
      let candidate = host.join path (lit "sdk/python/jb-service") in
      let rest = first_sdk w paths in
      elim (host.stat (host.join candidate (lit "pyproject.toml")) w) [
        | none ↦ rest
        | some found ↦ some candidate
      ]

  all_ancestors : Option Text → List Text
  unfolding ancestors
  all_ancestors none = []
  all_ancestors (some path) = ancestors (suc (host.depth path)) path

  above_file : Option Text → Option Text
  above_file none = none
  above_file (some path) = some (host.dir path)

  -- `LocalPythonSDKPath`; a candidate that comes a second time makes no difference
  unfoldable pub local_sdk_path : W → Option Text
  unfolding first_sdk all_ancestors above_file
  local_sdk_path w =
      first_sdk w (all_ancestors host.work_dir ++ all_ancestors (above_file host.caller_file))

  create_from : Text → Text → Option Bool → Action W Environment
  create_from envs_dir python none w = (w, err bad_backend)
  create_from envs_dir python (some goomba) w =
      produced no_base (host.create_base goomba (lit "base-" ++ python) envs_dir python w)

  -- `getOrCreateBase`
  unfoldable pub get_or_create_base : Text → Text → Text → Action W Environment
  unfolding backend create_from
  get_or_create_base conda_backend envs_dir python =
      create_from envs_dir python (backend conda_backend)

  -- `createEnvironment`
  unfoldable pub create_environment : Text → Text → Manifest → Action W Environment
  unfolding get_or_create_base
  create_environment conda_backend envs_dir manifest = do
    base ← get_or_create_base conda_backend envs_dir manifest.runtime.python
    (if base.is_goomba && not (is_nil manifest.runtime.conda_packages)
        then fail no_conda
        else pure tt)
    (λ w.
        produced no_venv
          (host.create_venv base (host.join (host.join envs_dir (lit "venvs")) manifest.name) w))

  -- The loop over the conda packages
  unfoldable pub install_conda_packages : Environment → List Text → Action W (Unit {0})
  install_conda_packages env [] = pure tt
  install_conda_packages env (spec ∷ packages) = do
    (λ w. done package_failed (host.install_conda env spec w))
    install_conda_packages env packages

  install_pip_packages : Environment → Bool → List Text → Action W (Unit {0})
  unfolding local_sdk_path rewrite_packages
  install_pip_packages env no_cache [] w = (w, ok tt)
  install_pip_packages env no_cache (spec ∷ packages) w =
      done pip_failed
        (host.install_pip env (rewrite_packages (local_sdk_path w) (spec ∷ packages)) no_cache w)

  requirements_at : Environment → Text → W → Option Bool → W × Result ManagerError (Unit {0})
  requirements_at env path w none = (w, ok tt)
  requirements_at env path w (some found) =
      done requirements_failed (host.install_requirements env path w)

  install_requirements : Environment → Text → Text → Action W (Unit {0})
  unfolding requirements_at
  install_requirements env tool_path [] w = (w, ok tt)
  install_requirements env tool_path (c ∷ s) w =
      let path = host.join tool_path (c ∷ s) in requirements_at env path w (host.stat path w)

  -- `installPackages`
  unfoldable pub install_packages : Environment → Runtime → Text → Bool → Action W (Unit {0})
  unfolding install_conda_packages install_pip_packages install_requirements
  install_packages env runtime tool_path no_cache = do
    install_conda_packages env runtime.conda_packages
    install_pip_packages env no_cache runtime.packages
    install_requirements env tool_path runtime.requirements

  abbrev pub execute : ManagerError → ℕ → Text → ℤ → Action W Text
  execute e repl code timeout w = produced e (host.execute repl code timeout w)

  -- What runs in the REPL of a setup
  setup_in_repl : Text → Runtime → Setup → ℕ → Action W (Unit {0})
  unfolding repl_startup_timeout call_code
  setup_in_repl entrypoint runtime setup repl = do
    let timeout = repl_startup_timeout runtime.startup_timeout
    _ ← execute entrypoint_failed repl (run_code entrypoint) timeout
    _ ← execute import_failed repl import_code timeout
    answer ← execute setup_failed repl (call_code setup.method) setup.timeout
    (λ w. (w, setup_answer answer))

  -- `runSetupRepl`
  unfoldable pub run_setup_repl : Environment → Text → Runtime → Setup → Action W (Unit {0})
  unfolding setup_in_repl
  run_setup_repl env entrypoint runtime setup = do
    repl ← (λ w. produced no_repl (host.open_repl env w))
    closing (host.close_repl repl) (setup_in_repl entrypoint runtime setup repl)

  abbrev pub loaded : Option ℕ → Result ManagerError ℕ
  loaded none = err no_module
  loaded (some module_id) = ok module_id

  -- `runSetupMsgpack`
  unfoldable pub run_setup_msgpack : Environment → Text → Setup → Action W (Unit {0})
  run_setup_msgpack env entrypoint setup = do
    module_id ← (λ w. (w, loaded (host.load_module entrypoint w)))
    queue ← (λ w. produced no_queue (host.open_queue env module_id w))
    closing (host.close_queue queue)
        (λ w. done setup_failed (host.call_queue queue setup.method setup.timeout w))

  -- `runSetup`, for a manifest that has a setup
  unfoldable pub run_setup : Environment → Text → Runtime → Option Setup → Action W (Unit {0})
  unfolding run_setup_repl run_setup_msgpack
  run_setup env tool_path runtime none = pure tt
  run_setup env tool_path runtime (some setup) =
      let entrypoint = host.join tool_path runtime.entrypoint in
      if same runtime.transport (lit "msgpack")
      then run_setup_msgpack env entrypoint setup
      else run_setup_repl env entrypoint runtime setup
