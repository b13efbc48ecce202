-- ===== src/Tools/Manager/Registry.antt =====
-- pkg/tools/manager.go: the map of the installed tools, and the operations that change it. The
-- manager's state is that map and the state of the machine. A tool is a pointer that the map and its
-- users share: a change of the tool is a change of the map's entry.
use jb_mesh.Base.Text.{same, has_prefix, Text, lit}
use jb_mesh.Base.Dict.{Dict, delete, insert, lookup}
use jb_mesh.Base.{
  if◌then◌else◌, Bool, true, false, not, ◌&&◌, ◌||◌, Option, none, some, List, ◌∷◌, [],
}
use jb_mesh.Base.Result.{ok, err, Result}
use jb_mesh.Manifest.{Manifest, Runtime}
use jb_mesh.Tools.Executor.{Status, stopped}
use jb_mesh.Tools.Manager.Host.{Host, Environment}
use jb_mesh.Tools.Manager.Action.{
  Action, ManagerError, not_found, already_installed, name_changed, pull_failed, not_removed,
  unreadable, after, ◌>>=◌, ◌>>◌, pure, done, cleaned,
}
use jb_mesh.Tools.Manager.Source.{install_local, install_git, load_manifest, remove, ask}
use jb_mesh.Tools.Manager.Environment.{create_environment, install_packages, run_setup}

pub record Config : Type 0 where
  pub tools_dir : Text
  pub envs_dir : Text
  pub conda_backend : Text

pub record Tool : Type 0 where
  pub name : Text
  pub path : Text
  pub manifest : Manifest
  pub env : Option Environment
  pub status : Status
  pub health_status : Text

pub record Manager (W : Type 0) : Type 0 where
  pub tools : Dict Tool
  pub world : W

-- `NewManager`
abbrev pub new_manager : {W : Type 0} → W → Manager W
new_manager w = record { tools = []; world = w }

abbrev pub loaded_tool : Text → Option Environment → Manifest → Tool
loaded_tool path env manifest = record {
  name = manifest.name;
  path = path;
  manifest = manifest;
  env = env;
  status = stopped;
  health_status = [];
}

-- `stringSlicesEqual`
unfoldable pub string_slices_equal : List Text → List Text → Bool
string_slices_equal [] [] = true
string_slices_equal [] (t ∷ ts) = false
string_slices_equal (s ∷ ss) [] = false
string_slices_equal (s ∷ ss) (t ∷ ts) = same s t && string_slices_equal ss ts

-- `packagesChanged`
unfoldable pub packages_changed : Runtime → Runtime → Bool
unfolding string_slices_equal
packages_changed old new =
    not (same old.python new.python)
    || not (string_slices_equal old.packages new.packages)
    || not (string_slices_equal old.conda_packages new.conda_packages)
    || not (same old.requirements new.requirements)

-- A source that is a path
unfoldable pub is_local : Text → Bool
is_local source =
    has_prefix source (lit "/") || has_prefix source (lit "./") || has_prefix source (lit "~")

unfoldable pub not_installed : Manifest → Option Tool → Result ManagerError (Unit {0})
not_installed manifest none = ok tt
not_installed manifest (some tool) = err (already_installed manifest.name tool.path)

unfoldable pub load_one : Text → Bool → Result ManagerError Manifest → Dict Tool → Dict Tool
load_one path false r tools = tools
load_one path true (err e) tools = tools
load_one path true (ok manifest) tools = insert manifest.name (loaded_tool path none manifest) tools

module _ {W : Type 0} (host : Host W) (config : Config) where
  unfoldable pub fetch : Text → Action W Text
  unfolding install_local install_git is_local
  fetch source =
      if is_local source
      then install_local host config.tools_dir source
      else install_git host config.tools_dir source

  -- `Install`, once the sources lie at their path, up to the change of the map
  unfoldable pub prepare_at : Dict Tool → Text → Action W Tool
  unfolding load_manifest create_environment install_packages run_setup not_installed
  prepare_at tools path = do
    manifest ← cleaned (remove host path) (ask host (load_manifest host path))
    cleaned (remove host path) (ask host (λ w. not_installed manifest (lookup manifest.name tools)))
    env ←
        cleaned (remove host path)
          (create_environment host config.conda_backend config.envs_dir manifest)
    install_packages host env manifest.runtime path true
    cleaned (remove host path) (run_setup host env path manifest.runtime manifest.setup)
    pure (loaded_tool path (some env) manifest)

  abbrev pub entered :
      Manager W → W × Result ManagerError Tool → Manager W × Result ManagerError Tool
  entered m (w, ok tool) =
      (record m { world = w; tools = insert tool.manifest.name tool m.tools }, ok tool)
  entered m (w, err e) = (record m { world = w }, err e)

  -- `Install`
  unfoldable pub install : Text → Manager W → Manager W × Result ManagerError Tool
  unfolding fetch prepare_at
  install source m = entered m (after (fetch source m.world) (prepare_at m.tools))

  -- `gitPullIfCheckout` for a link, and `gitPull` for a directory
  pull_source : Text → Option Text → Action W (Unit {0})
  pull_source path none w = done pull_failed (host.pull path w)
  pull_source path (some target) w =
      if host.in_checkout target w then done pull_failed (host.pull target w) else (w, ok tt)

  unfoldable pub same_name : Tool → Manifest → Result ManagerError (Unit {0})
  same_name tool manifest =
      if same manifest.name tool.manifest.name
      then ok tt
      else err (name_changed tool.manifest.name manifest.name)

  -- `Update` up to the change of the manifest
  unfoldable pub refresh : Tool → Action W Manifest
  unfolding pull_source load_manifest same_name
  refresh tool = do
    (λ w. pull_source tool.path (host.read_link tool.path w) w)
    manifest ← ask host (load_manifest host tool.path)
    ask host (λ w. same_name tool manifest)
    pure manifest

  build : Bool → Text → Manifest → Action W (Option Environment)
  unfolding create_environment install_packages
  build clean path manifest = do
    env ← create_environment host config.conda_backend config.envs_dir manifest
    install_packages host env manifest.runtime path clean
    pure (some env)

  -- The new environment of `Update`, if there is one
  unfoldable pub rebuild : Bool → Tool → Manifest → Action W (Option Environment)
  unfolding build packages_changed
  rebuild clean tool manifest =
      if clean || packages_changed tool.manifest.runtime manifest.runtime
      then build clean tool.path manifest
      else pure none

  abbrev pub with_env : Tool → Option Environment → Tool
  with_env tool none = tool
  with_env tool (some env) = record tool { env = some env }

  abbrev pub rebuilt :
      Text
      → Tool
      → Manager W
      → W × Result ManagerError (Option Environment)
      → Manager W × Result ManagerError Tool
  rebuilt name tool m (w, ok env) = (
    record m { world = w; tools = insert name (with_env tool env) m.tools },
    ok (with_env tool env),
  )
  rebuilt name tool m (w, err e) = (record m { world = w; tools = insert name tool m.tools }, err e)

  unfoldable pub refreshed :
      Text
      → Bool
      → Tool
      → Manager W
      → W × Result ManagerError Manifest
      → Manager W × Result ManagerError Tool
  unfolding rebuild
  refreshed name clean tool m (w, ok manifest) =
      rebuilt name (record tool { manifest = manifest }) m (rebuild clean tool manifest w)
  refreshed name clean tool m (w, err e) = (record m { world = w }, err e)

  unfoldable pub update_found :
      Text → Bool → Manager W → Option Tool → Manager W × Result ManagerError Tool
  unfolding refreshed refresh
  update_found name clean m none = (m, err (not_found name))
  update_found name clean m (some tool) = refreshed name clean tool m (refresh tool m.world)

  -- `Update`
  unfoldable pub update : Text → Bool → Manager W → Manager W × Result ManagerError Tool
  unfolding update_found
  update name clean m = update_found name clean m (lookup name m.tools)

  abbrev pub without_env : Bool → Text → W → W
  without_env remove_env name w =
      if remove_env
      then remove host (host.join (host.join config.envs_dir (lit "venvs")) name) w
      else w

  abbrev pub uninstalled :
      Text → Bool → Manager W → W × Bool → Manager W × Result ManagerError (Unit {0})
  uninstalled name remove_env m (w, false) = (record m { world = w }, err not_removed)
  uninstalled name remove_env m (w, true) =
      (record m { world = without_env remove_env name w; tools = delete name m.tools }, ok tt)

  unfoldable pub uninstall_found :
      Text → Bool → Manager W → Option Tool → Manager W × Result ManagerError (Unit {0})
  uninstall_found name remove_env m none = (m, err (not_found name))
  uninstall_found name remove_env m (some tool) =
      uninstalled name remove_env m (host.remove_all tool.path m.world)

  -- `Uninstall`
  unfoldable pub uninstall : Text → Bool → Manager W → Manager W × Result ManagerError (Unit {0})
  unfolding uninstall_found
  uninstall name remove_env m = uninstall_found name remove_env m (lookup name m.tools)

  is_directory : Option Bool → Bool
  is_directory none = false
  is_directory (some is_dir) = is_dir

  unfoldable pub load_entries : List Text → W → Dict Tool → Dict Tool
  unfolding load_one load_manifest is_directory
  load_entries [] w tools = tools
  load_entries (entry ∷ entries) w tools =
      let path = host.join config.tools_dir entry in
      load_entries entries w
        (load_one path (is_directory (host.stat path w)) (load_manifest host path w) tools)

  unfoldable pub load_listed :
      Manager W → Result Bool (List Text) → Manager W × Result ManagerError (Unit {0})
  unfolding load_entries
  load_listed m (ok entries) = (record m { tools = load_entries entries m.world m.tools }, ok tt)
  load_listed m (err true) = (m, ok tt)
  load_listed m (err false) = (m, err unreadable)

  -- `LoadAll`
  unfoldable pub load_all : Manager W → Manager W × Result ManagerError (Unit {0})
  unfolding load_listed
  load_all m = load_listed m (host.read_dir config.tools_dir m.world)

  install_new : Tool → Environment → Action W (Unit {0})
  unfolding install_packages
  install_new tool env =
      if env.is_new
      then install_packages host env tool.manifest.runtime tool.path false
      else pure tt

  ensure_missing : Tool → Option Environment → Action W Tool
  unfolding create_environment install_new
  ensure_missing tool (some env) w = (w, ok tool)
  ensure_missing tool none w =
      after (create_environment host config.conda_backend config.envs_dir tool.manifest w)
        (λ env. do install_new tool env; pure (record tool { env = some env }))

  -- `EnsureEnvironment`: the tool with its environment
  unfoldable pub ensure_environment : Tool → Action W Tool
  unfolding ensure_missing
  ensure_environment tool = ensure_missing tool tool.env
