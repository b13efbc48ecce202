-- ===== src/Tests/Registries.antt =====
-- Runs of the tool manager.
use jb_mesh.Base.Text.{has_prefix, contains, is_empty, trim_space, same, lit, Text}
use jb_mesh.Base.{false, ◌∷◌, List, true, [], ◌≡◌, refl, none, some}
use jb_mesh.Base.Result.{ok}
use jb_mesh.Base.Dict.{lookup}
use jb_mesh.Manifest.{apply_defaults}
use jb_mesh.Tests.Machines.{machine, calculator}
use jb_mesh.Tools.Manager.Action.{after, cleaned_after}
use jb_mesh.Tools.Manager.Source.{load_manifest, start_dir, from_home, resolve_tool_source}
use jb_mesh.Tools.Manager.Registry.{
  Manager, Tool, Config, install, prepare_at, fetch, not_installed, loaded_tool, new_manager,
}
use jb_mesh.Tools.Manager.Registered.{IsRegistry, Reachable-IsRegistry, fresh, installed_from}
use jb_mesh.Tools.Manager.Root.{IsNearest, resolve_tool_source-IsNearest}

abbrev settings : Config
settings = record { tools_dir = lit "/t"; envs_dir = lit "/e"; conda_backend = lit "micromamba" }

abbrev calc : Tool
calc = loaded_tool (lit "/t/calc") none calculator

abbrev with_calc : Manager (List Text)
with_calc = record { tools = (lit "calc", calc) ∷ []; world = [] }

Reachable-IsRegistry_example :
    IsRegistry (install machine settings (lit "/src/calc") (new_manager [])).0.tools
Reachable-IsRegistry_example =
    Reachable-IsRegistry machine settings (installed_from (fresh []) (lit "/src/calc"))

install_test :
    (install machine settings (lit "/src/calc") (new_manager [])).1
    ≡ ok (
        loaded_tool
          (lit "/t/calc")
          (some (record { handle = 1; is_new = true; is_goomba = false }))
          calculator)
unfolding install fetch prepare_at after cleaned_after not_installed machine load_manifest
    has_prefix trim_space contains apply_defaults same lookup
install_test = refl

start_test :
    start_dir machine (lit "/src/calc") (machine.stat (lit "/src/calc") []) ≡ ok (lit "/src/calc")
unfolding machine contains
start_test = refl

abs_test : machine.abs (from_home machine (lit "/src/calc")) ≡ some (lit "/src/calc")
unfolding machine
abs_test = refl

trim_test : is_empty (trim_space (lit "/src/calc")) ≡ false
unfolding trim_space
trim_test = refl

resolve_tool_source-IsNearest_example :
    IsNearest machine [] (lit "/src/calc") (resolve_tool_source machine (lit "/src/calc") [])
unfolding machine
resolve_tool_source-IsNearest_example =
    resolve_tool_source-IsNearest machine (lit "/src/calc") [] (lit "/src/calc") (lit "/src/calc")
      trim_test abs_test start_test
