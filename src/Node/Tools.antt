-- ===== src/Node/Tools.antt =====
-- pkg/node/node.go: how a node installs, updates, configures and removes a tool: the composition of the
-- tool manager, the executor, the mesh client and the node's own subscriptions. A tool's fields
-- stand in two maps under its name: what the manager sets in the manager's, and what the executor
-- sets in the executor's. Log records of the calls are left out.
pub mod Uninstalled
use jb_mesh.Base.Text.{same, Text, lit}
use jb_mesh.Base.Dict.{delete, insert, lookup, adjust, Dict}
use jb_mesh.Base.{
  not, is_some, if◌then◌else◌, ℕ, Bool, true, false, Option, none, some, List, ◌∷◌, [], ◌++◌,
}
use jb_mesh.Base.Result.{ok, err, Result}
use jb_mesh.Base.Json.{Fields}
use jb_mesh.Mesh.Calls.{stream_subject, node_stream_subject}
use jb_mesh.Events.{
  Event, tool_installed, tool_started, tool_stopped, tool_removed, tool_configured,
}
use jb_mesh.Manifest.{Manifest}
use jb_mesh.Tools.Executor.{Executor, ToolError, Status, stopped, running, start, stop, force_kill}
use jb_mesh.Tools.Manager.Host.{Host}
use jb_mesh.Tools.Manager.Action.{ManagerError}
use jb_mesh.Tools.Manager.Registry.{Manager, Config, install, update, uninstall}
use jb_mesh.Mesh.{Mesh, MeshError, Nats, unregister_tool}
use jb_mesh.Tools.Executor as E
use jb_mesh.Tools.Manager.Registry as R
use jb_mesh.Mesh as M

-- `live` are the node's own subscriptions at NATS, and `streams` those it has noted for each tool.
pub record Node (W : Type 0) : Type 0 where
  pub node_name : Text
  pub manager : Manager W
  pub executor : Executor
  pub mesh : Mesh
  pub streams : Dict (List Text)
  pub live : List Text
  pub has_bus : Bool
  pub events : List Event

pub data NodeError : Type 0 where
  not_found no_methods no_subscription : Text → NodeError
  manager_failed : ManagerError → NodeError
  executor_failed : ToolError → NodeError
  mesh_failed : MeshError → NodeError

-- The subscriptions of the list without the first of that subject
unfoldable pub unsubscribe : Text → List Text → List Text
unsubscribe subject [] = []
unsubscribe subject (s ∷ live) =
    let rest = unsubscribe subject live in if same s subject then live else s ∷ rest

unfoldable pub unsubscribe_all : List Text → List Text → List Text
unfolding unsubscribe
unsubscribe_all [] live = live
unsubscribe_all (s ∷ subs) live = unsubscribe_all subs (unsubscribe s live)

abbrev pub noted : Option (List Text) → List Text
noted none = []
noted (some subs) = subs

-- The fields of a tool that the executor reads, as its manifest has them
abbrev pub from_manifest : Manifest → E.Tool → E.Tool
from_manifest manifest tool = record tool {
  persistent = same manifest.runtime.mode (lit "persistent");
  msgpack = same manifest.runtime.transport (lit "msgpack");
  has_health = is_some manifest.health;
}

abbrev pub stopped_tool : E.Tool
stopped_tool = record {
  persistent = false;
  msgpack = false;
  has_health = false;
  status = stopped;
  health_status = [];
  health_failures = 0;
}

abbrev pub method_names : List (Text × Bool) → List Text
method_names [] = []
method_names ((name, streams) ∷ methods) = name ∷ method_names methods

abbrev pub is_running_tool : Option E.Tool → Bool
is_running_tool none = false
is_running_tool (some tool) = elim tool.status [ running ↦ true | _ ↦ false ]

-- The loop of `registerStreamingSubjects`: the subscriptions at NATS, and those of the tool; the
-- loop ends at the first one that is refused.
unfoldable pub subscribe_streams :
    Nats
    → Text
    → Text
    → List (Text × Bool)
    → List Text
    → List Text
    → List Text × Result NodeError (List Text)
unfolding stream_subject node_stream_subject
subscribe_streams nats node tool [] live subs = (live, ok subs)
subscribe_streams nats node tool ((method, streams) ∷ methods) live subs =
    let first = stream_subject tool method in
    let second = node_stream_subject node tool method in
    let skipped = subscribe_streams nats node tool methods live subs in
    let taken =
      subscribe_streams nats node tool methods (live ++ first ∷ second ∷ [])
        (subs ++ first ∷ second ∷ []) in
    if not streams
    then skipped
    else if not (nats.subscribes first)
    then (live, err (no_subscription first))
    else if not (nats.subscribes second)
    then (live, err (no_subscription second))
    else taken

-- `Stop`, and `ForceKill` where it fails or takes too long
stop_hard : Bool → Text → Executor → Executor
unfolding stop force_kill
stop_hard timed_out name e =
    let (after_stop, r) = stop name e in
    if timed_out
    then (force_kill name e).0
    else elim r [ ok u ↦ after_stop | err x ↦ (force_kill name after_stop).0 ]

-- What the executor reads of a tool that the manager has
abbrev pub with_manifest : Text → Option R.Tool → Executor → Executor
with_manifest name none e = e
with_manifest name (some tool) e = record e {
  tools = adjust name (from_manifest tool.manifest) e.tools;
}

module _ {W : Type 0} where
  -- `eventBus.Emit`, if there is an event bus
  abbrev pub emit : Event → Node W → Node W
  emit event n = if n.has_bus then record n { events = n.events ++ event ∷ [] } else n

  -- `unregisterStreamingSubjects`
  unfoldable pub unregister_streaming_subjects : Text → Node W → Node W
  unfolding unsubscribe_all
  unregister_streaming_subjects name n = record n {
    streams = delete name n.streams;
    live = unsubscribe_all (noted (lookup name n.streams)) n.live;
  }

  subscribed :
      Text
      → Node W
      → List Text × Result NodeError (List Text)
      → Node W × Result NodeError (Unit {0})
  subscribed name n (live, err e) = (record n { live = live }, err e)
  subscribed name n (live, ok []) = (record n { live = live }, ok tt)
  subscribed name n (live, ok (s ∷ subs)) =
      (record n { live = live; streams = insert name (s ∷ subs) n.streams }, ok tt)

  -- `registerStreamingSubjects`
  unfoldable pub register_streaming_subjects :
      Nats → Text → Manifest → Node W → Node W × Result NodeError (Unit {0})
  unfolding subscribed subscribe_streams unregister_streaming_subjects
  register_streaming_subjects nats name manifest n =
      let cleared = unregister_streaming_subjects name n in
      subscribed name cleared
        (subscribe_streams nats n.node_name name manifest.rpc_methods cleared.live [])

  executed : Node W → Executor × Result ToolError (Unit {0}) → Node W × Result NodeError (Unit {0})
  executed n (e, ok u) = (record n { executor = e }, ok tt)
  executed n (e, err x) = (record n { executor = e }, err (executor_failed x))

  -- The start of a persistent tool
  auto_start : Result ToolError ℕ → Text → Manifest → Node W → Node W × Result NodeError (Unit {0})
  unfolding executed start
  auto_start process name manifest n =
      if same manifest.runtime.mode (lit "persistent")
      then executed n (start name process n.executor)
      else (n, ok tt)

  meshed : Node W → Mesh × Result MeshError (Unit {0}) → Node W × Result NodeError (Unit {0})
  meshed n (m, ok u) = (record n { mesh = m }, ok tt)
  meshed n (m, err e) = (record n { mesh = m }, err (mesh_failed e))

  -- `registerTool` once the tool has been started; a stream that is refused is only logged
  serve : Nats → Text → Manifest → Node W → Node W × Result NodeError (Unit {0})
  unfolding register_streaming_subjects meshed M.register_tool
  serve nats name manifest n =
      let streaming = (register_streaming_subjects nats name manifest n).0 in
      meshed streaming (
        M.register_tool nats (record { name = name; methods = method_names manifest.rpc_methods })
          streaming.mesh)

  serve_started :
      Nats
      → Text
      → Manifest
      → Node W × Result NodeError (Unit {0})
      → Node W × Result NodeError (Unit {0})
  unfolding serve tool_started
  serve_started nats name manifest (n, err e) = (n, err e)
  serve_started nats name manifest (n, ok u) = serve nats name manifest (
      if same manifest.runtime.mode (lit "persistent")
      then emit (tool_started n.node_name name) n
      else n)

  -- `registerTool`
  unfoldable pub register_tool :
      Nats → Result ToolError ℕ → Text → Manifest → Node W → Node W × Result NodeError (Unit {0})
  unfolding serve_started auto_start
  register_tool nats process name manifest n = elim (method_names manifest.rpc_methods) [
    | [] ↦ (n, err (no_methods name))
    | method ∷ methods ↦ serve_started nats name manifest (auto_start process name manifest n)
  ]

  -- The name and the version of a tool that has been registered, and the event
  announced : Text → Text → Node W × Result NodeError (Unit {0}) → Node W × Result NodeError Text
  unfolding tool_installed
  announced name version (n, err e) = (n, err e)
  announced name version (n, ok u) = (emit (tool_installed n.node_name name version) n, ok version)

  installed :
      Nats
      → Result ToolError ℕ
      → Node W
      → Manager W × Result ManagerError R.Tool
      → Node W × Result NodeError Text
  unfolding register_tool announced
  installed nats process n (m, err e) = (record n { manager = m }, err (manager_failed e))
  installed nats process n (m, ok tool) = announced tool.name tool.manifest.version (
      register_tool nats process tool.name tool.manifest (record n {
        manager = m;
        executor = record n.executor {
          tools = insert tool.name (from_manifest tool.manifest stopped_tool) n.executor.tools;
        };
      }))

  -- The executor reads the manifest that the manager now has, also if the update has failed.
  with_manager : Text → Manager W → Node W → Node W
  with_manager name m n = record n {
    manager = m;
    executor = with_manifest name (lookup name m.tools) n.executor;
  }

  updated :
      Nats
      → Result ToolError ℕ
      → Text
      → Node W
      → Manager W × Result ManagerError R.Tool
      → Node W × Result NodeError Text
  unfolding register_tool announced with_manager
  updated nats process name n (m, err e) = (with_manager name m n, err (manager_failed e))
  updated nats process name n (m, ok tool) =
      announced name tool.manifest.version
        (register_tool nats process tool.name tool.manifest (with_manager name m n))

  -- The node before the manager updates the tool: stopped, and taken off the mesh
  withdrawn : Bool → Text → Node W → Node W
  unfolding stop_hard unregister_tool tool_stopped
  withdrawn timed_out name n =
      let halted =
        if is_running_tool (lookup name n.executor.tools)
        then emit (tool_stopped n.node_name name (lit "update"))
            (record n { executor = stop_hard timed_out name n.executor })
        else n in
      record halted { mesh = (unregister_tool name halted.mesh).0 }

  unfoldable pub after_stop : Text → Node W → Executor × Result ToolError (Unit {0}) → Node W
  unfolding tool_stopped
  after_stop name n (e, ok u) =
      emit (tool_stopped n.node_name name (lit "uninstall")) (record n { executor = e })
  after_stop name n (e, err x) = record n { executor = e }

  unfoldable pub uninstalled :
      Text
      → Node W
      → Manager W × Result ManagerError (Unit {0})
      → Node W × Result NodeError (Unit {0})
  unfolding tool_removed
  uninstalled name n (m, err e) = (record n { manager = m }, err (manager_failed e))
  uninstalled name n (m, ok u) = (
    emit (tool_removed n.node_name name) (record n {
      manager = m;
      executor = record n.executor { tools = delete name n.executor.tools };
    }),
    ok tt,
  )

  -- The node before the manager removes the tool
  unfoldable pub released : Text → Node W → Node W
  unfolding after_stop stop unregister_tool unregister_streaming_subjects
  released name n =
      let halted = after_stop name n (stop name n.executor) in
      unregister_streaming_subjects name
        (record halted { mesh = (unregister_tool name halted.mesh).0 })

  module _ (host : Host W) (config : Config) where
    -- `InstallTool`: the version that has been installed
    unfoldable pub install_tool :
        Nats → Result ToolError ℕ → Text → Node W → Node W × Result NodeError Text
    unfolding installed install
    install_tool nats process source n =
        installed nats process n (install host config source n.manager)

    -- `UpdateTool`: the new version
    unfoldable pub update_tool :
        Nats → Result ToolError ℕ → Bool → Text → Bool → Node W → Node W × Result NodeError Text
    unfolding updated update withdrawn
    update_tool nats process timed_out name clean n =
        if is_some (lookup name n.manager.tools)
        then (let ready = withdrawn timed_out name n in
            updated nats process name ready (update host config name clean ready.manager))
        else (n, err (not_found name))

    -- `UninstallTool`
    unfoldable pub uninstall_tool : Text → Bool → Node W → Node W × Result NodeError (Unit {0})
    unfolding uninstalled released uninstall
    uninstall_tool name remove_env n =
        let ready = released name n in
        uninstalled name ready (uninstall host config name remove_env ready.manager)
