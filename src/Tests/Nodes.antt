-- ===== src/Tests/Nodes.antt =====
-- Runs of a node that removes a tool, and of health checks.
use jb_mesh.Base.{
  some, Bool-cases, inr, is_some, arith, inl, true, false, none, List, [], ◌∷◌, refl, ◌≡◌,
}
use jb_mesh.Base.Text.{same, lit, Text}
use jb_mesh.Base.Result.{ok}
use jb_mesh.Base.Int.{pos}
use jb_mesh.Base.Dict.{lookup}
use jb_mesh.Tests.Machines.{machine, calculator}
use jb_mesh.Tools.Executor.{running, Executor, Tool}
use jb_mesh.Tools.Executor.Consistent.{IsConsistent}
use jb_mesh.Tools.Manager.Registry.{Config, loaded_tool}
use jb_mesh.Node.Tools.{Node, uninstall_tool}
use jb_mesh.Node.Tools.Uninstalled.{IsGone, IsKept, uninstall_tool-IsGone}
use jb_mesh.Tools.Health.{
  call_fails, responds, tick, done, check_health_result, run_health_check, run_health_check_msgpack,
}
use jb_mesh.Base.Json.{string}
use jb_mesh.Tools.Health.Verdict.{verdict, ticks, run_health_check_msgpack_lem}
use jb_mesh.Tools.Health.Failed.{IsDown, run_health_check_lem}

abbrev places : Config
places = record { tools_dir = lit "/t"; envs_dir = lit "/e"; conda_backend = [] }

-- A node with one tool, which runs
abbrev node : Node (List Text)
node = record {
  node_name = lit "n1";
  manager = record {
    tools = (lit "calc", loaded_tool (lit "/t/calc") none calculator) ∷ [];
    world = [];
  };
  executor = record {
    tools =
        (
          lit "calc",
          record {
            persistent = true;
            msgpack = false;
            has_health = false;
            status = running;
            health_status = lit "unknown";
            health_failures = 0;
          },
        )
        ∷ [];
    repls = (lit "calc", 7) ∷ [];
    queues = [];
    health_cancels = [];
  };
  mesh = record {
    node_name = lit "n1";
    services = lit "calc" ∷ [];
    node_subs = lit "node.n1.tools.calc.run" ∷ lit "node.n1.tools.db.get" ∷ [];
    registrations = record { name = lit "calc"; methods = lit "run" ∷ [] } ∷ [];
  };
  streams = (lit "calc", lit "tools.calc.run.stream" ∷ []) ∷ [];
  live = lit "tools.db.get.stream" ∷ lit "tools.calc.run.stream" ∷ [];
  has_bus = true;
  events = [];
}

node-IsConsistent : IsConsistent node.executor
unfolding lookup
node-IsConsistent name = elim (Bool-cases (same (lit "calc") name)) [
  | inl e ↦ ground (arith, e)
  | inr e ↦ ground (arith, e)
]

known_test : is_some (lookup (lit "calc") node.executor.tools) ≡ true
unfolding lookup same
known_test = refl

uninstall_test : (uninstall_tool machine places (lit "calc") true node).1 ≡ ok tt
unfolding uninstall_tool machine lookup same
uninstall_test = refl

other_test : same (lit "calc") (lit "db") ≡ false
unfolding same
other_test = refl

uninstall_tool-IsGone_example :
    IsGone
      (lit "calc")
      (lit "tools.calc.run.stream")
      node
      (uninstall_tool machine places (lit "calc") true node).0
    × IsKept (lit "db") node (uninstall_tool machine places (lit "calc") true node).0
uninstall_tool-IsGone_example =
    uninstall_tool-IsGone machine places (lit "calc") (lit "db") (lit "tools.calc.run.stream") true
      node node-IsConsistent known_test uninstall_test other_test

-- An executor with a tool over a queue, and one with a tool over a REPL
abbrev queued : Executor
queued = record node.executor { repls = []; queues = (lit "calc", 7) ∷ [] }

abbrev calc : Tool
calc = record {
  persistent = true;
  msgpack = false;
  has_health = false;
  status = running;
  health_status = lit "unknown";
  health_failures = 0;
}

queued_known_test : lookup (lit "calc") queued.tools ≡ some calc
unfolding lookup same
queued_known_test = refl

queued_runs_test : lookup (lit "calc") queued.queues ≡ some 7
unfolding lookup same
queued_runs_test = refl

passed_test : check_health_result (string (lit "ok")) ≡ ok tt
unfolding check_health_result same
passed_test = refl

run_health_check_msgpack_lem_example :
    lookup
      (lit "calc")
      (run_health_check_msgpack
        (pos 2)
        (lit "calc")
        (ticks (call_fails ∷ responds (some (string (lit "ok"))) ∷ call_fails ∷ responds none ∷ []))
        queued).tools
    ≡ some (verdict (pos 2) (lit "healthy") 2 calc)
run_health_check_msgpack_lem_example =
    run_health_check_msgpack_lem 2 (lit "calc") (call_fails ∷ []) (call_fails ∷ responds none ∷ [])
      (string (lit "ok")) queued calc 7 (omega arith) queued_known_test queued_runs_test passed_test
      (refl, (refl, tt))

repl_runs_test : lookup (lit "calc") node.executor.repls ≡ some 7
unfolding lookup same
repl_runs_test = refl

run_health_check_lem_example : IsDown (lit "calc") 3 calc (
    run_health_check
      (pos 9)
      (lit "calc")
      (tick call_fails ∷ tick call_fails ∷ done ∷ [])
      node.executor)
run_health_check_lem_example =
    run_health_check_lem (pos 9) (lit "calc") (tick call_fails ∷ done ∷ []) node.executor calc 7
      queued_known_test repl_runs_test
