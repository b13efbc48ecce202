-- ===== src/Tools/Executor.antt =====
-- pkg/tools/executor.go: the life of a persistent tool. A process is a number. `Start` is two
-- functions, its checks and what it does once the process has started: it holds no lock between
-- them, so that other calls can come between. Processes that are closed or killed only leave the
-- maps; the wait for a queue to close and its fallback are one step.
pub mod Consistent
use jb_mesh.Base.{
  ◌||◌, some, not, if◌then◌else◌, [], Option, none, suc, false, is_some, Bool, ℕ, ◌==◌, ◌∷◌,
}
use jb_mesh.Base.Result.{err, ok, guard, Result, ◌>>◌}
use jb_mesh.Base.Dict.{insert, delete, lookup, adjust, Dict}
use jb_mesh.Base.Text.{lit, Text}

pub data Status : Type 0 where
  stopped running crashed : Status

-- The fields of a tool that the executor reads and sets.
pub record Tool : Type 0 where
  pub persistent : Bool
  pub msgpack : Bool
  pub has_health : Bool
  pub status : Status
  pub health_status : Text
  pub health_failures : ℕ

pub record Executor : Type 0 where
  pub tools : Dict Tool
  pub repls : Dict ℕ
  pub queues : Dict ℕ
  pub health_cancels : Dict ℕ

pub data ToolError : Type 0 where
  not_found not_persistent already_running not_running no_environment no_process : ToolError

abbrev pub is_running : Executor → Text → Bool
is_running e name = is_some (lookup name e.repls) || is_some (lookup name e.queues)

-- `Start` up to the environment: the tool that is to be started
unfoldable pub start_check : Text → Executor → Result ToolError Tool
start_check name e = elim (lookup name e.tools) [
  | none ↦ err not_found
  | some tool ↦
      guard tool.persistent not_persistent
      >> guard (not (is_running e name)) already_running
      >> ok tool
]

abbrev pub started : Tool → Tool
started t = record t { status = running; health_status = lit "unknown"; health_failures = 0 }

abbrev pub halted : Tool → Tool
halted t = record t { status = stopped; health_status = []; health_failures = 0 }

-- The end of `startRepl` and of `startMsgpack`
unfoldable pub start_finish : Text → ℕ → Tool → Executor → Executor
start_finish name process tool e = record e {
  tools = adjust name started e.tools;
  repls = if tool.msgpack then e.repls else insert name process e.repls;
  queues = if tool.msgpack then insert name process e.queues else e.queues;
  health_cancels =
      if tool.has_health then insert name process e.health_cancels else e.health_cancels;
}

-- What comes of the process that `Start` asked for.
start_process : Text → Result ToolError ℕ → Executor → Tool → Executor × Result ToolError (Unit {0})
unfolding start_finish
start_process name (err x) e tool = (e, err x)
start_process name (ok process) e tool = (start_finish name process tool e, ok tt)

start_checked :
    Text
    → Result ToolError ℕ
    → Executor
    → Result ToolError Tool
    → Executor × Result ToolError (Unit {0})
unfolding start_process
start_checked name process e (err x) = (e, err x)
start_checked name process e (ok tool) = start_process name process e tool

-- `Start` with no other call in between; `process` is the new process, or why there is none
unfoldable pub start : Text → Result ToolError ℕ → Executor → Executor × Result ToolError (Unit {0})
unfolding start_check start_checked
start name process e = start_checked name process e (start_check name e)

-- The change that `Stop` and `ForceKill` make, for a tool that may have either kind of process.
halt : Text → Executor → Executor × Result ToolError (Unit {0})
halt name e =
    if is_some (lookup name e.repls)
    then (record e { repls = delete name e.repls; tools = adjust name halted e.tools }, ok tt)
    else if is_some (lookup name e.queues)
    then (record e { queues = delete name e.queues; tools = adjust name halted e.tools }, ok tt)
    else (e, err not_running)

abbrev pub cancel_health : Text → Executor → Executor
cancel_health name e = record e { health_cancels = delete name e.health_cancels }

-- `Stop`
unfoldable pub stop : Text → Executor → Executor × Result ToolError (Unit {0})
unfolding halt
stop name e =
    if is_some (lookup name e.tools) then halt name (cancel_health name e) else (e, err not_found)

-- `ForceKill`
unfoldable pub force_kill : Text → Executor → Executor × Result ToolError (Unit {0})
unfolding halt
force_kill name e = halt name (cancel_health name e)

abbrev pub is_process : ℕ → Option ℕ → Bool
is_process process none = false
is_process process (some p) = p == process

abbrev pub failed : Tool → Tool
failed t = record t {
  status = stopped;
  health_status = lit "unhealthy";
  health_failures = suc t.health_failures;
}

-- `markReplStopped`
unfoldable pub mark_repl_stopped : Text → ℕ → Executor → Executor
mark_repl_stopped name process e = record e {
  repls = if is_process process (lookup name e.repls) then delete name e.repls else e.repls;
  health_cancels = delete name e.health_cancels;
  tools = adjust name failed e.tools;
}

-- The tool that the crash monitor has given up.
abbrev pub crashed_tool : Tool → Tool
crashed_tool t = record t { status = crashed; health_status = lit "unhealthy" }

unfoldable pub mark_crashed : Text → Executor → Executor
mark_crashed name e = record e { tools = adjust name crashed_tool e.tools }

abbrev pub closed : Tool → Tool
closed t = record t { status = stopped; health_status = [] }

-- The loop of `Close` over the processes of one kind.
close_tools : Dict ℕ → Dict Tool → Dict Tool
close_tools [] tools = tools
close_tools ((name, process) ∷ processes) tools = close_tools processes (adjust name closed tools)

-- `Close`
unfoldable pub close : Executor → Executor
unfolding close_tools
close e = record {
  tools = close_tools e.queues (close_tools e.repls e.tools);
  repls = [];
  queues = [];
  health_cancels = [];
}
