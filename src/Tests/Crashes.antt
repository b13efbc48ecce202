-- ===== src/Tests/Crashes.antt =====
-- The crash monitor of pkg/tools on a tool that keeps crashing.
use jb_mesh.Base.{some, arith, ◌≡◌, [], List, refl, false, if◌then◌else◌, ◌&&◌, ltb, ◌∷◌, true}
use jb_mesh.Base.Result.{err, ok}
use jb_mesh.Base.Dict.{adjust, lookup, insert}
use jb_mesh.Tools.Executor.{
  Tool, Executor, stopped, already_running, is_running, start, start_finish, stop, close,
}
use jb_mesh.Tools.Executor.Consistent.{
  done, next, starts, closes, IsConsistent, says_running, Steps-IsConsistent, stop-not_running,
}
use jb_mesh.Base.Text.{lit, same, Text}
use jb_mesh.Tools.Recovery.{
  RecoveryConfig, CrashMonitor, gave_up, wait_tick, default_recovery_config, new_crash_monitor,
  watch, tick, restart,
}
use jb_mesh.Tools.Recovery.Backoff.{
  start as begin, next as advance, watches, ticks, restarts, IsSound, Reachable-IsSound,
}
use jb_mesh.Tools.Recovery.Attempts.{
  Observation, alive, crash, monitor_loop, has_streak, monitor_loop-has_streak,
}

abbrev tool : Text
tool = lit "db"

abbrev fresh : CrashMonitor
fresh = new_crash_monitor default_recovery_config

abbrev twice : RecoveryConfig
twice = record { initial_backoff = 1; max_backoff = 3; max_retries = 2 }

abbrev crashes_apart : List Observation
crashes_apart = crash true ∷ alive ∷ crash false ∷ []

abbrev crashes_together : List Observation
crashes_together = crash true ∷ crash false ∷ crash false ∷ []

gives_up_test :
    (monitor_loop tool crashes_together (watch tool (new_crash_monitor twice)).0).1 ≡ gave_up 2
unfolding monitor_loop watch new_crash_monitor insert lookup same
gives_up_test = refl

goes_on_test :
    (monitor_loop tool crashes_apart (watch tool (new_crash_monitor twice)).0).1 ≡ wait_tick
unfolding monitor_loop watch new_crash_monitor insert lookup same
goes_on_test = refl

monitor_loop-has_streak_example : (monitor_loop tool crashes_together (watch tool fresh).0).1 ≡ (
    if ltb 0 fresh.config.max_retries && has_streak fresh.config.max_retries crashes_together
    then gave_up fresh.config.max_retries
    else wait_tick)
monitor_loop-has_streak_example = monitor_loop-has_streak tool crashes_together fresh

abbrev watched : CrashMonitor
watched = (watch tool fresh).0

abbrev crashed_once : CrashMonitor
crashed_once = (tick tool false watched).0

Reachable-IsSound_example : IsSound default_recovery_config (restart tool false crashed_once)
Reachable-IsSound_example = Reachable-IsSound default_recovery_config (
    advance (advance (advance begin (watches tool fresh)) (ticks tool false watched))
      (restarts tool false crashed_once))

abbrev service : Tool
service = record {
  persistent = true;
  msgpack = false;
  has_health = true;
  status = stopped;
  health_status = [];
  health_failures = 0;
}

abbrev idle : Executor
idle = record { tools = (lit "db", service) ∷ []; repls = []; queues = []; health_cancels = [] }

abbrev busy : Executor
busy = start_finish (lit "db") 7 service idle

start_test : (start (lit "db") (ok 7) idle) ≡ (busy, ok tt)
unfolding start lookup same start_finish insert adjust
start_test = refl

start_twice_test : (start (lit "db") (ok 8) busy).1 ≡ err already_running
unfolding start lookup same start_finish insert adjust
start_twice_test = refl

idle-IsConsistent : IsConsistent idle
unfolding lookup same
idle-IsConsistent name = ground arith

idle_tool : lookup (lit "db") idle.tools ≡ some service
unfolding lookup same
idle_tool = refl

Steps-IsConsistent_example : IsConsistent (close busy)
Steps-IsConsistent_example =
    Steps-IsConsistent (next (next done (starts (lit "db") 7 service idle idle_tool)) (closes busy))
      idle-IsConsistent

busy-IsConsistent : IsConsistent busy
busy-IsConsistent =
    Steps-IsConsistent (next done (starts (lit "db") 7 service idle idle_tool)) idle-IsConsistent

stop-not_running_example :
    (is_running (stop (lit "db") busy).0 (lit "db") ≡ false)
    × (says_running (lookup (lit "db") (stop (lit "db") busy).0.tools) ≡ false)
    × (is_running (stop (lit "db") busy).0 (lit "x") ≡ is_running busy (lit "x"))
unfolding stop lookup same start_finish insert adjust
stop-not_running_example = stop-not_running (lit "db") (lit "x") busy busy-IsConsistent refl refl
