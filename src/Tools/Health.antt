-- ===== src/Tools/Health.antt =====
-- pkg/tools/executor.go: the health checks of a running tool, over a REPL or over a queue. What the
-- health method answers is an argument, with what the `select` of the loop takes; a check and what the
-- loop makes of it are one step.
pub mod Verdict
pub mod Failed
use jb_mesh.Base.Dict.{lookup, adjust}
use jb_mesh.Base.{if◌then◌else◌, not, ℕ, suc, Bool, true, false, Option, none, some, List, ◌∷◌, []}
use jb_mesh.Base.Result.{err, Result, ok}
use jb_mesh.Base.Text.{same, Text, lit}
use jb_mesh.Base.Int.{ℤ, int_ltb, pos}
use jb_mesh.Base.Json.{Json, string, object, get}
use jb_mesh.Tools.Executor.{Executor, Tool, mark_repl_stopped}

pub data HealthError : Type 0 where
  not_running call_failed unhealthy : HealthError

abbrev pub is_ok_text : Option Json → Bool
is_ok_text (some (string s)) = same s (lit "ok")
is_ok_text _ = false

-- `checkHealthResult`
unfoldable pub check_health_result : Json → Result HealthError (Unit {0})
unfolding get
check_health_result (object m) = if is_ok_text (get (lit "status") m) then ok tt else err unhealthy
check_health_result (string s) = if same s (lit "ok") then ok tt else err unhealthy
check_health_result _ = err unhealthy

-- What a call of the health method comes to: it fails as a call, or Python responds, with `none` if
-- the response is an error
pub data Answer : Type 0 where
  call_fails : Answer
  responds : Option Json → Answer

abbrev pub judged : Option Json → Result HealthError (Unit {0})
judged none = err call_failed
judged (some result) = check_health_result result

-- What `doCall` leaves of an executor whose REPL of the tool is that process
repl_answer : Text → Executor → Option ℕ → Answer → Executor × Result HealthError (Unit {0})
unfolding mark_repl_stopped check_health_result
repl_answer name e none answer = (e, err not_running)
repl_answer name e (some process) call_fails = (mark_repl_stopped name process e, err call_failed)
repl_answer name e (some process) (responds r) = (e, judged r)

-- `doHealthCheck`
unfoldable pub do_health_check : Text → Answer → Executor → Executor × Result HealthError (Unit {0})
unfolding repl_answer
do_health_check name answer e = repl_answer name e (lookup name e.repls) answer

queue_answer : Option ℕ → Answer → Result HealthError (Unit {0})
unfolding check_health_result
queue_answer none answer = err not_running
queue_answer (some process) call_fails = err call_failed
queue_answer (some process) (responds r) = judged r

-- `doHealthCheckMsgpack`
unfoldable pub do_health_check_msgpack :
    Text → Answer → Executor → Executor × Result HealthError (Unit {0})
unfolding queue_answer
do_health_check_msgpack name answer e = (e, queue_answer (lookup name e.queues) answer)

-- `failures >= threshold`
abbrev pub reaches : ℤ → ℕ → Bool
reaches threshold failures = not (int_ltb (pos failures) threshold)

-- What the loop makes of the tool after a check
unfoldable pub observe : ℤ → Result HealthError (Unit {0}) → Tool → Tool
observe threshold (ok u) t = record t { health_status = lit "healthy"; health_failures = 0 }
observe threshold (err e) t =
    let failures = suc t.health_failures in
    if reaches threshold failures
    then record t { health_status = lit "unhealthy"; health_failures = failures }
    else record t { health_failures = failures }

-- What the `select` of the loop takes: the end of its context, or a tick, with what the call that it
-- makes comes to. Where both are there it may take either.
pub data Selected : Type 0 where
  done : Selected
  tick : Answer → Selected

observed : ℤ → Text → Executor × Result HealthError (Unit {0}) → Executor
unfolding observe
observed threshold name (e, r) = record e { tools = adjust name (observe threshold r) e.tools }

-- `runHealthCheck`
unfoldable pub run_health_check : ℤ → Text → List Selected → Executor → Executor
unfolding observed do_health_check
run_health_check threshold name [] e = e
run_health_check threshold name (done ∷ ss) e = e
run_health_check threshold name (tick answer ∷ ss) e =
    run_health_check threshold name ss (observed threshold name (do_health_check name answer e))

-- `runHealthCheckMsgpack`
unfoldable pub run_health_check_msgpack : ℤ → Text → List Selected → Executor → Executor
unfolding observed do_health_check_msgpack
run_health_check_msgpack threshold name [] e = e
run_health_check_msgpack threshold name (done ∷ ss) e = e
run_health_check_msgpack threshold name (tick answer ∷ ss) e =
    run_health_check_msgpack threshold name ss
      (observed threshold name (do_health_check_msgpack name answer e))
