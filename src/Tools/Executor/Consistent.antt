-- ===== src/Tools/Executor/Consistent.antt =====
-- What holds of an executor whatever calls run, in whatever order.
use jb_mesh.Base.Text.{same_refl, same, same_iff, Text}
use jb_mesh.Base.{
  refl, inr, Bool-cases, ◌∷◌, inl, [], ◌≡◌, some, if◌then◌else◌, Option, none, false, is_some, Bool,
  ℕ, true, arith,
}
use jb_mesh.Base.Dict.{
  adjusted, lookup-delete, lookup_empty, adjust, Dict, lookup, lookup-insert, lookup-adjust,
}
use jb_mesh.Base.Result.{ok}
use jb_mesh.Tools.Executor.{
  running, stopped, crashed, Tool, Executor, is_running, started, halted, start_finish, halt, stop,
  force_kill, cancel_health, is_process, failed, mark_repl_stopped, crashed_tool, mark_crashed,
  closed, close_tools, close,
}

-- One call; a start that was allowed earlier ends with a process, whatever has run since.
pub data Step : Executor → Executor → Type 0 where
  starts :
      (name : Text) (process : ℕ) (tool : Tool) (e : Executor)
      → lookup name e.tools ≡ some tool
      → Step e (start_finish name process tool e)
  stops : (name : Text) (e : Executor) → Step e (stop name e).0
  kills : (name : Text) (e : Executor) → Step e (force_kill name e).0
  fails : (name : Text) (process : ℕ) (e : Executor) → Step e (mark_repl_stopped name process e)
  gives_up : (name : Text) (e : Executor) → Step e (mark_crashed name e)
  closes : (e : Executor) → Step e (close e)

-- Some calls in a row.
pub data Steps : Executor → Executor → Type 0 where
  done : {e : Executor} → Steps e e
  next : {e f g : Executor} → Steps e f → Step f g → Steps e g

abbrev pub is_msgpack : Option Tool → Bool
is_msgpack none = false
is_msgpack (some t) = t.msgpack

abbrev pub says_running : Option Tool → Bool
says_running none = false
says_running (some t) = elim t.status [ running ↦ true | stopped ↦ false | crashed ↦ false ]

-- At one name: a REPL is of a tool that talks to one, a queue of one that talks MessagePack, and a
-- tool that says it is running has a process.
abbrev pub IsConsistentAt : Text → Executor → Type 0
IsConsistentAt name e =
    (is_some (lookup name e.repls) ≡ true → is_msgpack (lookup name e.tools) ≡ false)
    × (is_some (lookup name e.queues) ≡ true → is_msgpack (lookup name e.tools) ≡ true)
    × (says_running (lookup name e.tools) ≡ true → is_running e name ≡ true)

abbrev pub IsConsistent : Executor → Type 0
IsConsistent e = (name : Text) → IsConsistentAt name e

halt-IsConsistent : (name : Text) (e : Executor) → IsConsistent e → IsConsistent (halt name e).0
unfolding halt
halt-IsConsistent name e h j = elim (Bool-cases (is_some (lookup name e.repls))) [
  | inl repl ↦ rw repl (
      ground (
        arith,
        h j,
        lookup-adjust name j halted e.tools,
        lookup-delete name j e.repls,
        same_iff name j,
      ))
  | inr no_repl ↦ rw no_repl (elim (Bool-cases (is_some (lookup name e.queues))) [
    | inl queue ↦ rw queue (
        ground (
          arith,
          h j,
          lookup-adjust name j halted e.tools,
          lookup-delete name j e.queues,
          same_iff name j,
        ))
    | inr no_queue ↦ rw no_queue (h j)
  ])
]

fails-IsConsistent :
    (name : Text) (process : ℕ) (e : Executor)
    → IsConsistent e
    → IsConsistent (mark_repl_stopped name process e)
unfolding mark_repl_stopped
fails-IsConsistent name process e h j =
    elim (Bool-cases (is_process process (lookup name e.repls))) [
      | inl current ↦ rw current (
          ground (
            arith,
            h j,
            lookup-adjust name j failed e.tools,
            lookup-delete name j e.repls,
            same_iff name j,
          ))
      | inr other ↦
          rw other (ground (arith, h j, lookup-adjust name j failed e.tools, same_iff name j))
    ]

lookup-close_tools :
    (j : Text) (processes : Dict ℕ) (tools : Dict Tool)
    → lookup j (close_tools processes tools)
      ≡ (if is_some (lookup j processes) then adjusted closed (lookup j tools) else lookup j tools)
unfolding close_tools lookup
lookup-close_tools j [] tools = refl
lookup-close_tools j ((name, p) ∷ processes) tools = ground (
  arith,
  lookup-close_tools j processes (adjust name closed tools),
  lookup-adjust name j closed tools,
)

closes-IsConsistent : (e : Executor) → IsConsistent e → IsConsistent (close e)
unfolding close
closes-IsConsistent e h j = ground (
  arith,
  h j,
  lookup-close_tools j e.queues (close_tools e.repls e.tools),
  lookup-close_tools j e.repls e.tools,
  lookup_empty {V = ℕ} j,
)

Step-IsConsistent : {e f : Executor} → Step e f → IsConsistent e → IsConsistent f
unfolding start_finish mark_crashed stop force_kill
Step-IsConsistent (starts name process tool e found) h j = ground (
  arith,
  h j,
  lookup-adjust name j started e.tools,
  lookup-insert name j process e.repls,
  lookup-insert name j process e.queues,
  same_iff name j,
)
Step-IsConsistent (stops name e) h j = elim (Bool-cases (is_some (lookup name e.tools))) [
  | inl known ↦ rw known (halt-IsConsistent name (cancel_health name e) h j)
  | inr unknown ↦ rw unknown (h j)
]
Step-IsConsistent (kills name e) h j = halt-IsConsistent name (cancel_health name e) h j
Step-IsConsistent (fails name process e) h j = fails-IsConsistent name process e h j
Step-IsConsistent (gives_up name e) h j =
    ground (arith, h j, lookup-adjust name j crashed_tool e.tools, same_iff name j)
Step-IsConsistent (closes e) h j = closes-IsConsistent e h j

-- Whatever starts, stops, kills, failures and closings follow on one another in whatever order,
-- they keep this: a tool that says it is running has a process, and a process is of the kind that
-- its tool's transport asks for, so that no tool has one of each kind.
pub Steps-IsConsistent : {e f : Executor} → Steps e f → IsConsistent e → IsConsistent f
Steps-IsConsistent done h = h
Steps-IsConsistent (next steps step) h = Step-IsConsistent step (Steps-IsConsistent steps h)

halt-not_running :
    (name j : Text) (e : Executor)
    → IsConsistent e
    → (halt name e).1 ≡ ok tt
    → same name j ≡ false
    → (is_running (halt name e).0 name ≡ false)
      × (says_running (lookup name (halt name e).0.tools) ≡ false)
      × (is_running (halt name e).0 j ≡ is_running e j)
unfolding halt
halt-not_running name j e h k other = elim (Bool-cases (is_some (lookup name e.repls))) [
  | inl repl ↦ rw repl (
      ground (
        arith,
        h name,
        repl,
        lookup-adjust name name halted e.tools,
        lookup-delete name name e.repls,
        lookup-delete name j e.repls,
        same_refl name,
      ))
  | inr no_repl ↦ elim (Bool-cases (is_some (lookup name e.queues))) [
    | inl queue ↦
        rw (no_repl, queue)
          (ground (
            arith,
            h name,
            no_repl,
            queue,
            lookup-adjust name name halted e.tools,
            lookup-delete name name e.queues,
            lookup-delete name j e.queues,
            same_refl name,
          ))
    | inr no_queue ↦ let k' = rw (no_repl, no_queue) at k in cc
  ]
]

-- After `Stop` has succeeded on a consistent executor, the tool has no process and does not say
-- that it runs, and any other tool has a process exactly if it had one before.
pub stop-not_running :
    (name j : Text) (e : Executor)
    → IsConsistent e
    → (stop name e).1 ≡ ok tt
    → same name j ≡ false
    → (is_running (stop name e).0 name ≡ false)
      × (says_running (lookup name (stop name e).0.tools) ≡ false)
      × (is_running (stop name e).0 j ≡ is_running e j)
unfolding stop
stop-not_running name j e h k other = elim (Bool-cases (is_some (lookup name e.tools))) [
  | inl known ↦ rw known (halt-not_running name j (cancel_health name e) h (rw known at k) other)
  | inr unknown ↦ let k' = rw unknown at k in cc
]

-- After `Close` no tool has a process, and in a consistent executor none says that it runs.
pub close-not_running :
    (name : Text) (e : Executor)
    → IsConsistent e
    → (is_running (close e) name ≡ false) × (says_running (lookup name (close e).tools) ≡ false)
unfolding close
close-not_running name e h = ground (
  arith,
  h name,
  lookup-close_tools name e.queues (close_tools e.repls e.tools),
  lookup-close_tools name e.repls e.tools,
  lookup_empty {V = ℕ} name,
)

-- After `Stop`, whatever it returns, a tool that the executor knows has no process, and another tool
-- has one exactly if it had one before.
pub stop-is_running :
    (name j : Text) (e : Executor)
    → IsConsistent e
    → is_some (lookup name e.tools) ≡ true
    → same name j ≡ false
    → (is_running (stop name e).0 name ≡ false) × (is_running (stop name e).0 j ≡ is_running e j)
unfolding stop halt
stop-is_running name j e h known other = elim (Bool-cases (is_some (lookup name e.repls))) [
  | inl repl ↦
      rw (known, repl)
        (
          ground (arith, h name, lookup-delete name name e.repls, same_refl name),
          ground (arith, lookup-delete name j e.repls, other),
        )
  | inr no_repl ↦ elim (Bool-cases (is_some (lookup name e.queues))) [
    | inl queue ↦
        rw (known, no_repl, queue)
          (
            ground (arith, no_repl, lookup-delete name name e.queues, same_refl name),
            ground (arith, lookup-delete name j e.queues, other),
          )
    | inr no_queue ↦ rw (known, no_repl, no_queue) (ground arith, refl)
  ]
]
