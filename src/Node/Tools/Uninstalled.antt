-- ===== src/Node/Tools/Uninstalled.antt =====
-- What is left of a tool that a node has uninstalled.
use jb_mesh.Base.{
  if◌then◌else◌, ◌-◌, ℕ, arith, subst, sym, Option, ap, refl, ◌∙◌, All, inl, ◌≡◌, inr, Bool-cases,
  is_some, Bool, true, false, none, some, List, ◌∷◌, [],
}
use jb_mesh.Base.Text.{same_refl, Text, same, has_prefix}
use jb_mesh.Base.Count.{count, IsWithout, count-IsWithout}
use jb_mesh.Base.Dict.{lookup-delete, Dict, delete, lookup}
use jb_mesh.Node.Tools.{
  ManagerError, Node, NodeError, uninstall_tool, released, after_stop,
  unregister_streaming_subjects, emit, noted, unsubscribe, unsubscribe_all,
}
use jb_mesh.Base.Result.{err, ok, Result}
use jb_mesh.Tools.Executor.{ToolError, Executor, is_running, stop}
use jb_mesh.Tools.Executor.Consistent.{IsConsistent, stop-is_running}
use jb_mesh.Tools.Manager.Host.{Host}
use jb_mesh.Tools.Manager.Registry.{Tool, Manager, Config, uninstall, uninstall_found, uninstalled}
use jb_mesh.Events.{Event}
use jb_mesh.Mesh.{unregister_tool, subject_prefix, remove_subs, count-remove_service}
use jb_mesh.Node.Tools as N

-- What is left of a tool: the manager does not have it, it has no process and no service, none of
-- its subjects on this node has a subscription, no streams are noted for it, and of the node's own
-- subscriptions to a subject those that were noted for its streams have ended. Only its saved
-- registration is still there.
abbrev pub IsGone : {W : Type 0} → Text → Text → Node W → Node W → Type 0
IsGone name subject n m =
    (lookup name m.manager.tools ≡ none)
    × (lookup name m.executor.tools ≡ none)
    × (is_running m.executor name ≡ false)
    × All (λ s. has_prefix s (subject_prefix m.mesh.node_name name) ≡ false) m.mesh.node_subs
    × (lookup name m.streams ≡ none)
    × (count name m.mesh.services ≡ count name n.mesh.services - 1)
    × (count subject m.live ≡ count subject n.live - count subject (noted (lookup name n.streams)))
    × (m.mesh.registrations ≡ n.mesh.registrations)

-- Another tool is as it was.
abbrev pub IsKept : {W : Type 0} → Text → Node W → Node W → Type 0
IsKept j n m =
    (lookup j m.manager.tools ≡ lookup j n.manager.tools)
    × (is_running m.executor j ≡ is_running n.executor j)
    × (lookup j m.streams ≡ lookup j n.streams)
    × (count j m.mesh.services ≡ count j n.mesh.services)

count-unsubscribe : (s t : Text) (live : List Text) → IsWithout s unsubscribe live t
unfolding unsubscribe
count-unsubscribe s t live = count-IsWithout unsubscribe (λ s. refl) (λ s u live. refl) s t live

count-unsubscribe_all :
    (t : Text) (subs live : List Text)
    → count t (unsubscribe_all subs live) ≡ count t live - count t subs
unfolding unsubscribe_all
count-unsubscribe_all t [] live = omega arith
count-unsubscribe_all t (s ∷ subs) live =
    let one = count-unsubscribe s t live in
    let rest = count-unsubscribe_all t subs (unsubscribe s live) in
    elim (Bool-cases (same s t)) [
      | inl e ↦ let one' = rw e at one in rw e (omega arith)
      | inr e ↦ let one' = rw e at one in rw e (omega arith)
    ]

remove_subs-All :
    (prefix : Text) (subs : List Text)
    → All (λ s. has_prefix s prefix ≡ false) (remove_subs prefix subs)
unfolding remove_subs
remove_subs-All prefix [] = tt
remove_subs-All prefix (s ∷ subs) = elim (Bool-cases (has_prefix s prefix)) [
  | inl e ↦ rw e (remove_subs-All prefix subs)
  | inr e ↦ rw e (e, remove_subs-All prefix subs)
]

minus_zero : (n : ℕ) → n - 0 ≡ n
minus_zero n = omega arith

deleted : {V : Type 0} (name : Text) (m : Dict V) → lookup name (delete name m) ≡ none
deleted name m = ground (arith, lookup-delete name name m, same_refl name)

undeleted :
    {V : Type 0} (name j : Text) (m : Dict V)
    → same name j ≡ false
    → lookup j (delete name m) ≡ lookup j m
undeleted name j m h = ground (arith, lookup-delete name j m)

removed_ok :
    {W : Type 0} (host : Host W) (config : Config) (name : Text) (remove_env : Bool) (m : Manager W)
    (p : W × Bool)
    → (uninstalled host config name remove_env m p).1 ≡ ok tt
    → (uninstalled host config name remove_env m p).0.tools ≡ delete name m.tools
removed_ok host config name remove_env m (w, false) h = cc
removed_ok host config name remove_env m (w, true) h = refl

module _ {W : Type 0} where
  -- Two nodes that only differ in their events
  abbrev AreAlike : Node W → Node W → Type 0
  AreAlike n m =
      (n.executor ≡ m.executor)
      × (n.manager ≡ m.manager)
      × (n.streams ≡ m.streams)
      × (n.mesh ≡ m.mesh)
      × (n.live ≡ m.live)

  emit-AreAlike : (event : Event) (n : Node W) → AreAlike (emit event n) n
  emit-AreAlike event n = elim (Bool-cases n.has_bus) [
    | inl e ↦ rw e (refl, refl, refl, refl, refl)
    | inr e ↦ rw e (refl, refl, refl, refl, refl)
  ]

  after_stop-AreAlike :
      (name : Text) (n : Node W) (p : Executor × Result ToolError (Unit {0}))
      → AreAlike (after_stop name n p) (record n { executor = p.0 })
  unfolding after_stop
  after_stop-AreAlike name n (e, ok u) = emit-AreAlike _ (record n { executor = e })
  after_stop-AreAlike name n (e, err x) = (refl, refl, refl, refl, refl)

  -- What is done before the manager removes the tool: the tool is stopped, its service and its
  -- subjects on the node have no subscription, and its streams are ended and deleted.
  released_lem :
      (name j subject : Text) (n : Node W)
      → IsConsistent n.executor
      → is_some (lookup name n.executor.tools) ≡ true
      → same name j ≡ false
      → (is_running (released name n).executor name ≡ false)
        × (is_running (released name n).executor j ≡ is_running n.executor j)
        × ((released name n).manager ≡ n.manager)
        × ((released name n).streams ≡ delete name n.streams)
        × All
            (λ s. has_prefix s (subject_prefix (released name n).mesh.node_name name) ≡ false)
            (released name n).mesh.node_subs
        × ((t : Text)
            → count t (released name n).mesh.services
              ≡ count t n.mesh.services - (if same name t then 1 else 0))
        × (count subject (released name n).live
            ≡ count subject n.live - count subject (noted (lookup name n.streams)))
        × ((released name n).mesh.registrations ≡ n.mesh.registrations)
  unfolding released unregister_streaming_subjects unregister_tool
  released_lem name j subject n h known other =
      let p = stop name n.executor in
      let (a, b, c, d, e) = after_stop-AreAlike name n p in
      let (gone, kept) = stop-is_running name j n.executor h known other in
      (
        ap (λ e. is_running e name) a ∙ gone,
        ap (λ e. is_running e j) a ∙ kept,
        b,
        ap (delete name) c,
        remove_subs-All _ _,
        λ t.
            count-remove_service name t (after_stop name n p).mesh.services
            ∙ ap (λ m. count t m.services - (if same name t then 1 else 0)) d,
        count-unsubscribe_all subject (noted (lookup name (after_stop name n p).streams))
              (after_stop name n p).live
            ∙ ap
                (λ l.
                  count subject l
                  - count subject (noted (lookup name (after_stop name n p).streams)))
                e
            ∙ ap (λ m. count subject n.live - count subject (noted (lookup name m))) c,
        ap (λ m. m.registrations) d,
      )

  uninstall_found-ok :
      (host : Host W) (config : Config) (name j : Text) (remove_env : Bool) (m : Manager W)
      (o : Option Tool)
      → (uninstall_found host config name remove_env m o).1 ≡ ok tt
      → (uninstall_found host config name remove_env m o).0.tools ≡ delete name m.tools
  unfolding uninstall_found
  uninstall_found-ok host config name j remove_env m none h = cc
  uninstall_found-ok host config name j remove_env m (some tool) h =
      removed_ok host config name remove_env m _ h

  uninstalled-ok :
      (name : Text) (n : Node W) (p : Manager W × Result ManagerError (Unit {0}))
      → (N.uninstalled name n p).1 ≡ ok tt
      → (p.1 ≡ ok tt)
        × AreAlike (N.uninstalled name n p).0 (record n {
          manager = p.0;
          executor = record n.executor { tools = delete name n.executor.tools };
        })
  unfolding N.uninstalled
  uninstalled-ok name n (m, ok u) h = (refl, emit-AreAlike _ _)
  uninstalled-ok name n (m, err e) h = cc

  -- After a removal that succeeds, of a tool that a consistent executor knows: the manager and the
  -- executor do not have the tool, it does not run, one service of its name has been stopped if there
  -- was one, no subscription of the mesh client is to its subjects on the node, no streams are noted
  -- for it, and a subject has as many of the node's own subscriptions fewer as were noted for the
  -- tool's streams. Its saved registration stays. Every other tool is there, runs, and has its
  -- streams and services exactly as before.
  pub uninstall_tool-IsGone :
      (host : Host W) (config : Config) (name j subject : Text) (remove_env : Bool) (n : Node W)
      → IsConsistent n.executor
      → is_some (lookup name n.executor.tools) ≡ true
      → (uninstall_tool host config name remove_env n).1 ≡ ok tt
      → same name j ≡ false
      → IsGone name subject n (uninstall_tool host config name remove_env n).0
        × IsKept j n (uninstall_tool host config name remove_env n).0
  unfolding uninstall_tool uninstall
  uninstall_tool-IsGone host config name j subject remove_env n h known success other =
      let ready = released name n in
      let (gone, kept, managed, streamed, unserved, served, ended, saved) =
        released_lem name j subject n h known other in
      let p = uninstall host config name remove_env ready.manager in
      let (success', (a, b, c, d, e)) = uninstalled-ok name ready p success in
      let removed : p.0.tools ≡ delete name n.manager.tools =
        uninstall_found-ok host config name j remove_env ready.manager _ success'
        ∙ ap (λ m. delete name m.tools) managed in
      (
        (
          ap (λ m. lookup name m.tools) b ∙ ap (lookup name) removed ∙ deleted name n.manager.tools,
          ap (λ e. lookup name e.tools) a ∙ deleted name ready.executor.tools,
          ap (λ e. is_running e name) a ∙ gone,
          subst (λ m. All (λ s. has_prefix s (subject_prefix m.node_name name) ≡ false) m.node_subs)
              (sym d) unserved,
          ap (lookup name) c ∙ ap (lookup name) streamed ∙ deleted name n.streams,
          ap (λ m. count name m.services) d
              ∙ served name
              ∙ ap (λ b. count name n.mesh.services - (if b then 1 else 0)) (same_refl name),
          ap (count subject) e ∙ ended,
          ap (λ m. m.registrations) d ∙ saved,
        ),
        (
          ap (λ m. lookup j m.tools) b
              ∙ ap (lookup j) removed
              ∙ undeleted name j n.manager.tools other,
          ap (λ e. is_running e j) a ∙ kept,
          ap (lookup j) c ∙ ap (lookup j) streamed ∙ undeleted name j n.streams other,
          ap (λ m. count j m.services) d
              ∙ served j
              ∙ ap (λ b. count j n.mesh.services - (if b then 1 else 0)) other
              ∙ minus_zero (count j n.mesh.services),
        ),
      )
