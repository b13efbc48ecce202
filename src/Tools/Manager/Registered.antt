-- ===== src/Tools/Manager/Registered.antt =====
-- The registry of the tool manager: what its operations keep, and what a failure leaves.
use jb_mesh.Base.Result.{ok-injective, Result-cases, Result, err, ok}
use jb_mesh.Base.{
  Option-cases, arith, subst, sym, ◌∙◌, ap, some-injective, Bool-cases, inr, refl, ◌≡◌, inl, Bool,
  true, false, Option, none, some, List, ◌∷◌, [],
}
use jb_mesh.Base.Dict.{lookup-delete, delete, insert, lookup-insert, Dict, lookup}
use jb_mesh.Base.Text.{same_iff, same, Text}
use jb_mesh.Manifest.{Manifest}
use jb_mesh.Tools.Manager.Host.{Host, Environment}
use jb_mesh.Tools.Manager.Action.{Action, ManagerError, after, cleaned_after}
use jb_mesh.Tools.Manager.Registry.{
  Manager, Tool, Config, new_manager, install, update, uninstall, load_all, load_entries, load_one,
  load_listed, prepare_at, not_installed, entered, uninstalled, uninstall_found, refreshed,
  update_found, same_name, refresh, rebuilt,
}

-- What a sequence of two operations that succeeds went through.
after-ok :
    {W A B : Type 0} (p : W × Result ManagerError A) (f : A → Action W B) {v : W} {b : B}
    → after p f ≡ (v, ok b)
    → (u : W) × (a : A) × (p ≡ (u, ok a)) × (f a u ≡ (v, ok b))
unfolding after
after-ok (w, ok a) f h = (w, a, refl, h)
after-ok (w, err e) f h = let no = ap (λ q. q.1) h in cc

cleaned_after-ok :
    {W A : Type 0} (clean : W → W) (p : W × Result ManagerError A) {v : W} {a : A}
    → cleaned_after clean p ≡ (v, ok a)
    → p ≡ (v, ok a)
unfolding cleaned_after
cleaned_after-ok clean (w, ok a) h = h
cleaned_after-ok clean (w, err e) h = let no = ap (λ q. q.1) h in cc

-- Each tool stands under its own name, which is also the name that its manifest gives it.
abbrev pub IsRegistry : Dict Tool → Type 0
IsRegistry tools =
    (name : Text) (tool : Tool)
    → lookup name tools ≡ some tool
    → (tool.name ≡ name) × (tool.manifest.name ≡ name)

insert-IsRegistry :
    (name : Text) (tool : Tool) (tools : Dict Tool)
    → IsRegistry tools
    → tool.name ≡ name
    → tool.manifest.name ≡ name
    → IsRegistry (insert name tool tools)
insert-IsRegistry name tool tools h a b other t found = elim (Bool-cases (same name other)) [
  | inl e ↦
      let found' = rw (lookup-insert name other tool tools, e) at found in
      let same_tool = some-injective found' in
      let same_key = (same_iff name other).0 e in
      (
        sym (ap (λ u. u.name) same_tool) ∙ a ∙ same_key,
        sym (ap (λ u. u.manifest.name) same_tool) ∙ b ∙ same_key,
      )
  | inr n ↦ h other t (rw (lookup-insert name other tool tools, n) at found)
]

delete-IsRegistry :
    (name : Text) (tools : Dict Tool) → IsRegistry tools → IsRegistry (delete name tools)
delete-IsRegistry name tools h other t found = elim (Bool-cases (same name other)) [
  | inl e ↦ let found' = rw (lookup-delete name other tools, e) at found in cc
  | inr n ↦ h other t (rw (lookup-delete name other tools, n) at found)
]

not_installed-ok :
    (manifest : Manifest) (o : Option Tool) {u : Unit {0}}
    → not_installed manifest o ≡ ok u
    → o ≡ none
unfolding not_installed
not_installed-ok manifest none h = refl
not_installed-ok manifest (some tool) h = cc

load_one-IsRegistry :
    (path : Text) (is_dir : Bool) (r : Result ManagerError Manifest) (tools : Dict Tool)
    → IsRegistry tools
    → IsRegistry (load_one path is_dir r tools)
unfolding load_one
load_one-IsRegistry path false r tools h = h
load_one-IsRegistry path true (err e) tools h = h
load_one-IsRegistry path true (ok manifest) tools h =
    insert-IsRegistry manifest.name _ tools h refl refl

module _ {W : Type 0} (host : Host W) (config : Config) where
  -- What is prepared has the name of its manifest, which is not in the map.
  prepare_at-ok :
      (tools : Dict Tool) (path : Text) (w v : W) {tool : Tool}
      → prepare_at host config tools path w ≡ (v, ok tool)
      → (tool.name ≡ tool.manifest.name) × (lookup tool.manifest.name tools ≡ none)
  unfolding prepare_at
  prepare_at-ok tools path w v h =
      let (u1, manifest, e1, h1) = after-ok _ _ h in
      let (u2, fresh, e2, h2) = after-ok _ _ h1 in
      let (u3, env, e3, h3) = after-ok _ _ h2 in
      let (u4, x4, e4, h4) = after-ok _ _ h3 in
      let (u5, x5, e5, h5) = after-ok _ _ h4 in
      let made = ok-injective (ap (λ p. p.1) h5) in
      let absent =
        not_installed-ok manifest (lookup manifest.name tools)
          (ap (λ p. p.1) (cleaned_after-ok _ _ e2)) in
      (
        subst (λ t. t.name ≡ t.manifest.name) made refl,
        subst (λ t. lookup t.manifest.name tools ≡ none) made absent,
      )

  load_listed-err :
      (m : Manager W) (missing : Bool)
      → IsRegistry m.tools
      → IsRegistry (load_listed host config m (err missing)).0.tools
  unfolding load_listed
  load_listed-err m true h = h
  load_listed-err m false h = h

  same_name-ok :
      (tool : Tool) (manifest : Manifest) {u : Unit {0}}
      → same_name host config tool manifest ≡ ok u
      → manifest.name ≡ tool.manifest.name
  unfolding same_name
  same_name-ok tool manifest h = ground (arith, same_iff manifest.name tool.manifest.name)

  entered-IsRegistry :
      (m : Manager W) (p : W × Result ManagerError Tool)
      → IsRegistry m.tools
      → ((v : W) (tool : Tool) → p ≡ (v, ok tool) → tool.name ≡ tool.manifest.name)
      → IsRegistry (entered host config m p).0.tools
  entered-IsRegistry m (w, ok tool) h k =
      insert-IsRegistry tool.manifest.name tool m.tools h (k w tool refl) refl
  entered-IsRegistry m (w, err e) h k = h

  install-IsRegistry :
      (source : Text) (m : Manager W)
      → IsRegistry m.tools
      → IsRegistry (install host config source m).0.tools
  unfolding install
  install-IsRegistry source m h = entered-IsRegistry m _ h (λ v tool e.
      let (u, path, fetched, prepared) = after-ok _ _ e in
      (prepare_at-ok m.tools path u v prepared).0)

  load_entries-IsRegistry :
      (entries : List Text) (w : W) (tools : Dict Tool)
      → IsRegistry tools
      → IsRegistry (load_entries host config entries w tools)
  unfolding load_entries
  load_entries-IsRegistry [] w tools h = h
  load_entries-IsRegistry (entry ∷ entries) w tools h =
      load_entries-IsRegistry entries w _ (load_one-IsRegistry _ _ _ tools h)

  load_all-IsRegistry :
      (m : Manager W) → IsRegistry m.tools → IsRegistry (load_all host config m).0.tools
  unfolding load_all load_listed
  load_all-IsRegistry m h = elim (Result-cases (host.read_dir config.tools_dir m.world)) [
    | inl (entries, e) ↦
        subst (λ r. IsRegistry (load_listed host config m r).0.tools) (sym e)
          (load_entries-IsRegistry entries m.world m.tools h)
    | inr (missing, e) ↦
        subst (λ r. IsRegistry (load_listed host config m r).0.tools) (sym e)
          (load_listed-err m missing h)
  ]

  uninstalled-IsRegistry :
      (name : Text) (remove_env : Bool) (m : Manager W) (p : W × Bool)
      → IsRegistry m.tools
      → IsRegistry (uninstalled host config name remove_env m p).0.tools
  uninstalled-IsRegistry name remove_env m (w, false) h = h
  uninstalled-IsRegistry name remove_env m (w, true) h = delete-IsRegistry name m.tools h

  uninstall_found-IsRegistry :
      (name : Text) (remove_env : Bool) (m : Manager W) (o : Option Tool)
      → IsRegistry m.tools
      → IsRegistry (uninstall_found host config name remove_env m o).0.tools
  unfolding uninstall_found
  uninstall_found-IsRegistry name remove_env m none h = h
  uninstall_found-IsRegistry name remove_env m (some tool) h =
      uninstalled-IsRegistry name remove_env m _ h

  -- What a refresh gives has the tool's name.
  refresh-ok :
      (tool : Tool) (w v : W) {manifest : Manifest}
      → refresh host config tool w ≡ (v, ok manifest)
      → manifest.name ≡ tool.manifest.name
  unfolding refresh
  refresh-ok tool w v h =
      let (u1, x1, e1, h1) = after-ok _ _ h in
      let (u2, manifest, e2, h2) = after-ok _ _ h1 in
      let (u3, x3, e3, h3) = after-ok _ _ h2 in
      let made = ok-injective (ap (λ p. p.1) h3) in
      subst (λ t. t.name ≡ tool.manifest.name) made (same_name-ok tool manifest (ap (λ p. p.1) e3))

  rebuilt-IsRegistry :
      (name : Text) (tool : Tool) (m : Manager W) (p : W × Result ManagerError (Option Environment))
      → IsRegistry m.tools
      → tool.name ≡ name
      → tool.manifest.name ≡ name
      → IsRegistry (rebuilt host config name tool m p).0.tools
  rebuilt-IsRegistry name tool m (w, ok none) h a b = insert-IsRegistry name tool m.tools h a b
  rebuilt-IsRegistry name tool m (w, ok (some env)) h a b = insert-IsRegistry name _ m.tools h a b
  rebuilt-IsRegistry name tool m (w, err e) h a b = insert-IsRegistry name tool m.tools h a b

  refreshed-IsRegistry :
      (name : Text) (clean : Bool) (tool : Tool) (m : Manager W)
      (p : W × Result ManagerError Manifest)
      → IsRegistry m.tools
      → lookup name m.tools ≡ some tool
      → ((v : W) (manifest : Manifest) → p ≡ (v, ok manifest) → manifest.name ≡ tool.manifest.name)
      → IsRegistry (refreshed host config name clean tool m p).0.tools
  unfolding refreshed
  refreshed-IsRegistry name clean tool m (w, err e) h found k = h
  refreshed-IsRegistry name clean tool m (w, ok manifest) h found k =
      rebuilt-IsRegistry name _ m _ h (h name tool found).0
        (k w manifest refl ∙ (h name tool found).1)

  update-IsRegistry :
      (name : Text) (clean : Bool) (m : Manager W)
      → IsRegistry m.tools
      → IsRegistry (update host config name clean m).0.tools
  unfolding update update_found
  update-IsRegistry name clean m h = elim (Option-cases (lookup name m.tools)) [
    | inl e ↦ subst (λ o. IsRegistry (update_found host config name clean m o).0.tools) (sym e) h
    | inr (tool, e) ↦
        subst (λ o. IsRegistry (update_found host config name clean m o).0.tools) (sym e)
          (refreshed-IsRegistry name clean tool m _ h e
            (λ v manifest k. refresh-ok tool m.world v k))
  ]

  uninstall-IsRegistry :
      (name : Text) (remove_env : Bool) (m : Manager W)
      → IsRegistry m.tools
      → IsRegistry (uninstall host config name remove_env m).0.tools
  unfolding uninstall
  uninstall-IsRegistry name remove_env m h = uninstall_found-IsRegistry name remove_env m _ h

  -- The managers that a new one can become; the machine also changes by itself.
  pub data Reachable : Manager W → Type 0 where
    fresh : (w : W) → Reachable (new_manager w)
    elapsed : {m : Manager W} → Reachable m → (w : W) → Reachable (record m { world = w })
    scanned : {m : Manager W} → Reachable m → Reachable (load_all host config m).0
    installed_from :
        {m : Manager W} → Reachable m → (source : Text) → Reachable (install host config source m).0
    updated :
        {m : Manager W}
        → Reachable m
        → (name : Text) (clean : Bool) → Reachable (update host config name clean m).0
    removed_by :
        {m : Manager W}
        → Reachable m
        → (name : Text) (remove_env : Bool) → Reachable (uninstall host config name remove_env m).0

  -- After any sequence of loads, installations, updates and removals, failed ones included, and
  -- whatever happens on the machine in between, each tool of the manager stands under its own name,
  -- and its manifest has that name.
  pub Reachable-IsRegistry : {m : Manager W} → Reachable m → IsRegistry m.tools
  unfolding lookup
  Reachable-IsRegistry (fresh w) = λ name tool found. cc
  Reachable-IsRegistry (elapsed r w) = Reachable-IsRegistry r
  Reachable-IsRegistry (scanned {m} r) = load_all-IsRegistry m (Reachable-IsRegistry r)
  Reachable-IsRegistry (installed_from {m} r source) =
      install-IsRegistry source m (Reachable-IsRegistry r)
  Reachable-IsRegistry (updated {m} r name clean) =
      update-IsRegistry name clean m (Reachable-IsRegistry r)
  Reachable-IsRegistry (removed_by {m} r name remove_env) =
      uninstall-IsRegistry name remove_env m (Reachable-IsRegistry r)
