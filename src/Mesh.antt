-- ===== src/Mesh.antt =====
-- pkg/mesh/mesh.go: the services and subscriptions of a mesh client. NATS's answers to a new
-- service, endpoint or subscription are the argument `nats`; the handlers themselves are left out.
pub mod Connect
pub mod Requests
pub mod Calls
use jb_mesh.Base.{
  arith, ◌-◌, ℕ, suc, subst, ◌∙◌, inr, if◌then◌else◌, sym, ◌∷◌, [], ◌&&◌, Bool-cases, Bool, inl,
  refl, ap, List, ◌++◌, any, all, true, ◌≡◌, false,
}
use jb_mesh.Base.Text.{same_sound, Text, lit, has_prefix, same}
use jb_mesh.Base.Count.{IsWithout, count-IsWithout}
use jb_mesh.Base.Result.{ok, err, Result}

pub record Nats : Type 0 where
  pub adds_service : Text → Bool
  pub adds_endpoint : Text → Text → Bool
  pub subscribes : Text → Bool

-- `toolRegistration`
pub record Registration : Type 0 where
  pub name : Text
  pub methods : List Text

-- `Mesh`: services by their names, subscriptions by their subjects
pub record Mesh : Type 0 where
  pub node_name : Text
  pub services : List Text
  pub node_subs : List Text
  pub registrations : List Registration

pub data MeshError : Type 0 where
  no_service no_endpoint : Text → MeshError

-- What all subjects of a tool on a node begin with.
unfoldable pub subject_prefix : Text → Text → Text
subject_prefix node tool = lit "node." ++ (node ++ (lit ".tools." ++ (tool ++ lit ".")))

node_subject : Text → Text → Text → Text
unfolding subject_prefix
node_subject node tool method = subject_prefix node tool ++ method

-- The loop over the methods; the subscriptions made before an endpoint is refused stay.
add_methods : Nats → Text → Text → List Text → List Text → List Text × Bool
unfolding node_subject
add_methods nats node tool [] subs = (subs, true)
add_methods nats node tool (method ∷ methods) subs =
    let subject = node_subject node tool method in
    let rest =
      add_methods nats node tool methods
        (if nats.subscribes subject then subs ++ subject ∷ [] else subs) in
    if nats.adds_endpoint tool method then rest else (subs, false)

abbrev add_service : Registration → Mesh → List Text × Bool → Mesh × Result MeshError (Unit {0})
add_service reg m (subs, true) =
    (record m { node_subs = subs; services = m.services ++ reg.name ∷ [] }, ok tt)
add_service reg m (subs, false) = (record m { node_subs = subs }, err (no_endpoint reg.name))

abbrev saved : Bool → Registration → Mesh → Mesh
saved save reg m = if save then record m { registrations = m.registrations ++ reg ∷ [] } else m

-- `registerToolLocked`
unfoldable pub register_tool_locked :
    Nats → Bool → Registration → Mesh → Mesh × Result MeshError (Unit {0})
unfolding add_methods
register_tool_locked nats save reg m =
    if nats.adds_service reg.name
    then add_service reg (saved save reg m)
        (add_methods nats m.node_name reg.name reg.methods m.node_subs)
    else (saved save reg m, err (no_service reg.name))

-- `RegisterTool`
unfoldable pub register_tool : Nats → Registration → Mesh → Mesh × Result MeshError (Unit {0})
unfolding register_tool_locked
register_tool nats reg m = register_tool_locked nats true reg m

register_all : Nats → List Registration → Mesh → Mesh
unfolding register_tool_locked
register_all nats [] m = m
register_all nats (reg ∷ regs) m = register_all nats regs (register_tool_locked nats false reg m).0

re_register : Nats → List Registration → Mesh → Mesh
unfolding register_all
re_register nats [] m = m
re_register nats (reg ∷ regs) m =
    register_all nats (reg ∷ regs) (record m { services = []; node_subs = [] })

-- `reRegisterTools`
unfoldable pub re_register_tools : Nats → Mesh → Mesh
unfolding re_register
re_register_tools nats m = re_register nats m.registrations m

-- The services without the first one of that name.
unfoldable pub remove_service : Text → List Text → List Text
remove_service name [] = []
remove_service name (s ∷ services) =
    if same s name then services else s ∷ remove_service name services

unfoldable pub remove_subs : Text → List Text → List Text
remove_subs prefix [] = []
remove_subs prefix (s ∷ subs) =
    let rest = remove_subs prefix subs in if has_prefix s prefix then rest else s ∷ rest

-- `UnregisterTool`
unfoldable pub unregister_tool : Text → Mesh → Mesh × Bool
unfolding remove_service remove_subs subject_prefix
unregister_tool name m = (
  record m {
    services = remove_service name m.services;
    node_subs = remove_subs (subject_prefix m.node_name name) m.node_subs;
  },
  any (λ s. same s name) m.services,
)

-- `Close`
unfoldable pub close_mesh : Mesh → Mesh
close_mesh m = record m { services = []; node_subs = [] }

pub count-remove_service :
    (name t : Text) (services : List Text) → IsWithout name remove_service services t
unfolding remove_service
count-remove_service name t services =
    count-IsWithout remove_service (λ name. refl) (λ name s ss. refl) name t services

-- NATS takes the tool with all of its methods.
abbrev pub is_served : Nats → Registration → Bool
is_served nats reg =
    nats.adds_service reg.name && all (λ method. nats.adds_endpoint reg.name method) reg.methods

abbrev pub served_names : Nats → List Registration → List Text
served_names nats [] = []
served_names nats (reg ∷ regs) =
    let rest = served_names nats regs in if is_served nats reg then reg.name ∷ rest else rest

add_methods-all :
    (nats : Nats) (node tool : Text) (methods subs : List Text)
    → (add_methods nats node tool methods subs).1
      ≡ all (λ method. nats.adds_endpoint tool method) methods
unfolding add_methods
add_methods-all nats node tool [] subs = refl
add_methods-all nats node tool (method ∷ methods) subs =
    elim (Bool-cases (nats.adds_endpoint tool method)) [
      | inl added ↦ rw added (add_methods-all nats node tool methods _)
      | inr refused ↦ rw refused refl
    ]

add_service-services :
    (reg : Registration) (m : Mesh) (p : List Text × Bool)
    → (add_service reg m p).0.services ≡ (if p.1 then m.services ++ reg.name ∷ [] else m.services)
add_service-services reg m (subs, true) = refl
add_service-services reg m (subs, false) = refl

append_assoc : (xs ys zs : List Text) → (xs ++ ys) ++ zs ≡ xs ++ (ys ++ zs)
append_assoc [] ys zs = refl
append_assoc (x ∷ xs) ys zs = ap (◌∷◌ x) (append_assoc xs ys zs)

append-nil : (xs : List Text) → xs ++ [] ≡ xs
append-nil [] = refl
append-nil (x ∷ xs) = ap (◌∷◌ x) (append-nil xs)

append-if :
    (b : Bool) (xs : List Text) (name : Text)
    → (if b then xs ++ name ∷ [] else xs) ≡ xs ++ (if b then name ∷ [] else [])
append-if true xs name = refl
append-if false xs name = sym (append-nil xs)

if-append :
    (b : Bool) (name : Text) (xs : List Text)
    → (if b then name ∷ [] else []) ++ xs ≡ (if b then name ∷ xs else xs)
if-append true name xs = refl
if-append false name xs = refl

register_tool_locked-services :
    (nats : Nats) (reg : Registration) (m : Mesh)
    → (register_tool_locked nats false reg m).0.services
      ≡ m.services ++ (if is_served nats reg then reg.name ∷ [] else [])
unfolding register_tool_locked
register_tool_locked-services nats reg m = elim (Bool-cases (nats.adds_service reg.name)) [
  | inl added ↦ rw added (
      add_service-services reg m (add_methods nats m.node_name reg.name reg.methods m.node_subs)
      ∙ (ap (λ b. if b then m.services ++ reg.name ∷ [] else m.services)
            (add_methods-all nats m.node_name reg.name reg.methods m.node_subs)
          ∙ append-if (all (λ method. nats.adds_endpoint reg.name method) reg.methods) m.services
              reg.name))
  | inr refused ↦ rw refused (sym (append-nil m.services))
]

register_all-services :
    (nats : Nats) (regs : List Registration) (m : Mesh)
    → (register_all nats regs m).services ≡ m.services ++ served_names nats regs
unfolding register_all
register_all-services nats [] m = sym (append-nil m.services)
register_all-services nats (reg ∷ regs) m =
    let added : List Text = if is_served nats reg then reg.name ∷ [] else [] in
    register_all-services nats regs (register_tool_locked nats false reg m).0
    ∙ (ap (λ s. s ++ served_names nats regs) (register_tool_locked-services nats reg m)
        ∙ (append_assoc m.services added (served_names nats regs)
            ∙ ap (λ s. m.services ++ s)
                (if-append (is_served nats reg) reg.name (served_names nats regs))))

-- A reconnect undoes an unregistration: where some registration was saved, the client has the same
-- services and subscriptions after it whether or not a tool was unregistered before, and its
-- services are those of all saved registrations that NATS takes with all their methods.
pub re_register_tools-unregister_tool :
    (nats : Nats) (name : Text) (m : Mesh) (reg : Registration) (regs : List Registration)
    → m.registrations ≡ reg ∷ regs
    → (re_register_tools nats (unregister_tool name m).0 ≡ re_register_tools nats m)
      × ((re_register_tools nats m).services ≡ served_names nats m.registrations)
unfolding re_register_tools re_register unregister_tool
re_register_tools-unregister_tool nats name m reg regs h = (
  subst (λ rs. re_register nats rs (unregister_tool name m).0 ≡ re_register nats rs m) (sym h) refl,
  subst (λ rs. (re_register nats rs m).services ≡ served_names nats rs) (sym h)
      (register_all-services nats (reg ∷ regs) (record m { services = []; node_subs = [] })),
)
