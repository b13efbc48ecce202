-- ===== src/Node/Start/Roles.antt =====
-- The server that a node embeds: who may connect to it, and which part it takes in the mesh.
use jb_mesh.Base.Result.{err, Result, ok, ok-injective, bind-eq-ok}
use jb_mesh.Base.{
  Bool, subst, ap, Bool-cases, if◌then◌else◌, ◌∙◌, Option-cases, sym, inr, inl, true, false, Option,
  none, some, List, ◌∷◌, [], ◌≡◌, refl,
}
use jb_mesh.Node.Start.{
  with_authorization, check_options, EmbeddedConfig, NodeConfig, NatsConfig, ServerOptions,
  LeafNode, listens, joins, new_options, check_config, decide_role, embedded_config,
  embedded_nats_options, leaf_node_options, parsed_remotes, joined, found_role,
}
use jb_mesh.Base.Text.{is_empty, same, Text}
use jb_mesh.Base.Int.{ℤ}
use jb_mesh.Discovery.Peers.{Peer, find_seed, leaf_url}
use jb_mesh.Node.Authorization.{Authorization, AuthError, prepare_authorization}
use jb_mesh.Node.Authorization.Users.{authorization_users, User}
use jb_mesh.Node.Authorization.Prepared.{prepare_authorization-enabled}

-- What a node that has found the peers is: it joins the seed that `find_seed` chooses, and listens
-- for leaves if there is none.
abbrev pub FollowsOne : (Text → Option Text) → Option Peer → LeafNode → Type 0
FollowsOne parse none leaf = (host : Text) × (port : ℤ) × (leaf ≡ listens host port)
FollowsOne parse (some seed) leaf =
    (url : Text) × (parse (leaf_url seed) ≡ some url) × (leaf ≡ joins (url ∷ []))

abbrev pub Follows : (Text → Option Text) → List Peer → LeafNode → Type 0
Follows parse peers leaf = FollowsOne parse (find_seed peers) leaf

-- Who may connect: with typed authorization the users of the prepared authorization and no one by a
-- token, and without it whoever has the token of the configuration.
abbrev pub IsGuardedBy : Bool → Option Text → NodeConfig → ServerOptions → Type 0
IsGuardedBy true random cfg options =
    (authz : Authorization) × (prepare_authorization random cfg.authorization ≡ ok authz)
    × (options.users ≡ authorization_users authz)
    × (options.authorization ≡ [])
IsGuardedBy false random cfg options = (options.users ≡ []) × (options.authorization ≡ cfg.token)

abbrev pub IsGuarded : Option Text → NodeConfig → ServerOptions → Type 0
IsGuarded random cfg options = IsGuardedBy cfg.authorization.enabled random cfg options

decide_role_browsed :
    (cfg : NodeConfig) (peers : List Peer)
    → cfg.no_mdns ≡ false
    → is_empty cfg.role ≡ true
    → decide_role cfg (some peers) ≡ found_role (find_seed peers)
unfolding decide_role
decide_role_browsed cfg peers h k = elim (Option-cases (find_seed peers)) [
  | inl e ↦ rw (h, k, e) refl
  | inr (seed, e) ↦ rw (h, k, e) refl
]

joined-ok : (urls : List Text) {leaf : LeafNode} → joined urls ≡ ok leaf → leaf ≡ joins urls
joined-ok [] h = cc
joined-ok (url ∷ urls) h = sym (ok-injective h)

parsed_one :
    (parse : Text → Option Text) (address : Text) (o : Option Text) {leaf : LeafNode}
    → parse address ≡ o
    → joined (parsed_remotes parse (address ∷ [])) ≡ ok leaf
    → (url : Text) × (parse address ≡ some url) × (leaf ≡ joins (url ∷ []))
unfolding parsed_remotes
parsed_one parse address none e h =
    let h' = sym (ap (λ o. joined (elim o [ none ↦ [] | some u ↦ u ∷ [] ])) e) ∙ h in cc
parsed_one parse address (some url) e h = (
  url,
  e,
  joined-ok (url ∷ []) (sym (ap (λ o. joined (elim o [ none ↦ [] | some u ↦ u ∷ [] ])) e) ∙ h),
)

leaf_node_options-Follows :
    (parse : Text → Option Text) (cfg : EmbeddedConfig) (o : Option Peer) {leaf : LeafNode}
    → cfg.role ≡ found_role o
    → leaf_node_options parse cfg ≡ ok leaf
    → FollowsOne parse o leaf
unfolding leaf_node_options same
leaf_node_options-Follows parse cfg none e h = let h' = rw e at h in (_, _, sym (ok-injective h'))
leaf_node_options-Follows parse cfg (some seed) e h =
    parsed_one parse (leaf_url seed) (parse (leaf_url seed)) refl (rw e at h)

empty_of_is_empty : (s : Text) → is_empty s ≡ true → s ≡ []
empty_of_is_empty [] h = refl
empty_of_is_empty (c ∷ s) h = cc

check_options-token :
    (cfg : NodeConfig) {u : Unit {0}}
    → check_options cfg ≡ ok u
    → cfg.authorization.enabled ≡ true
    → cfg.token ≡ []
unfolding check_options
check_options-token cfg h on = elim (Bool-cases (is_empty cfg.token)) [
  | inl e ↦ empty_of_is_empty cfg.token e
  | inr e ↦ let h' = rw (on, e) at h in cc
]

with_authorization-ok :
    (r : Result AuthError Authorization) {a : Authorization}
    → with_authorization r ≡ ok a
    → r ≡ ok a
with_authorization-ok (ok b) h = ap ok (ok-injective h)
with_authorization-ok (err e) h = cc

users_of : Authorization → List User
users_of a = if a.enabled then authorization_users a else []

-- What a configuration that is accepted makes of the users and the token
check_config-IsGuarded :
    (random : Option Text) (cfg : NodeConfig) (a : Authorization) (options : ServerOptions)
    → check_config random cfg ≡ ok a
    → options.users ≡ users_of a
    → options.authorization ≡ cfg.token
    → IsGuarded random cfg options
unfolding check_config users_of
check_config-IsGuarded random cfg a options h users token =
    let (u, checked, rest) = bind-eq-ok (check_options cfg) _ h in
    elim (Bool-cases cfg.authorization.enabled) [
      | inl on ↦
          let made = with_authorization-ok (prepare_authorization random cfg.authorization) (
            sym (
              ap
                (λ b.
                  if b
                  then with_authorization (prepare_authorization random cfg.authorization)
                  else ok cfg.authorization)
                on)
            ∙ rest) in
          subst (λ b. IsGuardedBy b random cfg options) (sym on)
            (
              a,
              made,
              users
                  ∙ ap (λ b. if b then authorization_users a else [])
                      (prepare_authorization-enabled random cfg.authorization on made),
              token ∙ check_options-token cfg checked on,
            )
      | inr off ↦
          let same_one = ok-injective (rw off at rest) in
          let off' = sym (ap (λ a. a.enabled) same_one) in
          subst (λ b. IsGuardedBy b random cfg options) (sym off)
            (users ∙ ap (λ b. if b then authorization_users a else []) off', token)
    ]

-- The embedded server of a node that searches for a seed, where its configuration is accepted: with
-- typed authorization its users are those of the prepared authorization and it has no token, and
-- without it it has no users and the token of the configuration; it joins the seed that FindSeed
-- chooses from the peers that were found, at that seed's address for leaves, and if there is none
-- it listens for leaves itself.
pub new_options-Follows :
    (parse : Text → Option Text) (random : Option Text) (file : NatsConfig) (cfg : NodeConfig)
    (peers : List Peer) (options : ServerOptions)
    → cfg.no_mdns ≡ false
    → is_empty cfg.role ≡ true
    → new_options parse random file cfg (some peers) ≡ ok options
    → Follows parse peers options.leaf_node × IsGuarded random cfg options
unfolding new_options embedded_nats_options embedded_config users_of
new_options-Follows parse random file cfg peers options h k e =
    let (authz, checked, e1) = bind-eq-ok (check_config random cfg) _ e in
    let embedded = embedded_config cfg file authz (decide_role cfg (some peers)) in
    let (leaf, made, e2) = bind-eq-ok (leaf_node_options parse embedded) _ e1 in
    let given = ok-injective e2 in
    (
      subst (λ o. Follows parse peers o.leaf_node) given
          (leaf_node_options-Follows parse embedded (find_seed peers)
            (decide_role_browsed cfg peers h k) made),
      subst (IsGuarded random cfg) given
          (check_config-IsGuarded random cfg authz _ checked refl refl),
    )
