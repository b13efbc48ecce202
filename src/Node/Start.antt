-- ===== src/Node/Start.antt =====
-- pkg/node/node.go: what `New` decides before it starts anything: its checks of the options, the
-- ports and hosts, the role of the node, and the options of the embedded NATS server. The peers that
-- the browsing of the network finds are an argument, `none` if there is no browser, and so is the
-- parser of addresses.
pub mod Roles
use jb_mesh.Base.Result.{◌>>◌, ◌>>=◌, err, ok, guard, Result}
use jb_mesh.Base.{
  if◌then◌else◌, Bool, true, false, Option, none, some, List, ◌∷◌, [], ◌++◌, not, ◌&&◌, ◌||◌,
}
use jb_mesh.Base.Text.{same, is_empty, trim_space, Text, lit}
use jb_mesh.Base.Int.{int_eqb, ℤ, pos}
use jb_mesh.Discovery.Peers.{Peer, find_seed, leaf_url}
use jb_mesh.Node.Authorization.{Authorization, AuthError, prepare_authorization}
use jb_mesh.Node.Authorization.Users.{User, authorization_users}

-- `Config`
pub record NodeConfig : Type 0 where
  pub node_name : Text
  pub nats_url : Text
  pub token : Text
  pub username : Text
  pub password : Text
  pub authorization : Authorization
  pub role : Text
  pub leaf_address : Text
  pub no_mdns : Bool
  pub embed_port : ℤ
  pub embed_host : Text
  pub leaf_port : ℤ
  pub leaf_host : Text
  pub websocket_host : Text
  pub websocket_port : ℤ

-- The part of the file's configuration that is about NATS
pub record NatsConfig : Type 0 where
  pub embed_port : ℤ
  pub embed_host : Text
  pub leaf_host : Text
  pub store_dir : Text

pub data StartError : Type 0 where
  authorization_and_token token_and_user half_user authorization_and_url : StartError
  bad_authorization : AuthError → StartError
  no_remotes : StartError
  unknown_role : Text → StartError

abbrev pub is_blank : Text → Bool
is_blank s = is_empty (trim_space s)

abbrev pub with_authorization : Result AuthError Authorization → Result StartError Authorization
with_authorization (ok a) = ok a
with_authorization (err e) = err (bad_authorization e)

-- The checks at the beginning of `New`
unfoldable pub check_options : NodeConfig → Result StartError (Unit {0})
check_options cfg = do
  guard (not (cfg.authorization.enabled && not (is_empty cfg.token))) authorization_and_token
  guard
      (not
        (not (is_empty cfg.token) && (not (is_blank cfg.username) || not (is_blank cfg.password))))
      token_and_user
  guard
      (is_blank cfg.username && is_blank cfg.password
        || not (is_blank cfg.username) && not (is_blank cfg.password))
      half_user
  guard (not (cfg.authorization.enabled && not (is_blank cfg.nats_url))) authorization_and_url

-- These checks, and the prepared authorization
unfoldable pub check_config : Option Text → NodeConfig → Result StartError Authorization
unfolding check_options prepare_authorization
check_config random cfg = do
  check_options cfg
  (if cfg.authorization.enabled
      then with_authorization (prepare_authorization random cfg.authorization)
      else ok cfg.authorization)

abbrev pub default_nats_port : ℤ
default_nats_port = pos 4222

abbrev pub default_leaf_port : ℤ
default_leaf_port = pos 7422

abbrev pub port_or : ℤ → ℤ → ℤ
port_or port default = if int_eqb port (pos 0) then default else port

-- A host of the options, or else that of the file
abbrev pub host_or : Text → Text → Text
host_or host default = if is_blank host then trim_space default else trim_space host

pub record Role : Type 0 where
  pub role : Text
  pub remotes : List Text

-- The role after a search for a seed
abbrev pub found_role : Option Peer → Role
found_role none = record { role = lit "seed"; remotes = [] }
found_role (some seed) = record { role = lit "leaf"; remotes = leaf_url seed ∷ [] }

abbrev pub browsed_role : Option (List Peer) → Role → Role
browsed_role none r = r
browsed_role (some peers) r = found_role (find_seed peers)

abbrev pub forced_role : NodeConfig → Role
forced_role cfg = record {
  role = cfg.role;
  remotes =
      if same cfg.role (lit "leaf") && not (is_empty cfg.leaf_address)
      then cfg.leaf_address ∷ []
      else [];
}

abbrev pub seed_by_default : Role → Role
seed_by_default r = if is_empty r.role then record r { role = lit "seed" } else r

-- The role of a node that embeds a server
unfoldable pub decide_role : NodeConfig → Option (List Peer) → Role
unfolding find_seed leaf_url
decide_role cfg browsed = seed_by_default (
    if not cfg.no_mdns && is_empty cfg.role
    then browsed_role browsed (forced_role cfg)
    else forced_role cfg)

-- `embeddedNATSConfig`
pub record EmbeddedConfig : Type 0 where
  pub token : Text
  pub authorization : Authorization
  pub store_dir : Text
  pub host : Text
  pub port : ℤ
  pub node_name : Text
  pub role : Role
  pub leaf_host : Text
  pub leaf_port : ℤ
  pub websocket_host : Text
  pub websocket_port : ℤ

unfoldable pub embedded_config : NodeConfig → NatsConfig → Authorization → Role → EmbeddedConfig
embedded_config cfg file authz role = record {
  token = cfg.token;
  authorization = authz;
  store_dir = file.store_dir;
  host = host_or cfg.embed_host file.embed_host;
  port = port_or cfg.embed_port (port_or file.embed_port default_nats_port);
  node_name = cfg.node_name;
  role = role;
  leaf_host = host_or cfg.leaf_host file.leaf_host;
  leaf_port = port_or cfg.leaf_port default_leaf_port;
  websocket_host = cfg.websocket_host;
  websocket_port = cfg.websocket_port;
}

-- A seed listens for leaves; a leaf has the addresses of its seeds.
pub data LeafNode : Type 0 where
  listens : Text → ℤ → LeafNode
  joins : List Text → LeafNode

-- `natsserver.Options`, as far as they depend on the configuration
pub record ServerOptions : Type 0 where
  pub host : Text
  pub port : ℤ
  pub server_name : Text
  pub store_dir : Text
  pub authorization : Text
  pub users : List User
  pub websocket : Option (Text × ℤ)
  pub leaf_node : LeafNode

abbrev pub text_or_default : Text → Text → Text
text_or_default s d = if is_empty s then d else s

-- The remotes whose addresses parse
unfoldable pub parsed_remotes : (Text → Option Text) → List Text → List Text
parsed_remotes parse [] = []
parsed_remotes parse (remote ∷ remotes) =
    let rest = parsed_remotes parse remotes in
    elim (parse remote) [ none ↦ rest | some url ↦ url ∷ rest ]

abbrev pub joined : List Text → Result StartError LeafNode
joined [] = err no_remotes
joined (url ∷ urls) = ok (joins (url ∷ urls))

-- The switch over the role
unfoldable pub leaf_node_options :
    (Text → Option Text) → EmbeddedConfig → Result StartError LeafNode
unfolding parsed_remotes
leaf_node_options parse cfg =
    if same cfg.role.role (lit "seed")
    then ok (
        listens (text_or_default cfg.leaf_host (lit "0.0.0.0"))
          (port_or cfg.leaf_port default_leaf_port))
    else if same cfg.role.role (lit "leaf")
    then joined (parsed_remotes parse cfg.role.remotes)
    else err (unknown_role cfg.role.role)

abbrev pub websocket_options : Text → ℤ → Option (Text × ℤ)
websocket_options host port =
    if int_eqb port (pos 0) then none else some (text_or_default host (lit "127.0.0.1"), port)

-- `embeddedNATSOptions`
unfoldable pub embedded_nats_options :
    (Text → Option Text) → EmbeddedConfig → Result StartError ServerOptions
unfolding leaf_node_options authorization_users
embedded_nats_options parse cfg = do
  leaf ← leaf_node_options parse cfg
  ok (record {
    host = text_or_default cfg.host (lit "0.0.0.0");
    port = port_or cfg.port default_nats_port;
    server_name = cfg.node_name;
    store_dir = cfg.store_dir;
    authorization = cfg.token;
    users = if cfg.authorization.enabled then authorization_users cfg.authorization else [];
    websocket = websocket_options cfg.websocket_host cfg.websocket_port;
    leaf_node = leaf;
  })

-- `New` up to the start of the embedded server, for a node that embeds one
unfoldable pub new_options :
    (Text → Option Text)
    → Option Text
    → NatsConfig
    → NodeConfig
    → Option (List Peer)
    → Result StartError ServerOptions
unfolding check_config decide_role embedded_config embedded_nats_options
new_options parse random file cfg browsed = do
  authz ← check_config random cfg
  embedded_nats_options parse (embedded_config cfg file authz (decide_role cfg browsed))
