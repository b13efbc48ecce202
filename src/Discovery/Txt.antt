-- ===== src/Discovery/Txt.antt =====
-- pkg/discovery/discovery.go: the TXT records that a node advertises, and `entryToPeer`, which
-- reads those of another node.
pub mod RoundTrip
use jb_mesh.Base.{
  true, ap, inr, inl, Bool-cases, ◌∙◌, refl, List, if◌then◌else◌, Option, ◌&&◌, [], Bool, ◌≡◌, none,
  ◌++◌, some, ◌∷◌,
}
use jb_mesh.Base.Text.{is_empty, lit, cut, same, Text}
use jb_mesh.Base.Int.{int_eqb, int_ltb, ℤ, pos}
use jb_mesh.Base.Result.{err, ok, Result}
use jb_mesh.Base.Decimal.{itoa, atoi, atoi-itoa, InRange}
use jb_mesh.Discovery.Peers.{Peer}

pub record DiscoveryConfig : Type 0 where
  pub node_name : Text
  pub nats_port : ℤ
  pub leaf_port : ℤ
  pub role : Text
  pub service_type : Text
  pub domain : Text
  pub enabled : Bool
  pub version : Text
  pub tool_count : ℤ
  pub started_at : ℤ

pub data Error : Type 0 where
  node_name_required : Error

-- `NewDiscovery`: the configuration with its defaults
unfoldable pub new_discovery : DiscoveryConfig → Result Error DiscoveryConfig
new_discovery cfg =
    if is_empty cfg.node_name
    then err node_name_required
    else ok (record cfg {
      nats_port = if int_eqb cfg.nats_port (pos 0) then pos 4222 else cfg.nats_port;
      service_type = if is_empty cfg.service_type then lit "_jb-mesh._tcp" else cfg.service_type;
      domain = if is_empty cfg.domain then lit "local." else cfg.domain;
    })

-- What zeroconf delivers of a service, as far as the code reads it.
pub record ServiceEntry : Type 0 where
  pub instance_name : Text
  pub host_name : Text
  pub port : ℤ
  pub addr_ipv4 : List Text
  pub addr_ipv6 : List Text
  pub text : List Text

is_positive : ℤ → Bool
is_positive n = int_ltb (pos 0) n

-- A seed's leaf port, when it is set.
has_leaf_port : DiscoveryConfig → Bool
unfolding is_positive
has_leaf_port cfg = same cfg.role (lit "seed") && is_positive cfg.leaf_port

-- The records from each `append` of `startAdvertising` on.
from_tools : DiscoveryConfig → List Text
from_tools cfg = (lit "tools=" ++ itoa cfg.tool_count) ∷ []

from_started : DiscoveryConfig → List Text
unfolding from_tools is_positive
from_started cfg =
    if is_positive cfg.started_at
    then (lit "started=" ++ itoa cfg.started_at) ∷ from_tools cfg
    else from_tools cfg

from_version : DiscoveryConfig → List Text
unfolding from_started
from_version cfg =
    if is_empty cfg.version
    then from_started cfg
    else (lit "version=" ++ cfg.version) ∷ from_started cfg

from_leaf_port : DiscoveryConfig → List Text
unfolding from_version has_leaf_port
from_leaf_port cfg =
    if has_leaf_port cfg
    then (lit "leaf-port=" ++ itoa cfg.leaf_port) ∷ from_version cfg
    else from_version cfg

from_role : DiscoveryConfig → List Text
unfolding from_leaf_port
from_role cfg =
    if is_empty cfg.role then from_leaf_port cfg else (lit "role=" ++ cfg.role) ∷ from_leaf_port cfg

-- The TXT records that `startAdvertising` registers.
unfoldable pub txt_records : DiscoveryConfig → List Text
unfolding from_role
txt_records cfg =
    (lit "node=" ++ cfg.node_name) ∷ (lit "nats-port=" ++ itoa cfg.nats_port) ∷ from_role cfg

-- The value if it is a number, the old one if it is not.
number_or : Text → ℤ → ℤ
number_or val old = elim (atoi val) [ none ↦ old | some v ↦ v ]

-- The switch of `entryToPeer`; any other key is ignored.
set_field : Text → Text → Peer → Peer
unfolding number_or
set_field key val p =
    if same key (lit "nats-port")
    then record p { port = number_or val p.port }
    else if same key (lit "role")
    then record p { role = val }
    else if same key (lit "leaf-port")
    then record p { leaf_port = number_or val p.leaf_port }
    else if same key (lit "started")
    then record p { started_at = number_or val p.started_at }
    else if same key (lit "version")
    then record p { version = val }
    else if same key (lit "tools")
    then record p { tool_count = number_or val p.tool_count }
    else p

apply_txt : Text → Peer → Peer
unfolding set_field
apply_txt txt p = elim (cut b'=' txt) [ none ↦ p | some (key, val) ↦ set_field key val p ]

apply_all : List Text → Peer → Peer
unfolding apply_txt
apply_all [] p = p
apply_all (txt ∷ txts) p = apply_all txts (apply_txt txt p)

-- The first IPv4 address, or else the first IPv6 address; the empty text is the nil address.
pub choose_ip : List Text → List Text → Text
choose_ip (a ∷ _) v6 = a
choose_ip [] (a ∷ _) = a
choose_ip [] [] = []

fresh_peer : ServiceEntry → Peer
unfolding choose_ip
fresh_peer entry = record {
  name = entry.instance_name;
  host = entry.host_name;
  port = entry.port;
  leaf_port = pos 0;
  role = [];
  ip = choose_ip entry.addr_ipv4 entry.addr_ipv6;
  version = [];
  tool_count = pos 0;
  started_at = pos 0;
}

-- `none` is the nil pointer, of the entry and of the result.
unfoldable pub entry_to_peer : Option ServiceEntry → Option Peer
unfolding apply_all fresh_peer
entry_to_peer none = none
entry_to_peer (some entry) = some (apply_all entry.text (fresh_peer entry))

-- What another node can learn of this one: the leaf port is sent by a seed only, and it and the
-- start time only if positive.
abbrev pub as_peer : DiscoveryConfig → ServiceEntry → Peer
as_peer cfg entry = record {
  name = entry.instance_name;
  host = entry.host_name;
  port = cfg.nats_port;
  leaf_port =
      if same cfg.role (lit "seed") && int_ltb (pos 0) cfg.leaf_port then cfg.leaf_port else pos 0;
  role = cfg.role;
  ip = choose_ip entry.addr_ipv4 entry.addr_ipv6;
  version = cfg.version;
  tool_count = cfg.tool_count;
  started_at = if int_ltb (pos 0) cfg.started_at then cfg.started_at else pos 0;
}

abbrev pub IsSendable : DiscoveryConfig → Type 0
IsSendable cfg =
    InRange cfg.nats_port × InRange cfg.leaf_port × InRange cfg.tool_count × InRange cfg.started_at
