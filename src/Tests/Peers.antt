-- ===== src/Tests/Peers.antt =====
-- pkg/discovery and the split-brain decision of pkg/node on concrete peers.
use jb_mesh.Base.{◌∷◌, [], refl, true, arith, ◌≡◌, ◌⊎◌, some, none}
use jb_mesh.Base.Dict.{lookup}
use jb_mesh.Base.Text.{lit, same}
use jb_mesh.Base.Int.{pos}
use jb_mesh.Discovery.Peers.{Peer, IsSeed, IsBest, find_seed, find_seed_lem}
use jb_mesh.Discovery.Txt.{DiscoveryConfig, ServiceEntry, txt_records, entry_to_peer, as_peer}
use jb_mesh.Discovery.Txt.RoundTrip.{entry_to_peer-txt_records}
use jb_mesh.Discovery.Browse.{Discovery, timed_out, browse_once}
use jb_mesh.Discovery.Browse.Rounds.{latest, browse_once_lem}
use jb_mesh.Node.SplitBrain.{
  Seed, nothing, demote_to, on_peer_found, on_peer_found-settles, Chain, on_peer_found-acyclic,
}

abbrev older : DiscoveryConfig
older = record {
  node_name = lit "alpha";
  nats_port = pos 4222;
  leaf_port = pos 7422;
  role = lit "seed";
  service_type = lit "_jb-mesh._tcp";
  domain = lit "local.";
  enabled = true;
  version = lit "v1.0.0";
  tool_count = pos 2;
  started_at = pos 100;
}

abbrev older_entry : ServiceEntry
older_entry = record {
  instance_name = lit "alpha";
  host_name = lit "alpha.local";
  port = pos 4222;
  addr_ipv4 = lit "10.0.0.1" ∷ [];
  addr_ipv6 = [];
  text = txt_records older;
}

abbrev alpha : Peer
alpha = as_peer older older_entry

abbrev beta : Peer
beta = record alpha { name = lit "beta"; started_at = pos 200 }

abbrev gamma : Peer
gamma = record alpha { name = lit "gamma"; started_at = pos 100 }

abbrev seed : Peer → Seed
seed p = record { name = p.name; started_at = p.started_at; is_seed = true }

find_seed_test : find_seed (beta ∷ alpha ∷ []) ≡ some alpha
unfolding find_seed same
find_seed_test = refl

find_seed_lem_example :
    (find_seed (beta ∷ alpha ∷ []) ≡ none → (¬ IsSeed beta) × ((¬ IsSeed alpha) × Unit {0}))
    × ((p : Peer) → find_seed (beta ∷ alpha ∷ []) ≡ some p → IsBest p (beta ∷ alpha ∷ []))
find_seed_lem_example = find_seed_lem (beta ∷ alpha ∷ [])

entry_to_peer-txt_records_example : entry_to_peer (some older_entry) ≡ some alpha
entry_to_peer-txt_records_example =
    entry_to_peer-txt_records older older_entry (omega arith, omega arith, omega arith, omega arith)
      refl

abbrev listener : Discovery
listener = record {
  node_name = lit "beta";
  peers = (lit "gamma", gamma) ∷ [];
  on_found = 0 ∷ [];
  on_lost = 1 ∷ [];
}

browse_once_lem_example :
    lookup (lit "alpha") (browse_once timed_out (some older_entry ∷ none ∷ []) listener).0.peers
    ≡ latest (lit "beta") (lit "alpha") (some older_entry ∷ none ∷ [])
browse_once_lem_example = browse_once_lem listener (some older_entry ∷ none ∷ []) (lit "alpha")

on_peer_found-settles_example :
    ((on_peer_found (seed beta) alpha ≡ demote_to alpha)
      × (on_peer_found (seed alpha) beta ≡ nothing))
    ⊎ ((on_peer_found (seed beta) alpha ≡ nothing)
        × (on_peer_found (seed alpha) beta ≡ demote_to beta))
unfolding same
on_peer_found-settles_example =
    on_peer_found-settles (seed beta) (seed alpha) beta alpha refl refl refl (refl, refl, refl)
      (refl, refl, refl)

on_peer_found-acyclic_example : ¬ Chain (seed beta) (seed beta)
on_peer_found-acyclic_example = on_peer_found-acyclic (seed beta)
