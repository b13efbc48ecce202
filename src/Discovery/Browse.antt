-- ===== src/Discovery/Browse.antt =====
-- pkg/discovery/discovery.go: `browseOnce`, a round of browsing, `Browse`, `Peers` and the
-- callbacks. The entries that zeroconf delivers in the round are a list; callbacks are numbers,
-- and a run of one is a `Call`.
pub mod Rounds
use jb_mesh.Base.{
  is_some, map, ℕ, if◌then◌else◌, some, false, List, none, ◌++◌, ◌∷◌, true, Bool, any, [], Option,
}
use jb_mesh.Base.Text.{same, Text}
use jb_mesh.Base.Dict.{insert, Dict, lookup, keep_keys}
use jb_mesh.Discovery.Peers.{Peer}
use jb_mesh.Discovery.Txt.{ServiceEntry, entry_to_peer}

pub record Discovery : Type 0 where
  pub node_name : Text
  pub peers : Dict Peer
  pub on_found : List ℕ
  pub on_lost : List ℕ

pub data Call : Type 0 where
  found lost : ℕ → Peer → Call

-- How a round ends: without a resolver, with an error of the browse call, with the node shutting
-- down, or with its timeout.
pub data Outcome : Type 0 where
  no_resolver browse_error shutting_down timed_out : Outcome

-- `OnPeerFound`
unfoldable pub on_peer_found : ℕ → Discovery → Discovery
on_peer_found f d = record d { on_found = d.on_found ++ f ∷ [] }

-- `OnPeerLost`
unfoldable pub on_peer_lost : ℕ → Discovery → Discovery
on_peer_lost f d = record d { on_lost = d.on_lost ++ f ∷ [] }

-- The peer of an entry, unless there is none or it is the node itself.
unfoldable pub accepted : Text → Option ServiceEntry → Option Peer
accepted own entry = elim (entry_to_peer entry) [
  | none ↦ none
  | some p ↦ if same p.name own then none else some p
]

-- `Browse`: the peers of one browse, in the order of the entries
unfoldable pub browse : Text → List (Option ServiceEntry) → List Peer
browse own [] = []
browse own (entry ∷ entries) =
    let rest = browse own entries in elim (accepted own entry) [ none ↦ rest | some p ↦ p ∷ rest ]

-- The state of a round: the names seen, and the callbacks run.
pub record Round : Type 0 where
  pub peers : Dict Peer
  pub seen : List Text
  pub calls : List Call

-- The body of the loop over the entries, for a peer that is accepted.
see_peer : List ℕ → Peer → Round → Round
see_peer on_found p r = record {
  peers = insert p.name p r.peers;
  seen = p.name ∷ r.seen;
  calls =
      if is_some (lookup p.name r.peers) then r.calls else r.calls ++ map (λ f. found f p) on_found;
}

see_one : List ℕ → Option Peer → Round → Round
unfolding see_peer
see_one on_found none r = r
see_one on_found (some p) r = see_peer on_found p r

see_entries : Text → List ℕ → List (Option ServiceEntry) → Round → Round
unfolding see_one
see_entries own on_found [] r = r
see_entries own on_found (entry ∷ entries) r =
    see_entries own on_found entries (see_one on_found (accepted own entry) r)

was_seen : List Text → Text → Bool
was_seen seen name = any (λ s. same s name) seen

-- The calls for the peers that were not seen.
lost_calls : List ℕ → List Text → Dict Peer → List Call
unfolding was_seen
lost_calls on_lost seen [] = []
lost_calls on_lost seen ((name, p) ∷ peers) =
    if was_seen seen name
    then lost_calls on_lost seen peers
    else map (λ f. lost f p) on_lost ++ lost_calls on_lost seen peers

-- Peers that the round did not see are removed.
drop_lost : List ℕ → Round → Round
unfolding lost_calls was_seen
drop_lost on_lost r = record {
  peers = keep_keys (was_seen r.seen) r.peers;
  seen = r.seen;
  calls = r.calls ++ lost_calls on_lost r.seen r.peers;
}

after_round : Discovery → Round → Discovery × List Call
after_round d r = (record d { peers = r.peers }, r.calls)

-- `browseOnce`
unfoldable pub browse_once :
    Outcome → List (Option ServiceEntry) → Discovery → Discovery × List Call
unfolding see_entries drop_lost after_round
browse_once no_resolver entries d = (d, [])
browse_once timed_out entries d = after_round d (
    drop_lost d.on_lost (
      see_entries d.node_name d.on_found entries
        (record { peers = d.peers; seen = []; calls = [] })))
browse_once _ entries d =
    after_round d (
      see_entries d.node_name d.on_found entries
        (record { peers = d.peers; seen = []; calls = [] }))
