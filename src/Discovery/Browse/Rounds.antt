-- ===== src/Discovery/Browse/Rounds.antt =====
-- What a node knows of its peers after a round of browsing.
use jb_mesh.Base.{
  is_some, false, sym, ap, arith, ◌∙◌, List, if◌then◌else◌, ℕ, none, refl, some, Option, ◌||◌, ◌∷◌,
  ◌≡◌, [],
}
use jb_mesh.Discovery.Browse.{
  see_one, after_round, Discovery, timed_out, accepted, Round, see_peer, see_entries, was_seen,
  drop_lost, browse_once,
}
use jb_mesh.Base.Dict.{lookup-insert, lookup-keep_keys, lookup}
use jb_mesh.Base.Text.{same, Text}
use jb_mesh.Discovery.Peers.{Peer}
use jb_mesh.Discovery.Txt.{ServiceEntry}

-- What an entry says of the node with that name.
abbrev pub about : Text → Option Peer → Option Peer
about name none = none
about name (some p) = if same p.name name then some p else none

abbrev pub news : Text → Text → Option ServiceEntry → Option Peer
news own name entry = about name (accepted own entry)

abbrev pub or_else {ℓ} : {A : Type ℓ} → Option A → Option A → Option A
or_else none b = b
or_else (some a) b = some a

-- The last thing that the entries say of the node with that name.
abbrev pub latest : Text → Text → List (Option ServiceEntry) → Option Peer
latest own name [] = none
latest own name (entry ∷ entries) = or_else (latest own name entries) (news own name entry)

or_else_assoc {ℓ} :
    {A : Type ℓ} (a b c : Option A) → or_else (or_else a b) c ≡ or_else a (or_else b c)
or_else_assoc none b c = refl
or_else_assoc (some a) b c = refl

or_else-none {ℓ} : {A : Type ℓ} (a : Option A) → or_else a none ≡ a
or_else-none none = refl
or_else-none (some a) = refl

peers-see_one :
    (name : Text) (on_found : List ℕ) (o : Option Peer) (r : Round)
    → lookup name (see_one on_found o r).peers ≡ or_else (about name o) (lookup name r.peers)
unfolding see_one see_peer
peers-see_one name on_found none r = refl
peers-see_one name on_found (some p) r = ground (arith, lookup-insert p.name name p r.peers)

seen-see_one :
    (name : Text) (on_found : List ℕ) (o : Option Peer) (r : Round)
    → was_seen (see_one on_found o r).seen name ≡ (is_some (about name o) || was_seen r.seen name)
unfolding see_one see_peer was_seen
seen-see_one name on_found none r = refl
seen-see_one name on_found (some p) r = ground arith

lookup-see_entries :
    (own name : Text) (on_found : List ℕ) (entries : List (Option ServiceEntry)) (r : Round)
    → lookup name (see_entries own on_found entries r).peers
      ≡ or_else (latest own name entries) (lookup name r.peers)
unfolding see_entries
lookup-see_entries own name on_found [] r = refl
lookup-see_entries own name on_found (entry ∷ entries) r =
    let o = accepted own entry in
    let peers = lookup-see_entries own name on_found entries (see_one on_found o r) in
    peers
    ∙ (ap (or_else (latest own name entries)) (peers-see_one name on_found o r)
        ∙ sym (or_else_assoc (latest own name entries) (about name o) (lookup name r.peers)))

was_seen-see_entries :
    (own name : Text) (on_found : List ℕ) (entries : List (Option ServiceEntry)) (r : Round)
    → was_seen (see_entries own on_found entries r).seen name
      ≡ (is_some (latest own name entries) || was_seen r.seen name)
unfolding see_entries
was_seen-see_entries own name on_found [] r = refl
was_seen-see_entries own name on_found (entry ∷ entries) r =
    let o = accepted own entry in
    let seen = was_seen-see_entries own name on_found entries (see_one on_found o r) in
    ground (arith, seen, seen-see_one name on_found o r)

settle {ℓ} : {A : Type ℓ} (a b : Option A) → (if is_some a || false then or_else a b else none) ≡ a
settle none b = refl
settle (some a) b = refl

-- After a round that ran to its timeout, the peer known under a name is the one that the last
-- entry of the round with that name describes, and no peer is known under a name that no entry of
-- the round has; entries that describe no peer, or the node itself, do not count.
pub browse_once_lem :
    (d : Discovery) (entries : List (Option ServiceEntry)) (name : Text)
    → lookup name (browse_once timed_out entries d).0.peers ≡ latest d.node_name name entries
unfolding browse_once drop_lost after_round
browse_once_lem d entries name =
    let fresh : Round = record { peers = d.peers; seen = []; calls = [] } in
    let after = see_entries d.node_name d.on_found entries fresh in
    let known = lookup-see_entries d.node_name name d.on_found entries fresh in
    let seen = was_seen-see_entries d.node_name name d.on_found entries fresh in
    lookup-keep_keys (was_seen after.seen) name after.peers
    ∙ rw (seen, known) (settle (latest d.node_name name entries) (lookup name d.peers))
