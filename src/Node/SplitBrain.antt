-- ===== src/Node/SplitBrain.antt =====
-- pkg/node/node.go: `shouldDemote` and `onPeerFound`, which settle which of two seeds stays one.
use jb_mesh.Base.{
  sym, ◌∙◌, inr, ◌⊎◌, inl, Bool-cases, arith, ◌≡◌, [], if◌then◌else◌, not, true, ◌∷◌, false, Bool,
  refl,
}
use jb_mesh.Base.Text.{text_ltb, same_refl, same_iff, same, lit, Text}
use jb_mesh.Base.Int.{ℤ, int_ltb, int_eqb, int_ltb_trans, int_ltb_asymm, int_ltb_total, int_eqb_iff}
use jb_mesh.Discovery.Peers.{Peer}

pub record Seed : Type 0 where
  pub name : Text
  pub started_at : ℤ
  pub is_seed : Bool

-- `shouldDemote`
unfoldable pub should_demote : Seed → Peer → Bool
should_demote n other =
    if int_ltb other.started_at n.started_at
    then true
    else if int_eqb n.started_at other.started_at
    then text_ltb other.name n.name
    else false

pub data Reaction : Type 0 where
  nothing : Reaction
  demote_to : Peer → Reaction

-- `onPeerFound`
unfoldable pub on_peer_found : Seed → Peer → Reaction
unfolding should_demote
on_peer_found n peer =
    if not (same peer.role (lit "seed"))
    then nothing
    else if not n.is_seed
    then nothing
    else if should_demote n peer
    then demote_to peer
    else nothing

text_ltb-flip : (a b : Text) → same a b ≡ false → text_ltb a b ≡ not (text_ltb b a)
unfolding same
text_ltb-flip [] [] h = cc
text_ltb-flip [] (y ∷ ys) h = refl
text_ltb-flip (x ∷ xs) [] h = refl
text_ltb-flip (x ∷ xs) (y ∷ ys) h = ground (arith, text_ltb-flip xs ys)

pub text_ltb_trans :
    (a b c : Text) → text_ltb a b ≡ true → text_ltb b c ≡ true → text_ltb a c ≡ true
text_ltb_trans [] [] c h k = cc
text_ltb_trans [] (y ∷ ys) [] h k = cc
text_ltb_trans [] (y ∷ ys) (z ∷ zs) h k = refl
text_ltb_trans (x ∷ xs) [] c h k = cc
text_ltb_trans (x ∷ xs) (y ∷ ys) [] h k = cc
text_ltb_trans (x ∷ xs) (y ∷ ys) (z ∷ zs) h k = ground (arith, text_ltb_trans xs ys zs)

-- What another node sees of a seed: a peer with its name and start, in the role of a seed.
abbrev pub SeesAs : Seed → Peer → Type 0
SeesAs n p = (p.name ≡ n.name) × (p.started_at ≡ n.started_at) × (p.role ≡ lit "seed")

-- The younger seed gives way, and of two of the same age the one that is later in the alphabet.
demotes : ℤ → Text → ℤ → Text → Bool
demotes s m t n = if int_ltb t s then true else if int_eqb s t then text_ltb n m else false

demotes-flip : (s t : ℤ) (m n : Text) → same m n ≡ false → demotes s m t n ≡ not (demotes t n s m)
unfolding demotes
demotes-flip s t m n h = ground (
  arith,
  text_ltb-flip n m,
  same_iff m n,
  same_iff n m,
  int_ltb_asymm s t,
  int_ltb_asymm t s,
  int_ltb_total s t,
  int_eqb_iff s t,
  int_eqb_iff t s,
)

demotes_trans :
    (r s t : ℤ) (l m n : Text)
    → demotes r l s m ≡ true
    → demotes s m t n ≡ true
    → demotes r l t n ≡ true
unfolding demotes
demotes_trans r s t l m n h k = ground (
  arith,
  text_ltb_trans n m l,
  int_ltb_trans t s r,
  int_eqb_iff r s,
  int_eqb_iff s t,
  int_eqb_iff r t,
)

on_peer_found-demotes :
    (n o : Seed) (p : Peer)
    → SeesAs o p
    → n.is_seed ≡ true
    → on_peer_found n p
      ≡ (if demotes n.started_at n.name o.started_at o.name then demote_to p else nothing)
unfolding on_peer_found should_demote demotes
on_peer_found-demotes n o p sees is_seed = ground (arith, same_refl (lit "seed"))

acts : (b : Bool) (p : Peer) → (if b then demote_to p else nothing) ≡ demote_to p → b ≡ true
acts b p h = ground arith

-- Of two seeds with different names that find each other, one becomes a leaf of the other, and the
-- other stays a seed.
pub on_peer_found-settles :
    (a b : Seed) (p q : Peer)
    → same a.name b.name ≡ false
    → a.is_seed ≡ true
    → b.is_seed ≡ true
    → SeesAs a p
    → SeesAs b q
    → ((on_peer_found a q ≡ demote_to q) × (on_peer_found b p ≡ nothing))
      ⊎ ((on_peer_found a q ≡ nothing) × (on_peer_found b p ≡ demote_to p))
on_peer_found-settles a b p q differ a_seed b_seed sees_a sees_b =
    rw
      (
        on_peer_found-demotes a b q sees_b a_seed,
        on_peer_found-demotes b a p sees_a b_seed,
        demotes-flip a.started_at b.started_at a.name b.name differ,
      )
      (elim (Bool-cases (demotes b.started_at b.name a.started_at a.name)) [
        | inl e ↦ rw e (inr (refl, refl))
        | inr e ↦ rw e (inl (refl, refl))
      ])

-- A seed that gives way to another when it finds it
pub record GivesWay (a b : Seed) : Type 0 where
  pub peer : Peer
  pub is_seed : a.is_seed ≡ true
  pub sees : SeesAs b peer
  pub gives_way : on_peer_found a peer ≡ demote_to peer

-- Seeds each of which gives way to the next
pub data Chain : Seed → Seed → Type 0 where
  one : {a b : Seed} → GivesWay a b → Chain a b
  more : {a b c : Seed} → GivesWay a b → Chain b c → Chain a c

GivesWay-demotes :
    {a b : Seed} → GivesWay a b → demotes a.started_at a.name b.started_at b.name ≡ true
GivesWay-demotes {a} {b} g =
    acts _ g.peer (sym (on_peer_found-demotes a b g.peer g.sees g.is_seed) ∙ g.gives_way)

Chain-demotes : {a b : Seed} → Chain a b → demotes a.started_at a.name b.started_at b.name ≡ true
Chain-demotes (one g) = GivesWay-demotes g
Chain-demotes (more {a} {b} {c} g chain) =
    demotes_trans a.started_at b.started_at c.started_at a.name b.name c.name (GivesWay-demotes g)
      (Chain-demotes chain)

pub text_ltb_irrefl : (a : Text) → text_ltb a a ≡ false
text_ltb_irrefl [] = refl
text_ltb_irrefl (x ∷ xs) = ground (arith, text_ltb_irrefl xs)

demotes_irrefl : (s : ℤ) (m : Text) → demotes s m s m ≡ false
unfolding demotes
demotes_irrefl s m = ground (arith, text_ltb_irrefl m, int_ltb_asymm s s)

-- No chain of seeds each of which gives way to the next, however long, comes back to where it began.
pub on_peer_found-acyclic : (a : Seed) → ¬ Chain a a
on_peer_found-acyclic a chain =
    let h = Chain-demotes chain in let k = demotes_irrefl a.started_at a.name in cc
