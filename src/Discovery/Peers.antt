-- ===== src/Discovery/Peers.antt =====
-- pkg/discovery/discovery.go: `Peer`, its URLs, and the choice of a seed.
use jb_mesh.Base.{
  arith, subst, sym, ◌≢◌, ◌⊎◌, Bool-cases, inl, All, inr, some, List, true, if◌then◌else◌, [],
  false, none, ◌∷◌, Option, not, ◌≡◌, ◌++◌,
}
use jb_mesh.Base.Int.{
  int_ltb_trans, int_ltb_asymm, int_ltb_irrefl, int_ltb_of_not_lt, int_eqb, ℤ, pos, int_ltb,
}
use jb_mesh.Base.Text.{same_iff, lit, Text, same}
use jb_mesh.Base.Decimal.{itoa}

pub record Peer : Type 0 where
  pub name : Text
  pub host : Text
  pub port : ℤ
  pub leaf_port : ℤ
  pub role : Text
  pub ip : Text
  pub version : Text
  pub tool_count : ℤ
  pub started_at : ℤ

-- `LeafURL`
unfoldable pub leaf_url : Peer → Text
leaf_url p =
    let port = if int_eqb p.leaf_port (pos 0) then pos 7422 else p.leaf_port in
    lit "nats-leaf://" ++ (p.ip ++ (b':' ∷ itoa port))

-- `ClientURL`
unfoldable pub client_url : Peer → Text
client_url p = lit "nats://" ++ (p.ip ++ (b':' ∷ itoa p.port))

-- One round of the loop of `FindSeed`; `none` is the nil pointer.
better : Option Peer → Peer → Option Peer
better none p = some p
better (some best) p = if int_ltb p.started_at best.started_at then some p else some best

find_from : Option Peer → List Peer → Option Peer
unfolding better
find_from best [] = best
find_from best (p ∷ peers) =
    find_from (if not (same p.role (lit "seed")) then best else better best p) peers

unfoldable pub find_seed : List Peer → Option Peer
unfolding find_from
find_seed peers = find_from none peers

abbrev pub IsSeed : Peer → Type 0
IsSeed p = p.role ≡ lit "seed"

-- `a ≤ b`, as the negation of Go's `b < a`.
abbrev pub NotLater : Peer → Peer → Type 0
NotLater p q = int_ltb q.started_at p.started_at ≡ false

-- `p` stands among the peers, and the seeds in front of it all started later.
pub data FirstOf (p : Peer) : List Peer → Type 0 where
  here : {peers : List Peer} → FirstOf p (p ∷ peers)
  there :
      {q : Peer} {peers : List Peer}
      → (IsSeed q → int_ltb p.started_at q.started_at ≡ true)
      → FirstOf p peers
      → FirstOf p (q ∷ peers)

-- What is known of the result when the search goes on from `best`.
abbrev Improves : Peer → List Peer → Peer → Type 0
Improves best peers p =
    ((p ≡ best) × All (λ q. IsSeed q → NotLater best q) peers)
    ⊎ (IsSeed p
        × (int_ltb p.started_at best.started_at ≡ true)
        × All (λ q. IsSeed q → NotLater p q) peers
        × FirstOf p peers)

Improves-skip :
    (best q : Peer) (peers : List Peer) (p : Peer)
    → (IsSeed q → NotLater best q)
    → Improves best peers p
    → Improves best (q ∷ peers) p
Improves-skip best q peers p h (inl (e, k)) = inl (e, (h, k))
Improves-skip best q peers p h (inr (seed, lt, k, first)) =
    let passes = int_ltb_of_not_lt p.started_at best.started_at q.started_at lt in
    inr (
      seed,
      lt,
      ((λ s. int_ltb_asymm p.started_at q.started_at (passes (h s))), k),
      there (λ s. passes (h s)) first,
    )

Improves-take :
    (best q : Peer) (peers : List Peer) (p : Peer)
    → IsSeed q
    → int_ltb q.started_at best.started_at ≡ true
    → Improves q peers p
    → Improves best (q ∷ peers) p
Improves-take best q peers p seed lt (inl (e, k)) =
    subst (Improves best (q ∷ peers)) (sym e)
      (inr (seed, lt, ((λ s. int_ltb_irrefl q.started_at), k), here))
Improves-take best q peers p seed lt (inr (seed', lt', k, first)) = inr (
  seed',
  int_ltb_trans p.started_at q.started_at best.started_at lt' lt,
  ((λ s. int_ltb_asymm p.started_at q.started_at lt'), k),
  there (λ s. lt') first,
)

find_from-Improves :
    (best : Peer) (peers : List Peer) (p : Peer)
    → find_from (some best) peers ≡ some p
    → Improves best peers p
unfolding find_from
find_from-Improves best [] p e = inl (cc, tt)
find_from-Improves best (q ∷ peers) p e = elim (Bool-cases (same q.role (lit "seed"))) [
  | inr other ↦
      Improves-skip best q peers p
        (λ (s : IsSeed q). let t = (same_iff q.role (lit "seed")).1 s in cc)
        (find_from-Improves best peers p (rw other at e))
  | inl seed ↦ elim (Bool-cases (int_ltb q.started_at best.started_at)) [
    | inl earlier ↦
        Improves-take best q peers p ((same_iff q.role (lit "seed")).0 seed) earlier
          (find_from-Improves q peers p (rw (seed, earlier) at e))
    | inr later ↦
        Improves-skip best q peers p (λ s. later)
          (find_from-Improves best peers p (rw (seed, later) at e))
  ]
]

find_from-ne-none : (best : Peer) (peers : List Peer) → find_from (some best) peers ≢ none
unfolding find_from
find_from-ne-none best [] = cc
find_from-ne-none best (q ∷ peers) =
    ground (arith, find_from-ne-none best peers, find_from-ne-none q peers)

-- The seed that the nodes should join: a seed no other seed started before, and the first in the
-- list of those.
pub record IsBest (p : Peer) (peers : List Peer) : Type 0 where
  pub seed : IsSeed p
  pub earliest : All (λ q. IsSeed q → NotLater p q) peers
  pub first : FirstOf p peers

IsBest-skip :
    (q : Peer) (peers : List Peer) (p : Peer) → ¬ IsSeed q → IsBest p peers → IsBest p (q ∷ peers)
IsBest-skip q peers p other b = record {
  seed = b.seed;
  earliest = ((λ s. absurd (other s)), b.earliest);
  first = there (λ s. absurd (other s)) b.first;
}

IsBest-take :
    (q : Peer) (peers : List Peer) (p : Peer) → IsSeed q → Improves q peers p → IsBest p (q ∷ peers)
IsBest-take q peers p seed (inl (e, k)) =
    subst (λ x. IsBest x (q ∷ peers)) (sym e)
      (record { seed = seed; earliest = ((λ s. int_ltb_irrefl q.started_at), k); first = here })
IsBest-take q peers p seed (inr (seed', lt, k, first)) = record {
  seed = seed';
  earliest = ((λ s. int_ltb_asymm p.started_at q.started_at lt), k);
  first = there (λ s. lt) first;
}

find_seed-IsBest : (peers : List Peer) (p : Peer) → find_seed peers ≡ some p → IsBest p peers
unfolding find_seed
find_seed-IsBest [] p e = cc
find_seed-IsBest (q ∷ peers) p e = elim (Bool-cases (same q.role (lit "seed"))) [
  | inr other ↦
      IsBest-skip q peers p (λ (s : IsSeed q). let t = (same_iff q.role (lit "seed")).1 s in cc)
        (find_seed-IsBest peers p (rw other at e))
  | inl seed ↦
      IsBest-take q peers p ((same_iff q.role (lit "seed")).0 seed)
        (find_from-Improves q peers p (rw seed at e))
]

find_seed-none : (peers : List Peer) → find_seed peers ≡ none → All (λ q. ¬ IsSeed q) peers
unfolding find_seed
find_seed-none [] e = tt
find_seed-none (q ∷ peers) e = elim (Bool-cases (same q.role (lit "seed"))) [
  | inr other ↦ (
    (λ (s : IsSeed q). let t = (same_iff q.role (lit "seed")).1 s in cc),
    find_seed-none peers (rw other at e),
  )
  | inl seed ↦ absurd (find_from-ne-none q peers (rw seed at e))
]

-- `FindSeed` returns nil only if no peer is a seed; a peer that it returns is a seed of the list
-- that started no later than any other seed, and every seed in front of it started later.
pub find_seed_lem :
    (peers : List Peer)
    → (find_seed peers ≡ none → All (λ q. ¬ IsSeed q) peers)
      × ((p : Peer) → find_seed peers ≡ some p → IsBest p peers)
find_seed_lem peers = (find_seed-none peers, find_seed-IsBest peers)
