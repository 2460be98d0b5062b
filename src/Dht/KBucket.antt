-- ===== src/Dht/KBucket.antt =====
-- dht/kbucket.h, dht/kbucket.cpp and dht/peer.h: the routing table of a node.
-- A bucket is the list of its peers, the one to be dropped first at the front. `time(NULL)` is an
-- argument. The children prove: Table (what `seenPeer` keeps true of the table), Seen (whom it
-- keeps) and Nearest (what `findNearestNodes` finds).
pub mod Search
pub mod Table
pub mod Seen
pub mod Nearest
mod Tests
use epyx.Base.{
  ℕ, zero, suc, ◌+◌, ◌-◌, Bool, true, false, List, [], ◌∷◌, ◌++◌, Option, none, some, map, ltb, leb,
  if◌then◌else◌, length, get_or, replicate, set,
}
use epyx.N2np.NodeId.{NodeName}
use epyx.Dht.Id.{DhtId, Distance, distance, id_eq, id_lt, id_length}

pub record Peer : Type 0 where
  pub id : DhtId
  pub n2np_id : NodeName
  pub last_receive_time : ℕ

-- `Bucket`.
abbrev pub Bucket : Type 0
Bucket = List Peer

pub record KBucket : Type 0 where
  pub buckets : List Bucket
  pub own_id : DhtId

abbrev pub nodes_per_bucket : ℕ
nodes_per_bucket = 20

abbrev pub max_inactive_period : ℕ
max_inactive_period = 15000

-- The constructor.
unfoldable pub new_kbucket : DhtId → KBucket
new_kbucket self = record { buckets = replicate id_length []; own_id = self }

-- The loop of `seenPeer`: the peers without the first that has this identifier, and that one.
unfoldable pub search : DhtId → Bucket → Option (Peer × Bucket)
search peer_id [] = none
search peer_id (p ∷ peers) =
    let rest = search peer_id peers in
    if id_eq peer_id p.id
    then some (p, peers)
    else elim rest [ none ↦ none | some (found, others) ↦ some (found, p ∷ others) ]

-- The lines behind the loop.
unfoldable pub add_peer : ℕ → Peer → Bucket → Bucket
add_peer now new_peer peers =
    if ltb (length peers) nodes_per_bucket then peers ++ new_peer ∷ [] else elim peers [
      | [] ↦ []
      | front ∷ others ↦
          if ltb max_inactive_period (now - front.last_receive_time)
          then others ++ new_peer ∷ []
          else front ∷ others
    ]

-- What `seenPeer` does to the bucket of the peer, and what it returns.
unfoldable pub seen : ℕ → DhtId → NodeName → Bucket → Peer × Bucket
unfolding search add_peer
seen now peer_id n2np_id peers = elim (search peer_id peers) [
  | some (peer, others) ↦
      let temp : Peer = record peer { last_receive_time = now; n2np_id = n2np_id } in
      (temp, others ++ temp ∷ [])
  | none ↦
      let new_peer : Peer = record { id = peer_id; n2np_id = n2np_id; last_receive_time = now } in
      (new_peer, add_peer now new_peer peers)
]

abbrev pub index_of : KBucket → DhtId → ℕ
index_of k peer_id = (distance k.own_id peer_id).first_active

abbrev pub bucket_of : KBucket → DhtId → Bucket
bucket_of k peer_id = get_or k.buckets (index_of k peer_id) []

-- `KBucket::seenPeer`.
unfoldable pub seen_peer : ℕ → DhtId → NodeName → KBucket → Peer × KBucket
unfolding seen
seen_peer now peer_id n2np_id k =
    let (peer, bucket) = seen now peer_id n2np_id (bucket_of k peer_id) in
    (peer, record k { buckets = set k.buckets (index_of k peer_id) bucket })

abbrev pub SearchCandidate : Type 0
SearchCandidate = Distance × Peer

-- `Distance` is compared as an identifier.
abbrev pub nearer : SearchCandidate → SearchCandidate → Bool
nearer (d, p) (e, q) = id_lt d.bytes e.bytes

-- `push` on the priority queue, which is the list of its members in the order of `top`: the
-- farthest comes first.
unfoldable pub push : SearchCandidate → List SearchCandidate → List SearchCandidate
push c [] = c ∷ []
push c (q ∷ qs) = let rest = push c qs in if nearer c q then q ∷ rest else c ∷ q ∷ qs

-- The first `if` of the inner loop. `top` of an empty queue is undefined, which is `none`.
unfoldable pub drop_farthest :
    ℕ → SearchCandidate → List SearchCandidate → Option (List SearchCandidate)
drop_farthest n c closest =
    if leb n (length closest)
    then elim closest [ [] ↦ none | top ∷ rest ↦ some (if nearer c top then rest else top ∷ rest) ]
    else some closest

-- The inner loop's body.
unfoldable pub consider : ℕ → SearchCandidate → List SearchCandidate → Option (List SearchCandidate)
unfolding push drop_farthest
consider n c closest = elim (drop_farthest n c closest) [
  | none ↦ none
  | some qs ↦ some (if ltb (length qs) n then push c qs else qs)
]

-- The inner loop.
unfoldable pub scan_bucket :
    DhtId → ℕ → Bucket → List SearchCandidate → Option (List SearchCandidate)
unfolding consider
scan_bucket id n [] closest = some closest
scan_bucket id n (peer ∷ peers) closest = elim (consider n (distance id peer.id, peer) closest) [
  | none ↦ none
  | some qs ↦ scan_bucket id n peers qs
]

-- The outer loop.
unfoldable pub scan_buckets :
    DhtId → ℕ → List Bucket → List SearchCandidate → Option (List SearchCandidate)
unfolding scan_bucket
scan_buckets id n [] closest = some closest
scan_buckets id n (bucket ∷ buckets) closest = elim (scan_bucket id n bucket closest) [
  | none ↦ none
  | some qs ↦ scan_buckets id n buckets qs
]

-- `KBucket::findNearestNodes`: what it appends to `nearest`; `n` is the count as `unsigned long`.
unfoldable pub find_nearest_nodes : DhtId → ℕ → KBucket → Option (List Peer)
unfolding scan_buckets
find_nearest_nodes id n k = elim (scan_buckets id n k.buckets []) [
  | none ↦ none
  | some closest ↦ some (map (λ c. c.1) closest)
]
