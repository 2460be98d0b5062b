-- ===== src/Dht/KBucket/Tests.antt =====
-- The routing table at concrete inputs.
use mathlib.Core.List.{Permᴰ}
use epyx.Base.{
  ◌≡◌, refl, List, [], ◌∷◌, ◌++◌, none, some, inl, arith, length, get_or, replicate, set, map, min,
  codes,
}
use epyx.N2np.NodeId.{NodeName}
use epyx.Dht.Id.{DhtId, IsId, distance, id_eq, reset}
use epyx.Dht.KBucket.{Peer, KBucket, SearchCandidate, new_kbucket, seen_peer, find_nearest_nodes}
use epyx.Dht.KBucket.Nearest.{candidates, find_nearest_nodes_lem}
use epyx.Dht.KBucket.Nearest.Queue.{IsDescending}
use epyx.Dht.KBucket.Search.{Each, set_at}
use epyx.Dht.KBucket.Seen.{IsIn, IsOrdered, seen_peer_keeps, seen_peer_order}
use epyx.Dht.KBucket.Table.{IsTable, replicate-Each, new_kbucket-IsTable, seen_peer-IsTable}

abbrev home : NodeName
home = record {
  name = codes "n";
  relay = record { ip = record { ip = codes "127.0.0.1"; ip_version = 4 }; port = 4242 };
}

abbrev low : DhtId
low = replicate 31 0 ++ 5 ∷ []

abbrev high : DhtId
high = replicate 31 0 ++ 6 ∷ []

abbrev table : KBucket
table = new_kbucket reset

reset-IsId : IsId reset
reset-IsId = (refl, omega arith)

low-IsId : IsId low
low-IsId = (refl, omega arith)

seen_peer-IsTable_example :
    IsTable (seen_peer 7 low home table).1
    × ((seen_peer 7 low home table).0 ≡ record { id = low; n2np_id = home; last_receive_time = 7 })
seen_peer-IsTable_example =
    seen_peer-IsTable 7 low home table low-IsId (new_kbucket-IsTable reset reset-IsId)

abbrev near_peer : Peer
near_peer = record { id = low; n2np_id = home; last_receive_time = 7 }

abbrev far_peer : Peer
far_peer = record { id = high; n2np_id = home; last_receive_time = 9 }

abbrev two : KBucket
two = record { buckets = (near_peer ∷ far_peer ∷ []) ∷ []; own_id = reset }

find_two : find_nearest_nodes low 2 two ≡ some (far_peer ∷ near_peer ∷ [])
unfolding find_nearest_nodes epyx.Dht.Id.id_lt distance
find_two = refl

find_none : find_nearest_nodes low 0 two ≡ none
unfolding find_nearest_nodes
find_none = refl

find_nearest_nodes_lem_example :
    (far : List SearchCandidate) × (near : List SearchCandidate) × (find_nearest_nodes low 1 two
      ≡ some (map (λ c. c.1) near))
    × Permᴰ (far ++ near) (candidates low two.buckets)
    × IsDescending (far ++ near)
    × (length near ≡ min 1 (length (candidates low two.buckets)))
find_nearest_nodes_lem_example =
    find_nearest_nodes_lem low 1 two low-IsId ((low-IsId, ((refl, omega arith), tt)), tt)
      (omega arith)

abbrev full : KBucket
full = record { buckets = set (replicate 256 []) 253 (near_peer ∷ far_peer ∷ []); own_id = reset }

seen_peer_keeps_example : IsIn near_peer (get_or (seen_peer 15007 high home full).1.buckets 253 [])
unfolding id_eq
seen_peer_keeps_example =
    seen_peer_keeps 15007 high home full near_peer 253 refl (omega arith) (inl refl)

full-IsOrdered : Each (λ i. IsOrdered 9) 0 full.buckets
full-IsOrdered =
    set_at (λ i. IsOrdered 9) (replicate 256 []) 253 (near_peer ∷ far_peer ∷ [])
      (replicate-Each (λ i. IsOrdered 9) 0 256 (λ i. tt))
      (omega arith, (omega arith, tt), (omega arith, tt, tt))

seen_peer_order_test : Each (λ i. IsOrdered 15007) 0 (seen_peer 15007 low home full).1.buckets
seen_peer_order_test = seen_peer_order 9 15007 low home full (omega arith) full-IsOrdered
