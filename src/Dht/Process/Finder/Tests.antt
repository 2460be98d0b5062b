-- ===== src/Dht/Process/Finder/Tests.antt =====
-- A search at concrete inputs, for the identifier zero, with sorted heaps.
use epyx.Base.{ℕ, ◌≡◌, ◌≤◌, refl, List, [], ◌∷◌, ◌++◌, some, arith, All, length, inr, replicate}
use epyx.Base.Dict.{nat_order}
use epyx.Base.Int.{pos}
use epyx.Core.AtomMap.{new_map}
use epyx.N2np.NodeId.{no_node}
use epyx.Dht.Id
use epyx.Dht.Id.{DhtId, IsId, distance}
use epyx.Dht.KBucket.{Peer, SearchCandidate, push}
use epyx.Dht.Packet.{DhtPacket, m_found}
use epyx.Dht.Process.{Scene, Effect}
use epyx.Dht.Process.Finder.{FinderActor, new_finder, add_all, begin, candidate_of}
use epyx.Dht.Process.Finder.Found.{Covered, found_nearest}
use epyx.Dht.Process.Finder.Bounded.{IsMade, IsDistinct}
use epyx.Dht.Process.Finder.Heap.{sorted_heap, sorted_laws}
use epyx.Dht.Process.Finder.Once.{asked-IsOnce}
use epyx.Dht.Process.Finder.Outcomes.{answered, timed_out, hear_all}
use epyx.Dht.Process.Finder.Queries.{IsOnce, AnyPeer, asked_of, Response, on_response_lem}
use epyx.Parser.Gtt.Syntax.{to_size}

abbrev peer_at : ℕ → Peer
peer_at k = record { id = k ∷ replicate 31 0; n2np_id = no_node; last_receive_time = 0 }

abbrev near : Peer
near = peer_at 1

abbrev far : Peer
far = peer_at 9

abbrev target : DhtId
target = Id.reset

target-IsId : IsId target
target-IsId = (refl, omega arith)

abbrev blank : DhtPacket
blank = record {
  method = m_found;
  from = target;
  connection_id = pos 0;
  status = pos 0;
  count = pos 1;
  found_peers = some (near ∷ []);
  value = [];
  key = [];
  id_to_find = target;
}

abbrev scene : Scene
scene = record {
  queries = [];
  registered = record { process_actors_count = 0; process_actors = new_map };
}

kept_test :
    (add_all sorted_heap (far ∷ near ∷ []) (new_finder target (pos 1))).found_peers
    ≡ candidate_of target near ∷ []
unfolding add_all distance push Id.id_lt
kept_test = refl

found_nearest_example :
    (cs : List SearchCandidate) × ((add_all sorted_heap
        (far ∷ near ∷ [])
        (new_finder target (pos 1))).found_peers
      ≡ cs)
    × (length cs ≤ to_size (pos 1))
    × All (IsMade target AnyPeer) cs
    × IsDistinct target target-IsId AnyPeer cs
    × All (Covered (to_size (pos 1)) target cs) (far ∷ near ∷ [])
found_nearest_example =
    found_nearest sorted_heap sorted_laws target target-IsId (pos 1) AnyPeer (far ∷ near ∷ [])
      (((refl, omega arith), tt), (((refl, omega arith), tt), tt))

abbrev asking : FinderActor
asking = record (new_finder target (pos 1)) {
  shortlist = candidate_of target far ∷ candidate_of target near ∷ [];
  contacted_peers = candidate_of target far ∷ [];
  pending_requests = pos 1;
}

on_response_lem_example : Response 4 blank asking scene 0
on_response_lem_example =
    on_response_lem 4 blank asking scene 0 refl
      ((refl, (refl, omega arith), tt), ((refl, (refl, omega arith), tt), tt))

asked-IsOnce_example :
    (a b : FinderActor) × (t u : Scene) × (es fs : List Effect) × (begin sorted_heap 4 blank
        (add_all sorted_heap (far ∷ []) (new_finder target (pos 1)))
        scene
      ≡ (a, t, es))
    × (hear_all sorted_heap 4 blank (answered blank ∷ timed_out ∷ []) a t ≡ some (b, u, fs))
    × (a.contacted_peers ≡ asked_of target es)
    × (b.contacted_peers ≡ asked_of target (es ++ fs))
    × IsOnce (asked_of target (es ++ fs))
asked-IsOnce_example =
    asked-IsOnce sorted_heap sorted_laws target target-IsId 4 blank (pos 1) (far ∷ [])
      (answered blank ∷ timed_out ∷ []) scene ((refl, omega arith), tt)
      ((inr (near ∷ [], refl, refl, ((refl, omega arith), tt)), (tt, tt)))
