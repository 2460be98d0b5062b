-- ===== src/Dht/Node/Tests.antt =====
-- A node at concrete inputs.
use epyx.Base.{◌≡◌, refl, true, [], ◌∷◌, none, some, ◌==◌, if◌then◌else◌, length, codes, bytes_eq}
use epyx.Base.Dict.{nat_order}
use epyx.Base.Int.{pos}
use epyx.Core.AtomMap.{new_map}
use epyx.Net.Address.Samples.{home}
use epyx.Dht.Id.{reset}
use epyx.Dht.KBucket.Nearest.{candidates}
use epyx.Dht.KBucket.{Peer, new_kbucket}
use epyx.Dht.Node.Answers.{get_after_store, treat_find_zero}
use epyx.Dht.Node.Storage.{storage_lem}
use epyx.Dht.Node.{
  InternalNode, has, get, set, treat_get, treat_store, treat_find, answer_to, process_packet,
  Posted,
}
use epyx.Dht.Packet.{DhtPacket, m_get, m_got, m_found}

abbrev peer : Peer
peer = record {
  id = reset;
  n2np_id = record { name = codes "n1"; relay = home };
  last_receive_time = 3;
}

abbrev query : DhtPacket
query = record {
  method = m_get;
  from = reset;
  connection_id = pos 4;
  status = pos 0;
  count = pos 0;
  found_peers = none;
  value = codes "v";
  key = codes "k";
  id_to_find = reset;
}

abbrev node : InternalNode
node = record {
  id = reset;
  kbucket = new_kbucket reset;
  registered = record { process_actors_count = 0; process_actors = new_map };
  storage = record { data_of = [] };
}

storage_lem_test :
    (get (codes "j") (set (codes "k") (codes "v") node.storage).0 ≡ (
      if bytes_eq (codes "k") (codes "j") then some (codes "v") else get (codes "j") node.storage))
    × ((set (codes "k") (codes "v") node.storage).1
        ≡ (if has (codes "k") node.storage then none else some (codes "k")))
    × (has (codes "k") (set (codes "k") (codes "v") node.storage).0 ≡ true)
storage_lem_test = storage_lem (codes "k") (codes "j") (codes "v") node.storage

get_after_store_example : treat_get query query (treat_store query query node).0 ≡ (
    if bytes_eq (codes "k") (codes "k")
    then record (answer_to query query m_got (pos 0)) { value = codes "v" }
    else treat_get query query node)
get_after_store_example = get_after_store query query query query node

abbrev known : InternalNode
known = record node { kbucket = record { buckets = (peer ∷ []) ∷ []; own_id = reset } }

treat_find_zero_example : treat_find query query known ≡ (
    if length (candidates reset known.kbucket.buckets) == 0
    then some (record (answer_to query query m_found (pos 0)) { found_peers = some [] })
    else none)
treat_find_zero_example = treat_find_zero query query known refl

abbrev asked : DhtPacket
asked = record query { count = pos 1 }

abbrev outcome : InternalNode × Peer × Posted
outcome = process_packet 9 asked peer node
