-- ===== src/Dht/Node.antt =====
-- dht/storage.h, dht/storage.cpp, dht/static-actors.h, dht/static-actors.cpp and the dispatch of
-- dht/internal-node.cpp: what a node does with the messages of others. `raw` is the memory of a new
-- packet. The child Answers is about what the static actors answer, Storage about the map.
pub mod Storage
pub mod Answers
mod Tests
use epyx.Base.{
  ℕ, zero, suc, ◌-◌, ◌^◌, Bool, true, false, List, [], ◌∷◌, Option, none, some, if◌then◌else◌,
  length, Bytes,
}
use epyx.Base.Dict
use epyx.Base.Dict.{Dict, bytes_order}
use epyx.Base.Int.{ℤ, pos, negsuc}
use epyx.N2np.NodeId.{NodeName}
use epyx.Dht.Id.{DhtId}
use epyx.Dht.KBucket.{Peer, KBucket, seen_peer, find_nearest_nodes}
use epyx.Dht.Packet.{
  blank_packet, DhtPacket, DhtMethod, m_ping, m_pong, m_get, m_got, m_find, m_found, m_store,
  m_stored,
}
use epyx.Dht.Process.{Registered, dispatch_to_process_actor}

-- `Storage`; a `Value` is its content.
pub record Stock : Type 0 where
  pub data_of : Dict Bytes Bytes

-- `Storage::has`.
unfoldable pub has : Bytes → Stock → Bool
unfolding Dict.find
has key s = elim (Dict.find key s.data_of) [ none ↦ false | some v ↦ true ]

-- `Storage::get`.
unfoldable pub get : Bytes → Stock → Option Bytes
unfolding Dict.find
get key s = Dict.find key s.data_of

-- `Storage::set`: the storage, and the key posted to the replicater as a "new key".
unfoldable pub set : Bytes → Bytes → Stock → Stock × Option Bytes
unfolding Dict.find Dict.set
set key datum s = (
  record { data_of = Dict.set key datum s.data_of },
  elim (Dict.find key s.data_of) [ none ↦ some key | some v ↦ none ],
)

pub record InternalNode : Type 0 where
  pub id : DhtId
  pub kbucket : KBucket
  pub registered : Registered
  pub storage : Stock

-- The actor that a packet is posted to.
pub data Posted : Type 0 where
  to_ping to_get to_store to_find nowhere : Posted
  to_process : ℕ → Posted

abbrev pub to_process_actor : Option ℕ → Posted
to_process_actor none = nowhere
to_process_actor (some actor) = to_process actor

-- The `switch` of `processPacket`.
unfoldable pub dispatch : DhtMethod → DhtPacket → InternalNode → Posted
unfolding dispatch_to_process_actor
dispatch m_ping pkt n = to_ping
dispatch m_pong pkt n = nowhere
dispatch m_get pkt n = to_get
dispatch m_store pkt n = to_store
dispatch m_find pkt n = to_find
dispatch m_got pkt n = to_process_actor (dispatch_to_process_actor pkt.connection_id n.registered)
dispatch m_stored pkt n =
    to_process_actor (dispatch_to_process_actor pkt.connection_id n.registered)
dispatch m_found pkt n = to_process_actor (dispatch_to_process_actor pkt.connection_id n.registered)

-- `InternalNode::processPacket`, at the time `now`: the peer that sent it and the actor that gets it.
unfoldable pub process_packet : ℕ → DhtPacket → Peer → InternalNode → InternalNode × Peer × Posted
unfolding seen_peer dispatch
process_packet now pkt orig_sender n =
    let (sender, kbucket) = seen_peer now orig_sender.id orig_sender.n2np_id n.kbucket in
    (record n { kbucket = kbucket }, sender, dispatch pkt.method pkt n)

-- An answer before the fields of its method are set.
abbrev pub answer_to : DhtPacket → DhtPacket → DhtMethod → ℤ → DhtPacket
answer_to raw pkt m status = record (blank_packet raw) {
  method = m;
  connection_id = pkt.connection_id;
  status = status;
}

-- `PingActor::treat`.
abbrev pub treat_ping : DhtPacket → DhtPacket
treat_ping raw = record (blank_packet raw) { method = m_pong }

-- `GetActor::treat`: the packet sent back.
unfoldable pub treat_get : DhtPacket → DhtPacket → InternalNode → DhtPacket
unfolding get
treat_get raw pkt n = elim (get pkt.key n.storage) [
  | none ↦ answer_to raw pkt m_got (pos 1)
  | some v ↦ record (answer_to raw pkt m_got (pos 0)) { value = v }
]

-- `StoreActor::treat`: the node, the key posted to the replicater and the packet sent back.
unfoldable pub treat_store :
    DhtPacket → DhtPacket → InternalNode → InternalNode × Option Bytes × DhtPacket
unfolding set
treat_store raw pkt n =
    let (storage, fresh) = set pkt.key pkt.value n.storage in
    (record n { storage = storage }, fresh, answer_to raw pkt m_stored (pos 0))

-- `(unsigned long)` of an `int`.
abbrev pub to_unsigned_long : ℤ → ℕ
to_unsigned_long (pos n) = n
to_unsigned_long (negsuc n) = 2 ^ 64 - 1 - n

abbrev pub answer_found : DhtPacket → DhtPacket → Option (List Peer) → Option DhtPacket
answer_found raw pkt none = none
answer_found raw pkt (some peers) =
    some (record (answer_to raw pkt m_found (pos 0)) { found_peers = some peers })

-- `FindActor::treat`: the packet sent back, or `none` where the search reads an empty queue.
unfoldable pub treat_find : DhtPacket → DhtPacket → InternalNode → Option DhtPacket
unfolding find_nearest_nodes
treat_find raw pkt n =
    answer_found raw pkt (find_nearest_nodes pkt.id_to_find (to_unsigned_long pkt.count) n.kbucket)

-- What the actor that a packet is posted to sends back, by the actors that the constructor of the
-- node makes; `none` where it sends nothing, or where its search reads an empty queue.
unfoldable pub answer_by : Posted → DhtPacket → DhtPacket → InternalNode → Option DhtPacket
unfolding treat_get treat_store treat_find
answer_by to_ping raw pkt n = some (treat_ping raw)
answer_by to_get raw pkt n = some (treat_get raw pkt n)
answer_by to_store raw pkt n = some (treat_store raw pkt n).2
answer_by to_find raw pkt n = treat_find raw pkt n
answer_by nowhere raw pkt n = none
answer_by (to_process actor) raw pkt n = none
