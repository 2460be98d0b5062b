-- ===== src/Dht/Public.antt =====
-- dht/node.h and dht/node.cpp: the public node of the table, a module of the network's node, and
-- `send` and `sendPing` of dht/internal-node.cpp. `raw` is the memory of a new packet. The child
-- Delivery follows a message from one node to another.
pub mod Delivery
mod Tests
use epyx.Base.{ℕ, List, [], ◌∷◌, Option, none, some, Bytes, codes}
use epyx.N2np.NodeId.{NodeName}
use epyx.N2np.Node
use epyx.N2np.Node.{Outcome}
use epyx.Parser.Packet.{GttPacket}
use epyx.Parser.Gtt.{
  GttParser, gtt_grammar, Round, returned, again, threw, crashed, get_packet, eat, reset,
}
use epyx.Dht.Id.{DhtId}
use epyx.Dht.KBucket.{Peer}
use epyx.Dht.Node.{InternalNode, Posted, process_packet}
use epyx.Dht.Packet.{
  DhtPacket, blank_packet, DhtMethod, m_ping, Made, made, thrown, terminated, from_gtt,
}
use epyx.Dht.Packet.ToGtt.{to_gtt}

pub record PublicNode : Type 0 where
  pub id : DhtId
  pub gtt_parser : GttParser
  pub internal : InternalNode

-- How `fromN2NP` ends: with an incomplete packet, with a message that was posted to an actor, with
-- an exception or the end of the program from the constructor of the message. `broken` is an
-- exception or a null pointer in `getPacket`.
pub data Received : Type 0 where
  incomplete : PublicNode → Received
  processed : DhtPacket → Peer → Posted → PublicNode → Received
  refused : PublicNode → Received
  ended : Received
  broken : Received

-- The packet that `gttParser.getPacket()` returned, as a message.
unfoldable pub process : ℕ → NodeName → Made → PublicNode → Received
unfolding process_packet
process now sender (made pkt) s =
    let (internal, peer, posted) =
      process_packet now pkt (record { id = pkt.from; n2np_id = sender; last_receive_time = 0 })
        s.internal in
    processed pkt peer posted (record s { internal = internal })
process now sender thrown s = refused s
process now sender terminated s = ended

unfoldable pub parsed_packet :
    (ℕ → Bytes → Bytes) → DhtPacket → ℕ → NodeName → Round → PublicNode → Received
unfolding process from_gtt
parsed_packet simplify raw now sender (returned none parser) s =
    incomplete (record s { gtt_parser = reset parser })
parsed_packet simplify raw now sender (returned (some g) parser) s =
    process now sender (from_gtt simplify raw g) (record s { gtt_parser = reset parser })
parsed_packet simplify raw now sender _ s = broken

-- `Node::fromN2NP`, at the time `now`.
unfoldable pub from_n2np :
    (ℕ → Bytes → Bytes) → DhtPacket → ℕ → NodeName → Bytes → PublicNode → Received
unfolding parsed_packet get_packet
from_n2np simplify raw now sender content s =
    parsed_packet simplify raw now sender (get_packet gtt_grammar (eat s.gtt_parser content)) s

abbrev pub dht_method : Bytes
dht_method = codes "DHT"

unfoldable pub send_made : Option GttPacket → Peer → Node.Node → Option Outcome
unfolding Node.send_gtt
send_made none dest n = none
send_made (some g) dest n = some (Node.send_gtt dest.n2np_id dht_method g n)

-- `Node::send` by the network's node `n`; `none` where `toGTTPacket` follows a null pointer.
unfoldable pub send : DhtId → DhtPacket → Peer → Node.Node → Option Outcome
unfolding to_gtt send_made
send id pkt dest n = send_made (to_gtt (record pkt { from = id })) dest n

-- `sendPing`.
unfoldable pub send_ping : DhtPacket → DhtId → Peer → Node.Node → Option Outcome
unfolding send
send_ping raw id dest n = send id (record (blank_packet raw) { method = m_ping }) dest n
