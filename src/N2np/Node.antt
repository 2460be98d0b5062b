-- ===== src/N2np/Node.antt =====
-- n2np/node.h and n2np/node.cpp: a node of the network, behind its relay. A socket of a direct
-- connection is a number, and so is a module; `answer` is how the call of a module ends. What the
-- node sends and the modules that it calls are a list of effects. `curId` is not taken to overflow
-- its 64 bits. The children: Sent (what is sent, and what is kept of it), Treated (what becomes of a
-- packet received), Handshake (a node and its relay).
pub mod Treat
pub mod Sent
pub mod Treated
pub mod Handshake
pub mod Delivery
mod Tests
use epyx.Base.{
  ℕ, zero, suc, ◌+◌, ◌%◌, ◌^◌, Bool, true, false, not, ◌&&◌, ◌||◌, List, [], ◌∷◌, ◌++◌, Option,
  none, some, ltb, if◌then◌else◌, length, Bytes, codes, bytes_eq, bytes_lt,
}
use epyx.Base.Dict
use epyx.Base.Dict.{Dict, KeyOrder, bytes_order, nat_order}
use epyx.Core.AtomMap
use epyx.Core.AtomMap.{AtomMap, new_map}
use epyx.Core.Text.{crlf, trim, to_lower, to_ulong, from_unsigned_long}
use epyx.Net.Address.{
  SockAddress, Parsed, parsed, failed, AddressError, no_address, split_at, parse_address,
}
use epyx.N2np.NodeId.Key.{is_same, node_order}
use epyx.N2np.NodeId.{NodeName, no_node, relay_only, compare_node}
use epyx.N2np.Packet.{
  N2npPacket, packet_of, PacketError, Read, read, refused, from_gtt, build_packet,
}
use epyx.N2np.Stream.{Eaten, eat_stream}
use epyx.Parser.Line
use epyx.Parser.Line.{pop_line}
use epyx.Parser.Packet.{GttPacket, build}
use epyx.Parser.Gtt.{GttParser}

pub record Node : Type 0 where
  pub node_id : NodeName
  pub has_id : Bool
  pub modules : Dict Bytes (Option ℕ)
  pub mru_node_ids : AtomMap NodeName ℕ
  pub cur_id : ℕ
  pub sent_map : AtomMap ℕ N2npPacket
  pub direct_sockets : Dict NodeName ℕ
  pub node_address_from_relay : SockAddress

-- Where a packet is sent: the socket to the relay, or a direct connection.
pub data Way : Type 0 where
  my_relay : Way
  direct : ℕ → Way

pub data Effect : Type 0 where
  send_bytes : Way → Bytes → Effect
  from_n2np : ℕ → NodeName → Bytes → Effect

-- The exceptions that leave a method; `fail_exception` is a failed assertion too.
pub data Fault : Type 0 where
  fail_exception bad_number : Fault
  bad_packet : PacketError → Fault
  bad_address : AddressError → Fault
  of_module : Fault

-- A node after a method, what it did, and the exception that ended it.
pub record Outcome : Type 0 where
  pub node : Node
  pub done : List Effect
  pub fault : Option Fault

abbrev pub quiet : Node → Outcome
quiet n = record { node = n; done = []; fault = none }

-- "Statistics": the weight of a node grows by the size of the data, at most 1000; it is an
-- `unsigned int`.
abbrev pub weight_of : Bytes → ℕ
weight_of content = if ltb 1000 (length content) then 1000 else length content

unfoldable pub count_for : NodeName → Bytes → Node → Node
unfolding AtomMap.get AtomMap.set
count_for peer content n = record n {
  mru_node_ids =
      AtomMap.set peer ((AtomMap.get peer 0 n.mru_node_ids + weight_of content) % 2 ^ 32)
        n.mru_node_ids;
}

-- "We need to select a socket to send to".
unfoldable pub select_way : NodeName → Dict NodeName ℕ → Way
unfolding Dict.find
select_way to sockets = elim (Dict.find to sockets) [
  | some sock ↦ direct sock
  | none ↦ elim (Dict.find (relay_only to.relay) sockets) [
    | some sock ↦ direct sock
    | none ↦ my_relay
  ]
]

-- The packet that `send` makes.
abbrev pub outgoing : NodeName → Bytes → Bytes → Node → N2npPacket
outgoing to method content n = record (packet_of method content) {
  from = n.node_id;
  to = to;
  pkt_id = n.cur_id;
}

abbrev is_missing : Option N2npPacket → Bool
is_missing none = true
is_missing (some p) = false

-- `Node::send`, from the statistics on.
unfoldable pub send_out : NodeName → Bytes → N2npPacket → Node → Outcome
unfolding count_for select_way build_packet
send_out to content p n = record {
  node = count_for to content n;
  done = send_bytes (select_way to n.direct_sockets) (build_packet p) ∷ [];
  fault = none;
}

-- `Node::send`. The flag `store` is true but for ACK and ERR. The bool of the source is the socket's
-- and is left out.
unfoldable pub send : NodeName → Bytes → Bytes → Bool → Node → Outcome
unfolding send_out bytes_eq AtomMap.find AtomMap.set
send to method content store n =
    let p = outgoing to method content n in
    let counted = record n { cur_id = n.cur_id + 1 } in
    if not (bytes_eq method (codes "ID")) && not n.has_id
    then record { node = n; done = []; fault = some fail_exception }
    else if not store
    then send_out to content p counted
    else if is_missing (AtomMap.find n.cur_id n.sent_map)
    then send_out to content p (record counted { sent_map = AtomMap.set n.cur_id p n.sent_map })
    else record { node = counted; done = []; fault = some fail_exception }

unfoldable pub send_text : NodeName → Bytes → Bytes → Node → Outcome
unfolding send
send_text to method [] n = quiet n
send_text to method (c ∷ s) n = send to method (c ∷ s) true n

-- `Node::send` of a GTT packet; `false` where its text is empty.
unfoldable pub send_gtt : NodeName → Bytes → GttPacket → Node → Outcome
unfolding send_text build
send_gtt to method pkt n = send_text to method (build pkt) n

-- `sendAck` and `sendErr`.
unfoldable pub send_ack : N2npPacket → Node → Outcome
unfolding send from_unsigned_long
send_ack p n = send p.from (codes "ACK") (from_unsigned_long p.pkt_id) false n

unfoldable pub send_err : N2npPacket → Node → Outcome
unfolding send from_unsigned_long
send_err p n = send p.from (codes "ERR") (from_unsigned_long p.pkt_id) false n

-- `addModule`: a name that is bound throws.
unfoldable pub add_module : Bytes → ℕ → Node → Node × Option Fault
unfolding Dict.find Dict.set
add_module method m n = elim (Dict.find method n.modules) [
  | some bound ↦ (n, some fail_exception)
  | none ↦ (record n { modules = Dict.set method (some m) n.modules }, none)
]

-- `offerDirectConn`; the socket that stood there is closed by its destructor.
unfoldable pub offer_direct_conn : NodeName → ℕ → Node → Node
unfolding Dict.set
offer_direct_conn recipient sock n = record n {
  direct_sockets = Dict.set recipient sock n.direct_sockets;
}

-- `getId`: the assertion fails before the node has one.
abbrev pub get_id : Node → Option NodeName
get_id n = if n.has_id then some n.node_id else none

-- A node before its relay has named it.
abbrev pub new_node : Node
new_node = record {
  node_id = no_node;
  has_id = false;
  modules = [];
  mru_node_ids = new_map;
  cur_id = 0;
  sent_map = new_map;
  direct_sockets = [];
  node_address_from_relay = no_address;
}

-- The constructor: the relay at the address is asked for a name.
unfoldable pub start : SockAddress → Outcome
unfolding send
start addr = send (relay_only addr) (codes "ID") [] true new_node
