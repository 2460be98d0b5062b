-- ===== src/N2np/Relay.antt =====
-- n2np/relay.h, n2np/relay.cpp, n2np/relaysocket.h and n2np/relaysocket.cpp: a relay, the nodes
-- that are attached to it and the connections to them. A socket is a number, and `address` gives the
-- address of its other end. Every method holds the mutex of the map while it uses it, so that it is
-- one step. The children: Names (the names that are given), Routing (who gets a packet).
pub mod Names
pub mod Routing
mod Tests
use epyx.Base.{
  ℕ, suc, ◌+◌, Bool, true, false, ◌&&◌, List, [], ◌∷◌, ◌++◌, Option, none, some, ◌==◌,
  if◌then◌else◌, Bytes, codes, bytes_eq, bytes_lt, map,
}
use epyx.Base.Dict
use epyx.Base.Dict.{Dict, bytes_order}
use epyx.Core.Text.{crlf, from_unsigned_long}
use epyx.Net.Address.{SockAddress, print_address, compare_address}
use epyx.N2np.NodeId.Key.{is_same}
use epyx.N2np.NodeId.{NodeName, no_node, relay_only, compare_node}
use epyx.N2np.Packet.{
  N2npPacket, packet_of, PacketError, Read, read, refused, from_gtt, build_packet,
}
use epyx.N2np.Stream.{Eaten, eat_stream}
use epyx.Parser.Packet.{GttPacket}
use epyx.Parser.Gtt.{GttParser}

pub record NodeInfo : Type 0 where
  pub id : NodeName
  pub sock : ℕ

pub record Relay : Type 0 where
  pub relay_addr : SockAddress
  pub relay_id : NodeName
  pub node_next_id : ℕ
  pub nodes : Dict Bytes NodeInfo

-- The constructor.
abbrev pub new_relay : SockAddress → Relay
new_relay addr = record {
  relay_addr = addr;
  relay_id = relay_only addr;
  node_next_id = 1;
  nodes = [];
}

-- What the relay does to sockets. `transmit` opens a connection to another relay.
pub data Effect : Type 0 where
  send_bytes : ℕ → Bytes → Effect
  transmit : SockAddress → Bytes → Effect
  close_socket : ℕ → Effect

-- "Build a random unique node name".
unfoldable pub node_name : ℕ → SockAddress → Bytes
unfolding from_unsigned_long print_address
node_name number addr =
    if number == 1 then codes "self" else from_unsigned_long number ++ b'-' ∷ print_address addr

-- The packet that tells a node its name and the address it is seen at.
unfoldable pub id_packet : NodeName → NodeName → SockAddress → N2npPacket
unfolding print_address
id_packet relay_id node addr =
    record (packet_of (codes "ID") (codes "IP: " ++ (print_address addr ++ crlf))) {
      from = relay_id;
      to = node;
    }

-- `~NodeInfo` of what stood at a key.
abbrev pub dropped : Option NodeInfo → List Effect
dropped none = []
dropped (some info) = close_socket info.sock ∷ []

-- `Relay::attachNode`.
unfoldable pub attach_node : (ℕ → SockAddress) → ℕ → Relay → NodeName × Relay × List Effect
unfolding node_name id_packet build_packet Dict.find Dict.set
attach_node address sock r =
    let name = node_name r.node_next_id (address sock) in
    let node : NodeName = record { name = name; relay = r.relay_addr } in
    (
      node,
      record r {
        node_next_id = r.node_next_id + 1;
        nodes = Dict.set name (record { id = node; sock = sock }) r.nodes;
      },
      dropped (Dict.find name r.nodes)
          ++ send_bytes sock (build_packet (id_packet r.relay_id node (address sock))) ∷ [],
    )

-- `Relay::detachNode`.
unfoldable pub detach_node : NodeName → Relay → Bool × Relay × List Effect
unfolding Dict.find Dict.unset
detach_node node r =
    if is_same (compare_address node.relay r.relay_addr)
    then (
      true,
      record r { nodes = Dict.unset node.name r.nodes },
      dropped (Dict.find node.name r.nodes),
    )
    else (false, r, [])

abbrev close_entry : Bytes × NodeInfo → Effect
close_entry (name, info) = close_socket info.sock

-- `Relay::detachAllNodes`.
unfoldable pub detach_all_nodes : Relay → Relay × List Effect
detach_all_nodes r = (record r { nodes = [] }, map close_entry r.nodes)

abbrev pub deliver : N2npPacket → Option NodeInfo → List Effect
deliver p none = []
deliver p (some info) = send_bytes info.sock (build_packet p) ∷ []

-- `Relay::treat`.
unfoldable pub treat : N2npPacket → Relay → List Effect
unfolding build_packet Dict.find
treat p r =
    if is_same (compare_address p.to.relay r.relay_addr)
    then deliver p (Dict.find p.to.name r.nodes)
    else transmit p.to.relay (build_packet p) ∷ []

-- A connection: `RelaySocket` with its relay, what was done to sockets, and the packets that were
-- posted to the worker of the relay, which treats them in turn.
pub record Connection : Type 0 where
  pub relay : Relay
  pub node_id : NodeName
  pub sock : ℕ
  pub done : List Effect
  pub posted : List N2npPacket

-- The branch of `RelaySocket::eat` for a packet that asks for a name.
unfoldable pub answer_id : (ℕ → SockAddress) → Connection → Connection
unfolding attach_node
answer_id address c =
    let (node, relay, effects) = attach_node address c.sock c.relay in
    record c { relay = relay; node_id = node; done = c.done ++ effects }

abbrev pub asks_id : N2npPacket → Relay → Bool
asks_id p r = bytes_eq p.method (codes "ID") && is_same (compare_node p.to r.relay_id)

unfoldable pub take_packet : (ℕ → SockAddress) → N2npPacket → Connection → Connection
unfolding answer_id bytes_eq
take_packet address p c =
    if asks_id p c.relay then answer_id address c else record c { posted = c.posted ++ p ∷ [] }

abbrev pub received : (ℕ → SockAddress) → Connection → Read → Connection × Option PacketError
received address c (read p) = (take_packet address p c, none)
received address c (refused e) = (c, some e)

-- The body of the loop of `RelaySocket::eat`, and `eat`.
unfoldable pub handle :
    (ℕ → Bytes → Bytes)
    → (ℕ → SockAddress)
    → GttPacket
    → Connection
    → Connection × Option PacketError
unfolding take_packet from_gtt
handle simplify address g c = received address c (from_gtt simplify g)

unfoldable pub eat :
    (ℕ → Bytes → Bytes)
    → (ℕ → SockAddress)
    → Bytes
    → GttParser
    → Connection
    → Eaten Connection PacketError
unfolding handle eat_stream
eat simplify address = eat_stream (handle simplify address)

-- `~RelaySocket`.
unfoldable pub hang_up : Connection → Connection
unfolding detach_node
hang_up c =
    let (done, relay, effects) = detach_node c.node_id c.relay in
    record c { relay = relay; done = c.done ++ effects }
