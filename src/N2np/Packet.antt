-- ===== src/N2np/Packet.antt =====
-- n2np/packet.h and n2np/packet.cpp: the packets that nodes exchange through relays, to and from GTT
-- packets. The child RoundTrip is about a packet that is written and read back.
pub mod RoundTrip
mod Tests
use epyx.Base.{
  ℕ, zero, suc, ◌++◌, List, [], ◌∷◌, Option, none, some, if◌then◌else◌, Bytes, codes, bytes_eq,
}
use epyx.Base.Dict
use epyx.Base.Dict.{Dict, bytes_order}
use epyx.Base.Int.{ℤ, pos, to_int32}
use epyx.Core.Text.{to_int, from_int}
use epyx.Net.Address.{Parsed, parsed, failed, AddressError}
use epyx.N2np.NodeId.{NodeName, no_node, parse_node, print_node}
use epyx.Parser.Packet.{GttPacket, new_packet, build}
use epyx.Parser.Gtt.Syntax.{to_size}

pub record N2npPacket : Type 0 where
  pub method : Bytes
  pub from : NodeName
  pub to : NodeName
  pub version : Bytes
  pub pkt_id : ℕ
  pub content : Bytes

-- `Packet(method, data)`.
abbrev pub packet_of : Bytes → Bytes → N2npPacket
packet_of method content = record {
  method = method;
  from = no_node;
  to = no_node;
  version = [];
  pkt_id = 0;
  content = content;
}

-- The exceptions of the constructor from a GTT packet: its own FailException and MinorException, one
-- of `NodeId`, and the ParserException of `toInt`.
pub data PacketError : Type 0 where
  bad_protocol unknown_header bad_id : PacketError
  bad_node : AddressError → PacketError

pub data Read : Type 0 where
  read : N2npPacket → Read
  refused : PacketError → Read

abbrev pub set_from : N2npPacket → Parsed NodeName → Read
set_from p (parsed n) = read (record p { from = n })
set_from p (failed e) = refused (bad_node e)

abbrev pub set_to : N2npPacket → Parsed NodeName → Read
set_to p (parsed n) = read (record p { to = n })
set_to p (failed e) = refused (bad_node e)

-- `pktID = String::toInt(...)`: a `long` becomes an `unsigned long`.
abbrev pub set_id : N2npPacket → Option ℤ → Read
set_id p (some z) = read (record p { pkt_id = to_size z })
set_id p none = refused bad_id

abbrev pub and_read : Read → (N2npPacket → Read) → Read
and_read (read p) f = f p
and_read (refused e) f = refused e

module _ (simplify : ℕ → Bytes → Bytes) where
  -- The body of the loop over the headers.
  unfoldable pub read_header : Bytes → Bytes → N2npPacket → Read
  unfolding bytes_eq parse_node to_int
  read_header name value p =
      if bytes_eq name (codes "From")
      then set_from p (parse_node simplify value)
      else if bytes_eq name (codes "To")
      then set_to p (parse_node simplify value)
      else if bytes_eq name (codes "Version")
      then read (record p { version = value })
      else if bytes_eq name (codes "ID")
      then set_id p (to_int value)
      else refused unknown_header

  unfoldable pub read_headers : Dict Bytes Bytes → N2npPacket → Read
  unfolding read_header
  read_headers [] p = read p
  read_headers ((name, value) ∷ hs) p = and_read (read_header name value p) (read_headers hs)

  -- `Packet(const GTTPacket&)`.
  unfoldable pub from_gtt : GttPacket → Read
  unfolding read_headers bytes_eq
  from_gtt pkt =
      if bytes_eq pkt.protocol (codes "N2NP")
      then and_read (read_headers pkt.headers (packet_of pkt.method []))
          (λ p. read (record p { content = pkt.body }))
      else refused bad_protocol

-- `version.empty() ? "0" : version`.
abbrev pub version_text : Bytes → Bytes
version_text [] = codes "0"
version_text (c ∷ s) = c ∷ s

-- `String::fromInt(pktID)`: an `unsigned long` becomes an `int`.
abbrev pub id_text : ℕ → Bytes
id_text n = from_int (to_int32 (pos n))

-- The GTT packet that `build` makes.
unfoldable pub to_gtt : N2npPacket → GttPacket
unfolding Dict.set print_node from_int to_int32
to_gtt p = record {
  protocol = codes "N2NP";
  method = p.method;
  headers = Dict.set (codes "ID") (id_text p.pkt_id) (
      Dict.set (codes "Version") (version_text p.version)
        (Dict.set (codes "To") (print_node p.to) (Dict.set (codes "From") (print_node p.from) [])));
  body = p.content;
}

-- `Packet::build`.
unfoldable pub build_packet : N2npPacket → Bytes
unfolding to_gtt build
build_packet p = build (to_gtt p)
