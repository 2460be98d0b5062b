-- ===== src/N2np/Node/Tests.antt =====
-- Two nodes at concrete inputs: they are on one relay, and the modules never throw.
use epyx.Base.{
  ℕ, ◌≡◌, ◌≢◌, refl, true, [], ◌∷◌, none, some, arith, if◌then◌else◌, ◌==◌, Bytes, codes, bytes_eq,
}
use epyx.Base.Dict
use epyx.Base.Dict.{bytes_order, nat_order}
use epyx.Core.AtomMap
use epyx.Core.AtomMap.{AtomMap, new_map}
use epyx.Core.Ctype.{is_upper, is_space}
use epyx.Core.Text.{from_unsigned_long}
use epyx.Net.Address.{print_address}
use epyx.Net.Address.Samples.{keep, home, home-IsIpv4}
use epyx.N2np.NodeId.Key.{node_order}
use epyx.N2np.NodeId.{NodeName, relay_only, print_node}
use epyx.N2np.Node.{
  Node, send_bytes, from_n2np, quiet, count_for, select_way, outgoing, send, new_node,
}
use epyx.N2np.Node.Delivery.{delivered}
use epyx.N2np.Node.Handshake.{handshake}
use epyx.N2np.Node.Sent.{IsCounted, send_stored, take_ack_lem}
use epyx.N2np.Node.Treat.{ModuleEnd, fine, treat, take_ack, eat}
use epyx.N2np.Node.Treated.{Handled, reply, treat-handled}
use epyx.N2np.Packet.{N2npPacket, packet_of, build_packet}
use epyx.N2np.Packet.RoundTrip.{IsSendable}
use epyx.N2np.Relay.{id_packet}
use epyx.N2np.Stream.{eaten}
use epyx.Parser.Gtt.Idle.{IsIdle}
use epyx.Parser.Gtt.Syntax.{is_name, is_value}
use epyx.Parser.Gtt.{GttParser, new_parser}

abbrev here : NodeName
here = record { name = codes "n1"; relay = home }

abbrev there : NodeName
there = record { name = codes "n2"; relay = home }

abbrev sender : Node
sender = record new_node { node_id = here; has_id = true }

abbrev receiver : Node
receiver = record new_node { node_id = there; has_id = true; modules = (codes "DHT", some 3) ∷ [] }

abbrev never : ℕ → NodeName → Bytes → ModuleEnd
never m from content = fine

sender-IsCounted : IsCounted sender
unfolding AtomMap.find
sender-IsCounted = record { open_map = refl; below = λ id l. refl }

abbrev hello : N2npPacket
hello = outgoing there (codes "DHT") (codes "hi") sender

hello-IsSendable : IsSendable keep hello
unfolding is_name is_upper is_value print_node from_unsigned_long
hello-IsSendable = record {
  method = ground arith;
  from = record { name = ground arith; relay = home-IsIpv4; port = omega arith };
  from_value = ground arith;
  to = record { name = ground arith; relay = home-IsIpv4; port = omega arith };
  to_value = ground arith;
  version = λ ne. absurd (ne refl);
  id = omega arith;
  content = omega arith;
}

parser-IsIdle : IsIdle new_parser
parser-IsIdle = record { start = refl; pkt = refl; fine = refl }

send_stored_example :
    (n' : Node) × (send there (codes "DHT") (codes "hi") true sender ≡ record {
      node = n';
      done = send_bytes (select_way there sender.direct_sockets) (build_packet hello) ∷ [];
      fault = none;
    })
    × IsCounted n'
    × ((id : ℕ)
        → AtomMap.find id n'.sent_map
          ≡ (if sender.cur_id == id then some hello else AtomMap.find id sender.sent_map))
send_stored_example = send_stored there (codes "DHT") (codes "hi") sender refl sender-IsCounted

abbrev ack : N2npPacket
ack = packet_of (codes "ACK") (codes "7")

take_ack_lem_test :
    (n' : Node) × (take_ack ack sender ≡ quiet n')
    × IsCounted n'
    × ((j : ℕ)
        → AtomMap.find j n'.sent_map ≡ (if 7 == j then none else AtomMap.find j sender.sent_map))
unfolding from_unsigned_long
take_ack_lem_test = take_ack_lem 7 ack sender (omega arith) refl sender-IsCounted

treat-handled_example :
    treat keep never hello receiver
    ≡ Handled never
        (Dict.find hello.method receiver.modules)
        hello
        (count_for hello.from hello.content receiver)
treat-handled_example =
    treat-handled keep never hello receiver refl refl (λ e. ground arith) (λ e. ground arith)

delivered_example :
    (bytes : Bytes) × (n' m' : Node) × (q' : GttParser) × (send there
        (codes "DHT")
        (codes "hi")
        true
        sender
      ≡ record {
        node = n';
        done = send_bytes (select_way there sender.direct_sockets) bytes ∷ [];
        fault = none;
      })
    × (eat keep never bytes new_parser (receiver, [])
        ≡ eaten q' (
          m',
          from_n2np 3 here (codes "hi")
              ∷ reply (codes "ACK") hello (count_for here (codes "hi") receiver)
              ∷ [],
        ))
    × IsIdle q'
    × (q'.buffer ≡ [])
unfolding Dict.find bytes_eq
delivered_example =
    delivered keep never there (codes "DHT") (codes "hi") sender receiver 3 new_parser refl
      sender-IsCounted hello-IsSendable (λ e. ground arith) (λ e. ground arith) refl refl refl refl
      parser-IsIdle refl

naming-IsSendable : IsSendable keep (id_packet (relay_only home) here home)
unfolding id_packet is_name is_upper is_value print_node print_address from_unsigned_long
naming-IsSendable = record {
  method = ground arith;
  from = record { name = tt; relay = home-IsIpv4; port = omega arith };
  from_value = ground arith;
  to = record { name = ground arith; relay = home-IsIpv4; port = omega arith };
  to_value = ground arith;
  version = λ ne. absurd (ne refl);
  id = omega arith;
  content = omega arith;
}

home-filled : print_address home ≢ []
unfolding print_address from_unsigned_long
home-filled e = ground arith

handshake_test :
    (q' : GttParser) × IsIdle q'
    × (q'.buffer ≡ [])
    × (eat keep never
          (build_packet (id_packet (relay_only home) here home))
          new_parser
          (new_node, [])
        ≡ eaten q'
            (record new_node { node_id = here; has_id = true; node_address_from_relay = home }, []))
unfolding print_address from_unsigned_long is_space
handshake_test =
    handshake keep home home-IsIpv4 (omega arith) home-filled (ground arith) never (relay_only home)
      here new_node [] new_parser refl naming-IsSendable parser-IsIdle refl
