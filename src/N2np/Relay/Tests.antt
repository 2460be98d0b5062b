-- ===== src/N2np/Relay/Tests.antt =====
-- A relay at concrete inputs: every socket is seen at the same address.
use epyx.Base.{ℕ, ◌≡◌, refl, true, [], ◌∷◌, none, arith, codes, if◌then◌else◌, bytes_eq}
use epyx.Base.Compare.{compare_nat, compare_bytes}
use epyx.Base.Dict
use epyx.Base.Dict.{bytes_order}
use epyx.Net.Address.{SockAddress}
use epyx.Net.Address.Samples.{home}
use epyx.N2np.NodeId.{NodeName, no_node}
use epyx.N2np.Packet.{N2npPacket, packet_of, build_packet}
use epyx.N2np.Relay.{
  Relay, new_relay, send_bytes, close_socket, id_packet, attach_node, detach_node, treat,
  Connection, answer_id, hang_up,
}
use epyx.N2np.Relay.Names.{IsNumbered}
use epyx.N2np.Relay.Routing.{is_for, attach_node_lem, detach-attach, attached_twice}

abbrev seen_at : ℕ → SockAddress
seen_at sock = home

abbrev relay : Relay
relay = new_relay home

abbrev for_self : N2npPacket
for_self = record (packet_of (codes "DHT") []) { to = record { name = codes "self"; relay = home } }

attached_test :
    treat for_self (attach_node seen_at 4 relay).1 ≡ send_bytes 4 (build_packet for_self) ∷ []
unfolding treat attach_node bytes_eq compare_nat compare_bytes
attached_test = refl

attach_node_lem_example :
    (node : NodeName) × (r' : Relay) × (attach_node seen_at 4 relay
      ≡ (node, r', send_bytes 4 (build_packet (id_packet relay.relay_id node home)) ∷ []))
    × IsNumbered r'
    × (Dict.find node.name relay.nodes ≡ none)
    × ((p : N2npPacket)
        → treat p r'
          ≡ (if is_for p node then send_bytes 4 (build_packet p) ∷ [] else treat p relay))
attach_node_lem_example = attach_node_lem seen_at 4 relay (omega arith) tt

detach-attach_example :
    (node : NodeName) × (r' r'' : Relay) × ((attach_node seen_at 4 relay).0 ≡ node)
    × ((attach_node seen_at 4 relay).1 ≡ r')
    × (detach_node node r' ≡ (true, r'', close_socket 4 ∷ []))
    × ((p : N2npPacket) → treat p r'' ≡ (if is_for p node then [] else treat p relay))
detach-attach_example = detach-attach seen_at 4 relay

abbrev connection : Connection
connection = record { relay = relay; node_id = no_node; sock = 4; done = []; posted = [] }

attached_twice_example :
    treat for_self (hang_up (answer_id seen_at (answer_id seen_at connection))).relay
    ≡ send_bytes 4 (build_packet for_self) ∷ []
unfolding is_for attach_node bytes_eq compare_nat compare_bytes
attached_twice_example = attached_twice seen_at connection for_self (omega arith) refl
