-- ===== src/N2np/Bootstrap/Tests.antt =====
-- A new node and a new relay, which sees it at its own address.
use epyx.Base.{ℕ, ◌≡◌, ◌≢◌, refl, true, [], ◌∷◌, none, arith, Bytes}
use epyx.Core.Ctype.{is_upper, is_space}
use epyx.Core.Text.{from_unsigned_long}
use epyx.Net.Address.{SockAddress, print_address}
use epyx.Net.Address.Samples.{keep, home, home-IsIpv4}
use epyx.N2np.Bootstrap.{bootstrapped}
use epyx.N2np.NodeId.{NodeName, no_node, relay_only, print_node}
use epyx.N2np.Node
use epyx.N2np.Node.{Node, Way, my_relay}
use epyx.N2np.Node.Treat
use epyx.N2np.Node.Treat.{ModuleEnd, fine}
use epyx.N2np.Packet.RoundTrip.{IsSendable}
use epyx.N2np.Relay
use epyx.N2np.Relay.{Connection, new_relay, id_packet, attach_node, node_name}
use epyx.N2np.Stream.{eaten}
use epyx.Parser.Gtt.Idle.{IsIdle}
use epyx.Parser.Gtt.Syntax.{is_name, is_value}
use epyx.Parser.Gtt.Syntax.Read.{IsValue}
use epyx.Parser.Gtt.{GttParser, new_parser}

abbrev seen_at : ℕ → SockAddress
seen_at sock = home

abbrev never : ℕ → NodeName → Bytes → ModuleEnd
never m from content = fine

abbrev connection : Connection
connection = record { relay = new_relay home; node_id = no_node; sock = 4; done = []; posted = [] }

told-IsSendable :
    IsSendable keep (id_packet (relay_only home) (attach_node seen_at 4 (new_relay home)).0 home)
unfolding id_packet attach_node node_name is_name is_upper is_value print_node print_address
    from_unsigned_long
told-IsSendable = record {
  method = ground arith;
  from = record { name = tt; relay = home-IsIpv4; port = omega arith };
  from_value = ground arith;
  to = record { name = ground arith; relay = home-IsIpv4; port = omega arith };
  to_value = ground arith;
  version = λ ne. absurd (ne refl);
  id = omega arith;
  content = omega arith;
}

relay-IsValue : IsValue (print_node (relay_only home))
unfolding is_value print_node print_address from_unsigned_long
relay-IsValue = ground arith

home-filled : print_address home ≢ []
unfolding print_address from_unsigned_long
home-filled e = ground arith

parser-IsIdle : IsIdle new_parser
parser-IsIdle = record { start = refl; pkt = refl; fine = refl }

bootstrapped_example :
    (asked told : Bytes) × (m m' : Node) × (c' : Connection) × (p' q' : GttParser) × (Node.start
        home
      ≡ record { node = m; done = Node.send_bytes my_relay asked ∷ []; fault = none })
    × (Relay.eat keep seen_at asked new_parser connection ≡ eaten q' c')
    × (c'.done ≡ Relay.send_bytes 4 told ∷ [])
    × (Treat.eat keep never told new_parser (m, []) ≡ eaten p' (m', []))
    × (m'.has_id ≡ true)
    × (m'.node_id ≡ c'.node_id)
    × (m'.node_address_from_relay ≡ home)
unfolding print_address from_unsigned_long is_space
bootstrapped_example =
    bootstrapped keep never seen_at connection new_parser new_parser refl home-IsIpv4 (omega arith)
      relay-IsValue (omega arith) tt home-IsIpv4 (omega arith) home-filled (ground arith)
      told-IsSendable parser-IsIdle refl parser-IsIdle refl
