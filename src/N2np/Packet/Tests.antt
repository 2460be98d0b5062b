-- ===== src/N2np/Packet/Tests.antt =====
-- Packets of nodes at concrete inputs. Here the system writes every address as it is read.
use epyx.Base.{◌^◌, ◌≡◌, ◌≢◌, refl, ◌++◌, [], ◌∷◌, some, arith, codes, bytes_eq, bytes_lt}
use epyx.Core.Ctype.{is_upper}
use epyx.Core.Text.{from_int, from_unsigned_long}
use epyx.Net.Address.Samples.{keep, home, home-IsIpv4}
use epyx.N2np.NodeId.{NodeName, print_node}
use epyx.N2np.Packet.{
  N2npPacket, read, refused, unknown_header, from_gtt, to_gtt, build_packet, version_text,
}
use epyx.N2np.Packet.RoundTrip.{IsReadable, IsSendable, get_packet-build_packet, id_lost}
use epyx.Parser.Packet.{new_packet}
use epyx.Parser.Gtt.Syntax.{is_name, is_value}
use epyx.Parser.Gtt.{gtt_grammar, new_parser, start_packet, get_packet, returned}

abbrev here : NodeName
here = record { name = codes "n1"; relay = home }

abbrev there : NodeName
there = record { name = codes "n2"; relay = home }

abbrev hello : N2npPacket
hello = record {
  method = codes "DHT";
  from = here;
  to = there;
  version = [];
  pkt_id = 7;
  content = codes "hi";
}

build_test :
    build_packet hello
    ≡ codes
        "N2NP DHT\r\nFrom: n1@127.0.0.1:4242\r\nID: 7\r\nTo: n2@127.0.0.1:4242\r\nVersion: 0\r\ncontent-length: 2\r\n\r\nhi"
unfolding build_packet from_int bytes_eq bytes_lt
build_test = refl

unknown_header_test :
    from_gtt keep
      (record new_packet { protocol = codes "N2NP"; headers = (codes "X", codes "y") ∷ [] })
    ≡ refused unknown_header
unfolding from_gtt bytes_eq
unknown_header_test = refl

here-IsReadable : IsReadable keep here
here-IsReadable = record { name = ground arith; relay = home-IsIpv4; port = omega arith }

there-IsReadable : IsReadable keep there
there-IsReadable = record { name = ground arith; relay = home-IsIpv4; port = omega arith }

hello-IsSendable : IsSendable keep hello
unfolding is_name is_upper is_value print_node from_unsigned_long
hello-IsSendable = record {
  method = ground arith;
  from = here-IsReadable;
  from_value = ground arith;
  to = there-IsReadable;
  to_value = ground arith;
  version = λ ne. absurd (ne refl);
  id = omega arith;
  content = omega arith;
}

get_packet-build_packet_test :
    (get_packet gtt_grammar (record new_parser { buffer = build_packet hello ++ codes "N2NP" })
      ≡ returned (some (to_gtt hello)) (start_packet (record new_parser { buffer = codes "N2NP" })))
    × (from_gtt keep (to_gtt hello) ≡ read (record hello { version = version_text hello.version }))
get_packet-build_packet_test =
    get_packet-build_packet keep new_parser hello (codes "N2NP") refl refl hello-IsSendable

abbrev late : N2npPacket
late = record hello { pkt_id = 2 ^ 31 }

id_lost_example :
    (q : N2npPacket) × (from_gtt keep (to_gtt late) ≡ read q) × (q.pkt_id ≢ late.pkt_id)
id_lost_example = id_lost keep late here-IsReadable there-IsReadable (omega arith) (omega arith)
