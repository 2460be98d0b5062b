-- ===== src/Dht/Packet/Tests.antt =====
-- Messages at concrete inputs.
use epyx.Base.{◌≡◌, ◌↔◌, refl, [], ◌∷◌, some, map, arith, false, codes, bytes_eq}
use epyx.Base.Dict
use epyx.Base.Dict.{bytes_order}
use epyx.Base.Int.{pos, negsuc}
use epyx.Net.Address.Samples.{keep, home, home-IsIpv4}
use epyx.N2np.NodeId.{print_node}
use epyx.Parser.Packet.{GttPacket, new_packet}
use epyx.Dht.Id.{reset}
use epyx.Dht.KBucket.{Peer}
use epyx.Dht.Packet.Malformed.{complete, from_gtt_terminated}
use epyx.Dht.Packet.Peers.{IsPrintable, forgotten}
use epyx.Dht.Packet.RoundTrip.Found.{from_gtt-to_gtt_found}
use epyx.Dht.Packet.RoundTrip.{IsSendable, carried, header_of, from_gtt-to_gtt}
use epyx.Dht.Packet.ToGtt.{to_gtt, serialize_all}
use epyx.Dht.Packet.{blank_packet, DhtPacket, m_get, m_found, made, terminated, from_gtt}

abbrev peer : Peer
peer = record {
  id = reset;
  n2np_id = record { name = codes "n1"; relay = home };
  last_receive_time = 12;
}

abbrev asked : DhtPacket
asked = record {
  method = m_get;
  from = reset;
  connection_id = negsuc 6;
  status = pos 0;
  count = pos 0;
  found_peers = some (peer ∷ []);
  value = [];
  key = codes "k";
  id_to_find = reset;
}

asked-IsSendable : IsSendable asked
asked-IsSendable = record {
  from = (refl, omega arith);
  target = (refl, omega arith);
  connection = refl;
  status = refl;
  count = refl;
}

from_gtt-to_gtt_example :
    (g : GttPacket) × (to_gtt asked ≡ some g)
    × (from_gtt keep asked g
        ≡ made (carried asked.method asked (header_of asked.method asked asked)))
from_gtt-to_gtt_example = from_gtt-to_gtt keep asked asked asked-IsSendable (λ e. ground arith)

abbrev answer : DhtPacket
answer = record asked { method = m_found }

answer-IsSendable : IsSendable answer
answer-IsSendable = record {
  from = (refl, omega arith);
  target = (refl, omega arith);
  connection = refl;
  status = refl;
  count = refl;
}

peer-IsPrintable : IsPrintable keep peer
unfolding print_node
peer-IsPrintable = record {
  id = (refl, omega arith);
  name = ground arith;
  relay = home-IsIpv4;
  port = omega arith;
  no_delimiter = ground arith;
}

from_gtt-to_gtt_found_example :
    (g : GttPacket) × (to_gtt answer ≡ some g)
    × (from_gtt keep asked g
        ≡ made (record (blank_packet asked) {
          from = reset;
          method = m_found;
          connection_id = negsuc 6;
          status = pos 0;
          count = pos 1;
          value = serialize_all (peer ∷ []);
          found_peers = some (map forgotten (peer ∷ []));
        }))
from_gtt-to_gtt_found_example =
    from_gtt-to_gtt_found keep asked answer peer [] answer-IsSendable refl refl
      (peer-IsPrintable, tt) (omega arith) refl

from_gtt_terminated_example :
    (from_gtt keep asked new_packet ≡ terminated) ↔ (complete new_packet ≡ false)
from_gtt_terminated_example = from_gtt_terminated keep asked new_packet

-- The answer to a search that found no peer ends the program of the node that reads it.
empty_found :
    from_gtt keep asked (record new_packet {
      method = codes "FOUND";
      headers =
          (codes "connectionid", codes "1")
          ∷ (codes "count", codes "0")
          ∷ (codes "from", codes "0")
          ∷ (codes "status", codes "0")
          ∷ [];
    })
    ≡ terminated
unfolding from_gtt bytes_eq Dict.find
empty_found = refl
