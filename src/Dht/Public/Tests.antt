-- ===== src/Dht/Public/Tests.antt =====
-- A message sent by one node of the table and received by another.
use epyx.Base.{
  ◌≡◌, refl, sym, subst, ◌∙◌, true, [], ◌∷◌, none, some, arith, Bytes, codes, bytes_eq, bytes_lt,
}
use epyx.Base.Dict
use epyx.Base.Dict.{bytes_order, nat_order}
use epyx.Base.Int.{pos}
use epyx.Core.AtomMap.{new_map, find}
use epyx.Core.Ctype.{is_upper, is_alpha, to_lower}
use epyx.Core.Text.{from_int}
use epyx.Net.Address.{no_address}
use epyx.Net.Address.Samples.{keep, home}
use epyx.N2np.NodeId.Key.{node_order}
use epyx.N2np.Node
use epyx.N2np.Node.{select_way, outgoing}
use epyx.N2np.Node.Sent.{IsCounted}
use epyx.N2np.Packet.{build_packet}
use epyx.Parser.Packet.{GttPacket}
use epyx.Parser.Gtt.{new_parser}
use epyx.Parser.Gtt.Syntax.{is_name, is_flag, is_value, is_content_length}
use epyx.Parser.Gtt.WellFormed.{IsWellFormed}
use epyx.Dht.Id
use epyx.Dht.Id.{DhtId}
use epyx.Dht.KBucket.{Peer, new_kbucket}
use epyx.Dht.Packet.{DhtPacket, m_get, made}
use epyx.Dht.Packet.RoundTrip.{IsSendable}
use epyx.Dht.Packet.ToGtt.{to_gtt, write_get}
use epyx.Dht.Public.{PublicNode, process, from_n2np, dht_method, send}
use epyx.Dht.Public.Delivery.{arrived, message_delivered}

abbrev asked : DhtPacket
asked = record {
  method = m_get;
  from = Id.reset;
  connection_id = pos 6;
  status = pos 0;
  count = pos 0;
  found_peers = none;
  value = [];
  key = codes "k";
  id_to_find = Id.reset;
}

asked-IsSendable : IsSendable asked
asked-IsSendable = record {
  from = (refl, omega arith);
  target = (refl, omega arith);
  connection = refl;
  status = refl;
  count = refl;
}

abbrev target : Peer
target = record {
  id = Id.reset;
  n2np_id = record { name = codes "n2"; relay = home };
  last_receive_time = 0;
}

abbrev sender : Node.Node
sender = record {
  node_id = record { name = codes "n1"; relay = home };
  has_id = true;
  modules = [];
  mru_node_ids = new_map;
  cur_id = 0;
  sent_map = new_map;
  direct_sockets = [];
  node_address_from_relay = no_address;
}

sender-IsCounted : IsCounted sender
unfolding find
sender-IsCounted = record { open_map = refl; below = λ id l. refl }

abbrev table : PublicNode
table = record {
  id = Id.reset;
  gtt_parser = new_parser;
  internal = record {
    id = Id.reset;
    kbucket = new_kbucket Id.reset;
    registered = record { process_actors_count = 0; process_actors = new_map };
    storage = record { data_of = [] };
  };
}

abbrev written : GttPacket
written = write_get asked

written-IsWellFormed : IsWellFormed written
unfolding is_upper is_alpha is_name is_flag is_value is_content_length to_lower bytes_eq bytes_lt
    from_int Id.print Dict.set
written-IsWellFormed = record {
  protocol = ground arith;
  method = ground arith;
  headers = (
    record { flag = ground arith; value = ground arith; other = refl },
    (
      record { flag = ground arith; value = ground arith; other = refl },
      (record { flag = ground arith; value = ground arith; other = refl }, tt),
    ),
  );
  sorted = ground arith;
  body = omega arith;
}

asked-written : to_gtt asked ≡ some written
unfolding to_gtt
asked-written = refl

asked-IsWellFormed : (g : GttPacket) → to_gtt asked ≡ some g → IsWellFormed g
asked-IsWellFormed g e =
    let same : some written ≡ some g = sym asked-written ∙ e in
    subst IsWellFormed (cc same) written-IsWellFormed

message_delivered_example :
    (payload : Bytes) × (n' : Node.Node) × (send Id.reset asked target sender
      ≡ some (record {
        node = n';
        done =
            Node.send_bytes
              (select_way target.n2np_id sender.direct_sockets)
              (build_packet (outgoing target.n2np_id dht_method payload sender))
            ∷ [];
        fault = none;
      }))
    × (from_n2np keep asked 9 sender.node_id payload table
        ≡ process 9 sender.node_id
            (made (arrived asked asked))
            (record table { gtt_parser = new_parser }))
message_delivered_example =
    message_delivered keep asked 9 Id.reset asked target sender table asked-IsSendable
      (λ e. ground arith) refl sender-IsCounted asked-IsWellFormed refl
