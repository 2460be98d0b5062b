-- ===== src/Dht/Replicater/Tests.antt =====
-- A replication at concrete inputs: the node itself is the only peer found.
use epyx.Base.{true, [], none, codes}
use epyx.Base.Dict.{nat_order}
use epyx.Base.Int.{pos}
use epyx.Core.AtomMap.{new_map}
use epyx.N2np.NodeId.{no_node}
use epyx.Dht.Id.{reset}
use epyx.Dht.KBucket.{Peer}
use epyx.Dht.Packet.{DhtPacket, m_stored}
use epyx.Dht.Process.{Scene}
use epyx.Dht.Process.Setter.{SetterActor}

abbrev self : Peer
self = record { id = reset; n2np_id = no_node; last_receive_time = 0 }

abbrev stored : DhtPacket
stored = record {
  method = m_stored;
  from = reset;
  connection_id = pos 0;
  status = pos 0;
  count = pos 0;
  found_peers = none;
  value = [];
  key = [];
  id_to_find = reset;
}

abbrev setter : SetterActor
setter = record {
  key = codes "k";
  value = codes "v";
  pending_requests = pos 0;
  n_errors = 0;
  found = true;
}

abbrev idle : Scene
idle = record {
  queries = [];
  registered = record { process_actors_count = 0; process_actors = new_map };
}
