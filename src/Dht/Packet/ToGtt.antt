-- ===== src/Dht/Packet/ToGtt.antt =====
-- dht/packet.cpp: `toGTTPacket`.
use epyx.Base.{List, [], ◌∷◌, ◌++◌, Option, none, some, if◌then◌else◌, length, Bytes, codes}
use epyx.Base.Dict
use epyx.Base.Dict.{bytes_order}
use epyx.Base.Int.{to_int32, pos}
use epyx.Core.Text.{from_int}
use epyx.Parser.Packet.{GttPacket, new_packet}
use epyx.Dht.Id
use epyx.Dht.KBucket.{Peer}
use epyx.Dht.Packet.{
  DhtPacket, DhtMethod, m_ping, m_pong, m_get, m_got, m_find, m_found, m_store, m_stored, serialize,
  connectionid, is_zero,
}

-- `pkt->headers[k] = v`.
abbrev pub with_header : Bytes → Bytes → GttPacket → GttPacket
with_header k v pkt = record pkt { headers = Dict.set k v pkt.headers }

abbrev pub with_method : Bytes → GttPacket → GttPacket
with_method m pkt = record pkt { method = m }

-- `setValueForGTT` with the status.
unfoldable pub set_value_with_status : DhtPacket → GttPacket → GttPacket
unfolding from_int
set_value_with_status p pkt = record (with_header (codes "status") (from_int p.status) pkt) {
  body = if is_zero p.status then p.value else [];
}

-- The loop over the peers found.
unfoldable pub serialize_all : List Peer → Bytes
unfolding serialize
serialize_all [] = []
serialize_all (p ∷ ps) = serialize p ++ serialize_all ps

-- The packet before the `switch`.
abbrev pub opened : DhtPacket → GttPacket
opened p =
    with_header (codes "from") (Id.print p.from) (record new_packet { protocol = codes "DHT" })

abbrev pub connected : Bytes → DhtPacket → GttPacket → GttPacket
connected m p pkt = with_header connectionid (from_int p.connection_id) (with_method m pkt)

-- `String::fromInt(foundPeers->size())`: the size becomes an `int`.
abbrev pub size_text : List Peer → Bytes
size_text ps = from_int (to_int32 (pos (length ps)))

-- The branches of the `switch`.
abbrev pub write_store : DhtPacket → GttPacket
write_store p =
    let keyed = with_header (codes "key") p.key (with_method (codes "STORE") (opened p)) in
    record (with_header connectionid (from_int p.connection_id) keyed) { body = p.value }

abbrev pub write_stored : DhtPacket → GttPacket
write_stored p =
    with_header (codes "status") (from_int p.status) (connected (codes "STORED") p (opened p))

abbrev pub write_get : DhtPacket → GttPacket
write_get p =
    let keyed = with_header (codes "key") p.key (with_method (codes "GET") (opened p)) in
    with_header connectionid (from_int p.connection_id) keyed

abbrev pub write_got : DhtPacket → GttPacket
write_got p = set_value_with_status p (connected (codes "GOT") p (opened p))

abbrev pub write_find : DhtPacket → GttPacket
write_find p =
    with_header (codes "target") (Id.print p.id_to_find)
      (with_header (codes "count") (from_int p.count) (connected (codes "FIND") p (opened p)))

abbrev pub write_found : List Peer → DhtPacket → GttPacket
write_found ps p =
    set_value_with_status (record p { value = serialize_all ps })
      (with_header (codes "count") (size_text ps) (connected (codes "FOUND") p (opened p)))

-- `*foundPeers`.
abbrev pub with_peers : Option (List Peer) → (List Peer → GttPacket) → Option GttPacket
with_peers none f = none
with_peers (some ps) f = some (f ps)

unfoldable pub write : DhtMethod → DhtPacket → Option GttPacket
unfolding set_value_with_status serialize_all from_int to_int32 Id.print
write m_ping p = some (with_method (codes "PING") (opened p))
write m_pong p = some (with_method (codes "PONG") (opened p))
write m_store p = some (write_store p)
write m_stored p = some (write_stored p)
write m_get p = some (write_get p)
write m_got p = some (write_got p)
write m_find p = some (write_find p)
write m_found p = with_peers p.found_peers (λ ps. write_found ps p)

-- `Packet::toGTTPacket`; `none` where it follows a null `foundPeers`.
unfoldable pub to_gtt : DhtPacket → Option GttPacket
unfolding write
to_gtt p = write p.method p
