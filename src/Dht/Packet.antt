-- ===== src/Dht/Packet.antt =====
-- dht/packet.h, dht/packet.cpp and dht/peer.cpp: the messages of the table, to and from GTT packets.
-- A field that the constructor leaves unset keeps what it had in the packet `raw` (the memory).
-- The child Peers is about a list of peers as text, RoundTrip about whole packets, Malformed about
-- those that the constructor cannot take.
pub mod ToGtt
pub mod Peers
pub mod RoundTrip
pub mod Malformed
mod Tests
use epyx.Base.{
  ℕ, zero, suc, ◌-◌, ◌%◌, ◌^◌, Bool, true, false, ◌||◌, List, [], ◌∷◌, ◌++◌, Option, none, some,
  ◌==◌, ltb, if◌then◌else◌, length, drop, Bytes, codes, bytes_eq, bytes_lt,
}
use epyx.Base.Dict
use epyx.Base.Dict.{Dict, bytes_order}
use epyx.Base.Int.{ℤ, pos, negsuc, pos_part, to_int32}
use epyx.Core.Text.{to_int, from_int}
use epyx.Net.Address.{Parsed, parsed, failed, AddressError}
use epyx.N2np.NodeId.{NodeName, parse_node, print_node}
use epyx.Parser.Packet.{GttPacket, new_packet}
use epyx.Dht.Id
use epyx.Dht.Id.{DhtId}
use epyx.Dht.KBucket.{Peer}

pub data DhtMethod : Type 0 where
  m_ping m_pong m_get m_got m_find m_found m_store m_stored : DhtMethod

pub record DhtPacket : Type 0 where
  pub method : DhtMethod
  pub from : DhtId
  pub connection_id : ℤ
  pub status : ℤ
  pub count : ℤ
  pub found_peers : Option (List Peer)
  pub value : Bytes
  pub key : Bytes
  pub id_to_find : DhtId

-- `Packet()`: the fields that have a constructor of their own; the numbers and the method are those
-- of the memory `raw`.
abbrev pub blank_packet : DhtPacket → DhtPacket
blank_packet raw = record raw {
  from = Id.reset;
  found_peers = none;
  value = [];
  key = [];
  id_to_find = Id.reset;
}

-- How the constructor ends: with a packet, with an exception of `toInt` or `NodeId`, or by `throw;`
-- with no exception to throw again, which ends the program.
pub data Made : Type 0 where
  made : DhtPacket → Made
  thrown : Made
  terminated : Made

-- `i.get(sb, delim)`: the text before the delimiter, and the rest from it on.
unfoldable pub take_until : ℕ → Bytes → Bytes × Bytes
take_until delim [] = ([], [])
take_until delim (c ∷ s) =
    let (before, rest) = take_until delim s in
    if c == delim then ([], c ∷ s) else (c ∷ before, rest)

-- `Peer::serialize`.
unfoldable pub serialize : Peer → Bytes
unfolding print_node Id.print
serialize p = print_node p.n2np_id ++ b'%' ∷ Id.print p.id

abbrev pub connectionid : Bytes
connectionid = codes "connectionid"

-- `pkt.headers.count(k) == 0`.
abbrev pub lacks : Bytes → GttPacket → Bool
lacks k pkt = elim (Dict.find k pkt.headers) [ none ↦ true | some v ↦ false ]

-- `pkt.headers[k]`.
abbrev pub header : Bytes → GttPacket → Bytes
header k pkt = elim (Dict.find k pkt.headers) [ none ↦ [] | some v ↦ v ]

abbrev pub then_made : Option DhtPacket → Made
then_made none = thrown
then_made (some p) = made p

-- `String::toInt` of a header, kept in an `int`.
unfoldable pub to_int_field : Option ℤ → Option ℤ
unfolding to_int32
to_int_field none = none
to_int_field (some z) = some (to_int32 z)

unfoldable pub int_header : Bytes → GttPacket → Option ℤ
unfolding to_int to_int_field
int_header k pkt = to_int_field (to_int (header k pkt))

abbrev pub set_connection_id : DhtPacket → Option ℤ → Option DhtPacket
set_connection_id p none = none
set_connection_id p (some z) = some (record p { connection_id = z })

unfoldable pub read_connection_id : GttPacket → DhtPacket → Option DhtPacket
unfolding int_header
read_connection_id pkt p = set_connection_id p (int_header connectionid pkt)

abbrev pub set_count : DhtPacket → Option ℤ → Option DhtPacket
set_count p none = none
set_count p (some z) = some (record p { count = z })

unfoldable pub read_count : GttPacket → DhtPacket → Option DhtPacket
unfolding int_header
read_count pkt p = set_count p (int_header (codes "count") pkt)

abbrev pub set_status : DhtPacket → Option ℤ → Option DhtPacket
set_status p none = none
set_status p (some z) = some (record p { status = z })

unfoldable pub read_status : GttPacket → DhtPacket → Option DhtPacket
unfolding int_header
read_status pkt p = set_status p (int_header (codes "status") pkt)

abbrev pub is_zero : ℤ → Bool
is_zero (pos n) = n == 0
is_zero (negsuc n) = false

abbrev pub and_make : Option DhtPacket → (DhtPacket → Option DhtPacket) → Option DhtPacket
and_make none f = none
and_make (some p) f = f p

-- `getValueFromGTT` with the status, and without it.
unfoldable pub value_with_status : GttPacket → DhtPacket → Option DhtPacket
unfolding read_status
value_with_status pkt p =
    and_make (read_status pkt p)
      (λ q. some (record q { value = if is_zero q.status then pkt.body else [] }))

abbrev pub value_only : GttPacket → DhtPacket → DhtPacket
value_only pkt p = record p { value = pkt.body }

abbrev pub found_at : DhtPacket → Option (List Peer) → Option DhtPacket
found_at p none = none
found_at p (some ps) = some (record p { found_peers = some ps })

module _ (simplify : ℕ → Bytes → Bytes) where
  -- `Peer::unserialize` behind `get`: the delimiter is skipped.
  abbrev pub make_peer : Parsed NodeName → DhtId × Bytes → Option (Peer × Bytes)
  make_peer (failed e) (id, rest) = none
  make_peer (parsed n) (id, rest) =
      some (record { id = id; n2np_id = n; last_receive_time = 0 }, rest)

  unfoldable pub unserialize_at : Bytes × Bytes → Option (Peer × Bytes)
  unfolding parse_node Id.read
  unserialize_at (name, behind) = make_peer (parse_node simplify name) (Id.read (drop 1 behind))

  -- `Peer::unserialize`, into a new Peer: the peer and what is left of the stream.
  unfoldable pub unserialize : Bytes → Option (Peer × Bytes)
  unfolding take_until unserialize_at
  unserialize s = unserialize_at (take_until b'%' s)

  -- The loop over the peers found: as many rounds as are left.
  unfoldable pub read_peers : ℕ → Bytes → Option (List Peer)
  unfolding unserialize
  read_peers zero s = some []
  read_peers (suc left) s = elim (unserialize s) [
    | none ↦ none
    | some (p, rest) ↦ elim (read_peers left rest) [ none ↦ none | some ps ↦ some (p ∷ ps) ]
  ]

  unfoldable pub read_found : DhtPacket → Option DhtPacket
  unfolding read_peers
  read_found p = found_at p (read_peers (pos_part p.count) p.value)

  -- The branches of the constructor.
  unfoldable pub fill : DhtMethod → GttPacket → DhtPacket → Made
  unfolding read_connection_id read_count read_status value_with_status read_found Id.read
  fill m_ping pkt p = made p
  fill m_pong pkt p = made p
  fill m_store pkt p =
      if lacks connectionid pkt || lacks (codes "key") pkt
      then terminated
      else then_made (
          and_make (read_connection_id pkt (value_only pkt p))
            (λ q. some (record q { key = header (codes "key") pkt })))
  fill m_stored pkt p =
      if lacks connectionid pkt || lacks (codes "status") pkt
      then terminated
      else then_made (and_make (read_connection_id pkt p) (read_status pkt))
  fill m_get pkt p =
      if lacks connectionid pkt || lacks (codes "key") pkt
      then terminated
      else then_made (
          and_make (read_connection_id pkt p)
            (λ q. some (record q { key = header (codes "key") pkt })))
  fill m_got pkt p =
      if lacks connectionid pkt || lacks (codes "status") pkt
      then terminated
      else then_made (and_make (read_connection_id pkt p) (value_with_status pkt))
  fill m_find pkt p =
      if lacks connectionid pkt || lacks (codes "count") pkt || lacks (codes "target") pkt
      then terminated
      else then_made (
          and_make (and_make (read_connection_id pkt p) (read_count pkt))
            (λ q. some (record q { id_to_find = (Id.read (header (codes "target") pkt)).0 })))
  fill m_found pkt p =
      if lacks connectionid pkt
        || lacks (codes "count") pkt
        || lacks (codes "status") pkt
        || length pkt.body == 0
      then terminated
      else then_made (
          and_make
            (and_make (and_make (value_with_status pkt p) (read_connection_id pkt))
              (read_count pkt))
            read_found)

-- The texts of the methods, in the order in which the constructor tries them.
unfoldable pub read_dht_method : Bytes → Option DhtMethod
unfolding bytes_eq
read_dht_method m =
    if bytes_eq m (codes "PING")
    then some m_ping
    else if bytes_eq m (codes "PONG")
    then some m_pong
    else if bytes_eq m (codes "STORE")
    then some m_store
    else if bytes_eq m (codes "STORED")
    then some m_stored
    else if bytes_eq m (codes "GET")
    then some m_get
    else if bytes_eq m (codes "GOT")
    then some m_got
    else if bytes_eq m (codes "FIND")
    then some m_find
    else if bytes_eq m (codes "FOUND")
    then some m_found
    else none

-- `Packet(GTTPacket&)`.
unfoldable pub from_gtt : (ℕ → Bytes → Bytes) → DhtPacket → GttPacket → Made
unfolding fill read_dht_method Id.read
from_gtt simplify raw pkt =
    if lacks (codes "from") pkt then terminated else elim (read_dht_method pkt.method) [
      | none ↦ terminated
      | some m ↦
          fill simplify m pkt (record (blank_packet raw) {
            from = (Id.read (header (codes "from") pkt)).0;
            method = m;
          })
    ]
