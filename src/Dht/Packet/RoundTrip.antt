-- ===== src/Dht/Packet/RoundTrip.antt =====
-- A message written as a GTT packet and read back.
pub mod Found
use epyx.Base.{
  ℕ, ◌%◌, ◌^◌, ◌<◌, ◌≡◌, ◌≢◌, refl, sym, ap, ◌∙◌, Bool, true, false, List, [], ◌∷◌, append-nil,
  none, some, map, arith, ◌==◌, ltb, if◌then◌else◌, length, length-append, All, Bytes, codes,
  bytes_eq, bytes_lt,
}
use epyx.Base.Dict
use epyx.Base.Dict.{bytes_order}
use epyx.Base.Int.{to_int32, ℤ, pos, negsuc, pos_part}
use epyx.Core.Text.{to_int, from_int, fits_long}
use epyx.Core.Text.Number.{to_int-from_int}
use epyx.N2np.NodeId.{print_node}
use epyx.Parser.Packet.{GttPacket}
use epyx.Dht.Id
use epyx.Dht.Id.{DhtId, IsId}
use epyx.Dht.Id.Text.{read-print}
use epyx.Dht.KBucket.{Peer}
use epyx.Dht.Packet.Peers.{IsPrintable, forgotten, read_peers-serialize_all}
use epyx.Dht.Packet.ToGtt.{
  to_gtt, serialize_all, write, write_get, write_store, write_stored, write_got, write_find,
  write_found, with_peers, set_value_with_status,
}
use epyx.Dht.Packet.{
  blank_packet, DhtPacket, DhtMethod, m_ping, m_pong, m_get, m_got, m_find, m_found, m_store,
  m_stored, made, connectionid, header, int_header, to_int_field, is_zero, from_gtt, fill,
  read_dht_method, read_connection_id, read_count, read_status, value_with_status, read_peers,
  read_found, found_at, then_made, serialize,
}

-- The range of an `int`.
abbrev pub fits_int : ℤ → Bool
fits_int (pos n) = ltb n (2 ^ 31)
fits_int (negsuc n) = ltb n (2 ^ 31)

pub to_int32_fits : (z : ℤ) → fits_int z ≡ true → to_int32 z ≡ z
unfolding to_int32
to_int32_fits (pos n) h = let e : n % 2 ^ 32 ≡ n = ground (arith, h) in rw (e, h)
to_int32_fits (negsuc n) h = let e : n % 2 ^ 32 ≡ n = ground (arith, h) in rw (e, h)

fits_long_of_int : (z : ℤ) → fits_int z ≡ true → fits_long z ≡ true
fits_long_of_int (pos n) h = ground (arith, h)
fits_long_of_int (negsuc n) h = ground (arith, h)

pub int_header_written :
    (k : Bytes) (z : ℤ) (pkt : GttPacket)
    → header k pkt ≡ from_int z
    → fits_int z ≡ true
    → int_header k pkt ≡ some z
unfolding int_header to_int_field
int_header_written k z pkt e h =
    ap (λ t. to_int_field (to_int t)) e
    ∙ ap to_int_field (to_int-from_int z (fits_long_of_int z h))
    ∙ ap some (to_int32_fits z h)

pub read-print_all : (a : DhtId) → IsId a → (Id.read (Id.print a)).0 ≡ a
read-print_all a h =
    ap (λ s. (Id.read s).0) (sym (append-nil (Id.print a))) ∙ ap (λ r. r.0) (read-print a [] h)

-- What each method carries: the fields that the reader sets, over those it has.
abbrev pub carried : DhtMethod → DhtPacket → DhtPacket → DhtPacket
carried m_ping p r = r
carried m_pong p r = r
carried m_get p r = record r { connection_id = p.connection_id; key = p.key }
carried m_store p r = record r { connection_id = p.connection_id; key = p.key; value = p.value }
carried m_stored p r = record r { connection_id = p.connection_id; status = p.status }
carried m_got p r = record r {
  connection_id = p.connection_id;
  status = p.status;
  value = if is_zero p.status then p.value else [];
}
carried m_find p r = record r {
  connection_id = p.connection_id;
  count = p.count;
  id_to_find = p.id_to_find;
}
carried m_found p r = r

abbrev pub header_of : DhtMethod → DhtPacket → DhtPacket → DhtPacket
header_of m p raw = record (blank_packet raw) { from = p.from; method = m }

pub record IsSendable (p : DhtPacket) : Type 0 where
  pub from : IsId p.from
  pub target : IsId p.id_to_find
  pub connection : fits_int p.connection_id ≡ true
  pub status : fits_int p.status ≡ true
  pub count : fits_int p.count ≡ true

if_twice : (b : Bool) (v : Bytes) → (if b then if b then v else [] else []) ≡ (if b then v else [])
if_twice true v = refl
if_twice false v = refl

module _ (simplify : ℕ → Bytes → Bytes) (raw p : DhtPacket) (h : IsSendable p) where
  abbrev Returns : DhtMethod → Type 0
  Returns m =
      (g : GttPacket) × (write m p ≡ some g)
      × (from_gtt simplify raw g ≡ made (carried m p (header_of m p raw)))

  ping-Returns : Returns m_ping
  unfolding write from_gtt read_dht_method bytes_eq bytes_lt Dict.find Dict.set fill
  ping-Returns = (_, refl, rw (read-print_all p.from h.from))

  pong-Returns : Returns m_pong
  unfolding write from_gtt read_dht_method bytes_eq bytes_lt Dict.find Dict.set fill
  pong-Returns = (_, refl, rw (read-print_all p.from h.from))

  get-Returns : Returns m_get
  unfolding write from_gtt read_dht_method bytes_eq bytes_lt Dict.find Dict.set fill
      read_connection_id
  get-Returns = (
    write_get p,
    refl,
    rw (
      read-print_all p.from h.from,
      int_header_written connectionid p.connection_id (write_get p) refl h.connection,
    ),
  )

  store-Returns : Returns m_store
  unfolding write from_gtt read_dht_method bytes_eq bytes_lt Dict.find Dict.set fill
      read_connection_id
  store-Returns = (
    write_store p,
    refl,
    rw (
      read-print_all p.from h.from,
      int_header_written connectionid p.connection_id (write_store p) refl h.connection,
    ),
  )

  stored-Returns : Returns m_stored
  unfolding write from_gtt read_dht_method bytes_eq bytes_lt Dict.find Dict.set fill
      read_connection_id read_status
  stored-Returns = (
    write_stored p,
    refl,
    rw (
      read-print_all p.from h.from,
      int_header_written connectionid p.connection_id (write_stored p) refl h.connection,
      int_header_written (codes "status") p.status (write_stored p) refl h.status,
    ),
  )

  got-Returns : Returns m_got
  unfolding write from_gtt read_dht_method bytes_eq bytes_lt Dict.find Dict.set fill
      read_connection_id read_status value_with_status set_value_with_status
  got-Returns = (
    write_got p,
    refl,
    rw
        (
          read-print_all p.from h.from,
          int_header_written connectionid p.connection_id (write_got p) refl h.connection,
          int_header_written (codes "status") p.status (write_got p) refl h.status,
        )
        (ap
          (λ v. made (record (header_of m_got p raw) {
            connection_id = p.connection_id;
            status = p.status;
            value = v;
          }))
          (if_twice (is_zero p.status) p.value)),
  )

  find-Returns : Returns m_find
  unfolding write from_gtt read_dht_method bytes_eq bytes_lt Dict.find Dict.set fill
      read_connection_id read_count
  find-Returns = (
    write_find p,
    refl,
    rw (
      read-print_all p.from h.from,
      int_header_written connectionid p.connection_id (write_find p) refl h.connection,
      int_header_written (codes "count") p.count (write_find p) refl h.count,
      read-print_all p.id_to_find h.target,
    ),
  )

  returns : (m : DhtMethod) → m ≢ m_found → Returns m
  returns m_ping ne = ping-Returns
  returns m_pong ne = pong-Returns
  returns m_get ne = get-Returns
  returns m_got ne = got-Returns
  returns m_find ne = find-Returns
  returns m_found ne = absurd (ne refl)
  returns m_store ne = store-Returns
  returns m_stored ne = stored-Returns

-- A message other than FOUND, with identifiers of 32 bytes and numbers in the range of an `int`, is
-- written as a GTT packet from which the constructor makes a message with the same method, sender
-- and fields of that method; the value of a GOT with a status other than 0 is left out.
pub from_gtt-to_gtt :
    (simplify : ℕ → Bytes → Bytes) (raw p : DhtPacket)
    → IsSendable p
    → p.method ≢ m_found
    → (g : GttPacket) × (to_gtt p ≡ some g)
      × (from_gtt simplify raw g ≡ made (carried p.method p (header_of p.method p raw)))
unfolding to_gtt
from_gtt-to_gtt simplify raw p h ne = returns simplify raw p h p.method ne
