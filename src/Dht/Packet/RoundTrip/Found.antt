-- ===== src/Dht/Packet/RoundTrip/Found.antt =====
-- An answer with the peers found, written as a GTT packet and read back.
use epyx.Base.{
  ℕ, ◌^◌, ◌<◌, ◌≡◌, refl, ap, ◌∙◌, true, false, List, [], ◌∷◌, some, map, arith, ◌==◌,
  if◌then◌else◌, length, length-append, All, Bytes, codes, bytes_eq, bytes_lt,
}
use epyx.Base.Dict
use epyx.Base.Dict.{bytes_order}
use epyx.Base.Int.{pos, pos_part}
use epyx.Core.Text.{from_int}
use epyx.N2np.NodeId.{print_node}
use epyx.Parser.Packet.{GttPacket}
use epyx.Dht.Id
use epyx.Dht.Id.{DhtId, IsId}
use epyx.Dht.KBucket.{Peer}
use epyx.Dht.Packet.Peers.{IsPrintable, forgotten, read_peers-serialize_all}
use epyx.Dht.Packet.ToGtt.{
  to_gtt, serialize_all, write, write_found, with_peers, set_value_with_status,
}
use epyx.Dht.Packet.{
  blank_packet, DhtPacket, m_found, made, connectionid, is_zero, from_gtt, fill, read_dht_method,
  read_connection_id, read_count, read_status, value_with_status, read_peers, read_found, found_at,
  then_made, serialize,
}
use epyx.Dht.Packet.RoundTrip.{
  to_int32_fits, int_header_written, read-print_all, header_of, IsSendable,
}

positive : (n : ℕ) → 0 < n → (n == 0) ≡ false
positive n h = ground arith

module _ (simplify : ℕ → Bytes → Bytes) (raw p : DhtPacket) (h : IsSendable p) where
  not_empty : (q : Peer) (ps : List Peer) → (length (serialize_all (q ∷ ps)) == 0) ≡ false
  unfolding serialize_all serialize
  not_empty q ps =
      let a = length-append (serialize q) (serialize_all ps) in
      let b = length-append (print_node q.n2np_id) (b'%' ∷ Id.print q.id) in
      let n : 0 < length (serialize_all (q ∷ ps)) = omega (arith, a, b) in
      positive (length (serialize_all (q ∷ ps))) n

  read_found_lem :
      (r : DhtPacket) (ps : List Peer)
      → All (IsPrintable simplify) ps
      → r.count ≡ pos (length ps)
      → r.value ≡ serialize_all ps
      → read_found simplify r ≡ some (record r { found_peers = some (map forgotten ps) })
  unfolding read_found
  read_found_lem r ps ha c v = ap (found_at r) (
      ap (λ z. read_peers simplify (pos_part z) r.value) c
      ∙ ap (read_peers simplify (length ps)) v
      ∙ read_peers-serialize_all simplify ps ha)

  found_returns :
      (q : Peer) (ps : List Peer)
      → All (IsPrintable simplify) (q ∷ ps)
      → length (q ∷ ps) < 2 ^ 31
      → is_zero p.status ≡ true
      → from_gtt simplify raw (write_found (q ∷ ps) p)
        ≡ made (record (header_of m_found p raw) {
          connection_id = p.connection_id;
          status = p.status;
          count = pos (length (q ∷ ps));
          value = serialize_all (q ∷ ps);
          found_peers = some (map forgotten (q ∷ ps));
        })
  unfolding write from_gtt read_dht_method bytes_eq bytes_lt Dict.find Dict.set fill
      read_connection_id read_count read_status value_with_status set_value_with_status read_found
  found_returns q ps ha l z =
      let w = write_found (q ∷ ps) p in
      let n : length (q ∷ ps) < 2 ^ 31 = l in
      let body : w.body ≡ serialize_all (q ∷ ps) =
        ap (λ t. if t then serialize_all (q ∷ ps) else []) z in
      let filled : (length w.body == 0) ≡ false = ap (λ b. length b == 0) body ∙ not_empty q ps in
      rw
        (
          read-print_all p.from h.from,
          filled,
          int_header_written (codes "status") p.status w refl h.status,
          int_header_written connectionid p.connection_id w refl h.connection,
          int_header_written (codes "count") (pos (length (q ∷ ps))) w
              (ap from_int (to_int32_fits (pos (length (q ∷ ps))) (ground (arith, n))))
              (ground (arith, n)),
          z,
        )
        (ap then_made (
          read_found_lem
            (record (header_of m_found p raw) {
              connection_id = p.connection_id;
              status = p.status;
              count = pos (length (q ∷ ps));
              value = serialize_all (q ∷ ps);
            })
            (q ∷ ps) ha refl refl))

-- A FOUND with status 0 and a list of peers that is not empty and shorter than 2^31, each with a
-- text that can be read back, is read as the same list, without the times, with its length as the
-- count and its text as the value.
pub from_gtt-to_gtt_found :
    (simplify : ℕ → Bytes → Bytes) (raw p : DhtPacket) (q : Peer) (ps : List Peer)
    → IsSendable p
    → p.method ≡ m_found
    → p.found_peers ≡ some (q ∷ ps)
    → All (IsPrintable simplify) (q ∷ ps)
    → length (q ∷ ps) < 2 ^ 31
    → is_zero p.status ≡ true
    → (g : GttPacket) × (to_gtt p ≡ some g)
      × (from_gtt simplify raw g
          ≡ made (record (blank_packet raw) {
            from = p.from;
            method = m_found;
            connection_id = p.connection_id;
            status = p.status;
            count = pos (length (q ∷ ps));
            value = serialize_all (q ∷ ps);
            found_peers = some (map forgotten (q ∷ ps));
          }))
unfolding to_gtt write
from_gtt-to_gtt_found simplify raw p q ps h m f ha l z = (
  write_found (q ∷ ps) p,
  ap (λ x. write x p) m ∙ ap (λ o. with_peers o (λ l. write_found l p)) f,
  found_returns simplify raw p h q ps ha l z,
)
