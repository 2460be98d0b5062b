-- ===== src/N2np/Packet/RoundTrip.antt =====
-- Lemmas on a packet of a node as bytes, and on its number, which is written as an `int`.
use epyx.Base.{
  ℕ, ◌-◌, ◌%◌, ◌^◌, ◌<◌, ◌≤◌, ◌≡◌, ◌≢◌, refl, ap, ◌∙◌, [], ◌∷◌, ◌++◌, some, none, arith, ltb, true,
  inl, inr, length, Bytes, bytes_eq, bytes_lt, Bool-cases,
}
use epyx.Base.Dict
use epyx.Base.Dict.{bytes_order}
use epyx.Base.Int.{pos, to_int32}
use epyx.Core.Ctype.{is_upper, is_alpha, to_lower}
use epyx.Core.Text.{to_int, from_int, fits_long}
use epyx.Core.Text.Number.{to_int-from_int, from_unsigned_long-Starts, from_unsigned_long-digits}
use epyx.Net.Address.{parsed}
use epyx.Net.Address.RoundTrip.{Without, IsIpv4}
use epyx.N2np.NodeId.{NodeName, parse_node, print_node}
use epyx.N2np.NodeId.Laws.{parse_node-print_node}
use epyx.N2np.Packet.{
  N2npPacket, read, id_text, version_text, from_gtt, to_gtt, build_packet, read_headers,
  read_header,
}
use epyx.Parser.Gtt.Syntax.{to_size, is_name, is_flag, is_value, is_content_length}
use epyx.Parser.Gtt.Syntax.Read.{IsName, IsValue, IsValue-digits}
use epyx.Parser.Gtt.RoundTrip.{get_packet-build}
use epyx.Parser.Gtt.WellFormed.{IsWellFormed}
use epyx.Parser.Gtt.{GttParser, gtt_grammar, start_packet, get_packet, returned, datapos_first_line}

-- A name whose text can be read back: no `@` in it, an IPv4 relay as the system writes it.
pub record IsReadable (simplify : ℕ → Bytes → Bytes) (n : NodeName) : Type 0 where
  pub name : Without b'@' n.name
  pub relay : IsIpv4 simplify n.relay.ip
  pub port : n.relay.port < 2 ^ 16

read_name :
    (simplify : ℕ → Bytes → Bytes) (n : NodeName)
    → IsReadable simplify n
    → parse_node simplify (print_node n) ≡ parsed n
read_name simplify n h = parse_node-print_node simplify n h.name h.relay h.port

-- The number that a reader finds in the text of a number.
pub carried_id : ℕ → ℕ
unfolding to_int32
carried_id n = to_size (to_int32 (pos n))

id_fits : (n : ℕ) → fits_long (to_int32 (pos n)) ≡ true
unfolding to_int32
id_fits n = elim (Bool-cases (ltb (n % 2 ^ 32) (2 ^ 31))) [
  | inl small ↦ rw small (ground arith)
  | inr large ↦ rw large (ground arith)
]

read_id : (n : ℕ) → to_int (id_text n) ≡ some (to_int32 (pos n))
read_id n = to_int-from_int (to_int32 (pos n)) (id_fits n)

-- A packet read from the GTT packet made of it, whatever its number and the names in it.
pub from_gtt-to_gtt_names :
    (simplify : ℕ → Bytes → Bytes) (p : N2npPacket) (from to : NodeName)
    → parse_node simplify (print_node p.from) ≡ parsed from
    → parse_node simplify (print_node p.to) ≡ parsed to
    → from_gtt simplify (to_gtt p)
      ≡ read (record p {
        from = from;
        to = to;
        version = version_text p.version;
        pkt_id = carried_id p.pkt_id;
      })
unfolding from_gtt to_gtt read_headers read_header bytes_eq bytes_lt Dict.set carried_id
from_gtt-to_gtt_names simplify p from to f t = rw (f, read_id p.pkt_id, t)

pub from_gtt-to_gtt_any :
    (simplify : ℕ → Bytes → Bytes) (p : N2npPacket)
    → IsReadable simplify p.from
    → IsReadable simplify p.to
    → from_gtt simplify (to_gtt p)
      ≡ read (record p { version = version_text p.version; pkt_id = carried_id p.pkt_id })
from_gtt-to_gtt_any simplify p f t =
    from_gtt-to_gtt_names simplify p p.from p.to (read_name simplify p.from f)
      (read_name simplify p.to t)

id_text-IsValue : (n : ℕ) → n < 2 ^ 31 → IsValue (id_text n)
unfolding to_int32 from_int
id_text-IsValue n h =
    let e : n % 2 ^ 32 ≡ n = omega arith in
    let l : ltb n (2 ^ 31) ≡ true = ground arith in
    rw (e, l) (IsValue-digits _ (from_unsigned_long-Starts n) (from_unsigned_long-digits n))

version-IsValue : (v : Bytes) → (v ≢ [] → IsValue v) → IsValue (version_text v)
unfolding is_value
version-IsValue [] h = ground arith
version-IsValue (c ∷ v) h = h (λ e. cc)

-- What a packet needs so that the parser takes its text.
pub record IsSendable (simplify : ℕ → Bytes → Bytes) (p : N2npPacket) : Type 0 where
  pub method : IsName p.method
  pub from : IsReadable simplify p.from
  pub from_value : IsValue (print_node p.from)
  pub to : IsReadable simplify p.to
  pub to_value : IsValue (print_node p.to)
  pub version : p.version ≢ [] → IsValue p.version
  pub id : p.pkt_id < 2 ^ 31
  pub content : length p.content < 2 ^ 63

pub to_gtt-IsWellFormed_texts :
    (p : N2npPacket)
    → IsName p.method
    → IsValue (print_node p.from)
    → IsValue (print_node p.to)
    → (p.version ≢ [] → IsValue p.version)
    → p.pkt_id < 2 ^ 31
    → length p.content < 2 ^ 63
    → IsWellFormed (to_gtt p)
unfolding to_gtt is_upper is_alpha is_name is_flag is_content_length to_lower bytes_eq bytes_lt
    Dict.set
to_gtt-IsWellFormed_texts p m f t v i l = record {
  protocol = ground arith;
  method = m;
  headers = (
    record { flag = ground arith; value = f; other = refl },
    (
      record { flag = ground arith; value = id_text-IsValue p.pkt_id i; other = refl },
      (
        record { flag = ground arith; value = t; other = refl },
        (record { flag = ground arith; value = version-IsValue p.version v; other = refl }, tt),
      ),
    ),
  );
  sorted = ground arith;
  body = l;
}

pub to_gtt-IsWellFormed :
    (simplify : ℕ → Bytes → Bytes) (p : N2npPacket)
    → IsSendable simplify p
    → IsWellFormed (to_gtt p)
to_gtt-IsWellFormed simplify p h =
    to_gtt-IsWellFormed_texts p h.method h.from_value h.to_value h.version h.id h.content

carried_id_small : (n : ℕ) → n < 2 ^ 31 → carried_id n ≡ n
unfolding carried_id to_int32
carried_id_small n h =
    let e : n % 2 ^ 32 ≡ n = omega arith in
    let l : ltb n (2 ^ 31) ≡ true = ground arith in rw (e, l) (omega arith)

pub from_gtt-to_gtt :
    (simplify : ℕ → Bytes → Bytes) (p : N2npPacket)
    → IsSendable simplify p
    → from_gtt simplify (to_gtt p) ≡ read (record p { version = version_text p.version })
from_gtt-to_gtt simplify p h =
    from_gtt-to_gtt_any simplify p h.from h.to
    ∙ ap (λ i. read (record p { version = version_text p.version; pkt_id = i }))
        (carried_id_small p.pkt_id h.id)

-- A parser without a packet in work that finds in its buffer the text of a packet with readable
-- names and a number below 2^31, which its other fields allow, and any bytes behind it, returns a
-- GTT packet of which the constructor makes the packet again, with the version 0 where there was
-- none.
pub get_packet-build_packet :
    (simplify : ℕ → Bytes → Bytes) (s : GttParser) (p : N2npPacket) (rest : Bytes)
    → s.datapos ≡ datapos_first_line
    → s.current_pkt ≡ none
    → IsSendable simplify p
    → (get_packet gtt_grammar (record s { buffer = build_packet p ++ rest })
        ≡ returned (some (to_gtt p)) (start_packet (record s { buffer = rest })))
      × (from_gtt simplify (to_gtt p) ≡ read (record p { version = version_text p.version }))
unfolding build_packet
get_packet-build_packet simplify s p rest d k h = (
  get_packet-build s (to_gtt p) rest d k (to_gtt-IsWellFormed simplify p h),
  from_gtt-to_gtt simplify p h,
)

id_not_kept : (n : ℕ) → 2 ^ 31 ≤ n → n < 2 ^ 64 - 2 ^ 31 → carried_id n ≢ n
unfolding carried_id to_int32
id_not_kept n low high e = elim (Bool-cases (ltb (n % 2 ^ 32) (2 ^ 31))) [
  | inl small ↦ ground (arith, e)
  | inr large ↦ ground (arith, e)
]

-- A packet with readable names and a number from 2^31 on, below 2^64 - 2^31, is read with another
-- number than it was written with.
pub id_lost :
    (simplify : ℕ → Bytes → Bytes) (p : N2npPacket)
    → IsReadable simplify p.from
    → IsReadable simplify p.to
    → 2 ^ 31 ≤ p.pkt_id
    → p.pkt_id < 2 ^ 64 - 2 ^ 31
    → (q : N2npPacket) × (from_gtt simplify (to_gtt p) ≡ read q) × (q.pkt_id ≢ p.pkt_id)
id_lost simplify p f t low high = (
  record p { version = version_text p.version; pkt_id = carried_id p.pkt_id },
  from_gtt-to_gtt_any simplify p f t,
  id_not_kept p.pkt_id low high,
)
