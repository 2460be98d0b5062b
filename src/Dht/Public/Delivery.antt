-- ===== src/Dht/Public/Delivery.antt =====
-- Lemmas on the way of a message from one node of the table to another.
use epyx.Base.{ℕ, ◌≡◌, ◌≢◌, refl, sym, ap, ◌∙◌, true, [], ◌∷◌, ◌++◌, append-nil, none, some, Bytes}
use epyx.Base.Dict.{bytes_order}
use epyx.N2np.NodeId.{NodeName}
use epyx.N2np.Node
use epyx.N2np.Node.{Outcome, select_way, outgoing, count_for}
use epyx.N2np.Node.Sent.{IsCounted, send_stored}
use epyx.N2np.Packet.{build_packet}
use epyx.Core.Text.{crlf}
use epyx.Parser.Packet.{GttPacket, build, build_headers, build_length}
use epyx.Parser.Gtt.Syntax.Read.{IsName}
use epyx.Parser.Gtt.RoundTrip.{get_packet-build}
use epyx.Parser.Gtt.WellFormed.{IsWellFormed}
use epyx.Parser.Gtt.{gtt_grammar, get_packet, new_parser, eat}
use epyx.Parser.Line.{push}
use epyx.Dht.Id.{DhtId}
use epyx.Dht.KBucket.{Peer}
use epyx.Dht.Packet.{DhtPacket, m_found, made, from_gtt}
use epyx.Dht.Packet.RoundTrip.{IsSendable, carried, header_of, from_gtt-to_gtt}
use epyx.Dht.Packet.ToGtt.{to_gtt}
use epyx.Dht.Public.{PublicNode, process, parsed_packet, from_n2np, dht_method, send, send_made}

-- The node has nothing in work: as at first, and as `fromN2NP` leaves it.
abbrev pub IsEmptied : PublicNode → Type 0
IsEmptied s = s.gtt_parser ≡ new_parser

-- The message that the other node makes of a message of this one.
abbrev pub arrived : DhtPacket → DhtPacket → DhtPacket
arrived raw p = carried p.method p (header_of p.method p raw)

pub from_n2np-build :
    (simplify : ℕ → Bytes → Bytes) (raw : DhtPacket) (now : ℕ) (sender : NodeName) (g : GttPacket)
    (s : PublicNode)
    → IsEmptied s
    → IsWellFormed g
    → from_n2np simplify raw now sender (build g) s
      ≡ process now sender (from_gtt simplify raw g) (record s { gtt_parser = new_parser })
unfolding from_n2np parsed_packet push
from_n2np-build simplify raw now sender g s e w =
    ap (λ q. parsed_packet simplify raw now sender (get_packet gtt_grammar (eat q (build g))) s) e
    ∙ ap
        (λ t.
          parsed_packet simplify raw now sender
            (get_packet gtt_grammar (record new_parser { buffer = t })) s)
        (sym (append-nil (build g)))
    ∙ ap (λ r. parsed_packet simplify raw now sender r s)
        (get_packet-build new_parser g [] refl refl w)

build_filled : (g : GttPacket) → IsWellFormed g → (c : ℕ) × (t : Bytes) × (build g ≡ c ∷ t)
unfolding build
build_filled g w = shape g.protocol g.method w.protocol
  where
    rest : Bytes
    rest = crlf ++ (build_headers g.headers ++ (build_length g.body ++ (crlf ++ g.body)))

    shape : (p m : Bytes) → IsName p → (c : ℕ) × (t : Bytes) × (p ++ (b' ' ∷ (m ++ rest)) ≡ c ∷ t)
    shape [] m h = absurd h
    shape (c ∷ p) m h = (c, p ++ (b' ' ∷ (m ++ rest)), refl)

send_gtt_filled :
    (to : NodeName) (method : Bytes) (g : GttPacket) (n : Node.Node) (c : ℕ) (t : Bytes)
    → build g ≡ c ∷ t
    → Node.send_gtt to method g n ≡ Node.send to method (build g) true n
send_gtt_filled to method g n c t e =
    unfold Node.send_gtt in
    (ap (λ b. Node.send_text to method b n) e
      ∙ unfold Node.send_text in ap (λ b. Node.send to method b true n) (sym e))

-- From one node of the table to the other, through the network: the message is sent as one packet,
-- which the network's node of the other hands to its module.
pub send_packet :
    (id : DhtId) (pkt : DhtPacket) (dest : Peer) (n : Node.Node) (g : GttPacket)
    → to_gtt (record pkt { from = id }) ≡ some g
    → IsWellFormed g
    → send id pkt dest n ≡ some (Node.send dest.n2np_id dht_method (build g) true n)
unfolding send send_made
send_packet id pkt dest n g e w =
    let (c, t, f) = build_filled g w in
    ap (λ o. send_made o dest n) e ∙ ap some (send_gtt_filled dest.n2np_id dht_method g n c t f)

-- A message other than FOUND, with identifiers of 32 bytes, numbers in the range of an `int` and a
-- well-formed GTT packet, is sent by `Node::send`, of a network node that has its name and keeps
-- packets only under numbers below its counter, in a map that takes more, as the data of one packet
-- with the method DHT to the node of the peer; `fromN2NP` of a node whose parser is new makes of
-- that data the same message, with the sender set and the fields of its method, processes it, and
-- leaves the parser new.
pub message_delivered :
    (simplify : ℕ → Bytes → Bytes) (raw : DhtPacket) (now : ℕ) (id : DhtId) (pkt : DhtPacket)
    (dest : Peer) (n : Node.Node) (s : PublicNode)
    → IsSendable (record pkt { from = id })
    → pkt.method ≢ m_found
    → n.has_id ≡ true
    → IsCounted n
    → ((g : GttPacket) → to_gtt (record pkt { from = id }) ≡ some g → IsWellFormed g)
    → IsEmptied s
    → (payload : Bytes) × (n' : Node.Node) × (send id pkt dest n
        ≡ some (record {
          node = n';
          done =
              Node.send_bytes
                (select_way dest.n2np_id n.direct_sockets)
                (build_packet (outgoing dest.n2np_id dht_method payload n))
              ∷ [];
          fault = none;
        }))
      × (from_n2np simplify raw now n.node_id payload s
          ≡ process now n.node_id
              (made (arrived raw (record pkt { from = id })))
              (record s { gtt_parser = new_parser }))
message_delivered simplify raw now id pkt dest n s h m hn c w i =
    let (g, e, back) = from_gtt-to_gtt simplify raw (record pkt { from = id }) h m in
    let (n', sends, still, rest) = send_stored dest.n2np_id dht_method (build g) n hn c in
    (
      build g,
      n',
      send_packet id pkt dest n g e (w g e) ∙ ap some sends,
      from_n2np-build simplify raw now n.node_id g s i (w g e)
          ∙ ap (λ r. process now n.node_id r (record s { gtt_parser = new_parser })) back,
    )
