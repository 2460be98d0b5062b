-- ===== src/N2np/Bootstrap.antt =====
-- Lemmas on a new node and its relay (n2np/node.cpp, n2np/relaysocket.cpp, n2np/relay.cpp).
mod Tests
use epyx.Base.{
  ℕ, ◌+◌, ◌^◌, ◌<◌, ◌≡◌, ◌≢◌, refl, sym, ap, ◌∙◌, true, false, ◌&&◌, List, [], ◌∷◌, ◌++◌,
  append-nil, Option, none, some, arith, length, Bytes, codes, bytes_eq, bytes_lt,
}
use epyx.Base.Dict
use epyx.Base.Dict.{bytes_order, nat_order}
use epyx.Core.AtomMap
use epyx.Core.Ctype.{is_upper}
use epyx.Net.Address.{
  SockAddress, with_port, parsed, print_address, split_at, parse_address, parse_ipv4, parse_ip,
  simplify_ip, then_port, use_port,
}
use epyx.Net.Address.RoundTrip.{IsIpv4}
use epyx.N2np.NodeId.Key.{is_same, node_eq_iff, node_order}
use epyx.N2np.NodeId.{NodeName, no_node, relay_only, parse_node, print_node, compare_node}
use epyx.N2np.NodeId.Laws.{parse_node-print_node}
use epyx.N2np.Node
use epyx.N2np.Node.{Node, Outcome, Way, my_relay, new_node, outgoing}
use epyx.N2np.Node.Handshake.{NoSpace, handshake}
use epyx.N2np.Node.Treat
use epyx.N2np.Node.Treat.{ModuleEnd}
use epyx.N2np.Packet.{N2npPacket, PacketError, Read, read, from_gtt, to_gtt, build_packet}
use epyx.N2np.Packet.RoundTrip.{
  IsSendable, carried_id, from_gtt-to_gtt_names, to_gtt-IsWellFormed_texts,
}
use epyx.N2np.Relay
use epyx.N2np.Relay.{
  Relay, Connection, id_packet, attach_node, answer_id, asks_id, take_packet, received, handle,
}
use epyx.N2np.Relay.Names.{IsNumbered}
use epyx.N2np.Relay.Routing.{attach_node_lem}
use epyx.N2np.Stream.{Eaten, eaten, eat_stream}
use epyx.N2np.Stream.Packets.{build_all, handle_all, eat_stream-build_all}
use epyx.Parser.Packet.{GttPacket, build}
use epyx.Parser.Gtt.Idle.{IsIdle}
use epyx.Parser.Gtt.Syntax.{is_name, is_value}
use epyx.Parser.Gtt.Syntax.Read.{IsValue}
use epyx.Parser.Gtt.{GttParser}

-- The packet by which a new node asks for its name.
abbrev pub request : SockAddress → N2npPacket
request addr = outgoing (relay_only addr) (codes "ID") [] new_node

-- Its bytes are all that the constructor sends, to the relay.
start_sends :
    (addr : SockAddress)
    → (m : Node) × (Node.start addr ≡ record {
      node = m;
      done = Node.send_bytes my_relay (build_packet (request addr)) ∷ [];
      fault = none;
    })
      × (m.has_id ≡ false)
unfolding Node.start Node.send Node.send_out Node.select_way Node.count_for AtomMap.find Dict.find
    bytes_eq
start_sends addr = ((Node.start addr).node, refl, refl)

module _ (simplify : ℕ → Bytes → Bytes) where
  -- The name of the sender in it, which has none, as it is read.
  abbrev nobody : NodeName
  nobody = record {
    name = [];
    relay = with_port (record { ip = simplify 4 (codes "*"); ip_version = 4 }) 0;
  }

  nobody_read : parse_node simplify (print_node no_node) ≡ parsed nobody
  unfolding parse_node print_node split_at parse_address parse_ipv4 parse_ip simplify_ip then_port
      use_port
  nobody_read = refl

  request-read :
      (addr : SockAddress)
      → IsIpv4 simplify addr.ip
      → addr.port < 2 ^ 16
      → from_gtt simplify (to_gtt (request addr))
        ≡ read (record (request addr) { from = nobody; version = codes "0"; pkt_id = carried_id 0 })
  request-read addr i p =
      from_gtt-to_gtt_names simplify (request addr) nobody (relay_only addr) nobody_read
        (parse_node-print_node simplify (relay_only addr) tt i p)

  module _ (address : ℕ → SockAddress) (c : Connection)
      (named : c.relay.relay_id ≡ relay_only c.relay.relay_addr) where
    asks :
        (p : N2npPacket)
        → p.method ≡ codes "ID"
        → p.to ≡ relay_only c.relay.relay_addr
        → take_packet address p c ≡ answer_id address c
    unfolding take_packet bytes_eq
    asks p m t =
        let same : is_same (compare_node p.to c.relay.relay_id) ≡ true =
          (node_eq_iff p.to c.relay.relay_id).1 (t ∙ sym named) in
        rw (m, same)

    -- The end of `handle_all` behind its only packet.
    all_of : Connection × Option PacketError → Connection × Option PacketError
    all_of (s, none) = (s, none)
    all_of (s, some f) = (s, some f)

    request_answered :
        (q : GttParser)
        → IsIpv4 simplify c.relay.relay_addr.ip
        → c.relay.relay_addr.port < 2 ^ 16
        → IsValue (print_node (relay_only c.relay.relay_addr))
        → IsIdle q
        → q.buffer ≡ []
        → (q' : GttParser) × IsIdle q'
          × (q'.buffer ≡ [])
          × (Relay.eat simplify address (build_packet (request c.relay.relay_addr)) q c
              ≡ eaten q' (answer_id address c))
    unfolding Relay.eat build_packet handle_all build_all all_of handle is_name is_upper is_value
        print_node print_address
    request_answered q i p v idle b =
        let addr = c.relay.relay_addr in
        let g = to_gtt (request addr) in
        let got =
          ap (λ r. received address c r) (request-read addr i p)
          ∙ ap (λ x. (x, none)) (asks _ refl refl) in
        let w =
          to_gtt-IsWellFormed_texts (request addr) (ground arith) (ground arith) v
            (λ ne. absurd (ne refl)) (omega arith) (omega arith) in
        let (q', rest, empty, e) =
          eat_stream-build_all (handle simplify address) (g ∷ []) q c (answer_id address c) idle b
            (w, tt) (ap all_of got) in
        (
          q',
          rest,
          empty,
          ap (λ t. eat_stream (handle simplify address) t q c) (sym (append-nil (build g))) ∙ e,
        )

    -- The connection behind a request that is answered.
    answered :
        c.relay.node_next_id < 2 ^ 64
        → IsNumbered c.relay
        → let node = (attach_node address c.sock c.relay).0 in
          ((answer_id address c).node_id ≡ node)
          × ((answer_id address c).done
              ≡ c.done
                ++ Relay.send_bytes c.sock
                    (build_packet (id_packet c.relay.relay_id node (address c.sock)))
                  ∷ [])
    unfolding answer_id
    answered l n =
        let (node, r', e, numbered, fresh, routes) = attach_node_lem address c.sock c.relay l n in
        (
          refl,
          ap (λ x. c.done ++ x.2) e
              ∙ ap
                  (λ x.
                    c.done
                    ++ Relay.send_bytes c.sock
                        (build_packet (id_packet c.relay.relay_id x (address c.sock)))
                      ∷ [])
                  (sym (ap (λ x. x.0) e)),
        )

-- A new node on a relay whose counter is below 2^64 and whose names are of numbers that it gave:
-- what the constructor sends is, read by the connection with nothing else in its parser, answered
-- by one packet to the socket, which the node, with nothing else in its parser, reads; it has the
-- name that the connection has then, and the address it is seen at. Both addresses are IPv4 as the
-- system writes them with ports below 2^16, the name of the relay and the answer are taken by the
-- parser, and the text of the address seen is not empty and has no white space.
pub bootstrapped :
    (simplify : ℕ → Bytes → Bytes) (answer : ℕ → NodeName → Bytes → ModuleEnd)
    (address : ℕ → SockAddress) (c : Connection) (p q : GttParser)
    → c.relay.relay_id ≡ relay_only c.relay.relay_addr
    → IsIpv4 simplify c.relay.relay_addr.ip
    → c.relay.relay_addr.port < 2 ^ 16
    → IsValue (print_node (relay_only c.relay.relay_addr))
    → c.relay.node_next_id < 2 ^ 64
    → IsNumbered c.relay
    → IsIpv4 simplify (address c.sock).ip
    → (address c.sock).port < 2 ^ 16
    → print_address (address c.sock) ≢ []
    → NoSpace (print_address (address c.sock))
    → IsSendable simplify
        (id_packet c.relay.relay_id (attach_node address c.sock c.relay).0 (address c.sock))
    → IsIdle p
    → p.buffer ≡ []
    → IsIdle q
    → q.buffer ≡ []
    → (asked told : Bytes) × (m m' : Node) × (c' : Connection) × (p' q' : GttParser) × (Node.start
          c.relay.relay_addr
        ≡ record { node = m; done = Node.send_bytes my_relay asked ∷ []; fault = none })
      × (Relay.eat simplify address asked q c ≡ eaten q' c')
      × (c'.done ≡ c.done ++ Relay.send_bytes c.sock told ∷ [])
      × (Treat.eat simplify answer told p (m, []) ≡ eaten p' (m', []))
      × (m'.has_id ≡ true)
      × (m'.node_id ≡ c'.node_id)
      × (m'.node_address_from_relay ≡ address c.sock)
bootstrapped simplify answer address c p q named i port v l n ai aport filled tight s ip ep iq eq =
    let node = (attach_node address c.sock c.relay).0 in
    let (m, starts, unnamed) = start_sends c.relay.relay_addr in
    let (q', idle, empty, e) = request_answered simplify address c named q i port v iq eq in
    let (name, sends) = answered simplify address c named l n in
    let (p', idle', empty', f) =
      handshake simplify (address c.sock) ai aport filled tight answer c.relay.relay_id node m [] p
        unnamed s ip ep in
    (
      build_packet (request c.relay.relay_addr),
      build_packet (id_packet c.relay.relay_id node (address c.sock)),
      m,
      record m { node_id = node; has_id = true; node_address_from_relay = address c.sock },
      answer_id address c,
      p',
      q',
      starts,
      e,
      sends,
      f,
      refl,
      sym name,
      refl,
    )
