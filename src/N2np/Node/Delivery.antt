-- ===== src/N2np/Node/Delivery.antt =====
-- Lemmas on a packet that one node sends and another reads.
use epyx.Base.{
  ℕ, ◌≡◌, ◌≢◌, sym, ap, ◌∙◌, true, List, [], ◌∷◌, ◌++◌, append-nil, Option, none, some, Bytes,
  codes,
}
use epyx.Base.Dict
use epyx.Base.Dict.{bytes_order}
use epyx.N2np.NodeId.{NodeName}
use epyx.N2np.Node.{
  Node, Effect, send_bytes, from_n2np, Fault, count_for, select_way, outgoing, send,
}
use epyx.N2np.Node.Sent.{IsCounted, send_stored}
use epyx.N2np.Node.Treat.{ModuleEnd, fine, treat, received, after, handle, eat}
use epyx.N2np.Node.Treated.{Handled, ended, replied, reply, treat-handled}
use epyx.N2np.Packet.{N2npPacket, to_gtt, build_packet, version_text}
use epyx.N2np.Packet.RoundTrip.{IsSendable, to_gtt-IsWellFormed, from_gtt-to_gtt}
use epyx.N2np.Stream.{eaten, eat_stream}
use epyx.N2np.Stream.Packets.{build_all, handle_all, eat_stream-build_all}
use epyx.Parser.Packet.{build}
use epyx.Parser.Gtt.Idle.{IsIdle}
use epyx.Parser.Gtt.{GttParser}

module _ (simplify : ℕ → Bytes → Bytes) (answer : ℕ → NodeName → Bytes → ModuleEnd) where
  abbrev State : Type 0
  State = Node × List Effect

  -- The end of `handle_all` behind its only packet.
  all_of : State × Option Fault → State × Option Fault
  all_of (s, none) = (s, none)
  all_of (s, some f) = (s, some f)

  -- The packet as it arrives: the version is written out.
  abbrev pub arrived : N2npPacket → N2npPacket
  arrived p = record p { version = version_text p.version }

  handle_outcome :
      (p : N2npPacket) (m m' : Node) (done did : List Effect)
      → IsSendable simplify p
      → treat simplify answer (arrived p) m ≡ record { node = m'; done = did; fault = none }
      → handle simplify answer (to_gtt p) (m, done) ≡ ((m', done ++ did), none)
  unfolding handle received
  handle_outcome p m m' done did k e =
      ap (λ r. received simplify answer r (m, done)) (from_gtt-to_gtt simplify p k)
      ∙ ap (after simplify answer done) e

  -- A node that reads the text of one packet does what it does with the packet.
  pub eat-build_packet :
      (p : N2npPacket) (m m' : Node) (done did : List Effect) (q : GttParser)
      → IsSendable simplify p
      → treat simplify answer (arrived p) m ≡ record { node = m'; done = did; fault = none }
      → IsIdle q
      → q.buffer ≡ []
      → (q' : GttParser) × IsIdle q'
        × (q'.buffer ≡ [])
        × (eat simplify answer (build_packet p) q (m, done) ≡ eaten q' (m', done ++ did))
  unfolding eat build_packet handle_all build_all all_of
  eat-build_packet p m m' done did q k e i b =
      let (q', idle, empty, g) =
        eat_stream-build_all (handle simplify answer) (to_gtt p ∷ []) q (m, done) (m', done ++ did)
          i b (to_gtt-IsWellFormed simplify p k, tt)
          (ap all_of (handle_outcome p m m' done did k e)) in
      (
        q',
        idle,
        empty,
        ap (λ t. eat_stream (handle simplify answer) t q (m, done))
              (sym (append-nil (build (to_gtt p))))
            ∙ g,
      )

  -- Where a node that has its name, and keeps packets only under numbers below its counter, in a
  -- map that takes more, sends a packet, and a node with the name it is for and a module for the
  -- method reads these bytes with nothing else in its parser, the bytes go the way that `send`
  -- selects, the module is given the name of the sender and the data unchanged, and, as it throws
  -- nothing, the packet is acknowledged; the parser has nothing left then. The number of the packet
  -- is below 2^31 and the data shorter than 2^63; the method is neither ACK nor ERR, and is the
  -- name of one for the parser; both names have no `@`, and relays that are IPv4 addresses as the
  -- system writes them, with ports below 2^16; the texts of the names and of the version can be
  -- read back as the values of fields.
  pub delivered :
      (to : NodeName) (method content : Bytes) (n m : Node) (k : ℕ) (q : GttParser)
      → n.has_id ≡ true
      → IsCounted n
      → IsSendable simplify (outgoing to method content n)
      → method ≢ codes "ACK"
      → method ≢ codes "ERR"
      → m.has_id ≡ true
      → m.node_id ≡ to
      → Dict.find method m.modules ≡ some (some k)
      → answer k n.node_id content ≡ fine
      → IsIdle q
      → q.buffer ≡ []
      → (bytes : Bytes) × (n' m' : Node) × (q' : GttParser) × (send to method content true n
          ≡ record {
            node = n';
            done = send_bytes (select_way to n.direct_sockets) bytes ∷ [];
            fault = none;
          })
        × (eat simplify answer bytes q (m, [])
            ≡ eaten q' (
              m',
              from_n2np k n.node_id content
                  ∷ reply
                      (codes "ACK")
                      (outgoing to method content n)
                      (count_for n.node_id content m)
                  ∷ [],
            ))
        × IsIdle q'
        × (q'.buffer ≡ [])
  unfolding reply
  delivered to method content n m k q hn c s a r hm em f ans i b =
      let p = outgoing to method content n in
      let counted = count_for n.node_id content m in
      let (n', sends, still, rest) = send_stored to method content n hn c in
      let (q', idle, empty, e) =
        eat-build_packet p m (replied (arrived p) counted) []
          (from_n2np k n.node_id content ∷ reply (codes "ACK") (arrived p) counted ∷ []) q s
          (treat-handled simplify answer (arrived p) m hm (sym em) a r
            ∙ ap (λ x. Handled answer x (arrived p) counted) f
            ∙ ap (λ x. ended x k (arrived p) counted) ans)
          i b in
      (build_packet p, n', replied (arrived p) counted, q', sends, e, idle, empty)
