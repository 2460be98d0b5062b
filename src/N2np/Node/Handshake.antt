-- ===== src/N2np/Node/Handshake.antt =====
-- Lemmas on how a relay names a node: the packet that `Relay::attachNode` sends, read by `Node::eat`.
use epyx.Base.{
  ℕ, zero, suc, ◌^◌, ◌<◌, ◌≡◌, ◌≢◌, refl, sym, ap, ◌∙◌, true, false, not, List, [], ◌∷◌, ◌++◌,
  append_assoc, append-nil, Option, none, some, arith, if◌then◌else◌, length, Bytes, codes, All,
  All-append, bytes_eq,
}
use epyx.Core.Ctype.{is_space, is_upper}
use epyx.Core.Text.{crlf, ltrim, rtrim, trim, to_lower}
use epyx.Net.Address.{SockAddress, print_address, parse_address, split_at}
use epyx.Net.Address.RoundTrip.{IsIpv4, parse_address-print_address}
use epyx.N2np.NodeId.Key.{is_same}
use epyx.N2np.NodeId.{NodeName, compare_node}
use epyx.N2np.Node.{Node, Effect, Fault, quiet}
use epyx.N2np.Node.Treat.{
  ModuleEnd, set_address, and_more, read_field, read_fields, of_fields, take_id, treat, treat_mine,
  after, received, handle, eat,
}
use epyx.N2np.Packet.{to_gtt, build_packet, version_text}
use epyx.N2np.Packet.RoundTrip.{IsSendable, to_gtt-IsWellFormed, from_gtt-to_gtt}
use epyx.N2np.Relay.{id_packet}
use epyx.N2np.Stream.{eaten, eat_stream}
use epyx.N2np.Stream.Packets.{build_all, handle_all, eat_stream-build_all}
use epyx.Parser.Line
use epyx.Parser.Line.{pop_line}
use epyx.Parser.Line.Laws.{IsLine, pop_line-crlf}
use epyx.Parser.Packet.{build}
use epyx.Parser.Gtt.Idle.{IsIdle}
use epyx.Parser.Gtt.{GttParser}

abbrev pub NoSpace : Bytes → Type 0
NoSpace = All (λ c. is_space c ≡ false)

rtrim_tight : (c : ℕ) (t : Bytes) → NoSpace (c ∷ t) → rtrim (c ∷ t) ≡ c ∷ t
unfolding rtrim
rtrim_tight c [] h = rw (h.0)
rtrim_tight c (d ∷ t) h = rw (rtrim_tight d t h.1)

rtrim_cons : (x : ℕ) (s : Bytes) (d : ℕ) (t : Bytes) → rtrim s ≡ d ∷ t → rtrim (x ∷ s) ≡ x ∷ d ∷ t
unfolding rtrim
rtrim_cons x s d t e = rw e

rtrim-append : (s : Bytes) (c : ℕ) (t : Bytes) → NoSpace (c ∷ t) → rtrim (s ++ c ∷ t) ≡ s ++ c ∷ t
rtrim-append [] c t h = rtrim_tight c t h
rtrim-append (x ∷ []) c t h = rtrim_cons x (c ∷ t) c t (rtrim_tight c t h)
rtrim-append (x ∷ y ∷ s) c t h = rtrim_cons x _ y (s ++ c ∷ t) (rtrim-append (y ∷ s) c t h)

ltrim_tight : (c : ℕ) (t : Bytes) → is_space c ≡ false → ltrim (c ∷ t) ≡ c ∷ t
unfolding ltrim
ltrim_tight c t h = rw h

-- The line of an address, trimmed, and its two halves.
trim_line : (t : Bytes) → t ≢ [] → NoSpace t → trim (codes "IP: " ++ t) ≡ codes "IP: " ++ t
unfolding trim is_space
trim_line [] ne h = absurd (ne refl)
trim_line (c ∷ t) ne h = ap ltrim (rtrim-append (codes "IP: ") c t h) ∙ unfold ltrim in refl

trim_value : (t : Bytes) → t ≢ [] → NoSpace t → trim (b' ' ∷ t) ≡ t
unfolding trim
trim_value [] ne h = absurd (ne refl)
trim_value (c ∷ t) ne h =
    ap ltrim (rtrim-append (b' ' ∷ []) c t h) ∙ unfold ltrim is_space in ltrim_tight c t h.0

NoSpace-IsLine : (t : Bytes) → NoSpace t → IsLine t
unfolding is_space
NoSpace-IsLine [] h = tt
NoSpace-IsLine (c ∷ t) h = (ground (arith, h.0), NoSpace-IsLine t h.1)

module _ (simplify : ℕ → Bytes → Bytes) (a : SockAddress) (ip : IsIpv4 simplify a.ip)
    (port : a.port < 2 ^ 16) (filled : print_address a ≢ [])
    (tight : NoSpace (print_address a)) where
  line : Bytes
  line = codes "IP: " ++ print_address a

  field_read :
      (n : Node)
      → read_field simplify (trim line) n ≡ (record n { node_address_from_relay = a }, none)
  unfolding line read_field split_at
  field_read n =
      ap (λ t. read_field simplify t n) (trim_line (print_address a) filled tight)
      ∙ unfold trim to_lower bytes_eq is_space is_upper in
        ap (λ t. set_address simplify (parse_address simplify t) n)
          (trim_value (print_address a) filled tight)
        ∙ ap (λ t. set_address simplify t n) (parse_address-print_address simplify a ip port)

  line-IsLine : IsLine line
  unfolding line
  line-IsLine =
      All-append (λ c. c ≢ b'\n') (codes "IP: ") (print_address a)
        (
          (λ e. absurd (omega arith)),
          (
            (λ e. absurd (omega arith)),
            ((λ e. absurd (omega arith)), ((λ e. absurd (omega arith)), tt)),
          ),
        )
        (NoSpace-IsLine (print_address a) tight)

  rest_fields : (fuel : ℕ) (n : Node) → read_fields simplify fuel crlf n ≡ (n, none)
  unfolding read_fields pop_line read_field trim split_at
  rest_fields zero n = refl
  rest_fields (suc zero) n = refl
  rest_fields (suc (suc fuel)) n = refl

  fields_step :
      (fuel : ℕ) (buffer l rest : Bytes) (n : Node)
      → pop_line buffer ≡ some (l, rest)
      → read_fields simplify (suc fuel) buffer n
        ≡ and_more simplify (read_fields simplify fuel rest) (read_field simplify (trim l) n)
  unfolding read_fields
  fields_step fuel buffer l rest n e = rw (e, read_fields)

  fields_read :
      (fuel : ℕ) (n : Node)
      → read_fields simplify (suc fuel) (line ++ b'\r' ∷ b'\n' ∷ crlf) n
        ≡ (record n { node_address_from_relay = a }, none)
  fields_read fuel n =
      fields_step fuel (line ++ b'\r' ∷ b'\n' ∷ crlf) line crlf n
        (pop_line-crlf line crlf line-IsLine)
      ∙ ap (and_more simplify (read_fields simplify fuel crlf)) (field_read n)
      ∙ rest_fields fuel (record n { node_address_from_relay = a })

  data_shape : (codes "IP: " ++ (print_address a ++ crlf)) ++ crlf ≡ line ++ b'\r' ∷ b'\n' ∷ crlf
  unfolding line
  data_shape = ap (λ s. codes "IP: " ++ s) (append_assoc (print_address a) crlf crlf)

  id_taken :
      (relay_id node : NodeName) (v : Bytes) (n : Node)
      → take_id simplify (record (id_packet relay_id node a) { version = v }) n
        ≡ quiet (record n { node_id = node; has_id = true; node_address_from_relay = a })
  unfolding take_id id_packet Line.push
  id_taken relay_id node v n =
      let buffer = codes "IP: " ++ ((print_address a ++ crlf) ++ crlf) in
      ap
        (λ b. of_fields simplify (
          read_fields simplify (suc (length buffer)) b
            (record n { node_id = node; has_id = true })))
        data_shape
      ∙ ap (of_fields simplify)
          (fields_read (length buffer) (record n { node_id = node; has_id = true }))

  treat_id :
      (answer : ℕ → NodeName → Bytes → ModuleEnd) (relay_id node : NodeName) (v : Bytes) (n : Node)
      → n.has_id ≡ false
      → treat simplify answer (record (id_packet relay_id node a) { version = v }) n
        ≡ quiet (record n { node_id = node; has_id = true; node_address_from_relay = a })
  unfolding treat id_packet bytes_eq
  treat_id answer relay_id node v n h =
      let p = record (id_packet relay_id node a) { version = v } in
      ap
        (λ b.
          if not b
          then take_id simplify p n
          else if is_same (compare_node node n.node_id)
          then treat_mine simplify answer p n
          else quiet n)
        h
      ∙ id_taken relay_id node v n

  -- The end of `handle_all` behind its only packet.
  all_of :
      (ℕ → NodeName → Bytes → ModuleEnd)
      → (Node × List Effect) × Option Fault
      → (Node × List Effect) × Option Fault
  all_of answer (s, none) = (s, none)
  all_of answer (s, some f) = (s, some f)

  handle_id :
      (answer : ℕ → NodeName → Bytes → ModuleEnd) (relay_id node : NodeName) (n : Node)
      (done : List Effect)
      → n.has_id ≡ false
      → IsSendable simplify (id_packet relay_id node a)
      → handle simplify answer (to_gtt (id_packet relay_id node a)) (n, done)
        ≡ ((record n { node_id = node; has_id = true; node_address_from_relay = a }, done), none)
  unfolding handle received
  handle_id answer relay_id node n done h k =
      let n' = record n { node_id = node; has_id = true; node_address_from_relay = a } in
      ap (λ r. received simplify answer r (n, done))
        (from_gtt-to_gtt simplify (id_packet relay_id node a) k)
      ∙ ap (after simplify answer done)
          (treat_id answer relay_id node (version_text (id_packet relay_id node a).version) n h)
      ∙ ap (λ (d : List Effect). ((n', d), none)) (append-nil done)

  -- A node without a name that reads the ID packet of a relay, which the parser takes, with nothing
  -- else in its parser, has the name given and the address it is seen at then, where this is an
  -- IPv4 address as the system writes it, with a port below 2^16 and a text that is not empty and
  -- has no white space; it sends nothing.
  pub handshake :
      (answer : ℕ → NodeName → Bytes → ModuleEnd) (relay_id node : NodeName) (n : Node)
      (done : List Effect) (q : GttParser)
      → n.has_id ≡ false
      → IsSendable simplify (id_packet relay_id node a)
      → IsIdle q
      → q.buffer ≡ []
      → (q' : GttParser) × IsIdle q'
        × (q'.buffer ≡ [])
        × (eat simplify answer (build_packet (id_packet relay_id node a)) q (n, done)
            ≡ eaten q'
                (record n { node_id = node; has_id = true; node_address_from_relay = a }, done))
  unfolding eat build_packet handle_all build_all all_of
  handshake answer relay_id node n done q h k i b =
      let g = to_gtt (id_packet relay_id node a) in
      let n' = record n { node_id = node; has_id = true; node_address_from_relay = a } in
      let (q', idle, empty, e) =
        eat_stream-build_all (handle simplify answer) (g ∷ []) q (n, done) (n', done) i b
          (to_gtt-IsWellFormed simplify (id_packet relay_id node a) k, tt)
          (ap (all_of answer) (handle_id answer relay_id node n done h k)) in
      (
        q',
        idle,
        empty,
        ap (λ t. eat_stream (handle simplify answer) t q (n, done)) (sym (append-nil (build g)))
            ∙ e,
      )
