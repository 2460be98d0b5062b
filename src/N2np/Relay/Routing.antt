-- ===== src/N2np/Relay/Routing.antt =====
-- Lemmas on who gets a packet that a relay treats.
use epyx.Base.{
  ℕ, ◌+◌, ◌^◌, ◌<◌, ◌≡◌, refl, sym, ap, ◌∙◌, inl, inr, Bool, true, false, ◌&&◌, [], ◌∷◌, none, some,
  arith, if◌then◌else◌, Bool-cases, Bytes, bytes_eq, bytes_eq_iff,
}
use epyx.Base.Compare.{Sign, less, same, greater}
use epyx.Base.Dict
use epyx.Base.Dict.{Dict, bytes_order, find-set, find-unset}
use epyx.Net.Address.{SockAddress, compare_address}
use epyx.Net.Address.Order.{compare_address-IsTotal}
use epyx.N2np.NodeId.{NodeName}
use epyx.N2np.NodeId.Key.{is_same}
use epyx.N2np.Packet.{N2npPacket, build_packet}
use epyx.N2np.Relay.{
  NodeInfo, Relay, send_bytes, close_socket, node_name, id_packet, attach_node, detach_node, treat,
  deliver, Connection, answer_id, hang_up,
}
use epyx.N2np.Relay.Names.{IsNumbered, attach_node-IsNumbered, fresh_name, node_name_injective}

same_self : (a : SockAddress) → is_same (compare_address a a) ≡ true
same_self a = ap is_same ((compare_address-IsTotal.same_iff a a).1 refl)

-- A packet is for the node of a name of the relay.
unfoldable pub is_for : N2npPacket → NodeName → Bool
unfolding bytes_eq
is_for p node = is_same (compare_address p.to.relay node.relay) && bytes_eq node.name p.to.name

deliver-set :
    (p : N2npPacket) (k : Bytes) (info : NodeInfo) (m : Dict Bytes NodeInfo)
    → deliver p (Dict.find p.to.name (Dict.set k info m)) ≡ (
        if bytes_eq k p.to.name
        then send_bytes info.sock (build_packet p) ∷ []
        else deliver p (Dict.find p.to.name m))
deliver-set p k info m =
    ap (deliver p) (find-set k p.to.name info m)
    ∙ elim (Bool-cases (bytes_eq k p.to.name)) [ inl here ↦ rw here | inr there ↦ rw there ]

deliver-unset :
    (p : N2npPacket) (k : Bytes) (m : Dict Bytes NodeInfo)
    → deliver p (Dict.find p.to.name (Dict.unset k m))
      ≡ (if bytes_eq k p.to.name then [] else deliver p (Dict.find p.to.name m))
deliver-unset p k m =
    ap (deliver p) (find-unset k p.to.name m)
    ∙ elim (Bool-cases (bytes_eq k p.to.name)) [ inl here ↦ rw here | inr there ↦ rw there ]

treat_attached :
    (address : ℕ → SockAddress) (sock : ℕ) (r : Relay) (p : N2npPacket)
    → treat p (attach_node address sock r).1 ≡ (
        if is_for p (attach_node address sock r).0
        then send_bytes sock (build_packet p) ∷ []
        else treat p r)
unfolding treat attach_node is_for
treat_attached address sock r p =
    elim (Bool-cases (is_same (compare_address p.to.relay r.relay_addr))) [
      | inl mine ↦ rw mine (deliver-set p (node_name r.node_next_id (address sock)) _ r.nodes)
      | inr away ↦ rw away
    ]

-- Where the counter of a relay is below 2^64 and all names attached are of numbers that it gave,
-- `attachNode` gives a name that no node has, keeps that, closes no socket, and sends the ID packet
-- to the socket; a packet treated then goes to this socket if it is for the new name at this relay,
-- and else where it went before.
pub attach_node_lem :
    (address : ℕ → SockAddress) (sock : ℕ) (r : Relay)
    → r.node_next_id < 2 ^ 64
    → IsNumbered r
    → (node : NodeName) × (r' : Relay) × (attach_node address sock r ≡ (
      node,
      r',
      send_bytes sock (build_packet (id_packet r.relay_id node (address sock))) ∷ [],
    ))
      × IsNumbered r'
      × (Dict.find node.name r.nodes ≡ none)
      × ((p : N2npPacket)
          → treat p r'
            ≡ (if is_for p node then send_bytes sock (build_packet p) ∷ [] else treat p r))
attach_node_lem address sock r l h = (
  (attach_node address sock r).0,
  (attach_node address sock r).1,
  shape,
  attach_node-IsNumbered address sock r l h,
  unfold attach_node in fresh,
  treat_attached address sock r,
)
  where
    fresh : Dict.find (node_name r.node_next_id (address sock)) r.nodes ≡ none
    fresh = fresh_name r.node_next_id (address sock) r.nodes l h

    shape : attach_node address sock r ≡ (
      (attach_node address sock r).0,
      (attach_node address sock r).1,
      send_bytes sock
            (build_packet (id_packet r.relay_id (attach_node address sock r).0 (address sock)))
          ∷ [],
    )
    shape = unfold attach_node in rw fresh

same_relay : (a b : SockAddress) → is_same (compare_address a b) ≡ true → a ≡ b
same_relay a b h = (compare_address-IsTotal.same_iff a b).0 (same_sign (compare_address a b) h)
  where
    same_sign : (s : Sign) → is_same s ≡ true → s ≡ same
    same_sign less h = absurd (cc h)
    same_sign same h = refl
    same_sign greater h = absurd (cc h)

treat_detached :
    (node : NodeName) (r : Relay) (p : N2npPacket)
    → node.relay ≡ r.relay_addr
    → treat p (detach_node node r).1 ≡ (if is_for p node then [] else treat p r)
unfolding treat detach_node is_for
treat_detached node r p e = elim (Bool-cases (is_same (compare_address p.to.relay r.relay_addr))) [
  | inl mine ↦ rw (e, same_self r.relay_addr, mine) (deliver-unset p node.name r.nodes)
  | inr away ↦ rw (e, same_self r.relay_addr, away)
]

found_attached :
    (address : ℕ → SockAddress) (sock : ℕ) (r : Relay)
    → Dict.find (attach_node address sock r).0.name (attach_node address sock r).1.nodes
      ≡ some (record { id = (attach_node address sock r).0; sock = sock })
unfolding attach_node
found_attached address sock r =
    let name = node_name r.node_next_id (address sock) in
    find-set name name _ r.nodes ∙ rw ((bytes_eq_iff name name).1 refl)

attached_relay :
    (address : ℕ → SockAddress) (sock : ℕ) (r : Relay)
    → (attach_node address sock r).0.relay ≡ (attach_node address sock r).1.relay_addr
unfolding attach_node
attached_relay address sock r = refl

detach_closes :
    (node : NodeName) (r : Relay) (info : NodeInfo)
    → node.relay ≡ r.relay_addr
    → Dict.find node.name r.nodes ≡ some info
    → detach_node node r ≡ (true, (detach_node node r).1, close_socket info.sock ∷ [])
unfolding detach_node
detach_closes node r info e f = rw (e, same_self r.relay_addr, f)

-- `detachNode` of a node just attached succeeds and closes its socket; a packet for it then goes
-- nowhere, and every other packet where it went before the node was attached.
pub detach-attach :
    (address : ℕ → SockAddress) (sock : ℕ) (r : Relay)
    → (node : NodeName) × (r' r'' : Relay) × ((attach_node address sock r).0 ≡ node)
      × ((attach_node address sock r).1 ≡ r')
      × (detach_node node r' ≡ (true, r'', close_socket sock ∷ []))
      × ((p : N2npPacket) → treat p r'' ≡ (if is_for p node then [] else treat p r))
detach-attach address sock r = (
  node,
  r',
  (detach_node node r').1,
  refl,
  refl,
  closes,
  λ p. treat_detached node r' p (attached_relay address sock r) ∙ after p,
)
  where
    node : NodeName
    node = (attach_node address sock r).0

    r' : Relay
    r' = (attach_node address sock r).1

    closes : detach_node node r' ≡ (true, (detach_node node r').1, close_socket sock ∷ [])
    closes = detach_closes node r' _ (attached_relay address sock r) (found_attached address sock r)

    after :
        (p : N2npPacket)
        → (if is_for p node then [] else treat p r') ≡ (if is_for p node then [] else treat p r)
    after p = elim (Bool-cases (is_for p node)) [
      | inl mine ↦ rw mine
      | inr other ↦ rw other (treat_attached address sock r p ∙ rw other)
    ]

two_names :
    (address : ℕ → SockAddress) (i j : ℕ) (r : Relay) (p : N2npPacket)
    → r.node_next_id + 1 < 2 ^ 64
    → is_for p (attach_node address i r).0 ≡ true
    → is_for p (attach_node address j (attach_node address i r).1).0 ≡ false
unfolding attach_node is_for
two_names address i j r p l h =
    elim (Bool-cases (bytes_eq (node_name (r.node_next_id + 1) (address j)) p.to.name)) [
      | inr other ↦ ground (arith, other)
      | inl both ↦
          let first : bytes_eq (node_name r.node_next_id (address i)) p.to.name ≡ true =
            ground (arith, h) in
          let e =
            (bytes_eq_iff (node_name r.node_next_id (address i)) p.to.name).0 first
            ∙ sym ((bytes_eq_iff (node_name (r.node_next_id + 1) (address j)) p.to.name).0 both) in
          let clash : r.node_next_id ≡ r.node_next_id + 1 =
            node_name_injective r.node_next_id (r.node_next_id + 1) (address i) (address j)
              (omega arith) l e in
          absurd (omega arith)
    ]

-- Where a connection asks for a name twice and then ends, and the counter of the relay is below
-- 2^64 - 1, a packet for its first name is still sent to its socket.
pub attached_twice :
    (address : ℕ → SockAddress) (c : Connection) (p : N2npPacket)
    → c.relay.node_next_id + 1 < 2 ^ 64
    → is_for p (attach_node address c.sock c.relay).0 ≡ true
    → treat p (hang_up (answer_id address (answer_id address c))).relay
      ≡ send_bytes c.sock (build_packet p) ∷ []
unfolding hang_up answer_id
attached_twice address c p l h =
    let r1 = (attach_node address c.sock c.relay).1 in
    let two = two_names address c.sock c.sock c.relay p l h in
    treat_detached (attach_node address c.sock r1).0 (attach_node address c.sock r1).1 p
      (attached_relay address c.sock r1)
    ∙ rw two (
        treat_attached address c.sock r1 p
        ∙ rw two (treat_attached address c.sock c.relay p ∙ rw h))
