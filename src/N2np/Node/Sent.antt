-- ===== src/N2np/Node/Sent.antt =====
-- Lemmas on what a node sends, and on what it keeps of it until it is acknowledged.
use epyx.Base.{
  ℕ, ◌+◌, ◌^◌, ◌<◌, ◌≤◌, ◌≡◌, ap, ◌∙◌, inl, inr, true, false, [], ◌∷◌, none, some, arith,
  if◌then◌else◌, ◌==◌, Bool-cases, Bytes, codes, bytes_eq,
}
use epyx.Base.Dict.{bytes_order, nat_order, find-set, find-unset}
use epyx.Core.AtomMap
use epyx.Core.AtomMap.{AtomMap}
use epyx.Core.Text.{to_ulong, from_unsigned_long}
use epyx.Core.Text.Number.{to_ulong-from_unsigned_long}
use epyx.N2np.NodeId.{NodeName}
use epyx.N2np.Node.{Node, send_bytes, quiet, count_for, select_way, outgoing, send_out, send}
use epyx.N2np.Node.Treat.{take_ack, drop_sent}
use epyx.N2np.Packet.{N2npPacket, build_packet}

-- The packets kept have numbers that were given, and the map takes more.
pub record IsCounted (n : Node) : Type 0 where
  pub open_map : n.sent_map.read_only ≡ false
  pub below : (id : ℕ) → n.cur_id ≤ id → AtomMap.find id n.sent_map ≡ none

map_set :
    (k j : ℕ) (p : N2npPacket) (m : AtomMap ℕ N2npPacket)
    → m.read_only ≡ false
    → AtomMap.find j (AtomMap.set k p m) ≡ (if k == j then some p else AtomMap.find j m)
unfolding AtomMap.find AtomMap.set
map_set k j p m w = rw w (find-set k j p m.map)

map_unset :
    (k j : ℕ) (m : AtomMap ℕ N2npPacket)
    → m.read_only ≡ false
    → AtomMap.find j (AtomMap.unset k m).1 ≡ (if k == j then none else AtomMap.find j m)
unfolding AtomMap.find AtomMap.unset
map_unset k j m w = rw w (find-unset k j m.map)

map_set-open :
    (k : ℕ) (p : N2npPacket) (m : AtomMap ℕ N2npPacket)
    → m.read_only ≡ false
    → (AtomMap.set k p m).read_only ≡ false
unfolding AtomMap.set
map_set-open k p m w = rw w

-- The node after such a packet was kept and sent.
abbrev kept : NodeName → Bytes → Bytes → Node → Node
kept to method content n = record n {
  cur_id = n.cur_id + 1;
  sent_map = AtomMap.set n.cur_id (outgoing to method content n) n.sent_map;
}

send-kept :
    (to : NodeName) (method content : Bytes) (n : Node)
    → n.has_id ≡ true
    → AtomMap.find n.cur_id n.sent_map ≡ none
    → send to method content true n
      ≡ send_out to content (outgoing to method content n) (kept to method content n)
unfolding send
send-kept to method content n h f = elim (Bool-cases (bytes_eq method (codes "ID"))) [
  | inl id ↦ rw (id, f)
  | inr other ↦ rw (other, h, f)
]

kept-IsCounted :
    (to : NodeName) (method content : Bytes) (n : Node)
    → IsCounted n
    → IsCounted (count_for to content (kept to method content n))
unfolding count_for
kept-IsCounted to method content n c = record {
  open_map = map_set-open n.cur_id _ n.sent_map c.open_map;
  below = λ id l.
      map_set n.cur_id id _ n.sent_map c.open_map
      ∙ (let e : (n.cur_id == id) ≡ false = ground arith in rw e (c.below id (omega arith)));
}

-- Where a node has its name, the packets kept have numbers below its counter, and the map of them
-- takes more, `send` with `store` throws nothing, sends the bytes of the packet the way selected,
-- keeps the packet under its number and every other as it was, and keeps these conditions.
pub send_stored :
    (to : NodeName) (method content : Bytes) (n : Node)
    → n.has_id ≡ true
    → IsCounted n
    → (n' : Node) × (send to method content true n ≡ record {
      node = n';
      done =
          send_bytes (select_way to n.direct_sockets) (build_packet (outgoing to method content n))
          ∷ [];
      fault = none;
    })
      × IsCounted n'
      × ((id : ℕ)
          → AtomMap.find id n'.sent_map ≡ (
              if n.cur_id == id
              then some (outgoing to method content n)
              else AtomMap.find id n.sent_map))
unfolding send_out count_for
send_stored to method content n h c = (
  count_for to content (kept to method content n),
  send-kept to method content n h (c.below n.cur_id (omega arith)),
  kept-IsCounted to method content n c,
  λ id. map_set n.cur_id id _ n.sent_map c.open_map,
)

-- An ACK with the decimal text of a number below 2^64 removes the packet kept under that number, if
-- there is one, and no other, and keeps the conditions of the numbers.
pub take_ack_lem :
    (id : ℕ) (p : N2npPacket) (n : Node)
    → id < 2 ^ 64
    → p.content ≡ from_unsigned_long id
    → IsCounted n
    → (n' : Node) × (take_ack p n ≡ quiet n')
      × IsCounted n'
      × ((j : ℕ)
          → AtomMap.find j n'.sent_map ≡ (if id == j then none else AtomMap.find j n.sent_map))
unfolding take_ack drop_sent
take_ack_lem id p n l e c = (
  record n { sent_map = (AtomMap.unset id n.sent_map).1 },
  ap (λ t. drop_sent (to_ulong t) n) e ∙ ap (λ o. drop_sent o n) (to_ulong-from_unsigned_long id l),
  record {
    open_map = unset-open;
    below = λ j k.
        map_unset id j n.sent_map c.open_map
        ∙ elim (Bool-cases (id == j)) [ inl same ↦ rw same | inr other ↦ rw other (c.below j k) ];
  },
  λ j. map_unset id j n.sent_map c.open_map,
)
  where
    unset-open : (AtomMap.unset id n.sent_map).1.read_only ≡ false
    unset-open = unfold AtomMap.unset in rw (c.open_map)
