-- ===== src/N2np/Node/Treat.antt =====
-- n2np/node.cpp: `Node::treat` and `Node::eat`, what a node does with a packet that it receives.
use epyx.Base.{
  ℕ, zero, suc, true, not, List, [], ◌∷◌, ◌++◌, Option, none, some, if◌then◌else◌, length, Bytes,
  codes, bytes_eq,
}
use epyx.Base.Dict
use epyx.Base.Dict.{bytes_order, nat_order}
use epyx.Core.AtomMap
use epyx.Core.Text.{crlf, trim, to_lower, to_ulong}
use epyx.Net.Address.{SockAddress, Parsed, parsed, failed, split_at, parse_address}
use epyx.N2np.NodeId.Key.{is_same}
use epyx.N2np.NodeId.{NodeName, compare_node}
use epyx.N2np.Node.{
  Node, Effect, from_n2np, Fault, bad_number, bad_packet, bad_address, of_module, Outcome, quiet,
  count_for, send_ack, send_err,
}
use epyx.N2np.Packet.{N2npPacket, Read, read, refused, from_gtt}
use epyx.N2np.Stream.{Eaten, eat_stream}
use epyx.Parser.Line
use epyx.Parser.Line.{pop_line}
use epyx.Parser.Packet.{GttPacket}
use epyx.Parser.Gtt.{GttParser}

-- How the call of a module ends.
pub data ModuleEnd : Type 0 where
  fine minor_exception other_exception : ModuleEnd

-- One after the other, where the first threw nothing.
abbrev pub and_then : Outcome → (Node → Outcome) → Outcome
and_then o f = elim o.fault [
  | none ↦ let next = f o.node in record next { done = o.done ++ next.done }
  | some e ↦ o
]

module _ (simplify : ℕ → Bytes → Bytes) where
  abbrev pub set_address : Parsed SockAddress → Node → Node × Option Fault
  set_address (parsed a) n = (record n { node_address_from_relay = a }, none)
  set_address (failed e) n = (n, some (bad_address e))

  -- A line of the data of an ID packet, behind `trim`.
  unfoldable pub read_field : Bytes → Node → Node × Option Fault
  unfolding split_at trim to_lower bytes_eq parse_address
  read_field line n = elim (split_at b':' line) [
    | none ↦ (n, none)
    | some (name, value) ↦
        if bytes_eq (to_lower (trim name)) (codes "ip")
        then set_address (parse_address simplify (trim value)) n
        else (n, none)
  ]

  abbrev pub and_more : (Node → Node × Option Fault) → Node × Option Fault → Node × Option Fault
  and_more f (n, none) = f n
  and_more f (n, some e) = (n, some e)

  -- `while (parser.popLine(line))`, on fuel: every line takes a byte off the buffer. An empty line
  -- has no colon.
  unfoldable pub read_fields : ℕ → Bytes → Node → Node × Option Fault
  unfolding pop_line read_field trim
  read_fields zero buffer n = (n, none)
  read_fields (suc fuel) buffer n = elim (pop_line buffer) [
    | none ↦ (n, none)
    | some (line, rest) ↦ and_more (read_fields fuel rest) (read_field (trim line) n)
  ]

  abbrev pub of_fields : Node × Option Fault → Outcome
  of_fields (n, fault) = record { node = n; done = []; fault = fault }

  -- "Set node ID".
  unfoldable pub take_id : N2npPacket → Node → Outcome
  unfolding read_fields Line.push
  take_id p n =
      let buffer = Line.push (Line.push [] p.content) crlf in
      of_fields
        (read_fields (suc (length buffer)) buffer (record n { node_id = p.to; has_id = true }))

unfoldable pub drop_sent : Option ℕ → Node → Outcome
unfolding AtomMap.unset
drop_sent none n = record { node = n; done = []; fault = some bad_number }
drop_sent (some id) n = quiet (record n { sent_map = (AtomMap.unset id n.sent_map).1 })

-- The packet that acknowledges another.
unfoldable pub take_ack : N2npPacket → Node → Outcome
unfolding to_ulong drop_sent
take_ack p n = drop_sent (to_ulong p.content) n

module _ (simplify : ℕ → Bytes → Bytes) (answer : ℕ → NodeName → Bytes → ModuleEnd) where
  -- "Call the module", and the acknowledgement behind it.
  unfoldable pub run_module : ModuleEnd → ℕ → N2npPacket → Node → Outcome
  unfolding send_ack
  run_module other_exception m p n = record {
    node = n;
    done = from_n2np m p.from p.content ∷ [];
    fault = some of_module;
  }
  run_module _ m p n =
      and_then (record { node = n; done = from_n2np m p.from p.content ∷ []; fault = none })
        (send_ack p)

  -- "Find the relevant module"; a null module is as good as none.
  unfoldable pub call_module : Option (Option ℕ) → N2npPacket → Node → Outcome
  unfolding run_module send_err
  call_module none p n = send_err p n
  call_module (some none) p n = send_err p n
  call_module (some (some m)) p n = run_module (answer m p.from p.content) m p n

  -- `Node::treat`, behind "Ensure I am the destination".
  unfoldable pub treat_mine : N2npPacket → Node → Outcome
  unfolding take_ack count_for call_module bytes_eq Dict.find
  treat_mine p n =
      if bytes_eq p.method (codes "ACK")
      then take_ack p n
      else if bytes_eq p.method (codes "ERR")
      then quiet n
      else call_module (Dict.find p.method n.modules) p (count_for p.from p.content n)

  -- `Node::treat`.
  unfoldable pub treat : N2npPacket → Node → Outcome
  unfolding take_id treat_mine bytes_eq
  treat p n =
      let first = if bytes_eq p.method (codes "ID") then take_id simplify p n else quiet n in
      if not n.has_id
      then first
      else if is_same (compare_node p.to n.node_id)
      then treat_mine p n
      else quiet n

  -- A node and what it did so far.
  abbrev pub State : Type 0
  State = Node × List Effect

  abbrev pub after : List Effect → Outcome → State × Option Fault
  after done o = ((o.node, done ++ o.done), o.fault)

  unfoldable pub received : Read → State → State × Option Fault
  unfolding treat
  received (read p) (n, done) = after done (treat p n)
  received (refused e) (n, done) = ((n, done), some (bad_packet e))

  -- The body of the loop of `Node::eat`, and `eat`.
  unfoldable pub handle : GttPacket → State → State × Option Fault
  unfolding received from_gtt
  handle g s = received (from_gtt simplify g) s

  unfoldable pub eat : Bytes → GttParser → State → Eaten State Fault
  unfolding handle eat_stream
  eat = eat_stream handle
