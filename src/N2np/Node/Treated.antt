-- ===== src/N2np/Node/Treated.antt =====
-- Lemmas on what becomes of a packet that a node receives.
use epyx.Base.{
  ℕ, ◌+◌, ◌≡◌, ◌≢◌, refl, ap, ◌∙◌, inl, inr, true, false, not, [], ◌∷◌, Option, none, some,
  if◌then◌else◌, Bool-cases, Bytes, codes, bytes_eq, bytes_eq_iff,
}
use epyx.Base.Dict
use epyx.Base.Dict.{bytes_order}
use epyx.Core.Text.{from_unsigned_long}
use epyx.N2np.NodeId.Key.{is_same, node_eq_iff}
use epyx.N2np.NodeId.{NodeName, compare_node}
use epyx.N2np.Node.{
  Node, Effect, send_bytes, from_n2np, of_module, Outcome, quiet, count_for, select_way, outgoing,
  send_out, send, send_ack, send_err,
}
use epyx.N2np.Node.Treat.{
  ModuleEnd, fine, minor_exception, other_exception, treat, treat_mine, take_id, take_ack,
  call_module, run_module,
}
use epyx.N2np.Packet.{N2npPacket, build_packet}

-- What an ACK or an ERR for a packet is, as the node sends it.
unfoldable pub reply : Bytes → N2npPacket → Node → Effect
unfolding select_way build_packet from_unsigned_long
reply method p n =
    send_bytes (select_way p.from n.direct_sockets)
      (build_packet (outgoing p.from method (from_unsigned_long p.pkt_id) n))

-- The node after the statistics of the packet and of the reply, which it does not keep.
abbrev pub replied : N2npPacket → Node → Node
replied p n = count_for p.from (from_unsigned_long p.pkt_id) (record n { cur_id = n.cur_id + 1 })

send-reply :
    (method : Bytes) (p : N2npPacket) (n : Node)
    → n.has_id ≡ true
    → send p.from method (from_unsigned_long p.pkt_id) false n
      ≡ record { node = replied p n; done = reply method p n ∷ []; fault = none }
unfolding send send_out reply
send-reply method p n h = elim (Bool-cases (bytes_eq method (codes "ID"))) [
  | inl id ↦ rw id
  | inr other ↦ rw (other, h)
]

-- The call of a module and the reply, by how the call ends.
abbrev pub ended : ModuleEnd → ℕ → N2npPacket → Node → Outcome
ended other_exception m p n = record {
  node = n;
  done = from_n2np m p.from p.content ∷ [];
  fault = some of_module;
}
ended _ m p n = record {
  node = replied p n;
  done = from_n2np m p.from p.content ∷ reply (codes "ACK") p n ∷ [];
  fault = none;
}

-- What a node that has a name does with a packet for it that is neither ACK nor ERR: the module and
-- the reply.
abbrev pub Handled :
    (ℕ → NodeName → Bytes → ModuleEnd) → Option (Option ℕ) → N2npPacket → Node → Outcome
Handled answer none p n = record {
  node = replied p n;
  done = reply (codes "ERR") p n ∷ [];
  fault = none;
}
Handled answer (some none) p n = record {
  node = replied p n;
  done = reply (codes "ERR") p n ∷ [];
  fault = none;
}
Handled answer (some (some m)) p n = ended (answer m p.from p.content) m p n

module _ (simplify : ℕ → Bytes → Bytes) (answer : ℕ → NodeName → Bytes → ModuleEnd) where
  run_module-ended :
      (e : ModuleEnd) (m : ℕ) (p : N2npPacket) (n : Node)
      → n.has_id ≡ true
      → run_module simplify answer e m p n ≡ ended e m p n
  unfolding run_module send_ack
  run_module-ended fine m p n h = rw (send-reply (codes "ACK") p n h)
  run_module-ended minor_exception m p n h = rw (send-reply (codes "ACK") p n h)
  run_module-ended other_exception m p n h = refl

  call_module-Handled :
      (b : Option (Option ℕ)) (p : N2npPacket) (n : Node)
      → n.has_id ≡ true
      → call_module simplify answer b p n ≡ Handled answer b p n
  unfolding call_module send_err
  call_module-Handled none p n h = send-reply (codes "ERR") p n h
  call_module-Handled (some none) p n h = send-reply (codes "ERR") p n h
  call_module-Handled (some (some m)) p n h = run_module-ended (answer m p.from p.content) m p n h

  named :
      (p : N2npPacket) (n : Node) → p.to ≡ n.node_id → is_same (compare_node p.to n.node_id) ≡ true
  named p n e = (node_eq_iff p.to n.node_id).1 e

  differs : (a b : Bytes) → a ≢ b → bytes_eq a b ≡ false
  differs a b ne = elim (Bool-cases (bytes_eq a b)) [
    | inl e ↦ absurd (ne ((bytes_eq_iff a b).0 e))
    | inr e ↦ e
  ]

  -- Behind the tests on the name of the node.
  treat_named :
      (p : N2npPacket) (n : Node)
      → n.has_id ≡ true
      → treat simplify answer p n ≡ (
          if is_same (compare_node p.to n.node_id) then treat_mine simplify answer p n else quiet n)
  unfolding treat
  treat_named p n h =
      ap
        (λ b.
          if not b
          then if bytes_eq p.method (codes "ID") then take_id simplify p n else quiet n
          else if is_same (compare_node p.to n.node_id)
          then treat_mine simplify answer p n
          else quiet n)
        h

  treat_mine_lem :
      (p : N2npPacket) (n : Node)
      → p.method ≢ codes "ACK"
      → p.method ≢ codes "ERR"
      → treat_mine simplify answer p n
        ≡ call_module simplify answer
            (Dict.find p.method n.modules)
            p
            (count_for p.from p.content n)
  unfolding treat_mine
  treat_mine_lem p n a r = rw (differs p.method (codes "ACK") a, differs p.method (codes "ERR") r)

  counted_named : (peer : NodeName) (c : Bytes) (n : Node) → (count_for peer c n).has_id ≡ n.has_id
  unfolding count_for
  counted_named peer c n = refl

  -- A packet for a node that has its name, neither ACK nor ERR, is counted for its sender; without
  -- a module of its method it is answered by ERR; else the module is called, and then the packet is
  -- acknowledged, also where the module threw a MinorException, but not where it threw another
  -- exception, which leaves `treat`.
  pub treat-handled :
      (p : N2npPacket) (n : Node)
      → n.has_id ≡ true
      → p.to ≡ n.node_id
      → p.method ≢ codes "ACK"
      → p.method ≢ codes "ERR"
      → treat simplify answer p n
        ≡ Handled answer (Dict.find p.method n.modules) p (count_for p.from p.content n)
  treat-handled p n h e a r =
      treat_named p n h
      ∙ rw (named p n e) (
          treat_mine_lem p n a r
          ∙ call_module-Handled (Dict.find p.method n.modules) p (count_for p.from p.content n)
              (counted_named p.from p.content n ∙ h))

  pub treat_ack :
      (p : N2npPacket) (n : Node)
      → n.has_id ≡ true
      → p.to ≡ n.node_id
      → p.method ≡ codes "ACK"
      → treat simplify answer p n ≡ take_ack p n
  unfolding treat_mine
  treat_ack p n h e a =
      treat_named p n h ∙ rw (named p n e, (bytes_eq_iff p.method (codes "ACK")).1 a)

  pub treat_stray :
      (p : N2npPacket) (n : Node)
      → n.has_id ≡ true
      → p.to ≢ n.node_id
      → treat simplify answer p n ≡ quiet n
  treat_stray p n h ne = elim (Bool-cases (is_same (compare_node p.to n.node_id))) [
    | inl e ↦ absurd (ne ((node_eq_iff p.to n.node_id).0 e))
    | inr other ↦ treat_named p n h ∙ rw other
  ]
