-- ===== src/N2np/NodeId/Laws.antt =====
-- The text of a node's name, and the order of names.
use epyx.Base.{ℕ, ◌<◌, ◌^◌, ◌≡◌, ◌↔◌, ap, ◌∙◌, Bytes}
use epyx.Base.Compare.{
  same, less, greater, opposite, IsTotal, compare_bytes, compare_bytes-IsTotal, lex-IsTotal,
}
use epyx.Net.Address.{parsed, print_address, compare_address}
use epyx.Net.Address.Order.{compare_address-IsTotal}
use epyx.Net.Address.RoundTrip.{Without, IsIpv4, split_at-append, parse_address-print_address}
use epyx.N2np.NodeId.{NodeName, with_relay, parse_node, print_node, compare_node}

-- A node name without `@`, with an IPv4 relay as the system writes it and a port below 2^16, reads
-- back from its text.
pub parse_node-print_node :
    (simplify : ℕ → Bytes → Bytes) (n : NodeName)
    → Without b'@' n.name
    → IsIpv4 simplify n.relay.ip
    → n.relay.port < 2 ^ 16
    → parse_node simplify (print_node n) ≡ parsed n
unfolding parse_node print_node with_relay
parse_node-print_node simplify n h g p =
    rw (split_at-append b'@' n.name (print_address n.relay) h, parse_node)
      (ap (with_relay simplify n.name) (parse_address-print_address simplify n.relay g p))

node_whole : (x y : NodeName) → x.relay ≡ y.relay → x.name ≡ y.name → x ≡ y
node_whole x y e g =
    ap (λ r. record { name = x.name; relay = r }) e
    ∙ ap (λ s. record { name = s; relay = y.relay }) g

compare_node-IsTotal : IsTotal NodeName compare_node
compare_node-IsTotal =
    lex-IsTotal (λ x. x.relay) (λ x. x.name) compare_address compare_bytes compare_address-IsTotal
      compare_bytes-IsTotal node_whole

-- `NodeId::compare` is 0 exactly where the names are equal, and the order of the arguments turns
-- its sign.
pub compare_node_lem :
    (a b : NodeName)
    → ((compare_node a b ≡ same) ↔ (a ≡ b)) × (compare_node b a ≡ opposite (compare_node a b))
compare_node_lem a b = let t = compare_node-IsTotal in (t.same_iff a b, t.turn a b)

-- Where `NodeId::compare` puts a before b and b before c, it puts a before c, and c behind a.
pub compare_node_compose :
    (a b c : NodeName)
    → compare_node a b ≡ less
    → compare_node b c ≡ less
    → (compare_node a c ≡ less) × (compare_node c a ≡ greater)
compare_node_compose a b c h g =
    let t = compare_node-IsTotal in let l = t.compose a b c h g in (l, t.turn a c ∙ ap opposite l)
