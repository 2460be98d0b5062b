-- ===== src/N2np/NodeId.antt =====
-- n2np/nodeid.h and n2np/nodeid.cpp: the names of the nodes of the network.
pub mod Laws
pub mod Key
mod Tests
use epyx.Base.{ℕ, Bool, ◌&&◌, List, [], ◌∷◌, ◌++◌, Option, none, some, ◌==◌, length, Bytes}
use epyx.Base.Compare.{Sign, same, less, and_then, compare_bytes}
use epyx.Net.Address.{
  SockAddress, Parsed, parsed, failed, no_arobas, no_address, split_at, parse_address,
  print_address, compare_address, address_empty,
}

-- `NodeId`.
pub record NodeName : Type 0 where
  pub name : Bytes
  pub relay : SockAddress

-- The constructors without arguments, and with a relay alone.
abbrev pub no_node : NodeName
no_node = record { name = []; relay = no_address }

abbrev pub relay_only : SockAddress → NodeName
relay_only relay = record { name = []; relay = relay }

module _ (simplify : ℕ → Bytes → Bytes) where
  unfoldable pub with_relay : Bytes → Parsed SockAddress → Parsed NodeName
  with_relay name (parsed relay) = parsed (record { name = name; relay = relay })
  with_relay name (failed e) = failed e

  -- `NodeId(const std::string&)`.
  unfoldable pub parse_node : Bytes → Parsed NodeName
  unfolding split_at with_relay
  parse_node str = elim (split_at b'@' str) [
    | none ↦ failed no_arobas
    | some (name, relay) ↦ with_relay name (parse_address simplify relay)
  ]

-- `operator<<` and `toString`.
unfoldable pub print_node : NodeName → Bytes
unfolding print_address
print_node n = n.name ++ b'@' ∷ print_address n.relay

-- `NodeId::compare`.
abbrev pub compare_node : NodeName → NodeName → Sign
compare_node a b = and_then (compare_address a.relay b.relay) (compare_bytes a.name b.name)

-- `NodeId::empty`.
abbrev pub node_empty : NodeName → Bool
node_empty n = length n.name == 0 && address_empty n.relay
