-- ===== src/N2np/NodeId/Tests.antt =====
-- Names of nodes at concrete inputs. Here the system writes every address as it is read.
use epyx.Base.{◌≡◌, ◌↔◌, refl, arith, codes}
use epyx.Base.Compare.{same, less, greater, opposite, compare_nat, compare_bytes}
use epyx.Net.Address.{parsed}
use epyx.Net.Address.Samples.{keep, home, home-IsIpv4}
use epyx.N2np.NodeId.{NodeName, parse_node, print_node, compare_node}
use epyx.N2np.NodeId.Laws.{parse_node-print_node, compare_node_lem, compare_node_compose}

abbrev node : NodeName
node = record { name = codes "n1"; relay = home }

print_test : print_node node ≡ codes "n1@127.0.0.1:4242"
unfolding print_node
print_test = refl

parse_node-print_node_test : parse_node keep (print_node node) ≡ parsed node
parse_node-print_node_test =
    parse_node-print_node keep node (ground arith) home-IsIpv4 (omega arith)

abbrev other : NodeName
other = record node { name = codes "n2" }

abbrev third : NodeName
third = record node { name = codes "n3" }

compare_node_lem_test :
    ((compare_node node other ≡ same) ↔ (node ≡ other))
    × (compare_node other node ≡ opposite (compare_node node other))
compare_node_lem_test = compare_node_lem node other

compare_node_compose_test : (compare_node node third ≡ less) × (compare_node third node ≡ greater)
unfolding compare_nat compare_bytes
compare_node_compose_test = compare_node_compose node other third refl refl
