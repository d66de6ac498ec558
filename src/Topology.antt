-- ===== src/Topology.antt =====
-- cmd/topology-exporter/main.go: the nodes and edges of the topology, per layer (`render`).
pub mod Merge
pub mod Names
pub mod Paths
pub mod Layers
pub mod Sound
pub mod Collected
pub mod Ends
pub mod Ifaces
pub mod Render
pub mod Printed
pub mod Listed
use for_visibility.Prelude.{Bool, List, [], ◌∷◌, if◌then◌else◌}
use for_visibility.Prelude.Assoc.{Map, insert}
use for_visibility.Text.{Bytes, text, bytes_beq, bytes_eq}
use for_visibility.Exporter.{Shims, get}
use for_visibility.Pathtrace.Lookup.{build_ip2node}
use Merge.{Edge, Edges}
use Paths.{lldp_path, ospf_path, bgp_path, all_lfib_path, fdb_path}
use Layers.{physical_edges, ospf_edges, bgp_edges, mpls_edges, vlan_edges}

-- What the exporter works with: the inventory, and what the shims answer during a refresh.
pub record Fabric : Type 0 where
  pub inventory : Map Bytes Bytes
  pub shims : Shims

-- one round of the loop over the inventory
unfoldable pub node_edges : Fabric → Map Bytes Bytes → Bytes → Edges → Edges
unfolding get
node_edges f ip2node node edges =
    let ask = get f.shims f.inventory node in
    let physical = physical_edges f.inventory node (ask lldp_path) edges in
    let ospf = ospf_edges f.inventory ip2node node (ask ospf_path) physical in
    let bgp = bgp_edges f.inventory ip2node node (ask bgp_path) ospf in
    let mpls = mpls_edges f.inventory ip2node node (ask all_lfib_path) bgp in
    vlan_edges node (ask fdb_path) mpls

unfoldable pub nodes_edges : Fabric → Map Bytes Bytes → List (Bytes × Bytes) → Edges → Edges
unfolding node_edges
nodes_edges f ip2node [] edges = edges
nodes_edges f ip2node ((node, addr) ∷ nodes) edges =
    nodes_edges f ip2node nodes (node_edges f ip2node node edges)

-- the edges of a refresh
unfoldable pub all_edges : Fabric → Edges
unfolding nodes_edges build_ip2node
all_edges f = nodes_edges f (build_ip2node f.shims f.inventory) f.inventory []

-- layerNodes[layer]: the ends of the edges of a layer; a set is a map to itself
unfoldable pub layer_nodes : Bytes → Edges → Map Bytes Bytes → Map Bytes Bytes
unfolding insert
layer_nodes layer [] nodes = nodes
layer_nodes layer ((k, e) ∷ edges) nodes =
    layer_nodes layer edges
      (if bytes_beq e.layer layer then insert e.dst e.dst (insert e.src e.src nodes) else nodes)
