-- ===== src/Topology/Layers.antt =====
-- The loops of `render` over what a node answers, one for each layer.
use for_visibility.Prelude.{Bool, not, ◌||◌, List, [], ◌∷◌, ◌++◌, if◌then◌else◌}
use for_visibility.Prelude.Assoc.{Map, insert}
use for_visibility.Text.{Bytes, text, bytes_beq, bytes_eq}
use for_visibility.Gnmi.{Update}
use for_visibility.Exporter.{get_key, is_empty, dissect, sval}
use for_visibility.Topology.Merge.{Edges, add_edge, add_pseudo}
use for_visibility.Topology.Names.{ni_name, iface_peer, equal_fold}

abbrev pub update_key : Bytes → Update → Bytes
update_key k u = get_key k (dissect u.path).0

-- physical: the system name of an LLDP neighbor is a node's name
unfoldable pub physical_edges : Map Bytes Bytes → Bytes → List Update → Edges → Edges
unfolding add_edge sval
physical_edges inventory node [] edges = edges
physical_edges inventory node (u ∷ ups) edges =
    physical_edges inventory node ups
      (add_edge inventory (text "physical") node (sval u.val) (text "lldp") edges)

abbrev pub or_else : Bytes → Bytes → Bytes
or_else [] b = b
or_else (c ∷ a) b = c ∷ a

-- the other end of an OSPF adjacency
unfoldable pub ospf_peer : Map Bytes Bytes → Bytes → Update → Bytes
unfolding dissect iface_peer
ospf_peer ip2node node u =
    or_else (iface_peer (update_key (text "id") u) node)
      (get_key (update_key (text "router-id") u) ip2node)

unfoldable pub ospf_edges : Map Bytes Bytes → Map Bytes Bytes → Bytes → List Update → Edges → Edges
unfolding add_edge sval ospf_peer equal_fold
ospf_edges inventory ip2node node [] edges = edges
ospf_edges inventory ip2node node (u ∷ ups) edges = ospf_edges inventory ip2node node ups (
    if equal_fold (sval u.val) (text "FULL")
    then add_edge inventory (text "ospf") node (ospf_peer ip2node node u) (text "area") edges
    else edges)

unfoldable pub bgp_edges : Map Bytes Bytes → Map Bytes Bytes → Bytes → List Update → Edges → Edges
unfolding add_edge sval dissect equal_fold ni_name
bgp_edges inventory ip2node node [] edges = edges
bgp_edges inventory ip2node node (u ∷ ups) edges =
    let peer = get_key (update_key (text "neighbor-address") u) ip2node in
    bgp_edges inventory ip2node node ups (
      if equal_fold (sval u.val) (text "ESTABLISHED")
      then add_edge inventory (text "bgp") node peer (text "vrf=" ++ ni_name u.path) edges
      else edges)

-- nh and oif: of each label the values of its leaf
unfoldable pub label_leaves : Bytes → List Update → Map Bytes Bytes → Map Bytes Bytes
unfolding dissect sval
label_leaves leaf [] m = m
label_leaves leaf (u ∷ ups) m = label_leaves leaf ups (
    if bytes_beq (dissect u.path).1 leaf
    then insert (update_key (text "label") u) (sval u.val) m
    else m)

-- for lbl, hop := range nh
unfoldable pub lsp_edges :
    Map Bytes Bytes → Map Bytes Bytes → Map Bytes Bytes → Bytes → Map Bytes Bytes → Edges → Edges
unfolding add_edge iface_peer
lsp_edges inventory ip2node oif node [] edges = edges
lsp_edges inventory ip2node oif node ((lbl, hop) ∷ nh) edges =
    let peer = or_else (get_key hop ip2node) (iface_peer (get_key lbl oif) node) in
    lsp_edges inventory ip2node oif node nh
      (add_edge inventory (text "mpls") node peer (text "lsp") edges)

unfoldable pub mpls_edges : Map Bytes Bytes → Map Bytes Bytes → Bytes → List Update → Edges → Edges
unfolding label_leaves lsp_edges
mpls_edges inventory ip2node node ups edges =
    let nh = label_leaves (text "next-hop") ups [] in
    let oif = label_leaves (text "interface") ups [] in
    lsp_edges inventory ip2node oif node nh edges

-- a VLAN without a tag, or the default one
abbrev pub skip_vlan : Bytes → Bool
skip_vlan vlan = is_empty vlan || bytes_beq vlan (text "0") || bytes_beq vlan (text "1")

unfoldable pub mac_edges : Bytes → Update → Edges → Edges
unfolding add_pseudo dissect
mac_edges node u edges =
    let vlan = update_key (text "vlan") u in
    let mac = update_key (text "mac-address") u in
    if not (bytes_beq (dissect u.path).1 (text "mac-address"))
    then edges
    else if skip_vlan vlan || is_empty mac
    then edges
    else add_pseudo (text "vlan:" ++ vlan) (text "mac:" ++ mac) (text "learned")
        (add_pseudo node (text "vlan:" ++ vlan) (text "member") edges)

unfoldable pub vlan_edges : Bytes → List Update → Edges → Edges
unfolding mac_edges
vlan_edges node [] edges = edges
vlan_edges node (u ∷ ups) edges = vlan_edges node ups (mac_edges node u edges)
