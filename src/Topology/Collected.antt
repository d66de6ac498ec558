-- ===== src/Topology/Collected.antt =====
-- The loops of `render` keep the edges proper, layer by layer, so all of a refresh are.
use for_visibility.Prelude.{refl, Bool, not, ◌||◌, List, [], ◌∷◌, ◌++◌, if◌then◌else◌, if-cases}
use for_visibility.Prelude.Assoc.{Map}
use for_visibility.Text.{Bytes, text, bytes_beq}
use for_visibility.Gnmi.{Update}
use for_visibility.Exporter.{is_empty, get_key, dissect, sval}
use for_visibility.Pathtrace.Lookup.{build_ip2node}
use for_visibility.Topology.Merge.{Edges}
use for_visibility.Topology.Names.{ni_name, iface_peer, equal_fold}
use for_visibility.Topology.Layers.{
  update_key, or_else, ospf_peer, skip_vlan, physical_edges, ospf_edges, bgp_edges, label_leaves,
  lsp_edges, mpls_edges, mac_edges, vlan_edges,
}
use for_visibility.Topology.{Fabric, node_edges, nodes_edges, all_edges}
use for_visibility.Topology.Sound.{
  IsEdges, physical, ospf, bgp, mpls, add_edge-IsEdges, add_pseudo-IsEdges,
}

module _ (inventory : Map Bytes Bytes) where
  -- `if take { add }`
  when :
      (take : Bool) (added edges : Edges)
      → IsEdges inventory added
      → IsEdges inventory edges
      → IsEdges inventory (if take then added else edges)
  when take added edges f h = if-cases (IsEdges inventory) take added edges (λ _. f) (λ _. h)

  physical_edges-IsEdges :
      (node : Bytes) (ups : List Update) (edges : Edges)
      → IsEdges inventory edges
      → IsEdges inventory (physical_edges inventory node ups edges)
  unfolding physical_edges
  physical_edges-IsEdges node [] edges h = h
  physical_edges-IsEdges node (u ∷ ups) edges h = physical_edges-IsEdges node ups _ (
      add_edge-IsEdges inventory (text "physical") node (sval u.val) (text "lldp") edges
        (physical refl) h)

  mac_edges-IsEdges :
      (node : Bytes) (u : Update) (edges : Edges)
      → IsEdges inventory edges
      → IsEdges inventory (mac_edges node u edges)
  unfolding mac_edges
  mac_edges-IsEdges node u edges h =
      let vlan = update_key (text "vlan") u in
      let mac = update_key (text "mac-address") u in
      when (not (bytes_beq (dissect u.path).1 (text "mac-address"))) edges _ h (
        when (skip_vlan vlan || is_empty mac) edges _ h (
          add_pseudo-IsEdges inventory (text "vlan:" ++ vlan) (text "mac:" ++ mac) (text "learned")
            _ (add_pseudo-IsEdges inventory node (text "vlan:" ++ vlan) (text "member") edges h)))

  vlan_edges-IsEdges :
      (node : Bytes) (ups : List Update) (edges : Edges)
      → IsEdges inventory edges
      → IsEdges inventory (vlan_edges node ups edges)
  unfolding vlan_edges
  vlan_edges-IsEdges node [] edges h = h
  vlan_edges-IsEdges node (u ∷ ups) edges h =
      vlan_edges-IsEdges node ups _ (mac_edges-IsEdges node u edges h)

  module _ (ip2node : Map Bytes Bytes) (node : Bytes) where
    ospf_edges-IsEdges :
        (ups : List Update) (edges : Edges)
        → IsEdges inventory edges
        → IsEdges inventory (ospf_edges inventory ip2node node ups edges)
    unfolding ospf_edges
    ospf_edges-IsEdges [] edges h = h
    ospf_edges-IsEdges (u ∷ ups) edges h = ospf_edges-IsEdges ups _ (
        when (equal_fold (sval u.val) (text "FULL")) _ edges
          (add_edge-IsEdges inventory (text "ospf") node (ospf_peer ip2node node u) (text "area")
            edges (ospf refl) h)
          h)

    bgp_edges-IsEdges :
        (ups : List Update) (edges : Edges)
        → IsEdges inventory edges
        → IsEdges inventory (bgp_edges inventory ip2node node ups edges)
    unfolding bgp_edges
    bgp_edges-IsEdges [] edges h = h
    bgp_edges-IsEdges (u ∷ ups) edges h = bgp_edges-IsEdges ups _ (
        when (equal_fold (sval u.val) (text "ESTABLISHED")) _ edges
          (add_edge-IsEdges inventory (text "bgp") node
            (get_key (update_key (text "neighbor-address") u) ip2node)
            (text "vrf=" ++ ni_name u.path) edges (bgp refl) h)
          h)

    lsp_edges-IsEdges :
        (oif nh : Map Bytes Bytes) (edges : Edges)
        → IsEdges inventory edges
        → IsEdges inventory (lsp_edges inventory ip2node oif node nh edges)
    unfolding lsp_edges
    lsp_edges-IsEdges oif [] edges h = h
    lsp_edges-IsEdges oif ((lbl, hop) ∷ nh) edges h = lsp_edges-IsEdges oif nh _ (
        add_edge-IsEdges inventory (text "mpls") node
          (or_else (get_key hop ip2node) (iface_peer (get_key lbl oif) node)) (text "lsp") edges
          (mpls refl) h)

    mpls_edges-IsEdges :
        (ups : List Update) (edges : Edges)
        → IsEdges inventory edges
        → IsEdges inventory (mpls_edges inventory ip2node node ups edges)
    unfolding mpls_edges
    mpls_edges-IsEdges ups edges h =
        lsp_edges-IsEdges (label_leaves (text "interface") ups [])
          (label_leaves (text "next-hop") ups []) edges h

module _ (f : Fabric) where
  node_edges-IsEdges :
      (ip2node : Map Bytes Bytes) (node : Bytes) (edges : Edges)
      → IsEdges f.inventory edges
      → IsEdges f.inventory (node_edges f ip2node node edges)
  unfolding node_edges
  node_edges-IsEdges ip2node node edges h = vlan_edges-IsEdges f.inventory node _ _ (
      mpls_edges-IsEdges f.inventory ip2node node _ _ (
        bgp_edges-IsEdges f.inventory ip2node node _ _ (
          ospf_edges-IsEdges f.inventory ip2node node _ _
            (physical_edges-IsEdges f.inventory node _ edges h))))

  nodes_edges-IsEdges :
      (ip2node : Map Bytes Bytes) (nodes : List (Bytes × Bytes)) (edges : Edges)
      → IsEdges f.inventory edges
      → IsEdges f.inventory (nodes_edges f ip2node nodes edges)
  unfolding nodes_edges
  nodes_edges-IsEdges ip2node [] edges h = h
  nodes_edges-IsEdges ip2node ((node, addr) ∷ nodes) edges h =
      nodes_edges-IsEdges ip2node nodes _ (node_edges-IsEdges ip2node node edges h)

  -- Whatever the shims answer, each edge of a refresh is in one of the five layers (physical, vlan,
  -- ospf, bgp, mpls) and filed under its layer and its ends, the first end is the smaller name, so no
  -- edge joins a node to itself, and outside the VLAN layer both ends are nodes of the inventory.
  pub all_edges-IsEdges : IsEdges f.inventory (all_edges f)
  unfolding all_edges
  all_edges-IsEdges = nodes_edges-IsEdges (build_ip2node f.shims f.inventory) f.inventory [] tt
