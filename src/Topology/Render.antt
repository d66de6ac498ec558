-- ===== src/Topology/Render.antt =====
-- cmd/topology-exporter/main.go: the page of metrics (the printing part of `render`).
use for_visibility.Prelude.{ℕ, Bool, not, Option, none, some, List, [], ◌∷◌, ◌++◌, map}
use for_visibility.Prelude.Assoc.{Map, lookup}
use for_visibility.Prelude.Sort.{sort_by}
use for_visibility.Text.{Bytes, text, bytes_ltb, bytes_eq}
use for_visibility.Exporter.Metrics.{Sample, Line, comment, metric, bare, page}
use for_visibility.Topology.{Fabric, all_edges, layer_nodes}
use for_visibility.Topology.Merge.{Edge, Edges}
use for_visibility.Topology.Names.{title, role}

-- the keys of a map, in the order of sort.Strings
unfoldable pub sorted_keys {ℓ} : {V : Type ℓ} → Map Bytes V → List Bytes
unfolding sort_by bytes_ltb
sorted_keys m = sort_by (λ a b. not (bytes_ltb b a)) (map (λ kv. kv.0) m)

abbrev pub node_sample : Bytes → Bytes → Sample
node_sample layer n = (
  text "frr_topo_node",
  (text "layer", layer) ∷ (text "id", n) ∷ (text "title", title n) ∷ (text "role", role n) ∷ [],
  text "1",
)

abbrev pub node_line : Bytes → Bytes → Line
node_line layer n = metric (node_sample layer n)

abbrev pub edge_line : Edge → Line
edge_line e = metric (
  text "frr_topo_edge",
  (text "layer", e.layer)
      ∷ (text "id", e.src ++ text "|" ++ e.dst)
      ∷ (text "source", e.src)
      ∷ (text "target", e.dst)
      ∷ (text "detail", e.detail)
      ∷ [],
  text "1",
)

-- e := edges[k]: a key that is missing would give the zero edge
abbrev pub or_zero : Option Edge → Edge
or_zero (some e) = e
or_zero none = record { layer = []; src = []; dst = []; detail = [] }

unfoldable pub layers : List Bytes
unfolding text
layers = text "physical" ∷ text "vlan" ∷ text "ospf" ∷ text "bgp" ∷ text "mpls" ∷ []

unfoldable pub node_lines : Edges → List Bytes → List Line
unfolding sorted_keys layer_nodes text title role
node_lines edges [] = []
node_lines edges (layer ∷ ls) =
    map (node_line layer) (sorted_keys (layer_nodes layer edges [])) ++ node_lines edges ls

unfoldable pub edge_lines : Edges → List Line
unfolding sorted_keys text lookup
edge_lines edges = map (λ k. edge_line (or_zero (lookup k edges))) (sorted_keys edges)

-- the HELP and TYPE lines, and the last line
unfoldable pub node_head : List Line
unfolding text
node_head =
    comment (text "# HELP frr_topo_node A node in the topology (per layer).")
    ∷ comment (text "# TYPE frr_topo_node gauge")
    ∷ []

unfoldable pub edge_head : List Line
unfolding text
edge_head =
    comment (text "# HELP frr_topo_edge An adjacency/session between two nodes (per layer).")
    ∷ comment (text "# TYPE frr_topo_edge gauge")
    ∷ []

unfoldable pub up_lines : List Line
unfolding text
up_lines =
    comment (text "# HELP frr_topo_up 1 if the last refresh completed.")
    ∷ comment (text "# TYPE frr_topo_up gauge")
    ∷ bare (text "frr_topo_up") (text "1")
    ∷ []

unfoldable pub page_lines : Edges → List Line
unfolding node_head node_lines layers edge_head edge_lines up_lines
page_lines edges =
    node_head ++ (node_lines edges layers ++ (edge_head ++ (edge_lines edges ++ up_lines)))

unfoldable pub render : (ℕ → Bool) → Fabric → Bytes
unfolding page page_lines all_edges
render is_print f = page is_print (page_lines (all_edges f))
