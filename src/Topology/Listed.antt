-- ===== src/Topology/Listed.antt =====
-- Every edge on the page of the topology exporter has its two nodes there.
use for_visibility.Prelude.{
  ◌≡◌, refl, ap, sym, subst, not, some, List, [], ◌∷◌, ◌++◌, map, All, arith, inl, inr, Bool-cases,
  if◌then◌else◌,
}
use for_visibility.Prelude.Assoc.{Map, lookup, insert, lookup-insert}
use for_visibility.Prelude.Sort.{sort_by-Memᴰ}
use for_visibility.Text.{Bytes, bytes_beq, bytes_eq, bytes_beq_iff, bytes_beq_refl, bytes_ltb}
use for_visibility.Exporter.Metrics.{samples}
use for_visibility.Exporter.Metrics.Page.{samples-append}
use for_visibility.Topology.{Fabric, all_edges, layer_nodes}
use for_visibility.Topology.Sound.{IsLayer, physical, vlan, ospf, bgp, mpls, IsEdge}
use for_visibility.Topology.Collected.{all_edges-IsEdges}
use for_visibility.Topology.Merge.{Edge, Edges}
use for_visibility.Topology.Render.{
  sorted_keys, node_sample, node_line, layers, node_lines, page_lines,
}
use for_visibility.Topology.Printed.{samples-page_lines}
use mathlib.Core.List.{Memᴰ}
use mathlib.Core.List.Memᴰ

-- a name stays in the set
layer_nodes-kept :
    (layer n : Bytes) (edges : Edges) (nodes : Map Bytes Bytes)
    → lookup n nodes ≡ some n
    → lookup n (layer_nodes layer edges nodes) ≡ some n
unfolding layer_nodes
layer_nodes-kept layer n [] nodes h = h
layer_nodes-kept layer n ((k, e) ∷ edges) nodes h = layer_nodes-kept layer n edges _ (
    ground (
      arith,
      bytes_beq_iff e.dst n,
      bytes_beq_iff e.src n,
      lookup-insert n e.dst e.dst (insert e.src e.src nodes),
      lookup-insert n e.src e.src nodes,
    ))

abbrev EndsIn : Bytes → Map Bytes Bytes → Bytes × Edge → Type 0
EndsIn layer nodes (k, e) =
    e.layer ≡ layer → (lookup e.src nodes ≡ some e.src) × (lookup e.dst nodes ≡ some e.dst)

layer_nodes-ends :
    (layer : Bytes) (edges : Edges) (nodes : Map Bytes Bytes)
    → All (EndsIn layer (layer_nodes layer edges nodes)) edges
unfolding layer_nodes
layer_nodes-ends layer [] nodes = tt
layer_nodes-ends layer ((k, e) ∷ edges) nodes = (
  λ here. (
    layer_nodes-kept layer e.src edges _ (put_ends here).0,
    layer_nodes-kept layer e.dst edges _ (put_ends here).1,
  ),
  layer_nodes-ends layer edges _,
)
  where
    put_ends :
        e.layer ≡ layer
        → let m =
            if bytes_beq e.layer layer
            then insert e.dst e.dst (insert e.src e.src nodes)
            else nodes in
          (lookup e.src m ≡ some e.src) × (lookup e.dst m ≡ some e.dst)
    put_ends here = ground (
      arith,
      bytes_beq_iff e.layer layer,
      bytes_beq_iff e.dst e.src,
      bytes_beq_refl e.src,
      bytes_beq_refl e.dst,
      lookup-insert e.src e.dst e.dst (insert e.src e.src nodes),
      lookup-insert e.src e.src e.src nodes,
      lookup-insert e.dst e.dst e.dst (insert e.src e.src nodes),
    )

lookup-Memᴰ :
    (n v : Bytes) (m : Map Bytes Bytes)
    → lookup n m ≡ some v
    → Memᴰ n (map (λ (kv : Bytes × Bytes). kv.0) m)
unfolding lookup
lookup-Memᴰ n v [] h = absurd (ground arith)
lookup-Memᴰ n v ((k, w) ∷ m) h = elim (Bool-cases (bytes_beq k n)) [
  | inl same ↦ Memᴰ.head (sym ((bytes_beq_iff k n).0 same))
  | inr other ↦ Memᴰ.tail (lookup-Memᴰ n v m (ground (arith, other)))
]

All-Memᴰ : {A : Type 0} (P : A → Type 0) {x : A} (xs : List A) → All P xs → Memᴰ x xs → P x
All-Memᴰ P [] h m = elim m [ ]
All-Memᴰ P (y ∷ xs) (p, h) m = elim (Memᴰ.cases_cons m) [
  | inl e ↦ subst P (sym e) p
  | inr later ↦ All-Memᴰ P xs h later
]

node_lines-Memᴰ :
    (layer n : Bytes) (names : List Bytes)
    → Memᴰ n names
    → Memᴰ (node_sample layer n) (samples (map (node_line layer) names))
node_lines-Memᴰ layer n [] m = elim m [ ]
node_lines-Memᴰ layer n (v ∷ names) m = elim (Memᴰ.cases_cons m) [
  | inl e ↦ Memᴰ.head (ap (node_sample layer) e)
  | inr later ↦ Memᴰ.tail (node_lines-Memᴰ layer n names later)
]

all_nodes-Memᴰ :
    (edges : Edges) (ls : List Bytes) (layer n : Bytes)
    → Memᴰ layer ls
    → lookup n (layer_nodes layer edges []) ≡ some n
    → Memᴰ (node_sample layer n) (samples (node_lines edges ls))
unfolding node_lines sorted_keys
all_nodes-Memᴰ edges [] layer n m h = elim m [ ]
all_nodes-Memᴰ edges (l ∷ ls) layer n m h =
    subst (Memᴰ (node_sample layer n))
      (sym (
        samples-append (map (node_line l) (sorted_keys (layer_nodes l edges [])))
          (node_lines edges ls)))
      (elim (Memᴰ.cases_cons m) [
        | inl e ↦
            subst
              (λ j. Memᴰ (node_sample layer n) (
                samples (map (node_line j) (sorted_keys (layer_nodes j edges [])))
                ++ samples (node_lines edges ls)))
              e
              (Memᴰ.append_left _ (
                node_lines-Memᴰ layer n _
                  (sort_by-Memᴰ (λ a b. not (bytes_ltb b a)) n _ (lookup-Memᴰ n n _ h))))
        | inr later ↦ Memᴰ.append_right _ (all_nodes-Memᴰ edges ls layer n later h)
      ])

-- The page goes through each of the layers that an edge can be in.
IsLayer-layers : (layer : Bytes) → IsLayer layer → Memᴰ layer layers
unfolding layers
IsLayer-layers layer (physical e) = Memᴰ.head e
IsLayer-layers layer (vlan e) = Memᴰ.tail (Memᴰ.head e)
IsLayer-layers layer (ospf e) = Memᴰ.tail (Memᴰ.tail (Memᴰ.head e))
IsLayer-layers layer (bgp e) = Memᴰ.tail (Memᴰ.tail (Memᴰ.tail (Memᴰ.head e)))
IsLayer-layers layer (mpls e) = Memᴰ.tail (Memᴰ.tail (Memᴰ.tail (Memᴰ.tail (Memᴰ.head e))))

page_lines-shown :
    (edges : Edges) (k : Bytes) (e : Edge)
    → Memᴰ (k, e) edges
    → Memᴰ e.layer layers
    → Memᴰ (node_sample e.layer e.src) (samples (page_lines edges))
      × Memᴰ (node_sample e.layer e.dst) (samples (page_lines edges))
page_lines-shown edges k e m here = (shown e.src (ends refl).0, shown e.dst (ends refl).1)
  where
    ends : EndsIn e.layer (layer_nodes e.layer edges []) (k, e)
    ends =
        All-Memᴰ (EndsIn e.layer (layer_nodes e.layer edges [])) edges
          (layer_nodes-ends e.layer edges []) m

    shown :
        (n : Bytes)
        → lookup n (layer_nodes e.layer edges []) ≡ some n
        → Memᴰ (node_sample e.layer n) (samples (page_lines edges))
    shown n h =
        subst (Memᴰ (node_sample e.layer n)) (sym (samples-page_lines edges))
          (Memᴰ.append_left _ (all_nodes-Memᴰ edges layers e.layer n here h))

-- Whatever the shims answer, for every edge that a refresh collects the page shows the nodes at both of
-- its ends, in the layer of the edge: no edge points to a node that is not there.
pub page_lines-ends :
    (f : Fabric) (k : Bytes) (e : Edge)
    → Memᴰ (k, e) (all_edges f)
    → Memᴰ (node_sample e.layer e.src) (samples (page_lines (all_edges f)))
      × Memᴰ (node_sample e.layer e.dst) (samples (page_lines (all_edges f)))
page_lines-ends f k e m =
    page_lines-shown (all_edges f) k e m (
      IsLayer-layers e.layer
        (All-Memᴰ (IsEdge f.inventory) (all_edges f) (all_edges-IsEdges f) m).3)
