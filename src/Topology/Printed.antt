-- ===== src/Topology/Printed.antt =====
-- What Prometheus reads from the page of the topology exporter.
use for_visibility.Prelude.{
  ℕ, ◌≡◌, refl, ap, ◌∙◌, sym, subst, Bool, true, not, some, List, [], ◌∷◌, ◌++◌, map, All,
  All-append, arith, if-cases,
}
use for_visibility.Prelude.Assoc.{Map, lookup, insert, All-insert}
use for_visibility.Prelude.Sort.{sort_by-All}
use for_visibility.Text.{Bytes, text, bytes_beq, bytes_eq, bytes_ltb}
use for_visibility.Text.Split.{has_byte}
use for_visibility.Exporter.Metrics.{samples}
use for_visibility.Exporter.Metrics.Reader.{read_sample, read_metric, cut}
use for_visibility.Exporter.Metrics.Values.{
  IsReadable, done, append-IsReadable, all_plain, plain-IsReadable,
}
use for_visibility.Exporter.Metrics.Page.{
  IsWellFormed, HasLabels, HasLabels-append, samples-append, scrape, scrape-page,
}
use for_visibility.Topology.{Fabric, all_edges, layer_nodes}
use for_visibility.Topology.Merge.{Edge, Edges}
use for_visibility.Topology.Names.{title, role}
use for_visibility.Topology.Render.{
  sorted_keys, node_line, edge_line, or_zero, layers, node_lines, edge_lines, node_head, edge_head,
  up_lines, page_lines, render,
}

layer_lines-IsWellFormed :
    (layer : Bytes) (names : List Bytes) → All IsWellFormed (map (node_line layer) names)
unfolding has_byte text
layer_lines-IsWellFormed layer [] = tt
layer_lines-IsWellFormed layer (n ∷ names) = (
  (refl, refl, refl, (refl, (refl, (refl, (refl, tt)))), refl),
  layer_lines-IsWellFormed layer names,
)

node_lines-IsWellFormed : (edges : Edges) (ls : List Bytes) → All IsWellFormed (node_lines edges ls)
unfolding node_lines
node_lines-IsWellFormed edges [] = tt
node_lines-IsWellFormed edges (layer ∷ ls) =
    All-append IsWellFormed (map (node_line layer) (sorted_keys (layer_nodes layer edges []))) _
      (layer_lines-IsWellFormed layer (sorted_keys (layer_nodes layer edges [])))
      (node_lines-IsWellFormed edges ls)

edge_lines-IsWellFormed :
    (edges : Edges) (keys : List Bytes)
    → All IsWellFormed (map (λ k. edge_line (or_zero (lookup k edges))) keys)
unfolding has_byte text
edge_lines-IsWellFormed edges [] = tt
edge_lines-IsWellFormed edges (k ∷ keys) = (
  (refl, refl, refl, (refl, (refl, (refl, (refl, (refl, tt))))), refl),
  edge_lines-IsWellFormed edges keys,
)

heads-IsWellFormed :
    All IsWellFormed node_head × All IsWellFormed edge_head × All IsWellFormed up_lines
unfolding node_head edge_head up_lines text has_byte read_sample read_metric cut
heads-IsWellFormed = (
  ((refl, refl), ((refl, refl), tt)),
  ((refl, refl), ((refl, refl), tt)),
  ((refl, refl), ((refl, refl), ((refl, refl), tt))),
)

page_lines-IsWellFormed : (edges : Edges) → All IsWellFormed (page_lines edges)
unfolding page_lines edge_lines
page_lines-IsWellFormed edges =
    let (nodes, links, up) = heads-IsWellFormed in
    All-append IsWellFormed node_head _ nodes (
      All-append IsWellFormed (node_lines edges layers) _ (node_lines-IsWellFormed edges layers) (
        All-append IsWellFormed edge_head _ links (
          All-append IsWellFormed (edge_lines edges) up_lines
            (edge_lines-IsWellFormed edges (sorted_keys edges)) up)))

role_plain : (n : Bytes) → all_plain (role n) ≡ true
unfolding role text
role_plain n = ground arith

All-keys :
    (P : Bytes → Type 0) (m : Map Bytes Bytes)
    → All (λ (kv : Bytes × Bytes). P kv.0) m
    → All P (map (λ (kv : Bytes × Bytes). kv.0) m)
All-keys P [] h = tt
All-keys P ((k, v) ∷ m) h = (h.0, All-keys P m h.1)

module _ (is_print : ℕ → Bool) where
  abbrev Readable : Bytes → Type 0
  Readable s = IsReadable is_print s

  -- a name, and the title that is shown for it
  abbrev pub NodeReadable : Bytes → Type 0
  NodeReadable n = Readable n × Readable (title n)

  abbrev pub EdgeReadable : Bytes × Edge → Type 0
  EdgeReadable (k, e) =
      NodeReadable e.src × NodeReadable e.dst × Readable e.layer × Readable e.detail

  nodes-HasLabels :
      (layer : Bytes) (names : List Bytes)
      → Readable layer
      → All NodeReadable names
      → All (HasLabels is_print) (samples (map (node_line layer) names))
  unfolding has_byte text
  nodes-HasLabels layer [] hl h = tt
  nodes-HasLabels layer (n ∷ names) hl ((name, shown), h) = (
    (
      (refl, hl),
      (
        (refl, name),
        ((refl, shown), ((refl, plain-IsReadable is_print (role n) (role_plain n)), tt)),
      ),
    ),
    nodes-HasLabels layer names hl h,
  )

  -- the names of the nodes are ends of edges
  layer_nodes-NodeReadable :
      (layer : Bytes) (edges : Edges) (nodes : Map Bytes Bytes)
      → All EdgeReadable edges
      → All (λ (kv : Bytes × Bytes). NodeReadable kv.0) nodes
      → All (λ (kv : Bytes × Bytes). NodeReadable kv.0) (layer_nodes layer edges nodes)
  unfolding layer_nodes
  layer_nodes-NodeReadable layer [] nodes he hn = hn
  layer_nodes-NodeReadable layer ((k, e) ∷ edges) nodes ((src, dst, _, _), he) hn =
      layer_nodes-NodeReadable layer edges _ he (
        if-cases (All (λ (kv : Bytes × Bytes). NodeReadable kv.0)) (bytes_beq e.layer layer) _ nodes
          (λ _.
            All-insert (λ kv. NodeReadable kv.0) e.dst e.dst (insert e.src e.src nodes) dst
              (All-insert (λ kv. NodeReadable kv.0) e.src e.src nodes src hn))
          (λ _. hn))

  node_lines-HasLabels :
      (edges : Edges) (ls : List Bytes)
      → All EdgeReadable edges
      → All Readable ls
      → All (HasLabels is_print) (samples (node_lines edges ls))
  unfolding node_lines sorted_keys
  node_lines-HasLabels edges [] he hl = tt
  node_lines-HasLabels edges (layer ∷ ls) he (hl, rest) =
      HasLabels-append is_print (map (node_line layer) (sorted_keys (layer_nodes layer edges []))) _
        (nodes-HasLabels layer (sorted_keys (layer_nodes layer edges [])) hl names)
        (node_lines-HasLabels edges ls he rest)
    where
      names : All NodeReadable (sorted_keys (layer_nodes layer edges []))
      names =
          sort_by-All (λ a b. not (bytes_ltb b a)) NodeReadable _
            (All-keys NodeReadable _ (layer_nodes-NodeReadable layer edges [] he tt))

  edge-HasLabels :
      (edges : Edges) (k : Bytes)
      → All EdgeReadable edges
      → let e = or_zero (lookup k edges) in
        Readable e.src × Readable e.dst × Readable e.layer × Readable e.detail
  unfolding lookup
  edge-HasLabels [] k h = (done, done, done, done)
  edge-HasLabels ((j, e) ∷ edges) k ((src, dst, layer, detail), h) =
      if-cases
        (λ o.
          let e = or_zero o in
          Readable e.src × Readable e.dst × Readable e.layer × Readable e.detail)
        (bytes_beq j k) (some e) (lookup k edges) (λ _. (src.0, dst.0, layer, detail))
        (λ _. edge-HasLabels edges k h)

  edge_lines-HasLabels :
      (edges : Edges) (keys : List Bytes)
      → All EdgeReadable edges
      → All (HasLabels is_print) (samples (map (λ k. edge_line (or_zero (lookup k edges))) keys))
  unfolding has_byte text
  edge_lines-HasLabels edges [] h = tt
  edge_lines-HasLabels edges (k ∷ keys) h =
      let (src, dst, layer, detail) = edge-HasLabels edges k h in
      (
        (
          (refl, layer),
          (
            (
              refl,
              append-IsReadable is_print
                  (append-IsReadable is_print src (plain-IsReadable is_print (124 ∷ []) refl)) dst,
            ),
            ((refl, src), ((refl, dst), ((refl, detail), tt))),
          ),
        ),
        edge_lines-HasLabels edges keys h,
      )

  layers-Readable : All Readable layers
  unfolding layers text
  layers-Readable =
      let plain = plain-IsReadable is_print in
      (plain _ refl, (plain _ refl, (plain _ refl, (plain _ refl, (plain _ refl, tt)))))

-- The samples of a page are those of the nodes, layer by layer, those of the edges, and frr_topo_up.
pub samples-page_lines :
    (edges : Edges)
    → samples (page_lines edges)
      ≡ samples (node_lines edges layers)
        ++ (samples (edge_lines edges) ++ (text "frr_topo_up", [], text "1") ∷ [])
unfolding page_lines node_head edge_head up_lines
samples-page_lines edges =
    samples-append (node_lines edges layers) (edge_head ++ (edge_lines edges ++ up_lines))
    ∙ ap (λ rest. samples (node_lines edges layers) ++ rest)
        (samples-append (edge_lines edges) up_lines)

-- Prometheus reads from the page of the topology exporter exactly the samples that `render` prints
-- there: the nodes of each layer with their titles and roles, the edges, and frr_topo_up. The names of the
-- nodes with their titles, the layers and the details of the edges are valid text of printable runes
-- and newlines.
pub scrape-all_edges :
    (is_print : ℕ → Bool) (f : Fabric)
    → All (EdgeReadable is_print) (all_edges f)
    → scrape (render is_print f)
      ≡ samples (node_lines (all_edges f) layers)
        ++ (samples (edge_lines (all_edges f)) ++ (text "frr_topo_up", [], text "1") ∷ [])
unfolding render edge_lines
scrape-all_edges is_print f h =
    scrape-page is_print (page_lines edges) (page_lines-IsWellFormed edges) (
      subst (All (HasLabels is_print)) (sym (samples-page_lines edges)) (
        All-append (HasLabels is_print) (samples (node_lines edges layers))
          (samples (edge_lines edges) ++ (text "frr_topo_up", [], text "1") ∷ [])
          (node_lines-HasLabels is_print edges layers h (layers-Readable is_print))
          (All-append (HasLabels is_print) (samples (edge_lines edges)) _
            (edge_lines-HasLabels is_print edges (sorted_keys edges) h) (tt, tt))))
    ∙ samples-page_lines edges
  where
    edges : Edges
    edges = all_edges f
