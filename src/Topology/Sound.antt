-- ===== src/Topology/Sound.antt =====
-- Every edge that `render` collects is a proper one: filed under its own key, with its ends in order,
-- and between two nodes of the inventory unless it is in the VLAN layer.
use for_visibility.Prelude.{
  ◌≡◌, refl, Bool, true, false, not, ◌||◌, if◌then◌else◌, if-cases, All, arith,
}
use for_visibility.Prelude.Assoc.{Map, lookup, insert, All-insert}
use for_visibility.Text.{
  Bytes, text, bytes_beq, bytes_ltb, bytes_eq, bytes_beq_iff, bytes-trichotomy,
}
use for_visibility.Exporter.{is_empty}
use for_visibility.Topology.Merge.{
  Edge, Edges, known, edge_key, ordered, edge_of, pair_key, stays, is_some, add_edge, add_pseudo,
}

pub data Joins (inventory : Map Bytes Bytes) (e : Edge) : Type 0 where
  nodes : known inventory e.src ≡ true → known inventory e.dst ≡ true → Joins inventory e
  bridge : e.layer ≡ text "vlan" → Joins inventory e

-- the names of the five layers
pub data IsLayer (layer : Bytes) : Type 0 where
  physical : layer ≡ text "physical" → IsLayer layer
  vlan : layer ≡ text "vlan" → IsLayer layer
  ospf : layer ≡ text "ospf" → IsLayer layer
  bgp : layer ≡ text "bgp" → IsLayer layer
  mpls : layer ≡ text "mpls" → IsLayer layer

abbrev pub IsEdge : Map Bytes Bytes → Bytes × Edge → Type 0
IsEdge inventory (k, e) =
    (k ≡ edge_key e.layer e.src e.dst)
    × (bytes_ltb e.src e.dst ≡ true)
    × Joins inventory e
    × IsLayer e.layer

abbrev pub IsEdges : Map Bytes Bytes → Edges → Type 0
IsEdges inventory edges = All (IsEdge inventory) edges

not-false : {b : Bool} → not b ≡ false → b ≡ true
not-false {b} e = ground (arith, e)

ordered-lt :
    (a b : Bytes) → bytes_beq a b ≡ false → bytes_ltb (ordered a b).0 (ordered a b).1 ≡ true
unfolding ordered
ordered-lt a b ne =
    if-cases (λ (xy : Bytes × Bytes). bytes_ltb xy.0 xy.1 ≡ true) (bytes_ltb b a) (b, a) (a, b)
      (λ lt. lt)
      (λ ge. bytes-trichotomy b a (ground (arith, ne, bytes_beq_iff a b, bytes_beq_iff b a)) ge)

ordered-known :
    (inventory : Map Bytes Bytes) (layer a b detail : Bytes)
    → known inventory a ≡ true
    → known inventory b ≡ true
    → Joins inventory (edge_of layer (ordered a b) detail)
unfolding ordered
ordered-known inventory layer a b detail ka kb =
    if-cases (λ xy. Joins inventory (edge_of layer xy detail)) (bytes_ltb b a) (b, a) (a, b)
      (λ _. nodes kb ka) (λ _. nodes ka kb)

module _ (inventory : Map Bytes Bytes) where
  -- `if skip { return }` in front of what gives `next`
  unless :
      (skip : Bool) (edges next : Edges)
      → IsEdges inventory edges
      → (skip ≡ false → IsEdges inventory next)
      → IsEdges inventory (if skip then edges else next)
  unless skip edges next h f = if-cases (IsEdges inventory) skip edges next (λ _. h) f

  put-IsEdges :
      (layer a b detail : Bytes) (edges : Edges)
      → IsLayer layer
      → bytes_beq a b ≡ false
      → Joins inventory (edge_of layer (ordered a b) detail)
      → IsEdges inventory edges
      → IsEdges inventory
          (insert (pair_key layer (ordered a b)) (edge_of layer (ordered a b) detail) edges)
  put-IsEdges layer a b detail edges named ne joins =
      All-insert (IsEdge inventory) (pair_key layer (ordered a b))
        (edge_of layer (ordered a b) detail) edges (refl, ordered-lt a b ne, joins, named)

  pub add_edge-IsEdges :
      (layer a b detail : Bytes) (edges : Edges)
      → IsLayer layer
      → IsEdges inventory edges
      → IsEdges inventory (add_edge inventory layer a b detail edges)
  unfolding add_edge
  add_edge-IsEdges layer a b detail edges named h =
      unless (not (known inventory a)) edges _ h (λ ka.
        unless (not (known inventory b)) edges _ h (λ kb. unless (bytes_beq a b) edges _ h (λ ne.
          unless (stays (lookup (pair_key layer (ordered a b)) edges)) edges _ h (λ free.
            put-IsEdges layer a b detail edges named ne
              (ordered-known inventory layer a b detail (not-false ka) (not-false kb)) h))))

  pub add_pseudo-IsEdges :
      (a b detail : Bytes) (edges : Edges)
      → IsEdges inventory edges
      → IsEdges inventory (add_pseudo a b detail edges)
  unfolding add_pseudo
  add_pseudo-IsEdges a b detail edges h =
      unless (is_empty a || is_empty b || bytes_beq a b) edges _ h (λ ne.
        unless (is_some (lookup (pair_key (text "vlan") (ordered a b)) edges)) edges _ h (λ free.
          put-IsEdges (text "vlan") a b detail edges (vlan refl) (ground (arith, ne)) (bridge refl)
            h))
