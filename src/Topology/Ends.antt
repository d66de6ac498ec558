-- ===== src/Topology/Ends.antt =====
-- `addEdge` and the two ends of a session.
use for_visibility.Prelude.{
  ◌≡◌, refl, ap, ◌∙◌, true, false, Bool-cases, inl, inr, none, some, if◌then◌else◌, arith,
}
use for_visibility.Prelude.Assoc.{Map, lookup, insert, lookup-insert_self}
use for_visibility.Text.{
  Bytes, text, bytes_beq, bytes_eq, bytes_beq_iff, bytes-trichotomy, bytes_ltb-asym,
}
use for_visibility.Topology.Merge.{
  Edges, known, has_suffix, ordered, edge_of, pair_key, stays, add_edge,
}

beq-sym : (a b : Bytes) → bytes_beq a b ≡ bytes_beq b a
beq-sym a b = ground (arith, bytes_beq_iff a b, bytes_beq_iff b a)

ordered-sym : (a b : Bytes) → bytes_beq a b ≡ false → ordered a b ≡ ordered b a
unfolding ordered
ordered-sym a b ne =
    ground (arith, ne, beq-sym a b, bytes-trichotomy a b, bytes_ltb-asym a b, bytes_ltb-asym b a)

-- The end that reports an edge does not matter: with the ends exchanged the same edges come out.
pub add_edge-symmetric :
    (inventory : Map Bytes Bytes) (layer a b detail : Bytes) (edges : Edges)
    → add_edge inventory layer a b detail edges ≡ add_edge inventory layer b a detail edges
unfolding add_edge
add_edge-symmetric inventory layer a b detail edges = elim (Bool-cases (bytes_beq a b)) [
  | inl e ↦ ground (arith, e, beq-sym a b)
  | inr ne ↦ rw (ordered-sym a b ne, beq-sym a b) (ground arith)
]

-- Two nodes of the inventory, and the edge of a layer between them.
module _ (inventory : Map Bytes Bytes) (layer a b : Bytes) (ka : known inventory a ≡ true)
    (kb : known inventory b ≡ true) (ne : bytes_beq a b ≡ false) where
  abbrev pub the_key : Bytes
  the_key = pair_key layer (ordered a b)

  add_edge-puts :
      (detail : Bytes) (edges : Edges)
      → stays (lookup the_key edges) ≡ false
      → add_edge inventory layer a b detail edges
        ≡ insert the_key (edge_of layer (ordered a b) detail) edges
  unfolding add_edge
  add_edge-puts detail edges free = rw (add_edge, ka, kb, ne, free) refl

  add_edge-keeps :
      (detail : Bytes) (edges : Edges)
      → stays (lookup the_key edges) ≡ true
      → add_edge inventory layer a b detail edges ≡ edges
  unfolding add_edge
  add_edge-keeps detail edges there = rw (add_edge, ka, kb, ne, there) refl

  -- what the exporter keeps of an edge that has the details `d` and `d'`, in the order of their adding
  abbrev merged : Bytes → Bytes → Bytes
  merged d d' = if has_suffix d (text "=default") then d' else d

  lookup-twice :
      (d d' : Bytes) (edges : Edges)
      → lookup the_key edges ≡ none
      → lookup the_key (add_edge inventory layer a b d' (add_edge inventory layer a b d edges))
        ≡ some (edge_of layer (ordered a b) (merged d d'))
  lookup-twice d d' edges new =
      rw (add_edge-puts d edges (rw new refl)) (elim (Bool-cases (has_suffix d (text "=default"))) [
        | inl e ↦
            rw (add_edge-puts d' once (rw (there, e) refl), e)
              (lookup-insert_self the_key (edge_of layer (ordered a b) d') once)
        | inr e ↦ rw (add_edge-keeps d' once (rw (there, e) refl), e) there
      ])
    where
      once : Edges
      once = insert the_key (edge_of layer (ordered a b) d) edges

      there : lookup the_key once ≡ some (edge_of layer (ordered a b) d)
      there = lookup-insert_self the_key (edge_of layer (ordered a b) d) edges

  -- `a` reports the edge with detail `d` and `b` reports it with `d'`, in either order.
  abbrev pub a_first : Bytes → Bytes → Edges → Edges
  a_first d d' edges = add_edge inventory layer b a d' (add_edge inventory layer a b d edges)

  abbrev pub b_first : Bytes → Bytes → Edges → Edges
  b_first d d' edges = add_edge inventory layer a b d (add_edge inventory layer b a d' edges)

  lookup-a_first :
      (d d' : Bytes) (edges : Edges)
      → lookup the_key edges ≡ none
      → lookup the_key (a_first d d' edges) ≡ some (edge_of layer (ordered a b) (merged d d'))
  lookup-a_first d d' edges new =
      ap (lookup the_key)
        (add_edge-symmetric inventory layer b a d' (add_edge inventory layer a b d edges))
      ∙ lookup-twice d d' edges new

  lookup-b_first :
      (d d' : Bytes) (edges : Edges)
      → lookup the_key edges ≡ none
      → lookup the_key (b_first d d' edges) ≡ some (edge_of layer (ordered a b) (merged d' d))
  lookup-b_first d d' edges new =
      ap (λ es. lookup the_key (add_edge inventory layer a b d es))
        (add_edge-symmetric inventory layer b a d' edges)
      ∙ lookup-twice d' d edges new

  -- Two different nodes of the inventory report a new edge. If the detail of just one of them ends in
  -- "=default", the edge gets the other's detail, whichever node comes first.
  pub ends-merge :
      (d d' : Bytes) (edges : Edges)
      → lookup the_key edges ≡ none
      → has_suffix d (text "=default") ≡ true
      → has_suffix d' (text "=default") ≡ false
      → (lookup the_key (a_first d d' edges) ≡ some (edge_of layer (ordered a b) d'))
        × (lookup the_key (b_first d d' edges) ≡ some (edge_of layer (ordered a b) d'))
  ends-merge d d' edges new def spec =
      (rw (lookup-a_first d d' edges new, def) refl, rw (lookup-b_first d d' edges new, spec) refl)

  -- If neither detail ends in "=default", the edge gets the detail of the node that comes first.
  pub ends-disagree :
      (d d' : Bytes) (edges : Edges)
      → lookup the_key edges ≡ none
      → has_suffix d (text "=default") ≡ false
      → has_suffix d' (text "=default") ≡ false
      → (lookup the_key (a_first d d' edges) ≡ some (edge_of layer (ordered a b) d))
        × (lookup the_key (b_first d d' edges) ≡ some (edge_of layer (ordered a b) d'))
  ends-disagree d d' edges new spec spec' = (
    rw (lookup-a_first d d' edges new, spec) refl,
    rw (lookup-b_first d d' edges new, spec') refl,
  )
