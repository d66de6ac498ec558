-- ===== src/Topology/Merge.antt =====
-- The map of edges that `render` fills: `addEdge` and `addPseudo`.
use for_visibility.Prelude.{
  ◌-◌, Bool, true, false, not, ◌&&◌, ◌||◌, Option, none, some, ◌++◌, leb, if◌then◌else◌, length,
  drop,
}
use for_visibility.Prelude.Assoc.{Map, lookup, insert}
use for_visibility.Text.{Bytes, text, bytes_beq, bytes_ltb, bytes_eq}
use for_visibility.Exporter.{is_empty}

pub record Edge : Type 0 where
  pub layer : Bytes
  pub src : Bytes
  pub dst : Bytes
  pub detail : Bytes

abbrev pub Edges : Type 0
Edges = Map Bytes Edge

-- `_, ok := inventory[a]`
abbrev pub is_some {ℓ} : {A : Type ℓ} → Option A → Bool
is_some (some v) = true
is_some none = false

abbrev pub known : Map Bytes Bytes → Bytes → Bool
known inventory a = is_some (lookup a inventory)

-- strings.HasSuffix
unfoldable pub has_suffix : Bytes → Bytes → Bool
has_suffix s end = leb (length end) (length s) && bytes_beq (drop (length s - length end) s) end

-- layer + "|" + x + "|" + y
unfoldable pub edge_key : Bytes → Bytes → Bytes → Bytes
unfolding text
edge_key layer x y = layer ++ text "|" ++ x ++ text "|" ++ y

-- `x, y := a, b`, swapped if x > y
unfoldable pub ordered : Bytes → Bytes → Bytes × Bytes
unfolding bytes_ltb
ordered a b = if bytes_ltb b a then (b, a) else (a, b)

abbrev pub edge_of : Bytes → Bytes × Bytes → Bytes → Edge
edge_of layer (x, y) detail = record { layer = layer; src = x; dst = y; detail = detail }

abbrev pub pair_key : Bytes → Bytes × Bytes → Bytes
pair_key layer (x, y) = edge_key layer x y

-- an edge that stays: it is there, and its detail does not end in "=default"
abbrev pub stays : Option Edge → Bool
stays (some prev) = not (has_suffix prev.detail (text "=default"))
stays none = false

unfoldable pub add_edge : Map Bytes Bytes → Bytes → Bytes → Bytes → Bytes → Edges → Edges
add_edge inventory layer a b detail edges =
    let xy = ordered a b in
    let key = pair_key layer xy in
    if not (known inventory a)
    then edges
    else if not (known inventory b)
    then edges
    else if bytes_beq a b
    then edges
    else if stays (lookup key edges)
    then edges
    else insert key (edge_of layer xy detail) edges

unfoldable pub add_pseudo : Bytes → Bytes → Bytes → Edges → Edges
add_pseudo a b detail edges =
    let xy = ordered a b in
    let key = pair_key (text "vlan") xy in
    if is_empty a || is_empty b || bytes_beq a b
    then edges
    else if is_some (lookup key edges)
    then edges
    else insert key (edge_of (text "vlan") xy detail) edges
