-- ===== src/Pathtrace/Lookup.antt =====
-- The lookups of the walk: `buildIP2Node`, `nodeOf`, `routeLookup`, `mplsLookup`, and the paths that they
-- get (`addrPath`, `aftPath`, `lfibPath`).
use for_visibility.Prelude.{
  ℕ, suc, Bool, ◌&&◌, ◌||◌, Option, none, some, List, [], ◌∷◌, ltb, if◌then◌else◌,
}
use for_visibility.Prelude.Assoc.{Map, lookup, insert}
use for_visibility.Text.{Bytes, text, bytes_beq, bytes_eq}
use for_visibility.Text.Split.{has_prefix}
use for_visibility.Text.Cidr.{parse_ip4, parse_cidr, contains}
use for_visibility.Gnmi.{PathElem, GnmiPath, TypedValue, Update}
use for_visibility.Gnmi.Paths.{plain, keyed}
use for_visibility.Exporter.{get_key, is_empty, dissect, sval, Shims, get}

abbrev pub openconfig_path : List PathElem → GnmiPath
openconfig_path elems = record { target = []; origin = text "openconfig"; elem = elems }

unfoldable pub addr_path : GnmiPath
unfolding text
addr_path = openconfig_path (
    plain (text "interfaces")
    ∷ keyed (text "interface") (text "name") (text "*")
    ∷ plain (text "subinterfaces")
    ∷ keyed (text "subinterface") (text "index") (text "0")
    ∷ plain (text "ipv4")
    ∷ plain (text "addresses")
    ∷ keyed (text "address") (text "ip") (text "*")
    ∷ plain (text "state")
    ∷ plain (text "ip")
    ∷ [])

-- aftPath of the exporter
unfoldable pub all_routes_path : GnmiPath
unfolding text
all_routes_path = openconfig_path (
    plain (text "network-instances")
    ∷ keyed (text "network-instance") (text "name") (text "*")
    ∷ plain (text "afts")
    ∷ plain (text "ipv4-unicast")
    ∷ keyed (text "ipv4-entry") (text "prefix") (text "*")
    ∷ plain (text "state")
    ∷ [])

unfoldable pub lfib_path : Bytes → GnmiPath
unfolding text
lfib_path label = record {
  target = [];
  origin = text "frr";
  elem =
      plain (text "mpls")
      ∷ plain (text "lfib")
      ∷ keyed (text "entry") (text "label") label
      ∷ plain (text "state")
      ∷ [];
}

-- an address that no walk ends at: none, a loopback one, or one of the management network
unfoldable pub skip_ip : Bytes → Bool
unfolding has_prefix text
skip_ip ip = is_empty ip || has_prefix ip (text "127.") || has_prefix ip (text "172.31.")

abbrev pub put_ips : Bytes → List Update → Map Bytes Bytes → Map Bytes Bytes
put_ips node [] m = m
put_ips node (u ∷ ups) m =
    let ip = get_key (text "ip") (dissect u.path).0 in
    put_ips node ups (if skip_ip ip then m else insert ip node m)

unfoldable pub put_node_ips :
    Shims → Map Bytes Bytes → List (Bytes × Bytes) → Map Bytes Bytes → Map Bytes Bytes
unfolding get
put_node_ips shims inventory [] m = m
put_node_ips shims inventory ((node, addr) ∷ nodes) m =
    put_node_ips shims inventory nodes (put_ips node (get shims inventory node addr_path) m)

-- buildIP2Node
unfoldable pub build_ip2node : Shims → Map Bytes Bytes → Map Bytes Bytes
unfolding put_node_ips
build_ip2node shims inventory = put_node_ips shims inventory inventory []

abbrev pub node_or_unknown : Option Bytes → Bytes
node_or_unknown (some n) = n
node_or_unknown none = text "?"

unfoldable pub node_of : Map Bytes Bytes → Bytes → Bytes
node_of ip2node ip = node_or_unknown (lookup ip ip2node)

-- what `routeLookup` keeps of a prefix
pub record Ent : Type 0 where
  pub vrf : Bytes
  pub nh : Bytes
  pub lbl : Bytes

abbrev pub no_ent : Ent
no_ent = record { vrf = []; nh = []; lbl = [] }

abbrev pub or_new : Option Ent → Ent
or_new (some e) = e
or_new none = no_ent

abbrev pub set_leaf : Map Bytes Bytes → Bytes → TypedValue → Ent → Ent
set_leaf keys leaf v e =
    if bytes_beq leaf (text "next-hop")
    then record e { nh = sval v; vrf = get_key (text "name") keys }
    else if bytes_beq leaf (text "pushed-mpls-label-stack")
    then record e { lbl = sval v }
    else e

-- one round of the loop that fills byPfx
unfoldable pub put_leaf : Update → Map Bytes Ent → Map Bytes Ent
unfolding dissect sval text
put_leaf u m =
    let (keys, leaf) = dissect u.path in
    let pfx = get_key (text "prefix") keys in
    if is_empty pfx then m else insert pfx (set_leaf keys leaf u.val (or_new (lookup pfx m))) m

unfoldable pub by_prefix : List Update → Map Bytes Ent → Map Bytes Ent
unfolding put_leaf
by_prefix [] m = m
by_prefix (u ∷ ups) m = by_prefix ups (put_leaf u m)

pub record Found : Type 0 where
  pub vrf : Bytes
  pub prefix : Bytes
  pub nexthop : Bytes
  pub labels : Bytes

abbrev pub not_found : Found
not_found = record { vrf = []; prefix = []; nexthop = []; labels = [] }

-- The longest prefix so far. `best` is one more than the source's, which starts at -1.
pub record Best : Type 0 where
  pub best : ℕ
  pub found : Found

abbrev pub no_route : Best
no_route = record { best = 0; found = not_found }

-- one round of the loop over byPfx
unfoldable pub consider : ℕ → Bytes → Ent → Best → Best
consider di pfx e b = if is_empty e.nh && is_empty e.lbl then b else elim (parse_cidr pfx) [
  | none ↦ b
  | some net ↦
      if contains net di && ltb b.best (suc net.ones)
      then record {
        best = suc net.ones;
        found = record { vrf = e.vrf; prefix = pfx; nexthop = e.nh; labels = e.lbl };
      }
      else b
]

unfoldable pub longest : ℕ → Map Bytes Ent → Best → Best
unfolding consider
longest di [] b = b
longest di ((pfx, e) ∷ m) b = longest di m (consider di pfx e b)

-- routeLookup, of the updates that the node answers
unfoldable pub route_lookup : List Update → Bytes → Found
unfolding by_prefix longest
route_lookup ups dst = elim (parse_ip4 dst) [
  | none ↦ not_found
  | some di ↦ (longest di (by_prefix ups []) no_route).found
]

pub record Lfib : Type 0 where
  pub out_label : Bytes
  pub nexthop : Bytes
  pub iface : Bytes

abbrev pub no_lfib : Lfib
no_lfib = record { out_label = []; nexthop = []; iface = [] }

abbrev pub set_lfib : Bytes → TypedValue → Lfib → Lfib
set_lfib leaf v l =
    if bytes_beq leaf (text "out-label")
    then record l { out_label = sval v }
    else if bytes_beq leaf (text "next-hop")
    then record l { nexthop = sval v }
    else if bytes_beq leaf (text "interface")
    then record l { iface = sval v }
    else l

-- mplsLookup, of the updates that the node answers
unfoldable pub mpls_lookup : List Update → Lfib → Lfib
mpls_lookup [] l = l
mpls_lookup (u ∷ ups) l = mpls_lookup ups (set_lfib (dissect u.path).1 u.val l)
