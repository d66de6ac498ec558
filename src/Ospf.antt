-- ===== src/Ospf.antt =====
-- internal/ingest/ospf.go: the adjacency snapshot (`reconcile`). What vtysh prints and what
-- encoding/json makes of it are inputs; Trigger says when `reconcile` runs.
pub mod Reconcile
pub mod Quiet
pub mod Moved
pub mod Trigger
pub mod Invariant
pub mod Caught
pub mod Settles
pub mod Bounded
pub mod Beside
use for_visibility.Prelude.{
  ℕ, ◌+◌, Bool, true, false, not, ◌&&◌, Option, none, some, List, [], ◌∷◌, ◌++◌, map, leb, ◌==◌,
  if◌then◌else◌,
}
use for_visibility.Prelude.Assoc.{Map, lookup, insert, remove}
use for_visibility.Text.{Bytes, text, bytes_beq, bytes_eq}
use for_visibility.Gnmi.{Effect, cache_update, emit, elems_path, leaf_update}
use for_visibility.Gnmi.Paths.{ospf_nbr_elems}

-- one element of the JSON array of a neighbor; `Neighbors` is the decoded `neighbors` object
pub record NbrJson : Type 0 where
  pub nbr_state : Bytes
  pub converged : Bytes
  pub iface_name : Bytes
  pub iface_address : Bytes

abbrev pub Neighbors : Type 0
Neighbors = Map Bytes (List NbrJson)

pub record OspfNbr : Type 0 where
  pub router_id : Bytes
  pub iface : Bytes
  pub addr : Bytes
  pub state : Bytes

pub record Ospf : Type 0 where
  pub seen : Map Bytes Bytes
  pub st : Map Bytes Bytes

-- the bytes before the first `sep`, or all of them
unfoldable pub before : ℕ → Bytes → Bytes
before sep [] = []
before sep (c ∷ s) = let rest = before sep s in if c == sep then [] else c ∷ rest

-- ':' is 58
unfoldable pub parse_nbr : Bytes → NbrJson → OspfNbr
unfolding before
parse_nbr rid n = record {
  router_id = rid;
  iface = before 58 n.iface_name;
  addr = n.iface_address;
  state = if bytes_beq n.converged [] then n.nbr_state else n.converged;
}

unfoldable pub parse_neighbors : Neighbors → Map Bytes OspfNbr
unfolding parse_nbr
parse_neighbors [] = []
parse_neighbors ((rid, []) ∷ nbrs) = parse_neighbors nbrs
parse_neighbors ((rid, n ∷ ns) ∷ nbrs) = (rid, parse_nbr rid n) ∷ parse_neighbors nbrs

-- `parseOSPFNbrs`; `none` is what json.Unmarshal refuses
unfoldable pub parse_ospf_nbrs : Option Neighbors → Map Bytes OspfNbr
unfolding parse_neighbors
parse_ospf_nbrs none = []
parse_ospf_nbrs (some nbrs) = parse_neighbors nbrs

-- the part before '/', which is 47
unfoldable pub adj_state : Bytes → Bytes
unfolding before
adj_state s =
    let head = before 47 s in
    if bytes_beq head (text "Full")
    then text "FULL"
    else if bytes_beq head (text "2-Way")
    then text "TWO_WAY"
    else if bytes_beq head (text "Init")
    then text "INIT"
    else if bytes_beq head (text "Down")
    then text "DOWN"
    else if bytes_beq head (text "ExStart")
    then text "EXCHANGE_START"
    else if bytes_beq head (text "Exchange")
    then text "EXCHANGE"
    else if bytes_beq head (text "Loading")
    then text "LOADING"
    else if bytes_beq head (text "Attempt")
    then text "ATTEMPT"
    else text "UNKNOWN"

-- 'A' is 65, 'Z' is 90, 'a' - 'A' is 32
unfoldable pub lc : Bytes → Bytes
lc = map (λ c. if leb 65 c && leb c 90 then c + 32 else c)

-- the Emit of a transition: none when the neighbor is seen for the first time
unfoldable pub transition : Option Bytes → Bytes → OspfNbr → Bytes → List Effect
unfolding lc
transition none rid n st = []
transition (some old) rid n st =
    if bytes_beq old st
    then []
    else emit (text "ospf") (text "adj-" ++ lc st) rid
        (text "if=" ++ n.iface ++ text " " ++ old ++ text "->" ++ st) true
      ∷ []

-- the body of the loop over `cur`: the calls it makes
unfoldable pub report_nbr : Map Bytes Bytes → Bytes → OspfNbr → List Effect
unfolding transition ospf_nbr_elems adj_state
report_nbr st_map rid n =
    cache_update (text "openconfig")
      (leaf_update (ospf_nbr_elems n.iface rid (text "adjacency-state")) (adj_state n.state)
        ∷ leaf_update (ospf_nbr_elems n.iface rid (text "neighbor-address")) n.addr
        ∷ [])
      []
    ∷ transition (lookup rid st_map) rid n (adj_state n.state)

-- the loop over `cur`: `seen` and `o.st` after it, and the calls
unfoldable pub report :
    Map Bytes Bytes
    → Map Bytes Bytes
    → Map Bytes OspfNbr
    → (Map Bytes Bytes × Map Bytes Bytes) × List Effect
unfolding report_nbr
report seen st [] = ((seen, st), [])
report seen st ((rid, n) ∷ cur) =
    let (maps, effects) =
      report (insert rid n.iface seen) (insert rid (adj_state n.state) st) cur in
    (maps, report_nbr st rid n ++ effects)

abbrev pub is_some {ℓ} : {A : Type ℓ} → Option A → Bool
is_some none = false
is_some (some a) = true

-- the loop over `o.seen`: the neighbors that are gone
unfoldable pub drop_gone :
    Map Bytes Bytes → Map Bytes Bytes → Map Bytes Bytes → Map Bytes Bytes × List Effect
unfolding ospf_nbr_elems
drop_gone seen st [] = (st, [])
drop_gone seen st ((rid, iface) ∷ old) =
    let (st', effects) = drop_gone seen (remove rid st) old in
    let (st'', effects') = drop_gone seen st old in
    if is_some (lookup rid seen) then (st'', effects') else (
      st',
      cache_update (text "openconfig") [] (elems_path (ospf_nbr_elems iface rid []) ∷ [])
          ∷ emit (text "ospf") (text "adj-down") rid (text "if=" ++ iface ++ text " neighbor gone")
              true
          ∷ effects,
    )

unfoldable pub reconcile_with : Ospf → Map Bytes OspfNbr → Ospf × List Effect
unfolding report drop_gone
reconcile_with o cur =
    let ((seen, st), effects) = report [] o.st cur in
    let (st', effects') = drop_gone seen st o.seen in
    (record { seen = seen; st = st' }, effects ++ effects')

-- `none` is an error of vtysh, `some none` output that is no JSON of this shape
unfoldable pub reconcile : Ospf → Option (Option Neighbors) → Ospf × List Effect
unfolding reconcile_with parse_ospf_nbrs
reconcile o none = (o, [])
reconcile o (some out) = reconcile_with o (parse_ospf_nbrs out)
