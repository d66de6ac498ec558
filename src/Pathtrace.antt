-- ===== src/Pathtrace.antt =====
-- cmd/pathtrace-exporter/main.go: the walk from a node to an address, hop by hop, through the
-- forwarding tables that the shims serve (`trace`), and the list of walks (`parseFlows`).
pub mod Lookup
pub mod Longest
pub mod Served
pub mod Written
pub mod Tables
pub mod Forwarding
pub mod Loop
pub mod Delivery
pub mod Hops
pub mod Connected
pub mod Render
pub mod Printed
use for_visibility.Prelude.{
  ℕ, zero, suc, Bool, true, false, not, ◌&&◌, Option, none, some, List, [], ◌∷◌, ◌++◌, ltb,
  if◌then◌else◌, take, drop,
}
use for_visibility.Prelude.Assoc.{Map}
use for_visibility.Prelude.Sort.{sort_by}
use for_visibility.Text.{Bytes, text, bytes_beq, bytes_ltb, join}
use for_visibility.Text.Split.{index_byte, split_on, trim_space}
use for_visibility.Gnmi.{GnmiPath, Update}
use for_visibility.Exporter.{get_key, is_empty, Shims, get}
use Lookup.{Found, Lfib, no_lfib, all_routes_path, lfib_path, node_of, route_lookup, mpls_lookup}

pub record Hop : Type 0 where
  pub seq : ℕ
  pub node : Bytes
  pub kind : Bytes
  pub nexthop : Bytes
  pub label : Bytes
  pub detail : Bytes

-- The node with the destination, and the end of the label stack: the walk is over.
abbrev pub at_home : Map Bytes Bytes → Bytes → Bytes → Bool
at_home ip2node dst node = bytes_beq (get_key dst ip2node) node

-- What a round of the loop does: it returns with a last hop, or appends a hop and goes on to a node
-- with a label stack.
pub data Round : Type 0 where
  ends : Hop → Bool → Round
  moves : Hop → Bytes → List Bytes → Round

-- strings.Split(labels, ",") of a list of labels that is not empty
unfoldable pub label_stack : Bytes → List Bytes
label_stack labels = if is_empty labels then [] else split_on 44 labels

abbrev pub drop_hop : ℕ → Bytes → Bytes → Hop
drop_hop seq node detail = record {
  seq = seq;
  node = node;
  kind = text "drop";
  nexthop = [];
  label = [];
  detail = detail;
}

-- the round that ends at the destination
abbrev pub dest_round : Bytes → ℕ → Bytes → Round
dest_round dst seq node =
    ends
      record {
        seq = seq;
        node = node;
        kind = text "dest";
        nexthop = [];
        label = [];
        detail = text "destination " ++ dst ++ text " reached";
      }
      true

abbrev pub ip_hop : ℕ → Bytes → Found → Hop
ip_hop seq node r = record {
  seq = seq;
  node = node;
  kind = if is_empty r.labels then text "ip" else text "ip-push";
  nexthop = r.nexthop;
  label = r.labels;
  detail = text "vrf=" ++ r.vrf ++ text " " ++ r.prefix;
}

-- IP phase
unfoldable pub ip_round : Map Bytes Bytes → Bytes → ℕ → Bytes → Found → Round
ip_round ip2node dst seq node r =
    if is_empty r.nexthop && is_empty r.labels && is_empty r.prefix
    then ends (drop_hop seq node (text "no route to " ++ dst)) false
    else moves (ip_hop seq node r) (node_of ip2node r.nexthop) (label_stack r.labels)

-- "if=" + iface + " stack[" + strings.Join(stack, " ") + "]"
abbrev pub stack_text : Bytes → List Bytes → Bytes
stack_text iface stack = text "if=" ++ iface ++ text " stack[" ++ join stack (text " ") ++ text "]"

abbrev pub swap_hop : ℕ → Bytes → Bytes → Lfib → List Bytes → Hop
swap_hop seq node top l stack = record {
  seq = seq;
  node = node;
  kind = text "mpls-swap";
  nexthop = l.nexthop;
  label = top ++ text "->" ++ l.out_label;
  detail = stack_text l.iface stack;
}

abbrev pub pop_hop : ℕ → Bytes → Bytes → Lfib → List Bytes → Hop
pop_hop seq node top l stack = record {
  seq = seq;
  node = node;
  kind = text "mpls-pop-php";
  nexthop = l.nexthop;
  label = top;
  detail = stack_text l.iface stack;
}

abbrev pub vrf_hop : ℕ → Bytes → Bytes → Lfib → Hop
vrf_hop seq node top l = record {
  seq = seq;
  node = node;
  kind = text "mpls-pop-vrf";
  nexthop = [];
  label = top;
  detail = text "-> VRF " ++ l.iface;
}

-- MPLS phase, of the label on top
unfoldable pub mpls_round : Map Bytes Bytes → ℕ → Bytes → Bytes → List Bytes → Lfib → Round
mpls_round ip2node seq node top rest l =
    let swapped = split_on 44 l.out_label ++ rest in
    if is_empty l.out_label && is_empty l.nexthop && is_empty l.iface
    then ends (drop_hop seq node (text "no LFIB entry for label " ++ top)) false
    else if not (is_empty l.out_label)
    then moves (swap_hop seq node top l swapped) (node_of ip2node l.nexthop) swapped
    else if not (is_empty l.nexthop)
    then moves (pop_hop seq node top l rest) (node_of ip2node l.nexthop) rest
    else moves (vrf_hop seq node top l) node rest

-- One walk: the answers of the shims in each round, the inventory, the map of the addresses, and the
-- destination. A round gets one path.
pub record Walk : Type 0 where
  pub shims : ℕ → Shims
  pub inventory : Map Bytes Bytes
  pub ip2node : Map Bytes Bytes
  pub dst : Bytes

-- the updates that the node answers in round `i`
abbrev pub answer : Walk → ℕ → Bytes → GnmiPath → List Update
answer w i node p = get (w.shims i) w.inventory node p

unfoldable pub round : Walk → ℕ → ℕ → Bytes → List Bytes → Round
round w i seq node [] =
    if at_home w.ip2node w.dst node
    then dest_round w.dst seq node
    else ip_round w.ip2node w.dst seq node (route_lookup (answer w i node all_routes_path) w.dst)
round w i seq node (top ∷ rest) =
    mpls_round w.ip2node seq node top rest (mpls_lookup (answer w i node (lfib_path top)) no_lfib)

abbrev pub unknown_hop : ℕ → Hop
unknown_hop seq = drop_hop seq (text "?") (text "next-hop not in inventory")

-- The loop from round `i` on: the hops that it appends, and whether it reaches the destination.
unfoldable pub trace_loop : ℕ → Walk → ℕ → ℕ → Bytes → List Bytes → List Hop × Bool
trace_loop zero w i seq node stack = ([], false)
trace_loop (suc fuel) w i seq node stack = elim (round w i seq node stack) [
  | ends h reached ↦ (h ∷ [], reached)
  | moves h next labels ↦
      let (hops, reached) = trace_loop fuel w (suc i) (suc seq) next labels in
      if bytes_beq next (text "?")
      then (h ∷ unknown_hop (suc seq) ∷ [], false)
      else (h ∷ hops, reached)
]

-- trace: 24 rounds at most
unfoldable pub trace : Walk → Bytes → List Hop × Bool
unfolding trace_loop
trace w start = trace_loop 24 w 0 1 start []

pub record Flow : Type 0 where
  pub name : Bytes
  pub start : Bytes
  pub dst : Bytes

-- `name, sd := spec, spec`, split at the first colon that is not the first byte
abbrev pub flow_name : Bytes → Bytes × Bytes
flow_name spec = elim (index_byte 58 spec) [
  | none ↦ (spec, spec)
  | some i ↦ if ltb 0 i then (take i spec, drop (suc i) spec) else (spec, spec)
]

-- one entry of FLOWS, "name:start>dst" or "start>dst"; `none` is passed over
unfoldable pub parse_flow : Bytes → Option Flow
unfolding index_byte
parse_flow spec =
    let (name, sd) = flow_name spec in
    elim (index_byte 62 sd) [
      | none ↦ none
      | some i ↦
          if ltb 0 i
          then some record { name = name; start = take i sd; dst = drop (suc i) sd }
          else none
    ]

abbrev pub keep_flow : Option Flow → List Flow → List Flow
keep_flow (some f) flows = f ∷ flows
keep_flow none flows = flows

abbrev pub flow_list : List Bytes → List Flow
flow_list [] = []
flow_list (spec ∷ specs) =
    let s = trim_space spec in
    let rest = flow_list specs in if is_empty s then rest else keep_flow (parse_flow s) rest

-- parseFlows: by name
unfoldable pub parse_flows : Bytes → List Flow
unfolding split_on parse_flow sort_by bytes_ltb
parse_flows s = sort_by (λ f g. not (bytes_ltb g.name f.name)) (flow_list (split_on 44 s))
