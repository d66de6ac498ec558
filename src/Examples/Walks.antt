-- ===== src/Examples/Walks.antt =====
-- A walk through three routers: a labelled route, a pop of the label, and the destination.
use for_visibility.Prelude.{
  ◌≤◌, ◌≡◌, ◌≢◌, refl, true, false, none, some, List, [], ◌∷◌, ◌++◌, length, if◌then◌else◌, arith,
}
use for_visibility.Prelude.Assoc.{Map, lookup, insert}
use for_visibility.Text.{Bytes, text, bytes_beq, bytes_eq}
use for_visibility.Text.Address.{ip_string, dotted, to4}
use for_visibility.Text.Decimal.{itoa, value}
use for_visibility.Text.Split.{split_on, has_byte, index_byte}
use for_visibility.Text.Cidr.{parse_ip4, parse_cidr, parse_octet, parse_digits, all_digits}
use for_visibility.Gnmi.{Update, Notification, leaf_update, elems_path}
use for_visibility.Gnmi.Paths.{plain, keyed, aft_path}
use for_visibility.Exporter.{Shims, get, address, dissect, dissect_loop, sval}
use for_visibility.Attr.{labels_csv}
use for_visibility.Fpm.Nexthop.{Resolved}
use for_visibility.Fpm.Route.{nexthop_text, route_effects}
use for_visibility.Pathtrace.{
  answer, ip_hop, unknown_hop, Walk, trace, trace_loop, round, ip_round, mpls_round, label_stack,
}
use for_visibility.Pathtrace.Lookup.{
  by_prefix, route_lookup, all_routes_path, lfib_path, consider, longest, mpls_lookup, node_of,
  put_leaf,
}
use for_visibility.Pathtrace.Forwarding.{home}
use for_visibility.Pathtrace.Connected.{connected_found, connected-unreached}
use for_visibility.Pathtrace.Longest.{IsLongest, route_lookup-IsLongest}
use for_visibility.Pathtrace.Served.{added}
use for_visibility.Pathtrace.Written.{Net, IsNet, net_text, shared_prefix-mixes}
use for_visibility.Pathtrace.Tables.Chosen.{table-found}
use for_visibility.Pathtrace.Delivery.{hop_nodes, Delivers, trace-Delivers}

abbrev r3_net : Net
r3_net = record { a = 10; b = 0; c = 0; d = 3; len = 32 }

abbrev wide_net : Net
wide_net = record { a = 10; b = 0; c = 0; d = 0; len = 8 }

abbrev via_r2 : Resolved
via_r2 = record { gw = 10 ∷ 0 ∷ 0 ∷ 2 ∷ []; oif = 2; blackhole = false; labels = 16 ∷ [] }

abbrev via_r4 : Resolved
via_r4 = record { gw = 10 ∷ 0 ∷ 0 ∷ 4 ∷ []; oif = 3; blackhole = false; labels = [] }

abbrev r1_routes : List Update
r1_routes =
    added (text "default") (net_text wide_net) via_r4
    ++ (added (text "default") (net_text r3_net) via_r2 ++ [])

abbrev lfib_leaf : Bytes → Bytes → Update
lfib_leaf leaf v =
    leaf_update
      (plain (text "mpls")
        ∷ plain (text "lfib")
        ∷ keyed (text "entry") (text "label") (text "16")
        ∷ plain (text "state")
        ∷ plain leaf
        ∷ [])
      v

abbrev answer_of : List Update → List Notification
answer_of ups = record { timestamp = 1; prefix = elems_path []; update = ups; delete = [] } ∷ []

-- r1 has the route and r2 the label; nobody else answers
abbrev three_shims : Shims
three_shims addr p =
    if bytes_beq addr (text "172.31.0.1:9339")
    then if bytes_beq p.origin (text "openconfig") then some (answer_of r1_routes) else none
    else if bytes_beq addr (text "172.31.0.2:9339")
    then if bytes_beq p.origin (text "frr")
      then some (
          answer_of (
            lfib_leaf (text "next-hop") (text "10.0.0.3")
            ∷ lfib_leaf (text "interface") (text "r2-r3")
            ∷ []))
      else none
    else none

abbrev three_nodes : Map Bytes Bytes
three_nodes =
    (text "r1", text "172.31.0.1")
    ∷ (text "r2", text "172.31.0.2")
    ∷ (text "r3", text "172.31.0.3")
    ∷ []

abbrev walk_to : Bytes → Walk
walk_to dst = record {
  shims = λ i. three_shims;
  inventory = three_nodes;
  ip2node = (text "10.0.0.2", text "r2") ∷ (text "10.0.0.3", text "r3") ∷ [];
  dst = dst;
}

abbrev to_r3 : Walk
to_r3 = walk_to (text "10.0.0.3")

abbrev nodes : List Bytes
nodes = text "r1" ∷ text "r2" ∷ text "r3" ∷ []

reaches_r3 : (trace to_r3 (text "r1")).1 ≡ true
unfolding trace trace_loop round ip_round mpls_round label_stack bytes_beq lookup text route_lookup
    parse_ip4 split_on parse_octet parse_digits get has_byte all_routes_path lfib_path route_effects
    aft_path insert ip_string dotted to4 itoa labels_csv address dissect dissect_loop sval
    nexthop_text by_prefix consider longest mpls_lookup node_of put_leaf parse_cidr all_digits value
    index_byte
reaches_r3 = refl

through_r2 : hop_nodes (trace to_r3 (text "r1")).0 ≡ nodes
unfolding trace trace_loop round ip_round mpls_round label_stack bytes_beq lookup text route_lookup
    parse_ip4 split_on parse_octet parse_digits get has_byte all_routes_path lfib_path route_effects
    aft_path insert ip_string dotted to4 itoa labels_csv address dissect dissect_loop sval
    nexthop_text by_prefix consider longest mpls_lookup node_of put_leaf parse_cidr all_digits value
    index_byte
through_r2 = refl

trace-Delivers_example : (length nodes ≤ 24) × Delivers to_r3 0 nodes (text "r1") []
trace-Delivers_example = (trace-Delivers to_r3 (text "r1") nodes).0 (reaches_r3, through_r2)

r3_number : parse_ip4 (text "10.0.0.3") ≡ some 167772163
unfolding parse_ip4 text split_on parse_octet parse_digits all_digits value
r3_number = refl

route_lookup-IsLongest_example :
    IsLongest 167772163 (by_prefix r1_routes []) (route_lookup r1_routes (text "10.0.0.3"))
route_lookup-IsLongest_example =
    route_lookup-IsLongest r1_routes (text "10.0.0.3") 167772163 r3_number

r3_IsNet : IsNet r3_net
r3_IsNet = (omega arith, omega arith, omega arith, omega arith, omega arith)

via_r2_text : nexthop_text via_r2 ≢ []
unfolding nexthop_text ip_string dotted to4 itoa
via_r2_text empty = ground (arith, empty)

via_r4_text : nexthop_text via_r4 ≢ []
unfolding nexthop_text ip_string dotted to4 itoa
via_r4_text empty = ground (arith, empty)

wide_IsNet : IsNet wide_net
wide_IsNet = (omega arith, omega arith, omega arith, omega arith, omega arith)

other_prefix : bytes_beq (net_text wide_net) (net_text r3_net) ≡ false
unfolding ip_string dotted to4 itoa bytes_beq
other_prefix = refl

-- the routes of r1
table-found_example : route_lookup r1_routes (text "10.0.0.3") ≡ record {
  vrf = text "default";
  prefix = net_text r3_net;
  nexthop = nexthop_text via_r2;
  labels = labels_csv (16 ∷ []);
}
table-found_example =
    table-found (text "10.0.0.3") 167772163
      (record { vrf = text "default"; net = r3_net; nexthop = via_r2 })
      (record { vrf = text "default"; net = wide_net; nexthop = via_r4 } ∷ []) [] r3_number
      ((wide_IsNet, via_r4_text), ((r3_IsNet, via_r2_text), tt)) ((other_prefix, tt), (tt, tt)) refl
      (λ inside. omega arith, tt) tt

shared_prefix-mixes_example :
    route_lookup
      (added (text "cust") (net_text r3_net) via_r2
        ++ added (text "default") (net_text r3_net) via_r4)
      (text "10.0.0.3")
    ≡ record {
      vrf = text "default";
      prefix = net_text r3_net;
      nexthop = nexthop_text via_r4;
      labels = labels_csv (16 ∷ []);
    }
shared_prefix-mixes_example =
    shared_prefix-mixes r3_net r3_IsNet (text "10.0.0.3") 167772163 r3_number refl (text "cust")
      (text "default") via_r2 via_r4 refl via_r4_text

-- r1 is on the network of 10.0.0.3 itself
abbrev on_link : Resolved
on_link = record { gw = []; oif = 2; blackhole = false; labels = [] }

abbrev link_shims : Shims
link_shims addr p = some (answer_of (added (text "default") (net_text wide_net) on_link))

abbrev link_walk : Walk
link_walk = record to_r3 { shims = λ i. link_shims }

link_answer :
    answer link_walk 0 (text "r1") all_routes_path
    ≡ added (text "default") (net_text wide_net) on_link
unfolding get address lookup text bytes_beq has_byte all_routes_path route_effects nexthop_text
link_answer = refl

no_dash : lookup (text "-") link_walk.ip2node ≡ none
unfolding lookup text bytes_beq
no_dash = refl

r3_away : home link_walk ≢ text "r1"
unfolding lookup text bytes_beq
r3_away same = ground (arith, same)

connected-unreached_example :
    trace link_walk (text "r1")
    ≡ (ip_hop 1 (text "r1") (connected_found (text "default") wide_net) ∷ unknown_hop 2 ∷ [], false)
connected-unreached_example =
    connected-unreached link_walk (text "r1") wide_net wide_IsNet 167772163 r3_number refl
      (text "default") on_link link_answer (refl, refl, refl) no_dash r3_away
