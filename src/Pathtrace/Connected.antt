-- ===== src/Pathtrace/Connected.antt =====
-- The walk at a connected route, whose next hop the FPM ingester writes as "-".
use for_visibility.Prelude.{ℕ, ◌≡◌, ◌≢◌, refl, sym, ap, ◌∙◌, false, none, some, [], ◌∷◌, arith}
use for_visibility.Prelude.Assoc.{lookup}
use for_visibility.Text.{Bytes, text, bytes_beq_iff, bytes_eq}
use for_visibility.Text.Cidr.{parse_ip4}
use for_visibility.Attr.{labels_csv}
use for_visibility.Fpm.Nexthop.{Resolved}
use for_visibility.Fpm.Route.{nexthop_text}
use for_visibility.Pathtrace.{
  Walk, answer, at_home, label_stack, ip_hop, ip_round, round, moves, unknown_hop, trace,
}
use for_visibility.Pathtrace.Lookup.{Found, all_routes_path, node_of, route_lookup}
use for_visibility.Pathtrace.Forwarding.{home}
use for_visibility.Pathtrace.Loop.{loop-unknown}
use for_visibility.Pathtrace.Served.{added}
use for_visibility.Pathtrace.Written.{Net, IsNet, InNet, net_text, added-found}

-- a connected route: no gateway, no label, and nothing is dropped
abbrev pub IsConnected : Resolved → Type 0
IsConnected r = (r.gw ≡ []) × (r.blackhole ≡ false) × (r.labels ≡ [])

connected-text : (r : Resolved) → IsConnected r → nexthop_text r ≡ text "-"
unfolding nexthop_text
connected-text r (gw, bh, l) = rw (gw, bh) refl

dash_some : text "-" ≢ []
unfolding text
dash_some empty = ground (arith, empty)

abbrev pub connected_found : Bytes → Net → Found
connected_found vrf t = record { vrf = vrf; prefix = net_text t; nexthop = text "-"; labels = [] }

node_of-dash :
    (w : Walk) → lookup (text "-") w.ip2node ≡ none → node_of w.ip2node (text "-") ≡ text "?"
unfolding node_of
node_of-dash w e = rw (node_of, e) refl

connected-round :
    (w : Walk) (start vrf : Bytes) (t : Net)
    → home w ≢ start
    → route_lookup (answer w 0 start all_routes_path) w.dst ≡ connected_found vrf t
    → round w 0 1 start []
      ≡ moves (ip_hop 1 start (connected_found vrf t)) (node_of w.ip2node (text "-")) []
unfolding round ip_round label_stack text
connected-round w start vrf t away found = rw (round, away_test, found) refl
  where
    away_test : at_home w.ip2node w.dst start ≡ false
    away_test = ground (arith, away, bytes_beq_iff (home w) start)

csv_none : labels_csv [] ≡ []
unfolding labels_csv
csv_none = refl

abbrev found_with : Bytes → Net → Bytes → Bytes → Found
found_with vrf t nh lbl = record { vrf = vrf; prefix = net_text t; nexthop = nh; labels = lbl }

connected-entry :
    (vrf : Bytes) (t : Net) (r : Resolved)
    → IsConnected r
    → found_with vrf t (nexthop_text r) (labels_csv r.labels) ≡ connected_found vrf t
connected-entry vrf t r c =
    ap (λ nh. found_with vrf t nh (labels_csv r.labels)) (connected-text r c)
    ∙ ap (λ lbl. found_with vrf t (text "-") lbl) (ap labels_csv c.2 ∙ csv_none)

module _ (w : Walk) (start : Bytes) (t : Net) (net : IsNet t) (di : ℕ)
    (addr : parse_ip4 w.dst ≡ some di) (inside : InNet t di) where
  -- A node whose only route is a connected one that the FPM ingester wrote, and that does not have the
  -- destination itself, ends the walk in its first round for every address of that network: the walk
  -- reports that the destination is not reached, also where it is the neighbor on that network. The
  -- address map has no entry for "-".
  pub connected-unreached :
      (vrf : Bytes) (r : Resolved)
      → answer w 0 start all_routes_path ≡ added vrf (net_text t) r
      → IsConnected r
      → lookup (text "-") w.ip2node ≡ none
      → home w ≢ start
      → trace w start ≡ (ip_hop 1 start (connected_found vrf t) ∷ unknown_hop 2 ∷ [], false)
  unfolding trace
  connected-unreached vrf r served c dash away =
      loop-unknown 23 w 0 1 start [] (ip_hop 1 start (connected_found vrf t))
        (node_of w.ip2node (text "-")) [] (node_of-dash w dash)
        (connected-round w start vrf t away (
          ap (λ ups. route_lookup ups w.dst) served
          ∙ added-found t net w.dst di addr inside vrf r
              (λ e. dash_some (sym (connected-text r c) ∙ e))
          ∙ connected-entry vrf t r c))
