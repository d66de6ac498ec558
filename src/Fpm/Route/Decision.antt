-- ===== src/Fpm/Route/Decision.antt =====
-- What `handleRoute` takes from the nexthop map for a route that names a nexthop object.
use for_visibility.Prelude.{ℕ, ◌≤◌, ◌≡◌, ◌≢◌, [], arith}
use for_visibility.Prelude.Assoc.{Map}
use for_visibility.Fpm.Nexthop.{Nexthop, Resolved, mpls_labels, resolve_nh}
use for_visibility.Fpm.Nexthop.Chains.{Chain, resolve_nh-Chain}
use for_visibility.Fpm.Route.{RouteMsg, route_nexthop}

-- a unicast route with neither a gateway nor labels of its own
pub record NamesNexthop (m : RouteMsg) : Type 0 where
  pub no_gw : m.attrs.gw ≡ []
  pub no_labels : mpls_labels m.attrs.encap_type m.attrs.labels ≡ []
  pub names : m.attrs.nhid ≢ 0
  pub unicast : m.rt_type ≡ 1

-- A unicast route that only names a nexthop object gets the gateway, the labels and the blackhole flag
-- at the end of the object's chain of at most four groups, and its interface unless that is 0.
pub route_nexthop-Chain :
    (nh : Map ℕ Nexthop) (m : RouteMsg) {k : ℕ} {r : Resolved}
    → NamesNexthop m
    → Chain nh m.attrs.nhid k r
    → k ≤ 4
    → (r.oif ≢ 0)
    → route_nexthop nh m ≡ r
unfolding route_nexthop resolve_nh
route_nexthop-Chain nh m {k} {r} h c few oif =
    ground (arith, h.no_gw, h.no_labels, h.names, h.unicast, chain_end)
  where
    chain_end : resolve_nh nh m.attrs.nhid 0 ≡ r
    chain_end = resolve_nh-Chain nh c few
