-- ===== src/Examples/Nexthops.antt =====
-- Nexthop objects: their messages, their groups, and the routes that name them.
use for_visibility.Prelude.{ℕ, ◌≡◌, refl, inr, false, [], ◌∷◌, ◌++◌, returns, arith}
use for_visibility.Prelude.Assoc.{Map, lookup, insert, nat_eq}
use for_visibility.Text.{Bytes}
use for_visibility.Attr.Walk.{encode}
use for_visibility.Attr.Labels.{encode_stack}
use for_visibility.Fpm.Nexthop.{Fpm, Nexthop, Resolved, resolve_nh, handle_nexthop}
use for_visibility.Fpm.Nexthop.Chains.{
  Chain, stop, through, sends, IsGroup, Found, resolve_nh-Chain, resolve_nh-Found,
}
use for_visibility.Fpm.Nexthop.Objects.{
  Labelled, the_nexthop, nexthop_attrs, handle_nexthop-labelled,
}
use for_visibility.Fpm.Route.{RouteMsg, no_route_attrs}

abbrev gateway : Nexthop
gateway = record {
  gw = 10 ∷ 0 ∷ 0 ∷ 1 ∷ [];
  oif = 3;
  group = [];
  labels = 18 ∷ [];
  blackhole = false;
}

abbrev group_of : ℕ → Nexthop
group_of id = record { gw = []; oif = 0; group = id ∷ []; labels = []; blackhole = false }

-- 1 is a gateway, and each of 2 to 6 a group of the one before it
abbrev objects : Map ℕ Nexthop
objects =
    (1, gateway)
    ∷ (2, group_of 1)
    ∷ (3, group_of 2)
    ∷ (4, group_of 3)
    ∷ (5, group_of 4)
    ∷ (6, group_of 5)
    ∷ []

abbrev via_gateway : Resolved
via_gateway = record { gw = 10 ∷ 0 ∷ 0 ∷ 1 ∷ []; oif = 3; blackhole = false; labels = 18 ∷ [] }

is_group : (id : ℕ) → IsGroup (group_of id) id
is_group id = record { lives = refl; no_gw = refl; no_oif = refl; rest = []; first = refl }

chain1 : Chain objects 1 0 via_gateway
unfolding lookup
chain1 = stop gateway refl (sends refl (inr (omega arith)) refl)

chain2 : Chain objects 2 1 via_gateway
unfolding lookup
chain2 = through (group_of 1) refl (is_group 1) chain1

chain3 : Chain objects 3 2 via_gateway
unfolding lookup
chain3 = through (group_of 2) refl (is_group 2) chain2

chain4 : Chain objects 4 3 via_gateway
unfolding lookup
chain4 = through (group_of 3) refl (is_group 3) chain3

chain5 : Chain objects 5 4 via_gateway
unfolding lookup
chain5 = through (group_of 4) refl (is_group 4) chain4

chain6 : Chain objects 6 5 via_gateway
unfolding lookup
chain6 = through (group_of 5) refl (is_group 5) chain5

resolve_nh-Chain_example : resolve_nh objects 5 0 ≡ via_gateway
resolve_nh-Chain_example = resolve_nh-Chain objects chain5 (omega arith)

-- a group of itself
resolve_nh-Found_example : Found ((7, group_of 7) ∷ []) 5 7 (resolve_nh ((7, group_of 7) ∷ []) 7 0)
resolve_nh-Found_example = resolve_nh-Found ((7, group_of 7) ∷ []) 7

abbrev vpn_route : RouteMsg
vpn_route = record {
  family = 2;
  dst_len = 24;
  rt_type = 1;
  rtm_table = 10;
  attrs = record no_route_attrs { dst = 10 ∷ 1 ∷ 0 ∷ 0 ∷ []; nhid = 3 };
}

abbrev labelled : Labelled
labelled = record {
  id = 9;
  oif = 3;
  gw = 10 ∷ 0 ∷ 0 ∷ 1 ∷ [];
  top = record { label = 18; traffic_class = 0; ttl = 0 };
  below = record { label = 80; traffic_class = 0; ttl = 0 } ∷ [];
}

abbrev header : Bytes
header =
    0 ∷ 0 ∷ 0 ∷ 0 ∷ 104 ∷ 0 ∷ 0 ∷ 0 ∷ 0 ∷ 0 ∷ 0 ∷ 0 ∷ 0 ∷ 0 ∷ 0 ∷ 0 ∷ 2 ∷ 0 ∷ 0 ∷ 0 ∷ 0 ∷ 0 ∷ 0 ∷ 0
    ∷ []

abbrev empty_fpm : Fpm
empty_fpm = record { nh = []; vrf = [] }

handle_nexthop-labelled_example :
    handle_nexthop empty_fpm (header ++ encode (nexthop_attrs labelled)) false
    ≡ returns (record { nh = insert 9 (the_nexthop labelled) []; vrf = [] })
handle_nexthop-labelled_example = handle_nexthop-labelled empty_fpm header labelled refl (record {
  named = omega arith;
  id_fits = omega arith;
  oif_fits = omega arith;
  gw_fits = omega arith;
  stack_fits = unfold encode_stack in omega arith;
  encap_fits = unfold encode encode_stack in omega arith;
  entries =
      ((omega arith, omega arith, omega arith), ((omega arith, omega arith, omega arith), tt));
})
