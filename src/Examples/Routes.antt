-- ===== src/Examples/Routes.antt =====
-- Routes in a cache, and the frames of an FPM connection.
use for_visibility.Prelude.{◌≡◌, refl, inl, true, false, none, some, List, [], ◌∷◌, ◌++◌, arith}
use for_visibility.Text.Address.{ip_string}
use for_visibility.Text.{text}
use for_visibility.Cache.{run_effects}
use for_visibility.Examples.Memory.{memory, no_leaves, ticking}
use for_visibility.Vrf.{vrf}
use for_visibility.Fpm.Nexthop.{Fpm}
use for_visibility.Fpm.Route.{
  RouteMsg, no_route_attrs, format_prefix, apply_route, route_effects, route_nexthop,
}
use for_visibility.Fpm.Route.Cached.{entry_at, expected_entry, route_vrf, apply_route-cached}
use for_visibility.Fpm.Stream.{handle}
use for_visibility.Fpm.Stream.Frames.{Frame, stream_bytes, handle_each, handle-handle_each}

abbrev empty_fpm : Fpm
empty_fpm = record { nh = []; vrf = [] }

-- 10.1.0.0/24 in table 10 through 10.0.0.1, with the label 18
abbrev route : RouteMsg
route = record {
  family = 2;
  dst_len = 24;
  rt_type = 1;
  rtm_table = 10;
  attrs = record no_route_attrs {
    dst = 10 ∷ 1 ∷ 0 ∷ 0 ∷ [];
    gw = 10 ∷ 0 ∷ 0 ∷ 1 ∷ [];
    labels = 18 ∷ [];
    encap_type = 1;
  };
}

apply_route-cached_example :
    entry_at memory
      (text "pe1")
      (route_vrf (some (vrf 10 (text "cust") ∷ [])) empty_fpm route)
      (text "ipv4-unicast")
      (text "10.1.0.0/24")
      (run_effects memory
        (text "pe1")
        ticking
        0
        (apply_route (some (vrf 10 (text "cust") ∷ [])) empty_fpm false route).1
        no_leaves).0
    ≡ expected_entry false (route_nexthop [] route)
unfolding ip_string format_prefix route_effects route_nexthop
apply_route-cached_example =
    apply_route-cached memory (text "pe1") ticking 0 (some (vrf 10 (text "cust") ∷ [])) empty_fpm
      false route no_leaves (text "10.1.0.0/24") (text "ipv4-unicast") prefix accepted
  where
    prefix :
        format_prefix 2 (10 ∷ 1 ∷ 0 ∷ 0 ∷ []) 24 ≡ some (text "10.1.0.0/24", text "ipv4-unicast")
    prefix = unfold format_prefix text in refl

    accepted :
        (run_effects memory
          (text "pe1")
          ticking
          0
          (apply_route (some (vrf 10 (text "cust") ∷ [])) empty_fpm false route).1
          no_leaves).1
        ≡ true
    accepted = unfold run_effects apply_route text in refl

-- two frames, the first of another type, and the beginning of a third
abbrev two_frames : List Frame
two_frames =
    record { version = 1; kind = 2; body = [] }
    ∷ record { version = 1; kind = 1; body = 0 ∷ 0 ∷ [] }
    ∷ []

handle-handle_each_example :
    handle (λ k. none) empty_fpm (stream_bytes two_frames ++ 1 ∷ 1 ∷ [])
    ≡ handle_each (λ k. none) 0 empty_fpm two_frames
handle-handle_each_example =
    handle-handle_each (λ k. none) empty_fpm two_frames (1 ∷ 1 ∷ [])
      (omega arith, (omega arith, tt)) (inl (omega arith))
