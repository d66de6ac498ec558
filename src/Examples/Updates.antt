-- ===== src/Examples/Updates.antt =====
-- BMP messages, BGP updates and the routes in them.
use for_visibility.Prelude.{
  ◌≡◌, refl, inl, inr, none, some, List, [], ◌∷◌, ◌++◌, arith, returns, panics,
}
use for_visibility.Text.{Bytes}
use for_visibility.Text.Address.{Ip}
use for_visibility.Bmp.Peer.{Bmp}
use for_visibility.Bmp.Nlri.{parse_vpn_nlri}
use for_visibility.Bmp.Nlri.RoundTrip.{
  VpnRoute, IsRoute, encode_route, decoded, parse_vpn_nlri-encode_route,
}
use for_visibility.Bmp.Update.{walk_attrs, parse_update}
use for_visibility.Bmp.Update.Attributes.{PathAttr, encode_attr, encode_attrs, walk_attrs-panics}
use for_visibility.Bmp.Update.Packets.{
  BgpUpdate, update_bytes, update_effects, parse_update-update_bytes,
}
use for_visibility.Bmp.Stream.{handle}
use for_visibility.Bmp.Stream.Messages.{stream_bytes, handle_each, handle_message-each}

-- label 80, 65000:1, 10.1.0.0/20
abbrev vpn_route : VpnRoute
vpn_route = record {
  label = 80;
  traffic_class = 0;
  rd = 0 ∷ 0 ∷ 253 ∷ 232 ∷ 0 ∷ 0 ∷ 0 ∷ 1 ∷ [];
  prefix_len = 20;
  address = 10 ∷ 1 ∷ 0 ∷ [];
}

vpn_route-IsRoute : IsRoute vpn_route
vpn_route-IsRoute = record {
  label_fits = omega arith;
  class_fits = omega arith;
  rd_size = refl;
  prefix_fits = omega arith;
  address_size = refl;
}

parse_vpn_nlri-encode_route_example :
    parse_vpn_nlri (encode_route vpn_route ++ 255 ∷ []) ≡ some (decoded vpn_route)
parse_vpn_nlri-encode_route_example =
    parse_vpn_nlri-encode_route vpn_route (255 ∷ []) vpn_route-IsRoute

abbrev peer : Ip
peer = 10 ∷ 0 ∷ 0 ∷ 2 ∷ []

abbrev zero_rd : Bytes
zero_rd = 0 ∷ 0 ∷ 0 ∷ 0 ∷ 0 ∷ 0 ∷ 0 ∷ 0 ∷ []

-- an ORIGIN, and an MP_UNREACH with an extended length
abbrev two_attrs : List PathAttr
two_attrs =
    record { flags = 64; atype = 1; val = 0 ∷ [] }
    ∷ record { flags = 144; atype = 15; val = 0 ∷ 1 ∷ 128 ∷ [] }
    ∷ []

walk_attrs-panics_example : walk_attrs (encode_attrs two_attrs ++ 144 ∷ 15 ∷ 0 ∷ []) [] ≡ panics
walk_attrs-panics_example =
    walk_attrs-panics two_attrs 144 15 0 (omega arith, (omega arith, tt)) refl

abbrev withdrawal : BgpUpdate
withdrawal = record {
  marker =
      255 ∷ 255 ∷ 255 ∷ 255 ∷ 255 ∷ 255 ∷ 255 ∷ 255 ∷ 255 ∷ 255 ∷ 255 ∷ 255 ∷ 255 ∷ 255 ∷ 255 ∷ 255
      ∷ 0 ∷ 34 ∷ [];
  withdrawn = [];
  attributes = two_attrs;
  nlri = [];
}

parse_update-update_bytes_example :
    parse_update peer (update_bytes withdrawal) ≡ returns (update_effects peer two_attrs)
parse_update-update_bytes_example = parse_update-update_bytes peer withdrawal (record {
  marker_size = refl;
  withdrawn_fits = omega arith;
  attributes_fit = unfold encode_attrs encode_attr in omega arith;
  each_fits = (omega arith, (omega arith, tt));
})

abbrev no_names : Bmp
no_names = record { rd_vrf = []; vrf = [] }

-- an Initiation message, and one of version 4
handle_message-each_example :
    handle
      (λ k. none)
      no_names
      (stream_bytes (record { kind = 4; body = 0 ∷ 0 ∷ [] } ∷ []) ++ 4 ∷ 0 ∷ 0 ∷ 0 ∷ 6 ∷ 4 ∷ [])
    ≡ handle_each (λ k. none) 0 no_names (record { kind = 4; body = 0 ∷ 0 ∷ [] } ∷ [])
handle_message-each_example =
    handle_message-each (λ k. none) no_names (record { kind = 4; body = 0 ∷ 0 ∷ [] } ∷ [])
      (4 ∷ 0 ∷ 0 ∷ 0 ∷ 6 ∷ 4 ∷ []) (omega arith, tt) (inr (inl (omega arith)))
