-- ===== src/Bmp/Update/Routes.antt =====
-- The routes of MP_REACH and MP_UNREACH: each is written once, in order.
use for_visibility.Prelude.{
  ℕ, zero, suc, ◌+◌, ◌≤◌, ◌≡◌, refl, ap, ◌∙◌, false, true, some, List, [], ◌∷◌, ◌++◌, append_assoc,
  map, length, length-append, drop, drop-append, drop-append_at, take-append_at, All, arith, le→ltb,
}
use for_visibility.Text.{Bytes}
use for_visibility.Text.Address.{Ip}
use for_visibility.Bmp.Nlri.{Nlri, parse_vpn_nlri}
use for_visibility.Bmp.Nlri.RoundTrip.{
  VpnRoute, IsRoute, encode_route, decoded, parse_vpn_nlri-encode_route, encode_route-length,
}
use for_visibility.Bmp.Update.{nlri_loop, nlris, next_hop, write_all, mp_routes, handle_mp}

unfoldable pub encode_routes : List VpnRoute → Bytes
encode_routes [] = []
encode_routes (r ∷ rs) = encode_route r ++ encode_routes rs

routes-length :
    (r : VpnRoute) (rs : List VpnRoute)
    → length (encode_route r ++ encode_routes rs)
      ≡ length (encode_route r) + length (encode_routes rs)
routes-length r rs = length-append (encode_route r) (encode_routes rs)

nlri_loop-some :
    (fuel : ℕ) (p : Bytes) (n : Nlri)
    → parse_vpn_nlri p ≡ some n
    → nlri_loop (suc fuel) p ≡ n ∷ nlri_loop fuel (drop n.consumed p)
nlri_loop-some fuel p n e = unfold nlri_loop in rw (e, nlri_loop)

nlri_loop-encode_routes :
    (fuel : ℕ) (rs : List VpnRoute)
    → All IsRoute rs
    → length (encode_routes rs) ≤ fuel
    → nlri_loop fuel (encode_routes rs) ≡ map decoded rs
unfolding encode_routes nlri_loop
nlri_loop-encode_routes zero [] h enough = refl
nlri_loop-encode_routes (suc fuel) [] h enough = unfold parse_vpn_nlri in refl
nlri_loop-encode_routes zero (r ∷ rs) h enough =
    absurd (omega (arith, routes-length r rs, encode_route-length r))
nlri_loop-encode_routes (suc fuel) (r ∷ rs) (hr, hs) enough =
    nlri_loop-some fuel (encode_route r ++ encode_routes rs) (decoded r)
      (parse_vpn_nlri-encode_route r (encode_routes rs) hr)
    ∙ rw (drop-append (encode_route r) (encode_routes rs)) (
        ap (λ ns. decoded r ∷ ns)
          (nlri_loop-encode_routes fuel rs hs
            (omega (arith, routes-length r rs, encode_route-length r))))

-- The loop over the NLRI finds the routes that were encoded, in order, and ends.
pub nlris-encode_routes :
    (rs : List VpnRoute) → All IsRoute rs → nlris (encode_routes rs) ≡ map decoded rs
unfolding nlris
nlris-encode_routes rs h = nlri_loop-encode_routes _ rs h (omega arith)

-- AFI 1 and SAFI 128, the 12-byte next hop (a route distinguisher of 8 bytes and an IPv4 address),
-- the reserved byte and the routes
abbrev pub mp_reach : Bytes → Ip → ℕ → List VpnRoute → Bytes
mp_reach nh_rd nh reserved rs = 0 ∷ 1 ∷ 128 ∷ 12 ∷ (nh_rd ++ (nh ++ reserved ∷ encode_routes rs))

abbrev pub mp_unreach : List VpnRoute → Bytes
mp_unreach rs = 0 ∷ 1 ∷ 128 ∷ encode_routes rs

next_hop-vpn :
    (nh_rd : Bytes) (nh : Ip) (reserved : ℕ) (p : Bytes)
    → length nh_rd ≡ 8
    → length nh ≡ 4
    → next_hop (12 ∷ (nh_rd ++ (nh ++ reserved ∷ p))) ≡ some (nh, p)
unfolding next_hop
next_hop-vpn nh_rd nh reserved p h8 h4 =
    rw
      (
        le→ltb (length (nh_rd ++ (nh ++ reserved ∷ p))) 12 (
            omega (
              arith,
              length-append nh_rd (nh ++ reserved ∷ p),
              length-append nh (reserved ∷ p),
              h8,
              h4,
            )),
        behind,
        drop-append_at 8 nh_rd (nh ++ reserved ∷ p) h8,
        take-append_at 4 nh (reserved ∷ p) h4,
      )
      (ground arith)
  where
    behind : drop 12 (nh_rd ++ (nh ++ reserved ∷ p)) ≡ reserved ∷ p
    behind = rw (← append_assoc nh_rd nh (reserved ∷ p)) (
        drop-append_at 12 (nh_rd ++ nh) (reserved ∷ p)
          (omega (arith, length-append nh_rd nh, h8, h4)))

-- The MP_REACH attribute of a VPN-IPv4 update announces each of its routes once, in order, with
-- the attribute's IPv4 next hop and the route targets; its MP_UNREACH withdraws each once.
pub handle_mp-routes :
    (peer : Ip) (nh_rd : Bytes) (nh : Ip) (reserved : ℕ) (rs : List VpnRoute) (rts : List Bytes)
    → length nh_rd ≡ 8
    → length nh ≡ 4
    → All IsRoute rs
    → (handle_mp peer (mp_reach nh_rd nh reserved rs) rts false
        ≡ write_all peer nh rts false (map decoded rs))
      × (handle_mp peer (mp_unreach rs) [] true ≡ write_all peer [] [] true (map decoded rs))
unfolding encode_routes mp_routes
handle_mp-routes peer nh_rd nh reserved rs rts h8 h4 h = (
  unfold handle_mp in
      rw (next_hop-vpn nh_rd nh reserved (encode_routes rs) h8 h4, nlris-encode_routes rs h)
        (ground arith),
  unfold handle_mp in rw (nlris-encode_routes rs h) (ground arith),
)
