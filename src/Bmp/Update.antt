-- ===== src/Bmp/Update.antt =====
-- internal/ingest/bmp.go: Route Monitoring (`routeMon`, `parseUpdate`, `handleMP`,
-- `writeVPNRoute`). The walk over the path attributes panics where Go slices past the capacity.
pub mod Routes
pub mod Attributes
pub mod Packets
use for_visibility.Prelude.{
  ℕ, zero, suc, ◌+◌, ◌-◌, ◌/◌, ◌%◌, Bool, true, false, not, ◌&&◌, ◌||◌, Option, none, some, List,
  [], ◌∷◌, ◌++◌, ltb, ◌==◌, if◌then◌else◌, length, take, drop, Run, returns, panics, ◌>>=◌,
}
use for_visibility.Text.{Bytes, text, join}
use for_visibility.Text.Decimal.{itoa}
use for_visibility.Text.Address.{Ip, ip_string}
use for_visibility.Wire.{at, slice, be16}
use for_visibility.Gnmi.{Effect, cache_update, emit, leaf_update, elems_path}
use for_visibility.Gnmi.Paths.{vpn_route_elems}
use for_visibility.Bmp.Nlri.{Nlri, parse_rts, parse_vpn_nlri}
use for_visibility.Bmp.Peer.{PeerHeader, per_peer, is_empty}

unfoldable pub write_vpn_route : Ip → Nlri → Ip → List Bytes → Bool → List Effect
write_vpn_route peer n nh rts withdraw =
    let nh_text = if is_empty nh then text "-" else ip_string nh in
    let detail = text "rd=" ++ n.rd ++ text " peer=" ++ ip_string peer in
    let leaf = λ (name : Bytes) (v : Bytes). leaf_update (vpn_route_elems n.rd n.prefix name) v in
    if withdraw
    then cache_update (text "frr") [] (elems_path (vpn_route_elems n.rd n.prefix []) ∷ [])
      ∷ emit (text "bmp") (text "vpn-withdraw") n.prefix detail false
      ∷ []
    else emit (text "bmp") (text "vpn-announce") n.prefix detail false
      ∷ cache_update (text "frr")
          (leaf (text "label") (itoa n.label)
            ∷ leaf (text "next-hop") nh_text
            ∷ leaf (text "route-target") (join rts (text ","))
            ∷ leaf (text "peer") (ip_string peer)
            ∷ [])
          []
      ∷ []

-- The loop over the NLRI; each round takes a byte at least.
nlri_loop : ℕ → Bytes → List Nlri
nlri_loop zero p = []
nlri_loop (suc fuel) p = elim (parse_vpn_nlri p) [
  | none ↦ []
  | some n ↦ n ∷ nlri_loop fuel (drop n.consumed p)
]

unfoldable pub nlris : Bytes → List Nlri
unfolding nlri_loop
nlris p = nlri_loop (length p) p

unfoldable pub write_all : Ip → Ip → List Bytes → Bool → List Nlri → List Effect
unfolding write_vpn_route
write_all peer nh rts withdraw [] = []
write_all peer nh rts withdraw (n ∷ ns) =
    write_vpn_route peer n nh rts withdraw ++ write_all peer nh rts withdraw ns

-- The next hop of MP_REACH and the NLRI behind it; `none` is an early return.
unfoldable pub next_hop : Bytes → Option (Ip × Bytes)
next_hop p =
    let nh_len = at p 0 in
    let rest = drop 1 p in
    if ltb (length p) 1
    then none
    else if ltb (length rest) nh_len
    then none
    else if ltb (length (drop nh_len rest)) 1
    then none
    else some (if ltb nh_len 12 then [] else slice 8 12 rest, drop 1 (drop nh_len rest))

unfoldable pub mp_routes : Ip → List Bytes → Option (Ip × Bytes) → List Effect
unfolding nlris write_all
mp_routes peer rts none = []
mp_routes peer rts (some (nh, p)) = write_all peer nh rts false (nlris p)

-- AFI 1, SAFI 128: only VPN-IPv4
unfoldable pub handle_mp : Ip → Bytes → List Bytes → Bool → List Effect
unfolding next_hop nlris write_all
handle_mp peer v rts withdraw =
    if ltb (length v) 3
    then []
    else if not (be16 v 0 == 1) || not (at v 2 == 128)
    then []
    else if withdraw
    then write_all peer [] rts true (nlris (drop 3 v))
    else mp_routes peer rts (next_hop (drop 3 v))

-- what the walk over the attributes keeps; nil is `none`
pub record Found : Type 0 where
  pub mp_reach : Option Bytes
  pub mp_unreach : Option Bytes
  pub rts : List Bytes

unfoldable pub keep_attr : Found → ℕ → Bytes → Found
keep_attr s atype val =
    if atype == 14
    then record s { mp_reach = some val }
    else if atype == 15
    then record s { mp_unreach = some val }
    else if atype == 16
    then record s { rts = parse_rts val }
    else s

-- bit 0x10 of the flags: the extended length
abbrev pub is_extended : ℕ → Bool
is_extended flags = flags / 16 % 2 == 1

-- `attrs[2:4]` reads past `len(attrs)` as far as the capacity goes: `beyond` is what stands there.
-- Each round takes three bytes at least.
attr_loop : ℕ → Found → Bytes → Bytes → Run Found
attr_loop zero s attrs beyond = returns s
attr_loop (suc fuel) s attrs beyond =
    let extended = is_extended (at attrs 0) in
    let alen = if extended then be16 (attrs ++ beyond) 2 else at attrs 2 in
    let hdr = if extended then 4 else 3 in
    let rest =
      attr_loop fuel (keep_attr s (at attrs 1) (slice hdr (hdr + alen) attrs))
        (drop (hdr + alen) attrs) beyond in
    if ltb (length attrs) 3
    then returns s
    else if extended && ltb (length (attrs ++ beyond)) 4
    then panics
    else if ltb (length attrs) (hdr + alen)
    then returns s
    else rest

abbrev pub nothing_found : Found
nothing_found = record { mp_reach = none; mp_unreach = none; rts = [] }

unfoldable pub walk_attrs : Bytes → Bytes → Run Found
unfolding attr_loop keep_attr
walk_attrs attrs beyond = attr_loop (length attrs) nothing_found attrs beyond

abbrev pub if_some : Option Bytes → (Bytes → List Effect) → List Effect
if_some none f = []
if_some (some v) f = f v

-- MP_REACH first, with the route targets, then MP_UNREACH
unfoldable pub found_effects : Ip → Found → List Effect
unfolding handle_mp
found_effects peer s =
    if_some s.mp_reach (λ v. handle_mp peer v s.rts false)
    ++ if_some s.mp_unreach (λ v. handle_mp peer v [] true)

-- behind the IPv4-unicast withdrawn routes: the path attributes and what follows them
unfoldable pub parse_attrs : Ip → Bytes → Run (List Effect)
unfolding walk_attrs found_effects
parse_attrs peer p =
    let pa_len = be16 p 0 in
    let q = drop 2 p in
    if ltb (length q) pa_len
    then returns []
    else (walk_attrs (take pa_len q) (drop pa_len q) >>= λ s. returns (found_effects peer s))

-- 19 bytes of BGP header, whose last is the type; 2 is UPDATE
unfoldable pub parse_update : Ip → Bytes → Run (List Effect)
unfolding parse_attrs
parse_update peer m =
    let p = drop 19 m in
    let w_len = be16 p 0 in
    if ltb (length m) 19 || not (at m 18 == 2)
    then returns []
    else if ltb (length p) 2
    then returns []
    else if ltb (length (drop 2 p)) (w_len + 2)
    then returns []
    else parse_attrs peer (drop w_len (drop 2 p))

unfoldable pub route_mon : Bytes → Run (List Effect)
unfolding parse_update per_peer
route_mon body = elim (per_peer body) [
  | none ↦ returns []
  | some h ↦ parse_update h.peer (drop 42 body)
]
