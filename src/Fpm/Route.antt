-- ===== src/Fpm/Route.antt =====
-- internal/ingest/fpm.go: route messages (`handleRoute`, `formatPrefix`).
pub mod Decision
pub mod Leaves
pub mod Cached
use for_visibility.Prelude.{
  ℕ, Bool, true, false, not, ◌&&◌, ◌||◌, Option, none, some, List, [], ◌∷◌, ◌++◌, ltb, ◌==◌,
  if◌then◌else◌, length, take, drop, Run, returns, ◌>>=◌,
}
use for_visibility.Prelude.Assoc.{Map}
use for_visibility.Text.{Bytes, text}
use for_visibility.Text.Decimal.{itoa}
use for_visibility.Text.Address.{Ip, ip_string, to4}
use for_visibility.Wire.{at, le16, le32}
use for_visibility.Gnmi.{Update, Effect, cache_update, emit, str_val}
use for_visibility.Gnmi.Paths.{aft_path}
use for_visibility.Attr.{Attr, for_each_attr, parse_mpls_encap, labels_csv}
use for_visibility.Vrf.{Kernel, name}
use for_visibility.Fpm.Nexthop.{Fpm, Nexthop, Resolved, is_nil, read_if, mpls_labels, resolve_nh}

-- fmt.Sprintf("%s/%d", ip.String(), dstLen)
abbrev pub prefix_text : Ip → ℕ → Bytes
prefix_text ip len = ip_string ip ++ text "/" ++ itoa len

-- copy(ip, dst.To4()) into four zero bytes
abbrev pub v4_bytes : Option Ip → Ip
v4_bytes (some v4) = v4
v4_bytes none = 0 ∷ 0 ∷ 0 ∷ 0 ∷ []

abbrev pub zeros16 : Ip
zeros16 = 0 ∷ 0 ∷ 0 ∷ 0 ∷ 0 ∷ 0 ∷ 0 ∷ 0 ∷ 0 ∷ 0 ∷ 0 ∷ 0 ∷ 0 ∷ 0 ∷ 0 ∷ 0 ∷ []

-- `none` is the empty prefix of a family that is not IP
unfoldable pub format_prefix : ℕ → Ip → ℕ → Option (Bytes × Bytes)
format_prefix family dst dst_len =
    if family == 2
    then some (prefix_text (v4_bytes (to4 dst)) dst_len, text "ipv4-unicast")
    else if family == 10
    then some (prefix_text (take 16 (dst ++ zeros16)) dst_len, text "ipv6-unicast")
    else none

-- the variables that the callback of `handleRoute` assigns
pub record RouteScan : Type 0 where
  pub dst : Ip
  pub gw : Ip
  pub oif : ℕ
  pub table : ℕ
  pub nhid : ℕ
  pub labels : List ℕ
  pub encap_type : ℕ

abbrev pub no_route_attrs : RouteScan
no_route_attrs = record {
  dst = [];
  gw = [];
  oif = 0;
  table = 0;
  nhid = 0;
  labels = [];
  encap_type = 0;
}

unfoldable pub scan_route_attr : RouteScan → ℕ → Bytes → Run RouteScan
scan_route_attr s t p =
    if t == 1
    then returns (record s { dst = p })
    else if t == 5
    then returns (record s { gw = p })
    else if t == 4
    then returns (record s { oif = read_if 4 p (le32 p 0) s.oif })
    else if t == 15
    then returns (record s { table = read_if 4 p (le32 p 0) s.table })
    else if t == 21
    then returns (record s { encap_type = read_if 2 p (le16 p 0) s.encap_type })
    else if t == 22
    then (parse_mpls_encap p >>= λ labels. returns (record s { labels = labels }))
    else if t == 30
    then returns (record s { nhid = read_if 4 p (le32 p 0) s.nhid })
    else returns s

unfoldable pub scan_route : RouteScan → List Attr → Run RouteScan
unfolding scan_route_attr
scan_route s [] = returns s
scan_route s (a ∷ attributes) =
    scan_route_attr s a.atype a.payload >>= λ s'. scan_route s' attributes

-- What a route message says: the fixed part of `rtmsg` and the attributes.
pub record RouteMsg : Type 0 where
  pub family : ℕ
  pub dst_len : ℕ
  pub rt_type : ℕ
  pub rtm_table : ℕ
  pub attrs : RouteScan

-- `gw == nil && nhid != 0` asks the nexthop map
unfoldable pub route_nexthop : Map ℕ Nexthop → RouteMsg → Resolved
unfolding resolve_nh
route_nexthop nh m =
    let own = mpls_labels m.attrs.encap_type m.attrs.labels in
    let dropped = m.rt_type == 6 || m.rt_type == 7 || m.rt_type == 8 in
    let r = resolve_nh nh m.attrs.nhid 0 in
    if is_nil m.attrs.gw && not (m.attrs.nhid == 0)
    then record {
      gw = r.gw;
      oif = if r.oif == 0 then m.attrs.oif else r.oif;
      blackhole = dropped || r.blackhole;
      labels = if is_nil own then r.labels else own;
    }
    else record { gw = m.attrs.gw; oif = m.attrs.oif; blackhole = dropped; labels = own }

unfoldable pub nexthop_text : Resolved → Bytes
nexthop_text r =
    if r.blackhole then text "blackhole" else if is_nil r.gw then text "-" else ip_string r.gw

-- the calls behind the lookup of the VRF's name, in order
unfoldable pub route_effects : Bool → Bytes → Bytes → Bytes → Resolved → List Effect
route_effects del vrf prefix af_name r =
    let nh_path = aft_path vrf af_name prefix (text "next-hop") in
    let lbl_path = aft_path vrf af_name prefix (text "pushed-mpls-label-stack") in
    let detail = text "vrf=" ++ vrf ++ text " nh=" ++ nexthop_text r in
    let nh_update : Update = record { path = nh_path; val = str_val (nexthop_text r) } in
    let lbl_update : Update = record { path = lbl_path; val = str_val (labels_csv r.labels) } in
    if del
    then emit (text "fpm") (text "route-del") prefix detail false
      ∷ cache_update (text "openconfig") [] (nh_path ∷ lbl_path ∷ [])
      ∷ []
    else if is_nil r.labels
    then emit (text "fpm") (text "route-add") prefix detail false
      ∷ cache_update (text "openconfig") [] (lbl_path ∷ [])
      ∷ cache_update (text "openconfig") (nh_update ∷ []) []
      ∷ []
    else emit (text "fpm") (text "route-add") prefix detail false
      ∷ cache_update (text "openconfig") (nh_update ∷ lbl_update ∷ []) []
      ∷ []

-- the part of `handleRoute` behind the walk
unfoldable pub apply_route : Kernel → Fpm → Bool → RouteMsg → Fpm × List Effect
apply_route kernel f del m = elim (format_prefix m.family m.attrs.dst m.dst_len) [
  | none ↦ (f, [])
  | some (prefix, af_name) ↦
      let table = if m.attrs.table == 0 then m.rtm_table else m.attrs.table in
      let (vrf, resolver) = name kernel f.vrf table in
      (record f { vrf = resolver }, route_effects del vrf prefix af_name (route_nexthop f.nh m))
]

-- nlHdrLen is 16 and rtMsgLen is 12
unfoldable pub handle_route : Kernel → Fpm → Bytes → Bool → Run (Fpm × List Effect)
unfolding scan_route apply_route format_prefix route_nexthop route_effects name
handle_route kernel f b del =
    if ltb (length b) 28
    then returns (f, [])
    else (for_each_attr (drop 28 b) >>= λ attributes. scan_route no_route_attrs attributes >>= λ s.
        returns (
          apply_route kernel f del (record {
            family = at b 16;
            dst_len = at b 17;
            rt_type = at b 23;
            rtm_table = at b 20;
            attrs = s;
          })))
