-- ===== src/Shim/Routes.antt =====
-- What the FPM and the BMP ingesters write is served.
use for_visibility.Prelude.{
  ℕ, zero, suc, ◌||◌, ◌==◌, ltb, length, take, drop, ◌-◌, refl, Bool, true, false, [], Run, returns,
  Option-cases, Bool-cases, inl, inr,
}
use for_visibility.Text.{Bytes}
use for_visibility.Wire.{at, be16}
use for_visibility.Gnmi.Paths.{aft_path}
use for_visibility.Attr.{for_each_attr}
use for_visibility.Vrf.{Kernel}
use for_visibility.Fpm.Nexthop.{Fpm, Resolved, is_nil, handle_nexthop}
use for_visibility.Fpm.Route.{
  RouteMsg, format_prefix, route_effects, route_nexthop, apply_route, handle_route, no_route_attrs,
  scan_route,
}
use for_visibility.Fpm.Stream.{no_effect, handle_netlink, frames}
use for_visibility.Fpm.Stream
use for_visibility.Shim.{fpm, correlated}
use for_visibility.Shim.Served.{
  AllServed, RunServed, instances_advertised, if-RunHolds, bind-RunHolds, WithServed, Anything,
  returns_or_panics, then-RunServed, returns-RunHolds,
}

route_effects-AllServed :
    (del : Bool) (vrf prefix af_name : Bytes) (r : Resolved)
    → AllServed fpm (route_effects del vrf prefix af_name r)
unfolding route_effects aft_path correlated
route_effects-AllServed true vrf prefix af_name r =
    (refl, ((tt, (instances_advertised _ _ refl, (instances_advertised _ _ refl, tt))), tt))
route_effects-AllServed false vrf prefix af_name r = elim (Bool-cases (is_nil r.labels)) [
  | inl e ↦ rw (e) (
    refl,
    ((tt, (instances_advertised _ _ refl, tt)), (((instances_advertised _ _ refl, tt), tt), tt)),
  )
  | inr e ↦
      rw (e)
        (refl, (((instances_advertised _ _ refl, (instances_advertised _ _ refl, tt)), tt), tt))
]

apply_route-AllServed :
    (kernel : Kernel) (f : Fpm) (del : Bool) (m : RouteMsg)
    → AllServed fpm (apply_route kernel f del m).1
unfolding apply_route
apply_route-AllServed kernel f del m =
    elim (Option-cases (format_prefix m.family m.attrs.dst m.dst_len)) [
      | inl e ↦ rw (apply_route, e) tt
      | inr ((prefix, af_name), e) ↦
          rw (apply_route, e) (route_effects-AllServed del _ prefix af_name (route_nexthop f.nh m))
    ]

nothing_served : (f : Fpm) → RunServed fpm (returns (f, []))
nothing_served f = returns-RunHolds (WithServed fpm) (f, []) tt

handle_route-RunServed :
    (kernel : Kernel) (f : Fpm) (b : Bytes) (del : Bool)
    → RunServed fpm (handle_route kernel f b del)
handle_route-RunServed kernel f b del =
    unfold handle_route in
    if-RunHolds (WithServed fpm) (ltb (length b) 28) _ _ (nothing_served f) (
      bind-RunHolds (WithServed fpm) Anything (for_each_attr (drop 28 b)) _ (returns_or_panics _)
        λ attributes _.
          bind-RunHolds (WithServed fpm) Anything (scan_route no_route_attrs attributes) _
            (returns_or_panics _)
            λ s _. returns-RunHolds (WithServed fpm) _ (
              apply_route-AllServed kernel f del (record {
                family = at b 16;
                dst_len = at b 17;
                rt_type = at b 23;
                rtm_table = at b 20;
                attrs = s;
              })))

no_effect-RunServed : (r : Run Fpm) → RunServed fpm (no_effect r)
no_effect-RunServed r =
    bind-RunHolds (WithServed fpm) Anything r _ (returns_or_panics r) λ f _. nothing_served f

handle_netlink-RunServed :
    (kernel : Kernel) (f : Fpm) (b : Bytes) → RunServed fpm (handle_netlink kernel f b)
handle_netlink-RunServed kernel f b =
    unfold handle_netlink in
    if-RunHolds (WithServed fpm) _ _ _ (nothing_served f) (
      if-RunHolds (WithServed fpm) _ _ _ (no_effect-RunServed (handle_nexthop f b false)) (
        if-RunHolds (WithServed fpm) _ _ _ (no_effect-RunServed (handle_nexthop f b true)) (
          if-RunHolds (WithServed fpm) _ _ _ (handle_route-RunServed kernel f b false) (
            if-RunHolds (WithServed fpm) _ _ _ (handle_route-RunServed kernel f b true)
              (nothing_served f)))))

frame-RunServed :
    (kernel : ℕ → Kernel) (fuel k : ℕ) (f : Fpm) (stream : Bytes)
    → ((f' : Fpm) (rest : Bytes) → RunServed fpm (frames kernel fuel (suc k) f' rest))
    → RunServed fpm (frames kernel (suc fuel) k f stream)
frame-RunServed kernel fuel k f stream later =
    let body : Bytes = take (be16 stream 2 - 4) (drop 4 stream) in
    let rest : Bytes = drop (be16 stream 2 - 4) (drop 4 stream) in
    unfold frames in
    if-RunHolds (WithServed fpm)
      (ltb (length stream) 4 || ltb (be16 stream 2) 4 || ltb (length stream) (be16 stream 2)) _ _
      (nothing_served f)
      (if-RunHolds (WithServed fpm) (at stream 1 == 1) _ _
        (then-RunServed fpm (handle_netlink (kernel k) f body) _
          (handle_netlink-RunServed (kernel k) f body) λ f'. later f' rest)
        (later f rest))

frames-RunServed :
    (kernel : ℕ → Kernel) (fuel k : ℕ) (f : Fpm) (stream : Bytes)
    → RunServed fpm (frames kernel fuel k f stream)
frames-RunServed kernel zero k f stream = unfold frames in nothing_served f
frames-RunServed kernel (suc fuel) k f stream =
    frame-RunServed kernel fuel k f stream λ f' rest. frames-RunServed kernel fuel (suc k) f' rest

-- Whatever zebra sends on the connection.
pub fpm-RunServed :
    (kernel : ℕ → Kernel) (f : Fpm) (stream : Bytes) → RunServed fpm (Stream.handle kernel f stream)
unfolding Stream.handle
fpm-RunServed kernel f stream = frames-RunServed kernel _ 0 f stream
