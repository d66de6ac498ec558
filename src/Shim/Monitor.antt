-- ===== src/Shim/Monitor.antt =====
-- What the BMP ingester writes is served.
use for_visibility.Prelude.{
  ℕ, zero, suc, ◌+◌, ◌-◌, ◌||◌, not, ◌==◌, ltb, length, take, drop, refl, Bool, true, false, Option,
  none, some, List, [], ◌∷◌, All-append, returns, if-cases, Option-cases, Bool-cases, inl, inr,
}
use for_visibility.Text.{Bytes, text}
use for_visibility.Text.Address.{Ip, is_unspecified}
use for_visibility.Wire.{at, be16, be32}
use for_visibility.Gnmi.{Effect, cache_update}
use for_visibility.Gnmi.Paths.{neighbor_elems}
use for_visibility.Vrf.{Kernel}
use for_visibility.Bmp.Nlri.{Nlri}
use for_visibility.Bmp.Peer.{
  Bmp, PeerHeader, per_peer, peer_updates, peer_known, peer_state, peer_instance,
}
use for_visibility.Bmp.Update.{
  write_vpn_route, nlris, write_all, next_hop, mp_routes, handle_mp, Found, if_some, found_effects,
  walk_attrs, parse_attrs, parse_update, route_mon,
}
use for_visibility.Bmp.Stream.{handle_message, messages, handle}
use for_visibility.Shim.{bmp, correlated}
use for_visibility.Shim.Served.{
  IsServed, AllServed, RunServed, RunHolds, instances_advertised, frr_advertised, if-RunHolds,
  bind-RunHolds, WithServed, Anything, returns_or_panics, then-RunServed, returns-RunHolds,
}

peer_updates-AllServed :
    (vrf : Bytes) (h : PeerHeader) (up : Bool)
    → AllServed bmp (cache_update (text "openconfig") (peer_updates vrf h up) [] ∷ [])
unfolding peer_updates neighbor_elems
peer_updates-AllServed vrf h false = (((instances_advertised _ _ refl, tt), tt), tt)
peer_updates-AllServed vrf h true = elim (Bool-cases (h.peer_as == 0)) [
  | inl e ↦ rw (e) (((instances_advertised _ _ refl, tt), tt), tt)
  | inr e ↦ rw (e) (((instances_advertised _ _ refl, (instances_advertised _ _ refl, tt)), tt), tt)
]

peer_known-AllServed :
    (kernel : Kernel) (b : Bmp) (body : Bytes) (up : Bool) (h : PeerHeader)
    → AllServed bmp (peer_known kernel b body up h).1
peer_known-AllServed kernel b body up h =
    unfold peer_known in
    elim (Bool-cases (is_unspecified h.peer)) [
      | inl e ↦ rw (e) tt
      | inr e ↦ rw (e) (peer_updates-AllServed (peer_instance kernel b h.rd body up).1 h up)
    ]

peer_state-AllServed :
    (kernel : Kernel) (b : Bmp) (body : Bytes) (up : Bool)
    → AllServed bmp (peer_state kernel b body up).1
unfolding peer_state
peer_state-AllServed kernel b body up = elim (Option-cases (per_peer body)) [
  | inl e ↦ rw (peer_state, e) tt
  | inr (h, e) ↦ rw (peer_state, e) (peer_known-AllServed kernel b body up h)
]

write_vpn_route-AllServed :
    (peer nh : Ip) (n : Nlri) (rts : List Bytes) (withdraw : Bool)
    → AllServed bmp (write_vpn_route peer n nh rts withdraw)
unfolding write_vpn_route correlated
write_vpn_route-AllServed peer nh n rts true = ((tt, (frr_advertised _, tt)), (refl, tt))
write_vpn_route-AllServed peer nh n rts false = (
  refl,
  (((frr_advertised _, (frr_advertised _, (frr_advertised _, (frr_advertised _, tt)))), tt), tt),
)

write_all-AllServed :
    (peer nh : Ip) (rts : List Bytes) (withdraw : Bool) (ns : List Nlri)
    → AllServed bmp (write_all peer nh rts withdraw ns)
unfolding write_all
write_all-AllServed peer nh rts withdraw [] = tt
write_all-AllServed peer nh rts withdraw (n ∷ ns) =
    All-append (IsServed bmp) (write_vpn_route peer n nh rts withdraw) _
      (write_vpn_route-AllServed peer nh n rts withdraw)
      (write_all-AllServed peer nh rts withdraw ns)

mp_routes-AllServed :
    (peer : Ip) (rts : List Bytes) (o : Option (Ip × Bytes)) → AllServed bmp (mp_routes peer rts o)
unfolding mp_routes
mp_routes-AllServed peer rts none = tt
mp_routes-AllServed peer rts (some (nh, p)) = write_all-AllServed peer nh rts false (nlris p)

handle_mp-AllServed :
    (peer : Ip) (v : Bytes) (rts : List Bytes) (withdraw : Bool)
    → AllServed bmp (handle_mp peer v rts withdraw)
handle_mp-AllServed peer v rts withdraw =
    unfold handle_mp in
    if-cases (AllServed bmp) (ltb (length v) 3) [] _ (λ _. tt)
      (λ _.
        if-cases (AllServed bmp) (not (be16 v 0 == 1) || not (at v 2 == 128)) [] _ (λ _. tt)
          (λ _.
            if-cases (AllServed bmp) withdraw _ _
              (λ _. write_all-AllServed peer [] rts true (nlris (drop 3 v)))
              (λ _. mp_routes-AllServed peer rts (next_hop (drop 3 v)))))

if_some-AllServed :
    (o : Option Bytes) (f : Bytes → List Effect)
    → ((v : Bytes) → AllServed bmp (f v))
    → AllServed bmp (if_some o f)
if_some-AllServed none f h = tt
if_some-AllServed (some v) f h = h v

found_effects-AllServed : (peer : Ip) (s : Found) → AllServed bmp (found_effects peer s)
unfolding found_effects
found_effects-AllServed peer s =
    All-append (IsServed bmp) (if_some s.mp_reach (λ v. handle_mp peer v s.rts false)) _
      (if_some-AllServed s.mp_reach _ λ v. handle_mp-AllServed peer v s.rts false)
      (if_some-AllServed s.mp_unreach _ λ v. handle_mp-AllServed peer v [] true)

parse_attrs-AllServed : (peer : Ip) (p : Bytes) → RunHolds (AllServed bmp) (parse_attrs peer p)
parse_attrs-AllServed peer p =
    unfold parse_attrs in
    if-RunHolds (AllServed bmp) (ltb (length (drop 2 p)) (be16 p 0)) _ _
      (returns-RunHolds (AllServed bmp) [] tt)
      (bind-RunHolds (AllServed bmp) Anything
        (walk_attrs (take (be16 p 0) (drop 2 p)) (drop (be16 p 0) (drop 2 p))) _
        (returns_or_panics _)
        λ s _.
          returns-RunHolds (AllServed bmp) (found_effects peer s) (found_effects-AllServed peer s))

parse_update-AllServed : (peer : Ip) (m : Bytes) → RunHolds (AllServed bmp) (parse_update peer m)
parse_update-AllServed peer m =
    let nothing : RunHolds (AllServed bmp) (returns []) = returns-RunHolds (AllServed bmp) [] tt in
    let p : Bytes = drop 19 m in
    unfold parse_update in
    if-RunHolds (AllServed bmp) (ltb (length m) 19 || not (at m 18 == 2)) _ _ nothing (
      if-RunHolds (AllServed bmp) (ltb (length p) 2) _ _ nothing (
        if-RunHolds (AllServed bmp) (ltb (length (drop 2 p)) (be16 p 0 + 2)) _ _ nothing
          (parse_attrs-AllServed peer (drop (be16 p 0) (drop 2 p)))))

route_mon-AllServed : (body : Bytes) → RunHolds (AllServed bmp) (route_mon body)
unfolding route_mon
route_mon-AllServed body = elim (Option-cases (per_peer body)) [
  | inl e ↦ rw (route_mon, e) (returns-RunHolds (AllServed bmp) [] tt)
  | inr (h, e) ↦ rw (route_mon, e) (parse_update-AllServed h.peer (drop 42 body))
]

unchanged_served : (b : Bmp) → RunServed bmp (returns (b, []))
unchanged_served b = returns-RunHolds (WithServed bmp) (b, []) tt

handle_message-RunServed :
    (kernel : Kernel) (b : Bmp) (kind : ℕ) (body : Bytes)
    → RunServed bmp (handle_message kernel b kind body)
handle_message-RunServed kernel b kind body =
    unfold handle_message in
    if-RunHolds (WithServed bmp) (kind == 3) _ _
      (returns-RunHolds (WithServed bmp) (peer_state kernel b body true)
        (peer_state-AllServed kernel b body true))
      (if-RunHolds (WithServed bmp) (kind == 2) _ _
        (returns-RunHolds (WithServed bmp) (peer_state kernel b body false)
          (peer_state-AllServed kernel b body false))
        (if-RunHolds (WithServed bmp) (kind == 0) _ _
          (bind-RunHolds (WithServed bmp) (AllServed bmp) (route_mon body) _
            (route_mon-AllServed body)
            λ effects h. returns-RunHolds (WithServed bmp) (b, effects) h)
          (unchanged_served b)))

message-RunServed :
    (kernel : ℕ → Kernel) (fuel k : ℕ) (b : Bmp) (stream : Bytes)
    → ((b' : Bmp) (rest : Bytes) → RunServed bmp (messages kernel fuel (suc k) b' rest))
    → RunServed bmp (messages kernel (suc fuel) k b stream)
message-RunServed kernel fuel k b stream later =
    let msg_len : ℕ = be32 stream 1 in
    let body : Bytes = take (msg_len - 6) (drop 6 stream) in
    let rest : Bytes = drop (msg_len - 6) (drop 6 stream) in
    unfold messages in
    if-RunHolds (WithServed bmp) (ltb (length stream) 6 || not (at stream 0 == 3)) _ _
      (unchanged_served b)
      (if-RunHolds (WithServed bmp) (ltb msg_len 6 || ltb (length stream) msg_len) _ _
        (unchanged_served b)
        (then-RunServed bmp (handle_message (kernel k) b (at stream 5) body) _
          (handle_message-RunServed (kernel k) b (at stream 5) body) λ b'. later b' rest))

messages-RunServed :
    (kernel : ℕ → Kernel) (fuel k : ℕ) (b : Bmp) (stream : Bytes)
    → RunServed bmp (messages kernel fuel k b stream)
messages-RunServed kernel zero k b stream = unfold messages in unchanged_served b
messages-RunServed kernel (suc fuel) k b stream =
    message-RunServed kernel fuel k b stream
      λ b' rest. messages-RunServed kernel fuel (suc k) b' rest

-- Whatever bgpd sends on a connection.
pub bmp-RunServed :
    (kernel : ℕ → Kernel) (b : Bmp) (stream : Bytes) → RunServed bmp (handle kernel b stream)
unfolding handle
bmp-RunServed kernel b stream = messages-RunServed kernel _ 0 b stream
