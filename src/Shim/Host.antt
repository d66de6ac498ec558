-- ===== src/Shim/Host.antt =====
-- What the netlink ingester writes is served.
use for_visibility.Prelude.{
  not, ◌||◌, refl, Bool, true, false, Option, none, some, List, [], ◌∷◌, ◌++◌, All-append, if-cases,
  Option-cases, Bool-cases, inl, inr,
}
use for_visibility.Text.{Bytes, bytes_eq}
use for_visibility.Gnmi.{Effect}
use for_visibility.Netlink.{
  LinkAttrs, KernelView, Neigh, MplsRoute, Addr, is_unicast_mac, iface_elems, fdb_elems, addr_elems,
  counter_update, link_updates, write_link_state, link_event, write_fdb, neigh_event, fdb_entries,
  snapshot_fdb, mpls_updates, mpls_entries, snapshot_mpls, addr_updates, addr_entries, link_addrs,
  counter_updates, link_counters, each_link, snapshot_addrs, sample_counters, snapshot,
  counter_tick,
}
use for_visibility.Shim.{netlink, correlated}
use for_visibility.Shim.Served.{
  IsServed, AllServed, interfaces_advertised, instances_advertised, frr_advertised,
}

write_link_state-IsServed : (a : LinkAttrs) → IsServed netlink (write_link_state a)
unfolding write_link_state link_updates iface_elems
write_link_state-IsServed a = (
  (
    interfaces_advertised _ _ refl,
    (
      interfaces_advertised _ _ refl,
      (
        interfaces_advertised _ _ refl,
        (
          interfaces_advertised _ _ refl,
          (interfaces_advertised _ _ refl, (interfaces_advertised _ _ refl, tt)),
        ),
      ),
    ),
  ),
  tt,
)

pub link_event-AllServed : (del : Bool) (a : LinkAttrs) → AllServed netlink (link_event del a)
unfolding link_event iface_elems correlated
link_event-AllServed true a = ((tt, (interfaces_advertised _ _ refl, tt)), (refl, tt))
link_event-AllServed false a = (write_link_state-IsServed a, (refl, tt))

write_fdb-IsServed : (kernel : KernelView) (n : Neigh) → IsServed netlink (write_fdb kernel n)
unfolding write_fdb fdb_elems
write_fdb-IsServed kernel n =
    ((instances_advertised _ _ refl, (instances_advertised _ _ refl, tt)), tt)

pub neigh_event-AllServed :
    (kernel : KernelView) (del : Bool) (n : Neigh) → AllServed netlink (neigh_event kernel del n)
unfolding fdb_elems
neigh_event-AllServed kernel del n =
    unfold neigh_event in
    if-cases (AllServed netlink) (not n.bridge || not (is_unicast_mac n.hardware_addr)) [] _
      (λ _. tt)
      (λ _.
        if-cases (AllServed netlink) del _ _ (λ _. ((tt, (instances_advertised _ _ refl, tt)), tt))
          (λ _. (write_fdb-IsServed kernel n, tt)))

fdb_entries-AllServed :
    (kernel : KernelView) (ns : List Neigh) → AllServed netlink (fdb_entries kernel ns)
unfolding fdb_entries
fdb_entries-AllServed kernel [] = tt
fdb_entries-AllServed kernel (n ∷ ns) =
    if-cases (AllServed netlink) (not (is_unicast_mac n.hardware_addr)) (fdb_entries kernel ns)
      (write_fdb kernel n ∷ fdb_entries kernel ns) (λ _. fdb_entries-AllServed kernel ns)
      (λ _. (write_fdb-IsServed kernel n, fdb_entries-AllServed kernel ns))

snapshot_fdb-AllServed : (kernel : KernelView) → AllServed netlink (snapshot_fdb kernel)
unfolding snapshot_fdb
snapshot_fdb-AllServed kernel = elim (Option-cases kernel.neigh_list) [
  | inl e ↦ rw (snapshot_fdb, e) tt
  | inr (ns, e) ↦ rw (snapshot_fdb, e) (fdb_entries-AllServed kernel ns)
]

mpls_entries-AllServed :
    (kernel : KernelView) (rs : List MplsRoute) → AllServed netlink (mpls_entries kernel rs)
unfolding mpls_entries mpls_updates
mpls_entries-AllServed kernel [] = tt
mpls_entries-AllServed kernel (r ∷ rs) = elim (Option-cases r.mpls_dst) [
  | inl e ↦ rw (e) (mpls_entries-AllServed kernel rs)
  | inr (label, e) ↦ rw (e) (
    ((frr_advertised _, (frr_advertised _, (frr_advertised _, (frr_advertised _, tt)))), tt),
    mpls_entries-AllServed kernel rs,
  )
]

snapshot_mpls-AllServed : (kernel : KernelView) → AllServed netlink (snapshot_mpls kernel)
unfolding snapshot_mpls
snapshot_mpls-AllServed kernel = elim (Option-cases kernel.mpls_list) [
  | inl e ↦ rw (snapshot_mpls, e) tt
  | inr (rs, e) ↦ rw (snapshot_mpls, e) (mpls_entries-AllServed kernel rs)
]

addr_entries-AllServed :
    (name : Bytes) (addrs : List Addr) → AllServed netlink (addr_entries name addrs)
unfolding addr_entries addr_updates addr_elems
addr_entries-AllServed name [] = tt
addr_entries-AllServed name (a ∷ addrs) = elim (Bool-cases a.ip_net) [
  | inl e ↦ rw (e) (
    ((interfaces_advertised _ _ refl, (interfaces_advertised _ _ refl, tt)), tt),
    addr_entries-AllServed name addrs,
  )
  | inr e ↦ rw (e) (addr_entries-AllServed name addrs)
]

link_addrs-AllServed :
    (kernel : KernelView) (l : LinkAttrs) → AllServed netlink (link_addrs kernel l)
unfolding link_addrs
link_addrs-AllServed kernel l = elim (Option-cases (kernel.addr_list l)) [
  | inl e ↦ rw (link_addrs, e) tt
  | inr (addrs, e) ↦ rw (link_addrs, e) (addr_entries-AllServed l.name addrs)
]

link_counters-AllServed : (a : LinkAttrs) → AllServed netlink (link_counters a)
unfolding link_counters counter_updates counter_update
link_counters-AllServed a = elim (Option-cases a.statistics) [
  | inl e ↦ rw (e) tt
  | inr (s, e) ↦ rw (e) (
    (
      (
        interfaces_advertised _ _ refl,
        (
          interfaces_advertised _ _ refl,
          (
            interfaces_advertised _ _ refl,
            (
              interfaces_advertised _ _ refl,
              (
                interfaces_advertised _ _ refl,
                (
                  interfaces_advertised _ _ refl,
                  (interfaces_advertised _ _ refl, (interfaces_advertised _ _ refl, tt)),
                ),
              ),
            ),
          ),
        ),
      ),
      tt,
    ),
    tt,
  )
]

each_link-AllServed :
    (o : Option (List LinkAttrs)) (f : LinkAttrs → List Effect)
    → ((l : LinkAttrs) → AllServed netlink (f l))
    → AllServed netlink (each_link o f)
unfolding each_link
each_link-AllServed none f h = tt
each_link-AllServed (some []) f h = tt
each_link-AllServed (some (l ∷ ls)) f h =
    All-append (IsServed netlink) (f l) (each_link (some ls) f) (h l)
      (each_link-AllServed (some ls) f h)

sample_counters-AllServed : (kernel : KernelView) → AllServed netlink (sample_counters kernel)
unfolding sample_counters
sample_counters-AllServed kernel =
    each_link-AllServed kernel.link_list link_counters link_counters-AllServed

snapshot_addrs-AllServed : (kernel : KernelView) → AllServed netlink (snapshot_addrs kernel)
unfolding snapshot_addrs
snapshot_addrs-AllServed kernel =
    each_link-AllServed kernel.link_list (link_addrs kernel) (link_addrs-AllServed kernel)

pub counter_tick-AllServed : (kernel : KernelView) → AllServed netlink (counter_tick kernel)
unfolding counter_tick
counter_tick-AllServed kernel =
    All-append (IsServed netlink) (sample_counters kernel ++ snapshot_mpls kernel) _
      (All-append (IsServed netlink) (sample_counters kernel) _ (sample_counters-AllServed kernel)
        (snapshot_mpls-AllServed kernel))
      (snapshot_addrs-AllServed kernel)

pub snapshot-AllServed : (kernel : KernelView) → AllServed netlink (snapshot kernel)
unfolding snapshot
snapshot-AllServed kernel = elim (Option-cases kernel.link_list) [
  | inl e ↦ rw (snapshot, e) tt
  | inr (links, e) ↦
      rw (snapshot, e)
        (All-append (IsServed netlink) _ (snapshot_addrs kernel)
          (All-append (IsServed netlink) _ (snapshot_mpls kernel)
            (All-append (IsServed netlink) _ (snapshot_fdb kernel)
              (All-append (IsServed netlink) _ (sample_counters kernel)
                (each_link-AllServed (some links) (λ l. write_link_state l ∷ [])
                  λ l. (write_link_state-IsServed l, tt))
                (sample_counters-AllServed kernel))
              (snapshot_fdb-AllServed kernel))
            (snapshot_mpls-AllServed kernel))
          (snapshot_addrs-AllServed kernel))
]
