-- ===== src/Shim/Neighbors.antt =====
-- What the OSPF, LLDP and cgroup ingesters write is served.
use for_visibility.Prelude.{
  ◌≡◌, refl, true, Option, none, some, List, [], ◌∷◌, All, All-append, if-cases, Bool-cases, inl,
  inr,
}
use for_visibility.Prelude.Assoc.{Map, lookup, insert, remove}
use for_visibility.Text.{Bytes, text, bytes_beq, bytes_eq}
use for_visibility.Gnmi.{Update}
use for_visibility.Gnmi.Paths.{ospf_nbr_elems}
use for_visibility.Ospf.{
  Ospf, OspfNbr, Neighbors, adj_state, transition, report_nbr, report, is_some, drop_gone,
  reconcile_with, parse_ospf_nbrs,
}
use for_visibility.Ospf
use for_visibility.Lldp.{
  Lldp, LldpNbr, lldp_elems, nbr_update, report_ifaces, delete_gone, delete_ifaces, parse_lldp,
}
use for_visibility.Lldp.Values.{Fields}
use for_visibility.Lldp
use for_visibility.Cgroup.{Files, host_effects, sample_updates, sample}
use for_visibility.Shim.{ospf, lldp, cgroup, correlated}
use for_visibility.Shim.Served.{
  IsServed, AllServed, is_advertised, instances_advertised, lldp_advertised, host_advertised,
}

transition-AllServed :
    (old : Option Bytes) (rid : Bytes) (n : OspfNbr) (st : Bytes)
    → AllServed ospf (transition old rid n st)
unfolding transition correlated
transition-AllServed none rid n st = tt
transition-AllServed (some old) rid n st =
    if-cases (AllServed ospf) (bytes_beq old st) [] _ (λ _. tt) (λ _. (refl, tt))

report_nbr-AllServed :
    (st : Map Bytes Bytes) (rid : Bytes) (n : OspfNbr) → AllServed ospf (report_nbr st rid n)
unfolding report_nbr ospf_nbr_elems
report_nbr-AllServed st rid n = (
  ((instances_advertised _ _ refl, (instances_advertised _ _ refl, tt)), tt),
  transition-AllServed (lookup rid st) rid n (adj_state n.state),
)

report-AllServed :
    (seen st : Map Bytes Bytes) (cur : Map Bytes OspfNbr) → AllServed ospf (report seen st cur).1
unfolding report
report-AllServed seen st [] = tt
report-AllServed seen st ((rid, n) ∷ cur) =
    All-append (IsServed ospf) (report_nbr st rid n) _ (report_nbr-AllServed st rid n)
      (report-AllServed (insert rid n.iface seen) (insert rid (adj_state n.state) st) cur)

drop_gone-AllServed : (seen st old : Map Bytes Bytes) → AllServed ospf (drop_gone seen st old).1
unfolding drop_gone ospf_nbr_elems correlated
drop_gone-AllServed seen st [] = tt
drop_gone-AllServed seen st ((rid, iface) ∷ old) = elim (Bool-cases (is_some (lookup rid seen))) [
  | inl e ↦ rw (e) (drop_gone-AllServed seen st old)
  | inr e ↦ rw (e) (
    (tt, (instances_advertised _ _ refl, tt)),
    (refl, drop_gone-AllServed seen (remove rid st) old),
  )
]

pub ospf-AllServed :
    (o : Ospf) (out : Option (Option Neighbors)) → AllServed ospf (Ospf.reconcile o out).1
unfolding Ospf.reconcile reconcile_with
ospf-AllServed o none = tt
ospf-AllServed o (some out) =
    All-append (IsServed ospf) (report [] o.st (parse_ospf_nbrs out)).1 _
      (report-AllServed [] o.st (parse_ospf_nbrs out)) (drop_gone-AllServed _ _ o.seen)

nbr_update-IsServed : (ifn : Bytes) (nb : LldpNbr) → IsServed lldp (nbr_update ifn nb)
unfolding nbr_update lldp_elems
nbr_update-IsServed ifn nb = (
  (
    lldp_advertised _ _ refl,
    (
      lldp_advertised _ _ refl,
      (lldp_advertised _ _ refl, (lldp_advertised _ _ refl, (lldp_advertised _ _ refl, tt))),
    ),
  ),
  tt,
)

report_ifaces-AllServed :
    (seen : Map Bytes Bytes) (cur : Map Bytes LldpNbr) → AllServed lldp (report_ifaces seen cur).1
unfolding report_ifaces
report_ifaces-AllServed seen [] = tt
report_ifaces-AllServed seen ((ifn, nb) ∷ cur) = elim (Bool-cases (bytes_beq nb.chassis_id [])) [
  | inl e ↦ rw (e) (report_ifaces-AllServed seen cur)
  | inr e ↦
      rw (e)
        (nbr_update-IsServed ifn nb, report_ifaces-AllServed (insert ifn nb.chassis_id seen) cur)
]

delete_gone-AllServed :
    (seen : Option Bytes) (ifn id : Bytes) → AllServed lldp (delete_gone seen ifn id)
unfolding delete_gone lldp_elems
delete_gone-AllServed (some seen) ifn id = tt
delete_gone-AllServed none ifn id = ((tt, (lldp_advertised _ _ refl, tt)), tt)

delete_ifaces-AllServed : (seen old : Map Bytes Bytes) → AllServed lldp (delete_ifaces seen old)
unfolding delete_ifaces
delete_ifaces-AllServed seen [] = tt
delete_ifaces-AllServed seen ((ifn, id) ∷ old) =
    All-append (IsServed lldp) (delete_gone (lookup ifn seen) ifn id) _
      (delete_gone-AllServed (lookup ifn seen) ifn id) (delete_ifaces-AllServed seen old)

pub lldp-AllServed :
    (l : Lldp) (out : Option (Option Fields)) → AllServed lldp (Lldp.reconcile l out).1
unfolding Lldp.reconcile
lldp-AllServed l none = tt
lldp-AllServed l (some out) =
    All-append (IsServed lldp) (report_ifaces [] (parse_lldp out)).1 _
      (report_ifaces-AllServed [] (parse_lldp out)) (delete_ifaces-AllServed _ l.seen)

updates_advertised :
    (ups : List Update) → All (λ (u : Update). is_advertised (text "host") u.path.elem ≡ true) ups
updates_advertised [] = tt
updates_advertised (u ∷ ups) = (host_advertised u.path.elem, updates_advertised ups)

host_effects-AllServed : (ups : List Update) → AllServed cgroup (host_effects ups)
host_effects-AllServed [] = tt
host_effects-AllServed (u ∷ ups) = (((host_advertised u.path.elem, updates_advertised ups), tt), tt)

pub cgroup-AllServed : (files : Files) → AllServed cgroup (sample files)
unfolding sample
cgroup-AllServed files = host_effects-AllServed (sample_updates files)
