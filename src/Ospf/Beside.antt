-- ===== src/Ospf/Beside.antt =====
-- The OSPF and the LLDP ingester beside each other on one cache.
use for_visibility.Prelude.{
  ℕ, ◌≡◌, refl, true, inl, inr, Option, none, some, List, [], ◌∷◌, All, All-append, if-cases,
}
use for_visibility.Prelude.Assoc.{Map, lookup, insert, remove}
use for_visibility.Text.{Bytes, text, bytes_beq, bytes_eq}
use for_visibility.Gnmi.{PathElem, Effect}
use for_visibility.Gnmi.Paths.{plain}
use for_visibility.Gnmi.Match.{elems_beq, elem_beq, covers}
use for_visibility.Cache.{GnmiCache, run_effects}
use for_visibility.Cache.Interleaved.{Interleaved, IsSimple, Spares, run_effects-Interleaved}
use for_visibility.Ospf.{
  Ospf, OspfNbr, Neighbors, transition, report_nbr, report, is_some, drop_gone, reconcile_with,
  adj_state, parse_ospf_nbrs, reconcile,
}
use for_visibility.Lldp.{
  Lldp, LldpNbr, lldp_elems, parse_lldp, nbr_update, report_ifaces, delete_gone, delete_ifaces,
}
use for_visibility.Lldp as Lldp
use for_visibility.Lldp.Values.{Fields}

transition-IsSimple :
    (old : Option Bytes) (rid : Bytes) (n : OspfNbr) (st : Bytes)
    → All IsSimple (transition old rid n st)
unfolding transition
transition-IsSimple none rid n st = tt
transition-IsSimple (some old) rid n st =
    if-cases (All IsSimple) (bytes_beq old st) [] _ (λ _. tt) (λ _. (tt, tt))

report-IsSimple :
    (seen st : Map Bytes Bytes) (cur : Map Bytes OspfNbr) → All IsSimple (report seen st cur).1
unfolding report report_nbr
report-IsSimple seen st [] = tt
report-IsSimple seen st ((rid, n) ∷ cur) = (
  inr refl,
  All-append IsSimple (transition (lookup rid st) rid n (adj_state n.state)) _
      (transition-IsSimple (lookup rid st) rid n (adj_state n.state))
      (report-IsSimple (insert rid n.iface seen) (insert rid (adj_state n.state) st) cur),
)

drop_gone-IsSimple : (seen st old : Map Bytes Bytes) → All IsSimple (drop_gone seen st old).1
unfolding drop_gone
drop_gone-IsSimple seen st [] = tt
drop_gone-IsSimple seen st ((rid, iface) ∷ old) =
    if-cases (λ (r : Map Bytes Bytes × List Effect). All IsSimple r.1) (is_some (lookup rid seen)) _
      _ (λ _. drop_gone-IsSimple seen st old)
      (λ _. (inl refl, (tt, drop_gone-IsSimple seen (remove rid st) old)))

reconcile-IsSimple : (o : Ospf) (out : Option (Option Neighbors)) → All IsSimple (reconcile o out).1
unfolding reconcile reconcile_with
reconcile-IsSimple o none = tt
reconcile-IsSimple o (some out) =
    All-append IsSimple (report [] o.st (parse_ospf_nbrs out)).1 _
      (report-IsSimple [] o.st (parse_ospf_nbrs out)) (drop_gone-IsSimple _ _ o.seen)

-- a call of the LLDP ingester leaves what is below network-instances
abbrev Beside : List PathElem → Effect → Type 0
Beside rest e = IsSimple e × Spares (plain (text "network-instances") ∷ rest) e

module _ (rest : List PathElem) where
  report_ifaces-Beside :
      (seen : Map Bytes Bytes) (cur : Map Bytes LldpNbr)
      → All (Beside rest) (report_ifaces seen cur).1
  unfolding report_ifaces nbr_update lldp_elems elems_beq elem_beq covers text bytes_beq
  report_ifaces-Beside seen [] = tt
  report_ifaces-Beside seen ((ifn, nb) ∷ cur) =
      if-cases (λ (r : Map Bytes Bytes × List Effect). All (Beside rest) r.1)
        (bytes_beq nb.chassis_id []) _ _ (λ _. report_ifaces-Beside seen cur)
        (λ _. (
          (inr refl, ((refl, (refl, (refl, (refl, (refl, tt))))), tt)),
          report_ifaces-Beside (insert ifn nb.chassis_id seen) cur,
        ))

  delete_ifaces-Beside : (seen old : Map Bytes Bytes) → All (Beside rest) (delete_ifaces seen old)
  unfolding delete_ifaces delete_gone lldp_elems covers elem_beq text bytes_beq
  delete_ifaces-Beside seen [] = tt
  delete_ifaces-Beside seen ((ifn, id) ∷ old) =
      All-append (Beside rest) (delete_gone (lookup ifn seen) ifn id) (delete_ifaces seen old)
        (gone-Beside (lookup ifn seen)) (delete_ifaces-Beside seen old)
    where
      gone-Beside : (o : Option Bytes) → All (Beside rest) (delete_gone o ifn id)
      gone-Beside none = ((inl refl, (tt, (refl, tt))), tt)
      gone-Beside (some now) = tt

  lldp-Beside :
      (l : Lldp) (out : Option (Option Fields)) → All (Beside rest) (Lldp.reconcile l out).1
  unfolding Lldp.reconcile
  lldp-Beside l none = tt
  lldp-Beside l (some out) =
      All-append (Beside rest) (report_ifaces [] (parse_lldp out)).1 _
        (report_ifaces-Beside [] (parse_lldp out))
        (delete_ifaces-Beside (report_ifaces [] (parse_lldp out)).0 l.seen)

firsts : (rest : List PathElem) (calls : List Effect) → All (Beside rest) calls → All IsSimple calls
firsts rest [] h = tt
firsts rest (e ∷ calls) (b, h) = (b.0, firsts rest calls h)

seconds :
    (rest : List PathElem) (calls : List Effect)
    → All (Beside rest) calls
    → All (Spares (plain (text "network-instances") ∷ rest)) calls
seconds rest [] h = tt
seconds rest (e ∷ calls) (b, h) = (b.1, seconds rest calls h)

-- However the cache updates of an OSPF and of an LLDP snapshot interleave: every leaf below
-- network-instances ends as it would without the LLDP ingester, if the cache accepts the updates.
pub ospf_leaf-Interleaved :
    (g : GnmiCache) (target : Bytes) (clock clock' : ℕ → ℕ) (t : g.Tree) (o : Ospf)
    (out : Option (Option Neighbors)) (l : Lldp) (shown : Option (Option Fields))
    (calls : List Effect) (rest : List PathElem)
    → Interleaved (reconcile o out).1 (Lldp.reconcile l shown).1 calls
    → (run_effects g target clock 0 calls t).1 ≡ true
    → (run_effects g target clock' 0 (reconcile o out).1 t).1 ≡ true
    → g.leaf
        (run_effects g target clock 0 calls t).0
        target
        (text "openconfig")
        (plain (text "network-instances") ∷ rest)
      ≡ g.leaf
          (run_effects g target clock' 0 (reconcile o out).1 t).0
          target
          (text "openconfig")
          (plain (text "network-instances") ∷ rest)
ospf_leaf-Interleaved g target clock clock' t o out l shown calls rest i fine alone =
    run_effects-Interleaved g target (text "openconfig") clock clock' _ t i
      (reconcile-IsSimple o out) (firsts rest _ (lldp-Beside rest l shown))
      (seconds rest _ (lldp-Beside rest l shown)) fine alone
