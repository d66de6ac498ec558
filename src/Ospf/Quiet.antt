-- ===== src/Ospf/Quiet.antt =====
-- Which events the OSPF ingester raises.
use for_visibility.Prelude.{
  ◌≡◌, refl, sym, ap, ◌∙◌, inl, inr, true, Option, none, some, List, [], ◌∷◌, ◌++◌, arith,
  Bool-cases,
}
use for_visibility.Prelude.Assoc.{Map, lookup, insert, lookup-insert}
use for_visibility.Text.{Bytes, bytes_beq, bytes_beq_iff, bytes_beq_refl, bytes_eq}
use for_visibility.Gnmi.{Effect, cache_update, emit}
use for_visibility.Ospf.{
  Ospf, OspfNbr, adj_state, report, report_nbr, is_some, drop_gone, reconcile, reconcile_with,
  Neighbors, parse_ospf_nbrs, transition,
}
use for_visibility.Ospf.Reconcile.{
  Distinct, IsSynced, state_of, report_new-seen, Remembers, reconcile-snapshot,
}

-- No event for the correlator is among the calls.
abbrev pub IsQuiet : List Effect → Type 0
IsQuiet [] = Unit
IsQuiet (cache_update origin ups dels ∷ effects) = IsQuiet effects
IsQuiet (emit bus kind key detail root ∷ effects) = ⊥

IsQuiet-append : (xs ys : List Effect) → IsQuiet xs → IsQuiet ys → IsQuiet (xs ++ ys)
IsQuiet-append [] ys ha hb = hb
IsQuiet-append (cache_update origin ups dels ∷ xs) ys ha hb = IsQuiet-append xs ys ha hb
IsQuiet-append (emit bus kind key detail root ∷ xs) ys ha hb = ha

-- The state of each neighbor of the snapshot is the one that is remembered.
abbrev Agrees : Map Bytes Bytes → Map Bytes OspfNbr → Type 0
Agrees st cur =
    (rid : Bytes) (n : OspfNbr) → lookup rid cur ≡ some n → lookup rid st ≡ some (adj_state n.state)

report_nbr-IsQuiet :
    (st : Map Bytes Bytes) (j : Bytes) (n : OspfNbr)
    → lookup j st ≡ some (adj_state n.state)
    → IsQuiet (report_nbr st j n)
unfolding report_nbr transition
report_nbr-IsQuiet st j n e = rw (e, bytes_beq_refl (adj_state n.state)) tt

Agrees-tail :
    (j : Bytes) (n : OspfNbr) (st : Map Bytes Bytes) (cur : Map Bytes OspfNbr)
    → lookup j cur ≡ none
    → Agrees st ((j, n) ∷ cur)
    → Agrees (insert j (adj_state n.state) st) cur
Agrees-tail j n st cur fresh h rid m e = elim (Bool-cases (bytes_beq j rid)) [
  | inl same ↦ absurd (none≢some {k = m} (sym fresh ∙ rw ((bytes_beq_iff j rid).0 same) e))
  | inr other ↦
      rw (lookup-insert rid j (adj_state n.state) st, other) (h rid m (unfold lookup in rw other e))
]
  where
    none≢some : {k : OspfNbr} → none ≡ some k → ⊥
    none≢some p = ground arith

report-IsQuiet :
    (seen st : Map Bytes Bytes) (cur : Map Bytes OspfNbr)
    → Distinct cur
    → Agrees st cur
    → IsQuiet (report seen st cur).1
unfolding report
report-IsQuiet seen st [] d h = tt
report-IsQuiet seen st ((j, n) ∷ cur) (fresh, d) h =
    IsQuiet-append (report_nbr st j n) _
      (report_nbr-IsQuiet st j n (h j n (unfold lookup in rw (bytes_beq_refl j))))
      (report-IsQuiet (insert j n.iface seen) (insert j (adj_state n.state) st) cur d
        (Agrees-tail j n st cur fresh h))

-- Every neighbor remembered is in the snapshot.
abbrev Covers : Map Bytes Bytes → Map Bytes Bytes → Type 0
Covers seen old = (rid : Bytes) → is_some (lookup rid old) ≡ true → is_some (lookup rid seen) ≡ true

drop_gone-IsQuiet :
    (seen st old : Map Bytes Bytes) → Covers seen old → IsQuiet (drop_gone seen st old).1
unfolding drop_gone
drop_gone-IsQuiet seen st [] h = tt
drop_gone-IsQuiet seen st ((j, iface) ∷ old) h =
    rw (h j (unfold lookup in rw (bytes_beq_refl j) refl))
      (drop_gone-IsQuiet seen st old (λ rid e. h rid (later rid e)))
  where
    later :
        (rid : Bytes)
        → is_some (lookup rid old) ≡ true
        → is_some (lookup rid ((j, iface) ∷ old)) ≡ true
    later rid e = unfold lookup in ground arith

reconcile_with-IsQuiet :
    (o : Ospf) (cur : Map Bytes OspfNbr)
    → Distinct cur
    → ((rid : Bytes) → Remembers o cur rid o)
    → IsQuiet (reconcile_with o cur).1
unfolding reconcile_with
reconcile_with-IsQuiet o cur distinct known =
    IsQuiet-append (report [] o.st cur).1 _
      (report-IsQuiet [] o.st cur distinct (λ rid n e. (known rid).1 ∙ ap state_of e))
      (drop_gone-IsQuiet (report [] o.st cur).0.0 (report [] o.st cur).0.1 o.seen
        (λ rid e. rw (report_new-seen rid o.st cur distinct) (ap is_some (sym (known rid).0) ∙ e)))

-- A second look at an unchanged snapshot raises no event: once the ingester has taken a snapshot
-- in, taking in the same one again makes only cache updates, however often syslog triggers it.
-- Its maps have the same keys before, and the snapshot has no router id twice.
pub reconcile-IsQuiet :
    (o : Ospf) (out : Option Neighbors)
    → IsSynced o
    → Distinct (parse_ospf_nbrs out)
    → IsQuiet (reconcile (reconcile o (some out)).0 (some out)).1
reconcile-IsQuiet o out synced distinct =
    unfold reconcile in
    reconcile_with-IsQuiet (reconcile o (some out)).0 (parse_ospf_nbrs out) distinct
      (reconcile-snapshot o out synced distinct)
