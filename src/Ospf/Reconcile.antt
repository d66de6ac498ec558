-- ===== src/Ospf/Reconcile.antt =====
-- What the OSPF ingester remembers after a snapshot.
use for_visibility.Prelude.{
  ◌≡◌, refl, ap, ◌∙◌, inl, inr, true, false, Option, none, some, [], ◌∷◌, arith, Option-cases,
}
use for_visibility.Prelude.Assoc.{Map, lookup, insert, remove, lookup-insert, lookup-remove}
use for_visibility.Text.{Bytes, bytes_beq_iff, bytes_eq}
use for_visibility.Ospf.{
  Ospf, OspfNbr, adj_state, report, is_some, drop_gone, reconcile, reconcile_with, Neighbors,
  parse_ospf_nbrs,
}

-- No router id stands twice in the snapshot: it is a Go map.
abbrev pub Distinct : Map Bytes OspfNbr → Type 0
Distinct [] = Unit
Distinct ((rid, n) ∷ cur) = (lookup rid cur ≡ none) × Distinct cur

-- The two maps of the ingester have the same keys.
abbrev pub IsSynced : Ospf → Type 0
IsSynced o = (rid : Bytes) → lookup rid o.seen ≡ none → lookup rid o.st ≡ none

abbrev pub iface_of : Option OspfNbr → Option Bytes
iface_of none = none
iface_of (some n) = some n.iface

abbrev pub state_of : Option OspfNbr → Option Bytes
state_of none = none
state_of (some n) = some (adj_state n.state)

-- `a`, or `b` when there is none
abbrev pub or_else : Option Bytes → Option Bytes → Option Bytes
or_else none b = b
or_else (some a) b = some a

or_else-absent : (a : Option Bytes) → or_else a none ≡ a
or_else-absent none = refl
or_else-absent (some a) = refl

module _ (rid : Bytes) where
  report-seen :
      (seen st : Map Bytes Bytes) (cur : Map Bytes OspfNbr)
      → Distinct cur
      → lookup rid (report seen st cur).0.0 ≡ or_else (iface_of (lookup rid cur)) (lookup rid seen)
  unfolding report lookup
  report-seen seen st [] d = refl
  report-seen seen st ((j, n) ∷ cur) (fresh, d) =
      report-seen (insert j n.iface seen) (insert j (adj_state n.state) st) cur d
      ∙ ground (arith, fresh, bytes_beq_iff j rid, lookup-insert rid j n.iface seen)

  report-st :
      (seen st : Map Bytes Bytes) (cur : Map Bytes OspfNbr)
      → Distinct cur
      → lookup rid (report seen st cur).0.1 ≡ or_else (state_of (lookup rid cur)) (lookup rid st)
  unfolding report lookup
  report-st seen st [] d = refl
  report-st seen st ((j, n) ∷ cur) (fresh, d) =
      report-st (insert j n.iface seen) (insert j (adj_state n.state) st) cur d
      ∙ ground (arith, fresh, bytes_beq_iff j rid, lookup-insert rid j (adj_state n.state) st)

  drop_gone-present :
      (seen st old : Map Bytes Bytes)
      → is_some (lookup rid seen) ≡ true
      → lookup rid (drop_gone seen st old).0 ≡ lookup rid st
  unfolding drop_gone
  drop_gone-present seen st [] h = refl
  drop_gone-present seen st ((j, iface) ∷ old) h = ground (
    arith,
    bytes_beq_iff j rid,
    lookup-remove rid j st,
    drop_gone-present seen st old h,
    drop_gone-present seen (remove j st) old h,
  )

  drop_gone-absent :
      (seen st old : Map Bytes Bytes)
      → lookup rid st ≡ none
      → lookup rid (drop_gone seen st old).0 ≡ none
  unfolding drop_gone
  drop_gone-absent seen st [] h = h
  drop_gone-absent seen st ((j, iface) ∷ old) h = ground (
    arith,
    lookup-remove rid j st,
    drop_gone-absent seen st old,
    drop_gone-absent seen (remove j st) old,
  )

  drop_gone-gone :
      (seen st old : Map Bytes Bytes)
      → is_some (lookup rid seen) ≡ false
      → is_some (lookup rid old) ≡ true
      → lookup rid (drop_gone seen st old).0 ≡ none
  unfolding drop_gone lookup
  drop_gone-gone seen st [] gone h = ground arith
  drop_gone-gone seen st ((j, iface) ∷ old) gone h = ground (
    arith,
    bytes_beq_iff j rid,
    lookup-remove rid j st,
    drop_gone-absent seen (remove j st) old,
    drop_gone-gone seen st old gone,
    drop_gone-gone seen (remove j st) old gone,
    ap (λ k. is_some (lookup k seen)) {x = j} {y = rid},
  )

-- what `reconcile_with` leaves of the state of one neighbor
drop_gone-report :
    (rid : Bytes) (o : Ospf) (seen st : Map Bytes Bytes) (now : Option OspfNbr)
    → (lookup rid o.seen ≡ none → lookup rid o.st ≡ none)
    → lookup rid seen ≡ iface_of now
    → lookup rid st ≡ or_else (state_of now) (lookup rid o.st)
    → lookup rid (drop_gone seen st o.seen).0 ≡ state_of now
drop_gone-report rid o seen st none synced here was = elim (Option-cases (lookup rid o.seen)) [
  | inl never ↦ drop_gone-absent rid seen st o.seen (was ∙ synced never)
  | inr (iface, e) ↦ drop_gone-gone rid seen st o.seen (ap is_some here) (ap is_some e)
]
drop_gone-report rid o seen st (some n) synced here was =
    drop_gone-present rid seen st o.seen (ap is_some here) ∙ was

pub report_new-seen :
    (rid : Bytes) (st : Map Bytes Bytes) (cur : Map Bytes OspfNbr)
    → Distinct cur
    → lookup rid (report [] st cur).0.0 ≡ iface_of (lookup rid cur)
report_new-seen rid st cur distinct =
    report-seen rid [] st cur distinct ∙ unfold lookup in or_else-absent (iface_of (lookup rid cur))

both-none :
    {a b : Option Bytes} (now : Option OspfNbr)
    → a ≡ iface_of now
    → b ≡ state_of now
    → a ≡ none
    → b ≡ none
both-none none _ st_none _ = st_none
both-none (some n) seen_some _ seen_none = ground (arith, seen_some, seen_none)

module _ (o : Ospf) (cur : Map Bytes OspfNbr) (rid : Bytes) where
  abbrev pub Remembers : Ospf → Type 0
  Remembers o' =
      (lookup rid o'.seen ≡ iface_of (lookup rid cur))
      × (lookup rid o'.st ≡ state_of (lookup rid cur))
      × (lookup rid o'.seen ≡ none → lookup rid o'.st ≡ none)

  reconcile_with-snapshot :
      (lookup rid o.seen ≡ none → lookup rid o.st ≡ none)
      → Distinct cur
      → Remembers (reconcile_with o cur).0
  unfolding reconcile_with
  reconcile_with-snapshot synced distinct =
      (seen_now, st_now, both-none (lookup rid cur) seen_now st_now)
    where
      seen_now : lookup rid (report [] o.st cur).0.0 ≡ iface_of (lookup rid cur)
      seen_now = report_new-seen rid o.st cur distinct

      st_now :
          lookup rid (drop_gone (report [] o.st cur).0.0 (report [] o.st cur).0.1 o.seen).0
          ≡ state_of (lookup rid cur)
      st_now =
          drop_gone-report rid o _ _ (lookup rid cur) synced seen_now
            (report-st rid [] o.st cur distinct)

-- After a snapshot the ingester remembers exactly the neighbors that the snapshot shows, each with
-- its interface and its adjacency state, whatever it remembered before; and its two maps have the
-- same keys again, as the theorem assumes of them before. The snapshot is a map: no router id twice.
pub reconcile-snapshot :
    (o : Ospf) (out : Option Neighbors)
    → IsSynced o
    → Distinct (parse_ospf_nbrs out)
    → (rid : Bytes)
    → let o' = (reconcile o (some out)).0 in
      (lookup rid o'.seen ≡ iface_of (lookup rid (parse_ospf_nbrs out)))
      × (lookup rid o'.st ≡ state_of (lookup rid (parse_ospf_nbrs out)))
      × (lookup rid o'.seen ≡ none → lookup rid o'.st ≡ none)
unfolding reconcile
reconcile-snapshot o out synced distinct rid =
    reconcile_with-snapshot o (parse_ospf_nbrs out) rid (synced rid) distinct
