-- ===== src/Ospf/Moved.antt =====
-- A neighbor that is seen on another interface than before.
use for_visibility.Prelude.{
  ◌≡◌, sym, ap, ◌∙◌, inl, inr, true, false, ◌&&◌, Option, none, some, List, [], ◌∷◌, ◌++◌, arith,
  All, Bool-cases,
}
use for_visibility.Prelude.Assoc.{Map, lookup, insert, remove}
use for_visibility.Text.{Bytes, text, bytes_beq, bytes_beq_iff, bytes_beq_refl, bytes_eq}
use for_visibility.Gnmi.{PathElem, Effect, cache_update, emit}
use for_visibility.Gnmi.Paths.{plain, keyed, keyed2, state_leaf, ospf_nbr_elems}
use for_visibility.Gnmi.Match.{
  elems_beq, elem_beq, key_beq, elems_beq-append, covers, covers-append,
}
use for_visibility.Ospf.{
  Ospf, OspfNbr, adj_state, transition, report, report_nbr, is_some, drop_gone, reconcile,
  reconcile_with, Neighbors, parse_ospf_nbrs,
}
use for_visibility.Ospf.Reconcile.{Distinct, iface_of, report_new-seen}

-- No call writes the leaf `p`, and none deletes a subtree that has it.
abbrev pub Untouched : List PathElem → List Effect → Type 0
Untouched p [] = Unit
Untouched p (cache_update origin ups dels ∷ effects) =
    All (λ u. elems_beq u.path.elem p ≡ false) ups
    × All (λ d. covers d.elem p ≡ false) dels
    × Untouched p effects
Untouched p (emit bus kind key detail root ∷ effects) = Untouched p effects

Untouched-append :
    (p : List PathElem) (xs ys : List Effect)
    → Untouched p xs
    → Untouched p ys
    → Untouched p (xs ++ ys)
Untouched-append p [] ys hx hy = hy
Untouched-append p (cache_update origin ups dels ∷ xs) ys (hu, hd, hx) hy =
    (hu, hd, Untouched-append p xs ys hx hy)
Untouched-append p (emit bus kind key detail root ∷ xs) ys hx hy = Untouched-append p xs ys hx hy

-- the elements that the paths of all neighbors have in common
abbrev nbr_base : List PathElem
nbr_base =
    plain (text "network-instances")
    ∷ keyed (text "network-instance") (text "name") (text "default")
    ∷ plain (text "protocols")
    ∷ keyed2 (text "protocol") (text "identifier") (text "OSPF") (text "name") (text "ospf")
    ∷ plain (text "ospfv2")
    ∷ plain (text "areas")
    ∷ keyed (text "area") (text "identifier") (text "0.0.0.0")
    ∷ plain (text "interfaces")
    ∷ []

abbrev nbr_end : Bytes → Bytes → Bytes → List PathElem
nbr_end iface rid leaf =
    keyed (text "interface") (text "id") iface
    ∷ plain (text "neighbors")
    ∷ keyed (text "neighbor") (text "router-id") rid
    ∷ state_leaf leaf

module _ (i j r s l m : Bytes) (differ : bytes_beq i j && bytes_beq r s ≡ false) where
  ends_differ : elems_beq (nbr_end i r l) (nbr_end j s m) ≡ false
  unfolding elems_beq elem_beq key_beq
  ends_differ = ground arith

  ends_uncovered : covers (nbr_end i r l) (nbr_end j s m) ≡ false
  unfolding covers elem_beq key_beq
  ends_uncovered = ground arith

  nbr-elems_beq : elems_beq (ospf_nbr_elems i r l) (ospf_nbr_elems j s m) ≡ false
  unfolding ospf_nbr_elems
  nbr-elems_beq = elems_beq-append nbr_base (nbr_end i r l) (nbr_end j s m) ∙ ends_differ

  nbr-covers : covers (ospf_nbr_elems i r l) (ospf_nbr_elems j s m) ≡ false
  unfolding ospf_nbr_elems
  nbr-covers = covers-append nbr_base (nbr_end i r l) (nbr_end j s m) ∙ ends_uncovered

-- No neighbor of the snapshot has this router id on this interface.
abbrev Elsewhere : Bytes → Bytes → Map Bytes OspfNbr → Type 0
Elsewhere rid a cur =
    (j : Bytes) (n : OspfNbr)
    → lookup j cur ≡ some n
    → bytes_beq n.iface a && bytes_beq j rid ≡ false

module _ (rid a leaf : Bytes) where
  abbrev Kept : List Effect → Type 0
  Kept = Untouched (ospf_nbr_elems a rid leaf)

  transition-Kept :
      (old : Option Bytes) (j : Bytes) (n : OspfNbr) (st : Bytes) → Kept (transition old j n st)
  unfolding transition
  transition-Kept none j n st = tt
  transition-Kept (some old) j n st = elim (Bool-cases (bytes_beq old st)) [
    | inl same ↦ rw same tt
    | inr other ↦ rw other tt
  ]

  report_nbr-Kept :
      (st : Map Bytes Bytes) (j : Bytes) (n : OspfNbr)
      → bytes_beq n.iface a && bytes_beq j rid ≡ false
      → Kept (report_nbr st j n)
  unfolding report_nbr
  report_nbr-Kept st j n differ = (
    (
      nbr-elems_beq n.iface a j rid _ leaf differ,
      (nbr-elems_beq n.iface a j rid _ leaf differ, tt),
    ),
    tt,
    transition-Kept (lookup j st) j n (adj_state n.state),
  )

  Elsewhere-tail :
      (j : Bytes) (n : OspfNbr) (cur : Map Bytes OspfNbr)
      → lookup j cur ≡ none
      → Elsewhere rid a ((j, n) ∷ cur)
      → Elsewhere rid a cur
  Elsewhere-tail j n cur fresh h k m e = elim (Bool-cases (bytes_beq j k)) [
    | inl same ↦ absurd (none≢some (sym fresh ∙ rw ((bytes_beq_iff j k).0 same) e))
    | inr other ↦ h k m (unfold lookup in rw other e)
  ]
    where
      none≢some : none ≡ some m → ⊥
      none≢some p = ground arith

  report-Kept :
      (seen st : Map Bytes Bytes) (cur : Map Bytes OspfNbr)
      → Distinct cur
      → Elsewhere rid a cur
      → Kept (report seen st cur).1
  unfolding report
  report-Kept seen st [] d h = tt
  report-Kept seen st ((j, n) ∷ cur) (fresh, d) h =
      Untouched-append (ospf_nbr_elems a rid leaf) (report_nbr st j n) _
        (report_nbr-Kept st j n (h j n (unfold lookup in rw (bytes_beq_refl j))))
        (report-Kept (insert j n.iface seen) (insert j (adj_state n.state) st) cur d
          (Elsewhere-tail j n cur fresh h))

  drop_gone-Kept :
      (seen st old : Map Bytes Bytes)
      → is_some (lookup rid seen) ≡ true
      → Kept (drop_gone seen st old).1
  unfolding drop_gone
  drop_gone-Kept seen st [] here = tt
  drop_gone-Kept seen st ((j, iface) ∷ old) here = elim (Bool-cases (is_some (lookup j seen))) [
    | inl stays ↦ rw stays (drop_gone-Kept seen st old here)
    | inr gone ↦ rw gone (
      tt,
      (nbr-covers iface a j rid [] leaf (other gone), tt),
      drop_gone-Kept seen (remove j st) old here,
    )
  ]
    where
      other : is_some (lookup j seen) ≡ false → bytes_beq iface a && bytes_beq j rid ≡ false
      other gone = elim (Bool-cases (bytes_beq j rid)) [
        | inl same ↦ absurd (clash (sym gone ∙ rw ((bytes_beq_iff j rid).0 same) here))
        | inr apart ↦ ground arith
      ]
        where
          clash : false ≡ true → ⊥
          clash p = ground arith

moved-Elsewhere :
    (rid a : Bytes) (n : OspfNbr) (cur : Map Bytes OspfNbr)
    → lookup rid cur ≡ some n
    → bytes_beq n.iface a ≡ false
    → Elsewhere rid a cur
moved-Elsewhere rid a n cur now moved j m e = elim (Bool-cases (bytes_beq j rid)) [
  | inl same ↦ same_neighbor (sym e ∙ rw ((bytes_beq_iff j rid).0 same) now)
  | inr other ↦ ground arith
]
  where
    same_neighbor : some m ≡ some n → bytes_beq m.iface a && bytes_beq j rid ≡ false
    same_neighbor p = ground arith

-- When a snapshot shows a neighbor on one interface, the entry that it may have on another one stays:
-- none of the calls of `reconcile` writes a leaf of that entry or deletes it, also when it was made
-- by the snapshot before, and the ingester remembers the new interface only. The snapshot has no
-- router id twice.
pub reconcile-moved :
    (o : Ospf) (out : Option Neighbors) (rid a leaf : Bytes) (n : OspfNbr)
    → Distinct (parse_ospf_nbrs out)
    → lookup rid (parse_ospf_nbrs out) ≡ some n
    → bytes_beq n.iface a ≡ false
    → Untouched (ospf_nbr_elems a rid leaf) (reconcile o (some out)).1
      × (lookup rid (reconcile o (some out)).0.seen ≡ some n.iface)
unfolding reconcile reconcile_with
reconcile-moved o out rid a leaf n distinct now moved = (
  Untouched-append (ospf_nbr_elems a rid leaf) (report [] o.st (parse_ospf_nbrs out)).1 _
      (report-Kept rid a leaf [] o.st (parse_ospf_nbrs out) distinct
        (moved-Elsewhere rid a n (parse_ospf_nbrs out) now moved))
      (drop_gone-Kept rid a leaf (report [] o.st (parse_ospf_nbrs out)).0.0 _ o.seen
        (ap is_some seen_now)),
  seen_now,
)
  where
    seen_now : lookup rid (report [] o.st (parse_ospf_nbrs out)).0.0 ≡ some n.iface
    seen_now = report_new-seen rid o.st (parse_ospf_nbrs out) distinct ∙ ap iface_of now
