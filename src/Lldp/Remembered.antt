-- ===== src/Lldp/Remembered.antt =====
-- What the LLDP ingester remembers after a snapshot, and what it deletes.
use for_visibility.Prelude.{
  ◌≡◌, refl, ◌∙◌, Option, none, some, List, [], ◌∷◌, ◌++◌, if◌then◌else◌, arith, inl, inr, ◌⊎◌, All,
  if-cases, Option-cases,
}
use for_visibility.Prelude.Assoc.{Map, lookup, insert, lookup-insert}
use for_visibility.Text.{Bytes, text, bytes_beq, bytes_eq, bytes_beq_iff}
use mathlib.Core.List.{Memᴰ}
use mathlib.Core.List.Memᴰ
use for_visibility.Gnmi.{Effect, cache_update, elems_path}
use for_visibility.Lldp.Values.{
  Json, str, arr, obj, other, Items, no_items, item, Fields, no_fields, field, as_map, first_obj,
  as_str, get,
}
use for_visibility.Lldp.{
  Lldp, LldpNbr, lldp_elems, parse_iface, put_ifaces, put_item, put_items, parse_ifaces, parse_lldp,
  report_ifaces, delete_gone, delete_ifaces, reconcile,
}

-- No interface stands twice in the answer.
abbrev pub Distinct : Map Bytes LldpNbr → Type 0
Distinct [] = Unit
Distinct ((ifn, nb) ∷ cur) = (lookup ifn cur ≡ none) × Distinct cur

Distinct-insert :
    (ifn : Bytes) (nb : LldpNbr) (cur : Map Bytes LldpNbr)
    → Distinct cur
    → Distinct (insert ifn nb cur)
unfolding insert lookup
Distinct-insert ifn nb [] h = (refl, tt)
Distinct-insert ifn nb ((j, v) ∷ cur) (fresh, h) =
    if-cases Distinct (bytes_beq j ifn) ((ifn, nb) ∷ cur) ((j, v) ∷ insert ifn nb cur)
      (λ same. (ground (arith, fresh, bytes_beq_iff j ifn), h))
      (λ other. (
        ground (arith, fresh, bytes_beq_iff ifn j, bytes_beq_iff j ifn, lookup-insert j ifn nb cur),
        Distinct-insert ifn nb cur h,
      ))

-- the chassis that is remembered of an interface: an empty id is passed over
abbrev pub chassis_of : Option LldpNbr → Option Bytes
chassis_of none = none
chassis_of (some nb) = if bytes_beq nb.chassis_id [] then none else some nb.chassis_id

abbrev or_else : Option Bytes → Option Bytes → Option Bytes
or_else none b = b
or_else (some a) b = some a

or_else-absent : (a : Option Bytes) → or_else a none ≡ a
or_else-absent none = refl
or_else-absent (some a) = refl

report_ifaces-seen :
    (ifn : Bytes) (seen : Map Bytes Bytes) (cur : Map Bytes LldpNbr)
    → Distinct cur
    → lookup ifn (report_ifaces seen cur).0
      ≡ or_else (chassis_of (lookup ifn cur)) (lookup ifn seen)
unfolding report_ifaces lookup
report_ifaces-seen ifn seen [] d = refl
report_ifaces-seen ifn seen ((j, nb) ∷ cur) (fresh, d) = ground (
  arith,
  fresh,
  bytes_beq_iff j ifn,
  lookup-insert ifn j nb.chassis_id seen,
  report_ifaces-seen ifn seen cur d,
  report_ifaces-seen ifn (insert j nb.chassis_id seen) cur d,
)

put_ifaces-Distinct :
    (res : Map Bytes LldpNbr) (m : Fields) → Distinct res → Distinct (put_ifaces res m)
unfolding put_ifaces
put_ifaces-Distinct res no_fields h = h
put_ifaces-Distinct res (field name v m) h =
    put_ifaces-Distinct (insert name (parse_iface name (as_map v)) res) m
      (Distinct-insert name (parse_iface name (as_map v)) res h)

put_item-Distinct :
    (res : Map Bytes LldpNbr) (m : Option Fields) → Distinct res → Distinct (put_item res m)
unfolding put_item
put_item-Distinct res none h = h
put_item-Distinct res (some m) h =
    if-cases Distinct (bytes_beq (as_str (get (text "name") m)) []) _ _
      (λ _. put_ifaces-Distinct res m h)
      (λ _. Distinct-insert (as_str (get (text "name") m)) _ res h)

put_items-Distinct :
    (res : Map Bytes LldpNbr) (js : Items) → Distinct res → Distinct (put_items res js)
unfolding put_items
put_items-Distinct res no_items h = h
put_items-Distinct res (item j js) h =
    put_items-Distinct (put_item res (as_map j)) js (put_item-Distinct res (as_map j) h)

parse_ifaces-Distinct : (j : Json) → Distinct (parse_ifaces j)
unfolding parse_ifaces
parse_ifaces-Distinct (obj m) = put_ifaces-Distinct [] m tt
parse_ifaces-Distinct (arr js) = put_items-Distinct [] js tt
parse_ifaces-Distinct (str s) = tt
parse_ifaces-Distinct other = tt

parse_lldp-Distinct : (out : Option Fields) → Distinct (parse_lldp out)
unfolding parse_lldp
parse_lldp-Distinct none = tt
parse_lldp-Distinct (some root) = elim (Option-cases (first_obj (get (text "lldp") root))) [
  | inl absent ↦ rw (Distinct, absent) tt
  | inr (lldp, there) ↦ rw (Distinct, there) (parse_ifaces-Distinct (get (text "interface") lldp))
]

-- Of a neighbor that was remembered, its entry is deleted or its interface is still remembered.
abbrev pub Handled : List Effect → Map Bytes Bytes → Bytes × Bytes → Type 0
Handled calls seen (ifn, id) =
    Memᴰ (cache_update (text "openconfig") [] (elems_path (lldp_elems ifn id []) ∷ [])) calls
    ⊎ ((now : Bytes) × (lookup ifn seen ≡ some now))

Handled-later :
    (before calls : List Effect) (seen old : Map Bytes Bytes)
    → All (Handled calls seen) old
    → All (Handled (before ++ calls) seen) old
Handled-later before calls seen [] h = tt
Handled-later before calls seen ((ifn, id) ∷ old) (inl m, h) =
    (inl (Memᴰ.append_right before m), Handled-later before calls seen old h)
Handled-later before calls seen ((ifn, id) ∷ old) (inr now, h) =
    (inr now, Handled-later before calls seen old h)

delete_ifaces-Handled :
    (seen old : Map Bytes Bytes) → All (Handled (delete_ifaces seen old) seen) old
unfolding delete_ifaces delete_gone
delete_ifaces-Handled seen [] = tt
delete_ifaces-Handled seen ((ifn, id) ∷ old) = (
  elim (Option-cases (lookup ifn seen)) [
    | inl gone ↦ inl (rw (gone) (Memᴰ.head refl))
    | inr now ↦ inr now
  ],
  Handled-later (delete_gone (lookup ifn seen) ifn id) (delete_ifaces seen old) seen old
      (delete_ifaces-Handled seen old),
)

-- After a snapshot that lldpcli answers the ingester remembers of each interface the chassis id that
-- the answer shows there, and nothing of an interface without a neighbor or with an empty id. Of
-- every neighbor that it remembered before, the entry in the cache is deleted unless the interface
-- still has one.
pub reconcile-seen :
    (l : Lldp) (out : Option Fields)
    → ((ifn : Bytes)
        → lookup ifn (reconcile l (some out)).0.seen ≡ chassis_of (lookup ifn (parse_lldp out)))
      × All (Handled (reconcile l (some out)).1 (reconcile l (some out)).0.seen) l.seen
unfolding reconcile
reconcile-seen l out = (
  λ ifn.
      report_ifaces-seen ifn [] (parse_lldp out) (parse_lldp-Distinct out)
      ∙ unfold lookup in or_else-absent (chassis_of (lookup ifn (parse_lldp out))),
  Handled-later (report_ifaces [] (parse_lldp out)).1
      (delete_ifaces (report_ifaces [] (parse_lldp out)).0 l.seen)
      (report_ifaces [] (parse_lldp out)).0 l.seen
      (delete_ifaces-Handled (report_ifaces [] (parse_lldp out)).0 l.seen),
)
