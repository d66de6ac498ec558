-- ===== src/Pathtrace/Served.antt =====
-- `routeLookup` on the leaves that the FPM ingester of internal/ingest/fpm.go writes: `handleRoute` is
-- the writer and the walk is the reader of the same table.
use for_visibility.Prelude.{
  ℕ, suc, ◌≡◌, ◌≢◌, refl, true, false, none, some, List, [], ◌∷◌, ◌++◌, lt→ltb, Bool-cases, inl,
  inr, subst, arith,
}
use for_visibility.Prelude.Assoc.{Map, lookup, insert}
use for_visibility.Text.{Bytes, text, bytes_beq, bytes_beq_refl, bytes_eq}
use for_visibility.Text.Split.{index_byte}
use for_visibility.Text.Cidr.{Cidr, parse_ip4, parse_cidr, contains}
use for_visibility.Gnmi.{string_val, Update, Effect, cache_update, emit}
use for_visibility.Gnmi.Paths.{aft_path}
use for_visibility.Attr.{labels_csv}
use for_visibility.Fpm.Nexthop.{Resolved, is_nil}
use for_visibility.Fpm.Route.{nexthop_text, route_effects}
use for_visibility.Exporter.{is_empty, dissect, sval}
use for_visibility.Pathtrace.Lookup.{
  Ent, or_new, put_leaf, by_prefix, consider, longest, route_lookup,
}

-- a leaf of an IPv4 route
abbrev pub route_leaf : Bytes → Bytes → Bytes → Bytes → Update
route_leaf vrf prefix leaf v = record {
  path = aft_path vrf (text "ipv4-unicast") prefix leaf;
  val = string_val v;
}

dissect-aft :
    (vrf prefix leaf : Bytes)
    → dissect (aft_path vrf (text "ipv4-unicast") prefix leaf)
      ≡ ((text "name", vrf) ∷ (text "prefix", prefix) ∷ [], leaf)
unfolding dissect aft_path text insert bytes_beq
dissect-aft vrf prefix leaf = refl

pub is_empty-false : (s : Bytes) → s ≢ [] → is_empty s ≡ false
is_empty-false [] ne = absurd (ne refl)
is_empty-false (c ∷ s) ne = refl

module _ (vrf prefix v : Bytes) (m : Map Bytes Ent) (ne : prefix ≢ []) where
  pub put-next_hop :
      put_leaf (route_leaf vrf prefix (text "next-hop") v) m
      ≡ insert prefix (record (or_new (lookup prefix m)) { nh = v; vrf = vrf }) m
  unfolding put_leaf dissect aft_path lookup text sval insert bytes_beq
  put-next_hop = rw (is_empty-false prefix ne) refl

  pub put-labels :
      put_leaf (route_leaf vrf prefix (text "pushed-mpls-label-stack") v) m
      ≡ insert prefix (record (or_new (lookup prefix m)) { lbl = v }) m
  unfolding put_leaf dissect text sval lookup insert bytes_beq
  put-labels =
      rw (dissect-aft vrf prefix (text "pushed-mpls-label-stack"), is_empty-false prefix ne) refl

module _ (prefix : Bytes) (ne : prefix ≢ []) where
  pub by_prefix-next_hop :
      (vrf v : Bytes) (ups : List Update)
      → by_prefix (route_leaf vrf prefix (text "next-hop") v ∷ ups) []
        ≡ by_prefix ups ((prefix, record { vrf = vrf; nh = v; lbl = [] }) ∷ [])
  unfolding by_prefix insert lookup
  by_prefix-next_hop vrf v ups = rw (put-next_hop vrf prefix v [] ne) refl

  pub by_prefix-again :
      (e : Ent) (vrf v : Bytes) (ups : List Update)
      → by_prefix (route_leaf vrf prefix (text "next-hop") v ∷ ups) ((prefix, e) ∷ [])
        ≡ by_prefix ups ((prefix, record e { vrf = vrf; nh = v }) ∷ [])
  unfolding by_prefix insert lookup
  by_prefix-again e vrf v ups =
      rw (put-next_hop vrf prefix v ((prefix, e) ∷ []) ne, bytes_beq_refl prefix) refl

  by_prefix-labels :
      (e : Ent) (vrf v : Bytes) (ups : List Update)
      → by_prefix
          (route_leaf vrf prefix (text "pushed-mpls-label-stack") v ∷ ups)
          ((prefix, e) ∷ [])
        ≡ by_prefix ups ((prefix, record e { lbl = v }) ∷ [])
  unfolding by_prefix insert lookup
  by_prefix-labels e vrf v ups =
      rw (put-labels vrf prefix v ((prefix, e) ∷ []) ne, bytes_beq_refl prefix) refl

module _ (prefix dst : Bytes) (net : Cidr) (di : ℕ) (reads : parse_cidr prefix ≡ some net)
    (addr : parse_ip4 dst ≡ some di) (inside : contains net di ≡ true) where
  pub lookup-one :
      (ups : List Update) (e : Ent)
      → by_prefix ups [] ≡ (prefix, e) ∷ []
      → e.nh ≢ []
      → route_lookup ups dst
        ≡ record { vrf = e.vrf; prefix = prefix; nexthop = e.nh; labels = e.lbl }
  unfolding route_lookup longest consider
  lookup-one ups e one ne =
      rw
        (
          route_lookup,
          addr,
          one,
          is_empty-false e.nh ne,
          reads,
          inside,
          lt→ltb 0 (suc net.ones) (omega arith),
        )
        refl

pub prefix-nonempty : (prefix : Bytes) (net : Cidr) → parse_cidr prefix ≡ some net → prefix ≢ []
unfolding parse_cidr index_byte
prefix-nonempty prefix net reads empty =
    let nothing : none ≡ some net = subst (λ p. parse_cidr p ≡ some net) empty reads in
    ground (arith, nothing)

-- the updates of the cache calls, in order
abbrev pub updates_of : List Effect → List Update
updates_of [] = []
updates_of (cache_update origin ups dels ∷ effects) = ups ++ updates_of effects
updates_of (emit kind key detail label root ∷ effects) = updates_of effects

abbrev pub afts : Bytes
afts = text "ipv4-unicast"

-- what the FPM ingester writes when a route is added
abbrev pub added : Bytes → Bytes → Resolved → List Update
added vrf prefix r = updates_of (route_effects false vrf prefix (text "ipv4-unicast") r)

pub csv-nil : (l : List ℕ) → is_nil l ≡ true → labels_csv l ≡ []
unfolding labels_csv
csv-nil [] e = refl
csv-nil (l ∷ ls) e = absurd (ground arith)

module _ (vrf prefix : Bytes) (r : Resolved) where
  pub added-plain :
      is_nil r.labels ≡ true
      → added vrf prefix r ≡ route_leaf vrf prefix (text "next-hop") (nexthop_text r) ∷ []
  unfolding route_effects
  added-plain e = rw e refl

  pub added-labelled :
      is_nil r.labels ≡ false
      → added vrf prefix r
        ≡ route_leaf vrf prefix (text "next-hop") (nexthop_text r)
          ∷ route_leaf vrf prefix (text "pushed-mpls-label-stack") (labels_csv r.labels)
          ∷ []
  unfolding route_effects
  added-labelled e = rw e refl

  pub added-by_prefix :
      (ups : List Update)
      → prefix ≢ []
      → by_prefix (added vrf prefix r ++ ups) []
        ≡ by_prefix ups
            ((prefix, record { vrf = vrf; nh = nexthop_text r; lbl = labels_csv r.labels }) ∷ [])
  added-by_prefix ups ne = elim (Bool-cases (is_nil r.labels)) [
    | inl e ↦
        rw
          (added-plain e, by_prefix-next_hop prefix ne vrf (nexthop_text r) ups, csv-nil r.labels e)
          refl
    | inr e ↦
        rw
          (
            added-labelled e,
            by_prefix-next_hop prefix ne vrf (nexthop_text r) (
                route_leaf vrf prefix (text "pushed-mpls-label-stack") (labels_csv r.labels) ∷ ups),
            by_prefix-labels prefix ne (record { vrf = vrf; nh = nexthop_text r; lbl = [] }) vrf
                (labels_csv r.labels) ups,
          )
          refl
  ]
