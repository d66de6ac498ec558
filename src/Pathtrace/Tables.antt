-- ===== src/Pathtrace/Tables.antt =====
-- What the walk finds in a table of routes that the FPM ingester wrote.
pub mod Chosen
use for_visibility.Prelude.{
  ◌≡◌, ◌≢◌, inl, inr, refl, sym, ap, ◌∙◌, false, none, some, List, [], ◌∷◌, ◌++◌, append_assoc,
  append-nil, map, All, Bool-cases, arith,
}
use for_visibility.Prelude.Assoc.{Map, lookup, insert}
use for_visibility.Text.{Bytes, text, bytes_beq, bytes_beq_refl, bytes_eq}
use for_visibility.Gnmi.{Update}
use for_visibility.Attr.{labels_csv}
use for_visibility.Fpm.Nexthop.{Resolved, is_nil}
use for_visibility.Fpm.Route.{nexthop_text}
use for_visibility.Pathtrace.Lookup.{Ent, or_new, put_leaf, by_prefix}
use for_visibility.Pathtrace.Served.{
  route_leaf, added, added-plain, added-labelled, csv-nil, put-next_hop, put-labels,
  prefix-nonempty,
}
use for_visibility.Pathtrace.Written.{Net, IsNet, net_text, net_cidr, parse_cidr-net}

-- An IPv4 route: its VRF, its network, and the nexthop as the ingester resolved it.
pub record Route : Type 0 where
  pub vrf : Bytes
  pub net : Net
  pub nexthop : Resolved

-- what the FPM ingester writes of the routes, in the order in which it learns them
abbrev pub table : List Route → List Update
table [] = []
table (x ∷ rs) = added x.vrf (net_text x.net) x.nexthop ++ table rs

-- The text of the next hop is not empty.
abbrev pub IsRoute : Route → Type 0
IsRoute x = IsNet x.net × (nexthop_text x.nexthop ≢ [])

-- No two routes have the same prefix.
abbrev pub Distinct : List Route → Type 0
Distinct [] = Unit
Distinct (x ∷ rs) = All (λ y. bytes_beq (net_text x.net) (net_text y.net) ≡ false) rs × Distinct rs

abbrev pub ent : Route → Ent
ent x = record { vrf = x.vrf; nh = nexthop_text x.nexthop; lbl = labels_csv x.nexthop.labels }

abbrev pub entry : Route → Bytes × Ent
entry x = (net_text x.net, ent x)

-- A new key comes at the end.
module _ (k : Bytes) where
  insert-fresh : (v : Ent) (m : Map Bytes Ent) → lookup k m ≡ none → insert k v m ≡ m ++ (k, v) ∷ []
  unfolding lookup insert
  insert-fresh v [] h = refl
  insert-fresh v ((j, w) ∷ m) h = elim (Bool-cases (bytes_beq j k)) [
    | inl same ↦ absurd (ground (arith, h, same))
    | inr other ↦ rw (other) (ap (λ t. (j, w) ∷ t) (insert-fresh v m (rw other at h)))
  ]

  insert-last :
      (v w : Ent) (m : Map Bytes Ent)
      → lookup k m ≡ none
      → insert k v (m ++ (k, w) ∷ []) ≡ m ++ (k, v) ∷ []
  unfolding lookup insert
  insert-last v w [] h = rw (bytes_beq_refl k) refl
  insert-last v w ((j, u) ∷ m) h = elim (Bool-cases (bytes_beq j k)) [
    | inl same ↦ absurd (ground (arith, h, same))
    | inr other ↦ rw (other) (ap (λ t. (j, u) ∷ t) (insert-last v w m (rw other at h)))
  ]

  lookup-last :
      (w : Ent) (m : Map Bytes Ent) → lookup k m ≡ none → lookup k (m ++ (k, w) ∷ []) ≡ some w
  unfolding lookup
  lookup-last w [] h = rw (bytes_beq_refl k) refl
  lookup-last w ((j, u) ∷ m) h = elim (Bool-cases (bytes_beq j k)) [
    | inl same ↦ absurd (ground (arith, h, same))
    | inr other ↦ rw other (lookup-last w m (rw other at h))
  ]

  lookup-others :
      (j : Bytes) (w : Ent) (m : Map Bytes Ent)
      → bytes_beq j k ≡ false
      → lookup k m ≡ none
      → lookup k (m ++ (j, w) ∷ []) ≡ none
  unfolding lookup
  lookup-others j w [] ne h = rw ne refl
  lookup-others j w ((i, u) ∷ m) ne h = elim (Bool-cases (bytes_beq i k)) [
    | inl same ↦ absurd (ground (arith, h, same))
    | inr other ↦ rw other (lookup-others j w m ne (rw other at h))
  ]

by_prefix-put :
    (u : Update) (ups : List Update) (m m' : Map Bytes Ent)
    → put_leaf u m ≡ m'
    → by_prefix (u ∷ ups) m ≡ by_prefix ups m'
unfolding by_prefix
by_prefix-put u ups m m' e = ap (by_prefix ups) e

-- The entry of a route with a new prefix comes at the end.
by_prefix-fresh :
    (x : Route) (ups : List Update) (m : Map Bytes Ent)
    → net_text x.net ≢ []
    → lookup (net_text x.net) m ≡ none
    → by_prefix (added x.vrf (net_text x.net) x.nexthop ++ ups) m
      ≡ by_prefix ups (m ++ entry x ∷ [])
by_prefix-fresh x ups m ne fresh = elim (Bool-cases (is_nil x.nexthop.labels)) [
  | inl e ↦
      ap (λ a. by_prefix (a ++ ups) m) (added-plain x.vrf p x.nexthop e)
      ∙ first ups
      ∙ ap (λ csv. by_prefix ups (m ++ (p, record { vrf = x.vrf; nh = nh; lbl = csv }) ∷ []))
          (sym (csv-nil x.nexthop.labels e))
  | inr e ↦
      ap (λ a. by_prefix (a ++ ups) m) (added-labelled x.vrf p x.nexthop e)
      ∙ first (route_leaf x.vrf p (text "pushed-mpls-label-stack") csv ∷ ups)
      ∙ by_prefix-put _ ups _ _ (
          put-labels x.vrf p csv (m ++ (p, bare) ∷ []) ne
          ∙ ap (λ o. insert p (record (or_new o) { lbl = csv }) (m ++ (p, bare) ∷ []))
              (lookup-last p bare m fresh)
          ∙ insert-last p (ent x) bare m fresh)
]
  where
    p : Bytes
    p = net_text x.net

    nh : Bytes
    nh = nexthop_text x.nexthop

    csv : Bytes
    csv = labels_csv x.nexthop.labels

    bare : Ent
    bare = record { vrf = x.vrf; nh = nh; lbl = [] }

    first :
        (rest : List Update)
        → by_prefix (route_leaf x.vrf p (text "next-hop") nh ∷ rest) m
          ≡ by_prefix rest (m ++ (p, bare) ∷ [])
    first rest = by_prefix-put _ rest _ _ (
        put-next_hop x.vrf p nh m ne
        ∙ ap (λ o. insert p (record (or_new o) { nh = nh; vrf = x.vrf }) m) fresh
        ∙ insert-fresh p bare m fresh)

pub by_prefix-table :
    (rs : List Route) (m : Map Bytes Ent)
    → All IsRoute rs
    → Distinct rs
    → All (λ x. lookup (net_text x.net) m ≡ none) rs
    → by_prefix (table rs) m ≡ m ++ map entry rs
by_prefix-table [] m h d fresh = unfold by_prefix in sym (append-nil m)
by_prefix-table (x ∷ rs) m ((net, ne), h) (d, ds) (f, fs) =
    by_prefix-fresh x (table rs) m
      (prefix-nonempty (net_text x.net) (net_cidr x.net) (parse_cidr-net x.net net)) f
    ∙ by_prefix-table rs (m ++ entry x ∷ []) h ds (others rs d fs)
    ∙ append_assoc m (entry x ∷ []) (map entry rs)
  where
    others :
        (ys : List Route)
        → All (λ y. bytes_beq (net_text x.net) (net_text y.net) ≡ false) ys
        → All (λ y. lookup (net_text y.net) m ≡ none) ys
        → All (λ y. lookup (net_text y.net) (m ++ entry x ∷ []) ≡ none) ys
    others [] hd hf = tt
    others (y ∷ ys) (e, hd) (g, hf) =
        (lookup-others (net_text y.net) (net_text x.net) (ent x) m e g, others ys hd hf)
