-- ===== src/Pathtrace/Tables/Chosen.antt =====
-- Which route of a table the walk takes.
use for_visibility.Prelude.{
  ℕ, suc, ◌≤◌, ◌<◌, ◌≡◌, ◌⊎◌, inl, inr, refl, ap, ◌∙◌, subst, none, some, List, [], ◌∷◌, ◌++◌, map,
  All, Bool-cases, arith, ==_iff,
}
use for_visibility.Prelude.Assoc.{Map, lookup}
use for_visibility.Text.{Bytes, bytes_eq}
use for_visibility.Text.Cidr.{parse_ip4, contains}
use for_visibility.Attr.{labels_csv}
use for_visibility.Fpm.Route.{nexthop_text}
use for_visibility.Pathtrace.Lookup.{Ent, Found, route_lookup}
use for_visibility.Pathtrace.Longest.{score, found_of, IsLongest, route_lookup-IsLongest}
use for_visibility.Pathtrace.Served.{is_empty-false}
use for_visibility.Pathtrace.Written.{net_text, net_cidr, InNet, parse_cidr-net}
use for_visibility.Pathtrace.Tables.{Route, IsRoute, Distinct, table, entry, by_prefix-table}

module _ (di : ℕ) where
  -- A route for another network, or for a wider one.
  abbrev pub Wider : Route → Route → Type 0
  Wider x y = InNet y.net di → y.net.len < x.net.len

  score-inside : (x : Route) → IsRoute x → InNet x.net di → score di (entry x) ≡ suc x.net.len
  score-inside x (net, ne) inside =
      unfold score in
      rw
        (
          is_empty-false (nexthop_text x.nexthop) ne,
          parse_cidr-net x.net net,
          (==_iff _ _).1 inside,
        )
        refl

  score-lt : (x y : Route) → IsRoute y → Wider x y → score di (entry y) < suc x.net.len
  score-lt x y h wider = elim (Bool-cases (contains (net_cidr y.net) di)) [
    | inl inside ↦
        let here : InNet y.net di = (==_iff _ _).0 inside in
        rw (score-inside y h here) (omega (arith, wider here))
    | inr outside ↦
        unfold score in
        rw (is_empty-false (nexthop_text y.nexthop) h.1, parse_cidr-net y.net h.0, outside)
          (omega arith)
  ]

  -- A route is the one of `x`, or its entry scores less.
  abbrev Below : Route → Bytes × Ent → Type 0
  Below x e = (e ≡ entry x) ⊎ (score di e < suc x.net.len)

  All-Below :
      (x : Route) (ys : List Route)
      → All IsRoute ys
      → All (Wider x) ys
      → All (Below x) (map entry ys)
  All-Below x [] h w = tt
  All-Below x (y ∷ ys) (hy, h) (wy, w) = (inr (score-lt x y hy wy), All-Below x ys h w)

  table-Below :
      (x : Route) (front back : List Route)
      → All IsRoute (front ++ x ∷ back)
      → All (Wider x) front
      → All (Wider x) back
      → All (Below x) (map entry (front ++ x ∷ back))
  table-Below x [] back (_, h) wf wb = (inl refl, All-Below x back h wb)
  table-Below x (y ∷ front) back (hy, h) (wy, wf) wb =
      (inr (score-lt x y hy wy), table-Below x front back h wf wb)

  -- what holds of all entries holds of the one in the middle
  All-middle :
      (P : Bytes × Ent → Type 0) (xs ys : Map Bytes Ent) (e : Bytes × Ent)
      → All P (xs ++ e ∷ ys)
      → P e
  All-middle P [] ys e (p, h) = p
  All-middle P (x ∷ xs) ys e (p, h) = All-middle P xs ys e h

  All-entry :
      (P : Bytes × Ent → Type 0) (x : Route) (front back : List Route)
      → All P (map entry (front ++ x ∷ back))
      → P (entry x)
  All-entry P x [] back (p, h) = p
  All-entry P x (y ∷ front) back (p, h) = All-entry P x front back h

  IsRoute-middle :
      (x : Route) (front back : List Route) → All IsRoute (front ++ x ∷ back) → IsRoute x
  IsRoute-middle x [] back (h, _) = h
  IsRoute-middle x (y ∷ front) back (_, h) = IsRoute-middle x front back h

  longest-found :
      (x : Route) (front back : List Route) (found : Found)
      → All IsRoute (front ++ x ∷ back)
      → InNet x.net di
      → All (Wider x) front
      → All (Wider x) back
      → IsLongest di (map entry (front ++ x ∷ back)) found
      → found ≡ found_of (entry x)
  longest-found x front back found h inside wf wb (inl (e, zero_scores)) = absurd (
      omega (
        arith,
        All-entry (λ y. score di y ≡ 0) x front back zero_scores,
        score-inside x (IsRoute-middle x front back h) inside,
      ))
  longest-found x front back found h inside wf wb (inr (before, after, e, split, is, pos, most)) =
      elim (All-middle (Below x) before after e
        (subst (All (Below x)) split (table-Below x front back h wf wb))) [
          | inl same ↦ is ∙ ap found_of same
          | inr less ↦ absurd (
              omega (
                arith,
                less,
                All-entry (λ y. score di y ≤ score di e) x front back most,
                score-inside x (IsRoute-middle x front back h) inside,
              ))
        ]

-- Of a table of IPv4 routes that the FPM ingester wrote, in whatever order and VRFs, no two of them
-- with the same prefix, the walk takes for an address the route with the longest prefix that has it:
-- its VRF, its prefix, the text of its next hop and the labels that it pushes, as the ingester resolved
-- them. The texts of the next hops are not empty.
pub table-found :
    (dst : Bytes) (di : ℕ) (x : Route) (front back : List Route)
    → parse_ip4 dst ≡ some di
    → All IsRoute (front ++ x ∷ back)
    → Distinct (front ++ x ∷ back)
    → InNet x.net di
    → All (Wider di x) front
    → All (Wider di x) back
    → route_lookup (table (front ++ x ∷ back)) dst ≡ record {
      vrf = x.vrf;
      prefix = net_text x.net;
      nexthop = nexthop_text x.nexthop;
      labels = labels_csv x.nexthop.labels;
    }
table-found dst di x front back addr h d inside wf wb =
    longest-found di x front back (route_lookup (table (front ++ x ∷ back)) dst) h inside wf wb (
      subst (λ m. IsLongest di m (route_lookup (table (front ++ x ∷ back)) dst))
        (by_prefix-table (front ++ x ∷ back) [] h d (none_yet (front ++ x ∷ back)))
        (route_lookup-IsLongest (table (front ++ x ∷ back)) dst di addr))
  where
    none_yet : (ys : List Route) → All (λ y. lookup {V = Ent} (net_text y.net) [] ≡ none) ys
    none_yet [] = tt
    none_yet (y ∷ ys) = (unfold lookup in refl, none_yet ys)
