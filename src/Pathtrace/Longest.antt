-- ===== src/Pathtrace/Longest.antt =====
-- `routeLookup` finds the longest matching prefix.
use for_visibility.Prelude.{
  ℕ, suc, ◌≤◌, ◌<◌, ◌≡◌, ◌⊎◌, inl, inr, refl, ap, ◌&&◌, Bool-cases, none, some, List, [], ◌∷◌, ◌++◌,
  if◌then◌else◌, All, All-map, ltb, ltb→lt, arith,
}
use for_visibility.Prelude.Assoc.{Map}
use for_visibility.Text.{Bytes}
use for_visibility.Text.Cidr.{parse_ip4, parse_cidr, contains}
use for_visibility.Gnmi.{Update}
use for_visibility.Exporter.{is_empty}
use for_visibility.Pathtrace.Lookup.{
  Ent, Found, not_found, Best, no_route, by_prefix, consider, longest, route_lookup,
}

-- How long an entry matches an address: one more than the length of its prefix, or 0 when it has no
-- next hop and no labels, when its prefix is no IPv4 prefix, or when the address is outside.
unfoldable pub score : ℕ → Bytes × Ent → ℕ
score di (pfx, e) =
    if is_empty e.nh && is_empty e.lbl
    then 0
    else elim (parse_cidr pfx) [ none ↦ 0 | some net ↦ if contains net di then suc net.ones else 0 ]

abbrev pub found_of : Bytes × Ent → Found
found_of (pfx, e) = record { vrf = e.vrf; prefix = pfx; nexthop = e.nh; labels = e.lbl }

-- a loop over `m` that began with `b` and ended with `r`: nothing in `m` was longer, or an entry is
-- the longest
abbrev Longest : ℕ → Map Bytes Ent → Best → Best → Type 0
Longest di m b r =
    ((r ≡ b) × All (λ y. score di y ≤ b.best) m)
    ⊎ ((front back : Map Bytes Ent) × (x : Bytes × Ent) × (m ≡ front ++ x ∷ back)
        × (r.found ≡ found_of x)
        × (r.best ≡ score di x)
        × (b.best < score di x)
        × All (λ y. score di y ≤ score di x) m)

consider-score :
    (di : ℕ) (pfx : Bytes) (e : Ent) (b : Best)
    → consider di pfx e b ≡ (
        if ltb b.best (score di (pfx, e))
        then record { best = score di (pfx, e); found = found_of (pfx, e) }
        else b)
unfolding consider score
consider-score di pfx e b = ground arith

skip_entry :
    (di : ℕ) (x : Bytes × Ent) (m : Map Bytes Ent) (b r : Best)
    → score di x ≤ b.best
    → Longest di m b r
    → Longest di (x ∷ m) b r
skip_entry di x m b r h (inl (e, all)) = inl (e, (h, all))
skip_entry di x m b r h (inr (front, back, y, split, f, s, l, all)) =
    inr (x ∷ front, back, y, ap (λ t. x ∷ t) split, f, s, l, (omega arith, all))

take_entry :
    (di : ℕ) (x : Bytes × Ent) (m : Map Bytes Ent) (b r : Best)
    → b.best < score di x
    → Longest di m (record { best = score di x; found = found_of x }) r
    → Longest di (x ∷ m) b r
take_entry di x m b r h (inl (e, all)) =
    inr ([], m, x, refl, ap (λ t. t.found) e, ap (λ t. t.best) e, h, (omega arith, all))
take_entry di x m b r h (inr (front, back, y, split, f, s, l, all)) =
    inr (
      x ∷ front,
      back,
      y,
      ap (λ t. x ∷ t) split,
      f,
      s,
      omega (arith, h, l),
      (omega (arith, l), all),
    )

longest-cons :
    (di : ℕ) (pfx : Bytes) (e : Ent) (m : Map Bytes Ent) (b : Best)
    → longest di ((pfx, e) ∷ m) b ≡ longest di m (consider di pfx e b)
unfolding longest
longest-cons di pfx e m b = refl

longest-Longest : (di : ℕ) (m : Map Bytes Ent) (b : Best) → Longest di m b (longest di m b)
longest-Longest di [] b = unfold longest in inl (refl, tt)
longest-Longest di ((pfx, e) ∷ m) b =
    rw (longest-cons di pfx e m b, consider-score di pfx e b)
      (elim (Bool-cases (ltb b.best (score di (pfx, e)))) [
        | inl t ↦ rw t (
            take_entry di (pfx, e) m b _ (ltb→lt b.best (score di (pfx, e)) t)
              (longest-Longest di m _))
        | inr f ↦ rw f (skip_entry di (pfx, e) m b _ (ground arith) (longest-Longest di m b))
      ])

-- `r` is an entry that matches, and no entry has a longer prefix that matches; or none matches.
abbrev pub IsLongest : ℕ → Map Bytes Ent → Found → Type 0
IsLongest di m r =
    ((r ≡ not_found) × All (λ y. score di y ≡ 0) m)
    ⊎ ((front back : Map Bytes Ent) × (x : Bytes × Ent) × (m ≡ front ++ x ∷ back)
        × (r ≡ found_of x)
        × (0 < score di x)
        × All (λ y. score di y ≤ score di x) m)

Longest-IsLongest :
    (di : ℕ) (m : Map Bytes Ent) (r : Best) → Longest di m no_route r → IsLongest di m r.found
Longest-IsLongest di m r (inl (same, all)) =
    inl (ap (λ t. t.found) same, All-map (λ y l. omega arith) m all)
Longest-IsLongest di m r (inr (front, back, x, split, f, s, l, all)) =
    inr (front, back, x, split, f, l, all)

-- The lookup of an IPv4 address finds nothing when no entry that the updates make matches it. Else
-- what it returns is an entry that matches, and no entry has a longer prefix that matches.
pub route_lookup-IsLongest :
    (ups : List Update) (dst : Bytes) (di : ℕ)
    → parse_ip4 dst ≡ some di
    → IsLongest di (by_prefix ups []) (route_lookup ups dst)
unfolding route_lookup
route_lookup-IsLongest ups dst di e =
    let m = by_prefix ups [] in
    rw (route_lookup, e)
      (Longest-IsLongest di m (longest di m no_route) (longest-Longest di m no_route))
