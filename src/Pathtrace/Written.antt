-- ===== src/Pathtrace/Written.antt =====
-- What the walk finds of the routes that the FPM ingester wrote: one route, and routes of two VRFs
-- for the same prefix.
use for_visibility.Prelude.{
  ℕ, ◌-◌, ◌/◌, ◌^◌, ◌≤◌, ◌<◌, ◌≡◌, ◌≢◌, refl, sym, ap, ◌∙◌, true, some, [], ◌∷◌, ◌++◌, append-nil,
  ==_iff,
}
use for_visibility.Prelude.Assoc.{Map}
use for_visibility.Text.{Bytes}
use for_visibility.Text.Address.{ip_string}
use for_visibility.Text.Cidr.{
  Cidr, parse_ip4, parse_cidr, contains, octets_number, parse_cidr-dotted,
}
use for_visibility.Attr.{labels_csv}
use for_visibility.Fpm.Nexthop.{Resolved, is_nil}
use for_visibility.Fpm.Route.{prefix_text, nexthop_text}
use for_visibility.Pathtrace.Lookup.{Ent, by_prefix, route_lookup}
use for_visibility.Pathtrace.Served.{
  added, added-by_prefix, added-plain, by_prefix-again, lookup-one, prefix-nonempty,
}

-- A network: four octets and the length of the prefix.
pub record Net : Type 0 where
  pub a : ℕ
  pub b : ℕ
  pub c : ℕ
  pub d : ℕ
  pub len : ℕ

abbrev pub IsNet : Net → Type 0
IsNet t = (t.a < 256) × (t.b < 256) × (t.c < 256) × (t.d < 256) × (t.len ≤ 32)

-- the text that the FPM ingester files a route of the network under
abbrev pub net_text : Net → Bytes
net_text t = prefix_text (t.a ∷ t.b ∷ t.c ∷ t.d ∷ []) t.len

abbrev pub net_cidr : Net → Cidr
net_cidr t = record { ip = octets_number t.a t.b t.c t.d; ones = t.len }

-- The bits of an address under the mask are those of the network.
abbrev pub InNet : Net → ℕ → Type 0
InNet t di = octets_number t.a t.b t.c t.d / 2 ^ (32 - t.len) ≡ di / 2 ^ (32 - t.len)

-- The text that the FPM ingester writes for an IPv4 prefix is read back as that network.
pub parse_cidr-net : (t : Net) → IsNet t → parse_cidr (net_text t) ≡ some (net_cidr t)
unfolding ip_string
parse_cidr-net t (a, b, c, d, l) = parse_cidr-dotted t.a t.b t.c t.d a b c d t.len l

by_prefix-done : (m : Map Bytes Ent) → by_prefix [] m ≡ m
unfolding by_prefix
by_prefix-done m = refl

module _ (t : Net) (net : IsNet t) (dst : Bytes) (di : ℕ) (addr : parse_ip4 dst ≡ some di)
    (inside : InNet t di) where
  net_nonempty : net_text t ≢ []
  net_nonempty = prefix-nonempty (net_text t) (net_cidr t) (parse_cidr-net t net)

  has_addr : contains (net_cidr t) di ≡ true
  has_addr = (==_iff _ _).1 inside

  -- In a table with one IPv4 route that the FPM ingester wrote, and nothing else, the walk finds that
  -- route for every address inside. The text of its next hop is not empty.
  pub added-found :
      (vrf : Bytes) (r : Resolved)
      → nexthop_text r ≢ []
      → route_lookup (added vrf (net_text t) r) dst ≡ record {
        vrf = vrf;
        prefix = net_text t;
        nexthop = nexthop_text r;
        labels = labels_csv r.labels;
      }
  added-found vrf r ne =
      let e : Ent = record { vrf = vrf; nh = nexthop_text r; lbl = labels_csv r.labels } in
      lookup-one (net_text t) dst (net_cidr t) di (parse_cidr-net t net) addr has_addr
        (added vrf (net_text t) r) e
        (ap (λ ups. by_prefix ups []) (sym (append-nil (added vrf (net_text t) r)))
          ∙ added-by_prefix vrf (net_text t) r [] net_nonempty
          ∙ by_prefix-done ((net_text t, e) ∷ []))
        ne

  -- When two VRFs have a route for the same prefix, the first one with labels and the second one
  -- without, the walk takes the next hop of the second with the labels of the first.
  pub shared_prefix-mixes :
      (vrf other : Bytes) (r s : Resolved)
      → s.labels ≡ []
      → nexthop_text s ≢ []
      → route_lookup (added vrf (net_text t) r ++ added other (net_text t) s) dst ≡ record {
        vrf = other;
        prefix = net_text t;
        nexthop = nexthop_text s;
        labels = labels_csv r.labels;
      }
  shared_prefix-mixes vrf other r s plain ne =
      let e : Ent = record { vrf = vrf; nh = nexthop_text r; lbl = labels_csv r.labels } in
      let e' : Ent = record { vrf = other; nh = nexthop_text s; lbl = labels_csv r.labels } in
      lookup-one (net_text t) dst (net_cidr t) di (parse_cidr-net t net) addr has_addr _ e'
        (added-by_prefix vrf (net_text t) r (added other (net_text t) s) net_nonempty
          ∙ ap (λ ups. by_prefix ups ((net_text t, e) ∷ []))
              (added-plain other (net_text t) s (ap is_nil plain))
          ∙ by_prefix-again (net_text t) net_nonempty e other (nexthop_text s) []
          ∙ by_prefix-done ((net_text t, e') ∷ []))
        ne
