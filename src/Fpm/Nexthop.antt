-- ===== src/Fpm/Nexthop.antt =====
-- internal/ingest/fpm.go: the nexthop objects (`handleNexthop`, `resolveNH`).
pub mod Objects
pub mod Chains
use for_visibility.Prelude.{
  ℕ, zero, suc, ◌+◌, ◌-◌, Bool, true, false, not, ◌&&◌, ◌||◌, Option, none, some, List, [], ◌∷◌,
  ◌++◌, ltb, ◌==◌, if◌then◌else◌, length, drop, Run, returns, ◌>>=◌,
}
use for_visibility.Prelude.Assoc.{Map, nat_eq, lookup, insert, remove}
use for_visibility.Text.{Bytes}
use for_visibility.Text.Address.{Ip}
use for_visibility.Wire.{le16, le32}
use for_visibility.Attr.{Attr, for_each_attr, parse_mpls_encap}
use for_visibility.Vrf.{Resolver}

-- A nil gateway is the empty one: `append([]byte(nil), p...)` of an empty payload is nil.
pub record Nexthop : Type 0 where
  pub gw : Ip
  pub oif : ℕ
  pub group : List ℕ
  pub labels : List ℕ
  pub blackhole : Bool

pub record Fpm : Type 0 where
  pub nh : Map ℕ Nexthop
  pub vrf : Resolver

abbrev pub is_nil : List ℕ → Bool
is_nil [] = true
is_nil (x ∷ xs) = false

-- `if len(p) >= k { v = … }`
abbrev pub read_if : ℕ → Bytes → ℕ → ℕ → ℕ
read_if k p v old = if ltb (length p) k then old else v

-- the variables that the callback of `handleNexthop` assigns
pub record NhScan : Type 0 where
  pub id : ℕ
  pub oif : ℕ
  pub gw : Ip
  pub group : List ℕ
  pub labels : List ℕ
  pub encap_type : ℕ
  pub bh : Bool

abbrev pub no_attrs : NhScan
no_attrs = record { id = 0; oif = 0; gw = []; group = []; labels = []; encap_type = 0; bh = false }

-- the loop over `struct nexthop_grp`, eight bytes each
unfoldable pub group_ids : Bytes → List ℕ
group_ids (a ∷ b ∷ c ∷ d ∷ w ∷ x ∷ y ∷ z ∷ p) = le32 (a ∷ b ∷ c ∷ d ∷ []) 0 ∷ group_ids p
group_ids _ = []

-- the cases of the callback, by attribute type
unfoldable pub scan_nh_attr : NhScan → ℕ → Bytes → Run NhScan
unfolding group_ids
scan_nh_attr s t p =
    if t == 1
    then returns (record s { id = read_if 4 p (le32 p 0) s.id })
    else if t == 5
    then returns (record s { oif = read_if 4 p (le32 p 0) s.oif })
    else if t == 6
    then returns (record s { gw = p })
    else if t == 3
    then returns (record s { bh = true })
    else if t == 7
    then returns (record s { encap_type = read_if 2 p (le16 p 0) s.encap_type })
    else if t == 8
    then (parse_mpls_encap p >>= λ labels. returns (record s { labels = labels }))
    else if t == 2
    then returns (record s { group = s.group ++ group_ids p })
    else returns s

unfoldable pub scan_nh : NhScan → List Attr → Run NhScan
unfolding scan_nh_attr
scan_nh s [] = returns s
scan_nh s (a ∷ attributes) = scan_nh_attr s a.atype a.payload >>= λ s'. scan_nh s' attributes

-- only MPLS encap (or none named) carries labels
abbrev pub mpls_labels : ℕ → List ℕ → List ℕ
mpls_labels encap_type labels =
    if not (encap_type == 0) && not (encap_type == 1) then [] else labels

-- the part of `handleNexthop` behind the walk
unfoldable pub store_nexthop : Fpm → Bool → NhScan → Fpm
store_nexthop f del s =
    let nexthop : Nexthop = record {
      gw = s.gw;
      oif = s.oif;
      group = s.group;
      labels = mpls_labels s.encap_type s.labels;
      blackhole = s.bh;
    } in
    if s.id == 0
    then f
    else if del
    then record f { nh = remove s.id f.nh }
    else record f { nh = insert s.id nexthop f.nh }

-- nlHdrLen + nhMsgLen is 24
unfoldable pub handle_nexthop : Fpm → Bytes → Bool → Run Fpm
handle_nexthop f b del =
    if ltb (length b) 24
    then returns f
    else (for_each_attr (drop 24 b) >>= λ attributes.
        scan_nh no_attrs attributes >>= λ s. returns (store_nexthop f del s))

-- what `resolveNH` returns
pub record Resolved : Type 0 where
  pub gw : Ip
  pub oif : ℕ
  pub blackhole : Bool
  pub labels : List ℕ

abbrev pub unresolved : Resolved
unresolved = record { gw = []; oif = 0; blackhole = false; labels = [] }

abbrev pub black_hole : Resolved
black_hole = record { gw = []; oif = 0; blackhole = true; labels = [] }

-- The cases of `resolveNH` on a nexthop that is there; `follow` is its recursive call.
unfoldable pub resolve_step : Nexthop → (ℕ → Resolved) → Resolved
resolve_step n follow =
    if n.blackhole
    then black_hole
    else if not (is_nil n.gw) || not (n.oif == 0)
    then record { gw = n.gw; oif = n.oif; blackhole = false; labels = n.labels }
    else elim n.group [ [] ↦ unresolved | g ∷ gs ↦ follow g ]

-- The first number is 5 - depth: `depth > 4` is 0.
unfoldable pub resolve_rounds : Map ℕ Nexthop → ℕ → ℕ → Resolved
unfolding resolve_step
resolve_rounds nh zero id = unresolved
resolve_rounds nh (suc rounds) id = elim (lookup id nh) [
  | none ↦ unresolved
  | some n ↦ resolve_step n (resolve_rounds nh rounds)
]

unfoldable pub resolve_nh : Map ℕ Nexthop → ℕ → ℕ → Resolved
unfolding resolve_rounds
resolve_nh nh id depth = resolve_rounds nh (5 - depth) id
