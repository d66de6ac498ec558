-- ===== src/Attr.antt =====
-- internal/ingest/fpm.go: the walk over Netlink attributes (`forEachAttr`), and the MPLS label
-- stacks nested in them (`parseMPLSEncap`, `decodeMPLSStack`, `labelsCSV`). The callback of the walk
-- is applied to the list of the attributes that the walk visits, in order. The walk ends in a
-- panic where Go slices past the end of the attributes.
pub mod Walk
pub mod Labels
use for_visibility.Prelude.{
  ℕ, zero, suc, ◌+◌, ◌-◌, ◌*◌, ◌/◌, ◌%◌, Bool, true, false, ◌||◌, List, [], ◌∷◌, ◌++◌, ltb, ◌==◌,
  if◌then◌else◌, length, take, drop, Run, returns, panics, ◌>>=◌,
}
use for_visibility.Text.{Bytes, text}
use for_visibility.Text.Decimal.{itoa}
use for_visibility.Wire.{at, slice, be32, le16}

-- an attribute's type, with the flag bits stripped, and its payload
pub record Attr : Type 0 where
  pub atype : ℕ
  pub payload : Bytes

-- (alen + 3) &^ 3
abbrev pub aligned : ℕ → ℕ
aligned n = (n + 3) / 4 * 4

-- `& 0x3fff` is `% 16384`. The last slice, `attrs[aligned:]`, panics where `aligned > len(attrs)`.
-- Each round takes four bytes at least, so `length attrs` rounds are enough.
walk : ℕ → Bytes → Run (List Attr)
walk zero attrs = returns []
walk (suc fuel) attrs =
    let alen = le16 attrs 0 in
    let here : Attr = record { atype = le16 attrs 2 % 16384; payload = slice 4 alen attrs } in
    let rest = walk fuel (drop (aligned alen) attrs) in
    if ltb (length attrs) 4
    then returns []
    else if ltb alen 4 || ltb (length attrs) alen
    then returns []
    else if ltb (length attrs) (aligned alen)
    then panics
    else (rest >>= λ attributes. returns (here ∷ attributes))

unfoldable pub for_each_attr : Bytes → Run (List Attr)
unfolding walk
for_each_attr attrs = walk (length attrs) attrs

-- entry >> 12 and entry & 0x100; each round takes four bytes
decode_loop : ℕ → Bytes → List ℕ
decode_loop zero p = []
decode_loop (suc fuel) p =
    let entry = be32 p 0 in
    let rest = decode_loop fuel (drop 4 p) in
    if ltb (length p) 4 then [] else ((entry / 4096) ∷ (if entry / 256 % 2 == 1 then [] else rest))

unfoldable pub decode_mpls_stack : Bytes → List ℕ
unfolding decode_loop
decode_mpls_stack p = decode_loop (length p) p

-- the last MPLS_IPTUNNEL_DST child counts
abbrev pub mpls_iptunnel_dst : ℕ
mpls_iptunnel_dst = 1

unfoldable pub encap_labels : List ℕ → List Attr → List ℕ
unfolding decode_mpls_stack
encap_labels labels [] = labels
encap_labels labels (a ∷ attributes) =
    encap_labels (if a.atype == mpls_iptunnel_dst then decode_mpls_stack a.payload else labels)
      attributes

unfoldable pub parse_mpls_encap : Bytes → Run (List ℕ)
unfolding for_each_attr encap_labels
parse_mpls_encap p = for_each_attr p >>= λ attributes. returns (encap_labels [] attributes)

-- `if i > 0 { s += "," }` before each label
csv_loop : Bytes → List ℕ → Bytes
csv_loop s [] = s
csv_loop s (x ∷ l) = csv_loop (s ++ text "," ++ itoa x) l

unfoldable pub labels_csv : List ℕ → Bytes
unfolding csv_loop
labels_csv [] = []
labels_csv (x ∷ l) = csv_loop (itoa x) l
