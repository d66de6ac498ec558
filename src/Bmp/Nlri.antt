-- ===== src/Bmp/Nlri.antt =====
-- internal/ingest/bmp.go: route distinguishers, route targets and labelled VPN-IPv4 prefixes
-- (`formatRD`, `parseRTs`, `parseVPNNLRI`).
pub mod RoundTrip
use for_visibility.Prelude.{
  ℕ, zero, suc, ◌+◌, ◌-◌, ◌*◌, ◌/◌, ◌%◌, Bool, Option, none, some, List, [], ◌∷◌, ◌++◌, ltb, ◌==◌,
  if◌then◌else◌, length, take, drop,
}
use for_visibility.Text.{Bytes, text}
use for_visibility.Text.Decimal.{itoa}
use for_visibility.Text.Address.{ip_string}
use for_visibility.Wire.{at, slice, be16, be32}

-- `a:n`
abbrev pub colon : Bytes → Bytes → Bytes
colon a n = a ++ text ":" ++ n

-- the three types: a 2-octet AS, an IPv4 address, a 4-octet AS
unfoldable pub format_typed : ℕ → Bytes → Bytes
format_typed kind v =
    if kind == 0
    then colon (itoa (be16 v 0)) (itoa (be32 v 2))
    else if kind == 1
    then colon (ip_string (slice 0 4 v)) (itoa (be16 v 4))
    else if kind == 2
    then colon (itoa (be32 v 0)) (itoa (be16 v 4))
    else []

unfoldable pub format_rd : Bytes → Bytes
unfolding format_typed
format_rd b = if ltb (length b) 8 then [] else format_typed (be16 b 0) (drop 2 b)

-- One extended community: subtype 2 is a route target, and its type is one of the three.
unfoldable pub route_target : Bytes → Option Bytes
unfolding format_typed
route_target c =
    if at c 1 == 2
    then (if ltb (at c 0) 3 then some (format_typed (at c 0) (drop 2 c)) else none)
    else none

abbrev pub cons_some : Option Bytes → List Bytes → List Bytes
cons_some (some x) xs = x ∷ xs
cons_some none xs = xs

-- Each round takes eight bytes.
rts_loop : ℕ → Bytes → List Bytes
rts_loop zero v = []
rts_loop (suc fuel) v =
    let rest = rts_loop fuel (drop 8 v) in
    if ltb (length v) 8 then [] else cons_some (route_target (take 8 v)) rest

unfoldable pub parse_rts : Bytes → List Bytes
unfolding rts_loop route_target
parse_rts v = rts_loop (length v) v

-- The loop over three-byte labels: how many bytes it takes, and the last label that it reads. Its
-- first number counts rounds, its second is `i`.
label_loop : ℕ → ℕ → ℕ → Bytes → ℕ × ℕ
label_loop zero i label bytes = (i, label)
label_loop (suc fuel) i label bytes =
    let word = at bytes i * 65536 + at bytes (i + 1) * 256 + at bytes (i + 2) in
    let rest = label_loop fuel (i + 3) (word / 16) bytes in
    if ltb (length bytes) (i + 3)
    then (i, label)
    else if at bytes (i + 2) % 2 == 1
    then (i + 3, word / 16)
    else rest

pub record Nlri : Type 0 where
  pub rd : Bytes
  pub prefix : Bytes
  pub label : ℕ
  pub consumed : ℕ

-- copy(ip, data[i:]) into four zero bytes
abbrev pub ip_at : ℕ → Bytes → Bytes
ip_at i bytes = take 4 (drop i bytes ++ 0 ∷ 0 ∷ 0 ∷ 0 ∷ [])

-- `bits - i*8`, and 0 if that is negative
unfoldable pub decode_nlri : ℕ → Bytes → Option Nlri
unfolding label_loop format_rd
decode_nlri bits bytes =
    let (i, label) = label_loop (length bytes) 0 0 bytes in
    if ltb (length bytes) (i + 8)
    then none
    else some (record {
      rd = format_rd (slice i (i + 8) bytes);
      prefix = ip_string (ip_at (i + 8) bytes) ++ text "/" ++ itoa (bits - (i + 8) * 8);
      label = label;
      consumed = 1 + (bits + 7) / 8;
    })

-- `none` is `consumed == 0`
unfoldable pub parse_vpn_nlri : Bytes → Option Nlri
unfolding decode_nlri
parse_vpn_nlri p =
    let bits = at p 0 in
    let total = (bits + 7) / 8 in
    if ltb (length p) 1
    then none
    else if ltb (length p) (1 + total)
    then none
    else decode_nlri bits (take total (drop 1 p))
