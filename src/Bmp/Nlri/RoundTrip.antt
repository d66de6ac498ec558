-- ===== src/Bmp/Nlri/RoundTrip.antt =====
-- What `parseVPNNLRI` reads from a labelled VPN-IPv4 prefix of RFC 3107 and RFC 4364.
use for_visibility.Prelude.{
  ℕ, ◌+◌, ◌-◌, ◌*◌, ◌/◌, ◌%◌, ◌≤◌, ◌<◌, ◌≡◌, some, [], ◌∷◌, ◌++◌, length, length-append, take,
  take-append_at, drop-append_at, arith, le→ltb,
}
use for_visibility.Text.{Bytes, text}
use for_visibility.Text.Decimal.{itoa}
use for_visibility.Text.Address.{ip_string}
use for_visibility.Bmp.Nlri.{Nlri, label_loop, format_rd, decode_nlri, parse_vpn_nlri}

-- A route with one label: the 20-bit label, three more bits, the 8 bytes of the route
-- distinguisher, and the bytes of the prefix, as many as its length needs.
pub record VpnRoute : Type 0 where
  pub label : ℕ
  pub traffic_class : ℕ
  pub rd : Bytes
  pub prefix_len : ℕ
  pub address : Bytes

pub record IsRoute (r : VpnRoute) : Type 0 where
  pub label_fits : r.label < 1048576
  pub class_fits : r.traffic_class < 8
  pub rd_size : length r.rd ≡ 8
  pub prefix_fits : r.prefix_len ≤ 32
  pub address_size : length r.address ≡ (r.prefix_len + 7) / 8

-- the label with its bottom bit set
abbrev label_word : VpnRoute → ℕ
label_word r = r.label * 16 + r.traffic_class * 2 + 1

abbrev label_bytes : VpnRoute → Bytes
label_bytes r =
    (label_word r / 65536 % 256) ∷ (label_word r / 256 % 256) ∷ (label_word r % 256) ∷ []

abbrev payload : VpnRoute → Bytes
payload r = label_bytes r ++ (r.rd ++ r.address)

-- the length octet counts the bits of the label, the route distinguisher and the prefix
unfoldable pub encode_route : VpnRoute → Bytes
encode_route r = (24 + 64 + r.prefix_len) ∷ payload r

-- the address with its missing bytes 0
abbrev pub route_address : VpnRoute → Bytes
route_address r = take 4 (r.address ++ 0 ∷ 0 ∷ 0 ∷ 0 ∷ [])

abbrev pub decoded : VpnRoute → Nlri
decoded r = record {
  rd = format_rd r.rd;
  prefix = ip_string (route_address r) ++ text "/" ++ itoa r.prefix_len;
  label = r.label;
  consumed = length (encode_route r);
}

payload-length : (r : VpnRoute) → IsRoute r → length (payload r) ≡ (24 + 64 + r.prefix_len + 7) / 8
payload-length r h = omega (arith, length-append r.rd r.address, h.rd_size, h.address_size)

label_loop-payload :
    (r : VpnRoute) → IsRoute r → label_loop (length (payload r)) 0 0 (payload r) ≡ (3, r.label)
unfolding label_loop
label_loop-payload r h = ground (arith, bottom, word)
  where
    bottom : label_word r % 256 % 2 ≡ 1
    bottom = omega arith

    word :
        (label_word r / 65536 % 256 * 65536 + label_word r / 256 % 256 * 256 + label_word r % 256)
          / 16
        ≡ r.label
    word = omega (arith, h.label_fits, h.class_fits)

decode-payload :
    (r : VpnRoute) → IsRoute r → decode_nlri (24 + 64 + r.prefix_len) (payload r) ≡ some (decoded r)
decode-payload r h =
    unfold decode_nlri in
    rw (
      label_loop-payload r h,
      le→ltb (length (payload r)) 11 (omega (arith, length-append r.rd r.address, h.rd_size)),
      take-append_at 8 r.rd r.address h.rd_size,
      drop-append_at 8 r.rd r.address h.rd_size,
      prefix_bits,
      consumed_bytes,
    )
  where
    prefix_bits : 24 + 64 + r.prefix_len - 88 ≡ r.prefix_len
    prefix_bits = omega arith

    consumed_bytes : 1 + (24 + 64 + r.prefix_len + 7) / 8 ≡ length (encode_route r)
    consumed_bytes = unfold encode_route in omega (arith, payload-length r h)

-- A route with one label is decoded to its route distinguisher, prefix, prefix length and label, and
-- exactly its bytes are consumed, whatever follows them.
pub parse_vpn_nlri-encode_route :
    (r : VpnRoute) (rest : Bytes)
    → IsRoute r
    → parse_vpn_nlri (encode_route r ++ rest) ≡ some (decoded r)
parse_vpn_nlri-encode_route r rest h =
    unfold parse_vpn_nlri encode_route in
    rw
      (
        le→ltb (length (((24 + 64 + r.prefix_len) ∷ payload r) ++ rest)) 1 (omega arith),
        le→ltb (length (((24 + 64 + r.prefix_len) ∷ payload r) ++ rest))
            (1 + (24 + 64 + r.prefix_len + 7) / 8)
            (omega (arith, payload-length r h, length-append (payload r) rest)),
        take-append_at ((24 + 64 + r.prefix_len + 7) / 8) (payload r) rest (payload-length r h),
      )
      (decode-payload r h)

pub encode_route-length : (r : VpnRoute) → 1 ≤ length (encode_route r)
unfolding encode_route
encode_route-length r = omega arith
